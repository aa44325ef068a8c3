-- ===== src/User.antt =====
-- user/src/std/io.c and user/src/sys/user_thread.c: formatted output of the user programs, one
-- system call per byte.
pub mod Util
pub mod Check
pub mod Copies
pub mod Output
pub mod Arguments
pub mod Loop
pub mod Calls
pub mod Main
use tupix.Base.{
  List, Option, [], drop, false, true, if◌then◌else◌, length, ltb, max, sub32, suc, zero, ℕ, ◌%◌,
  ◌+◌, ◌-◌, ◌==◌, ◌^◌, ◌||◌, ◌∷◌, none, some, ◌++◌,
}
use tupix.Base.Result.{Result, faulted, from_option, ok, timeout, ◌>>=◌}
use tupix.Format.{Argument, FieldWidth, byte_at, va_text, va_word, width_behind_sign, word}
use tupix.User.Check.{calc_field_width, check_format_str}
use tupix.User.Util.{itostr, strlen, utostr}
use tupix.Strings.{codes}

-- What `c` is: the word under `args`, or a backslash for NULL.
unfoldable pub thread_char : Option ℕ → ℕ
thread_char none = b'\\'
thread_char (some c) = c

-- `putchar` takes the machine to the state after its system call.
module _ {S : Type 0} (putchar : ℕ → S → Result S) where
  unfoldable pub print : List ℕ → S → Result S
  print [] s = faulted
  print (c ∷ str) s = elim (c == 0) [ true ↦ ok s | false ↦ putchar c s >>= λ s'. print str s' ]

  -- The loop of `print_with_padding`, with the number of rounds left.
  unfoldable pub pad : ℕ → ℕ → S → Result S
  pad padding zero s = ok s
  pad padding (suc n) s = putchar padding s >>= λ s'. pad padding n s'

  unfoldable pub print_padded : List ℕ → ℕ → ℕ → ℕ → S → Result S
  print_padded num_str len field_width padding s =
      pad padding (max len field_width - len) s >>= λ s'. print num_str s'

  -- The cases of `x`, `u` and `p` from the number on.
  unfoldable pub put_unsigned :
      ℕ → FieldWidth → List Argument → List ℕ → S → Result (S × List Argument × List ℕ)
  put_unsigned base w args num_str s = do
    (n, args) ← va_word args
    t ← utostr n base num_str
    len ← from_option t.len
    s ← print_padded t.str len w.field_width w.padding s
    ok (s, args, t.str)

  -- The case of `d` and `i`.
  unfoldable pub put_signed :
      FieldWidth → List Argument → List ℕ → S → Result (S × List Argument × List ℕ)
  put_signed w args num_str s = do
    (n, args) ← va_word args
    t ← itostr n 10 num_str
    len ← from_option t.len
    first ← byte_at t.str
    let offset : ℕ = if first == b'-' then 1 else 0
    s ← if first == b'-' then putchar b'-' s else ok s
    s ←
        print_padded (drop offset t.str) (sub32 len offset) (width_behind_sign w.field_width offset)
          w.padding s
    ok (s, args, t.str)

  unfoldable pub put_text :
      FieldWidth → List Argument → List ℕ → S → Result (S × List Argument × List ℕ)
  put_text w args num_str s = do
    (str, args) ← va_text args
    len ← strlen str
    s ← print_padded str len w.field_width w.padding s
    ok (s, args, num_str)

  -- The `switch` of `printf`.
  unfoldable pub put_argument :
      ℕ → FieldWidth → List Argument → List ℕ → S → Result (S × List Argument × List ℕ)
  put_argument c w args num_str s =
      if c == b'c'
      then (do (n, args) ← va_word args; s ← putchar (n % 2 ^ 8) s; ok (s, args, num_str))
      else if c == b's'
      then put_text w args num_str s
      else if c == b'x'
      then put_unsigned 16 w args num_str s
      else if c == b'd' || c == b'i'
      then put_signed w args num_str s
      else if c == b'u'
      then put_unsigned 10 w args num_str s
      else if c == b'p'
      then (do s ← print (codes "0x" ++ 0 ∷ []) s; put_unsigned 16 w args num_str s)
      else if c == b'%'
      then (do s ← putchar b'%' s; ok (s, args, num_str))
      else ok (s, args, num_str)

  -- The loop of `printf`, with fuel.
  unfoldable pub printf_loop : ℕ → List ℕ → ℕ → List Argument → List ℕ → S → Result S
  printf_loop zero str padding args num_str s = timeout
  printf_loop (suc fuel) [] padding args num_str s = faulted
  printf_loop (suc fuel) (c ∷ str) padding args num_str s = elim (c == 0) [
    | true ↦ ok s
    | false ↦ elim (c == b'%') [
      | true ↦ calc_field_width str padding >>= λ w. byte_at (drop w.flag_len str) >>= λ conversion.
          put_argument conversion w args num_str s >>= λ (s', args', num_str').
          printf_loop fuel (drop (w.flag_len + 1) str) w.padding args' num_str' s'
      | false ↦ putchar c s >>= λ s'. printf_loop fuel str padding args num_str s'
    ]
  ]

  unfoldable pub printf : List ℕ → List Argument → List ℕ → S → Result S
  printf format args num_str s = do
    good ← check_format_str format
    if good then printf_loop (suc (length format)) format b' ' args num_str s else ok s

  -- `stack` and `stack'` are what the buffers of the two calls hold before.
  unfoldable pub user_thread : Option ℕ → List ℕ → List ℕ → S → Result S
  user_thread args stack stack' s = do
    s ← printf (codes "Hello World! " ++ 0 ∷ []) [] stack s
    printf (codes "%c\n" ++ 0 ∷ []) (word (thread_char args) ∷ []) stack' s
