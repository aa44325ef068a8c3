-- ===== src/Isr/Status.antt =====
-- system/isr.c: the text of a status word, for the register dumps.
pub mod Text
use tupix.Base.{
  List, Option, [], bit_and, drop, if◌then◌else◌, none, some, suc, take, ℕ, ◌++◌, ◌==◌, ◌∷◌,
}
use tupix.Base.Result.{Result, ok, ◌>>=◌}
use tupix.Bits.{is_set}
use tupix.Numbers.{write}
use tupix.Strings.{codes, kstrncpy}

-- `enum cpsr_mode_bits`
pub data CpsrMode : Type 0 where
  user fiq irq supervisor abort undefined system uninitialized : CpsrMode

unfoldable pub cpsr_mode : ℕ → Option CpsrMode
cpsr_mode bits =
    if bits == 0b10000
    then some user
    else if bits == 0b10001
    then some fiq
    else if bits == 0b10010
    then some irq
    else if bits == 0b10011
    then some supervisor
    else if bits == 0b10111
    then some abort
    else if bits == 0b11011
    then some undefined
    else if bits == 0b11111
    then some system
    else if bits == 0
    then some uninitialized
    else none

-- The literal that the `switch` copies, and the number of bytes that it asks for.
unfoldable pub mode_name : Option CpsrMode → List ℕ × ℕ
mode_name (some user) = (codes "User", 5)
mode_name (some fiq) = (codes "FIQ", 4)
mode_name (some irq) = (codes "IRQ", 4)
mode_name (some supervisor) = (codes "Supervisor", 11)
mode_name (some abort) = (codes "Abort", 6)
mode_name (some undefined) = (codes "Undefined", 10)
mode_name (some system) = (codes "System", 7)
mode_name (some uninitialized) = (codes "Uninitialized", 14)
mode_name none = (codes "Unknown", 8)

unfoldable pub flag_char : ℕ → ℕ → ℕ → ℕ
flag_char flags bit letter = if is_set flags bit then letter else b'_'

-- `str[i] = c` for the characters of a list, from the offset `i` on.
unfoldable pub write_from : ℕ → List ℕ → List ℕ → Result (List ℕ)
write_from i [] str = ok str
write_from i (c ∷ cs) str = write str i c >>= λ written. write_from (suc i) cs written

-- `kstrncpy(str + i, src, n)`, as what `str` holds then.
unfoldable pub kstrncpy_at : ℕ → List ℕ → List ℕ → ℕ → Result (List ℕ)
kstrncpy_at i str src n = kstrncpy (drop i str) src n >>= λ copied. ok (take i str ++ copied)

-- Each literal ends with a NUL of its own and the one of C.
unfoldable pub psr_flags_str : ℕ → List ℕ → Result (List ℕ)
psr_flags_str flags str = do
  str ←
      write_from 0
        (flag_char flags 31 b'N'
          ∷ flag_char flags 30 b'Z'
          ∷ flag_char flags 29 b'C'
          ∷ flag_char flags 28 b'V'
          ∷ b' '
          ∷ flag_char flags 9 b'E'
          ∷ b' '
          ∷ flag_char flags 7 b'I'
          ∷ flag_char flags 6 b'F'
          ∷ flag_char flags 5 b'T'
          ∷ b' '
          ∷ [])
        str
  let (name, n) = mode_name (cpsr_mode (bit_and flags 0b11111))
  kstrncpy_at 11 str (name ++ 0 ∷ 0 ∷ []) n
