-- ===== src/Tests/Programs.antt =====
-- The output of user programs through the kernel.
use tupix.Base.{[], refl, some, true, ℕ, ◌++◌, ◌^◌, ◌-◌, ◌∷◌, ◌≡◌}
use tupix.Base.Result.{ok}
use tupix.Calls.{get_syscall_id}
use tupix.Format.Convert.{signed_field}
use tupix.Format.Grammar.{render}
use tupix.Format.{word}
use tupix.Isr.{user_interrupted}
use tupix.Kernel.{Kernel}
use tupix.Format
use tupix.Memory.Bytes.{memset}
use tupix.Numbers.{kitostr, kutostr}
use tupix.Strings.{codes, kstrlen, kstrncpy}
use tupix.User.Check
use tupix.User.Copies.{user_library_agrees}
use tupix.User.Util.{itostr, strlen, strncpy, umemset, utostr}
use tupix.Tests.Printing.{a_format, a_format-Prints, blank}
use tupix.Tests.Samples.{locals, sample}
use tupix.User.Calls.{OnlyPrints, printf-sends, putchar, sent, user_thread-sends}
use tupix.User.{printf, thread_char, user_thread}

-- Every word of the code is `svc #3`.
abbrev code_of : ℕ → ℕ
code_of address = 0xef00_0003

calls_putchar : get_syscall_id code_of 0x0040_0108 ≡ 3
unfolding get_syscall_id
calls_putchar = refl

in_user_mode : user_interrupted sample.regs.spsr ≡ true
unfolding user_interrupted
in_user_mode = refl

printf-sends_example :
    (k' : Kernel) × (printf
        (putchar locals code_of 0x0040_0108)
        (render a_format ++ 0 ∷ [])
        (word (2 ^ 32 - 5) ∷ [])
        (blank 21)
        sample
      ≡ ok k')
    × OnlyPrints sample k'
    × (k'.transmitted ≡ sent (b'a' ∷ signed_field (b'0' ∷ b'4' ∷ []) (2 ^ 32 - 5) ++ []) sample)
printf-sends_example =
    printf-sends locals code_of 0x0040_0108 calls_putchar [] (blank 21) sample a_format-Prints refl
      in_user_mode

-- The thread of the character A: the bytes on the line, the latest first.
greeting :
    (k' : Kernel) × (user_thread (putchar locals code_of 0x0040_0108) (some b'A') [] [] sample
      ≡ ok k')
    × (k'.transmitted ≡ b'\n' ∷ b'A' ∷ codes " !dlroW olleH")
unfolding sent thread_char
greeting =
    let (k', runs, kept, bytes) =
      user_thread-sends locals code_of 0x0040_0108 calls_putchar (some b'A') [] [] sample
        in_user_mode in
    (k', runs, bytes)

user_library_agrees_example :
    (utostr 0xbeef 16 (blank 33) ≡ kutostr 0xbeef 16 (blank 33))
    × (itostr 0xbeef 16 (blank 33) ≡ kitostr 0xbeef 16 (blank 33))
    × (strlen (blank 33) ≡ kstrlen (blank 33))
    × (strncpy (blank 33) (codes "%8x") 0xbeef ≡ kstrncpy (blank 33) (codes "%8x") 0xbeef)
    × (umemset (blank 33) 16 0xbeef ≡ memset (blank 33) 16 0xbeef)
    × (Check.check_format_str (blank 33) ≡ Format.check_format_str (blank 33))
    × (Check.calc_field_width (blank 33) 0xbeef ≡ Format.calc_field_width (blank 33) 0xbeef)
user_library_agrees_example = user_library_agrees 0xbeef 16 (blank 33) (codes "%8x")
