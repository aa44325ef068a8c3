-- ===== src/Isr/Status/Text.antt =====
-- `psr_flags_str` of system/isr.c, against the fields of a status word.
use tupix.Base.{
  List, Option, [], ap, ap₂, append_assoc, arith, bit_and, drop, drop-drop, if◌then◌else◌, length,
  length-append, length-drop, length-take, none, refl, some, subst, suc, sym, take,
  take-append-drop, zero, ℕ, ◌%◌, ◌*◌, ◌++◌, ◌+◌, ◌-◌, ◌/◌, ◌<◌, ◌==◌, ◌^◌, ◌∙◌, ◌∷◌, ◌≡◌, ◌≢◌, ◌≤◌,
}
use tupix.Base.Result.{ok}
use tupix.Bits.{is_set}
use tupix.Bits.Laws.{bit_and-ones, bit_and_halves, bit_and_parts}
use tupix.Bits.Low.{bit_and-zero_right}
use tupix.Bits.Single.{bit_at, bit_suc}
use tupix.Isr.Status.{
  CpsrMode, codes, cpsr_mode, flag_char, kstrncpy_at, mode_name, psr_flags_str, write_from,
}
use tupix.Numbers.Writing.{write-append}
use tupix.Strings.{kstrncpy}
use tupix.Strings.Laws.{IsText, kstrncpy_lem, padded}
use native.Mathlib.Nat.{le_refl, one-le-pow, pow-suc}

-- `&` with one bit is that bit.
bit_and-power : (b word : ℕ) → bit_and word (2 ^ b) ≡ bit_at word b * 2 ^ b
bit_and-power zero word =
    omega (arith, bit_and_halves word 1, bit_and-zero_right (word / 2) (word / 2) (le_refl _))
bit_and-power (suc b) word =
    let half : 2 ^ suc b / 2 ≡ 2 ^ b = omega (arith, pow-suc 2 b) in
    rw (bit_suc word b) (
      omega (
        arith,
        bit_and_halves word (2 ^ suc b),
        ap (bit_and (word / 2)) half,
        bit_and-power b (word / 2),
        ap (λ (t : ℕ). bit_at (word / 2) b * t) (pow-suc 2 b),
        pow-suc 2 b,
      ))

is_set-bit : (word b : ℕ) → is_set word b ≡ (bit_at word b == 1)
unfolding is_set
is_set-bit word b =
    let one : 0 < 2 ^ b = one-le-pow b 2 (omega arith) in ground (arith, bit_and-power b word)

low_bits : (word : ℕ) → bit_and word 0b11111 ≡ word % 32
low_bits word =
    let cut : word ≡ word / 32 * 2 ^ 5 + word % 32 = omega arith in
    ap (λ t. bit_and t 0b11111) cut
    ∙ bit_and_parts 5 (word / 32) (word % 32) 0 31 (omega arith) (omega arith)
    ∙ omega
        (arith, bit_and-zero_right (word / 32) (word / 32) (le_refl _), bit_and-ones 5 (word % 32))

-- A field of the status word, as its letter or `_`.
unfoldable pub mark : ℕ → ℕ → ℕ → ℕ
mark flags bit letter = if flags / 2 ^ bit % 2 == 1 then letter else b'_'

-- The name of a processor mode.
unfoldable pub mode_text : ℕ → List ℕ
mode_text mode =
    if mode == 16
    then codes "User"
    else if mode == 17
    then codes "FIQ"
    else if mode == 18
    then codes "IRQ"
    else if mode == 19
    then codes "Supervisor"
    else if mode == 23
    then codes "Abort"
    else if mode == 27
    then codes "Undefined"
    else if mode == 31
    then codes "System"
    else if mode == 0
    then codes "Uninitialized"
    else codes "Unknown"

-- What a status word reads like: the fields N, Z, C, V, E, I, F and T, and the mode.
unfoldable pub status_text : ℕ → List ℕ
status_text flags =
    mark flags 31 b'N'
    ∷ mark flags 30 b'Z'
    ∷ mark flags 29 b'C'
    ∷ mark flags 28 b'V'
    ∷ b' '
    ∷ mark flags 9 b'E'
    ∷ b' '
    ∷ mark flags 7 b'I'
    ∷ mark flags 6 b'F'
    ∷ mark flags 5 b'T'
    ∷ b' '
    ∷ mode_text (flags % 32)

flag_char-mark : (flags bit letter : ℕ) → flag_char flags bit letter ≡ mark flags bit letter
unfolding flag_char mark
flag_char-mark flags bit letter = rw (is_set-bit flags bit) refl

mode_name-mode_text : (bits : ℕ) → (mode_name (cpsr_mode bits)).0 ≡ mode_text bits
unfolding mode_name cpsr_mode mode_text
mode_name-mode_text bits = ground arith

-- Each name fits behind the fields, and is copied with one NUL.
IsLabel : Option CpsrMode → Type 0
IsLabel k =
    ((mode_name k).1 ≡ suc (length (mode_name k).0))
    × IsText (mode_name k).0
    × (length (mode_name k).0 ≤ 13)

mode_name-IsLabel : (k : Option CpsrMode) → IsLabel k
unfolding IsLabel mode_name
mode_name-IsLabel none = omega arith
mode_name-IsLabel (some CpsrMode.user) = omega arith
mode_name-IsLabel (some _) = omega arith

write_from_lem :
    (before cs old after : List ℕ)
    → length old ≡ length cs
    → write_from (length before) cs (before ++ (old ++ after)) ≡ ok (before ++ (cs ++ after))
unfolding write_from
write_from_lem before [] [] after l = refl
write_from_lem before [] (o ∷ old) after l = absurd (omega arith)
write_from_lem before (c ∷ cs) [] after l = absurd (omega arith)
write_from_lem before (c ∷ cs) (o ∷ old) after l = rw (write-append before o (old ++ after) c) (
    ap₂ (λ i s. write_from i cs s) (omega (arith, length-append before (c ∷ [])))
      (sym (append_assoc before (c ∷ []) (old ++ after)))
    ∙ write_from_lem (before ++ c ∷ []) cs old after (omega arith)
    ∙ ap ok (append_assoc before (c ∷ []) (cs ++ after)))

padded-suc : (s : List ℕ) → padded (suc (length s)) s ≡ s ++ 0 ∷ []
unfolding padded
padded-suc [] = refl
padded-suc (c ∷ s) = ap (λ t. c ∷ t) (padded-suc s)

-- The copy of a name into a buffer that has room.
name_copied :
    (s rest : List ℕ)
    → IsText s
    → length s < length rest
    → kstrncpy rest (s ++ 0 ∷ 0 ∷ []) (suc (length s)) ≡ ok (s ++ 0 ∷ drop (suc (length s)) rest)
name_copied s rest h room =
    let n : ℕ = suc (length s) in
    let fits : length (take n rest) ≡ n = length-take n rest (omega arith) in
    ap₂ (λ r m. kstrncpy r (s ++ 0 ∷ 0 ∷ []) m) (sym (take-append-drop n rest)) (sym fits)
    ∙ kstrncpy_lem (take n rest) (drop n rest) s (0 ∷ []) h
    ∙ ap (λ m. ok (padded m s ++ drop n rest)) fits
    ∙ ap (λ t. ok (t ++ drop n rest)) (padded-suc s)
    ∙ ap ok (append_assoc s (0 ∷ []) (drop n rest))

-- The fields, as `psr_flags_str` writes them.
abbrev fields : ℕ → List ℕ
fields flags =
    mark flags 31 b'N'
    ∷ mark flags 30 b'Z'
    ∷ mark flags 29 b'C'
    ∷ mark flags 28 b'V'
    ∷ b' '
    ∷ mark flags 9 b'E'
    ∷ b' '
    ∷ mark flags 7 b'I'
    ∷ mark flags 6 b'F'
    ∷ mark flags 5 b'T'
    ∷ b' '
    ∷ []

-- For every status word and a buffer of at least 25 bytes, `psr_flags_str` returns: the buffer begins
-- with the letters of the fields that are set, `_` for the others, and the name of the mode of the
-- low five bits, then a NUL, and is unchanged behind it. The text has 24 characters at most.
pub psr_flags_str_writes :
    (flags : ℕ) (buffer : List ℕ)
    → 25 ≤ length buffer
    → (psr_flags_str flags buffer
        ≡ ok (status_text flags ++ 0 ∷ drop (suc (length (status_text flags))) buffer))
      × (length (status_text flags) ≤ 24)
unfolding psr_flags_str kstrncpy_at status_text IsLabel
psr_flags_str_writes flags buffer room =
    let name = mode_name-mode_text (bit_and flags 0b11111) ∙ ap mode_text (low_bits flags) in
    let (size, plain, short) = mode_name-IsLabel (cpsr_mode (bit_and flags 0b11111)) in
    let rest : List ℕ = drop 11 buffer in
    let behind : drop (suc (length (mode_text (flags % 32)))) rest
        ≡ drop (suc (length (status_text flags))) buffer =
      drop-drop (suc (length (mode_text (flags % 32)))) 11 buffer
      ∙ ap (λ k. drop k buffer) {y = suc (length (status_text flags))} (omega arith) in
    let front : length (take 11 buffer) ≡ 11 = length-take 11 buffer (omega arith) in
    let left : length rest ≡ length buffer - 11 = length-drop 11 buffer in
    let written : write_from 0 (fields flags) buffer ≡ ok (fields flags ++ rest) =
      ap (write_from 0 (fields flags)) (sym (take-append-drop 11 buffer))
      ∙ write_from_lem [] (fields flags) (take 11 buffer) rest front in
    let copied =
      name_copied (mode_name (cpsr_mode (bit_and flags 0b11111))).0 rest plain
        (omega (arith, left, short)) in
    (
      rw
          (
            flag_char-mark flags 31 b'N',
            flag_char-mark flags 30 b'Z',
            flag_char-mark flags 29 b'C',
            flag_char-mark flags 28 b'V',
            flag_char-mark flags 9 b'E',
            flag_char-mark flags 7 b'I',
            flag_char-mark flags 6 b'F',
            flag_char-mark flags 5 b'T',
            written,
            size,
            copied,
            name,
          )
          (ap (λ t. ok (fields flags ++ (mode_text (flags % 32) ++ 0 ∷ t))) behind),
      omega (arith, short, ap length name),
    )

mark-ne_zero : (flags bit letter : ℕ) → letter ≢ 0 → mark flags bit letter ≢ 0
unfolding mark
mark-ne_zero flags bit letter h = ground (arith, h)

mode_text-IsText : (bits : ℕ) → IsText (mode_text bits)
unfolding IsLabel
mode_text-IsText bits =
    subst IsText (mode_name-mode_text bits) (mode_name-IsLabel (cpsr_mode bits)).1

-- The text of a status word has no NUL in it.
pub status_text-IsText : (flags : ℕ) → IsText (status_text flags)
unfolding status_text
status_text-IsText flags = (
  mark-ne_zero flags 31 b'N' (omega arith),
  (
    mark-ne_zero flags 30 b'Z' (omega arith),
    (
      mark-ne_zero flags 29 b'C' (omega arith),
      (
        mark-ne_zero flags 28 b'V' (omega arith),
        (
          omega arith,
          (
            mark-ne_zero flags 9 b'E' (omega arith),
            (
              omega arith,
              (
                mark-ne_zero flags 7 b'I' (omega arith),
                (
                  mark-ne_zero flags 6 b'F' (omega arith),
                  (
                    mark-ne_zero flags 5 b'T' (omega arith),
                    (omega arith, mode_text-IsText (flags % 32)),
                  ),
                ),
              ),
            ),
          ),
        ),
      ),
    ),
  ),
)
