-- ===== src/Bits.antt =====
-- include/std/bits.h: the macros on the bits of a `uint32`.
pub mod Laws
pub mod Low
pub mod Single
use tupix.Base.{
  Bool, bit_and, bit_or, if◌then◌else◌, ltb, not, suc, u32, zero, ℕ, ◌*◌, ◌+◌, ◌-◌, ◌==◌, ◌^◌,
}

-- `1U << bit`, for a bit of the word.
abbrev pub one_shl : ℕ → ℕ
one_shl bit = 2 ^ bit

-- `SET_BIT`, as the new value of the word.
unfoldable pub set_bit : ℕ → ℕ → ℕ
set_bit bitfield bit = if ltb 31 (u32 bit) then bitfield else bit_or bitfield (one_shl (u32 bit))

-- `CLEAR_BIT`; `~m` is the 32-bit complement.
unfoldable pub clear_bit : ℕ → ℕ → ℕ
clear_bit bitfield bit =
    if ltb 31 (u32 bit) then bitfield else bit_and bitfield (2 ^ 32 - 1 - one_shl (u32 bit))

-- The loop of `SET_BIT_TO` that clears `left` bits from bit `i` on.
unfoldable pub clear_bits : ℕ → ℕ → ℕ → ℕ
clear_bits zero i bitfield = bitfield
clear_bits (suc left) i bitfield = clear_bits left (i + 1) (clear_bit bitfield i)

-- `SET_BIT_TO`; no caller passes bits past the end of the word, so the loop's counter does not wrap.
unfoldable pub set_bit_to : ℕ → ℕ → ℕ → ℕ → ℕ
unfolding clear_bits clear_bit
set_bit_to bitfield bit value value_len =
    if ltb 31 (u32 bit)
    then bitfield
    else bit_or (clear_bits value_len bit bitfield)
        (u32 (bit_and value (2 ^ value_len - 1) * 2 ^ bit))

-- `IS_SET`
unfoldable pub is_set : ℕ → ℕ → Bool
is_set bitfield bit = not (bit_and bitfield (one_shl bit) == 0)
