-- ===== src/Mmu/Domains.antt =====
-- The domain access control register of driver/mmu.c.
use tupix.Base.{ap, arith, refl, suc, zero, ℕ, ◌%◌, ◌*◌, ◌+◌, ◌-◌, ◌/◌, ◌<◌, ◌^◌, ◌≡◌}
use tupix.Bits.Low.{set_bit_to-low}
use tupix.Mmu.{dacr_domain_client_access, set_dacr_domain_access, get_dacr_init_val}
use tupix.Bits.{set_bit_to}

full_2 : (2 ^ (32 - 2) - 1) * 2 ^ 2 + 2 ^ 2 ≡ 2 ^ 32
full_2 = refl

cleared_domain : (low : ℕ) → low < 4 → set_bit_to low 0 1 2 ≡ dacr_domain_client_access
unfolding set_bit_to
cleared_domain zero h = refl
cleared_domain (suc zero) h = refl
cleared_domain (suc (suc zero)) h = refl
cleared_domain (suc (suc (suc zero))) h = refl
cleared_domain (suc (suc (suc (suc n)))) h = absurd (omega arith)

-- `get_dacr_init_val` gives domain 0 client access, and keeps the access of the other domains.
pub get_dacr_init_val_keeps :
    (dacr : ℕ)
    → dacr < 2 ^ 32
    → (get_dacr_init_val dacr % 4 ≡ dacr_domain_client_access)
      × (get_dacr_init_val dacr / 4 ≡ dacr / 4)
unfolding get_dacr_init_val set_dacr_domain_access
get_dacr_init_val_keeps dacr h =
    let split : dacr ≡ dacr / 4 * 2 ^ 2 + dacr % 4 = omega arith in
    let value : set_bit_to (dacr / 4 * 2 ^ 2 + dacr % 4) 0 1 2
        ≡ dacr / 4 * 2 ^ 2 + set_bit_to (dacr % 4) 0 1 2 =
      set_bit_to-low 2 full_2 (omega arith) (dacr / 4) (dacr % 4) 0 1 2 (omega arith) (omega arith)
        (omega arith) (omega arith) (omega arith) in
    grind (
      arith,
      value,
      cleared_domain (dacr % 4) (omega arith),
      ap (λ (t : ℕ). set_bit_to t 0 1 2) split,
    )
