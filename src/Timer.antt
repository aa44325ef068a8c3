-- ===== src/Timer.antt =====
-- driver/timer.c: the local timer of the core.
use tupix.Base.{Bool, ℕ}
use tupix.Bits.{clear_bit, set_bit, is_set, set_bit_to}

-- `struct local_interrupt`, less its padding.
pub record LocalInterrupt : Type 0 where
  pub routing : ℕ
  pub ctrl_stat : ℕ
  pub clear_reload : ℕ

unfoldable pub reset_timer : LocalInterrupt → LocalInterrupt
unfolding set_bit
reset_timer t = record t { clear_reload = set_bit (set_bit t.clear_reload 31) 30 }

unfoldable pub l_timer_is_interrupting : LocalInterrupt → Bool
unfolding is_set
l_timer_is_interrupting t = is_set t.ctrl_stat 31

unfoldable pub enable_timer : LocalInterrupt → LocalInterrupt
unfolding set_bit
enable_timer t = record t { ctrl_stat = set_bit t.ctrl_stat 29 }

unfoldable pub disable_timer : LocalInterrupt → LocalInterrupt
unfolding clear_bit
disable_timer t = record t { ctrl_stat = clear_bit t.ctrl_stat 29 }

-- The reload value is `(uint32)(L_TIMER_CLOCK_SPEED * LOCAL_TIMER_US)`, 38.4 times a million.
abbrev pub reload_val : ℕ
reload_val = 38_400_000

unfoldable pub init_local_timer : LocalInterrupt → LocalInterrupt
unfolding set_bit set_bit_to
init_local_timer t = record {
  routing = set_bit_to t.routing 0 0 3;
  ctrl_stat = set_bit (set_bit_to (set_bit 0 28) 0 reload_val 28) 29;
  clear_reload = set_bit t.clear_reload 30;
}
