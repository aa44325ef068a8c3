-- ===== src/Base/Result.antt =====
-- How a kernel function ends: with a value, or not at all.
use mathlib.Core.Option.{Option, none, some}

-- `panicked` is a failed ASSERTM, `halted` is kendless_loop, `faulted` an access to memory that
-- is not there, and `timeout` stands for a loop that ran out of fuel.
pub data Result {ℓ} (A : Type ℓ) : Type ℓ where
  ok : A → Result A
  panicked halted faulted timeout : Result A

infixl 5 ◌>>=◌
abbrev pub ◌>>=◌ {ℓ κ} : {A : Type ℓ} {B : Type κ} → Result A → (A → Result B) → Result B
ok a >>= f = f a
panicked >>= f = panicked
halted >>= f = halted
faulted >>= f = faulted
timeout >>= f = timeout

-- An array read; out of bounds it faults.
abbrev pub from_option {ℓ} : {A : Type ℓ} → Option A → Result A
from_option none = faulted
from_option (some a) = ok a
