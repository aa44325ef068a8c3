-- ===== src/Base/Chains.antt =====
-- Chains of fallible steps.
use tupix.Base.Result.{Result, faulted, halted, ok, panicked, timeout, ◌>>=◌}
use mathlib.Core.Path.{◌≡◌, ap, refl}

-- A chain that returns has a first step that returns.
pub split_bind {ℓ κ} :
    {A : Type ℓ} {B : Type κ} (r : Result A) (f : A → Result B) (b : B)
    → (r >>= f) ≡ ok b
    → (a : A) × (r ≡ ok a) × (f a ≡ ok b)
split_bind (ok a) f b h = (a, refl, h)
split_bind panicked f b h = absurd (cc h)
split_bind halted f b h = absurd (cc h)
split_bind faulted f b h = absurd (cc h)
split_bind timeout f b h = absurd (cc h)

pub ok_injective {ℓ} : {A : Type ℓ} {a b : A} → ok a ≡ ok b → a ≡ b
ok_injective h = cc h

-- Steps after a chain are steps after its last one.
pub regroup {ℓ κ μ} :
    {A : Type ℓ} {B : Type κ} {C : Type μ} (m : Result A) (next : A → Result B)
    (last : B → Result C)
    → ((m >>= next) >>= last) ≡ (m >>= λ x. next x >>= last)
regroup (ok x) next last = refl
regroup timeout next last = refl
regroup faulted next last = refl
regroup halted next last = refl
regroup panicked next last = refl

-- Two continuations that agree on every value.
pub bind_each {ℓ κ} :
    {A : Type ℓ} {B : Type κ} (m : Result A) (next other : A → Result B)
    → ((x : A) → next x ≡ other x)
    → (m >>= next) ≡ (m >>= other)
bind_each m next other agree = ap (λ k. m >>= k) (λ i x. agree x i)

-- The same on the value that there is.
pub bind_agrees {ℓ κ} :
    {A : Type ℓ} {B : Type κ} (m : Result A) (f g : A → Result B)
    → ((a : A) → m ≡ ok a → f a ≡ g a)
    → (m >>= f) ≡ (m >>= g)
bind_agrees (ok a) f g h = h a refl
bind_agrees panicked f g h = refl
bind_agrees halted f g h = refl
bind_agrees faulted f g h = refl
bind_agrees timeout f g h = refl
