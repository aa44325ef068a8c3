-- ===== src/Sleep/Ticks.antt =====
-- `decrement_waits` of system/scheduler.c: the countdown of one thread and of a list of threads, as
-- a function on the table.
use tupix.Base.{
  All, List, Option-cases, [], arith, get_elem?, get_elem?-set_ne, inl, inr, none, refl, set, some,
  sub32, ℕ, ◌++◌, ◌<◌, ◌^◌, ◌∙◌, ◌∷◌, ◌≡◌, ◌≢◌,
}
use tupix.Kernel.{Tcb}

-- The thread in a slot waits one tick less; an `uint32` at 0 goes round.
unfoldable pub tick : ℕ → List Tcb → List Tcb
tick b ts = elim (get_elem? ts b) [
  | none ↦ ts
  | some t ↦ set ts b (record t { waiting_duration = sub32 t.waiting_duration 1 })
]

unfoldable pub tick_all : List ℕ → List Tcb → List Tcb
tick_all [] ts = ts
tick_all (b ∷ l) ts = tick_all l (tick b ts)

-- The thread in the slot has its last tick to wait.
abbrev pub Expires : List Tcb → ℕ → Type 0
Expires ts b = (t : Tcb) × (get_elem? ts b ≡ some t) × (t.waiting_duration ≡ 1)

-- It has more than that to wait.
abbrev pub Waits : List Tcb → ℕ → Type 0
Waits ts b =
    (t : Tcb) × (get_elem? ts b ≡ some t) × (t.waiting_duration < 2 ^ 32) × (t.waiting_duration ≢ 1)

-- No slot stands twice in the list.
abbrev pub Distinct : List ℕ → Type 0
Distinct [] = Unit {0}
Distinct (b ∷ l) = All (λ c. b ≢ c) l × Distinct l

pub tick_eq :
    (b : ℕ) (ts : List Tcb) (t : Tcb)
    → get_elem? ts b ≡ some t
    → tick b ts ≡ set ts b (record t { waiting_duration = sub32 t.waiting_duration 1 })
unfolding tick
tick_eq b ts t e = ground arith

pub get_elem?-tick_ne : (b c : ℕ) (ts : List Tcb) → b ≢ c → get_elem? (tick b ts) c ≡ get_elem? ts c
unfolding tick
get_elem?-tick_ne b c ts ne = elim (Option-cases (get_elem? ts b)) [
  | inl e ↦ ground arith
  | inr (t, e) ↦ rw (tick_eq b ts t e) (get_elem?-set_ne ts b c _ ne)
]

-- A tick of another thread changes neither.
pub All-Expires-tick :
    (b : ℕ) (l : List ℕ) (ts : List Tcb)
    → All (λ c. b ≢ c) l
    → All (Expires ts) l
    → All (Expires (tick b ts)) l
All-Expires-tick b [] ts ne h = tt
All-Expires-tick b (c ∷ l) ts ne h =
    ((h.0.0, get_elem?-tick_ne b c ts ne.0 ∙ h.0.1, h.0.2), All-Expires-tick b l ts ne.1 h.1)

pub All-Waits-tick :
    (b : ℕ) (l : List ℕ) (ts : List Tcb)
    → All (λ c. b ≢ c) l
    → All (Waits ts) l
    → All (Waits (tick b ts)) l
All-Waits-tick b [] ts ne h = tt
All-Waits-tick b (c ∷ l) ts ne h =
    ((h.0.0, get_elem?-tick_ne b c ts ne.0 ∙ h.0.1, h.0.2, h.0.3), All-Waits-tick b l ts ne.1 h.1)

All-append-parts : (P : ℕ → Type 0) (l m : List ℕ) → All P (l ++ m) → All P l × All P m
All-append-parts P [] m h = (tt, h)
All-append-parts P (b ∷ l) m h = let rest = All-append-parts P l m h.1 in ((h.0, rest.0), rest.1)

pub Distinct-append :
    (l m : List ℕ) → Distinct (l ++ m) → Distinct l × Distinct m × All (λ b. All (λ c. b ≢ c) m) l
Distinct-append [] m d = (tt, d, tt)
Distinct-append (b ∷ l) m d =
    let rest = Distinct-append l m d.1 in
    let parts = All-append-parts (λ c. b ≢ c) l m d.0 in
    ((parts.0, rest.0), rest.1, (parts.1, rest.2))

pub All-Waits-tick_all :
    (l m : List ℕ) (ts : List Tcb)
    → All (λ b. All (λ c. b ≢ c) m) l
    → All (Waits ts) m
    → All (Waits (tick_all l ts)) m
unfolding tick_all
All-Waits-tick_all [] m ts ne h = h
All-Waits-tick_all (b ∷ l) m ts ne h =
    All-Waits-tick_all l m (tick b ts) ne.1 (All-Waits-tick b m ts ne.0 h)

pub All-Expires-tick_all :
    (l m : List ℕ) (ts : List Tcb)
    → All (λ b. All (λ c. b ≢ c) m) l
    → All (Expires ts) m
    → All (Expires (tick_all l ts)) m
unfolding tick_all
All-Expires-tick_all [] m ts ne h = h
All-Expires-tick_all (b ∷ l) m ts ne h =
    All-Expires-tick_all l m (tick b ts) ne.1 (All-Expires-tick b m ts ne.0 h)

pub tick_all-append :
    (l m : List ℕ) (ts : List Tcb) → tick_all (l ++ m) ts ≡ tick_all m (tick_all l ts)
unfolding tick_all
tick_all-append [] m ts = refl
tick_all-append (b ∷ l) m ts = tick_all-append l m (tick b ts)

-- Parts of a list from which all of `l` differ.
pub Distinct-front :
    (l m n : List ℕ) → All (λ b. All (λ c. b ≢ c) (m ++ n)) l → All (λ b. All (λ c. b ≢ c) m) l
Distinct-front [] m n h = tt
Distinct-front (b ∷ l) m n h = ((All-append-parts (λ c. b ≢ c) m n h.0).0, Distinct-front l m n h.1)

pub Distinct-back :
    (l m n : List ℕ) → All (λ b. All (λ c. b ≢ c) (m ++ n)) l → All (λ b. All (λ c. b ≢ c) n) l
Distinct-back [] m n h = tt
Distinct-back (b ∷ l) m n h = ((All-append-parts (λ c. b ≢ c) m n h.0).1, Distinct-back l m n h.1)

pub Distinct-first :
    (l : List ℕ) (c : ℕ) (m : List ℕ)
    → All (λ b. All (λ c'. b ≢ c') (c ∷ m)) l
    → All (λ b. All (λ c'. b ≢ c') (c ∷ [])) l
Distinct-first [] c m h = tt
Distinct-first (b ∷ l) c m h = ((h.0.0, tt), Distinct-first l c m h.1)
