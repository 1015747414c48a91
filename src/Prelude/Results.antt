-- ===== src/Prelude/Results.antt =====
-- Go's `(value, error)` and the early returns of a chain of checks.
use mathlib.Core.Logic.{◌⊎◌, inl, inr}
use mathlib.Core.Path.{◌≡◌, refl}
use mathlib.Core.Bool.{Bool, true, false}

pub data Result {ℓ κ} (E : Type ℓ) (A : Type κ) : Type (ℓ ⊔ κ) where
  ok : A → Result E A
  err : E → Result E A

-- A lone `error`.
abbrev pub Checked {ℓ} : Type ℓ → Type ℓ
Checked E = Result E (Unit {0})

abbrev pub is_ok {ℓ κ} : {E : Type ℓ} {A : Type κ} → Result E A → Bool
is_ok (err _) = false
is_ok (ok _) = true

-- if bad { return e }
abbrev pub fail_if {ℓ} : {E : Type ℓ} → Bool → E → Checked E
fail_if false e = ok tt
fail_if true e = err e

infixl 5 ◌>>=◌ ◌>>◌
-- The next step of a chain, unless a step before it has failed.
abbrev pub ◌>>=◌ {ℓ} : {E : Type ℓ} {A B : Type 0} → Result E A → (A → Result E B) → Result E B
err e >>= next = err e
ok a >>= next = next a

-- The next check of a chain.
abbrev pub ◌>>◌ {ℓ} : {E : Type ℓ} {B : Type 0} → Checked E → Result E B → Result E B
check >> rest = check >>= λ _. rest

-- Inversion of a successful bind, where the parts stay shut.
pub >>=-eq-ok {ℓ} :
    {E : Type ℓ} {A B : Type 0} (step : Result E A) (next : A → Result E B) {out : B}
    → (step >>= next) ≡ ok out
    → (mid : A) × (step ≡ ok mid) × (next mid ≡ ok out)
>>=-eq-ok (err e) next done = cc
>>=-eq-ok (ok mid) next done = (mid, refl, done)

pub fail_if->>-eq-ok {ℓ} :
    {E : Type ℓ} {B : Type 0} (bad : Bool) (e : E) (k : Result E B) {b : B}
    → (fail_if bad e >> k) ≡ ok b
    → (bad ≡ false) × (k ≡ ok b)
fail_if->>-eq-ok true e k h = cc
fail_if->>-eq-ok false e k h = (refl, h)

pub Result-cases {ℓ κ} :
    {E : Type ℓ} {A : Type κ} (m : Result E A) → ((a : A) × (m ≡ ok a)) ⊎ ((e : E) × (m ≡ err e))
Result-cases (ok a) = inl (a, refl)
Result-cases (err e) = inr (e, refl)

pub ok_inj {ℓ κ} : {E : Type ℓ} {A : Type κ} {a b : A} → ◌≡◌ {A = Result E A} (ok a) (ok b) → a ≡ b
ok_inj h = cc

pub >>-eq-ok {ℓ} :
    {E : Type ℓ} {B : Type 0} (m : Checked E) (k : Result E B) {b : B}
    → (m >> k) ≡ ok b
    → (m ≡ ok tt) × (k ≡ ok b)
>>-eq-ok (ok u) k h = (refl, h)
>>-eq-ok (err e) k h = cc
