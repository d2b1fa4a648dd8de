-- ===== src/Prelude/Results.antt =====
-- `Result<A, E>` and its `?`.
use mathlib.Core.Path.{◌≡◌, refl, ap, ◌∙◌}
use mathlib.Core.Bool.{Bool, true, false}
use mathlib.Core.Logic.{◌⊎◌, inl, inr}
use mathlib.Core.Option.{Option, none, some}

pub data Result {ℓ κ} (E : Type κ) (A : Type ℓ) : Type (ℓ ⊔ κ) where
  ok : A → Result E A
  err : E → Result E A

-- `?`: the rest `k` runs on a success.
infixl 5 ◌>>=◌
abbrev pub ◌>>=◌ {μ ℓ κ} :
    {E : Type μ} {A : Type ℓ} {B : Type κ} → Result E A → (A → Result E B) → Result E B
err problem >>= k = err problem
ok value >>= k = k value

-- `if b { return Err(problem) }`
abbrev pub refuse_if {μ} : {E : Type μ} → Bool → E → Result E (Unit {0})
refuse_if false problem = ok tt
refuse_if true problem = err problem

infixl 5 ◌>>◌
abbrev pub ◌>>◌ {μ ℓ} : {E : Type μ} {B : Type ℓ} → Result E (Unit {0}) → Result E B → Result E B
test >> rest = test >>= λ _. rest

-- `Option::ok_or`
abbrev pub ok_or {ℓ μ} : {E : Type μ} {A : Type ℓ} → Option A → E → Result E A
ok_or none e = err e
ok_or (some a) e = ok a

-- A chain that succeeds: its first step did, and so did the rest on its value.
pub >>=-eq-ok {μ ℓ κ} :
    {E : Type μ} {A : Type ℓ} {B : Type κ} (step : Result E A) (k : A → Result E B) {answer : B}
    → (step >>= k) ≡ ok answer
    → (value : A) × (step ≡ ok value) × (k value ≡ ok answer)
>>=-eq-ok (err problem) k done = cc
>>=-eq-ok (ok value) k done = (value, refl, done)

pub refuse_if-eq-ok {μ} :
    {E : Type μ} (b : Bool) (e : E) {u : Unit {0}} → refuse_if b e ≡ ok u → b ≡ false
refuse_if-eq-ok true e h = cc
refuse_if-eq-ok false e h = refl

pub ok_or-eq-ok {ℓ μ} :
    {E : Type μ} {A : Type ℓ} (o : Option A) (e : E) {a : A} → ok_or o e ≡ ok a → o ≡ some a
ok_or-eq-ok none e h = cc
ok_or-eq-ok (some x) e h = cc

pub ok_injective {ℓ μ} :
    {E : Type μ} {A : Type ℓ} {a b : A} → ◌≡◌ {A = Result E A} (ok a) (ok b) → a ≡ b
ok_injective h = cc

pub Result-cases {ℓ μ} :
    {E : Type μ} {A : Type ℓ} (r : Result E A) → ((a : A) × (r ≡ ok a)) ⊎ ((e : E) × (r ≡ err e))
Result-cases (ok a) = inl (a, refl)
Result-cases (err e) = inr (e, refl)

-- A chain whose first step succeeds.
pub >>=-ok {μ ℓ κ} :
    {E : Type μ} {A : Type ℓ} {B : Type κ} (k : A → Result E B) {step : Result E A} {value : A}
    {answer : Result E B}
    → step ≡ ok value
    → k value ≡ answer
    → (step >>= k) ≡ answer
>>=-ok k first rest = ap (λ r. r >>= k) first ∙ rest
