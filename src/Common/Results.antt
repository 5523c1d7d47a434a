-- ===== src/Common/Results.antt =====
-- A computation that may raise: Python's exceptions as values, with `do`.
use mathlib.Core.Path.{◌≡◌, refl}
use mathlib.Core.Bool.{Bool, true, false}

pub data Result {ℓ κ} (E : Type κ) (A : Type ℓ) : Type (ℓ ⊔ κ) where
  ok : A → Result E A
  err : E → Result E A

infixl 5 ◌>>=◌
abbrev pub ◌>>=◌ {ℓ κ μ} :
    {E : Type κ} {A : Type ℓ} {B : Type μ} → Result E A → (A → Result E B) → Result E B
ok a >>= f = f a
err e >>= f = err e

pub ok-injective {ℓ κ} :
    {E : Type κ} {A : Type ℓ} {a b : A} → ◌≡◌ {A = Result E A} (ok a) (ok b) → a ≡ b
ok-injective h = cc

-- A sequence that succeeds is made of two parts that succeed.
pub >>=-eq-ok {κ ℓ μ} :
    {B : Type μ} {E : Type κ} {A : Type ℓ} {out : B} (first : Result E A) (next : A → Result E B)
    (ran : (first >>= next) ≡ ok out)
    → (mid : A) × (first ≡ ok mid) × (next mid ≡ ok out)
>>=-eq-ok (err raised) next ran = cc
>>=-eq-ok (ok mid) next ran = (mid, refl, ran)

pub >>=-assoc {κ ℓ μ ν} :
    {C : Type ν} {B : Type μ} {E : Type κ} {A : Type ℓ} (first : Result E A) (next : A → Result E B)
    (last : B → Result E C)
    → ((first >>= next) >>= last) ≡ (first >>= λ mid. next mid >>= last)
>>=-assoc (err raised) next last = refl
>>=-assoc (ok mid) next last = refl

-- Sequences with the same first part are equal if they go on alike from where it succeeds.
pub >>=-eq_of_ok {κ ℓ μ} :
    {B : Type μ} {E : Type κ} {A : Type ℓ} (first : Result E A) (next other : A → Result E B)
    → ((mid : A) → first ≡ ok mid → next mid ≡ other mid)
    → (first >>= next) ≡ (first >>= other)
>>=-eq_of_ok (err raised) next other alike = refl
>>=-eq_of_ok (ok mid) next other alike = alike mid refl

abbrev pub is_ok {κ ℓ} : {E : Type κ} {A : Type ℓ} → Result E A → Bool
is_ok (err raised) = false
is_ok (ok value) = true

-- A sequence succeeds if its first part does, and the second does on what the first yields.
pub is_ok->>= {κ ℓ μ} :
    {B : Type μ} {E : Type κ} {A : Type ℓ} (first : Result E A) (next : A → Result E B)
    → is_ok first ≡ true
    → ((mid : A) → first ≡ ok mid → is_ok (next mid) ≡ true)
    → is_ok (first >>= next) ≡ true
is_ok->>= (err raised) next succeeds rest = cc
is_ok->>= (ok mid) next succeeds rest = rest mid refl

pub result_of {κ ℓ} :
    {E : Type κ} {A : Type ℓ} (r : Result E A) → is_ok r ≡ true → (value : A) × (r ≡ ok value)
result_of (err raised) succeeds = cc
result_of (ok value) succeeds = (value, refl)
