-- ===== src/Simulation/Number.antt =====
-- What the simulator does with Python's `float`: the operations as an interface, with no law.
-- The laws that a theorem needs are named hypotheses of that theorem.
use finbar.Common.{ℕ, Bool, true, not, ◌≡◌, ◌⊎◌, if◌then◌else◌}

pub record Number (F : Type 0) : Type 0 where
  pub of_nat : ℕ → F
  -- `thousandths n` is the literal n / 1000.
  pub thousandths : ℕ → F
  pub add : F → F → F
  pub sub : F → F → F
  pub mul : F → F → F
  pub div : F → F → F
  pub neg : F → F
  pub abs : F → F
  pub lt : F → F → Bool
  pub le : F → F → Bool
  pub eq : F → F → Bool
  -- `round(x, digits)` and `math.isclose(x, y, rel_tol=1e-12)`.
  pub round : F → ℕ → F
  pub isclose : F → F → Bool

module _ {F : Type 0} ⦃num : Number F⦄ where
  infixl 65 ◌+◌ ◌-◌
  infixl 70 ◌*◌ ◌/◌
  abbrev pub ◌+◌ : F → F → F
  x + y = num.add x y

  abbrev pub ◌-◌ : F → F → F
  x - y = num.sub x y

  abbrev pub ◌*◌ : F → F → F
  x * y = num.mul x y

  abbrev pub ◌/◌ : F → F → F
  x / y = num.div x y

  abbrev pub neg : F → F
  neg = num.neg

  abbrev pub abs : F → F
  abs = num.abs

  abbrev pub lt : F → F → Bool
  lt = num.lt

  abbrev pub le : F → F → Bool
  le = num.le

  abbrev pub eq : F → F → Bool
  eq = num.eq

  abbrev pub nought : F
  nought = num.of_nat 0

  abbrev pub unity : F
  unity = num.of_nat 1

  -- Python's `max(x, y)` keeps the first unless the second is greater; so `min`.
  abbrev pub max : F → F → F
  max x y = if num.lt x y then y else x

  abbrev pub min : F → F → F
  min x y = if num.lt y x then y else x

  -- NaN is the float that is not `<=` itself.
  abbrev pub IsNumber : F → Type 0
  IsNumber x = num.le x x ≡ true

-- The order of IEEE floats: total away from NaN.
pub record IsOrdered (F : Type 0) ⦃num : Number F⦄ : Type 0 where
  pub le_trans : (x y z : F) → num.le x y ≡ true → num.le y z ≡ true → num.le x z ≡ true
  pub le_total : (x y : F) → IsNumber x → IsNumber y → (num.le x y ≡ true) ⊎ (num.le y x ≡ true)
  pub lt-eq-not-le : (x y : F) → IsNumber x → IsNumber y → num.lt x y ≡ not (num.le y x)
