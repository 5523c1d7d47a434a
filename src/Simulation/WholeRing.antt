-- ===== src/Simulation/WholeRing.antt =====
-- The integers meet the laws of exact arithmetic.
use finbar.Common.{
  ℕ, ◌+◌, ◌*◌, ◌≡◌, refl, ap, arith, ℤ, to_ℕ, neg_part, sub_ℕ, neg_ℤ, ◌+ℤ◌, ◌-ℤ◌, ◌*ℤ◌,
}
use finbar.Simulation.Sample.{whole}
use finbar.Simulation.Settlement.Trips.{IsRing}
use finbar.Simulation.Ledger.{IsExact}

sub_ℕ_parts : (a b : ℕ) → to_ℕ (sub_ℕ a b) + b ≡ neg_part (sub_ℕ a b) + a
sub_ℕ_parts a b = ground arith

sub_ℕ_eq : (a b c d : ℕ) → a + d ≡ c + b → sub_ℕ a b ≡ sub_ℕ c d
sub_ℕ_eq a b c d h = ground arith

*ℤ_comm : (x y : ℤ) → x *ℤ y ≡ y *ℤ x
*ℤ_comm x y = sub_ℕ_eq _ _ _ _ (grind arith)

scaled : (t n a b k : ℕ) → t + a ≡ n + b → t * k + a * k ≡ n * k + b * k
scaled t n a b k h = grind (arith, ap (λ (v : ℕ). v * k) h)

spread : (a b k : ℕ) → (a + b) * k ≡ a * k + b * k
spread a b k = grind arith

products :
    (t n tx nx ty ny tz nz a b c d e g : ℕ)
    → t + (nx + ty) ≡ n + (tx + ny)
    → a + (tx * nz + nx * tz) ≡ b + (tx * tz + nx * nz)
    → c + (ty * nz + ny * tz) ≡ d + (ty * tz + ny * nz)
    → e + c ≡ g + d
    → t * tz + n * nz + (b + g) ≡ a + e + (t * nz + n * tz)
products t n tx nx ty ny tz nz a b c d e g h1 h2 h3 h4 = omega (
  arith,
  scaled t n (nx + ty) (tx + ny) tz h1,
  scaled t n (nx + ty) (tx + ny) nz h1,
  spread nx ty tz,
  spread tx ny tz,
  spread nx ty nz,
  spread tx ny nz,
)

-ℤ_mul : (x y z : ℤ) → (x -ℤ y) *ℤ z ≡ (x *ℤ z) +ℤ neg_ℤ (y *ℤ z)
-ℤ_mul x y z = sub_ℕ_eq _ _ _ _ (
    products _ _ (to_ℕ x) (neg_part x) (to_ℕ y) (neg_part y) (to_ℕ z) (neg_part z) _ _ _ _ _ _
      (sub_ℕ_parts _ _) (sub_ℕ_parts _ _) (sub_ℕ_parts _ _) (sub_ℕ_parts _ _))

whole-IsRing : IsRing ℤ
whole-IsRing = record {
  add_assoc = λ x y z. ground arith;
  add_comm = λ x y. ground arith;
  sub-eq-add = λ x y. ground arith;
  sub-nought = λ x. ground arith;
  neg-add = λ x y. ground arith;
  mul_comm = *ℤ_comm;
  sub-mul = -ℤ_mul;
}

pub whole-IsExact : IsExact ℤ
whole-IsExact = record {
  ring = whole-IsRing;
  nought_eq = refl;
  eq_nought = λ x e. ground arith;
  lt_irrefl = refl;
  positive = λ x e. ground arith;
  negative = λ x e. ground arith;
  positive_eq = λ x e. ground arith;
  negative_eq = λ x e. ground arith;
  abs_positive = λ x e. ground arith;
  abs_negative = λ x e. ground arith;
}
