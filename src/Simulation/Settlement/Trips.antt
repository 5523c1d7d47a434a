-- ===== src/Simulation/Settlement/Trips.antt =====
-- The arithmetic of an entry and its exit.
use finbar.Common.{◌≡◌, ◌∙◌, sym, ap}
use finbar.Simulation.Number.{Number, neg}

-- Arithmetic without rounding.
pub record IsRing (F : Type 0) ⦃num : Number F⦄ : Type 0 where
  pub add_assoc : (x y z : F) → num.add (num.add x y) z ≡ num.add x (num.add y z)
  pub add_comm : (x y : F) → num.add x y ≡ num.add y x
  pub sub-eq-add : (x y : F) → num.sub x y ≡ num.add x (num.neg y)
  pub sub-nought : (x : F) → num.sub x (num.of_nat 0) ≡ x
  pub neg-add : (x y : F) → num.neg (num.add x y) ≡ num.add (num.neg x) (num.neg y)
  pub mul_comm : (x y : F) → num.mul x y ≡ num.mul y x
  pub sub-mul :
      (x y z : F) → num.mul (num.sub x y) z ≡ num.add (num.mul x z) (num.neg (num.mul y z))

module _ {F : Type 0} ⦃num : Number F⦄ (ring : IsRing F) where
  -- Two summands change places at the end of a sum.
  pub add-add : (x y z : F) → num.add (num.add x y) z ≡ num.add (num.add x z) y
  add-add x y z =
      ring.add_assoc x y z ∙ ap (num.add x) (ring.add_comm y z) ∙ sym (ring.add_assoc x z y)

  pub add-sub : (x y z : F) → num.add (num.sub x y) z ≡ num.sub (num.add x z) y
  add-sub x y z = rw (ring.sub-eq-add, ring.sub-eq-add) (add-add x (neg y) z)

  pub sub-sub : (x y z : F) → num.sub (num.sub x y) z ≡ num.sub (num.sub x z) y
  sub-sub x y z =
      rw (ring.sub-eq-add, ring.sub-eq-add, ring.sub-eq-add, ring.sub-eq-add)
        (add-add x (neg y) (neg z))

  pub sub-add : (x y z : F) → num.sub x (num.add y z) ≡ num.sub (num.sub x y) z
  sub-add x y z =
      ring.sub-eq-add x (num.add y z)
      ∙ ap (num.add x) (ring.neg-add y z)
      ∙ sym (ring.add_assoc x (neg y) (neg z))
      ∙ ap (λ s. num.add s (neg z)) (sym (ring.sub-eq-add x y))
      ∙ sym (ring.sub-eq-add (num.sub x y) z)

  -- b + (k + e) + (x + g)
  gather :
      (b k e x g : F)
      → num.add (num.add b (num.add k e)) (num.add x g)
        ≡ num.add b (num.add (num.add (num.add x k) e) g)
  gather b k e x g =
      ring.add_assoc b (num.add k e) (num.add x g)
      ∙ ap (num.add b) (
          sym (ring.add_assoc (num.add k e) x g)
          ∙ ap (λ s. num.add s g) (ring.add_comm (num.add k e) x ∙ sym (ring.add_assoc x k e)))

  -- A long round trip: b is the cash without it, z * f the cost and e its fee, z * x the proceeds and
  -- g their fee.
  pub long_trip :
      (b z f e x g : F)
      → num.add (num.sub b (num.add (num.mul z f) e)) (num.sub (num.mul z x) g)
        ≡ num.add b (num.sub (num.sub (num.sub (num.mul (num.sub x f) z) e) g) (num.of_nat 0))
  long_trip b z f e x g =
      let k = num.mul z f in
      let gross : num.mul (num.sub x f) z ≡ num.add (num.mul z x) (neg k) =
        ring.sub-mul x f z
        ∙ ap (λ y. num.add y (neg (num.mul f z))) (ring.mul_comm x z)
        ∙ ap (λ y. num.add (num.mul z x) (neg y)) (ring.mul_comm f z) in
      let cost : num.sub b (num.add k e) ≡ num.add b (num.add (neg k) (neg e)) =
        ring.sub-eq-add b (num.add k e) ∙ ap (num.add b) (ring.neg-add k e) in
      rw (cost, ring.sub-nought, ring.sub-eq-add, gross)
        (rw (ring.sub-eq-add, ring.sub-eq-add) (gather b (neg k) (neg e) (num.mul z x) (neg g)))

  -- A short one, where z * x is what buying back costs, and h the fee for borrowing.
  pub short_trip :
      (b z f e x g h : F)
      → num.add (num.add b (num.sub (num.mul z f) e)) (neg (num.add (num.add (num.mul z x) g) h))
        ≡ num.add b (num.sub (num.sub (num.sub (num.mul (num.sub f x) z) e) g) h)
  short_trip b z f e x g h =
      let gross : num.mul (num.sub f x) z ≡ num.add (num.mul z f) (neg (num.mul z x)) =
        ring.sub-mul f x z
        ∙ ap (λ y. num.add y (neg (num.mul x z))) (ring.mul_comm f z)
        ∙ ap (λ y. num.add (num.mul z f) (neg y)) (ring.mul_comm x z) in
      let outlay : neg (num.add (num.add (num.mul z x) g) h)
          ≡ num.add (num.add (neg (num.mul z x)) (neg g)) (neg h) =
        ring.neg-add (num.add (num.mul z x) g) h
        ∙ ap (λ y. num.add y (neg h)) (ring.neg-add (num.mul z x) g) in
      rw (outlay, gross, ring.sub-eq-add)
        (rw (ring.sub-eq-add, ring.sub-eq-add, ring.sub-eq-add)
          (sym (ring.add_assoc _ (num.add (neg (num.mul z x)) (neg g)) (neg h))
            ∙ ap (λ s. num.add s (neg h))
                (gather b (num.mul z f) (neg e) (neg (num.mul z x)) (neg g))
            ∙ ring.add_assoc b _ (neg h)
            ∙ ap (λ s. num.add b (num.add (num.add (num.add s (neg e)) (neg g)) (neg h)))
                (ring.add_comm (neg (num.mul z x)) (num.mul z f))))
