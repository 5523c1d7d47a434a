-- ===== src/Profile/Area/Bounds.antt =====
-- What expand_value_area of _profile_utils.py returns.
use finbar.Common.{
  ◌∙◌, ap, sym, ap, ℕ, zero, suc, ◌+◌, ◌<◌, ◌≤◌, ◌≡◌, refl, ◌⊎◌, inl, inr, true, false, ◌||◌,
  Bool-cases, List, ltb, length, All, some, arith, [], ◌∷◌,
}
use mathlib.Core.Option.{bind}
use finbar.Simulation.Number.{Number, lt, unity, neg}
use finbar.Profile.Numpy.{item}
use finbar.Profile.Area.{
  nought, max, expand_value_area, Numpy, ValueArea, down, up, val_below, val_above, goes_on, widen,
  expand,
}

module _ {F : Type 0} ⦃num : Number F⦄ where
  -- No bucket is so far below 0 that the loop would take it for less than no bucket at all.
  abbrev NotBelow : F → List F → Type 0
  NotBelow tol = All (λ v. lt (num.add v tol) (neg unity) ≡ false)

  item-NotBelow :
      (tol : F) (profile : List F) (i : ℕ)
      → NotBelow tol profile
      → i < length profile
      → lt (num.add (item profile i) tol) (neg unity) ≡ false
  unfolding item
  item-NotBelow tol [] i h k = absurd (omega arith)
  item-NotBelow tol (x ∷ xs) zero h k = h.0
  item-NotBelow tol (x ∷ xs) (suc i) h k = item-NotBelow tol xs i h.1 (omega arith)

  -- One round takes in the bucket below or the bucket above.
  abbrev Moved : List F → ValueArea F → ValueArea F → Type 0
  Moved profile a b =
      ((suc b.lower_idx ≡ a.lower_idx)
        × (b.upper_idx ≡ a.upper_idx)
        × (b.accumulated ≡ num.add a.accumulated (item profile b.lower_idx)))
      ⊎ ((b.lower_idx ≡ a.lower_idx)
          × (b.upper_idx ≡ suc a.upper_idx)
          × (suc a.upper_idx < length profile)
          × (b.accumulated ≡ num.add a.accumulated (item profile b.upper_idx)))

  abbrev area : ℕ → ℕ → F → ValueArea F
  area lower upper sum = record { lower_idx = lower; upper_idx = upper; accumulated = sum }

  widen-Moved :
      (tol : F) (profile : List F) (lower upper : ℕ) (sum : F)
      → NotBelow tol profile
      → (ltb 0 lower || ltb (suc upper) (length profile)) ≡ true
      → (b : ValueArea F) × (widen tol profile (area lower upper sum) ≡ some b)
        × Moved profile (area lower upper sum) b
  unfolding widen down up val_below val_above
  widen-Moved tol profile zero upper sum safe more =
      let inside : suc upper < length profile = ground arith in
      let above : ltb (suc upper) (length profile) ≡ true = ground arith in
      (
        up profile (area 0 upper sum),
        rw (above, item-NotBelow tol profile (suc upper) safe inside) refl,
        inr (refl, refl, inside, refl),
      )
  widen-Moved tol profile (suc below) upper sum safe more =
      elim (Bool-cases (ltb (suc upper) (length profile))) [
        | inl above ↦
            let inside : suc upper < length profile = ground arith in
            elim (Bool-cases (lt (num.add (item profile (suc upper)) tol) (item profile below))) [
              | inl lower ↦ (
                area below upper (num.add sum (item profile below)),
                rw (above, lower) refl,
                inl (refl, refl, refl),
              )
              | inr raise ↦ (
                up profile (area (suc below) upper sum),
                rw (above, raise) refl,
                inr (refl, refl, inside, refl),
              )
            ]
        | inr top ↦
            let left : ltb 0 (suc below) ≡ true = ground arith in
            elim (Bool-cases (lt (num.add (neg unity) tol) (item profile below))) [
              | inl lower ↦ (
                area below upper (num.add sum (item profile below)),
                rw (top, lower) refl,
                inl (refl, refl, refl),
              )
              | inr raise ↦ (
                area below upper (num.add sum (item profile below)),
                rw (top, raise, left) refl,
                inl (refl, refl, refl),
              )
            ]
      ]

  -- The value area that the loop leaves: it holds the point of control and lies in the profile, and
  -- it has reached the target or holds every bucket.
  pub record IsValueArea (target : F) (profile : List F) (poc_idx : ℕ) (a : ValueArea F)
      : Type 0 where
    pub from_below : a.lower_idx ≤ poc_idx
    pub to_above : poc_idx ≤ a.upper_idx
    pub in_range : a.upper_idx < length profile
    pub ended :
        (lt a.accumulated target ≡ false) ⊎ ((a.lower_idx ≡ 0) × (suc a.upper_idx ≡ length profile))

  goes_on-ended :
      (target : F) (profile : List F) (a : ValueArea F)
      → a.upper_idx < length profile
      → goes_on target profile a ≡ false
      → (lt a.accumulated target ≡ false) ⊎ ((a.lower_idx ≡ 0) × (suc a.upper_idx ≡ length profile))
  unfolding goes_on
  goes_on-ended target profile a inside stops = elim (Bool-cases (lt a.accumulated target)) [
    | inl short ↦ inr (ground arith, ground arith)
    | inr reached ↦ inl reached
  ]

  goes_on-more :
      (target : F) (profile : List F) (a : ValueArea F)
      → goes_on target profile a ≡ true
      → (ltb 0 a.lower_idx || ltb (suc a.upper_idx) (length profile)) ≡ true
  unfolding goes_on
  goes_on-more target profile a more = ground arith

  Moved-bounds :
      (profile : List F) (a b : ValueArea F) (rounds : ℕ)
      → Moved profile a b
      → a.upper_idx < length profile
      → a.lower_idx + length profile ≤ suc rounds + a.upper_idx + 1
      → (b.lower_idx ≤ a.lower_idx)
        × (a.upper_idx ≤ b.upper_idx)
        × (b.upper_idx < length profile)
        × (b.lower_idx + length profile ≤ rounds + b.upper_idx + 1)
  Moved-bounds profile a b rounds (inl lowered) inside enough =
      (omega arith, omega arith, omega arith, omega arith)
  Moved-bounds profile a b rounds (inr raised) inside enough =
      (omega arith, omega arith, omega arith, omega arith)

  -- The loop runs to its end, and keeps what every round keeps.
  expand-IsValueArea :
      (P : ValueArea F → Type 0) (rounds : ℕ) (target tol : F) (profile : List F) (poc_idx : ℕ)
      (a : ValueArea F)
      → NotBelow tol profile
      → ((b c : ValueArea F) → Moved profile b c → P b → P c)
      → P a
      → a.lower_idx ≤ poc_idx
      → poc_idx ≤ a.upper_idx
      → a.upper_idx < length profile
      → a.lower_idx + length profile ≤ rounds + a.upper_idx + 1
      → (b : ValueArea F) × (expand rounds target tol profile a ≡ some b)
        × IsValueArea target profile poc_idx b
        × P b
  unfolding expand bind
  expand-IsValueArea P zero target tol profile poc_idx a safe keep holds low high inside enough = (
    a,
    refl,
    record {
      from_below = low;
      to_above = high;
      in_range = inside;
      ended = inr (omega arith, omega arith);
    },
    holds,
  )
  expand-IsValueArea P (suc rounds) target tol profile poc_idx a safe keep holds low high inside
        enough =
      elim (Bool-cases (goes_on target profile a)) [
        | inr stops ↦ (
          a,
          rw stops refl,
          record {
            from_below = low;
            to_above = high;
            in_range = inside;
            ended = goes_on-ended target profile a inside stops;
          },
          holds,
        )
        | inl more ↦
            let (b, wider, moved) =
              widen-Moved tol profile a.lower_idx a.upper_idx a.accumulated safe
                (goes_on-more target profile a more) in
            let (lower, upper, within, less) =
              Moved-bounds profile a b rounds moved inside enough in
            let (c, ran, good, held) =
              expand-IsValueArea P rounds target tol profile poc_idx b safe keep
                (keep a b moved holds) (omega arith) (omega arith) within less in
            (c, rw (more, wider) ran, good, held)
      ]

  -- profile[lower] + … + profile[lower + more]
  abbrev sum_from : List F → ℕ → ℕ → F
  sum_from profile lower zero = item profile lower
  sum_from profile lower (suc more) =
      num.add (item profile lower) (sum_from profile (suc lower) more)

  sum_from-suc :
      (profile : List F) (lower more : ℕ)
      → ((x y z : F) → num.add (num.add x y) z ≡ num.add x (num.add y z))
      → sum_from profile lower (suc more)
        ≡ num.add (sum_from profile lower more) (item profile (lower + suc more))
  sum_from-suc profile lower zero assoc =
      let next : suc lower ≡ lower + 1 = omega arith in rw (← next) refl
  sum_from-suc profile lower (suc more) assoc =
      let next : suc lower + suc more ≡ lower + suc (suc more) = omega arith in
      ap (num.add (item profile lower)) (sum_from-suc profile (suc lower) more assoc)
      ∙ sym (assoc _ _ _)
      ∙ ap (λ i. num.add (sum_from profile lower (suc more)) (item profile i)) next

  -- What a value area has accumulated is the sum of its buckets.
  abbrev IsTotal : List F → ValueArea F → Type 0
  IsTotal profile a =
      (more : ℕ) × (a.upper_idx ≡ a.lower_idx + more)
      × (a.accumulated ≡ sum_from profile a.lower_idx more)

  Moved-IsTotal :
      (profile : List F)
      → ((x y z : F) → num.add (num.add x y) z ≡ num.add x (num.add y z))
      → ((x y : F) → num.add x y ≡ num.add y x)
      → (b c : ValueArea F) → Moved profile b c
      → IsTotal profile b
      → IsTotal profile c
  Moved-IsTotal profile assoc comm b c (inl (lower, upper, sum)) (more, width, total) =
      (suc more, omega arith, sum ∙ rw (total, ← lower) (comm _ _))
  Moved-IsTotal profile assoc comm b c (inr (lower, upper, inside, sum)) (more, width, total) =
      let top : c.upper_idx ≡ c.lower_idx + suc more = omega arith in
      (
        suc more,
        top,
        sum ∙ rw (total, top, ← lower) (sym (sum_from-suc profile c.lower_idx more assoc)),
      )

module _ {F : Type 0} ⦃num : Number F⦄ ⦃np : Numpy F⦄ (profile : List F) (poc_idx : ℕ)
    (total fraction : F) where
  -- 1e-9 of a positive total.
  abbrev tolerance : F
  tolerance = num.mul (max total nought) (np.billionths 1)

  -- At a point of control in a profile none of whose buckets lies below -1, less the tolerance, the
  -- loop ends within its rounds: the value area holds the point of control and lies in the profile,
  -- and it has reached the target or holds every bucket.
  pub expand_value_area-IsValueArea :
      NotBelow tolerance profile
      → poc_idx < length profile
      → (a : ValueArea F) × (expand_value_area profile poc_idx total fraction ≡ some a)
        × IsValueArea (num.mul total fraction) profile poc_idx a
  unfolding expand_value_area
  expand_value_area-IsValueArea safe inside =
      let (a, ran, good, trivial) =
        expand-IsValueArea (λ b. Unit {0}) (length profile) (num.mul total fraction) tolerance
          profile poc_idx (area poc_idx poc_idx (item profile poc_idx)) safe (λ b c moved held. tt)
          tt (omega arith) (omega arith) inside (omega arith) in
      (a, ran, good)

  -- Where addition is exact, the accumulated value that is returned is the sum of the buckets of the
  -- value area, from the lower index to the upper one.
  expand_value_area-IsTotal :
      ((x y z : F) → num.add (num.add x y) z ≡ num.add x (num.add y z))
      → ((x y : F) → num.add x y ≡ num.add y x)
      → NotBelow tolerance profile
      → poc_idx < length profile
      → (a : ValueArea F) × (expand_value_area profile poc_idx total fraction ≡ some a)
        × IsTotal profile a
  unfolding expand_value_area
  expand_value_area-IsTotal assoc comm safe inside =
      let (a, ran, good, exact) =
        expand-IsValueArea (IsTotal profile) (length profile) (num.mul total fraction) tolerance
          profile poc_idx (area poc_idx poc_idx (item profile poc_idx)) safe
          (Moved-IsTotal profile assoc comm) (0, omega arith, refl) (omega arith) (omega arith)
          inside (omega arith) in
      (a, ran, exact)
