-- ===== src/Simulation/Metrics/Drawdown.antt =====
-- The maximum drawdown of backtest_metrics.py.
use finbar.Common.{
  refl, true, false, ◌≡◌, ◌⊎◌, inl, inr, List, [], ◌∷◌, All, Bool-cases, if◌then◌else◌,
}
use finbar.Simulation.Number.{Number, IsOrdered, IsNumber, lt, le, nought}
use finbar.Simulation.Metrics.{calculate_max_drawdown, drawdown, drawdown_loop}

-- A relation between every value and each that does not stand before it, and between some such pair.
abbrev pub AllPairs : {A : Type 0} → (A → A → Type 0) → List A → Type 0
AllPairs P [] = Unit
AllPairs P (x ∷ xs) = All (P x) (x ∷ xs) × AllPairs P xs

abbrev Any : {A : Type 0} → (A → Type 0) → List A → Type 0
Any P [] = ⊥
Any P (x ∷ xs) = P x ⊎ Any P xs

abbrev pub SomePair : {A : Type 0} → (A → A → Type 0) → List A → Type 0
SomePair P [] = ⊥
SomePair P (x ∷ xs) = Any (P x) (x ∷ xs) ⊎ SomePair P xs

-- What the theorem needs of the equity values: they and their drawdowns are ordered, and the fall to
-- a value is no smaller, the higher it starts. Exact arithmetic on positive values has this; floats may
-- miss it by a rounding.
pub record IsScale (F : Type 0) ⦃num : Number F⦄ (IsEquity : F → Type 0) : Type 0 where
  pub ordered : IsOrdered F
  pub equity_number : (x : F) → IsEquity x → IsNumber x
  pub drawdown_number : (x z : F) → IsEquity x → IsEquity z → IsNumber (drawdown x z)
  pub nought_number : IsNumber (num.of_nat 0)
  pub drawdown_mono :
      (x y z : F)
      → IsEquity x
      → IsEquity y
      → IsEquity z
      → num.le x y ≡ true
      → num.le (drawdown x z) (drawdown y z) ≡ true

module _ {F : Type 0} ⦃num : Number F⦄ {IsEquity : F → Type 0} (scale : IsScale F IsEquity) where
  abbrev greater : F → F → F
  greater x y = if lt x y then y else x

  le-greater :
      (x y : F)
      → IsNumber x
      → IsNumber y
      → (le x (greater x y) ≡ true) × (le y (greater x y) ≡ true)
  le-greater x y p q =
      let same = scale.ordered.lt-eq-not-le x y p q in
      elim (Bool-cases (lt x y)) [
        | inl less ↦ elim (scale.ordered.le_total x y p q) [
          | inl up ↦ rw less (up, q)
          | inr down ↦ cc
        ]
        | inr more ↦ elim (Bool-cases (le y x)) [ inl down ↦ rw more (p, down) | inr up ↦ cc ]
      ]

  greater-keeps : (P : F → Type 0) (x y : F) → P x → P y → P (greater x y)
  greater-keeps P x y p q = elim (lt x y) as (λ b. P (if b then y else x)) [ true ↦ q | false ↦ p ]

  -- From a higher start every fall is at least as great.
  falls :
      (x y : F) (r : F) (zs : List F)
      → IsEquity x
      → IsEquity y
      → le x y ≡ true
      → All IsEquity zs
      → All (λ z. le (drawdown y z) r ≡ true) zs
      → All (λ z. le (drawdown x z) r ≡ true) zs
  falls x y r [] p q up fit bound = tt
  falls x y r (z ∷ zs) p q up fit bound = (
    scale.ordered.le_trans _ _ _ (scale.drawdown_mono x y z p q fit.0 up) bound.0,
    falls x y r zs p q up fit.1 bound.1,
  )

  drawdown_loop-bounds :
      (peak m : F) (values : List F)
      → IsEquity peak
      → IsNumber m
      → All IsEquity values
      → let r = drawdown_loop peak m values in
        (le m r ≡ true)
        × All (λ z. le (drawdown peak z) r ≡ true) values
        × AllPairs (λ x z. le (drawdown x z) r ≡ true) values
  unfolding drawdown_loop
  drawdown_loop-bounds peak m [] p n fit = (n, tt, tt)
  drawdown_loop-bounds peak m (v ∷ vs) p n fit =
      let peak' = greater peak v in
      let q : IsEquity peak' = greater-keeps IsEquity peak v p fit.0 in
      let dd_n = scale.drawdown_number peak' v q fit.0 in
      let (peak_up, v_up) =
        le-greater peak v (scale.equity_number peak p) (scale.equity_number v fit.0) in
      let (m_up, dd_up) = le-greater m (drawdown peak' v) n dd_n in
      let (start, from_peak, pairs) =
        drawdown_loop-bounds peak' (greater m (drawdown peak' v)) vs q
          (greater-keeps IsNumber m (drawdown peak' v) n dd_n) fit.1 in
      let reached = scale.ordered.le_trans _ _ _ dd_up start in
      (
        scale.ordered.le_trans _ _ _ m_up start,
        falls peak peak' _ (v ∷ vs) p q peak_up fit (reached, from_peak),
        (falls v peak' _ (v ∷ vs) fit.0 q v_up fit (reached, from_peak), pairs),
      )

module _ {F : Type 0} ⦃num : Number F⦄ where
  greater-is : (P : F → Type 0) (x y : F) → P (if lt x y then y else x) → P x ⊎ P y
  greater-is P x y = elim (lt x y) as (λ b. P (if b then y else x) → P x ⊎ P y) [
    | true ↦ λ p. inr p
    | false ↦ λ p. inl p
  ]

  -- A drawdown from the starting peak, or from a value.
  abbrev Reached : F → F → List F → Type 0
  Reached r peak values =
      Any (λ z. r ≡ drawdown peak z) values ⊎ SomePair (λ x z. r ≡ drawdown x z) values

  Reached-later :
      (r peak v : F) (vs : List F)
      → Reached r (if lt peak v then v else peak) vs
      → Reached r peak (v ∷ vs)
  Reached-later r peak v vs (inl found) =
      elim (greater-is (λ p. Any (λ z. r ≡ drawdown p z) vs) peak v found) [
        | inl old ↦ inl (inr old)
        | inr new ↦ inr (inl (inr new))
      ]
  Reached-later r peak v vs (inr pair) = inr (inr pair)

  Reached-here :
      (r peak v : F) (vs : List F)
      → r ≡ drawdown (if lt peak v then v else peak) v
      → Reached r peak (v ∷ vs)
  Reached-here r peak v vs here = elim (greater-is (λ p. r ≡ drawdown p v) peak v here) [
    | inl old ↦ inl (inl old)
    | inr new ↦ inr (inl (inl new))
  ]

  drawdown_loop-Reached :
      (peak m : F) (values : List F)
      → let r = drawdown_loop peak m values in (r ≡ m) ⊎ Reached r peak values
  unfolding drawdown_loop
  drawdown_loop-Reached peak m [] = inl refl
  drawdown_loop-Reached peak m (v ∷ vs) =
      let peak' = if lt peak v then v else peak in
      let dd = drawdown peak' v in
      let r = drawdown_loop peak' (if lt m dd then dd else m) vs in
      elim (drawdown_loop-Reached peak' (if lt m dd then dd else m) vs) [
        | inl same ↦ elim (greater-is (λ k. r ≡ k) m dd same) [
          | inl old ↦ inl old
          | inr new ↦ inr (Reached-here r peak v vs new)
        ]
        | inr later ↦ inr (Reached-later r peak v vs later)
      ]

module _ {F : Type 0} ⦃num : Number F⦄ {IsEquity : F → Type 0} (scale : IsScale F IsEquity) where
  -- For two or more equity values, on which falls from a higher start are no smaller: the maximum
  -- drawdown is at least the drawdown from each value to itself and to every later one, and it is 0
  -- or the drawdown from some value to itself or to a later one.
  pub calculate_max_drawdown-greatest :
      (first second : F) (rest : List F)
      → All IsEquity (first ∷ second ∷ rest)
      → let values = first ∷ second ∷ rest in
        let r = calculate_max_drawdown values in
        AllPairs (λ x z. le (drawdown x z) r ≡ true) values
        × ((r ≡ nought) ⊎ SomePair (λ x z. r ≡ drawdown x z) values)
  unfolding calculate_max_drawdown
  calculate_max_drawdown-greatest first second rest fit =
      let values = first ∷ second ∷ rest in
      let (low, from_first, pairs) =
        drawdown_loop-bounds scale first nought values fit.0 scale.nought_number fit in
      (
        pairs,
        elim (drawdown_loop-Reached first nought values) [
          | inl same ↦ inl same
          | inr (inl found) ↦ inr (inl found)
          | inr (inr pair) ↦ inr pair
        ],
      )
