-- ===== src/Profile/Rolling/Ring.antt =====
-- The ring buffers of compute_rolling_window_vp, and the running total over one.
use finbar.Common.{ℕ, zero, suc, ◌%◌, ◌≡◌, List, [], ◌∷◌, leb, if◌then◌else◌}

module _ {ℓ} {A : Type ℓ} where
  unfoldable pub replicate : ℕ → A → List A
  replicate zero x = []
  replicate (suc n) x = x ∷ replicate n x

  -- `buffer[slot]` and `buffer[slot] = x`, at a slot in range.
  unfoldable pub slot_of : A → List A → ℕ → A
  slot_of nothing [] i = nothing
  slot_of nothing (x ∷ xs) zero = x
  slot_of nothing (x ∷ xs) (suc i) = slot_of nothing xs i

  unfoldable pub set_slot : List A → ℕ → A → List A
  set_slot [] i y = []
  set_slot (x ∷ xs) zero y = y ∷ xs
  set_slot (x ∷ xs) (suc i) y = x ∷ set_slot xs i y

module _ {A : Type 0} (add sub : A → A → A) (nothing : A) where
  -- The round `i` of the loop on a running total and its buffer.
  unfoldable pub slide : ℕ → ℕ → A × List A → A → A × List A
  unfolding slot_of set_slot
  slide size i (running, buffer) x =
      let slot = i % size in
      let kept = if leb size i then sub running (slot_of nothing buffer slot) else running in
      (add kept x, set_slot buffer slot x)

  unfoldable slides : ℕ → ℕ → A × List A → List A → A × List A
  slides size i state [] = state
  slides size i state (x ∷ xs) = slides size (suc i) (slide size i state x) xs

  -- The sum of a queue, from its oldest on.
  abbrev pub total : List A → A
  total [] = nothing
  total (x ∷ xs) = add x (total xs)

  -- The laws of exact addition, on the values that the buffer holds.
  pub record IsAdditive (Fits : A → Type 0) : Type 0 where
    pub add_assoc : (x y z : A) → Fits x → Fits y → Fits z → add (add x y) z ≡ add x (add y z)
    pub nothing-add : (x : A) → Fits x → add nothing x ≡ x
    pub add-nothing : (x : A) → Fits x → add x nothing ≡ x
    pub sub-add : (x y : A) → Fits x → Fits y → sub (add x y) x ≡ y
    pub add-Fits : (x y : A) → Fits x → Fits y → Fits (add x y)
    pub nothing-Fits : Fits nothing
