-- ===== src/Profile/Rolling/Totals.antt =====
-- The running total over a ring buffer of compute_rolling_window_vp is the sum of what the buffer
-- holds.
use native.Mathlib.Nat.{mod-lt, suc-mod, mod_self, mod-eq_of_lt}
use finbar.Common.{
  ℕ, zero, suc, ◌-◌, ◌%◌, ◌≤◌, ◌<◌, ◌≡◌, refl, inl, inr, List, [], ◌∷◌, ◌++◌, length, drop, leb,
  if◌then◌else◌, All, All-append, ◌∙◌, sym, ap, arith, length-append, Bool-cases,
}
use mathlib.Core.List.{append_assoc, append-nil}
use finbar.Profile.Rolling.Ring.{slide, slot_of, set_slot, replicate, total, IsAdditive}

next_slot : (i w : ℕ) → i % suc w < w → suc i % suc w ≡ suc (i % suc w)
next_slot i w h = suc-mod i (suc w) ∙ mod-eq_of_lt (omega arith)

last_slot : (i w : ℕ) → i % suc w ≡ w → suc i % suc w ≡ 0
last_slot i w h = suc-mod i (suc w) ∙ rw h (mod_self (suc w))

module _ {A : Type 0} where
  slot_of-append :
      (nothing old : A) (l r : List A) → slot_of nothing (l ++ old ∷ r) (length l) ≡ old
  unfolding slot_of
  slot_of-append nothing old [] r = refl
  slot_of-append nothing old (x ∷ xs) r = slot_of-append nothing old xs r

  set_slot-append :
      (old new : A) (l r : List A) → set_slot (l ++ old ∷ r) (length l) new ≡ l ++ new ∷ r
  unfolding set_slot
  set_slot-append old new [] r = refl
  set_slot-append old new (x ∷ xs) r = ap (λ ys. x ∷ ys) (set_slot-append old new xs r)

  head_eq : {x y : A} {xs ys : List A} → (x ∷ xs) ≡ (y ∷ ys) → x ≡ y
  head_eq e = cc

  drop-next :
      (n : ℕ) (ys : List A) (old x : A) (rest : List A)
      → drop n ys ≡ old ∷ rest
      → drop (suc n) (ys ++ x ∷ []) ≡ rest ++ x ∷ []
  drop-next zero [] old x rest e = cc
  drop-next zero (y ∷ ys) old x rest e = let same : ys ≡ rest = cc in ap (λ zs. zs ++ x ∷ []) same
  drop-next (suc n) [] old x rest e = cc
  drop-next (suc n) (y ∷ ys) old x rest e = drop-next n ys old x rest e

  length-replicate : (n : ℕ) (x : A) → length (replicate n x) ≡ n
  unfolding replicate
  length-replicate zero x = refl
  length-replicate (suc n) x = ap suc (length-replicate n x)

  drop-replicate :
      (n size : ℕ) (z : A) (seen : List A)
      → n < size
      → drop n (replicate size z ++ seen) ≡ z ∷ drop (suc n) (replicate size z ++ seen)
  unfolding replicate
  drop-replicate n zero z seen h = absurd (omega arith)
  drop-replicate zero (suc size) z seen h = refl
  drop-replicate (suc n) (suc size) z seen h = drop-replicate n size z seen (omega arith)

  drop-past :
      (n size : ℕ) (z : A) (seen : List A)
      → size ≤ n
      → drop n (replicate size z ++ seen) ≡ drop (n - size) seen
  unfolding replicate
  drop-past n zero z seen h = let all : n ≡ n - 0 = omega arith in ap (λ k. drop k seen) all
  drop-past zero (suc size) z seen h = absurd (omega arith)
  drop-past (suc n) (suc size) z seen h =
      let less : n - size ≡ suc n - suc size = omega arith in
      drop-past n size z seen (omega arith) ∙ ap (λ k. drop k seen) less

module _ {A : Type 0} {add sub : A → A → A} {nothing : A} {Fits : A → Type 0}
    (additive : IsAdditive add sub nothing Fits) where
  total-Fits : (xs : List A) → All Fits xs → Fits (total add sub nothing xs)
  total-Fits [] fit = additive.nothing-Fits
  total-Fits (x ∷ xs) fit = additive.add-Fits x _ fit.0 (total-Fits xs fit.1)

  total-snoc :
      (xs : List A) (x : A)
      → All Fits xs
      → Fits x
      → total add sub nothing (xs ++ x ∷ []) ≡ add (total add sub nothing xs) x
  total-snoc [] x fit new = additive.add-nothing x new ∙ sym (additive.nothing-add x new)
  total-snoc (y ∷ ys) x fit new =
      ap (add y) (total-snoc ys x fit.1 new)
      ∙ sym (additive.add_assoc y _ x fit.0 (total-Fits ys fit.1) new)

  -- The loop after `n` rounds on what it has `seen`: the buffer is full at the next slot, the queue that
  -- begins there is the last of what was put in, and the running total is its sum.
  pub record Holds (w n : ℕ) (seen : List A) (state : A × List A) : Type 0 where
    newer : List A
    older : List A
    buffer : state.1 ≡ newer ++ older
    full : length (newer ++ older) ≡ suc w
    at_slot : length newer ≡ n % suc w
    queue : older ++ newer ≡ drop n (replicate (suc w) nothing ++ seen)
    running : state.0 ≡ total add sub nothing (older ++ newer)
    newer_fit : All Fits newer
    older_fit : All Fits older

  -- The value that leaves is subtracted, or is nothing yet.
  leaving :
      (w n : ℕ) (seen rest : List A) (old running : A)
      → (old ∷ rest) ≡ drop n (replicate (suc w) nothing ++ seen)
      → running ≡ add old (total add sub nothing rest)
      → Fits old
      → All Fits rest
      → (if leb (suc w) n then sub running old else running) ≡ total add sub nothing rest
  leaving w n seen rest old running queue sum old_fits fit = elim (Bool-cases (leb (suc w) n)) [
    | inl full ↦ rw (full, sum) (additive.sub-add old _ old_fits (total-Fits rest fit))
    | inr early ↦
        let inside : n < suc w = ground arith in
        let first : old ≡ nothing =
          head_eq (queue ∙ drop-replicate n (suc w) nothing seen inside) in
        rw (early, sum, first) (additive.nothing-add _ (total-Fits rest fit))
  ]

  queue_next :
      (n : ℕ) (start seen newer rest : List A) (old x : A)
      → drop n (start ++ seen) ≡ old ∷ (rest ++ newer)
      → (rest ++ (newer ++ x ∷ [])) ≡ drop (suc n) (start ++ (seen ++ x ∷ []))
  queue_next n start seen newer rest old x queue =
      sym (append_assoc rest newer (x ∷ []))
      ∙ sym (drop-next n (start ++ seen) old x (rest ++ newer) queue)
      ∙ ap (drop (suc n)) (append_assoc start seen (x ∷ []))

  total_next :
      (newer rest : List A) (x : A)
      → All Fits newer
      → All Fits rest
      → Fits x
      → add (total add sub nothing (rest ++ newer)) x
        ≡ total add sub nothing (rest ++ (newer ++ x ∷ []))
  total_next newer rest x newer_fit rest_fit new =
      sym (total-snoc (rest ++ newer) x (All-append Fits rest newer rest_fit newer_fit) new)
      ∙ ap (total add sub nothing) (append_assoc rest newer (x ∷ []))

  -- The state after a round, where the slot after it is the next one or the first.
  next_Holds :
      (w n : ℕ) (seen newer rest : List A) (old x : A)
      → All Fits newer
      → All Fits rest
      → Fits x
      → length (newer ++ old ∷ rest) ≡ suc w
      → length newer ≡ n % suc w
      → drop n (replicate (suc w) nothing ++ seen) ≡ old ∷ (rest ++ newer)
      → Holds w
          (suc n)
          (seen ++ x ∷ [])
          (add (total add sub nothing (rest ++ newer)) x, newer ++ x ∷ rest)
  next_Holds w n seen newer [] old x newer_fit rest_fit new full slot queue =
      let sizes = length-append newer (old ∷ []) in
      let more = length-append newer (x ∷ []) in
      let last : n % suc w ≡ w = omega arith in
      record {
        newer = [];
        older = newer ++ x ∷ [];
        buffer = refl;
        full = omega arith;
        at_slot = sym (last_slot n w last);
        queue =
            append-nil (newer ++ x ∷ [])
            ∙ queue_next n (replicate (suc w) nothing) seen newer [] old x queue;
        running =
            total_next newer [] x newer_fit tt new
            ∙ ap (total add sub nothing) (sym (append-nil (newer ++ x ∷ [])));
        newer_fit = tt;
        older_fit = All-append Fits newer (x ∷ []) newer_fit (new, tt);
      }
  next_Holds w n seen newer (next ∷ rest) old x newer_fit rest_fit new full slot queue =
      let sizes = length-append newer (old ∷ next ∷ rest) in
      let more = length-append newer (x ∷ []) in
      let whole = length-append (newer ++ x ∷ []) (next ∷ rest) in
      let inside : n % suc w < w = omega arith in
      record {
        newer = newer ++ x ∷ [];
        older = next ∷ rest;
        buffer = sym (append_assoc newer (x ∷ []) (next ∷ rest));
        full = omega arith;
        at_slot = omega (arith, more, slot, next_slot n w inside);
        queue = queue_next n (replicate (suc w) nothing) seen newer (next ∷ rest) old x queue;
        running = total_next newer (next ∷ rest) x newer_fit rest_fit new;
        newer_fit = All-append Fits newer (x ∷ []) newer_fit (new, tt);
        older_fit = rest_fit;
      }

  slide_eq :
      (w n : ℕ) (seen newer rest : List A) (old running x : A) (buffer : List A)
      → buffer ≡ newer ++ old ∷ rest
      → length newer ≡ n % suc w
      → (old ∷ (rest ++ newer)) ≡ drop n (replicate (suc w) nothing ++ seen)
      → running ≡ add old (total add sub nothing (rest ++ newer))
      → Fits old
      → All Fits (rest ++ newer)
      → slide add sub nothing (suc w) n (running, buffer) x
        ≡ (add (total add sub nothing (rest ++ newer)) x, newer ++ x ∷ rest)
  unfolding slide
  slide_eq w n seen newer rest old running x buffer held slot queue sum old_fits fit =
      let there : slot_of nothing buffer (n % suc w) ≡ old =
        ap (slot_of nothing buffer) (sym slot)
        ∙ ap (λ b. slot_of nothing b (length newer)) held
        ∙ slot_of-append nothing old newer rest in
      let written : set_slot buffer (n % suc w) x ≡ newer ++ x ∷ rest =
        ap (λ i. set_slot buffer i x) (sym slot)
        ∙ ap (λ b. set_slot b (length newer) x) held
        ∙ set_slot-append old x newer rest in
      let kept = leaving w n seen (rest ++ newer) old running queue sum old_fits fit in
      rw (there, written, kept) refl

  slide-Holds :
      (w n : ℕ) (seen newer older : List A) (running x : A) (buffer : List A)
      → buffer ≡ newer ++ older
      → length (newer ++ older) ≡ suc w
      → length newer ≡ n % suc w
      → (older ++ newer) ≡ drop n (replicate (suc w) nothing ++ seen)
      → running ≡ total add sub nothing (older ++ newer)
      → All Fits newer
      → All Fits older
      → Fits x
      → Holds w (suc n) (seen ++ x ∷ []) (slide add sub nothing (suc w) n (running, buffer) x)
  slide-Holds w n seen newer [] running x buffer held full slot queue sum newer_fit older_fit new =
      let sizes = length-append newer [] in
      let below = mod-lt n {m = suc w} (omega arith) in absurd (omega arith)
  slide-Holds w n seen newer (old ∷ rest) running x buffer held full slot queue sum newer_fit
        older_fit new =
      rw
        (slide_eq w n seen newer rest old running x buffer held slot queue sum older_fit.0
          (All-append Fits rest newer older_fit.1 newer_fit))
        (next_Holds w n seen newer rest old x newer_fit older_fit.1 new full slot (sym queue))

  pub step_Holds :
      (w n : ℕ) (seen : List A) (state : A × List A) (x : A)
      → Holds w n seen state
      → Fits x
      → Holds w (suc n) (seen ++ x ∷ []) (slide add sub nothing (suc w) n state x)
  step_Holds w n seen (running, buffer) x h new =
      slide-Holds w n seen h.newer h.older running x buffer h.buffer h.full h.at_slot h.queue
        h.running h.newer_fit h.older_fit new

  total-replicate : (n : ℕ) → total add sub nothing (replicate n nothing) ≡ nothing
  unfolding replicate
  total-replicate zero = refl
  total-replicate (suc n) =
      ap (add nothing) (total-replicate n) ∙ additive.nothing-add nothing additive.nothing-Fits

  replicate-Fits : (n : ℕ) → All Fits (replicate n nothing)
  unfolding replicate
  replicate-Fits zero = tt
  replicate-Fits (suc n) = (additive.nothing-Fits, replicate-Fits n)

  pub start_Holds : (w : ℕ) → Holds w 0 [] (nothing, replicate (suc w) nothing)
  start_Holds w = record {
    newer = [];
    older = replicate (suc w) nothing;
    buffer = refl;
    full = length-replicate (suc w) nothing;
    at_slot = sym (mod-eq_of_lt (omega arith));
    queue = refl;
    running =
        sym (total-replicate (suc w))
        ∙ ap (total add sub nothing) (sym (append-nil (replicate (suc w) nothing)));
    newer_fit = tt;
    older_fit = replicate-Fits (suc w);
  }

  -- Once the window is full, the running total is the sum of the last values that were put in.
  pub Holds-total :
      (w n : ℕ) (seen : List A) (state : A × List A)
      → Holds w n seen state
      → suc w ≤ n
      → state.0 ≡ total add sub nothing (drop (n - suc w) seen)
  Holds-total w n seen state h full =
      h.running ∙ ap (total add sub nothing) (h.queue ∙ drop-past n (suc w) nothing seen full)
