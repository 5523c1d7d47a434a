-- ===== src/Cursor/Lookup.antt =====
-- The lookup of the cursor against the scan that it replaces.
use finbar.Common.{
  sym, ℕ, zero, suc, ◌+◌, ◌≤◌, ◌<◌, ◌≡◌, refl, ap, ◌∙◌, List, [], ◌∷◌, ◌++◌, Option, none, some,
  false, leb, length, length-append, get_elem?, get_last?, drop, arith, ok, ok-injective,
  if◌then◌else◌, Bool-cases, inl, inr,
}
use finbar.Cursor.{AsOfInformativeCursor, append, advance, latest_visible_at, visible_row, precedes}

-- The timestamps do not fall.
abbrev IsRising : ℕ → List ℕ → Type 0
IsRising floor [] = Unit
IsRising floor (t ∷ ts) = (floor ≤ t) × IsRising t ts

-- How many timestamps are at or before an instant.
abbrev visible : List ℕ → ℕ → ℕ
visible [] at = 0
visible (t ∷ ts) at = if leb t at then suc (visible ts at) else visible ts at

IsRising-weaken : (f g : ℕ) (ts : List ℕ) → f ≤ g → IsRising g ts → IsRising f ts
IsRising-weaken f g [] h r = tt
IsRising-weaken f g (t ∷ ts) h r = (omega arith, r.1)

visible-eq-zero : (floor at : ℕ) (ts : List ℕ) → IsRising floor ts → at < floor → visible ts at ≡ 0
visible-eq-zero floor at [] r h = refl
visible-eq-zero floor at (t ∷ ts) r h = ground (arith, visible-eq-zero t at ts r.1)

visible_mono : (ts : List ℕ) (at later : ℕ) → at ≤ later → visible ts at ≤ visible ts later
visible_mono [] at later h = omega arith
visible_mono (t ∷ ts) at later h = ground (arith, visible_mono ts at later h)

visible-append-le : (ts us : List ℕ) (at : ℕ) → visible ts at ≤ visible (ts ++ us) at
visible-append-le [] us at = omega arith
visible-append-le (t ∷ ts) us at = ground (arith, visible-append-le ts us at)

advance-eq-visible :
    (floor : ℕ) (ts : List ℕ) (at : ℕ) → IsRising floor ts → advance ts at ≡ visible ts at
unfolding advance
advance-eq-visible floor [] at r = refl
advance-eq-visible floor (t ∷ ts) at r =
    ground (arith, advance-eq-visible t ts at r.1, visible-eq-zero t at ts r.1)

-- Resuming behind the first `k` timestamps finds what a walk over all of them finds.
resume :
    (floor k : ℕ) (ts : List ℕ) (at : ℕ)
    → IsRising floor ts
    → k ≤ visible ts at
    → k + advance (drop k ts) at ≡ visible ts at
resume floor zero ts at r h = omega (arith, advance-eq-visible floor ts at r)
resume floor (suc k) [] at r h = elim h [ ]
resume floor (suc k) (t ∷ ts) at r h =
    ground (arith, resume t k ts at r.1, visible-eq-zero t at ts r.1)

IsRising-snoc :
    (a : ℕ) (ts : List ℕ)
    → IsRising 0 ts
    → precedes a (get_last? ts) ≡ false
    → IsRising 0 (ts ++ a ∷ [])
unfolding precedes
IsRising-snoc a [] r h = omega arith
IsRising-snoc a (t ∷ ts) r h = (r.0, go t ts r.1 h)
  where
    go :
        (t : ℕ) (ts : List ℕ)
        → IsRising t ts
        → precedes a (get_last? (t ∷ ts)) ≡ false
        → IsRising t (ts ++ a ∷ [])
    go t [] r h = (ground arith, tt)
    go t (u ∷ us) r h = (r.0, go u us r.1 h)

module _ {ℓ} {R : Type ℓ} where
  -- The scan over every row: the last one that is available at the instant.
  abbrev pub latest : List ℕ → List R → ℕ → Option R → Option R
  latest [] rows at best = best
  latest (t ∷ ts) [] at best = best
  latest (t ∷ ts) (r ∷ rows) at best = latest ts rows at (if leb t at then some r else best)

  abbrev pick : Option R → List R → ℕ → Option R
  pick best rows zero = best
  pick best rows (suc i) = get_elem? rows i

  pick-cons :
      (best : Option R) (r : R) (rows : List R) (n : ℕ)
      → pick (some r) rows n ≡ pick best (r ∷ rows) (suc n)
  pick-cons best r rows zero = refl
  pick-cons best r rows (suc n) = refl

  latest-eq-pick :
      (floor : ℕ) (ts : List ℕ) (rows : List R) (at : ℕ) (best : Option R)
      → IsRising floor ts
      → length ts ≡ length rows
      → latest ts rows at best ≡ pick best rows (visible ts at)
  latest-eq-pick floor [] rows at best r h = refl
  latest-eq-pick floor (t ∷ ts) [] at best r h = absurd (omega arith)
  latest-eq-pick floor (t ∷ ts) (x ∷ rows) at best r h = elim (Bool-cases (leb t at)) [
    | inl seen ↦ rw seen (
        latest-eq-pick t ts rows at (some x) r.1 (omega arith)
        ∙ pick-cons best x rows (visible ts at))
    | inr hidden ↦ rw hidden (
        latest-eq-pick t ts rows at best r.1 (omega arith)
        ∙ (ap (pick best rows) (visible-eq-zero t at ts r.1 (ground arith))
            ∙ ap (pick best (x ∷ rows)) (sym (visible-eq-zero t at ts r.1 (ground arith)))))
  ]

  visible_row-eq-pick : (rows : List R) (n : ℕ) → visible_row rows n ≡ pick none rows n
  unfolding visible_row
  visible_row-eq-pick rows zero = refl
  visible_row-eq-pick rows (suc n) = refl

  -- The cursor's lists are parallel and sorted, and its pointer has not run past what is visible
  -- at the instant.
  pub record IsReady (at : ℕ) (c : AsOfInformativeCursor R) : Type ℓ where
    pub parallel : length c.availability_timestamps ≡ length c.rows
    pub rising : IsRising 0 c.availability_timestamps
    pub behind : c.position ≤ visible c.availability_timestamps at

  pub latest_visible_at-eq-latest :
      (c : AsOfInformativeCursor R) (last at : ℕ)
      → IsReady last c
      → last ≤ at
      → ((latest_visible_at c at).1 ≡ latest c.availability_timestamps c.rows at none)
        × IsReady at (latest_visible_at c at).0
  unfolding latest_visible_at
  latest_visible_at-eq-latest c last at ready h =
      let ts = c.availability_timestamps in
      let caught_up : c.position ≤ visible ts at = omega (arith, visible_mono ts last at h) in
      let seen = resume 0 c.position ts at ready.rising caught_up in
      (
        ap (visible_row c.rows) seen
            ∙ (visible_row-eq-pick c.rows (visible ts at)
                ∙ sym (latest-eq-pick 0 ts c.rows at none ready.rising ready.parallel)),
        record { parallel = ready.parallel; rising = ready.rising; behind = omega (arith, seen) },
      )

  -- The cursor with one row more.
  abbrev pub extended : AsOfInformativeCursor R → ℕ → R → AsOfInformativeCursor R
  extended c open_ts row = record c {
    availability_timestamps = c.availability_timestamps ++ (open_ts + c.offset) ∷ [];
    rows = c.rows ++ row ∷ [];
  }

  append-eq-ok :
      (c : AsOfInformativeCursor R) (open_ts : ℕ) (row : R) {c' : AsOfInformativeCursor R}
      → append c open_ts row ≡ ok c'
      → (precedes (open_ts + c.offset) (get_last? c.availability_timestamps) ≡ false)
        × (extended c open_ts row ≡ c')
  unfolding append
  append-eq-ok c open_ts row e =
      elim (Bool-cases (precedes (open_ts + c.offset) (get_last? c.availability_timestamps))) [
        | inl early ↦ cc
        | inr fine ↦ (fine, ok-injective (rw fine at e))
      ]

  pub append-IsReady :
      (c : AsOfInformativeCursor R) (open_ts at : ℕ) (row : R) {c' : AsOfInformativeCursor R}
      → IsReady at c
      → append c open_ts row ≡ ok c'
      → IsReady at c'
        × (c'.availability_timestamps ≡ c.availability_timestamps ++ (open_ts + c.offset) ∷ [])
        × (c'.rows ≡ c.rows ++ row ∷ [])
        × (c'.offset ≡ c.offset)
  unfolding append
  append-IsReady c open_ts at row {c' = c'} ready e =
      let (accepted, grown) = append-eq-ok c open_ts row e in
      rw (← grown) (
        record {
          parallel = omega (
            arith,
            ready.parallel,
            length-append c.availability_timestamps ((open_ts + c.offset) ∷ []),
            length-append c.rows (row ∷ []),
          );
          rising =
              IsRising-snoc (open_ts + c.offset) c.availability_timestamps ready.rising accepted;
          behind = omega (
            arith,
            ready.behind,
            visible-append-le c.availability_timestamps ((open_ts + c.offset) ∷ []) at,
          );
        },
        refl,
        refl,
        refl,
      )
