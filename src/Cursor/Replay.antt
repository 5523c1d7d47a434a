-- ===== src/Cursor/Replay.antt =====
-- A whole stream of closed informative bars and primary opens, against the full scan.
use finbar.Common.{
  get_last?-snoc, get_last?, ℕ, ◌+◌, ◌≤◌, ◌≡◌, refl, ap, List, [], ◌∷◌, ◌++◌, Option, none, some,
  get_last?, arith, ok, Result, ◌>>=◌,
}
use finbar.Cursor.{
  precedes, AsOfInformativeCursor, append, latest_visible_at, NotMonotonic, new_cursor,
}
use finbar.Cursor.Lookup.{extended, IsReady, latest, latest_visible_at-eq-latest, append-IsReady}

-- What the enricher feeds a cursor: a closed informative bar, or the open of a primary bar.
pub data Event {ℓ} (R : Type ℓ) : Type ℓ where
  informative : ℕ → R → Event R
  primary : ℕ → Event R

-- The last value, if there is one, is within the bound.
abbrev AtMost : ℕ → Option ℕ → Type 0
AtMost bound none = Unit
AtMost bound (some t) = t ≤ bound

module _ {ℓ} {R : Type ℓ} where
  -- The rows that the cursor shows at the primary opens, in order.
  unfoldable pub replay :
      AsOfInformativeCursor R → List (Event R) → Result NotMonotonic (List (Option R))
  replay c [] = ok []
  replay c (informative open_ts row ∷ es) = append c open_ts row >>= λ c'. replay c' es
  replay c (primary at ∷ es) =
      let (c', seen) = latest_visible_at c at in replay c' es >>= λ shown. ok (seen ∷ shown)

  -- The same by the definition of no lookahead: of all rows received so far, the last one whose
  -- bar had closed.
  abbrev pub causal : ℕ → List ℕ → List R → List (Event R) → List (Option R)
  causal offset closes rows [] = []
  causal offset closes rows (informative open_ts row ∷ es) =
      causal offset (closes ++ (open_ts + offset) ∷ []) (rows ++ row ∷ []) es
  causal offset closes rows (primary at ∷ es) =
      latest closes rows at none ∷ causal offset closes rows es

  -- The primary opens do not fall.
  abbrev OpensRise : ℕ → List (Event R) → Type 0
  OpensRise last [] = Unit
  OpensRise last (informative open_ts row ∷ es) = OpensRise last es
  OpensRise last (primary at ∷ es) = (last ≤ at) × OpensRise at es

  -- The informative bars arrive in the order of their opens.
  abbrev ArriveInOrder : ℕ → List (Event R) → Type 0
  ArriveInOrder last [] = Unit
  ArriveInOrder last (informative open_ts row ∷ es) = (last ≤ open_ts) × ArriveInOrder open_ts es
  ArriveInOrder last (primary at ∷ es) = ArriveInOrder last es

  append-succeeds :
      (c : AsOfInformativeCursor R) (last open_ts : ℕ) (row : R)
      → AtMost (last + c.offset) (get_last? c.availability_timestamps)
      → last ≤ open_ts
      → (c' : AsOfInformativeCursor R) × (append c open_ts row ≡ ok c')
        × AtMost (open_ts + c'.offset) (get_last? c'.availability_timestamps)
  unfolding append precedes
  append-succeeds c last open_ts row below h = (
    extended c open_ts row,
    ground arith,
    rw (get_last?-snoc c.availability_timestamps (open_ts + c.offset)) (omega arith),
  )

  replay-eq-causal_from :
      (es : List (Event R)) (c : AsOfInformativeCursor R) (seen last : ℕ)
      → IsReady seen c
      → AtMost (last + c.offset) (get_last? c.availability_timestamps)
      → OpensRise seen es
      → ArriveInOrder last es
      → replay c es ≡ ok (causal c.offset c.availability_timestamps c.rows es)
  unfolding replay latest_visible_at
  replay-eq-causal_from [] c seen last ready below rise order = refl
  replay-eq-causal_from (informative open_ts row ∷ es) c seen last ready below rise (h, order) =
      let (c', added, below') = append-succeeds c last open_ts row below h in
      let (ready', closes, rows, offset) = append-IsReady c open_ts seen row ready added in
      let step = replay-eq-causal_from es c' seen open_ts ready' below' rise order in
      rw added (rw (offset, closes, rows) at step)
  replay-eq-causal_from (primary at ∷ es) c seen last ready below (h, rise) order =
      let (found, ready') = latest_visible_at-eq-latest c seen at ready h in
      let c' = (latest_visible_at c at).0 in
      let step = replay-eq-causal_from es c' at last ready' below rise order in
      rw step (ap (λ r. ok (r ∷ causal c.offset c.availability_timestamps c.rows es)) found)

  -- Where the informative bars arrive in the order of their opens and the primary opens do not fall,
  -- the replay succeeds, and every row that the cursor shows at a primary open is the one that a
  -- scan over all the bars received so far finds: the last whose close is at or before the open, or
  -- none. So a bar is never seen before it has closed, and the moving pointer never misses one.
  pub replay-eq-causal :
      (offset : ℕ) (es : List (Event R))
      → OpensRise 0 es
      → ArriveInOrder 0 es
      → replay (new_cursor offset) es ≡ ok (causal offset [] [] es)
  unfolding new_cursor
  replay-eq-causal offset es rise order =
      replay-eq-causal_from es (new_cursor offset) 0 0
        (record { parallel = refl; rising = tt; behind = omega arith }) tt rise order
