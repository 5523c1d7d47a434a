-- ===== src/Cursor.antt =====
-- AsOfInformativeCursor
-- (packages/strategy-runtime/finbar_strategy_runtime/domain/entities/as_of_informative_cursor.py):
-- which informative row a primary bar may see. Timestamps and the offset are numbers of one unit;
-- `position` is the source's plus one, so 0 stands for -1.
pub mod Lookup
pub mod Replay
mod Tests
use finbar.Common.{
  ℕ, zero, suc, ◌+◌, ◌-◌, List, [], ◌∷◌, ◌++◌, Option, none, some, Bool, true, false, ltb, leb,
  length, get_elem?, get_last?, drop, ok, err, Result, if◌then◌else◌,
}

pub record AsOfInformativeCursor {ℓ} (R : Type ℓ) : Type ℓ where
  pub offset : ℕ
  pub availability_timestamps : List ℕ
  pub rows : List R
  pub position : ℕ

-- The `ValueError` of `append`.
pub data NotMonotonic : Type 0 where
  not_monotonic : NotMonotonic

-- The availability precedes the last one.
unfoldable pub precedes : ℕ → Option ℕ → Bool
precedes availability none = false
precedes availability (some last) = ltb availability last

-- The `while` loop, over the timestamps from `position` on: how many it passes.
unfoldable pub advance : List ℕ → ℕ → ℕ
advance [] primary_open = 0
advance (t ∷ ts) primary_open =
    let rest : ℕ = advance ts primary_open in if leb t primary_open then suc rest else 0

module _ {ℓ} {R : Type ℓ} where
  unfoldable pub new_cursor : ℕ → AsOfInformativeCursor R
  new_cursor offset = record {
    offset = offset;
    availability_timestamps = [];
    rows = [];
    position = 0;
  }

  unfoldable pub append :
      AsOfInformativeCursor R → ℕ → R → Result NotMonotonic (AsOfInformativeCursor R)
  unfolding precedes
  append c open_ts row =
      let availability : ℕ = open_ts + c.offset in
      if precedes availability (get_last? c.availability_timestamps)
      then err not_monotonic
      else ok (record c {
        availability_timestamps = c.availability_timestamps ++ availability ∷ [];
        rows = c.rows ++ row ∷ [];
      })

  unfoldable pub visible_row : List R → ℕ → Option R
  visible_row rows zero = none
  visible_row rows (suc i) = get_elem? rows i

  unfoldable pub latest_visible_at :
      AsOfInformativeCursor R → ℕ → AsOfInformativeCursor R × Option R
  unfolding advance visible_row
  latest_visible_at c primary_open =
      let i : ℕ = c.position + advance (drop c.position c.availability_timestamps) primary_open in
      (record c { position = i }, visible_row c.rows i)

  unfoldable pub reset : AsOfInformativeCursor R → AsOfInformativeCursor R
  reset c = record c { availability_timestamps = []; rows = []; position = 0 }
