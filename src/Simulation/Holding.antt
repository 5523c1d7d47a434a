-- ===== src/Simulation/Holding.antt =====
-- The holding period of a position (`_time_held` and `_parse_timestamp` of
-- simulation/position_closer.py). `datetime.fromisoformat` and the subtraction of its results are
-- the standard library's: the interface `Clock` stands for them.
use Prim.Native.Char.{code}
use finbar.Common.{
  ℕ, String, Bool, ◌||◌, ◌&&◌, Option, none, some, List, [], ◌∷◌, length, take, ltb, leb, ◌==◌,
  if◌then◌else◌,
}
use mathlib.Core.List.{reverse}
use finbar.Simulation.Number.{Number, ◌/◌, max, nought}
use finbar.Simulation.Types.{BorrowTimeBasis, calendar_day, timestamp_delta}

-- `seconds_between a b` is the seconds from ISO text `a` to ISO text `b`, and `none` where parsing
-- or subtracting them raises.
pub record Clock (F : Type 0) : Type 0 where
  pub seconds_between : List ℕ → List ℕ → Option F

-- The code points of a text.
abbrev codes : String → List ℕ
codes String.[] = []
codes (String.◌∷◌ c s) = code c ∷ codes s

-- `str.isspace` on the code points below 256.
unfoldable pub is_space : ℕ → Bool
is_space c = (leb 9 c && leb c 13) || ((leb 28 c && leb c 32) || (c == 133 || c == 160))

unfoldable pub strip_left : List ℕ → List ℕ
unfolding is_space
strip_left [] = []
strip_left (c ∷ cs) = if is_space c then strip_left cs else c ∷ cs

unfoldable pub strip : List ℕ → List ℕ
unfolding strip_left
strip cs = reverse (strip_left (reverse (strip_left cs)))

-- A final "Z" becomes "+00:00".
unfoldable pub normalise_utc : List ℕ → List ℕ
normalise_utc [] = []
normalise_utc (c ∷ []) = if c == b'Z' then codes "+00:00" else c ∷ []
normalise_utc (c ∷ d ∷ cs) = c ∷ normalise_utc (d ∷ cs)

truncate : BorrowTimeBasis → List ℕ → Option (List ℕ)
truncate calendar_day raw = if ltb (length raw) 10 then none else some (take 10 raw)
truncate timestamp_delta raw = some raw

-- The text that `_parse_timestamp` hands to `fromisoformat`; `none` is its `ValueError`.
unfoldable pub parse_timestamp : List ℕ → BorrowTimeBasis → Option (List ℕ)
unfolding truncate
parse_timestamp raw basis = truncate basis (normalise_utc (strip raw))

module _ {F : Type 0} ⦃num : Number F⦄ ⦃clock : Clock F⦄ where
  days_of : Option F → Option F
  days_of none = none
  days_of (some seconds) = some (max nought (seconds / num.of_nat 86_400))

  seconds_of : Option (List ℕ) → Option (List ℕ) → Option F
  seconds_of (some a) (some b) = clock.seconds_between a b
  seconds_of _ _ = none

  unfoldable pub time_held : String → String → BorrowTimeBasis → Option F
  unfolding days_of seconds_of
  time_held entry_date exit_date basis = days_of (
      seconds_of (parse_timestamp (codes entry_date) basis)
        (parse_timestamp (codes exit_date) basis))
