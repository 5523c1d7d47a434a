-- ===== src/Cursor/Tests.antt =====
-- The cursor on a short stream.
use finbar.Common.{List, [], ◌∷◌, some, none, ℕ, ok, ◌≡◌, arith, refl}
use finbar.Cursor.{new_cursor, append, latest_visible_at}
use finbar.Cursor.Replay.{Event, informative, primary, replay, causal, replay-eq-causal}

-- Hourly rows 7, 8 and 9, in minutes; primary bars every half hour.
abbrev stream_events : List (Event ℕ)
stream_events =
    informative 0 7
    ∷ primary 30
    ∷ informative 60 8
    ∷ primary 60
    ∷ informative 120 9
    ∷ primary 150
    ∷ primary 180
    ∷ []

replay-stream_events :
    replay (new_cursor 60) stream_events ≡ ok (none ∷ some 7 ∷ some 8 ∷ some 9 ∷ [])
unfolding replay append latest_visible_at new_cursor
replay-stream_events = refl

replay-eq-causal_example : replay (new_cursor 60) stream_events ≡ ok (causal 60 [] [] stream_events)
replay-eq-causal_example = replay-eq-causal 60 stream_events (omega arith) (omega arith)
