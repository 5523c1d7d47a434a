-- ===== src/Profile/Streaming/Sessions.antt =====
-- What IncrementalSessionVpState does at the first bar of a session.
use finbar.Common.{ℕ, ◌≡◌, refl, false, Option, none, some, List, [], ◌∙◌, ap}
use finbar.Simulation.Number.{Number}
use finbar.Profile.Numpy.{Numpy}
use finbar.Profile.Session.{Bar, same_date}
use finbar.Profile.Streaming.{
  VpLevels, IncrementalSessionVpState, new_state, add_to, update_incremental, store, begin_session,
  update, cap_session, note_poc, reset, append_poc, redistribute,
}
use finbar.Profile.Streaming.Accumulated.{snapshot, found, ensure-found, taken}

module _ {F : Type 0} ⦃num : Number F⦄ ⦃np : Numpy F⦄ where
  -- The POCs of ended sessions once this session has ended.
  abbrev pub capped : ℕ → Option (VpLevels F) → List (ℕ × F) → List (ℕ × F)
  capped date none pocs = pocs
  capped date (some levels) pocs = append_poc pocs (date, levels.poc)

  -- The first bar of a session, in a state without a grid.
  abbrev blank : Option ℕ → List (ℕ × F) → IncrementalSessionVpState F
  blank date pocs = record (new_state {F = F}) { session_date = date; session_pocs = pocs }

  note_poc-reset :
      (date : ℕ) (known : Option (VpLevels F)) (pocs : List (ℕ × F)) (first : Bar F)
      (rest : List (Bar F))
      → reset (note_poc (some date) known (snapshot date known pocs first rest))
        ≡ blank (some date) (capped date known pocs)
  unfolding reset note_poc new_state
  note_poc-reset date none pocs first rest = refl
  note_poc-reset date (some levels) pocs first rest = refl

  cap_session-reset :
      (date : ℕ) (known : Option (VpLevels F)) (pocs : List (ℕ × F)) (first : Bar F)
      (rest : List (Bar F))
      → known ≡ found first rest
      → reset (cap_session (snapshot date known pocs first rest))
        ≡ blank (some date) (capped date known pocs)
  unfolding cap_session
  cap_session-reset date known pocs first rest same =
      ap (λ s. reset (note_poc s.session_date s.last_levels s))
        (ensure-found date pocs first rest known same)
      ∙ note_poc-reset date known pocs first rest

  update_incremental-blank :
      (date : ℕ) (pocs : List (ℕ × F)) (bar : Bar F)
      → taken (blank (some date) pocs) bar ≡ snapshot date none pocs bar []
  unfolding update_incremental add_to store new_state redistribute
  update_incremental-blank date pocs bar = refl

  abbrev dated : ℕ → IncrementalSessionVpState F → IncrementalSessionVpState F
  dated date s = record s { session_date = some date }

  begin-other :
      (date other : ℕ) (known : Option (VpLevels F)) (pocs : List (ℕ × F)) (first : Bar F)
      (rest : List (Bar F))
      → known ≡ found first rest
      → same_date (some other) (some date) ≡ false
      → begin_session (some other) (some date) (snapshot date known pocs first rest)
        ≡ blank (some other) (capped date known pocs)
  unfolding begin_session
  begin-other date other known pocs first rest same differs =
      rw differs (ap (dated other) (cap_session-reset date known pocs first rest same))

  begin-new :
      (date : ℕ) (bar : Bar F)
      → taken (begin_session (some date) none new_state) bar ≡ snapshot date none [] bar []
  unfolding begin_session new_state
  begin-new date bar = update_incremental-blank date [] bar

  -- The first bar of another date begins a session, once the last one's POC is noted.
  pub update-other :
      (date other : ℕ) (known : Option (VpLevels F)) (pocs : List (ℕ × F)) (first bar : Bar F)
      (rest : List (Bar F))
      → known ≡ found first rest
      → bar.date ≡ some other
      → same_date (some other) (some date) ≡ false
      → update (snapshot date known pocs first rest) bar
        ≡ snapshot other none (capped date known pocs) bar []
  unfolding update
  update-other date other known pocs first bar rest same holds differs =
      ap (λ d. taken (begin_session d (some date) (snapshot date known pocs first rest)) bar) holds
      ∙ ap (λ s. taken s bar) (begin-other date other known pocs first rest same differs)
      ∙ update_incremental-blank other (capped date known pocs) bar

  -- The first bar of all.
  pub update-new :
      (date : ℕ) (bar : Bar F)
      → bar.date ≡ some date
      → update new_state bar ≡ snapshot date none [] bar []
  unfolding update new_state
  update-new date bar holds =
      ap (λ d. taken (begin_session d none new_state) bar) holds ∙ begin-new date bar
