-- ===== src/Profile/Streaming/Parity.antt =====
-- The streaming levels of incremental_session_vp_state.py, bar by bar, against the expanding batch
-- profiles of volume_profile.py.
use finbar.Common.{
  ℕ, zero, suc, ◌≤◌, ◌≡◌, refl, true, false, Bool-cases, inl, inr, Option, none, some, List, [],
  ◌∷◌, ◌++◌, map, length, All, All-append, ◌∙◌, sym, ap, arith,
}
use finbar.Simulation.Number.{Number}
use finbar.Profile.Numpy.{Numpy}
use finbar.Profile.Session.{
  Bar, VolumeProfileResult, same_date, session_run, prefix_profiles, walk_sessions,
  compute_session_volume_profile, compute_expanding_session_volume_profiles,
}
use finbar.Profile.Streaming.{
  num_buckets, VpLevels, IncrementalSessionVpState, new_state, ensure, update, stream,
}
use finbar.Profile.Streaming.Accumulated.{
  found, snapshot, ensure-snapshot, update-same, same_date_refl, same_date-eq,
}
use finbar.Profile.Streaming.Sessions.{capped, update-other, update-new}
use finbar.Profile.Streaming.Batch.{IsDocumented, IsClean, live, live-compute}

module _ {F : Type 0} ⦃num : Number F⦄ ⦃np : Numpy F⦄ {IsPrice : F → Type 0}
    (documented : IsDocumented F IsPrice) where
  -- The batch walk from within a session, of which `seen` is over.
  abbrev walk : ℕ → Option ℕ → List (Bar F) → List (Bar F) → List (Option (VolumeProfileResult F))
  walk rounds date seen bars =
      prefix_profiles num_buckets seen (session_run date bars).0
      ++ walk_sessions rounds num_buckets (session_run date bars).1

  walk-same :
      (rounds : ℕ) (date : Option ℕ) (seen : List (Bar F)) (bar : Bar F) (bars : List (Bar F))
      → same_date bar.date date ≡ true
      → walk rounds date seen (bar ∷ bars)
        ≡ compute_session_volume_profile (seen ++ bar ∷ []) num_buckets
          ∷ walk rounds date (seen ++ bar ∷ []) bars
  unfolding session_run prefix_profiles
  walk-same rounds date seen bar bars same = rw same refl

  walk-other :
      (rounds : ℕ) (date : Option ℕ) (seen : List (Bar F)) (bar : Bar F) (bars : List (Bar F))
      → same_date bar.date date ≡ false
      → walk (suc rounds) date seen (bar ∷ bars)
        ≡ compute_session_volume_profile (bar ∷ []) num_buckets
          ∷ walk rounds bar.date (bar ∷ []) bars
  unfolding session_run prefix_profiles walk_sessions
  walk-other rounds date seen bar bars differs = rw (differs, same_date_refl bar.date) refl

  walk-first :
      (rounds : ℕ) (bar : Bar F) (bars : List (Bar F))
      → walk_sessions (suc rounds) num_buckets (bar ∷ bars)
        ≡ compute_session_volume_profile (bar ∷ []) num_buckets
          ∷ walk rounds bar.date (bar ∷ []) bars
  unfolding session_run prefix_profiles walk_sessions
  walk-first rounds bar bars = rw (same_date_refl bar.date) refl

  -- A step of the stream to a known snapshot.
  stream-step :
      (s : IncrementalSessionVpState F) (bar : Bar F) (bars : List (Bar F)) (date : ℕ)
      (pocs : List (ℕ × F)) (first : Bar F) (rest : List (Bar F))
      → update s bar ≡ snapshot date none pocs first rest
      → stream s (bar ∷ bars)
        ≡ found first rest ∷ stream (snapshot date (found first rest) pocs first rest) bars
  unfolding stream
  stream-step s bar bars date pocs first rest stepped =
      ap (λ s'. (ensure s').last_levels ∷ stream (ensure s') bars) stepped
      ∙ ap (λ s'. s'.last_levels ∷ stream s' bars) (ensure-snapshot date pocs first rest)

  walk-nil : (rounds : ℕ) (date : Option ℕ) (seen : List (Bar F)) → walk rounds date seen [] ≡ []
  unfolding session_run prefix_profiles walk_sessions
  walk-nil zero date seen = refl
  walk-nil (suc rounds) date seen = refl

  dated :
      (bar : Bar F) (date : ℕ)
      → IsClean IsPrice bar
      → same_date bar.date (some date) ≡ true
      → bar.date ≡ some date
  dated bar date clean same =
      let (e, holds) = clean.3 in
      holds
      ∙ ap (λ d. some d)
          (same_date-eq e date (ap (λ d. same_date d (some date)) (sym holds) ∙ same))

  -- One bar more in the stream and in the walk.
  joined :
      (first : Bar F) (rest : List (Bar F)) {levels : List (Option (VpLevels F))}
      (profiles : List (Option (VolumeProfileResult F)))
      → All (IsClean IsPrice) (first ∷ rest)
      → levels ≡ map live profiles
      → (found first rest ∷ levels)
        ≡ map live (compute_session_volume_profile (first ∷ rest) num_buckets ∷ profiles)
  joined first rest {levels} profiles clean others =
      ap (λ l. l ∷ levels) (sym (live-compute documented first rest clean))
      ∙ ap (λ ls. live (compute_session_volume_profile (first ∷ rest) num_buckets) ∷ ls) others

  stream-walk :
      (rounds : ℕ) (date : ℕ) (pocs : List (ℕ × F)) (first : Bar F) (rest bars : List (Bar F))
      → All (IsClean IsPrice) (first ∷ rest)
      → All (IsClean IsPrice) bars
      → length bars ≤ rounds
      → stream (snapshot date (found first rest) pocs first rest) bars
        ≡ map live (walk rounds (some date) (first ∷ rest) bars)
  unfolding stream
  stream-walk rounds date pocs first rest [] seen clean enough =
      ap (map live) (sym (walk-nil rounds (some date) (first ∷ rest)))
  stream-walk zero date pocs first rest (bar ∷ bars) seen clean enough = absurd (omega arith)
  stream-walk (suc rounds) date pocs first rest (bar ∷ bars) seen clean enough =
      elim (Bool-cases (same_date bar.date (some date))) [
        | inl same ↦
            let more = All-append (IsClean IsPrice) (first ∷ rest) (bar ∷ []) seen (clean.0, tt) in
            stream-step _ bar bars date pocs first (rest ++ bar ∷ [])
              (update-same date _ pocs first bar rest (dated bar date clean.0 same))
            ∙ joined first (rest ++ bar ∷ []) _ more (
                stream-walk (suc rounds) date pocs first (rest ++ bar ∷ []) bars more clean.1
                  (omega arith))
            ∙ ap (map live) (sym (walk-same (suc rounds) (some date) (first ∷ rest) bar bars same))
        | inr differs ↦
            let (other, holds) = clean.0.3 in
            let pocs' = capped date (found first rest) pocs in
            stream-step _ bar bars other pocs' bar [] (
              update-other date other _ pocs first bar rest refl holds
                (ap (λ d. same_date d (some date)) (sym holds) ∙ differs))
            ∙ joined bar [] _ (clean.0, tt)
                (stream-walk rounds other pocs' bar [] bars (clean.0, tt) clean.1 (omega arith)
                  ∙ ap (λ d. map live (walk rounds d (bar ∷ []) bars)) (sym holds))
            ∙ ap (map live) (sym (walk-other rounds (some date) (first ∷ rest) bar bars differs))
      ]

  -- Bars that have prices, a volume that is not NaN, and a date give the same levels both ways: those
  -- that the streaming state has after each bar are those of the batch profile of the session up to
  -- that bar, wherever that profile has volume, and NaN elsewhere.
  pub stream-eq-expanding :
      (bars : List (Bar F))
      → All (IsClean IsPrice) bars
      → stream new_state bars
        ≡ map live (compute_expanding_session_volume_profiles bars num_buckets)
  unfolding compute_expanding_session_volume_profiles stream walk_sessions
  stream-eq-expanding [] clean = refl
  stream-eq-expanding (bar ∷ bars) clean =
      let (date, holds) = clean.0.3 in
      stream-step new_state bar bars date [] bar [] (update-new date bar holds)
      ∙ joined bar [] _ (clean.0, tt)
          (stream-walk (length bars) date [] bar [] bars (clean.0, tt) clean.1 (omega arith)
            ∙ ap (λ d. map live (walk (length bars) d (bar ∷ []) bars)) (sym holds))
      ∙ ap (map live) (sym (walk-first (length bars) bar bars))
