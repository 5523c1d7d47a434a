-- ===== src/Jobs/Indicator/Cancel.antt =====
-- Cancelling every job of the indicator manager.
use finbar.Common.{
  ℕ, ◌≡◌, refl, List, [], ◌∷◌, Option, none, some, arith, Bool-cases, inl, inr, ◌==◌, Bool, true,
  false, ◌⊎◌,
}
use finbar.Jobs.Store.{Job, ended, find}
use finbar.Jobs.Dict.{find-modify}
use finbar.Jobs.Expiry.{contains}
use finbar.Jobs.Optimization.{mark_cancelled}
use finbar.Jobs.Indicator.{
  Details, IndicatorJobManager, cancel_found, cancel, cancel_each, cancel_all_non_terminal, job_ids,
}

-- No job, or one that has ended.
abbrev inactive : Option (Job Details) → Bool
inactive none = true
inactive (some j) = ended j

mark_cancelled-ended : (j : Job Details) → ended (mark_cancelled j) ≡ true
unfolding mark_cancelled
mark_cancelled-ended j = refl

mark_cancelled-job_id : (j : Job Details) → (mark_cancelled j).job_id ≡ j.job_id
unfolding mark_cancelled
mark_cancelled-job_id j = refl

job_ids-contains :
    (i : ℕ) (jobs : List (Job Details)) → contains i (job_ids jobs) ≡ false → find i jobs ≡ none
unfolding job_ids find
job_ids-contains i [] h = refl
job_ids-contains i (j ∷ js) h = ground (arith, job_ids-contains i js)

module _ {F B : Type 0} where
  cancel_found-inactive :
      (m : IndicatorJobManager F B) (k i : ℕ) (j : Option (Job Details))
      → find k m.jobs ≡ j
      → (k == i ≡ true) ⊎ (inactive (find i m.jobs) ≡ true)
      → inactive (find i (cancel_found m k j).0.jobs) ≡ true
  unfolding cancel_found
  cancel_found-inactive m k i none found (inl same) =
      let e : k ≡ i = ground arith in rw (← e, found) refl
  cancel_found-inactive m k i none found (inr calm) = calm
  cancel_found-inactive m k i (some j) found h = elim (Bool-cases (ended j)) [
    | inl done ↦ rw done (elim h [
      | inl same ↦ let e : k ≡ i = ground arith in rw (← e, found) done
      | inr calm ↦ calm
    ])
    | inr active ↦
        rw (active, find-modify k i mark_cancelled m.jobs mark_cancelled-job_id)
          (elim (Bool-cases (k == i)) [
            | inl same ↦ let e : k ≡ i = ground arith in rw (same, ← e, found) refl
            | inr other ↦ elim h [ inl same ↦ cc | inr calm ↦ rw other calm ]
          ])
  ]

  cancel_each-inactive :
      (is : List ℕ) (m : IndicatorJobManager F B) (i : ℕ)
      → (contains i is ≡ true) ⊎ (inactive (find i m.jobs) ≡ true)
      → inactive (find i (cancel_each is m).0.jobs) ≡ true
  unfolding cancel_each cancel
  cancel_each-inactive [] m i (inl within) = cc
  cancel_each-inactive [] m i (inr calm) = calm
  cancel_each-inactive (k ∷ ks) m i (inr calm) =
      cancel_each-inactive ks (cancel m k).0 i
        (inr (cancel_found-inactive m k i (find k m.jobs) refl (inr calm)))
  cancel_each-inactive (k ∷ ks) m i (inl within) =
      cancel_each-inactive ks (cancel m k).0 i (elim (Bool-cases (k == i)) [
        | inl same ↦ inr (cancel_found-inactive m k i (find k m.jobs) refl (inl same))
        | inr other ↦ inl (rw other at within)
      ])

  -- After cancelling all, no job that the manager holds is queued or running.
  cancel_all_non_terminal-inactive :
      (m : IndicatorJobManager F B) (i : ℕ)
      → inactive (find i (cancel_all_non_terminal m).0.jobs) ≡ true
  unfolding cancel_all_non_terminal
  cancel_all_non_terminal-inactive m i =
      cancel_each-inactive (job_ids m.jobs) m i (elim (Bool-cases (contains i (job_ids m.jobs))) [
        | inl held ↦ inl held
        | inr absent ↦ inr (rw (job_ids-contains i m.jobs absent) refl)
      ])
