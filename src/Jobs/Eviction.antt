-- ===== src/Jobs/Eviction.antt =====
-- The eviction over the limit.
use finbar.Common.{
  ℕ, ◌≤◌, ◌≡◌, ◌≢◌, ◌⊎◌, inl, inr, refl, ap, ◌∙◌, sym, Bool, true, false, ◌||◌, leb, ◌==◌, length,
  List, [], ◌∷◌, none, some, All, arith, Bool-cases, false≢true, none≢some, not_true,
}
use finbar.Jobs.Store.{Job, ended, find, pop, insort, sort_by_age, evict, enforce_max_jobs}
use finbar.Jobs.Dict.{IsKeyed, find-pop_ne, find-pop_self, pop-IsKeyed}

module _ {P : Type 0} where
  abbrev has_id : ℕ → List (Job P) → Bool
  has_id i [] = false
  has_id i (j ∷ js) = (j.job_id == i) || has_id i js

  -- The list of candidates shows, for each id that the dict holds, whether its job has ended, and no
  -- ended job is missing from it.
  abbrev Agrees : List (Job P) → Job P → Type 0
  Agrees jobs k = (x : Job P) → find k.job_id jobs ≡ some x → ended x ≡ ended k

  abbrev Covers : List (Job P) → List (Job P) → Type 0
  Covers jobs old =
      (i : ℕ) (x : Job P) → find i jobs ≡ some x → ended x ≡ true → has_id i old ≡ true

  Agrees-pop :
      (i : ℕ) (jobs old : List (Job P))
      → IsKeyed jobs
      → All (Agrees jobs) old
      → All (Agrees (pop i jobs)) old
  Agrees-pop i jobs [] keyed a = tt
  Agrees-pop i jobs (k ∷ ks) keyed a = (
    λ x found. elim (Bool-cases (k.job_id == i)) [
      | inl same ↦
          let e : k.job_id ≡ i = ground arith in
          absurd (
            none≢some
              (sym (find-pop_self i jobs keyed) ∙ (ap (λ n. find n (pop i jobs)) (sym e) ∙ found)))
      | inr other ↦ a.0 x (sym (find-pop_ne k.job_id i jobs (ground arith)) ∙ found)
    ],
    Agrees-pop i jobs ks keyed a.1,
  )

  -- An active job in the dict survives.
  evict-active :
      (max_jobs : ℕ) (old jobs : List (Job P)) (i : ℕ) {j : Job P}
      → IsKeyed jobs
      → All (Agrees jobs) old
      → find i jobs ≡ some j
      → ended j ≡ false
      → find i (evict max_jobs old jobs).1 ≡ some j
  unfolding evict
  evict-active max_jobs [] jobs i keyed agrees found active = found
  evict-active max_jobs (k ∷ ks) jobs i {j = j} keyed agrees found active =
      elim (Bool-cases (leb (length jobs) max_jobs)) [
        | inl fits ↦ rw fits found
        | inr full ↦ elim (Bool-cases (ended k)) [
          | inr running ↦
              rw (full, running) (evict-active max_jobs ks jobs i keyed agrees.1 found active)
          | inl done ↦
              let differ : i ≢ k.job_id = λ e.
                false≢true
                  (sym active ∙ (agrees.0 j (ap (λ n. find n jobs) (sym e) ∙ found) ∙ done)) in
              rw (full, done)
                (evict-active max_jobs ks (pop k.job_id jobs) i (pop-IsKeyed k.job_id jobs keyed)
                  (Agrees-pop k.job_id jobs ks keyed agrees.1)
                  (find-pop_ne i k.job_id jobs differ ∙ found) active)
        ]
      ]

  Covers-skip :
      (k : Job P) (ks jobs : List (Job P))
      → Agrees jobs k
      → Covers jobs (k ∷ ks)
      → ended k ≡ false
      → Covers jobs ks
  Covers-skip k ks jobs agrees covers running i x found e = elim (Bool-cases (k.job_id == i)) [
    | inl same ↦
        let own : k.job_id ≡ i = ground arith in
        absurd (false≢true (sym (agrees x (ap (λ n. find n jobs) own ∙ found) ∙ running) ∙ e))
    | inr other ↦ rw other at (covers i x found e)
  ]

  Covers-pop :
      (k : Job P) (ks jobs : List (Job P))
      → IsKeyed jobs
      → Covers jobs (k ∷ ks)
      → Covers (pop k.job_id jobs) ks
  Covers-pop k ks jobs keyed covers i x found e = elim (Bool-cases (k.job_id == i)) [
    | inl same ↦
        let own : k.job_id ≡ i = ground arith in
        absurd (
          none≢some (
            sym (find-pop_self k.job_id jobs keyed)
            ∙ (ap (λ n. find n (pop k.job_id jobs)) own ∙ found)))
    | inr other ↦
        rw other at (covers i x (sym (find-pop_ne i k.job_id jobs (ground arith)) ∙ found) e)
  ]

  -- The eviction stops within the limit, or with active jobs alone.
  evict-enough :
      (max_jobs : ℕ) (old jobs : List (Job P))
      → IsKeyed jobs
      → All (Agrees jobs) old
      → Covers jobs old
      → let left = (evict max_jobs old jobs).1 in
        (length left ≤ max_jobs) ⊎ ((i : ℕ) (x : Job P) → find i left ≡ some x → ended x ≡ false)
  unfolding evict
  evict-enough max_jobs [] jobs keyed agrees covers =
      inr (λ i x found. not_true (ended x) (λ e. false≢true (covers i x found e)))
  evict-enough max_jobs (k ∷ ks) jobs keyed agrees covers =
      elim (Bool-cases (leb (length jobs) max_jobs)) [
        | inl fits ↦ inl (rw fits (ground arith))
        | inr full ↦ elim (Bool-cases (ended k)) [
          | inr running ↦
              rw (full, running)
                (evict-enough max_jobs ks jobs keyed agrees.1
                  (Covers-skip k ks jobs agrees.0 covers running))
          | inl done ↦
              rw (full, done)
                (evict-enough max_jobs ks (pop k.job_id jobs) (pop-IsKeyed k.job_id jobs keyed)
                  (Agrees-pop k.job_id jobs ks keyed agrees.1) (Covers-pop k ks jobs keyed covers))
        ]
      ]

  -- Sorting by age permutes: the sorted list shows the same ids and states.
  has_id-insort :
      (i : ℕ) (j : Job P) (js : List (Job P))
      → has_id i (insort j js) ≡ (j.job_id == i || has_id i js)
  unfolding insort
  has_id-insort i j [] = refl
  has_id-insort i j (k ∷ ks) = ground (arith, has_id-insort i j ks)

  has_id-sort_by_age : (i : ℕ) (js : List (Job P)) → has_id i (sort_by_age js) ≡ has_id i js
  unfolding sort_by_age
  has_id-sort_by_age i [] = refl
  has_id-sort_by_age i (j ∷ js) = rw (has_id-insort i j (sort_by_age js), has_id-sort_by_age i js)

  All-insort :
      (Q : Job P → Type 0) (j : Job P) (js : List (Job P)) → Q j → All Q js → All Q (insort j js)
  unfolding insort
  All-insort Q j [] q a = (q, tt)
  All-insort Q j (k ∷ ks) q a = elim (Bool-cases (leb j.created_at k.created_at)) [
    | inl first ↦ rw first (q, a)
    | inr later ↦ rw later (a.0, All-insort Q j ks q a.1)
  ]

  All-sort_by_age : (Q : Job P → Type 0) (js : List (Job P)) → All Q js → All Q (sort_by_age js)
  unfolding sort_by_age
  All-sort_by_age Q [] a = tt
  All-sort_by_age Q (j ∷ js) a = All-insort Q j (sort_by_age js) a.0 (All-sort_by_age Q js a.1)

  Covers-self : (jobs : List (Job P)) → Covers jobs jobs
  unfolding find
  Covers-self [] i x found e = cc
  Covers-self (j ∷ js) i x found e = elim (Bool-cases (j.job_id == i)) [
    | inl same ↦ rw same refl
    | inr other ↦ rw other (Covers-self js i x (rw other at found) e)
  ]

  find-cons_none :
      (i : ℕ) (k : Job P) (ks : List (Job P))
      → find i (k ∷ ks) ≡ none
      → ((i == k.job_id) ≡ false) × (find i ks ≡ none)
  unfolding find
  find-cons_none i k ks n = ground arith

  All-Agrees-cons :
      (j : Job P) (js old : List (Job P))
      → find j.job_id old ≡ none
      → All (Agrees js) old
      → All (Agrees (j ∷ js)) old
  unfolding find
  All-Agrees-cons j js [] n a = tt
  All-Agrees-cons j js (k ∷ ks) n a =
      let (differ, absent) = find-cons_none j.job_id k ks n in
      (λ x found. a.0 x (rw differ at found), All-Agrees-cons j js ks absent a.1)

  Agrees-self : (jobs : List (Job P)) → IsKeyed jobs → All (Agrees jobs) jobs
  unfolding find
  Agrees-self [] keyed = tt
  Agrees-self (j ∷ js) keyed =
      (λ x found. ground arith, All-Agrees-cons j js js keyed.0 (Agrees-self js keyed.1))

  -- In a dict of jobs, where no id is held twice, enforcing the limit never removes a queued or
  -- running job.
  pub enforce_max_jobs-active :
      (max_jobs : ℕ) (jobs : List (Job P)) (i : ℕ) {j : Job P}
      → IsKeyed jobs
      → find i jobs ≡ some j
      → ended j ≡ false
      → find i (enforce_max_jobs max_jobs jobs).1 ≡ some j
  unfolding enforce_max_jobs
  enforce_max_jobs-active max_jobs jobs i {j = j} keyed found active =
      elim (Bool-cases (leb (length jobs) max_jobs)) [
        | inl fits ↦ rw fits found
        | inr full ↦ rw full (
            evict-active max_jobs (sort_by_age jobs) jobs i keyed
              (All-sort_by_age (Agrees jobs) jobs (Agrees-self jobs keyed)) found active)
      ]

  -- In a dict of jobs, where no id is held twice, enforcing the limit leaves at most that many jobs, or
  -- else only queued and running ones.
  pub enforce_max_jobs-enough :
      (max_jobs : ℕ) (jobs : List (Job P))
      → IsKeyed jobs
      → let left = (enforce_max_jobs max_jobs jobs).1 in
        (length left ≤ max_jobs) ⊎ ((i : ℕ) (x : Job P) → find i left ≡ some x → ended x ≡ false)
  unfolding enforce_max_jobs
  enforce_max_jobs-enough max_jobs jobs keyed = elim (Bool-cases (leb (length jobs) max_jobs)) [
    | inl fits ↦ rw fits (inl (ground arith))
    | inr full ↦ rw full (
        evict-enough max_jobs (sort_by_age jobs) jobs keyed
          (All-sort_by_age (Agrees jobs) jobs (Agrees-self jobs keyed))
          (λ i x found e. has_id-sort_by_age i jobs ∙ Covers-self jobs i x found e))
  ]
