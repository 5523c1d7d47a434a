-- ===== src/Jobs/Dict.antt =====
-- The dict of jobs: lookups after each operation.
use finbar.Common.{
  Bool-cases, inl, inr, ℕ, ◌≡◌, ◌≢◌, refl, ◌==◌, List, [], ◌∷◌, none, some, arith, if◌then◌else◌,
}
use mathlib.Core.Option.{map}
use finbar.Jobs.Store.{Job, find, put, pop, modify}

module _ {P : Type 0} where
  -- No id is held twice, as in every dict.
  abbrev pub IsKeyed : List (Job P) → Type 0
  IsKeyed [] = Unit
  IsKeyed (j ∷ js) = (find j.job_id js ≡ none) × IsKeyed js

  pub find-pop_ne : (i k : ℕ) (jobs : List (Job P)) → i ≢ k → find i (pop k jobs) ≡ find i jobs
  unfolding find pop
  find-pop_ne i k [] h = refl
  find-pop_ne i k (j ∷ js) h = ground (arith, find-pop_ne i k js h)

  pub find-pop_self : (i : ℕ) (jobs : List (Job P)) → IsKeyed jobs → find i (pop i jobs) ≡ none
  unfolding find pop
  find-pop_self i [] h = refl
  find-pop_self i (j ∷ js) h = ground (arith, find-pop_self i js h.1)

  pub pop-IsKeyed : (i : ℕ) (jobs : List (Job P)) → IsKeyed jobs → IsKeyed (pop i jobs)
  unfolding pop
  pop-IsKeyed i [] h = tt
  pop-IsKeyed i (j ∷ js) h = ground (arith, pop-IsKeyed i js h.1, find-pop_ne j.job_id i js)

  pub find-put :
      (i : ℕ) (j : Job P) (jobs : List (Job P))
      → find i (put j jobs) ≡ (if j.job_id == i then some j else find i jobs)
  unfolding find put
  find-put i j [] = refl
  find-put i j (k ∷ ks) = ground (arith, find-put i j ks)

  pub put-IsKeyed : (j : Job P) (jobs : List (Job P)) → IsKeyed jobs → IsKeyed (put j jobs)
  unfolding put find
  put-IsKeyed j [] h = (refl, tt)
  put-IsKeyed j (k ∷ ks) h = ground (arith, put-IsKeyed j ks h.1, find-put k.job_id j ks)

  -- The id under which a job is found is its own.
  find-job_id : (i : ℕ) (jobs : List (Job P)) {j : Job P} → find i jobs ≡ some j → j.job_id ≡ i
  unfolding find
  find-job_id i [] {j = j} e = cc
  find-job_id i (k ∷ ks) {j = j} e = elim (Bool-cases (k.job_id == i)) [
    | inl same ↦ ground arith
    | inr other ↦ find-job_id i ks (rw other at e)
  ]

  pub find-modify :
      (i m : ℕ) (f : Job P → Job P) (jobs : List (Job P))
      → ((j : Job P) → (f j).job_id ≡ j.job_id)
      → find m (modify i f jobs) ≡ (if i == m then map f (find m jobs) else find m jobs)
  unfolding find modify
  find-modify i m f [] h = ground arith
  find-modify i m f (k ∷ ks) h = ground (arith, h k, find-modify i m f ks h)

  pub modify-IsKeyed :
      (i : ℕ) (f : Job P → Job P) (jobs : List (Job P))
      → ((j : Job P) → (f j).job_id ≡ j.job_id)
      → IsKeyed jobs
      → IsKeyed (modify i f jobs)
  unfolding modify find
  modify-IsKeyed i f [] keeps h = tt
  modify-IsKeyed i f (k ∷ ks) keeps h =
      ground (arith, keeps k, modify-IsKeyed i f ks keeps h.1, find-modify i k.job_id f ks keeps)
