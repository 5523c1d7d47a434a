-- ===== src/Jobs/Expiry.antt =====
-- The expiry of old terminal jobs.
use finbar.Common.{
  ℕ, ◌≡◌, refl, Bool, false, ◌&&◌, ◌||◌, ◌==◌, ltb, List, [], ◌∷◌, Option, none, some, arith,
  if◌then◌else◌,
}
use finbar.Jobs.Store.{Job, find, pop, pop_all, expired, is_expired, cleanup, ended}
use finbar.Jobs.Dict.{IsKeyed, find-pop_ne, find-pop_self, pop-IsKeyed}

-- An id occurs in a list of ids.
abbrev pub contains : ℕ → List ℕ → Bool
contains i [] = false
contains i (k ∷ ks) = (k == i) || contains i ks

module _ {P : Type 0} where
  pub find-pop_all :
      (i : ℕ) (ids : List ℕ) (jobs : List (Job P))
      → IsKeyed jobs
      → find i (pop_all ids jobs) ≡ (if contains i ids then none else find i jobs)
  unfolding pop_all
  find-pop_all i [] jobs keyed = refl
  find-pop_all i (k ∷ ks) jobs keyed = ground (
    arith,
    find-pop_all i ks (pop k jobs) (pop-IsKeyed k jobs keyed),
    find-pop_ne i k jobs,
    find-pop_self k jobs keyed,
  )

  pub pop_all-IsKeyed :
      (ids : List ℕ) (jobs : List (Job P)) → IsKeyed jobs → IsKeyed (pop_all ids jobs)
  unfolding pop_all
  pop_all-IsKeyed [] jobs keyed = keyed
  pop_all-IsKeyed (k ∷ ks) jobs keyed = pop_all-IsKeyed ks (pop k jobs) (pop-IsKeyed k jobs keyed)

  -- The job under an id, if it is not expired.
  abbrev unless_expired : ℕ → Option (Job P) → Option (Job P)
  unless_expired cutoff none = none
  unless_expired cutoff (some j) = if ended j && ltb j.created_at cutoff then none else some j

  abbrev found_expired : ℕ → Option (Job P) → Bool
  found_expired cutoff none = false
  found_expired cutoff (some j) = ended j && ltb j.created_at cutoff

  contains-expired_absent :
      (cutoff i : ℕ) (jobs : List (Job P))
      → find i jobs ≡ none
      → contains i (expired cutoff jobs) ≡ false
  unfolding expired find is_expired
  contains-expired_absent cutoff i [] h = refl
  contains-expired_absent cutoff i (j ∷ js) h = ground (arith, contains-expired_absent cutoff i js)

  contains-expired :
      (cutoff i : ℕ) (jobs : List (Job P))
      → IsKeyed jobs
      → contains i (expired cutoff jobs) ≡ found_expired cutoff (find i jobs)
  unfolding expired find is_expired
  contains-expired cutoff i [] keyed = refl
  contains-expired cutoff i (j ∷ js) keyed =
      ground (arith, contains-expired cutoff i js keyed.1, contains-expired_absent cutoff i js)

  -- In a dict of jobs, where no id is held twice, the cleanup removes exactly the terminal jobs created
  -- before the cutoff: any other id finds the job that it found before.
  pub find-cleanup :
      (cutoff i : ℕ) (jobs : List (Job P))
      → IsKeyed jobs
      → find i (cleanup cutoff jobs) ≡ unless_expired cutoff (find i jobs)
  unfolding cleanup
  find-cleanup cutoff i jobs keyed =
      ground (
        arith,
        find-pop_all i (expired cutoff jobs) jobs keyed,
        contains-expired cutoff i jobs keyed,
      )
