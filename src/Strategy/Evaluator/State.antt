-- ===== src/Strategy/Evaluator/State.antt =====
-- What the two passes leave in the dict of pending crossover values.
use text.Mathlib.TextPositions.{eq_refl}
use finbar.Common.{
  ℕ, zero, suc, String, true, Bool-cases, none, some, List, [], ◌∷◌, ◌++◌, ◌≡◌, refl, arith, All,
  get_elem?, ◌⊎◌, inl, inr,
}
use finbar.Common.Dict.{Dict, get_key, get_key-set_key, str_eq}
use finbar.Simulation.Number.{Number}
use finbar.Strategy.Values.{
  Json, Texts, Condition, all, any, negation, leaf, ConditionGroup, group, Groups, none_left, child,
}
use finbar.Strategy.Evaluator.{
  PrevValues, is_crossover, key_of, numbers_of, collect_crossover, collect_state, collect_children,
  evaluate_condition, evaluate_bool, evaluate_all, evaluate_any, evaluate,
}

module _ {F : Type 0} where
  -- The conditions that pass 1 reaches, in its order.
  abbrev mutual
    pub leaves : ConditionGroup F → List (Condition F)
    leaves (group all gs c) = leaves_of gs
    leaves (group any gs c) = leaves_of gs
    leaves (group negation none_left c) = []
    leaves (group negation (child g gs) c) = leaves g
    leaves (group leaf gs none) = []
    leaves (group leaf gs (some c)) = c ∷ []

    leaves_of : Groups F → List (Condition F)
    leaves_of none_left = []
    leaves_of (child g gs) = leaves g ++ leaves_of gs

module _ {F : Type 0} ⦃number : Number F⦄ ⦃texts : Texts F⦄ where
  -- A crossover under the key `k` reads the values `v` on the bar, or no numbers.
  abbrev pub Agrees : String → F × F → Dict (Json F) → Condition F → Type 0
  Agrees k v bar c =
      str_eq (key_of c) k ≡ true
      → is_crossover c.operator ≡ true
      → (numbers_of c bar ≡ none) ⊎ (numbers_of c bar ≡ some v)

  abbrev pub record_all : List (Condition F) → Dict (Json F) → PrevValues F → PrevValues F
  record_all [] bar pending = pending
  record_all (c ∷ cs) bar pending = record_all cs bar (collect_crossover c bar pending)

  pub record_all-append :
      (cs ds : List (Condition F)) (bar : Dict (Json F)) (pending : PrevValues F)
      → record_all (cs ++ ds) bar pending ≡ record_all ds bar (record_all cs bar pending)
  record_all-append [] ds bar pending = refl
  record_all-append (c ∷ cs) ds bar pending =
      record_all-append cs ds bar (collect_crossover c bar pending)

  mutual
    unfolding collect_state

    collect_state-record_all :
        (g : ConditionGroup F) (bar : Dict (Json F)) (pending : PrevValues F)
        → collect_state g bar pending ≡ record_all (leaves g) bar pending
    collect_state-record_all (group all gs c) bar pending =
        collect_children-record_all gs bar pending
    collect_state-record_all (group any gs c) bar pending =
        collect_children-record_all gs bar pending
    collect_state-record_all (group negation none_left c) bar pending = refl
    collect_state-record_all (group negation (child g gs) c) bar pending =
        collect_state-record_all g bar pending
    collect_state-record_all (group leaf gs none) bar pending = refl
    collect_state-record_all (group leaf gs (some c)) bar pending = refl

    collect_children-record_all :
        (gs : Groups F) (bar : Dict (Json F)) (pending : PrevValues F)
        → collect_children gs bar pending ≡ record_all (leaves_of gs) bar pending
    collect_children-record_all none_left bar pending = refl
    collect_children-record_all (child g gs) bar pending =
        rw
          (
            record_all-append (leaves g) (leaves_of gs) bar pending,
            ← collect_state-record_all g bar pending,
          )
          (collect_children-record_all gs bar (collect_state g bar pending))

  collect_crossover-keeps :
      (k : String) (v : F × F) (bar : Dict (Json F)) (c : Condition F) (pending : PrevValues F)
      → Agrees k v bar c
      → get_key k pending ≡ some v
      → get_key k (collect_crossover c bar pending) ≡ some v
  unfolding collect_crossover
  collect_crossover-keeps k v bar c pending agrees held = grind (arith, get_key-set_key)

  collect_crossover-reads :
      (v : F × F) (bar : Dict (Json F)) (c : Condition F) (pending : PrevValues F)
      → is_crossover c.operator ≡ true
      → numbers_of c bar ≡ some v
      → get_key (key_of c) (collect_crossover c bar pending) ≡ some v
  unfolding collect_crossover
  collect_crossover-reads v bar c pending crossing found =
      rw (crossing, found)
        (rw (get_key-set_key (key_of c) (key_of c) v pending, eq_refl (key_of c)) refl)

  record_all-keeps :
      (k : String) (v : F × F) (bar : Dict (Json F)) (cs : List (Condition F))
      (pending : PrevValues F)
      → All (Agrees k v bar) cs
      → get_key k pending ≡ some v
      → get_key k (record_all cs bar pending) ≡ some v
  record_all-keeps k v bar [] pending agrees held = held
  record_all-keeps k v bar (c ∷ cs) pending agrees held =
      record_all-keeps k v bar cs (collect_crossover c bar pending) agrees.1
        (collect_crossover-keeps k v bar c pending agrees.0 held)

  -- Every crossover among the conditions that reads numbers is recorded under its key, if the
  -- crossovers with its key read the same numbers.
  pub record_all-reads :
      (v : F × F) (bar : Dict (Json F)) (i : ℕ) (cs : List (Condition F)) {c : Condition F}
      (pending : PrevValues F)
      → get_elem? cs i ≡ some c
      → is_crossover c.operator ≡ true
      → numbers_of c bar ≡ some v
      → All (Agrees (key_of c) v bar) cs
      → get_key (key_of c) (record_all cs bar pending) ≡ some v
  record_all-reads v bar i [] {c = c} pending at_i crossing found agrees = cc
  record_all-reads v bar zero (d ∷ ds) {c = c} pending at_i crossing found agrees =
      let same : d ≡ c = cc in
      record_all-keeps (key_of c) v bar ds (collect_crossover d bar pending) agrees.1
        (rw same (collect_crossover-reads v bar c pending crossing found))
  record_all-reads v bar (suc i) (d ∷ ds) {c = c} pending at_i crossing found agrees =
      record_all-reads v bar i ds (collect_crossover d bar pending) at_i crossing found agrees.1

  evaluate_condition-keeps :
      (k : String) (v : F × F) (bar : Dict (Json F)) (c : Condition F)
      (previous pending : PrevValues F)
      → Agrees k v bar c
      → get_key k pending ≡ some v
      → get_key k (evaluate_condition c bar previous pending).1 ≡ some v
  unfolding evaluate_condition
  evaluate_condition-keeps k v bar c previous pending agrees held = grind (arith, get_key-set_key)

  pub All-append_left :
      (P : Condition F → Type 0) (cs ds : List (Condition F))
      → All P (cs ++ ds)
      → All P cs × All P ds
  All-append_left P [] ds h = (tt, h)
  All-append_left P (c ∷ cs) ds h =
      let (front, back) = All-append_left P cs ds h.1 in ((h.0, front), back)

  mutual
    unfolding evaluate_bool

    evaluate_bool-keeps :
        (k : String) (v : F × F) (bar : Dict (Json F)) (g : ConditionGroup F)
        (previous pending : PrevValues F)
        → All (Agrees k v bar) (leaves g)
        → get_key k pending ≡ some v
        → get_key k (evaluate_bool g bar previous pending).1 ≡ some v
    evaluate_bool-keeps k v bar (group all gs c) previous pending agrees held =
        evaluate_all-keeps k v bar gs previous pending agrees held
    evaluate_bool-keeps k v bar (group any gs c) previous pending agrees held =
        evaluate_any-keeps k v bar gs previous pending agrees held
    evaluate_bool-keeps k v bar (group negation none_left c) previous pending agrees held = held
    evaluate_bool-keeps k v bar (group negation (child g gs) c) previous pending agrees held =
        evaluate_bool-keeps k v bar g previous pending agrees held
    evaluate_bool-keeps k v bar (group leaf gs none) previous pending agrees held = held
    evaluate_bool-keeps k v bar (group leaf gs (some c)) previous pending agrees held =
        evaluate_condition-keeps k v bar c previous pending agrees.0 held

    evaluate_all-keeps :
        (k : String) (v : F × F) (bar : Dict (Json F)) (gs : Groups F)
        (previous pending : PrevValues F)
        → All (Agrees k v bar) (leaves_of gs)
        → get_key k pending ≡ some v
        → get_key k (evaluate_all gs bar previous pending).1 ≡ some v
    evaluate_all-keeps k v bar none_left previous pending agrees held = held
    evaluate_all-keeps k v bar (child g gs) previous pending agrees held =
        let (front, back) = All-append_left (Agrees k v bar) (leaves g) (leaves_of gs) agrees in
        let noted = evaluate_bool-keeps k v bar g previous pending front held in
        elim (Bool-cases (evaluate_bool g bar previous pending).0) [
          | inl holds ↦ rw holds (
              evaluate_all-keeps k v bar gs previous (evaluate_bool g bar previous pending).1 back
                noted)
          | inr fails ↦ rw fails noted
        ]

    evaluate_any-keeps :
        (k : String) (v : F × F) (bar : Dict (Json F)) (gs : Groups F)
        (previous pending : PrevValues F)
        → All (Agrees k v bar) (leaves_of gs)
        → get_key k pending ≡ some v
        → get_key k (evaluate_any gs bar previous pending).1 ≡ some v
    evaluate_any-keeps k v bar none_left previous pending agrees held = held
    evaluate_any-keeps k v bar (child g gs) previous pending agrees held =
        let (front, back) = All-append_left (Agrees k v bar) (leaves g) (leaves_of gs) agrees in
        let noted = evaluate_bool-keeps k v bar g previous pending front held in
        elim (Bool-cases (evaluate_bool g bar previous pending).0) [
          | inl holds ↦ rw holds noted
          | inr fails ↦ rw fails (
              evaluate_any-keeps k v bar gs previous (evaluate_bool g bar previous pending).1 back
                noted)
        ]

  pub collect_state-eq-record_all :
      (g : ConditionGroup F) (bar : Dict (Json F)) (pending : PrevValues F)
      → collect_state g bar pending ≡ record_all (leaves g) bar pending
  collect_state-eq-record_all g bar pending = collect_state-record_all g bar pending

  -- Evaluating a tree leaves the values of a key alone that its crossovers agree with.
  pub evaluate-keeps :
      (k : String) (v : F × F) (bar : Dict (Json F)) (g : ConditionGroup F)
      (previous pending : PrevValues F)
      → All (Agrees k v bar) (leaves g)
      → get_key k pending ≡ some v
      → get_key k (evaluate g bar previous pending).1 ≡ some v
  unfolding evaluate
  evaluate-keeps k v bar g previous pending agrees held =
      evaluate_bool-keeps k v bar g previous (collect_state g bar pending) agrees (
        rw (collect_state-record_all g bar pending)
          (record_all-keeps k v bar (leaves g) pending agrees held))
