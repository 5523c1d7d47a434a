-- ===== src/Strategy/Evaluator/Truth.antt =====
-- What a condition tree says of a bar, without the dict that pass 2 writes and without its
-- short cuts.
use finbar.Common.{
  Bool, true, false, not, ◌&&◌, ◌||◌, Option, none, some, ◌≡◌, refl, arith, if◌then◌else◌,
}
use finbar.Common.Dict.{Dict, get_key}
use finbar.Simulation.Number.{Number}
use finbar.Strategy.Values.{
  Json, Texts, Operator, exists, missing, is_true, is_false, between, not_between, Condition, all,
  any, negation, leaf, ConditionGroup, group, Groups, none_left, child,
}
use finbar.Strategy.Evaluator.{
  PrevValues, is_present, is_crossover, key_of, truthy, resolve_operand, is_between, numbers_of,
  compare_values, crosses, evaluate_condition, evaluate_bool, evaluate_all, evaluate_any, evaluate,
  collect_state,
}

module _ {F : Type 0} ⦃number : Number F⦄ ⦃texts : Texts F⦄ where
  -- A comparison of numbers, and false where an operand is no number.
  abbrev compares : Condition F → Option (F × F) → PrevValues F → Bool
  compares c none previous = false
  compares c (some (x, y)) previous =
      if is_crossover c.operator
      then crosses c.operator (get_key (key_of c) previous) x y
      else compare_values x c.operator y

  abbrev says : Operator → Condition F → Dict (Json F) → PrevValues F → Bool
  says exists c bar previous = is_present (resolve_operand c.left bar)
  says missing c bar previous = not (is_present (resolve_operand c.left bar))
  says is_true c bar previous = truthy (resolve_operand c.left bar)
  says is_false c bar previous = not (truthy (resolve_operand c.left bar))
  says between c bar previous = elim c.right [
    | none ↦ false
    | some r ↦ is_between (resolve_operand c.left bar) (resolve_operand r bar)
  ]
  says not_between c bar previous = elim c.right [
    | none ↦ false
    | some r ↦ not (is_between (resolve_operand c.left bar) (resolve_operand r bar))
  ]
  says _ c bar previous = compares c (numbers_of c bar) previous

  abbrev mutual
    pub holds : ConditionGroup F → Dict (Json F) → PrevValues F → Bool
    holds (group all gs c) bar previous = holds_all gs bar previous
    holds (group any gs c) bar previous = holds_any gs bar previous
    holds (group negation none_left c) bar previous = false
    holds (group negation (child g gs) c) bar previous = not (holds g bar previous)
    holds (group leaf gs none) bar previous = false
    holds (group leaf gs (some c)) bar previous = says c.operator c bar previous

    holds_all : Groups F → Dict (Json F) → PrevValues F → Bool
    holds_all none_left bar previous = true
    holds_all (child g gs) bar previous = holds g bar previous && holds_all gs bar previous

    holds_any : Groups F → Dict (Json F) → PrevValues F → Bool
    holds_any none_left bar previous = false
    holds_any (child g gs) bar previous = holds g bar previous || holds_any gs bar previous

  evaluate_condition-says :
      (c : Condition F) (bar : Dict (Json F)) (previous pending : PrevValues F)
      → (evaluate_condition c bar previous pending).0 ≡ says c.operator c bar previous
  unfolding evaluate_condition
  evaluate_condition-says c bar previous pending = ground arith

  mutual
    unfolding evaluate_bool

    evaluate_bool-holds :
        (g : ConditionGroup F) (bar : Dict (Json F)) (previous pending : PrevValues F)
        → (evaluate_bool g bar previous pending).0 ≡ holds g bar previous
    evaluate_bool-holds (group all gs c) bar previous pending =
        evaluate_all-holds gs bar previous pending
    evaluate_bool-holds (group any gs c) bar previous pending =
        evaluate_any-holds gs bar previous pending
    evaluate_bool-holds (group negation none_left c) bar previous pending = refl
    evaluate_bool-holds (group negation (child g gs) c) bar previous pending =
        rw (evaluate_bool-holds g bar previous pending) refl
    evaluate_bool-holds (group leaf gs none) bar previous pending = refl
    evaluate_bool-holds (group leaf gs (some c)) bar previous pending =
        evaluate_condition-says c bar previous pending

    evaluate_all-holds :
        (gs : Groups F) (bar : Dict (Json F)) (previous pending : PrevValues F)
        → (evaluate_all gs bar previous pending).0 ≡ holds_all gs bar previous
    evaluate_all-holds none_left bar previous pending = refl
    evaluate_all-holds (child g gs) bar previous pending = ground (
      arith,
      evaluate_bool-holds g bar previous pending,
      evaluate_all-holds gs bar previous (evaluate_bool g bar previous pending).1,
    )

    evaluate_any-holds :
        (gs : Groups F) (bar : Dict (Json F)) (previous pending : PrevValues F)
        → (evaluate_any gs bar previous pending).0 ≡ holds_any gs bar previous
    evaluate_any-holds none_left bar previous pending = refl
    evaluate_any-holds (child g gs) bar previous pending = ground (
      arith,
      evaluate_bool-holds g bar previous pending,
      evaluate_any-holds gs bar previous (evaluate_bool g bar previous pending).1,
    )

  -- The two passes compute what the tree says of the bar and the previous values, read as plain
  -- "and", "or" and "not" of its conditions: neither the dict of pending values nor the children
  -- that the second pass skips make a difference.
  pub evaluate-holds :
      (g : ConditionGroup F) (bar : Dict (Json F)) (previous pending : PrevValues F)
      → (evaluate g bar previous pending).0 ≡ holds g bar previous
  unfolding evaluate
  evaluate-holds g bar previous pending =
      evaluate_bool-holds g bar previous (collect_state g bar pending)
