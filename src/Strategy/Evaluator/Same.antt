-- ===== src/Strategy/Evaluator/Same.antt =====
-- What holds of every operand of a tree, and the evaluation of a tree whose operands read the same.
use finbar.Common.{Option, none, some, ◌≡◌, refl}
use finbar.Common.Dict.{Dict}
use finbar.Simulation.Number.{Number}
use finbar.Strategy.Values.{
  Json, Texts, Operand, Operator, less, greater, at_most, at_least, equal, unequal, crosses_above,
  crosses_below, between, not_between, is_true, is_false, exists, missing, unknown, Condition, all,
  any, negation, leaf, ConditionGroup, group, Groups, none_left, child,
}
use finbar.Strategy.Evaluator.{
  PrevValues, resolve_operand, numbers_of, collect_crossover, collect_state, collect_children,
  evaluate_condition, dispatch, evaluate_bool, evaluate_all, evaluate_any, evaluate,
}

module _ {F : Type 0} where
  abbrev pub InRight : (Operand F → Type 0) → Option (Operand F) → Type 0
  InRight P none = Unit
  InRight P (some o) = P o

  abbrev pub InOwn : (Operand F → Type 0) → Option (Condition F) → Type 0
  InOwn P none = Unit
  InOwn P (some c) = P c.left × InRight P c.right

  -- Every operand of the tree has the property.
  abbrev mutual
    pub EachOperand : (Operand F → Type 0) → ConditionGroup F → Type 0
    EachOperand P (group kind gs c) = InOwn P c × EachIn P gs

    pub EachIn : (Operand F → Type 0) → Groups F → Type 0
    EachIn P none_left = Unit
    EachIn P (child g gs) = EachOperand P g × EachIn P gs

module _ {F : Type 0} ⦃number : Number F⦄ ⦃texts : Texts F⦄ (bar bar' : Dict (Json F)) where
  -- The operand has the same value on both bars.
  abbrev pub ResolvesSame : Operand F → Type 0
  ResolvesSame o = resolve_operand o bar ≡ resolve_operand o bar'

  numbers_of-same :
      (c : Condition F) → InOwn ResolvesSame (some c) → numbers_of c bar ≡ numbers_of c bar'
  unfolding numbers_of
  numbers_of-same c same = by_right c.right same.1
    where
      by_right :
          (r : Option (Operand F))
          → InRight ResolvesSame r
          → numbers_of (record c { right = r }) bar ≡ numbers_of (record c { right = r }) bar'
      by_right none h = refl
      by_right (some r) h = rw (same.0, h) refl

  between-same :
      (c : Condition F)
      → InOwn ResolvesSame (some c)
      → (previous pending : PrevValues F)
      → (dispatch between c bar previous pending ≡ dispatch between c bar' previous pending)
        × (dispatch not_between c bar previous pending
            ≡ dispatch not_between c bar' previous pending)
  unfolding dispatch
  between-same c same previous pending = by_right c.right same.1
    where
      by_right :
          (r : Option (Operand F))
          → InRight ResolvesSame r
          → (dispatch between (record c { right = r }) bar previous pending
              ≡ dispatch between (record c { right = r }) bar' previous pending)
            × (dispatch not_between (record c { right = r }) bar previous pending
                ≡ dispatch not_between (record c { right = r }) bar' previous pending)
      by_right none h = (refl, refl)
      by_right (some r) h = (rw (same.0, h) refl, rw (same.0, h) refl)

  dispatch-same :
      (o : Operator) (c : Condition F) (previous pending : PrevValues F)
      → InOwn ResolvesSame (some c)
      → dispatch o c bar previous pending ≡ dispatch o c bar' previous pending
  unfolding dispatch
  dispatch-same between c previous pending same = (between-same c same previous pending).0
  dispatch-same not_between c previous pending same = (between-same c same previous pending).1
  dispatch-same exists c previous pending same = rw same.0 refl
  dispatch-same missing c previous pending same = rw same.0 refl
  dispatch-same is_true c previous pending same = rw same.0 refl
  dispatch-same is_false c previous pending same = rw same.0 refl
  dispatch-same less c previous pending same = rw (numbers_of-same c same) refl
  dispatch-same greater c previous pending same = rw (numbers_of-same c same) refl
  dispatch-same at_most c previous pending same = rw (numbers_of-same c same) refl
  dispatch-same at_least c previous pending same = rw (numbers_of-same c same) refl
  dispatch-same equal c previous pending same = rw (numbers_of-same c same) refl
  dispatch-same unequal c previous pending same = rw (numbers_of-same c same) refl
  dispatch-same crosses_above c previous pending same = rw (numbers_of-same c same) refl
  dispatch-same crosses_below c previous pending same = rw (numbers_of-same c same) refl
  dispatch-same (unknown s) c previous pending same = rw (numbers_of-same c same) refl

  collect_crossover-same :
      (c : Condition F) (pending : PrevValues F)
      → InOwn ResolvesSame (some c)
      → collect_crossover c bar pending ≡ collect_crossover c bar' pending
  unfolding collect_crossover
  collect_crossover-same c pending same = rw (numbers_of-same c same) refl

  mutual
    unfolding collect_state

    collect_tree-same :
        (g : ConditionGroup F) (pending : PrevValues F)
        → EachOperand ResolvesSame g
        → collect_state g bar pending ≡ collect_state g bar' pending
    collect_tree-same (group all gs c) pending same = collect_children-same gs pending same.1
    collect_tree-same (group any gs c) pending same = collect_children-same gs pending same.1
    collect_tree-same (group negation none_left c) pending same = refl
    collect_tree-same (group negation (child g gs) c) pending same =
        collect_tree-same g pending same.1.0
    collect_tree-same (group leaf gs none) pending same = refl
    collect_tree-same (group leaf gs (some c)) pending same =
        collect_crossover-same c pending same.0

    collect_children-same :
        (gs : Groups F) (pending : PrevValues F)
        → EachIn ResolvesSame gs
        → collect_children gs bar pending ≡ collect_children gs bar' pending
    collect_children-same none_left pending same = refl
    collect_children-same (child g gs) pending same =
        rw (collect_tree-same g pending same.0)
          (collect_children-same gs (collect_state g bar' pending) same.1)

  mutual
    unfolding evaluate_bool evaluate_condition

    evaluate_bool-same :
        (g : ConditionGroup F) (previous pending : PrevValues F)
        → EachOperand ResolvesSame g
        → evaluate_bool g bar previous pending ≡ evaluate_bool g bar' previous pending
    evaluate_bool-same (group all gs c) previous pending same =
        evaluate_all-same gs previous pending same.1
    evaluate_bool-same (group any gs c) previous pending same =
        evaluate_any-same gs previous pending same.1
    evaluate_bool-same (group negation none_left c) previous pending same = refl
    evaluate_bool-same (group negation (child g gs) c) previous pending same =
        rw (evaluate_bool-same g previous pending same.1.0) refl
    evaluate_bool-same (group leaf gs none) previous pending same = refl
    evaluate_bool-same (group leaf gs (some c)) previous pending same =
        dispatch-same c.operator c previous pending same.0

    evaluate_all-same :
        (gs : Groups F) (previous pending : PrevValues F)
        → EachIn ResolvesSame gs
        → evaluate_all gs bar previous pending ≡ evaluate_all gs bar' previous pending
    evaluate_all-same none_left previous pending same = refl
    evaluate_all-same (child g gs) previous pending same =
        let noted = (evaluate_bool g bar' previous pending).1 in
        rw (evaluate_bool-same g previous pending same.0)
          (rw (evaluate_all-same gs previous noted same.1) refl)

    evaluate_any-same :
        (gs : Groups F) (previous pending : PrevValues F)
        → EachIn ResolvesSame gs
        → evaluate_any gs bar previous pending ≡ evaluate_any gs bar' previous pending
    evaluate_any-same none_left previous pending same = refl
    evaluate_any-same (child g gs) previous pending same =
        let noted = (evaluate_bool g bar' previous pending).1 in
        rw (evaluate_bool-same g previous pending same.0)
          (rw (evaluate_any-same gs previous noted same.1) refl)

  pub collect_state-same :
      (g : ConditionGroup F) (pending : PrevValues F)
      → EachOperand ResolvesSame g
      → collect_state g bar pending ≡ collect_state g bar' pending
  collect_state-same g pending same = collect_tree-same g pending same

  pub evaluate-same :
      (g : ConditionGroup F) (previous pending : PrevValues F)
      → EachOperand ResolvesSame g
      → evaluate g bar previous pending ≡ evaluate g bar' previous pending
  unfolding evaluate
  evaluate-same g previous pending same =
      rw (collect_tree-same g pending same)
        (evaluate_bool-same g previous (collect_state g bar' pending) same)
