-- ===== src/Strategy/Serializer.antt =====
-- SerializeGroupVisitor and the traversal that drives it
-- (finbar_strategy_runtime/parser/serialize_group_visitor.py, domain/interfaces/condition_tree_visitor.py).
-- The source puts a node into its parent when it enters it, and fills it from then on; here a node
-- stands on the stack while it is filled, and goes into its parent when it is left. Until then
-- nothing but the node on top of the stack is written.
pub mod Written
pub mod RoundTrip
use finbar.Common.{Option, none, some, List, [], ◌∷◌, Result, ok, err, ◌>>=◌}
use finbar.Strategy.Values.{
  Json, text, arr, obj, Items, nil, cons, Fields, end, member, Operand, Condition, name_of,
  GroupKind, all, any, negation, leaf, ConditionGroup, group, Groups, none_left, child, kind_name,
}

-- The AttributeError of `.append` on the dict of a "not" node.
pub data AttributeError : Type 0 where
  dict_has_no_append : AttributeError

-- The nodes on the stack, the innermost first, each with its kind and its children so far.
pub record SerializeGroupVisitor (F : Type 0) : Type 0 where
  pub result : Json F
  pub stack : List (GroupKind × Items F)

module _ {F : Type 0} where
  -- `items.append(j)`
  unfoldable pub append_item : Json F → Items F → Items F
  append_item j nil = cons j nil
  append_item j (cons x xs) = cons x (append_item j xs)

  -- The state after `reset`.
  unfoldable pub new_visitor : SerializeGroupVisitor F
  new_visitor = record { result = obj end; stack = [] }

  -- Whether the innermost node has a list to append to.
  unfoldable pub check_append : List (GroupKind × Items F) → Result {0, 0} AttributeError Unit
  check_append ((negation, items) ∷ rest) = err dict_has_no_append
  check_append _ = ok tt

  -- Put a value into the innermost node, or make it the result.
  unfoldable pub attach : Json F → SerializeGroupVisitor F → SerializeGroupVisitor F
  unfolding append_item
  attach j v = record { result = root v.stack; stack = filled v.stack }
    where
      root : List (GroupKind × Items F) → Json F
      root [] = j
      root (top ∷ rest) = v.result

      filled : List (GroupKind × Items F) → List (GroupKind × Items F)
      filled [] = []
      filled ((kind, items) ∷ rest) = (kind, append_item j items) ∷ rest

  -- `{kind: [...]}`, or `{"not": {}}`.
  unfoldable pub node_of : GroupKind → Items F → Json F
  node_of negation items = obj (member "not" (obj end) end)
  node_of kind items = obj (member (kind_name kind) (arr items) end)

  unfoldable pub visit_group_enter :
      GroupKind → SerializeGroupVisitor F → Result AttributeError (SerializeGroupVisitor F)
  unfolding check_append
  visit_group_enter leaf v = ok v
  visit_group_enter kind v =
      check_append v.stack >>= λ checked. ok (record v { stack = (kind, nil) ∷ v.stack })

  leave_node : List (GroupKind × Items F) → SerializeGroupVisitor F → SerializeGroupVisitor F
  leave_node [] v = v
  leave_node ((kind, items) ∷ rest) v = attach (node_of kind items) (record v { stack = rest })

  unfoldable pub visit_group_leave : GroupKind → SerializeGroupVisitor F → SerializeGroupVisitor F
  unfolding leave_node attach node_of
  visit_group_leave leaf v = v
  visit_group_leave kind v = leave_node v.stack v

  right_field : Option (Operand F) → Fields F
  right_field none = end
  right_field (some o) = member "right" o.value end

  -- `{"left": ..., "operator": ..., "right": ...}`
  unfoldable pub entry_of : Condition F → Json F
  unfolding right_field
  entry_of c = obj (
      member "left" c.left.value
        (member "operator" (text (name_of c.operator)) (right_field c.right)))

  unfoldable pub visit_condition :
      Condition F → SerializeGroupVisitor F → Result AttributeError (SerializeGroupVisitor F)
  unfolding check_append attach entry_of
  visit_condition c v = check_append v.stack >>= λ checked. ok (attach (entry_of c) v)

  -- The group's own condition, where it has one.
  visit_own :
      Option (Condition F)
      → SerializeGroupVisitor F
      → Result AttributeError (SerializeGroupVisitor F)
  visit_own none v = ok v
  visit_own (some c) v = visit_condition c v

  unfoldable mutual
    unfolding visit_own visit_condition visit_group_enter visit_group_leave

    pub visit_group :
        ConditionGroup F → SerializeGroupVisitor F → Result AttributeError (SerializeGroupVisitor F)
    visit_group (group kind gs c) v = do
      entered ← visit_group_enter kind v
      own ← visit_own c entered
      visited ← visit_groups gs own
      ok (visit_group_leave kind visited)

    pub visit_groups :
        Groups F → SerializeGroupVisitor F → Result AttributeError (SerializeGroupVisitor F)
    visit_groups none_left v = ok v
    visit_groups (child g gs) v = visit_group g v >>= visit_groups gs

  -- What the serializer writes for an entry or exit condition.
  unfoldable pub serialize_group : ConditionGroup F → Result AttributeError (Json F)
  unfolding visit_group new_visitor
  serialize_group g = visit_group g new_visitor >>= λ v. ok v.result
