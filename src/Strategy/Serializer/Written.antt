-- ===== src/Strategy/Serializer/Written.antt =====
-- Which trees the serializer writes, and what it writes for them.
use finbar.Common.{
  Bool, true, false, not, ◌||◌, Option, none, some, List, ◌∷◌, ◌≡◌, refl, arith, Result, ok, err,
  ◌>>=◌, is_ok,
}
use finbar.Simulation.Number.{Number}
use finbar.Strategy.Values.{
  Json, arr, obj, Items, nil, cons, end, member, Texts, GroupKind, all, any, negation, leaf,
  ConditionGroup, group, Groups, none_left, child, kind_name,
}
use finbar.Strategy.Parser.{Location, Syntax, Scope, parse}
use finbar.Strategy.Parser.Shape.{
  IsShaped, AreShaped, parse-IsShaped, all_of, any_of, not_of, leaf_of, no_more, one_more,
}
use finbar.Strategy.Serializer.{
  SerializeGroupVisitor, AttributeError, dict_has_no_append, append_item, new_visitor, check_append,
  attach, visit_group_leave, entry_of, visit_group, visit_groups, serialize_group,
}

abbrev is_array : GroupKind → Bool
is_array all = true
is_array any = true
is_array negation = false
is_array leaf = false

module _ {F : Type 0} where
  -- The JSON form of a tree with no "not" node.
  unfoldable pub written : Option (Items F) → GroupKind → Option (Json F)
  written none kind = none
  written (some items) kind = some (obj (member (kind_name kind) (arr items) end))

  unfoldable pub both_written : Option (Json F) → Option (Items F) → Option (Items F)
  both_written (some x) (some xs) = some (cons x xs)
  both_written _ _ = none

  unfoldable mutual
    unfolding written both_written

    pub write : ConditionGroup F → Option (Json F)
    write (group all gs c) = written (write_all gs) all
    write (group any gs c) = written (write_all gs) any
    write (group negation gs c) = none
    write (group leaf gs none) = none
    write (group leaf gs (some c)) = some (entry_of c)

    pub write_all : Groups F → Option (Items F)
    write_all none_left = some nil
    write_all (child g gs) = both_written (write g) (write_all gs)

  -- The tree has a "not" node.
  abbrev mutual
    pub has_not : ConditionGroup F → Bool
    has_not (group all gs c) = have_not gs
    has_not (group any gs c) = have_not gs
    has_not (group negation gs c) = true
    has_not (group leaf gs c) = false

    have_not : Groups F → Bool
    have_not none_left = false
    have_not (child g gs) = has_not g || have_not gs

  abbrev is_some : Option (Json F) → Bool
  is_some none = false
  is_some (some j) = true

  abbrev all_some : Option (Items F) → Bool
  all_some none = false
  all_some (some js) = true

  append_all : Items F → Items F → Items F
  append_all nil ys = ys
  append_all (cons x xs) ys = cons x (append_all xs ys)

  append_all-nil : (xs : Items F) → append_all xs nil ≡ xs
  unfolding append_all
  append_all-nil nil = refl
  append_all-nil (cons x xs) = rw (append_all-nil xs) refl

  append_all-append_item :
      (j : Json F) (xs ys : Items F) → append_all (append_item j xs) ys ≡ append_all xs (cons j ys)
  unfolding append_all append_item
  append_all-append_item j nil ys = refl
  append_all-append_item j (cons x xs) ys = rw (append_all-append_item j xs ys) refl

  -- The visitor after it has been given a value.
  given :
      Option (Json F) → SerializeGroupVisitor F → Result AttributeError (SerializeGroupVisitor F)
  given none v = err dict_has_no_append
  given (some j) v = ok (attach j v)

  filled_with :
      Option (Items F)
      → Json F
      → GroupKind
      → Items F
      → List (GroupKind × Items F)
      → Result AttributeError (SerializeGroupVisitor F)
  filled_with none r kind items rest = err dict_has_no_append
  filled_with (some js) r kind items rest =
      ok (record { result = r; stack = (kind, append_all items js) ∷ rest })

  visit_group-refused :
      {g : ConditionGroup F} (r : Json F) (items : Items F) (rest : List (GroupKind × Items F))
      → IsShaped g
      → visit_group g (record { result = r; stack = (negation, items) ∷ rest })
        ≡ err dict_has_no_append
  unfolding visit_group
  visit_group-refused r items rest (all_of shaped) = refl
  visit_group-refused r items rest (any_of shaped) = refl
  visit_group-refused r items rest (not_of shaped) = refl
  visit_group-refused r items rest (leaf_of c) = refl

  filled_with-item :
      (js : Option (Items F)) (j r : Json F) (kind : GroupKind) (items : Items F)
      (rest : List (GroupKind × Items F))
      → filled_with js r kind (append_item j items) rest
        ≡ filled_with (both_written (some j) js) r kind items rest
  unfolding filled_with both_written
  filled_with-item none j r kind items rest = refl
  filled_with-item (some js) j r kind items rest = rw (append_all-append_item j items js) refl

  leave-written :
      (js : Option (Items F)) (kind : GroupKind) (v : SerializeGroupVisitor F)
      → is_array kind ≡ true
      → (filled_with js v.result kind nil v.stack >>= λ visited.
          ok (visit_group_leave kind visited))
        ≡ given (written js kind) v
  unfolding filled_with written given visit_group_leave append_all
  leave-written none kind v array = refl
  leave-written (some js) all v array = refl
  leave-written (some js) any v array = refl
  leave-written (some js) negation v array = cc
  leave-written (some js) leaf v array = cc

  check_append-array :
      (kind : GroupKind) (items : Items F) (rest : List (GroupKind × Items F))
      → is_array kind ≡ true
      → check_append ((kind, items) ∷ rest) ≡ ok tt
  unfolding check_append
  check_append-array all items rest array = refl
  check_append-array any items rest array = refl
  check_append-array negation items rest array = cc
  check_append-array leaf items rest array = refl

  child_given :
      (j : Option (Json F)) (gs : Groups F) (r : Json F) (kind : GroupKind) (items : Items F)
      (rest : List (GroupKind × Items F))
      → ((items' : Items F)
          → visit_groups gs (record { result = r; stack = (kind, items') ∷ rest })
            ≡ filled_with (write_all gs) r kind items' rest)
      → (given j (record { result = r; stack = (kind, items) ∷ rest }) >>= visit_groups gs)
        ≡ filled_with (both_written j (write_all gs)) r kind items rest
  unfolding given filled_with both_written attach
  child_given none gs r kind items rest others = refl
  child_given (some j) gs r kind items rest others =
      rw (others (append_item j items)) (filled_with-item (write_all gs) j r kind items rest)

  mutual
    unfolding visit_group write given filled_with attach

    visit_group-writes :
        {g : ConditionGroup F} (v : SerializeGroupVisitor F)
        → IsShaped g
        → check_append v.stack ≡ ok tt
        → visit_group g v ≡ given (write g) v
    visit_group-writes v (all_of {gs} shaped) open_top =
        rw (open_top, visit_groups-writes v.result all nil v.stack shaped refl)
          (leave-written (write_all gs) all v refl)
    visit_group-writes v (any_of {gs} shaped) open_top =
        rw (open_top, visit_groups-writes v.result any nil v.stack shaped refl)
          (leave-written (write_all gs) any v refl)
    visit_group-writes v (not_of shaped) open_top =
        rw (open_top, visit_group-refused v.result nil v.stack shaped) refl
    visit_group-writes v (leaf_of c) open_top = rw open_top refl

    visit_groups-writes :
        {gs : Groups F} (r : Json F) (kind : GroupKind) (items : Items F)
        (rest : List (GroupKind × Items F))
        → AreShaped gs
        → is_array kind ≡ true
        → visit_groups gs (record { result = r; stack = (kind, items) ∷ rest })
          ≡ filled_with (write_all gs) r kind items rest
    visit_groups-writes r kind items rest no_more array = rw (append_all-nil items) refl
    visit_groups-writes r kind items rest (one_more {g} {gs} shaped others) array =
        rw
          (visit_group-writes (record { result = r; stack = (kind, items) ∷ rest }) shaped
            (check_append-array kind items rest array))
          (child_given (write g) gs r kind items rest
            (λ items'. visit_groups-writes r kind items' rest others array))

  mutual
    unfolding write written both_written

    write-has_not : {g : ConditionGroup F} → IsShaped g → is_some (write g) ≡ not (has_not g)
    write-has_not (all_of {gs} shaped) = ground (arith, write_all-have_not shaped)
    write-has_not (any_of {gs} shaped) = ground (arith, write_all-have_not shaped)
    write-has_not (not_of shaped) = refl
    write-has_not (leaf_of c) = refl

    write_all-have_not :
        {gs : Groups F} → AreShaped gs → all_some (write_all gs) ≡ not (have_not gs)
    write_all-have_not no_more = refl
    write_all-have_not (one_more {g} {gs} shaped others) =
        ground (arith, write-has_not shaped, write_all-have_not others)

  -- What `serialize_group` returns on a shaped tree.
  abbrev pub outcome : Option (Json F) → Result AttributeError (Json F)
  outcome none = err dict_has_no_append
  outcome (some j) = ok j

  pub serialize_group-writes :
      {g : ConditionGroup F} → IsShaped g → serialize_group g ≡ outcome (write g)
  unfolding serialize_group given attach
  serialize_group-writes {g = g} shaped =
      rw (visit_group-writes new_visitor shaped refl) (by_result (write g))
    where
      by_result :
          (j : Option (Json F))
          → (given j new_visitor >>= λ (v : SerializeGroupVisitor F). ok v.result) ≡ outcome j
      by_result none = refl
      by_result (some j) = refl

module _ {F : Type 0} ⦃number : Number F⦄ ⦃texts : Texts F⦄ (syntax : Syntax)
    (scope : Scope F) where
  -- A tree that the parser has built can be serialized exactly when it has no "not" node; any "not"
  -- node makes the serializer raise.
  pub serialize_group-parse :
      (raw : Json F) (path : Location)
      → is_ok (serialize_group (parse syntax scope raw path).0)
        ≡ not (has_not (parse syntax scope raw path).0)
  serialize_group-parse raw path =
      let shaped = parse-IsShaped syntax scope raw path in
      rw (serialize_group-writes shaped, ← write-has_not shaped)
        (by_result (write (parse syntax scope raw path).0))
    where
      by_result : (j : Option (Json F)) → is_ok (outcome j) ≡ is_some j
      by_result none = refl
      by_result (some j) = refl
