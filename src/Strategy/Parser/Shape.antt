-- ===== src/Strategy/Parser/Shape.antt =====
-- The shape of the trees that the condition parser builds.
use finbar.Common.{
  refl, ℕ, Option, none, some, suc, ◌∷◌, ◌≡◌, Bool, true, false, Bool-cases, inl, inr,
}
use finbar.Common.Dict.{str_eq}
use finbar.Simulation.Number.{Number}
use finbar.Strategy.Values.{
  Json, null, flag, num, text, arr, obj, Items, nil, cons, Fields, end, member, Texts, Condition,
  GroupKind, all, any, negation, leaf, ConditionGroup, group, Groups, none_left, child, kind_name,
}
use finbar.Strategy.Parser.{
  Location, Errors, name, index, Syntax, Scope, parse, parse_member, parse_not, parse_children,
  parse_items, parse_condition, first_of, as_negation, as_leaf,
}

-- The kinds whose children stand in an array.
abbrev pub has_array : GroupKind → Bool
has_array all = true
has_array any = true
has_array negation = false
has_array leaf = false

-- An "all" or "any" node has children only, a "not" node one child, a leaf one condition.
mutual
  pub data IsShaped {F : Type 0} : ConditionGroup F → Type 0 where
    all_of : {gs : Groups F} → AreShaped gs → IsShaped (group all gs none)
    any_of : {gs : Groups F} → AreShaped gs → IsShaped (group any gs none)
    not_of :
        {g : ConditionGroup F} → IsShaped g → IsShaped (group negation (child g none_left) none)
    leaf_of : (c : Condition F) → IsShaped (group leaf none_left (some c))

  pub data AreShaped {F : Type 0} : Groups F → Type 0 where
    no_more : AreShaped none_left
    one_more :
        {g : ConditionGroup F} {gs : Groups F} → IsShaped g → AreShaped gs → AreShaped (child g gs)

module _ {F : Type 0} where
  abbrev FoundIsShaped : Option (ConditionGroup F × Errors) → Type 0
  FoundIsShaped none = Unit
  FoundIsShaped (some (g, errors)) = IsShaped g

  group-IsShaped :
      (kind : GroupKind) (gs : Groups F)
      → has_array kind ≡ true
      → AreShaped gs
      → IsShaped (group kind gs none)
  group-IsShaped all gs h shaped = all_of shaped
  group-IsShaped any gs h shaped = any_of shaped
  group-IsShaped negation gs h shaped = cc
  group-IsShaped leaf gs h shaped = cc

module _ {F : Type 0} ⦃number : Number F⦄ ⦃texts : Texts F⦄ (syntax : Syntax)
    (scope : Scope F) where
  first_of-IsShaped :
      (alls anys nots : Option (ConditionGroup F × Errors)) (c : Condition F × Errors)
      → FoundIsShaped alls
      → FoundIsShaped anys
      → FoundIsShaped nots
      → IsShaped (first_of syntax scope alls anys nots c).0
  unfolding first_of as_negation as_leaf
  first_of-IsShaped (some g) anys nots c h h' h'' = h
  first_of-IsShaped none (some g) nots c h h' h'' = h'
  first_of-IsShaped none none (some (g, errors)) c h h' h'' = not_of h''
  first_of-IsShaped none none none (c, errors) h h' h'' = leaf_of c

  mutual
    unfolding parse

    parse_json-IsShaped :
        (raw : Json F) (path : Location) → IsShaped (parse syntax scope raw path).0
    parse_json-IsShaped (obj fs) path =
        let alls = parse_member-IsShaped all fs path refl in
        let anys = parse_member-IsShaped any fs path refl in
        first_of-IsShaped (parse_member syntax scope all fs path)
          (parse_member syntax scope any fs path) (parse_not syntax scope fs path)
          (parse_condition syntax scope fs path) alls anys (parse_not-IsShaped fs path)
    parse_json-IsShaped null path = all_of no_more
    parse_json-IsShaped (flag b) path = all_of no_more
    parse_json-IsShaped (num x) path = all_of no_more
    parse_json-IsShaped (text s) path = all_of no_more
    parse_json-IsShaped (arr xs) path = all_of no_more

    parse_member-IsShaped :
        (kind : GroupKind) (fs : Fields F) (path : Location)
        → has_array kind ≡ true
        → FoundIsShaped (parse_member syntax scope kind fs path)
    parse_member-IsShaped kind end path h = tt
    parse_member-IsShaped kind (member k v fs) path h =
        let rest = parse_member-IsShaped kind fs path h in
        let found = parse_children-IsShaped kind v path h in
        elim (Bool-cases (str_eq k (kind_name kind))) [
          | inl same ↦ rw same found
          | inr differ ↦ rw differ rest
        ]

    parse_not-IsShaped :
        (fs : Fields F) (path : Location) → FoundIsShaped (parse_not syntax scope fs path)
    parse_not-IsShaped end path = tt
    parse_not-IsShaped (member k v fs) path =
        let rest = parse_not-IsShaped fs path in
        let found = parse_json-IsShaped v (name "not" ∷ path) in
        elim (Bool-cases (str_eq k "not")) [
          | inl same ↦ rw same found
          | inr differ ↦ rw differ rest
        ]

    parse_children-IsShaped :
        (kind : GroupKind) (raw : Json F) (path : Location)
        → has_array kind ≡ true
        → IsShaped (parse_children syntax scope kind raw path).0
    parse_children-IsShaped kind (arr (cons x xs)) path h = group-IsShaped kind _ h (
        one_more (parse_json-IsShaped x (index 0 ∷ name (kind_name kind) ∷ path))
          (parse_items-IsShaped kind 1 xs path))
    parse_children-IsShaped kind (arr nil) path h = group-IsShaped kind none_left h no_more
    parse_children-IsShaped kind null path h = group-IsShaped kind none_left h no_more
    parse_children-IsShaped kind (flag b) path h = group-IsShaped kind none_left h no_more
    parse_children-IsShaped kind (num x) path h = group-IsShaped kind none_left h no_more
    parse_children-IsShaped kind (text s) path h = group-IsShaped kind none_left h no_more
    parse_children-IsShaped kind (obj fs) path h = group-IsShaped kind none_left h no_more

    parse_items-IsShaped :
        (kind : GroupKind) (i : ℕ) (xs : Items F) (path : Location)
        → AreShaped (parse_items syntax scope kind i xs path).0
    parse_items-IsShaped kind i nil path = no_more
    parse_items-IsShaped kind i (cons x xs) path =
        one_more (parse_json-IsShaped x (index i ∷ name (kind_name kind) ∷ path))
          (parse_items-IsShaped kind (suc i) xs path)

  -- Whatever JSON value it is given, the parser builds a tree whose "all" and "any" nodes have
  -- children only, whose "not" nodes have one child, and whose leaves have one condition.
  pub parse-IsShaped : (raw : Json F) (path : Location) → IsShaped (parse syntax scope raw path).0
  parse-IsShaped raw path = parse_json-IsShaped raw path
