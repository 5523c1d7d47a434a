-- ===== src/Strategy/Serializer/RoundTrip.antt =====
-- Reading back what the serializer writes.
use finbar.Common.{
  ℕ, suc, String, Bool, true, false, Option, none, some, [], ◌∷◌, ◌≡◌, refl, ap, ◌∙◌, arith, ok,
}
use finbar.Simulation.Number.{Number}
use finbar.Strategy.Values.{
  Json, null, flag, num, text, arr, obj, Items, nil, cons, end, member, Texts, Operand, price_field,
  column, Operator, less, greater, at_most, at_least, equal, unequal, crosses_above, crosses_below,
  between, not_between, is_true, is_false, exists, missing, unknown, name_of, Condition, GroupKind,
  all, any, negation, leaf, ConditionGroup, group, Groups, none_left, child, kind_name,
}
use finbar.Strategy.Parser.{
  Location, Errors, name, index, Syntax, Scope, operator_of, is_binary, check_operator, field_of,
  parse_named, resolve_expression, resolve_items, is_ohlcv, literal_of, named, parse_operand,
  parse_right, text_field, parse_condition, parse, parse_items,
}
use finbar.Common.Dict.{get_key}
use finbar.Strategy.Parser.Shape.{
  IsShaped, AreShaped, has_array, all_of, any_of, leaf_of, no_more, one_more,
}
use finbar.Strategy.Serializer.{serialize_group, entry_of, right_field}
use finbar.Strategy.Serializer.Written.{
  write, write_all, written, both_written, outcome, serialize_group-writes,
}

abbrev is_known : Operator → Bool
is_known (unknown s) = false
is_known _ = true

operator_of-name_of : (o : Operator) → is_known o ≡ true → operator_of (name_of o) ≡ o
unfolding operator_of name_of
operator_of-name_of less h = refl
operator_of-name_of greater h = refl
operator_of-name_of at_most h = refl
operator_of-name_of at_least h = refl
operator_of-name_of equal h = refl
operator_of-name_of unequal h = refl
operator_of-name_of crosses_above h = refl
operator_of-name_of crosses_below h = refl
operator_of-name_of between h = refl
operator_of-name_of not_between h = refl
operator_of-name_of is_true h = refl
operator_of-name_of is_false h = refl
operator_of-name_of exists h = refl
operator_of-name_of missing h = refl
operator_of-name_of (unknown s) h = cc

module _ {F : Type 0} ⦃number : Number F⦄ ⦃texts : Texts F⦄ (syntax : Syntax)
    (scope : Scope F) where
  -- A list of numbers.
  abbrev pub AreNumbers : Items F → Type 0
  AreNumbers nil = Unit
  AreNumbers (cons (num x) xs) = AreNumbers xs
  AreNumbers (cons _ xs) = ⊥

  -- A name that is neither an alias nor a reference to a parameter.
  pub record IsOwnName (s : String) : Type 0 where
    pub no_reference : syntax.param_name s ≡ none
    pub no_alias : get_key s scope.aliases ≡ none
    pub no_feature : get_key s scope.feature_aliases ≡ none

  -- The operands that stand for themselves: a number, a truth value or a list of numbers, labelled by
  -- its own text, a price field, or a column of the catalogue.
  pub data IsPlain : Operand F → Type 0 where
    plain_number : (x : F) → IsPlain (literal_of syntax scope (num x) (texts.show (num x)))
    plain_flag : (b : Bool) → IsPlain (literal_of syntax scope (flag b) (texts.show (flag b)))
    plain_list :
        (xs : Items F)
        → AreNumbers xs
        → IsPlain (literal_of syntax scope (arr xs) (texts.show (arr xs)))
    plain_field :
        (s : String)
        → IsOwnName s
        → is_ohlcv s ≡ true
        → IsPlain (named syntax scope price_field s s [])
    plain_column :
        (s : String)
        → IsOwnName s
        → is_ohlcv s ≡ false
        → syntax.supports_concrete s ≡ true
        → IsPlain (named syntax scope column s s [])

  abbrev ReadsBack : Operand F → Type 0
  ReadsBack o = (path : Location) → parse_operand syntax scope o.value path ≡ (o, [])

  resolve_items-numbers :
      (xs : Items F) (path : Location)
      → AreNumbers xs
      → resolve_items syntax scope xs path ≡ (xs, [])
  unfolding resolve_items resolve_expression
  resolve_items-numbers nil path h = refl
  resolve_items-numbers (cons (num x) xs) path h = rw (resolve_items-numbers xs path h) refl
  resolve_items-numbers (cons null xs) path h = elim h [ ]
  resolve_items-numbers (cons (flag b) xs) path h = elim h [ ]
  resolve_items-numbers (cons (text s) xs) path h = elim h [ ]
  resolve_items-numbers (cons (arr ys) xs) path h = elim h [ ]
  resolve_items-numbers (cons (obj fs) xs) path h = elim h [ ]

  -- The parser reads a plain operand back from its value.
  parse_operand-reads : {o : Operand F} → IsPlain o → ReadsBack o
  unfolding parse_operand parse_named
  parse_operand-reads (plain_number x) path = refl
  parse_operand-reads (plain_flag b) path = refl
  parse_operand-reads (plain_list xs numbers) path = rw (resolve_items-numbers xs path numbers) refl
  parse_operand-reads (plain_field s own field) path =
      rw (own.no_reference, own.no_alias, own.no_feature, field) refl
  parse_operand-reads (plain_column s own other known) path =
      rw (own.no_reference, own.no_alias, own.no_feature, other, known) refl

  -- A right operand stands where the operator takes one, and is plain.
  abbrev RightIsPlain : Bool → Option (Operand F) → Type 0
  RightIsPlain true (some o) = IsPlain o
  RightIsPlain true none = ⊥
  RightIsPlain false none = Unit
  RightIsPlain false (some o) = ⊥

  abbrev is_filled : Groups F → Bool
  is_filled none_left = false
  is_filled (child g gs) = true

  -- A tree without "not" whose nodes have children and whose operands are plain.
  mutual
    pub data IsCanonical : ConditionGroup F → Type 0 where
      canonical_all :
          {g : ConditionGroup F} {gs : Groups F}
          → AreCanonical (child g gs)
          → IsCanonical (group all (child g gs) none)
      canonical_any :
          {g : ConditionGroup F} {gs : Groups F}
          → AreCanonical (child g gs)
          → IsCanonical (group any (child g gs) none)
      canonical_leaf :
          (c : Condition F)
          → is_known c.operator ≡ true
          → IsPlain c.left
          → RightIsPlain (is_binary c.operator) c.right
          → IsCanonical (group leaf none_left (some c))

    pub data AreCanonical : Groups F → Type 0 where
      all_read : AreCanonical none_left
      one_canonical :
          {g : ConditionGroup F} {gs : Groups F}
          → IsCanonical g
          → AreCanonical gs
          → AreCanonical (child g gs)

  mutual
    IsCanonical-IsShaped : {g : ConditionGroup F} → IsCanonical g → IsShaped g
    IsCanonical-IsShaped (canonical_all children) = all_of (AreCanonical-AreShaped children)
    IsCanonical-IsShaped (canonical_any children) = any_of (AreCanonical-AreShaped children)
    IsCanonical-IsShaped (canonical_leaf c known left right) = leaf_of c

    AreCanonical-AreShaped : {gs : Groups F} → AreCanonical gs → AreShaped gs
    AreCanonical-AreShaped all_read = no_more
    AreCanonical-AreShaped (one_canonical first others) =
        one_more (IsCanonical-IsShaped first) (AreCanonical-AreShaped others)

  parse_right-reads :
      (takes : Bool) (right : Option (Operand F)) (left : Json F) (name_text : Json F)
      (path : Location)
      → RightIsPlain takes right
      → parse_right syntax scope takes
          (member "left" left (member "operator" name_text (right_field right)))
          path
        ≡ (right, [])
  unfolding parse_right right_field field_of
  parse_right-reads true (some o) left name_text path back =
      rw (parse_operand-reads back (name "right" ∷ path)) refl
  parse_right-reads true none left name_text path back = elim back [ ]
  parse_right-reads false none left name_text path back = refl
  parse_right-reads false (some o) left name_text path back = elim back [ ]

  -- The object of a condition is read as a leaf.
  parse-parse_condition :
      (left name_text : Json F) (right : Option (Operand F)) (path : Location)
      → parse syntax scope
          (obj (member "left" left (member "operator" name_text (right_field right))))
          path
        ≡ (
          group leaf none_left (
              some
                (parse_condition syntax scope
                  (member "left" left (member "operator" name_text (right_field right)))
                  path).0),
          (parse_condition syntax scope
              (member "left" left (member "operator" name_text (right_field right)))
              path).1,
        )
  unfolding parse right_field
  parse-parse_condition left name_text none path = refl
  parse-parse_condition left name_text (some o) path = refl

  -- An array under "all" or "any" is read child by child.
  parse-parse_items :
      (kind : GroupKind) (js : Items F) (path : Location) {gs : Groups F}
      → has_array kind ≡ true
      → parse_items syntax scope kind 0 js path ≡ (gs, [])
      → is_filled gs ≡ true
      → parse syntax scope (obj (member (kind_name kind) (arr js) end)) path
        ≡ (group kind gs none, [])
  unfolding parse
  parse-parse_items all nil path array items filled = grind arith
  parse-parse_items any nil path array items filled = grind arith
  parse-parse_items all (cons x xs) path array items filled =
      ap (λ (r : Groups F × Errors). (group all r.0 none, r.1)) items
  parse-parse_items any (cons x xs) path array items filled =
      ap (λ (r : Groups F × Errors). (group any r.0 none, r.1)) items
  parse-parse_items negation js path array items filled = cc
  parse-parse_items leaf js path array items filled = cc

  check_operator-known :
      (o : Operator) (path : Location) → is_known o ≡ true → check_operator o path ≡ []
  unfolding check_operator
  check_operator-known o path known = ground arith

  module _ (strips : (o : Operator) → is_known o ≡ true → syntax.strip (name_of o) ≡ name_of o)
      (shows : (s : String) → texts.show (text s) ≡ s) where
    parse_condition-reads :
        (c : Condition F) (path : Location)
        → is_known c.operator ≡ true
        → IsPlain c.left
        → RightIsPlain (is_binary c.operator) c.right
        → parse_condition syntax scope
            (member "left" c.left.value
              (member "operator" (text (name_of c.operator)) (right_field c.right)))
            path
          ≡ (c, [])
    unfolding parse_condition text_field field_of
    parse_condition-reads c path known left right =
        rw
          (
            shows (name_of c.operator),
            strips c.operator known,
            operator_of-name_of c.operator known,
            parse_operand-reads left (name "left" ∷ path),
            parse_right-reads (is_binary c.operator) c.right c.left.value
                (text (name_of c.operator)) path right,
            check_operator-known c.operator path known,
          )
          refl

    mutual
      unfolding write written both_written parse entry_of

      write-parse :
          {g : ConditionGroup F}
          → IsCanonical g
          → (j : Json F) × (write g ≡ some j)
            × ((path : Location) → parse syntax scope j path ≡ (g, []))
      write-parse (canonical_all children) =
          let (js, wrote, reads) = write_all-parse children in
          (
            _,
            ap (λ w. written w all) wrote,
            λ path. parse-parse_items all js path refl (reads all 0 path) refl,
          )
      write-parse (canonical_any children) =
          let (js, wrote, reads) = write_all-parse children in
          (
            _,
            ap (λ w. written w any) wrote,
            λ path. parse-parse_items any js path refl (reads any 0 path) refl,
          )
      write-parse (canonical_leaf c known left right) = (
        _,
        refl,
        λ path.
            parse-parse_condition c.left.value (text (name_of c.operator)) c.right path
            ∙ ap (λ (r : Condition F × Errors). (group leaf none_left (some r.0), r.1))
                (parse_condition-reads c path known left right),
      )

      write_all-parse :
          {gs : Groups F}
          → AreCanonical gs
          → (js : Items F) × (write_all gs ≡ some js)
            × ((kind : GroupKind) (i : ℕ) (path : Location)
                → parse_items syntax scope kind i js path ≡ (gs, []))
      write_all-parse all_read = (nil, refl, λ kind i path. refl)
      write_all-parse (one_canonical first others) =
          let (j, wrote, reads) = write-parse first in
          let (js, wrote_others, reads_others) = write_all-parse others in
          (
            cons j js,
            rw (wrote, wrote_others) refl,
            λ kind i path.
                rw (reads (index i ∷ name (kind_name kind) ∷ path), reads_others kind (suc i) path)
                  refl,
          )

    -- A canonical tree (without "not", every node with children, every operand plain: no alias, no
    -- parameter reference) is serialized, and the parser reads what was written back as the same tree,
    -- without errors, at any path: where `strip` keeps the operators' names and `str` keeps a text.
    pub serialize_group-round_trip :
        {g : ConditionGroup F} (path : Location)
        → IsCanonical g
        → (j : Json F) × (serialize_group g ≡ ok j) × (parse syntax scope j path ≡ (g, []))
    serialize_group-round_trip path canonical =
        let (j, wrote, reads) = write-parse canonical in
        (j, serialize_group-writes (IsCanonical-IsShaped canonical) ∙ ap outcome wrote, reads path)
