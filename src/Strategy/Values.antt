-- ===== src/Strategy/Values.antt =====
-- JSON values and the entities of a JSON strategy
-- (finbar_strategy_runtime/domain/entities/{operand,condition,condition_group,side_rules,risk_spec}.py).
use finbar.Common.{String, Bool, Option, none, some, List}
use finbar.Common.Dict.{Dict, get_key}

-- A value of a dynamic field: a bar's column, an operand, a part of a JSON document.
mutual
  pub data Json (F : Type 0) : Type 0 where
    null : Json F
    flag : Bool → Json F
    num : F → Json F
    text : String → Json F
    arr : Items F → Json F
    obj : Fields F → Json F

  pub data Items (F : Type 0) : Type 0 where
    nil : Items F
    cons : Json F → Items F → Items F

  pub data Fields (F : Type 0) : Type 0 where
    end : Fields F
    member : String → Json F → Fields F → Fields F

-- `float(text)`, with `none` for its ValueError, and `str(value)`.
pub record Texts (F : Type 0) : Type 0 where
  pub parse_float : String → Option F
  pub show : Json F → String

-- The kinds of operands; `literal` stands for every kind that names no column.
pub data OperandKind : Type 0 where
  price_field : OperandKind
  indicator : OperandKind
  feature : OperandKind
  column : OperandKind
  literal : OperandKind

pub record Operand (F : Type 0) : Type 0 where
  pub kind : OperandKind
  pub value : Json F
  pub label : String
  pub sources : List String

pub data Operator : Type 0 where
  less : Operator
  greater : Operator
  at_most : Operator
  at_least : Operator
  equal : Operator
  unequal : Operator
  crosses_above : Operator
  crosses_below : Operator
  between : Operator
  not_between : Operator
  is_true : Operator
  is_false : Operator
  exists : Operator
  missing : Operator
  unknown : String → Operator

-- The operator's text.
unfoldable pub name_of : Operator → String
name_of less = "<"
name_of greater = ">"
name_of at_most = "<="
name_of at_least = ">="
name_of equal = "=="
name_of unequal = "!="
name_of crosses_above = "crosses_above"
name_of crosses_below = "crosses_below"
name_of between = "between"
name_of not_between = "not_between"
name_of is_true = "is_true"
name_of is_false = "is_false"
name_of exists = "exists"
name_of missing = "missing"
name_of (unknown s) = s

pub record Condition (F : Type 0) : Type 0 where
  pub left : Operand F
  pub operator : Operator
  pub right : Option (Operand F)

-- `negation` is the kind "not", `leaf` the kind "condition".
pub data GroupKind : Type 0 where
  all : GroupKind
  any : GroupKind
  negation : GroupKind
  leaf : GroupKind

-- The kind's text.
abbrev pub kind_name : GroupKind → String
kind_name all = "all"
kind_name any = "any"
kind_name negation = "not"
kind_name leaf = "condition"

mutual
  pub data ConditionGroup (F : Type 0) : Type 0 where
    group : GroupKind → Groups F → Option (Condition F) → ConditionGroup F

  pub data Groups (F : Type 0) : Type 0 where
    none_left : Groups F
    child : ConditionGroup F → Groups F → Groups F

pub record SideRules (F : Type 0) : Type 0 where
  pub entry_rule : ConditionGroup F
  pub exit_rule : Option (ConditionGroup F)
  pub entry_confidence : F
  pub exit_confidence : F

-- `bar.get(name)`, where a missing column reads as None.
unfoldable pub read : {F : Type 0} → Dict (Json F) → String → Json F
read bar name = elim (get_key name bar) [ none ↦ null | some v ↦ v ]
