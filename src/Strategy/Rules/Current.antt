-- ===== src/Strategy/Rules/Current.antt =====
-- The crossover values that a bar leaves for the next one.
use finbar.Common.{
  ℕ, String, true, not, Bool-cases, Option, none, some, List, [], ◌∷◌, ◌++◌, ◌≡◌, refl, All,
  get_elem?, inl, inr, ok, >>=-eq-ok, ok-injective,
}
use finbar.Common.Dict.{str_eq, Dict, get_key, get_key-merge}
use finbar.Simulation.Number.{Number, eq, nought}
use finbar.Simulation.Types.{Direction, long, short, SimulatedPosition}
use finbar.Simulation.Runner.{SignalResult}
use finbar.Strategy.Values.{Json, Texts, Condition, ConditionGroup, SideRules}
use finbar.Strategy.Evaluator.{PrevValues, is_crossover, key_of, numbers_of, evaluate}
use finbar.Strategy.Evaluator.State.{
  Agrees, leaves, record_all, record_all-append, record_all-reads, collect_state-eq-record_all,
  evaluate-keeps, All-append_left,
}
use finbar.Strategy.Risk.{calculate}
use finbar.Strategy.Rules.{
  StrategyDefinition, collect_exit, collect_sides, try_side, entry_signal, exit_by, exit_for,
  exit_signal, on_bar, side_name, after_long, or_hold,
}

module _ {F : Type 0} where
  abbrev exit_leaves : Option (ConditionGroup F) → List (Condition F)
  exit_leaves none = []
  exit_leaves (some g) = leaves g

  -- The conditions of every entry and exit tree.
  abbrev all_leaves : Dict (SideRules F) → List (Condition F)
  all_leaves [] = []
  all_leaves ((name, rules) ∷ sides) =
      leaves rules.entry_rule ++ (exit_leaves rules.exit_rule ++ all_leaves sides)

module _ {F : Type 0} ⦃number : Number F⦄ ⦃texts : Texts F⦄ where
  collect_exit-record_all :
      (g : Option (ConditionGroup F)) (bar : Dict (Json F)) (pending : PrevValues F)
      → collect_exit g bar pending ≡ record_all (exit_leaves g) bar pending
  unfolding collect_exit
  collect_exit-record_all none bar pending = refl
  collect_exit-record_all (some g) bar pending = collect_state-eq-record_all g bar pending

  collect_sides-record_all :
      (sides : Dict (SideRules F)) (bar : Dict (Json F)) (pending : PrevValues F)
      → collect_sides sides bar pending ≡ record_all (all_leaves sides) bar pending
  unfolding collect_sides
  collect_sides-record_all [] bar pending = refl
  collect_sides-record_all ((name, rules) ∷ sides) bar pending =
      rw
        (
          record_all-append (leaves rules.entry_rule)
              (exit_leaves rules.exit_rule ++ all_leaves sides) bar pending,
          record_all-append (exit_leaves rules.exit_rule) (all_leaves sides) bar
              (record_all (leaves rules.entry_rule) bar pending),
          collect_state-eq-record_all rules.entry_rule bar pending,
          collect_exit-record_all rules.exit_rule bar
              (record_all (leaves rules.entry_rule) bar pending),
        )
        (collect_sides-record_all sides bar (
          record_all (exit_leaves rules.exit_rule) bar
            (record_all (leaves rules.entry_rule) bar pending)))

  -- The crossovers of the rules that a lookup finds agree.
  abbrev RulesAgree : String → F × F → Dict (Json F) → Option (SideRules F) → Type 0
  RulesAgree k v bar none = Unit
  RulesAgree k v bar (some rules) =
      All (Agrees k v bar) (leaves rules.entry_rule)
      × All (Agrees k v bar) (exit_leaves rules.exit_rule)

  found-RulesAgree :
      (k : String) (v : F × F) (bar : Dict (Json F)) (sides : Dict (SideRules F)) (name : String)
      → All (Agrees k v bar) (all_leaves sides)
      → RulesAgree k v bar (get_key name sides)
  unfolding get_key
  found-RulesAgree k v bar [] name agrees = tt
  found-RulesAgree k v bar ((n, rules) ∷ sides) name agrees =
      let (entries, rest) =
        All-append_left (Agrees k v bar) (leaves rules.entry_rule)
          (exit_leaves rules.exit_rule ++ all_leaves sides) agrees in
      let (exits, others) =
        All-append_left (Agrees k v bar) (exit_leaves rules.exit_rule) (all_leaves sides) rest in
      elim (Bool-cases (str_eq n name)) [
        | inl same ↦ rw same (entries, exits)
        | inr differ ↦ rw differ (found-RulesAgree k v bar sides name others)
      ]

  try_side-keeps :
      (k : String) (v : F × F) (d : StrategyDefinition F) (rules : Option (SideRules F))
      (side : Direction) (bar : Dict (Json F)) (previous pending : PrevValues F)
      {answer : Option (SignalResult F) × PrevValues F}
      → RulesAgree k v bar rules
      → get_key k pending ≡ some v
      → try_side d rules side bar previous pending ≡ ok answer
      → get_key k answer.1 ≡ some v
  unfolding try_side
  try_side-keeps k v d none side bar previous pending agrees held e = rw (← ok-injective e) held
  try_side-keeps k v d (some rules) side bar previous pending agrees held e =
      let noted = evaluate-keeps k v bar rules.entry_rule previous pending agrees.0 held in
      elim (Bool-cases (evaluate rules.entry_rule bar previous pending).0) [
        | inl fires ↦
            let (prices, priced, done) = >>=-eq-ok (calculate d.risk bar side) _ (rw fires at e) in
            rw (← ok-injective done) noted
        | inr quiet ↦ rw (← ok-injective (rw quiet at e)) noted
      ]

  after_long-keeps :
      (k : String) (v : F × F) (d : StrategyDefinition F) (bar : Dict (Json F))
      (previous : PrevValues F) (first : Option (SignalResult F) × PrevValues F)
      {answer : SignalResult F × PrevValues F}
      → All (Agrees k v bar) (all_leaves d.sides)
      → get_key k first.1 ≡ some v
      → after_long d bar previous first ≡ ok answer
      → get_key k answer.1 ≡ some v
  unfolding after_long or_hold
  after_long-keeps k v d bar previous (some g, noted) {answer = answer} agrees held e =
      rw (← ok-injective e) held
  after_long-keeps k v d bar previous (none, noted) {answer = answer} agrees held e =
      let ((signal, noted'), tried, done) =
        >>=-eq-ok (try_side d (get_key "short" d.sides) short bar previous noted) _ e in
      let kept =
        try_side-keeps k v d (get_key "short" d.sides) short bar previous noted
          (found-RulesAgree k v bar d.sides "short" agrees) held tried in
      ended signal noted' kept (ok-injective done)
    where
      ended :
          (signal : Option (SignalResult F)) (noted' : PrevValues F)
          → get_key k noted' ≡ some v
          → or_hold (signal, noted') ≡ answer
          → get_key k answer.1 ≡ some v
      ended (some g) noted' kept same = rw (← same) kept
      ended none noted' kept same = rw (← same) kept

  entry_signal-keeps :
      (k : String) (v : F × F) (d : StrategyDefinition F) (bar : Dict (Json F))
      (previous pending : PrevValues F) {answer : SignalResult F × PrevValues F}
      → All (Agrees k v bar) (all_leaves d.sides)
      → get_key k pending ≡ some v
      → entry_signal d bar previous pending ≡ ok answer
      → get_key k answer.1 ≡ some v
  unfolding entry_signal
  entry_signal-keeps k v d bar previous pending agrees held e =
      let (first, tried, rest) =
        >>=-eq-ok (try_side d (get_key "long" d.sides) long bar previous pending) _ e in
      after_long-keeps k v d bar previous first agrees
        (try_side-keeps k v d (get_key "long" d.sides) long bar previous pending
          (found-RulesAgree k v bar d.sides "long" agrees) held tried)
        rest

  exit_signal-keeps :
      (k : String) (v : F × F) (d : StrategyDefinition F) (side : Direction) (bar : Dict (Json F))
      (previous pending : PrevValues F)
      → All (Agrees k v bar) (all_leaves d.sides)
      → get_key k pending ≡ some v
      → get_key k (exit_signal d side bar previous pending).1 ≡ some v
  unfolding exit_signal
  exit_signal-keeps k v d side bar previous pending agrees held =
      exit_for-keeps (get_key (side_name side) d.sides)
        (found-RulesAgree k v bar d.sides (side_name side) agrees)
    where
      exit_for-keeps :
          (rules : Option (SideRules F))
          → RulesAgree k v bar rules
          → get_key k (exit_for rules side bar previous pending).1 ≡ some v
      exit_for-keeps none found = held
      exit_for-keeps (some rules) found = exit_by-keeps rules.exit_rule found.1
        where
          exit_by-keeps :
              (g : Option (ConditionGroup F))
              → All (Agrees k v bar) (exit_leaves g)
              → get_key k (exit_by g rules.exit_confidence side bar previous pending).1 ≡ some v
          exit_by-keeps none found' = held
          exit_by-keeps (some g) found' = evaluate-keeps k v bar g previous pending found' held

  -- Whatever the position, a bar that the strategy answers leaves the values of every crossover of
  -- its entry and exit trees that reads numbers on that bar, if the crossovers with the same key
  -- read the same numbers: no crossover goes stale while a position is open.
  pub on_bar-current :
      (d : StrategyDefinition F) (previous : PrevValues F) (bar : Dict (Json F))
      (position : SimulatedPosition F) (i : ℕ) {c : Condition F} {v : F × F}
      {answer : PrevValues F × SignalResult F}
      → on_bar d previous bar position ≡ ok answer
      → get_elem? (all_leaves d.sides) i ≡ some c
      → is_crossover c.operator ≡ true
      → numbers_of c bar ≡ some v
      → All (Agrees (key_of c) v bar) (all_leaves d.sides)
      → get_key (key_of c) answer.0 ≡ some v
  unfolding on_bar
  on_bar-current d previous bar position i {c = c} {v = v} e at_i crossing found agrees =
      let collected : get_key (key_of c) (collect_sides d.sides bar []) ≡ some v =
        rw (collect_sides-record_all d.sides bar [])
          (record_all-reads v bar i (all_leaves d.sides) [] at_i crossing found agrees) in
      elim (Bool-cases (not (eq position.size nought))) [
        | inl holding ↦ rw (← ok-injective (rw holding at e)) (
            get_key-merge (key_of c) v previous _ (
              exit_signal-keeps (key_of c) v d position.direction bar previous
                (collect_sides d.sides bar []) agrees collected))
        | inr flat ↦
            let (noted, entered, done) =
              >>=-eq-ok (entry_signal d bar previous (collect_sides d.sides bar [])) _
                (rw flat at e) in
            rw (← ok-injective done) (
              get_key-merge (key_of c) v previous noted.1 (
                entry_signal-keeps (key_of c) v d bar previous (collect_sides d.sides bar []) agrees
                  collected entered))
      ]
