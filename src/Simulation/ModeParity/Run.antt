-- ===== src/Simulation/ModeParity/Run.antt =====
-- Whole runs of backtest_runner.py in the two margin modes.
use finbar.Common.{
  ℕ, ◌≡◌, ◌∙◌, sym, ap, refl, true, false, none, List, [], ◌∷◌, arith, ok, All, ok-injective, ◌>>=◌,
  >>=-assoc, >>=-eq_of_ok, >>=-eq-ok, drop, take, All-drop,
}
use mathlib.Core.Path.{subst}
use finbar.Simulation.Number.{Number, IsOrdered, le, eq, nought}
use finbar.Simulation.Types.{ExecutionConfig, World, MarginMode, full, simplified, initial_state}
use finbar.Simulation.Holding.{Clock}
use finbar.Simulation.Margin.{open_account}
use finbar.Simulation.Executor.{
  fund, sync_margin_equity, check_margin, check_exit_conditions, liquidate_open, setup_full_margin,
}
use finbar.Simulation.MarginCall.{check_margin-redundant}
use finbar.Simulation.Ledger.{SameCash}
use finbar.Simulation.Ledger.Accounts.{process_signal-same, track_equity-same}
use finbar.Simulation.ModeParity.{
  in_mode, strip, strip_ok, check_exit_conditions-strip, execute_pending-strip,
  liquidate_open-strip,
}
use finbar.Simulation.ModeParity.Cash.{
  fund-idle, sync_margin_equity-idle, SameCash-state, check_exit_conditions-SameCash,
  execute_pending-SameCash,
}
use finbar.Simulation.Runner.Warmup.{feed, run_bars-eq-drop}
use finbar.Simulation.Runner.{
  Bar, TradingStrategy, process_signal, track_equity, execute_pending, after_open, trade_bar,
  trade_bars, run_bars, run_loop, final_of,
}

-- The close lies between the low and the high.
abbrev HoldsClose : {F : Type 0} → ⦃num : Number F⦄ → Bar F → Type 0
HoldsClose b = (le b.low b.close_price ≡ true) × (le b.close_price b.high ≡ true)

module _ {F S : Type 0} ⦃num : Number F⦄ ⦃clock : Clock F⦄ (laws : IsOrdered F)
    (zero_eq : eq {F = F} nought nought ≡ true) (strategy : TradingStrategy F S) (m : MarginMode)
    (c : ExecutionConfig F) (off : c.enable_funding ≡ false) (risk : F) where
  abbrev strip_end : S × World F → S × World F
  strip_end end = (end.0, strip end.1)

  -- Without funding, and without a margin call that the bar has not forestalled, the steps of the margin
  -- account do nothing.
  after_open-plain :
      (b : Bar F) (memory : S) (w : World F)
      → HoldsClose b
      → SameCash w
      → let held = check_exit_conditions c w b.open_price b.high b.low b.date in
        let (memory', signal) = strategy.on_bar memory b held.state.position in
        let s = process_signal held.state signal b.close_price risk in
        let tracked : World F = record held { state = track_equity s b.close_price b.date } in
        (after_open strategy c risk b memory w ≡ (memory', tracked)) × SameCash tracked
  unfolding after_open
  after_open-plain b memory w close_in same =
      let held = check_exit_conditions c w b.open_price b.high b.low b.date in
      let same' = check_exit_conditions-SameCash c w b.open_price b.high b.low b.date same in
      let s =
        process_signal held.state (strategy.on_bar memory b held.state.position).1 b.close_price
          risk in
      let tracked : World F = record held { state = track_equity s b.close_price b.date } in
      let kept =
        (track_equity-same s b.close_price b.date).cash
        ∙ (process_signal-same held.state _ b.close_price risk).cash in
      let same_end = SameCash-state held (track_equity s b.close_price b.date) kept same' in
      (
        rw
            (
              check_margin-redundant laws c w b.open_price b.high b.low b.close_price b.date zero_eq
                  close_in.0 close_in.1,
              fund-idle c held zero_eq off same',
            )
            (ap (λ v. ((strategy.on_bar memory b held.state.position).0, v))
              (sync_margin_equity-idle tracked same_end)),
        same_end,
      )

  -- Without an account the steps of the margin account are left out.
  after_open-alone :
      (b : Bar F) (memory : S) (w : World F)
      → let held = check_exit_conditions c w b.open_price b.high b.low b.date in
        let (memory', signal) = strategy.on_bar memory b held.state.position in
        let s = process_signal held.state signal b.close_price risk in
        after_open strategy (in_mode m c) risk b memory (strip w)
        ≡ (memory', record { state = track_equity s b.close_price b.date; margin = none })
  unfolding after_open check_margin fund sync_margin_equity
  after_open-alone b memory w =
      rw (check_exit_conditions-strip m c w b.open_price b.high b.low b.date) refl

  after_open-strip :
      (b : Bar F) (memory : S) (w : World F)
      → HoldsClose b
      → SameCash w
      → after_open strategy (in_mode m c) risk b memory (strip w)
        ≡ strip_end (after_open strategy c risk b memory w)
  after_open-strip b memory w close_in same =
      after_open-alone b memory w ∙ ap strip_end (sym (after_open-plain b memory w close_in same).0)

  after_open-SameCash :
      (b : Bar F) (memory : S) (w : World F)
      → HoldsClose b
      → SameCash w
      → SameCash (after_open strategy c risk b memory w).1
  after_open-SameCash b memory w close_in same =
      let (plain, kept) = after_open-plain b memory w close_in same in
      subst (λ end. SameCash end.1) (sym plain) kept

  trade_bar-SameCash :
      (b : Bar F) (memory : S) (w : World F) {end : S × World F}
      → HoldsClose b
      → SameCash w
      → trade_bar strategy c risk b memory w ≡ ok end
      → SameCash end.1
  unfolding trade_bar
  trade_bar-SameCash b memory w close_in same ran =
      let (opened, pending, done) = >>=-eq-ok (execute_pending c w b.open_price b.date) _ ran in
      let same' = execute_pending-SameCash c w b.open_price b.date same pending in
      subst (λ (e : S × World F). SameCash e.1) (ok-injective done)
        (after_open-SameCash b memory opened close_in same')

  trade_bar-strip :
      (b : Bar F) (memory : S) (w : World F)
      → HoldsClose b
      → SameCash w
      → trade_bar strategy (in_mode m c) risk b memory (strip w)
        ≡ (trade_bar strategy c risk b memory w >>= λ end. ok (strip_end end))
  unfolding trade_bar
  trade_bar-strip b memory w close_in same =
      let pending = execute_pending c w b.open_price b.date in
      ap (λ r. r >>= λ o. ok (after_open strategy (in_mode m c) risk b memory o))
        (execute_pending-strip m c w b.open_price b.date)
      ∙ >>=-assoc pending _ _
      ∙ >>=-eq_of_ok pending _ _ (λ opened ran. ap ok (
          after_open-strip b memory opened close_in
            (execute_pending-SameCash c w b.open_price b.date same ran)))
      ∙ sym (>>=-assoc pending _ _)

  trade_bars-strip :
      (bs : List (Bar F)) (memory : S) (w : World F)
      → All HoldsClose bs
      → SameCash w
      → trade_bars strategy (in_mode m c) risk bs memory (strip w)
        ≡ (trade_bars strategy c risk bs memory w >>= λ end. ok (strip_end end))
  unfolding trade_bars
  trade_bars-strip [] memory w close_in same = refl
  trade_bars-strip (b ∷ bs) memory w close_in same =
      let first = trade_bar strategy c risk b memory w in
      ap (λ r. r >>= λ n. trade_bars strategy (in_mode m c) risk bs n.0 n.1)
        (trade_bar-strip b memory w close_in.0 same)
      ∙ >>=-assoc first _ _
      ∙ >>=-eq_of_ok first _ _ (λ next ran.
        trade_bars-strip bs next.0 next.1 close_in.1
          (trade_bar-SameCash b memory w close_in.0 same ran))
      ∙ sym (>>=-assoc first _ _)

  run_bars-strip :
      (n : ℕ) (bs : List (Bar F)) (memory : S) (w : World F)
      → All HoldsClose bs
      → SameCash w
      → run_bars strategy n (in_mode m c) risk bs memory (strip w)
        ≡ (run_bars strategy n c risk bs memory w >>= λ end. ok (strip_end end))
  run_bars-strip n bs memory w close_in same =
      let memory' = feed strategy w.state.position (take n bs) memory in
      run_bars-eq-drop strategy n (in_mode m c) risk bs memory (strip w)
      ∙ trade_bars-strip (drop n bs) memory' w (All-drop HoldsClose n bs close_in) same
      ∙ ap (λ r. r >>= λ end. ok (strip_end end))
          (sym (run_bars-eq-drop strategy n c risk bs memory w))

module _ {F S : Type 0} ⦃num : Number F⦄ ⦃clock : Clock F⦄ (strategy : TradingStrategy F S) where
  start-SameCash :
      (c : ExecutionConfig F) (cash : F)
      → SameCash (record { state = initial_state cash; margin = setup_full_margin c cash })
  unfolding setup_full_margin open_account initial_state
  start-SameCash c cash = ground arith

  -- Without funding, on bars whose close lies between their low and their high, a run in full-margin
  -- mode and one in simplified mode come to the same: they raise the same error, or they end in the same
  -- state, with the same trades, equity curve and cash. (Floats are ordered by <=, and 0.0 == 0.0.)
  pub run_loop-modes :
      (c : ExecutionConfig F) (cash risk : F) (n : ℕ) (bs : List (Bar F)) (memory : S)
      → IsOrdered F
      → eq {F = F} nought nought ≡ true
      → c.enable_funding ≡ false
      → All HoldsClose bs
      → run_loop strategy (in_mode simplified c) cash risk n bs memory
        ≡ strip_ok (run_loop strategy (in_mode full c) cash risk n bs memory)
  unfolding run_loop setup_full_margin
  run_loop-modes c cash risk n bs memory laws zero_eq off close_in =
      let d = in_mode full c in
      let start : World F = record {
        state = initial_state cash;
        margin = setup_full_margin d cash;
      } in
      let ran = run_bars strategy n d risk bs memory start in
      let final = final_of nought "" bs in
      ap (λ r. r >>= λ end. ok (liquidate_open (in_mode simplified d) end.1 final.0 final.1))
        (run_bars-strip laws zero_eq strategy simplified d off risk n bs memory start close_in
          (start-SameCash d cash))
      ∙ >>=-assoc ran _ _
      ∙ >>=-eq_of_ok ran _ _
          (λ end _. ap ok (liquidate_open-strip simplified d end.1 final.0 final.1))
      ∙ sym (>>=-assoc ran _ _)
