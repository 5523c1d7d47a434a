-- ===== src/Strategy/Risk.antt =====
-- JsonRiskPriceCalculator (finbar_strategy_runtime/evaluation/json_risk_price_calculator.py) and
-- RiskSpec (domain/entities/risk_spec.py).
use finbar.Common.{
  String, Bool, true, false, ◌||◌, Option, none, some, if◌then◌else◌, Result, ok, err, ◌>>=◌,
}
use finbar.Common.Dict.{Dict, str_eq}
use finbar.Simulation.Number.{Number, ◌+◌, ◌-◌, ◌*◌, abs, le, eq, nought, unity}
use finbar.Simulation.Types.{Direction, long, short, other}
use finbar.Strategy.Values.{
  Json, null, flag, num, text, arr, obj, nil, cons, end, member, Texts, read,
}

-- The handlers of `_STOP_HANDLERS` and `_TARGET_HANDLERS`; a type with no handler acts as "none".
pub data StopType : Type 0 where
  atr_stop : StopType
  fixed_pct_stop : StopType
  no_stop : StopType

pub data TargetType : Type 0 where
  atr_target : TargetType
  fixed_pct_target : TargetType
  risk_reward_target : TargetType
  no_target : TargetType

pub record RiskSpec (F : Type 0) : Type 0 where
  pub stop_loss_type : StopType
  pub stop_indicator : String
  pub stop_multiplier : F
  pub stop_pct : F
  pub take_profit_type : TargetType
  pub take_profit_indicator : String
  pub take_profit_multiplier : F
  pub take_profit_pct : F
  pub risk_reward_ratio : F

-- The ValueError or TypeError of `float`.
pub data Raised : Type 0 where
  not_a_number : Raised

abbrev pub is_long : Direction → Bool
is_long long = true
is_long short = false
is_long (other d) = false

module _ {F : Type 0} ⦃number : Number F⦄ where
  parsed : Option F → Result Raised F
  parsed none = err not_a_number
  parsed (some x) = ok x

  -- `price + distance` for a long side's target or a short side's stop.
  unfoldable pub shifted : Bool → F → F → F
  shifted up price distance = if up then price + distance else price - distance

  unfoldable pub fixed_stop : RiskSpec F → F → Direction → F
  fixed_stop risk close_price side =
      if le risk.stop_pct nought
      then nought
      else if is_long side
      then close_price * (unity - risk.stop_pct)
      else close_price * (unity + risk.stop_pct)

  unfoldable pub fixed_target : RiskSpec F → F → Direction → F
  fixed_target risk close_price side =
      if le risk.take_profit_pct nought
      then nought
      else if is_long side
      then close_price * (unity + risk.take_profit_pct)
      else close_price * (unity - risk.take_profit_pct)

  unfoldable pub reward_target : RiskSpec F → F → Direction → F → F
  unfolding shifted
  reward_target risk close_price side stop =
      if le stop nought || le risk.risk_reward_ratio nought
      then nought
      else shifted (is_long side) close_price (abs (close_price - stop) * risk.risk_reward_ratio)

  unfoldable pub atr_distance_stop : RiskSpec F → F → F → Direction → F
  atr_distance_stop risk atr close_price side =
      if le atr nought || le risk.stop_multiplier nought
      then nought
      else if is_long side
      then close_price - atr * risk.stop_multiplier
      else close_price + atr * risk.stop_multiplier

  unfoldable pub atr_distance_target : RiskSpec F → F → F → Direction → F
  unfolding shifted
  atr_distance_target risk atr close_price side =
      if le atr nought || le risk.take_profit_multiplier nought
      then nought
      else shifted (is_long side) close_price (atr * risk.take_profit_multiplier)

module _ {F : Type 0} ⦃number : Number F⦄ ⦃texts : Texts F⦄ where
  -- `float(value or 0)`
  unfoldable pub as_number : Json F → Result Raised F
  unfolding parsed
  as_number null = ok nought
  as_number (flag b) = ok (if b then unity else nought)
  as_number (num x) = ok (if eq x nought then nought else x)
  as_number (text s) = if str_eq s "" then ok nought else parsed (texts.parse_float s)
  as_number (arr nil) = ok nought
  as_number (arr (cons x xs)) = err not_a_number
  as_number (obj end) = ok nought
  as_number (obj (member k v fs)) = err not_a_number

  stop_by : StopType → RiskSpec F → Dict (Json F) → F → Direction → Result Raised F
  stop_by atr_stop risk bar close_price side = do
    atr ← as_number (read bar risk.stop_indicator)
    ok (atr_distance_stop risk atr close_price side)
  stop_by fixed_pct_stop risk bar close_price side = ok (fixed_stop risk close_price side)
  stop_by no_stop risk bar close_price side = ok nought

  unfoldable pub calculate_stop : RiskSpec F → Dict (Json F) → F → Direction → Result Raised F
  unfolding stop_by
  calculate_stop risk = stop_by risk.stop_loss_type risk

  target_by : TargetType → RiskSpec F → Dict (Json F) → F → Direction → F → Result Raised F
  target_by atr_target risk bar close_price side stop = do
    atr ← as_number (read bar risk.take_profit_indicator)
    ok (atr_distance_target risk atr close_price side)
  target_by fixed_pct_target risk bar close_price side stop =
      ok (fixed_target risk close_price side)
  target_by risk_reward_target risk bar close_price side stop =
      ok (reward_target risk close_price side stop)
  target_by no_target risk bar close_price side stop = ok nought

  unfoldable pub calculate_target : RiskSpec F → Dict (Json F) → F → Direction → F → Result Raised F
  unfolding target_by
  calculate_target risk = target_by risk.take_profit_type risk

  -- The rounded stop and target prices of an entry.
  unfoldable pub calculate : Option (RiskSpec F) → Dict (Json F) → Direction → Result Raised (F × F)
  calculate none bar side = ok (nought, nought)
  calculate (some risk) bar side = do
    close_price ← as_number (read bar "close")
    stop ← calculate_stop risk bar close_price side
    target ← calculate_target risk bar close_price side stop
    ok (number.round stop 2, number.round target 2)
