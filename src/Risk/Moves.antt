-- ===== src/Risk/Moves.antt =====
-- What one decision does to the positions (rules.go, `Process`): an approved one is a move of an
-- explicit transition diagram, and no other series is touched.
use option_engine.Common.{◌+◌, ◌≡◌, ◌∙◌, ◌⊎◌, ◌&&◌, arith, ◌==◌, ==_iff, ==_refl, if◌then◌else◌}
use option_engine.Common.Dict.{get-put, count_where-put}
use option_engine.Common.Float.{Float}
use option_engine.Domain.{
  Instant, Action, long_entry, short_entry, long_exit, short_exit, SeriesKey, series_key_eq,
}
use option_engine.Risk.{
  PositionState, flat, long, short, approved, rejected, Config, InputDecision, ApprovedTradeIntent,
  Cache, reset_day_if_needed, series_state, is_open, is_approved, intent_key, active_positions,
  moved, key_of, refuse, decide, apply, evaluate, process, position_of,
}

-- The diagram: no entry repeats a position, and an exit closes the side that it names.
pub data Move : PositionState → Action → PositionState → Type 0 where
  open_long : Move flat long_entry long
  turn_long : Move short long_entry long
  open_short : Move flat short_entry short
  turn_short : Move long short_entry short
  close_long : Move long long_exit flat
  close_short : Move short short_exit flat

ruleset moves = (open_long, turn_long, open_short, turn_short, close_long, close_short)

pub series-reset_day : (c : Cache) (at : Instant) → (reset_day_if_needed c at).series ≡ c.series
unfolding reset_day_if_needed
series-reset_day c at = ground arith

module _ (c : Cache) (key : SeriesKey) where
  pub series_state-position : (series_state c key).0 ≡ position_of c key
  unfolding series_state
  series_state-position = ground arith

  pub position_of-series_state :
      (j : SeriesKey) → position_of (series_state c key).1 j ≡ position_of c j
  unfolding series_state
  position_of-series_state j = ground (arith, get-put key j flat c.series, ==_iff key j)

  pub active-series_state : active_positions (series_state c key).1 ≡ active_positions c
  unfolding series_state
  active-series_state = ground (arith, count_where-put is_open key flat c.series)

  pub trades-series_state : (series_state c key).1.trades_today ≡ c.trades_today
  unfolding series_state
  trades-series_state = ground arith

pub Status-cases :
    {F : Type 0} (i : ApprovedTradeIntent F) → (i.status ≡ approved) ⊎ (i.status ≡ rejected)
Status-cases i = ground arith

module _ {F : Type 0} where
  pub decide-Move :
      (cfg : Config F) (input : InputDecision F) (c : Cache) (a : Action) (p : PositionState)
      → (decide cfg input c a p).status ≡ approved
      → Move p a (moved a p)
  unfolding decide moved
  decide-Move cfg input c long_entry flat h = open_long
  decide-Move cfg input c long_entry short h = turn_long
  decide-Move cfg input c short_entry flat h = open_short
  decide-Move cfg input c short_entry long h = turn_short
  decide-Move cfg input c long_exit long h = close_long
  decide-Move cfg input c short_exit short h = close_short
  decide-Move cfg input c _ _ h = cc

  pub decide_key :
      (cfg : Config F) (input : InputDecision F) (c : Cache) (a : Action) (p : PositionState)
      → let i = decide cfg input c a p in
        (i.symbol ≡ input.symbol) × (i.timeframe ≡ input.timeframe) × (i.action ≡ input.decision)
  unfolding decide
  decide_key cfg input c a p = ground arith

  -- Applying an intent moves the position of its own series, if it is approved.
  pub position_of-apply :
      (c : Cache) (i : ApprovedTradeIntent F) (j : SeriesKey)
      → position_of (apply c i) j ≡ (
          if is_approved i.status && intent_key i == j
          then moved i.action (position_of c j)
          else position_of c j)
  unfolding apply
  position_of-apply c i j =
      let c' = record c { trades_today = c.trades_today + 1 } in
      let k = intent_key i in
      let after = (series_state c' k).1 in
      ground (
        arith,
        get-put k j (moved i.action (series_state c' k).0) after.series,
        series_state-position c' k,
        position_of-series_state c' k j,
        ==_iff k j,
      )

module _ {F : Type 0} ⦃n : Float F⦄ (cfg : Config F) (input : InputDecision F) (c : Cache) where
  pub evaluate_position : (j : SeriesKey) → position_of (evaluate cfg input c).0 j ≡ position_of c j
  unfolding evaluate
  evaluate_position j = ground (arith, position_of-series_state c (key_of input) j)

  pub evaluate_key :
      let i = (evaluate cfg input c).1 in
      (intent_key i ≡ key_of input) × (i.action ≡ input.decision)
  unfolding evaluate refuse
  evaluate_key =
      let (p, c') = series_state c (key_of input) in
      ground (arith, decide_key cfg input c' input.decision p)

  pub evaluate_decided :
      let (p, c') = series_state c (key_of input) in
      (evaluate cfg input c).1.status ≡ approved
      → (decide cfg input c' input.decision p).status ≡ approved
  unfolding evaluate refuse
  evaluate_decided h = ground arith

  evaluate-Move :
      (evaluate cfg input c).1.status ≡ approved
      → let p = position_of c (key_of input) in Move p input.decision (moved input.decision p)
  evaluate-Move h =
      let (p, c') = series_state c (key_of input) in
      rw (← series_state-position c (key_of input))
        (decide-Move cfg input c' input.decision p (evaluate_decided h))

-- The position of every series after a decision: the decision's own series moves as its action
-- says if the intent is approved, and everything else stays.
pub process_position :
    {F : Type 0} ⦃n : Float F⦄ (cfg : Config F) (input : InputDecision F) (c : Cache)
    (j : SeriesKey)
    → let (c', intent) = process cfg input c in
      position_of c' j ≡ (
        if is_approved intent.status && key_of input == j
        then moved input.decision (position_of c j)
        else position_of c j)
unfolding process
process_position cfg input c j =
    let r = reset_day_if_needed c input.timestamp in
    let (c', i) = evaluate cfg input r in
    let (k, a) = evaluate_key cfg input r in
    position_of-apply c' i j
    ∙ rw (k, a, evaluate_position cfg input r j, series-reset_day c input.timestamp)

-- An approved decision takes its series from the position that it had to the one that it has
-- afterwards by one of six moves: opening a long or a short position, turning one round, closing one.
pub process-Move :
    {F : Type 0} ⦃n : Float F⦄ (cfg : Config F) (input : InputDecision F) (c : Cache)
    → (process cfg input c).1.status ≡ approved
    → Move
        (position_of c (key_of input))
        input.decision
        (position_of (process cfg input c).0 (key_of input))
unfolding process
process-Move cfg input c h =
    let r = reset_day_if_needed c input.timestamp in
    let k = key_of input in
    let after : position_of (process cfg input c).0 k ≡ moved input.decision (position_of c k) =
      process_position cfg input c k ∙ rw (h, ==_refl k) in
    rw after (rw (series-reset_day c input.timestamp) at (evaluate-Move cfg input r h))
