-- ===== src/Risk/Limits.antt =====
-- The limits that the risk engine enforces: open positions, and approvals in a day (rules.go,
-- `evaluate`; cache.go, `resetDayIfNeeded` and `apply`).
use option_engine.Common.{
  ◌+◌, ◌≡◌, refl, ◌⊎◌, inl, inr, true, List, [], ◌∷◌, arith, if◌then◌else◌, Bool-cases,
}
use option_engine.Common.Int.{pos, ◌≤ℤ◌}
use option_engine.Common.Dict.{get, count_where, count_where-put, bit_of, bit}
use option_engine.Common.Float.{Float}
use option_engine.Domain.{Instant, Action, long_entry, short_entry, SeriesKey, series_key_eq}
use option_engine.Risk.{
  PositionState, flat, long, short, approved, rejected, Config, InputDecision, ApprovedTradeIntent,
  Cache, new_cache, with_defaults, reset_day_if_needed, series_state, is_open, is_approved,
  intent_key, active_positions, moved, key_of, refuse, decide, apply, evaluate, process,
  process_all, position_of,
}
use option_engine.Risk.Moves.{
  series_state-position, position_of-series_state, evaluate_decided, evaluate_key, Status-cases,
  evaluate_position, active-series_state, trades-series_state,
}

bit_of-get :
    (c : Cache) (k : SeriesKey) → bit_of is_open (get k c.series) ≡ bit (is_open (position_of c k))
bit_of-get c k = ground arith

module _ {F : Type 0} where
  -- A configuration in which something can be approved.
  pub record IsUsable (cfg : Config F) : Type 0 where
    pub positions : pos 1 ≤ℤ cfg.max_positions
    pub trades : pos 1 ≤ℤ cfg.max_trades_per_day

  -- Neither limit is passed.
  pub record Inv (cfg : Config F) (c : Cache) : Type 0 where
    pub active : pos (active_positions c) ≤ℤ cfg.max_positions
    pub trades : pos c.trades_today ≤ℤ cfg.max_trades_per_day

  pub with_defaults-IsUsable :
      ⦃n : Float F⦄ (min_default : F) (cfg : Config F) → IsUsable (with_defaults min_default cfg)
  unfolding with_defaults
  with_defaults-IsUsable min_default cfg = ground arith

  pub reset_day-Inv :
      (cfg : Config F) (c : Cache) (at : Instant)
      → IsUsable cfg
      → Inv cfg c
      → Inv cfg (reset_day_if_needed c at)
  unfolding reset_day_if_needed
  reset_day-Inv cfg c at u v = ground arith

  -- An approved action that leaves its series open either found it open or found room.
  decide_room :
      (cfg : Config F) (input : InputDecision F) (c : Cache) (a : Action) (p : PositionState)
      → (decide cfg input c a p).status ≡ approved
      → is_open (moved a p) ≡ true
      → (is_open p ≡ true) ⊎ (pos (active_positions c + 1) ≤ℤ cfg.max_positions)
  unfolding decide moved
  decide_room cfg input c long_entry flat h o = inr (ground arith)
  decide_room cfg input c short_entry flat h o = inr (ground arith)
  decide_room cfg input c _ long h o = inl refl
  decide_room cfg input c _ short h o = inl refl
  decide_room cfg input c _ flat h o = cc

  active-apply :
      (c : Cache) (i : ApprovedTradeIntent F)
      → i.status ≡ approved
      → let p = position_of c (intent_key i) in
        active_positions (apply c i) + bit (is_open p)
        ≡ active_positions c + bit (is_open (moved i.action p))
  unfolding apply
  active-apply c i h =
      let c₁ = record c { trades_today = c.trades_today + 1 } in
      let k = intent_key i in
      let (p, c₂) = series_state c₁ k in
      ground (
        arith,
        count_where-put is_open k (moved i.action p) c₂.series,
        bit_of-get c₂ k,
        position_of-series_state c₁ k k,
        series_state-position c₁ k,
        active-series_state c₁ k,
      )

  apply_rejected : (c : Cache) (i : ApprovedTradeIntent F) → i.status ≡ rejected → apply c i ≡ c
  unfolding apply
  apply_rejected c i h = ground arith

  pub trades-apply :
      (c : Cache) (i : ApprovedTradeIntent F)
      → (apply c i).trades_today
        ≡ (if is_approved i.status then c.trades_today + 1 else c.trades_today)
  unfolding apply
  trades-apply c i =
      ground
        (arith, trades-series_state (record c { trades_today = c.trades_today + 1 }) (intent_key i))

module _ {F : Type 0} ⦃n : Float F⦄ (cfg : Config F) (input : InputDecision F) (c : Cache) where
  pub evaluate_trades : (evaluate cfg input c).0.trades_today ≡ c.trades_today
  unfolding evaluate
  evaluate_trades = ground (arith, trades-series_state c (key_of input))

  evaluate_active : active_positions (evaluate cfg input c).0 ≡ active_positions c
  unfolding evaluate
  evaluate_active = ground (arith, active-series_state c (key_of input))

  -- Nothing is approved once the day's trades are used up.
  evaluate_trades_room :
      (evaluate cfg input c).1.status ≡ approved
      → pos (c.trades_today + 1) ≤ℤ cfg.max_trades_per_day
  unfolding evaluate refuse
  evaluate_trades_room h = ground arith

  evaluate_room :
      (evaluate cfg input c).1.status ≡ approved
      → let p = position_of c (key_of input) in
        is_open (moved input.decision p) ≡ true
        → (is_open p ≡ true) ⊎ (pos (active_positions c + 1) ≤ℤ cfg.max_positions)
  evaluate_room h o =
      let (p, c') = series_state c (key_of input) in
      ground (
        arith,
        decide_room cfg input c' input.decision p (evaluate_decided cfg input c h),
        series_state-position c (key_of input),
        active-series_state c (key_of input),
        o,
      )

  approved_active :
      let (c', i) = evaluate cfg input c in
      Inv cfg c → i.status ≡ approved → pos (active_positions (apply c' i)) ≤ℤ cfg.max_positions
  approved_active v h =
      let (c', i) = evaluate cfg input c in
      let (k, a) = evaluate_key cfg input c in
      let p = position_of c (key_of input) in
      let count : active_positions (apply c' i) + bit (is_open p)
          ≡ active_positions c + bit (is_open (moved input.decision p)) =
        rw (k, a, evaluate_position cfg input c (key_of input), evaluate_active) at
          (active-apply c' i h) in
      elim (Bool-cases (is_open (moved input.decision p))) [
        | inl o ↦ ground (arith, count, o, evaluate_room h o)
        | inr s ↦ ground (arith, count, s)
      ]

  evaluate-apply-Inv : Inv cfg c → let (c', i) = evaluate cfg input c in Inv cfg (apply c' i)
  evaluate-apply-Inv v =
      let (c', i) = evaluate cfg input c in
      elim (Status-cases i) [
        | inl h ↦ record {
          active = approved_active v h;
          trades = ground (arith, trades-apply c' i, h, evaluate_trades, evaluate_trades_room h);
        }
        | inr h ↦
            rw (apply_rejected c' i h) (record {
              active = rw evaluate_active v.active;
              trades = rw evaluate_trades v.trades;
            })
      ]

-- Each decision keeps the open positions and the day's approvals within the configured limits.
pub process-Inv :
    {F : Type 0} ⦃n : Float F⦄ (cfg : Config F) (input : InputDecision F) (c : Cache)
    → IsUsable cfg
    → Inv cfg c
    → Inv cfg (process cfg input c).0
unfolding process
process-Inv cfg input c u v =
    evaluate-apply-Inv cfg input (reset_day_if_needed c input.timestamp)
      (reset_day-Inv cfg c input.timestamp u v)

pub process_all-Inv :
    {F : Type 0} ⦃n : Float F⦄ (cfg : Config F) (ds : List (InputDecision F)) (c : Cache)
    → IsUsable cfg
    → Inv cfg c
    → Inv cfg (process_all cfg ds c).0
unfolding process_all
process_all-Inv cfg [] c u v = v
process_all-Inv cfg (d ∷ ds) c u v =
    process_all-Inv cfg ds (process cfg d c).0 u (process-Inv cfg d c u v)

-- Whatever decisions arrive, and whatever was configured: an engine that starts empty never holds
-- more open positions than its limit, nor counts more trades in a day than it may.
pub process_all_within_limits :
    {F : Type 0} ⦃n : Float F⦄ (min_default : F) (cfg : Config F) (loc : Instant → Instant)
    (ds : List (InputDecision F))
    → let cfg' = with_defaults min_default cfg in Inv cfg' (process_all cfg' ds (new_cache loc)).0
unfolding new_cache count_where
process_all_within_limits min_default cfg loc ds =
    let u = with_defaults-IsUsable min_default cfg in
    process_all-Inv (with_defaults min_default cfg) ds (new_cache loc) u
      (record { active = omega (arith, u.positions); trades = omega (arith, u.trades) })
