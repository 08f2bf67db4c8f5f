-- ===== src/Risk/Days.antt =====
-- The daily counter over a run of decisions (cache.go, `resetDayIfNeeded`).
use option_engine.Common.{
  ℕ, ◌+◌, ◌≤◌, ◌<◌, ◌≡◌, ◌∙◌, some, List, [], ◌∷◌, arith, if◌then◌else◌, All,
}
use option_engine.Common.Int.{pos, ◌≤ℤ◌}
use option_engine.Common.Float.{Float}
use option_engine.Domain.{Instant}
use option_engine.Risk.{
  rejected, Config, InputDecision, ApprovedTradeIntent, Cache, start_day, reset_day_if_needed,
  is_approved, key_of, refuse, apply, series_state, evaluate, process, process_all, position_of,
}
use option_engine.Risk.Moves.{process_position}
use option_engine.Risk.Limits.{
  IsUsable, Inv, reset_day-Inv, process_all-Inv, trades-apply, evaluate_trades,
}

abbrev pub approvals : {F : Type 0} → List (ApprovedTradeIntent F) → ℕ
approvals [] = 0
approvals (i ∷ is) = (if is_approved i.status then 1 else 0) + approvals is

-- No decision of the list falls on a later day than `day`.
abbrev pub NotAfter : {F : Type 0} → (Instant → Instant) → Instant → List (InputDecision F) → Type 0
NotAfter loc day ds = All (λ d. loc d.timestamp ≤ day) ds

reset_day_same :
    (c : Cache) (loc : Instant → Instant) (at : Instant)
    → c.location ≡ some loc
    → 0 < c.reset_day
    → loc at ≤ c.reset_day
    → reset_day_if_needed c at ≡ c
unfolding reset_day_if_needed start_day
reset_day_same c loc at l z h = ground arith

reset_day_fields :
    (c : Cache) (loc : Instant → Instant) (at : Instant)
    → c.location ≡ some loc
    → 0 < loc at
    → let c' = reset_day_if_needed c at in
      (c'.location ≡ some loc) × (loc at ≤ c'.reset_day) × (0 < c'.reset_day)
unfolding reset_day_if_needed start_day
reset_day_fields c loc at l z = ground arith

day-apply :
    {F : Type 0} (c : Cache) (i : ApprovedTradeIntent F)
    → ((apply c i).location ≡ c.location) × ((apply c i).reset_day ≡ c.reset_day)
unfolding apply series_state
day-apply c i = ground arith

module _ {F : Type 0} ⦃n : Float F⦄ (cfg : Config F) where
  day-evaluate :
      (input : InputDecision F) (c : Cache)
      → let c' = (evaluate cfg input c).0 in
        (c'.location ≡ c.location) × (c'.reset_day ≡ c.reset_day)
  unfolding evaluate series_state
  day-evaluate input c = ground arith

  -- Within a day the counter goes up by exactly the approvals.
  process_trades :
      (input : InputDecision F) (c : Cache) (loc : Instant → Instant)
      → c.location ≡ some loc
      → 0 < c.reset_day
      → loc input.timestamp ≤ c.reset_day
      → let (c', i) = process cfg input c in
        (c'.location ≡ some loc)
        × (c'.reset_day ≡ c.reset_day)
        × (c'.trades_today ≡ c.trades_today + (if is_approved i.status then 1 else 0))
  unfolding process
  process_trades input c loc l z h = rw (reset_day_same c loc input.timestamp l z h) (
      let (c', i) = evaluate cfg input c in
      ground (
        arith,
        day-apply c' i,
        day-evaluate input c,
        trades-apply c' i,
        evaluate_trades cfg input c,
        l,
      ))

  process_all_trades :
      (ds : List (InputDecision F)) (c : Cache) (loc : Instant → Instant)
      → c.location ≡ some loc
      → 0 < c.reset_day
      → NotAfter loc c.reset_day ds
      → (process_all cfg ds c).0.trades_today ≡ c.trades_today + approvals (process_all cfg ds c).1
  unfolding process_all
  process_all_trades [] c loc l z h = omega arith
  process_all_trades (d ∷ ds) c loc l z h =
      let (l', r, t) = process_trades d c loc l z h.0 in
      omega (arith, t, process_all_trades ds (process cfg d c).0 loc l' (rw r z) (rw r h.1))

NotAfter-mono :
    {F : Type 0} (loc : Instant → Instant) (a b : Instant) (ds : List (InputDecision F))
    → a ≤ b
    → NotAfter loc a ds
    → NotAfter loc b ds
NotAfter-mono loc a b [] h all = tt
NotAfter-mono loc a b (d ∷ ds) h all = (omega arith, NotAfter-mono loc a b ds h all.1)

-- The reset is idempotent, so it may be made before the decision.
process-reset_day :
    {F : Type 0} ⦃n : Float F⦄ (cfg : Config F) (d : InputDecision F) (c : Cache)
    (loc : Instant → Instant)
    → c.location ≡ some loc
    → 0 < loc d.timestamp
    → process cfg d (reset_day_if_needed c d.timestamp) ≡ process cfg d c
unfolding process
process-reset_day cfg d c loc l z =
    let (l', late, z') = reset_day_fields c loc d.timestamp l z in
    rw (reset_day_same (reset_day_if_needed c d.timestamp) loc d.timestamp l' z' late)

-- A day's decisions, in any number: no more are approved than the daily limit, also when the
-- engine has served other days before. The limits are at least 1, the engine is within them and has
-- a location, the first decision is of the day, which is not the zero time, and none is of a later
-- day.
pub day_approvals_bounded :
    {F : Type 0} ⦃n : Float F⦄ (cfg : Config F) (day : Instant) (d : InputDecision F)
    (ds : List (InputDecision F)) (c : Cache) (loc : Instant → Instant)
    → IsUsable cfg
    → Inv cfg c
    → c.location ≡ some loc
    → 0 < day
    → loc d.timestamp ≡ day
    → NotAfter loc day ds
    → pos (approvals (process_all cfg (d ∷ ds) c).1) ≤ℤ cfg.max_trades_per_day
unfolding process_all
day_approvals_bounded cfg day d ds c loc u v l z e h =
    let (l', late, z') = reset_day_fields c loc d.timestamp l (rw e z) in
    let r = reset_day_if_needed c d.timestamp in
    let same = process-reset_day cfg d c loc l (rw e z) in
    let v' = process_all-Inv cfg (d ∷ ds) r u (reset_day-Inv cfg c d.timestamp u v) in
    let all : NotAfter loc r.reset_day (d ∷ ds) =
      (late, NotAfter-mono loc day r.reset_day ds (omega arith) h) in
    rw (← same) (omega (arith, v'.trades, process_all_trades cfg (d ∷ ds) r loc l' z' all))

refused_status :
    {F : Type 0} ⦃n : Float F⦄ (cfg : Config F) (input : InputDecision F) (c : Cache)
    (loc : Instant → Instant)
    → c.location ≡ some loc
    → 0 < c.reset_day
    → loc input.timestamp ≤ c.reset_day
    → cfg.max_trades_per_day ≤ℤ pos c.trades_today
    → (process cfg input c).1.status ≡ rejected
unfolding process evaluate refuse
refused_status cfg input c loc l z h full =
    rw (reset_day_same c loc input.timestamp l z h, evaluate) (ground arith)

-- Once the day's trades are used up every decision of the day, or of an earlier one, is refused, an
-- exit of an open position as well, and the position stays as it was. The engine has a location and
-- has seen a day.
pub exhausted_refuses_exits :
    {F : Type 0} ⦃n : Float F⦄ (cfg : Config F) (input : InputDecision F) (c : Cache)
    (loc : Instant → Instant)
    → c.location ≡ some loc
    → 0 < c.reset_day
    → loc input.timestamp ≤ c.reset_day
    → cfg.max_trades_per_day ≤ℤ pos c.trades_today
    → let (c', i) = process cfg input c in
      (i.status ≡ rejected) × (position_of c' (key_of input) ≡ position_of c (key_of input))
exhausted_refuses_exits cfg input c loc l z h full =
    let s = refused_status cfg input c loc l z h full in
    (s, process_position cfg input c (key_of input) ∙ rw s)
