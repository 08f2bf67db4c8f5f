-- ===== src/Paper.antt =====
-- The paper execution engine: internal/execution/types.go and
-- internal/execution/paper/{cache,config,engine,executor,adapter}.go.
-- Random identifiers are left out; quantities are Go's int, as integers.
pub mod Orders
pub mod Positions
pub mod Samples
use option_engine.Common.{
  ℕ, ◌+◌, Bool, true, false, ◌&&◌, ◌||◌, not, String, Option, none, some, List, [], ◌∷◌, ◌++◌, ◌==◌,
  string_eq, if◌then◌else◌,
}
use option_engine.Common.Int.{ℤ, pos, leb_ℤ, ltb_ℤ, u64}
use option_engine.Common.Dict.{Dict, get, put, remove, count_where}
use option_engine.Common.Float.{Float, le}
use option_engine.Format.{Bytes, format_order_id}
use option_engine.Domain.{
  Instant, Action, long_entry, short_entry, long_exit, short_exit, hold, other, SeriesKey,
  series_key_eq,
}

-- What the engine calls of Go's `strings`, `strconv` and `encoding/json`; `encodes` says whether
-- `json.Marshal` accepts a number (it refuses NaN and the infinities).
pub record Text (F : Type 0) : Type 0 where
  pub encodes : F → Bool
  pub trim_space : String → String
  pub to_lower : String → String
  pub parse_float : String → Option F

pub record Config (F : Type 0) : Type 0 where
  pub enabled : Bool
  pub subscriber_buffer : ℤ
  pub slippage_percent : F
  pub default_price : String

pub record ApprovedTradeIntent (F : Type 0) : Type 0 where
  pub symbol : String
  pub timeframe : String
  pub status : String
  pub action : Action
  pub quantity : ℤ
  pub strategy : String
  pub reference_price : F
  pub timestamp : Instant

pub data ExecutionStatus : Type 0 where
  filled rejected : ExecutionStatus

pub record ExecutionReport (F : Type 0) : Type 0 where
  pub order_id : Bytes
  pub symbol : String
  pub timeframe : String
  pub action : Action
  pub quantity : ℤ
  pub execution_price : F
  pub status : ExecutionStatus
  pub strategy : String
  pub timestamp : Instant
  pub rejection_reason : String

pub data PositionSide : Type 0 where
  flat long short : PositionSide

pub record Position (F : Type 0) : Type 0 where
  pub symbol : String
  pub timeframe : String
  pub side : PositionSide
  pub quantity : ℤ
  pub entry_price : F
  pub order_id : Bytes
  pub strategy : String

pub record Cache (F : Type 0) : Type 0 where
  pub order_counter : ℕ  -- uint64
  pub executed : List (ExecutionReport F)
  pub positions : Dict SeriesKey (Position F)

-- The counters that the health probe reports, uint64 each.
pub record Health : Type 0 where
  pub received : ℕ
  pub filled_orders : ℕ
  pub rejected_orders : ℕ
  pub last_event : Instant

pub record Engine (F : Type 0) : Type 0 where
  pub cache : Cache F
  pub health : Health

abbrev pub is_active : {F : Type 0} → Position F → Bool
is_active p = elim p.side [ flat ↦ false | long ↦ true | short ↦ true ]

abbrev pub is_filled : ExecutionStatus → Bool
is_filled filled = true
is_filled rejected = false

-- What `parseInputIntent` and its like ask of an action on the wire: that it is not empty.
abbrev pub is_blank : Action → Bool
is_blank (other s) = s == ""
is_blank _ = false

unfoldable pub record_health : {F : Type 0} → Health → ExecutionReport F → Health
record_health h r = record {
  received = u64 (h.received + 1);
  filled_orders = if is_filled r.status then u64 (h.filled_orders + 1) else h.filled_orders;
  rejected_orders = if is_filled r.status then h.rejected_orders else u64 (h.rejected_orders + 1);
  last_event = r.timestamp;
}

module _ {F : Type 0} where
  unfoldable pub new_cache : Cache F
  new_cache = record { order_counter = 0; executed = []; positions = [] }

  abbrev pub report_key : ExecutionReport F → SeriesKey
  report_key r = record { symbol = r.symbol; timeframe = r.timeframe }

  abbrev pub intent_key : ApprovedTradeIntent F → SeriesKey
  intent_key i = record { symbol = i.symbol; timeframe = i.timeframe }

  unfoldable pub next_order_id : Cache F → Bytes × Cache F
  next_order_id c =
      let n = u64 (c.order_counter + 1) in (format_order_id n, record c { order_counter = n })

  unfoldable pub record_report : Cache F → ExecutionReport F → Cache F
  record_report c report = record c { executed = c.executed ++ report ∷ [] }

  unfoldable pub opened : PositionSide → ExecutionReport F → Position F
  opened side r = record {
    symbol = r.symbol;
    timeframe = r.timeframe;
    side = side;
    quantity = r.quantity;
    entry_price = r.execution_price;
    order_id = r.order_id;
    strategy = r.strategy;
  }

  unfoldable pub apply_filled :
      Action → ExecutionReport F → Dict SeriesKey (Position F) → Dict SeriesKey (Position F)
  apply_filled long_entry r m = put (report_key r) (opened long r) m
  apply_filled short_entry r m = put (report_key r) (opened short r) m
  apply_filled long_exit r m = remove (report_key r) m
  apply_filled short_exit r m = remove (report_key r) m
  apply_filled _ r m = m

  unfoldable pub apply : Cache F → ExecutionReport F → Cache F
  unfolding apply_filled
  apply c r =
      if is_filled r.status then record c { positions = apply_filled r.action r c.positions } else c

  unfoldable pub active_positions : Cache F → ℕ
  active_positions c = count_where is_active c.positions

  unfoldable pub position : Cache F → String → String → Option (Position F)
  position c symbol timeframe = get (record { symbol = symbol; timeframe = timeframe }) c.positions

-- The check of `parseInputIntent`.
abbrev pub is_incomplete : {F : Type 0} → ApprovedTradeIntent F → Bool
is_incomplete i = i.symbol == "" || i.timeframe == "" || is_blank i.action

module _ {F : Type 0} ⦃n : Float F⦄ (text : Text F) where
  open text use {encodes, trim_space, to_lower, parse_float}

  unfoldable pub with_defaults : Config F → Config F
  with_defaults c = record c {
    subscriber_buffer = if leb_ℤ c.subscriber_buffer (pos 0) then pos 256 else c.subscriber_buffer;
    default_price = if c.default_price == "" then "market" else c.default_price;
  }

  unfoldable pub requires_market_price : Config F → Bool
  requires_market_price c = to_lower (trim_space c.default_price) == "market"

  unfoldable pub default_price_value : Config F → Option F
  unfolding requires_market_price
  default_price_value c =
      if requires_market_price c then none else parse_float (to_lower (trim_space c.default_price))

  unfoldable pub apply_slippage : F → Action → F → F
  apply_slippage price action slippage =
      let factor = n.div slippage (n.of_int (pos 100)) in
      let one = n.of_int (pos 1) in
      if n.eq slippage (n.of_int (pos 0)) then price else elim action [
        | long_entry ↦ n.mul price (n.add one factor)
        | short_exit ↦ n.mul price (n.add one factor)
        | short_entry ↦ n.mul price (n.sub one factor)
        | long_exit ↦ n.mul price (n.sub one factor)
        | _ ↦ price
      ]

  unfoldable pub not_positive : F → Bool
  not_positive p = le n.lt n.eq p (n.of_int (pos 0))

  unfoldable pub report_of :
      ApprovedTradeIntent F → Bytes → ExecutionStatus → F → String → ExecutionReport F
  report_of i order_id status price reason = record {
    order_id = order_id;
    symbol = i.symbol;
    timeframe = i.timeframe;
    action = i.action;
    quantity = i.quantity;
    execution_price = price;
    status = status;
    strategy = i.strategy;
    timestamp = i.timestamp;
    rejection_reason = reason;
  }

  unfoldable pub reject :
      Cache F → ApprovedTradeIntent F → Bytes → String → Cache F × ExecutionReport F
  reject c i order_id reason =
      let report = report_of i order_id rejected (n.of_int (pos 0)) reason in
      (record_report c report, report)

  -- The end of `Execute`, from the reference price that it settled on.
  unfoldable pub fill :
      Config F → Cache F → ApprovedTradeIntent F → Bytes → F → Cache F × ExecutionReport F
  fill cfg c i order_id ref_price =
      let report =
        report_of i order_id filled (apply_slippage ref_price i.action cfg.slippage_percent) "" in
      if not_positive ref_price
      then reject c i order_id "invalid execution price"
      else (apply (record_report c report) report, report)

  unfoldable pub execute : Config F → ApprovedTradeIntent F → Cache F → Cache F × ExecutionReport F
  execute cfg i c =
      let (order_id, c') = next_order_id c in
      if not_positive i.reference_price
      then elim (default_price_value cfg) [
        | some fallback ↦ fill cfg c' i order_id fallback
        | none ↦
            if requires_market_price cfg
            then reject c' i order_id "market reference price unavailable"
            else fill cfg c' i order_id i.reference_price
      ]
      else fill cfg c' i order_id i.reference_price

  -- A report that cannot be encoded is not published, and the health counters miss it.
  unfoldable pub publish :
      Cache F → Health → ExecutionReport F → Engine F × Option (ExecutionReport F)
  publish c h report =
      if encodes report.execution_price
      then (record { cache = c; health = record_health h report }, some report)
      else (record { cache = c; health = h }, none)

  -- `handle`, on what was decoded from the event: the report that is published, if any. `cancelled`
  -- says whether the engine's context is done, as it is when `drain` runs.
  unfoldable pub handle :
      Config F → Bool → ApprovedTradeIntent F → Engine F → Engine F × Option (ExecutionReport F)
  handle cfg cancelled i e =
      if is_incomplete i
      then (e, none)
      else if not (i.status == "APPROVED")
      then (e, none)
      else if cancelled
      then (e, none)
      else let (c', report) = execute cfg i e.cache in publish c' e.health report

  -- The events of a session in the order in which they arrive, each with the state of the context.
  unfoldable pub handle_all : Config F → List (Bool × ApprovedTradeIntent F) → Engine F → Engine F
  handle_all cfg [] e = e
  handle_all cfg ((cancelled, i) ∷ is) e = handle_all cfg is (handle cfg cancelled i e).0

unfoldable pub new_engine : {F : Type 0} → Engine F
new_engine = record {
  cache = new_cache;
  health = record { received = 0; filled_orders = 0; rejected_orders = 0; last_event = 0 };
}
