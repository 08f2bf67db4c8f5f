-- ===== src/Portfolio.antt =====
-- The portfolio engine: internal/portfolio/{cache,engine,events,health,pnl}.go.
-- The sums over the open positions run in the dictionary's order; Go's range over a map may take
-- any, which for float64 can change the last digits.
pub mod Ledger
pub mod Samples
use option_engine.Common.{
  ℕ, ◌+◌, Bool, true, false, ◌&&◌, ◌||◌, not, String, Option, none, some, List, [], ◌∷◌, ◌++◌, map,
  ◌==◌, string_eq, if◌then◌else◌,
}
use option_engine.Common.Int.{ℤ, pos, leb_ℤ, u64}
use option_engine.Common.Dict.{Dict, get, put, remove}
use option_engine.Common.Float.{Float, le}
use option_engine.Format.{Bytes}
use option_engine.Domain.{
  Instant, Action, long_entry, short_entry, long_exit, short_exit, hold, other, SeriesKey,
  series_key_eq,
}

pub data Side : Type 0 where
  long short : Side

pub record Position (F : Type 0) : Type 0 where
  pub symbol : String
  pub timeframe : String
  pub side : Side
  pub quantity : ℤ
  pub average_price : F
  pub entry_time : Instant

pub record PositionState (F : Type 0) : Type 0 where
  pub position : Position F
  pub reference_price : F

pub record InputReport (F : Type 0) : Type 0 where
  pub order_id : Bytes
  pub symbol : String
  pub timeframe : String
  pub action : Action
  pub quantity : ℤ
  pub execution_price : F
  pub status : String
  pub strategy : String
  pub timestamp : Instant

pub record TradeRecord (F : Type 0) : Type 0 where
  pub order_id : Bytes
  pub symbol : String
  pub timeframe : String
  pub action : Action
  pub quantity : ℤ
  pub execution_price : F
  pub strategy : String
  pub timestamp : Instant

pub record PortfolioUpdated (F : Type 0) : Type 0 where
  pub symbol : String
  pub position : Option (Position F)
  pub realized_pnl : F
  pub unrealized_pnl : F
  pub timestamp : Instant

pub record Cache (F : Type 0) : Type 0 where
  pub positions : Dict SeriesKey (PositionState F)
  pub trades : List (TradeRecord F)
  pub realized_total : F
  pub unrealized_total : F
  pub exposure : F
  pub reference_price : Dict String F

pub record PortfolioState (F : Type 0) : Type 0 where
  pub positions : List (Position F)
  pub trades : List (TradeRecord F)
  pub realized_pnl : F
  pub unrealized_pnl : F
  pub exposure : F

pub record Engine (F : Type 0) : Type 0 where
  pub cache : Cache F
  pub processed : ℕ  -- uint64
  pub last_event : Instant

abbrev pub is_blank : Action → Bool
is_blank (other s) = s == ""
is_blank _ = false

module _ {F : Type 0} where
  abbrev pub report_key : InputReport F → SeriesKey
  report_key r = record { symbol = r.symbol; timeframe = r.timeframe }

  -- The check of `parseInputReport`.
  abbrev pub is_incomplete : InputReport F → Bool
  is_incomplete r = r.symbol == "" || r.timeframe == "" || is_blank r.action

  unfoldable pub trade_from_report : InputReport F → TradeRecord F
  trade_from_report r = record {
    order_id = r.order_id;
    symbol = r.symbol;
    timeframe = r.timeframe;
    action = r.action;
    quantity = r.quantity;
    execution_price = r.execution_price;
    strategy = r.strategy;
    timestamp = r.timestamp;
  }

  unfoldable pub opened : Side → InputReport F → PositionState F
  opened side r = record {
    position = record {
      symbol = r.symbol;
      timeframe = r.timeframe;
      side = side;
      quantity = r.quantity;
      average_price = r.execution_price;
      entry_time = r.timestamp;
    };
    reference_price = r.execution_price;
  }

  abbrev pub position_at : SeriesKey → Dict SeriesKey (PositionState F) → Option (Position F)
  position_at key m = elim (get key m) [ none ↦ none | some p ↦ some p.position ]

  abbrev pub values : Dict SeriesKey (PositionState F) → List (PositionState F)
  values [] = []
  values ((k, p) ∷ m) = p ∷ values m

  unfoldable pub snapshot : Cache F → PortfolioState F
  snapshot c = record {
    positions = map (λ s. s.position) (values c.positions);
    trades = c.trades;
    realized_pnl = c.realized_total;
    unrealized_pnl = c.unrealized_total;
    exposure = c.exposure;
  }

module _ {F : Type 0} ⦃n : Float F⦄ where
  unfoldable pub new_cache : Cache F
  new_cache = record {
    positions = [];
    trades = [];
    realized_total = n.of_int (pos 0);
    unrealized_total = n.of_int (pos 0);
    exposure = n.of_int (pos 0);
    reference_price = [];
  }

  unfoldable pub signed_quantity : Side → ℤ → F
  signed_quantity side quantity =
      if leb_ℤ quantity (pos 0)
      then n.of_int (pos 0)
      else elim side [ short ↦ n.neg (n.of_int quantity) | long ↦ n.of_int quantity ]

  unfoldable pub realized_pnl : Side → F → F → ℤ → F
  realized_pnl side entry_price exit_price quantity =
      n.mul (n.sub exit_price entry_price) (signed_quantity side quantity)

  unfoldable pub unrealized_pnl : Side → F → F → ℤ → F
  unrealized_pnl side average_price current_price quantity =
      n.mul (n.sub current_price average_price) (signed_quantity side quantity)

  unfoldable pub exposure_of : Side → F → ℤ → F
  exposure_of side price quantity =
      if leb_ℤ quantity (pos 0) || le n.lt n.eq price (n.of_int (pos 0))
      then n.of_int (pos 0)
      else n.mul price (n.of_int quantity)

  -- The latest price of the position's symbol, if one above zero is known.
  unfoldable pub mark : Dict String F → PositionState F → F
  mark prices p = elim (get p.position.symbol prices) [
    | none ↦ p.reference_price
    | some latest ↦ if n.lt (n.of_int (pos 0)) latest then latest else p.reference_price
  ]

  unfoldable pub unrealized_of : Dict String F → PositionState F → F
  unrealized_of prices s =
      unrealized_pnl s.position.side s.position.average_price (mark prices s) s.position.quantity

  unfoldable pub sum_unrealized : Dict String F → F → List (PositionState F) → F
  unfolding unrealized_of
  sum_unrealized prices acc [] = acc
  sum_unrealized prices acc (s ∷ ss) = sum_unrealized prices (n.add acc (unrealized_of prices s)) ss

  unfoldable pub sum_exposure : Dict String F → F → List (PositionState F) → F
  sum_exposure prices acc [] = acc
  sum_exposure prices acc (s ∷ ss) =
      sum_exposure prices
        (n.add acc (exposure_of s.position.side (mark prices s) s.position.quantity)) ss

  unfoldable pub recompute_aggregates : Cache F → Cache F
  recompute_aggregates c = record c {
    unrealized_total = sum_unrealized c.reference_price (n.of_int (pos 0)) (values c.positions);
    exposure = sum_exposure c.reference_price (n.of_int (pos 0)) (values c.positions);
  }

  abbrev of_symbol : String → List (PositionState F) → List (PositionState F)
  of_symbol symbol [] = []
  of_symbol symbol (s ∷ ss) =
      if s.position.symbol == symbol then s ∷ of_symbol symbol ss else of_symbol symbol ss

  unfoldable pub symbol_unrealized : Cache F → String → F
  symbol_unrealized c symbol =
      sum_unrealized c.reference_price (n.of_int (pos 0)) (of_symbol symbol (values c.positions))

  -- An exit closes whatever its series holds, and books its profit.
  unfoldable pub close : InputReport F → Cache F → Cache F
  close r c = elim (get (report_key r) c.positions) [
    | none ↦ c
    | some s ↦ record c {
      positions = remove (report_key r) c.positions;
      realized_total = n.add c.realized_total (
          realized_pnl s.position.side s.position.average_price r.execution_price
            s.position.quantity);
    }
  ]

  -- The `switch report.Action` of `Apply`; an unknown action gives nothing.
  unfoldable pub switch_action : Action → InputReport F → Cache F → Option (Cache F)
  switch_action long_entry r c =
      some (record c { positions = put (report_key r) (opened long r) c.positions })
  switch_action short_entry r c =
      some (record c { positions = put (report_key r) (opened short r) c.positions })
  switch_action long_exit r c = some (close r c)
  switch_action short_exit r c = some (close r c)
  switch_action _ r c = none

  -- `Apply`. A report of an unknown action leaves its trade and its price behind all the same.
  unfoldable pub apply : InputReport F → Cache F → Cache F × Option (PortfolioUpdated F)
  apply r c =
      let seen = record c {
        trades = c.trades ++ trade_from_report r ∷ [];
        reference_price = put r.symbol r.execution_price c.reference_price;
      } in
      if not (r.status == "FILLED") then (c, none) else elim (switch_action r.action r seen) [
        | none ↦ (seen, none)
        | some moved ↦
            let c' = recompute_aggregates moved in
            (
              c',
              some (record {
                symbol = r.symbol;
                position = position_at (report_key r) c'.positions;
                realized_pnl = c'.realized_total;
                unrealized_pnl = symbol_unrealized c' r.symbol;
                timestamp = r.timestamp;
              }),
            )
      ]

  unfoldable pub average_encodes : (F → Bool) → Option (Position F) → Bool
  average_encodes encodes none = true
  average_encodes encodes (some p) = encodes p.average_price

  unfoldable pub publish : (F → Bool) → PortfolioUpdated F → Option (PortfolioUpdated F)
  publish encodes u =
      if encodes u.realized_pnl && encodes u.unrealized_pnl && average_encodes encodes u.position
      then some u
      else none

  -- `handle`, on what was decoded from the event: the update that it publishes, if any. (The bus
  -- refuses an update that holds a number without an encoding; the counters do not see that.)
  unfoldable pub handle :
      (F → Bool) → InputReport F → Engine F → Engine F × Option (PortfolioUpdated F)
  handle encodes r e =
      if is_incomplete r
      then (e, none)
      else if not (r.status == "FILLED")
      then (e, none)
      else let (c', update) = apply r e.cache in
        elim update [
          | none ↦ (record e { cache = c' }, none)
          | some u ↦ (
            record { cache = c'; processed = u64 (e.processed + 1); last_event = u.timestamp },
            publish encodes u,
          )
        ]
