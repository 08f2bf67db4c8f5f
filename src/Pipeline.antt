-- ===== src/Pipeline.antt =====
-- The three engines that turn a decision into a position, joined by the events that they exchange:
-- risk (internal/analytics/risk/events.go) -> paper execution (internal/execution/paper/engine.go,
-- `parseInputIntent`) -> portfolio (internal/portfolio/engine.go, `parseInputReport`).
-- Each event is delivered here; the bus, which drops events under load, is Market/EventBus.
pub mod Agreement
pub mod Gaps
pub mod Samples
use option_engine.Common.{ℕ, Bool, true, false, String, Option, none, some, List, [], ◌∷◌}
use option_engine.Common.Int.{ℤ, pos}
use option_engine.Common.Float.{Float}
use option_engine.Risk
use option_engine.Paper
use option_engine.Paper.{Text}
use option_engine.Portfolio

abbrev pub intent_status_text : Risk.Status → String
intent_status_text Risk.Status.approved = "APPROVED"
intent_status_text Risk.Status.rejected = "REJECTED"

abbrev pub report_status_text : Paper.ExecutionStatus → String
report_status_text Paper.ExecutionStatus.filled = "FILLED"
report_status_text Paper.ExecutionStatus.rejected = "REJECTED"

-- The risk engine's payload has no `reference_price`, and what JSON leaves out decodes as 0.
unfoldable pub to_paper :
    {F : Type 0} ⦃n : Float F⦄ → Risk.ApprovedTradeIntent F → Paper.ApprovedTradeIntent F
to_paper ⦃n⦄ i = record {
  symbol = i.symbol;
  timeframe = i.timeframe;
  status = intent_status_text i.status;
  action = i.action;
  quantity = i.quantity;
  strategy = i.strategy;
  reference_price = n.of_int (pos 0);
  timestamp = i.timestamp;
}

unfoldable pub to_portfolio : {F : Type 0} → Paper.ExecutionReport F → Portfolio.InputReport F
to_portfolio r = record {
  order_id = r.order_id;
  symbol = r.symbol;
  timeframe = r.timeframe;
  action = r.action;
  quantity = r.quantity;
  execution_price = r.execution_price;
  status = report_status_text r.status;
  strategy = r.strategy;
  timestamp = r.timestamp;
}

pub record Desk (F : Type 0) : Type 0 where
  pub paper : Paper.Engine F
  pub portfolio : Portfolio.Engine F

unfoldable pub new_desk : {F : Type 0} ⦃n : Float F⦄ → Desk F
new_desk = record {
  paper = Paper.new_engine;
  portfolio = record { cache = Portfolio.new_cache; processed = 0; last_event = 0 };
}

module _ {F : Type 0} ⦃n : Float F⦄ (text : Text F) where
  -- The portfolio sees the report of an intent, if one was published.
  unfoldable pub deliver :
      Option (Paper.ExecutionReport F) → Portfolio.Engine F → Portfolio.Engine F
  deliver none e = e
  deliver (some r) e = (Portfolio.handle text.encodes (to_portfolio r) e).0

module _ {F : Type 0} ⦃n : Float F⦄ (text : Text F) (cfg : Paper.Config F) where
  unfoldable pub place : Bool → Paper.ApprovedTradeIntent F → Desk F → Desk F
  place cancelled i d =
      let (e, out) = Paper.handle text cfg cancelled i d.paper in
      record { paper = e; portfolio = deliver text out d.portfolio }

  unfoldable pub place_all : List (Bool × Paper.ApprovedTradeIntent F) → Desk F → Desk F
  place_all [] d = d
  place_all ((cancelled, i) ∷ is) d = place_all is (place cancelled i d)
