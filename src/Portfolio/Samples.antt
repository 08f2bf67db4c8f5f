-- ===== src/Portfolio/Samples.antt =====
-- The portfolio at concrete reports, prices being whole numbers.
use option_engine.Common.{ℕ, ◌≡◌, refl, List, [], ◌∷◌}
use option_engine.Common.Int.{ℤ, pos, ◌+ℤ◌, ◌-ℤ◌, ◌*ℤ◌}
use option_engine.Common.Dict.{get, put}
use option_engine.Common.Float.{int_float}
use option_engine.Domain.{Action, long_entry, long_exit, series_key_eq}
use option_engine.Portfolio.{InputReport, Cache, new_cache, apply, close, realized_pnl}
use option_engine.Portfolio.Ledger.{view, post_all, apply_all, view-apply_all}

abbrev report_at : Action → ℕ → InputReport ℤ
report_at a price = record {
  order_id = [];
  symbol = "NIFTY";
  timeframe = "5m";
  action = a;
  quantity = pos 2;
  execution_price = pos price;
  status = "FILLED";
  strategy = "trend";
  timestamp = 110;
}

abbrev round_trip : List (InputReport ℤ)
round_trip = report_at long_entry 10 ∷ report_at long_exit 14 ∷ []

round_trip_books : (apply_all round_trip new_cache).realized_total ≡ pos 8
unfolding apply_all apply close realized_pnl new_cache option_engine.Portfolio.switch_action
    option_engine.Portfolio.recompute_aggregates get put ◌+ℤ◌ ◌*ℤ◌ ◌-ℤ◌
    option_engine.Portfolio.opened option_engine.Portfolio.signed_quantity
round_trip_books = refl

view-apply_all_example :
    view (apply_all round_trip new_cache) ≡ post_all round_trip (view new_cache)
view-apply_all_example = view-apply_all round_trip new_cache
