-- ===== src/Market/Gateway/Samples.antt =====
-- A gateway at concrete inputs.
use option_engine.Common.{
  refl, ℕ, ◌≤◌, ◌≡◌, true, false, String, Option, none, some, List, [], ◌∷◌, string_eq,
}
use option_engine.Common.Int.{ℤ, pos}
use option_engine.Common.Float.{int_float}
use option_engine.Domain.{Instant, spot, Tick}
use option_engine.Market.Cache.{Cache}
use option_engine.Market.Validator.{Config}
use option_engine.Market.Validator.Order.{IsClean}
use option_engine.Market.EventBus.{new_bus}
use option_engine.Market.Gateway.{Text, Payload, Event, Engine, raw, opaque, handle_all}
use option_engine.Market.Gateway.Freshness.{cached, start, gateway_fresh}

abbrev text : Text ℤ
text = record { trim_space = λ s. s; to_upper = λ s. s; encodes = λ t. true }

abbrev rules : Config
rules = record { max_age = 0; require_registered_symbol = false; replay_mode = false }

abbrev payload_at : ℕ → ℕ → Payload ℤ
payload_at ts price = record {
  symbol = "A";
  exchange = "NSE";
  instrument_type = spot;
  ltp = pos price;
  open_price = pos 0;
  high = pos 0;
  low = pos 0;
  close_price = pos 0;
  bid = pos 0;
  ask = pos 0;
  volume = pos 5;
  bid_qty = pos 0;
  ask_qty = pos 0;
  oi = pos 0;
  sequence_num = pos 0;
  timestamp = ts;
}

abbrev event_at : ℕ → ℕ → Event ℤ
event_at ts price = record {
  is_market_data = true;
  source = "feed";
  body = raw (some (payload_at ts price));
  timestamp = ts;
}

-- The second event is from an earlier time.
abbrev events : List (Event ℤ × Instant × Instant)
events = (event_at 7 100, 8, 8) ∷ (event_at 6 99, 9, 9) ∷ []

abbrev more_events : List (Event ℤ × Instant × Instant)
more_events = (event_at 11 101, 12, 12) ∷ []

abbrev first_tick : Tick ℤ
first_tick = record {
  symbol = "A";
  exchange = "NSE";
  instrument_type = spot;
  ltp = pos 100;
  open_price = pos 0;
  high = pos 0;
  low = pos 0;
  close_price = pos 0;
  volume = pos 5;
  bid = pos 0;
  ask = pos 0;
  bid_qty = pos 0;
  ask_qty = pos 0;
  oi = pos 0;
  provider_ts = 7;
  received_at = 8;
  sequence_num = pos 0;
}

abbrev gateway : Engine ℤ String
gateway = start String text rules none new_bus

holds_first : cached "A" (handle_all text events gateway).cache ≡ some first_tick
unfolding handle_all option_engine.Market.Gateway.handle option_engine.Market.Gateway.new_gateway
    option_engine.Market.Gateway.normalize option_engine.Market.Gateway.admit
    option_engine.Market.Validator.validate option_engine.Market.Validator.check_tick
    option_engine.Market.Validator.new_validator option_engine.Market.Validator.check_order
    option_engine.Common.Dict.get option_engine.Market.Gateway.deliver option_engine.Common.Dict.put
    option_engine.Market.Cache.put_tick option_engine.Market.Cache.new_cache
holds_first = refl

gateway_fresh_example :
    (first_tick.symbol ≡ "A")
    × IsClean first_tick
    × ((u : Tick ℤ) × (cached "A"
            (handle_all text more_events (handle_all text events gateway)).cache
          ≡ some u)
        × (7 ≤ u.provider_ts))
gateway_fresh_example =
    gateway_fresh String text rules none new_bus events more_events "A" first_tick holds_first
