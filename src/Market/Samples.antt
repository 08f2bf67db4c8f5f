-- ===== src/Market/Samples.antt =====
-- The market data path at concrete inputs.
use option_engine.Common.{refl, ℕ, Bool, false, String, none, List, [], ◌∷◌, arith, string_eq}
use option_engine.Common.Int.{ℤ, pos}
use option_engine.Common.Float.{int_float}
use option_engine.Domain.{Instant, spot, Tick}
use option_engine.Market.Registry.{Instrument, new_registry}
use option_engine.Market.Registry.Mirror.{Mirror}
use option_engine.Market.Registry.Inverse.{Operation, loads, registers, run_all, registry-Mirror}
use option_engine.Market.Validator.{Validator, accept_all, new_validator}
use option_engine.Market.Validator.Order.{Chronicle, accepted_chronological}
use option_engine.Market.EventBus.{
  new_bus, make_subscriber, subscribe, Step, publishes, receives, run,
}
use option_engine.Market.EventBus.Accounting.{Accounts, run-subscribe}
use option_engine.Market.Subscription.{call, member}
use option_engine.Market.Subscription.Batches.{Covers, call-Covers}

abbrev instrument : String → String → Instrument ℤ
instrument symbol token = record {
  symbol = symbol;
  token = token;
  exchange = "NSE";
  instrument_type = spot;
  underlying = "";
  strike = pos 0;
  expiry = none;
  option_type = "";
  lot_size = pos 1;
  segment = "";
}

-- The third operation takes the symbol of one instrument and the token of another.
abbrev operations : List (Operation ℤ)
operations =
    loads (instrument "A" "1" ∷ instrument "B" "2" ∷ [])
    ∷ loads (instrument "" "9" ∷ [])
    ∷ registers (instrument "A" "2")
    ∷ []

registry-Mirror_example : Mirror (run_all operations new_registry)
registry-Mirror_example = registry-Mirror operations

abbrev tick_at : ℕ → ℕ → Tick ℤ
tick_at ts price = record {
  symbol = "A";
  exchange = "NSE";
  instrument_type = spot;
  ltp = pos price;
  open_price = pos 0;
  high = pos 0;
  low = pos 0;
  close_price = pos 0;
  volume = pos 5;
  bid = pos 0;
  ask = pos 0;
  bid_qty = pos 0;
  ask_qty = pos 0;
  oi = pos 0;
  provider_ts = ts;
  received_at = ts;
  sequence_num = pos 0;
}

abbrev ticks : List (Tick ℤ × Instant)
ticks = (tick_at 5 10, 6) ∷ (tick_at 4 11, 6) ∷ (tick_at 7 12, 8) ∷ []

abbrev validator : Validator ℤ
validator =
    new_validator (record { max_age = 10; require_registered_symbol = false; replay_mode = false })
      none

accepted_chronological_example : Chronicle (accept_all ticks validator)
accepted_chronological_example = accepted_chronological ticks validator

abbrev wanted : List String
wanted = "A" ∷ "B" ∷ "C" ∷ []

-- A provider that refuses batches with the symbol "C".
abbrev refuses_c : List String → Bool
refuses_c b = member "C" b

call-Covers_example : let (sent, ok) = call refuses_c 2 wanted in Covers refuses_c 2 wanted sent ok
call-Covers_example = call-Covers refuses_c 2 wanted (omega arith)

abbrev steps : List (Step ℕ)
steps = publishes 7 ∷ publishes 8 ∷ receives 0 ∷ publishes 9 ∷ []

run-subscribe_example :
    let (b', got) = run 0 steps (subscribe (pos 1) none new_bus).0 in
    Accounts 0 (make_subscriber (pos 1) none) steps b' got
unfolding new_bus
run-subscribe_example = run-subscribe (pos 1) none steps new_bus refl (omega arith)
