-- ===== src/Market/Gateway.antt =====
-- From a provider's event to the subscribers: internal/market/gateway/engine.go and
-- internal/market/normalizer/normalizer.go. Of the debug output only its order is left: it changes no
-- state. `now` is read by the normalizer, `at` before the validation.
pub mod Freshness
pub mod Samples
use option_engine.Common.{
  ℕ, Bool, true, false, String, Option, none, some, List, [], ◌∷◌, ◌==◌, string_eq, if◌then◌else◌,
}
use option_engine.Common.Int.{ℤ}
use option_engine.Common.Float.{Float}
use option_engine.Domain.{Instant, is_zero, InstrumentType, Tick}
use option_engine.Market.Cache.{Cache, put_tick}
use option_engine.Market.Validator.{Validator, validate}
use option_engine.Market.EventBus
use option_engine.Market.EventBus.{Bus}

-- What the gateway calls of `strings` and `encoding/json`; `encodes` says whether `json.Marshal`
-- accepts a tick.
pub record Text (F : Type 0) : Type 0 where
  pub trim_space : String → String
  pub to_upper : String → String
  pub encodes : Tick F → Bool

pub record Payload (F : Type 0) : Type 0 where
  pub symbol : String
  pub exchange : String
  pub instrument_type : InstrumentType
  pub ltp : F
  pub open_price : F
  pub high : F
  pub low : F
  pub close_price : F
  pub bid : F
  pub ask : F
  pub volume : ℤ
  pub bid_qty : ℤ
  pub ask_qty : ℤ
  pub oi : ℤ
  pub sequence_num : ℤ
  pub timestamp : Instant

-- What an event carries: a provider's payload as JSON reads it, if it does, a canonical tick, or
-- anything else.
pub data Body (F : Type 0) : Type 0 where
  raw : Option (Payload F) → Body F
  canonical : Tick F → Body F
  opaque : String → Body F

pub record Event (F : Type 0) : Type 0 where
  pub is_market_data : Bool  -- the type is MarketDataReceived
  pub source : String
  pub body : Body F
  pub timestamp : Instant

-- Each part may be nil.
pub record Engine (F C : Type 0) : Type 0 where
  pub has_normalizer : Bool
  pub validator : Option (Validator F)
  pub cache : Option (Cache F C)
  pub bus : Option (Bus (Event F))

-- `json.Unmarshal` of an event's body, which is `raw` in an event that comes in.
abbrev pub payload_of : {F : Type 0} → Body F → Option (Payload F)
payload_of (raw p) = p
payload_of _ = none

module _ {F C : Type 0} where
  -- `New`
  unfoldable pub new_gateway :
      Option (Cache F C) → Option (Bus (Event F)) → Option (Validator F) → Bool → Engine F C
  new_gateway cache bus validator has_normalizer = record {
    has_normalizer = has_normalizer;
    validator = validator;
    cache = cache;
    bus = bus;
  }

  abbrev pub publish_event : Event F → Engine F C → Engine F C
  publish_event e g = elim g.bus [
    | none ↦ g
    | some b ↦ record g { bus = some (EventBus.publish e b) }
  ]

  abbrev pub cache_tick : Tick F → Engine F C → Engine F C
  cache_tick t g = elim g.cache [ none ↦ g | some c ↦ record g { cache = some (put_tick t c) } ]

module _ {F : Type 0} (text : Text F) where
  -- `Normalizer.Tick`
  unfoldable pub normalize : Payload F → Instant → Option (Tick F)
  normalize p now =
      if text.trim_space p.symbol == ""
      then none
      else if is_zero p.timestamp
      then none
      else some (record {
        symbol = text.to_upper (text.trim_space p.symbol);
        exchange = text.to_upper (text.trim_space p.exchange);
        instrument_type = p.instrument_type;
        ltp = p.ltp;
        open_price = p.open_price;
        high = p.high;
        low = p.low;
        close_price = p.close_price;
        volume = p.volume;
        bid = p.bid;
        ask = p.ask;
        bid_qty = p.bid_qty;
        ask_qty = p.ask_qty;
        oi = p.oi;
        provider_ts = p.timestamp;
        received_at = now;
        sequence_num = p.sequence_num;
      })

module _ {F C : Type 0} ⦃n : Float F⦄ (text : Text F) where
  -- From the cache on: lines 124 to 137.
  unfoldable pub deliver : Event F → Tick F → Engine F C → Engine F C
  deliver e t g =
      let g' = cache_tick t g in
      if text.encodes t then publish_event (record e { body = canonical t }) g' else g'

  -- From the validation on: lines 112 to 137.
  unfoldable pub admit : Event F → Tick F → Instant → Engine F C → Engine F C
  admit e t at g = elim g.validator [
    | none ↦ deliver e t g
    | some v ↦
        let (v', error) = validate v t at in
        let g' = record g { validator = some v' } in
        elim error [ none ↦ deliver e t g' | some code ↦ g' ]
  ]

  -- `handle`
  unfoldable pub handle : Event F → Instant → Instant → Engine F C → Engine F C
  handle e now at g =
      if e.is_market_data
      then elim (payload_of e.body) [
        | none ↦ g
        | some p ↦
            if g.has_normalizer
            then elim (normalize text p now) [ none ↦ g | some t ↦ admit e t at g ]
            else g
      ]
      else publish_event e g

  unfoldable pub handle_all : List (Event F × Instant × Instant) → Engine F C → Engine F C
  handle_all [] g = g
  handle_all ((e, now, at) ∷ es) g = handle_all es (handle e now at g)
