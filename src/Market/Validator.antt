-- ===== src/Market/Validator.antt =====
-- The tick validator: internal/market/validator/validator.go.
pub mod Order
use option_engine.Common.{
  ℕ, ◌+◌, ◌-◌, ◌≤◌, ◌≡◌, refl, sym, ap, ◌∙◌, ◌⊎◌, inl, inr, Bool, true, false, ◌&&◌, ◌||◌, not,
  String, Option, none, some, List, [], ◌∷◌, ltb, leb, nat_beq, arith, ◌==◌, ==_iff, ==_refl,
  string_eq, if◌then◌else◌, Bool-cases, Option-cases,
}
use option_engine.Common.Int.{ℤ, pos, ltb_ℤ, leb_ℤ, beq_ℤ}
use option_engine.Common.Dict.{Dict, get, put, has, get-put, get-put_self}
use option_engine.Common.Float.{Float}
use option_engine.Domain.{Instant, Duration, is_zero, Tick}
use option_engine.Market.Registry.{Registry, by_symbol}

pub data ErrorCode : Type 0 where
  duplicate old_timestamp negative_price invalid_quantity out_of_order invalid_symbol : ErrorCode

pub record Config : Type 0 where
  pub max_age : Duration
  pub require_registered_symbol : Bool
  pub replay_mode : Bool

-- `symbols` may be nil.
pub record Validator (F : Type 0) : Type 0 where
  pub cfg : Config
  pub symbols : Option (Registry F)
  pub last : Dict String (Tick F)

abbrev pub is_some_instrument : {F : Type 0} → String → Option (Registry F) → Bool
is_some_instrument symbol none = false
is_some_instrument symbol (some r) = elim (by_symbol symbol r) [ none ↦ false | some i ↦ true ]

module _ {F : Type 0} ⦃n : Float F⦄ where
  unfoldable pub new_validator : Config → Option (Registry F) → Validator F
  new_validator cfg symbols = record { cfg = cfg; symbols = symbols; last = [] }

  abbrev pub negative : F → Bool
  negative x = n.lt x (n.of_int (pos 0))

  abbrev pub has_negative_price : Tick F → Bool
  has_negative_price t =
      negative t.ltp
      || negative t.open_price
      || negative t.high
      || negative t.low
      || negative t.close_price
      || negative t.bid
      || negative t.ask

  abbrev pub has_negative_quantity : Tick F → Bool
  has_negative_quantity t =
      ltb_ℤ t.volume (pos 0)
      || ltb_ℤ t.bid_qty (pos 0)
      || ltb_ℤ t.ask_qty (pos 0)
      || ltb_ℤ t.oi (pos 0)

  -- The timestamp, or a sequence number that both ticks have, runs backwards.
  abbrev pub regresses : Tick F → Tick F → Bool
  regresses prev t =
      ltb t.provider_ts prev.provider_ts
      || ltb_ℤ (pos 0) t.sequence_num
        && ltb_ℤ (pos 0) prev.sequence_num
        && leb_ℤ t.sequence_num prev.sequence_num

  abbrev pub repeats : Tick F → Tick F → Bool
  repeats prev t =
      nat_beq t.provider_ts prev.provider_ts
      && n.eq t.ltp prev.ltp
      && beq_ℤ t.volume prev.volume
      && beq_ℤ t.oi prev.oi

  -- The checks that need no earlier tick.
  unfoldable pub check_tick : Validator F → Tick F → Instant → Option ErrorCode
  check_tick v t now =
      if t.symbol == ""
      then some invalid_symbol
      else if v.cfg.require_registered_symbol && not (is_some_instrument t.symbol v.symbols)
      then some invalid_symbol
      else if has_negative_price t
      then some negative_price
      else if has_negative_quantity t
      then some invalid_quantity
      else if is_zero t.provider_ts
      then some old_timestamp
      else if not v.cfg.replay_mode
          && ltb 0 v.cfg.max_age
          && ltb v.cfg.max_age (now - t.provider_ts)
      then some old_timestamp
      else none

  unfoldable pub check_order : Option (Tick F) → Tick F → Option ErrorCode
  check_order none t = none
  check_order (some prev) t =
      if regresses prev t
      then some out_of_order
      else if repeats prev t
      then some duplicate
      else none

  -- `Validate`: the validator afterwards, and the error.
  unfoldable pub validate : Validator F → Tick F → Instant → Validator F × Option ErrorCode
  validate v t now = elim (check_tick v t now) [
    | some e ↦ (v, some e)
    | none ↦ elim (check_order (get t.symbol v.last) t) [
      | some e ↦ (v, some e)
      | none ↦ (record v { last = put t.symbol t v.last }, none)
    ]
  ]

  -- The ticks that are let through, in order of arrival.
  unfoldable pub accept_all : List (Tick F × Instant) → Validator F → List (Tick F)
  accept_all [] v = []
  accept_all ((t, now) ∷ ts) v =
      let (v', e) = validate v t now in
      let rest = accept_all ts v' in elim e [ none ↦ t ∷ rest | some c ↦ rest ]
