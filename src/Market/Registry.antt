-- ===== src/Market/Registry.antt =====
-- The instrument registry: internal/market/registry/registry.go.
pub mod Mirror
pub mod Inverse
use option_engine.Common.{
  ℕ, Bool, true, false, ◌||◌, ◌⊎◌, inl, inr, String, Option, none, some, List, [], ◌∷◌, ◌==◌,
  string_eq, if◌then◌else◌,
}
use option_engine.Common.Int.{ℤ}
use option_engine.Common.Dict.{Dict, get, put, remove, has, size}
use option_engine.Domain.{Instant, InstrumentType}

pub record Instrument (F : Type 0) : Type 0 where
  pub symbol : String
  pub token : String
  pub exchange : String
  pub instrument_type : InstrumentType
  pub underlying : String
  pub strike : F
  pub expiry : Option Instant
  pub option_type : String
  pub lot_size : ℤ
  pub segment : String

pub record Registry (F : Type 0) : Type 0 where
  pub by_symbol : Dict String (Instrument F)
  pub by_token : Dict String (Instrument F)

pub data LoadError : Type 0 where
  missing_symbol : LoadError
  missing_token duplicate_symbol duplicate_token : String → LoadError

module _ {F : Type 0} where
  unfoldable pub new_registry : Registry F
  new_registry = record { by_symbol = []; by_token = [] }

  -- `r.bySymbol[inst.Symbol] = inst; r.byToken[inst.Token] = inst`
  unfoldable pub enter : Instrument F → Registry F → Registry F
  enter i r = record { by_symbol = put i.symbol i r.by_symbol; by_token = put i.token i r.by_token }

  -- The loop of `Load`, on the two maps that it fills.
  unfoldable pub load_loop : List (Instrument F) → Registry F → LoadError ⊎ Registry F
  load_loop [] r = inr r
  load_loop (i ∷ is) r =
      let rest = load_loop is (enter i r) in
      if i.symbol == ""
      then inl missing_symbol
      else if i.token == ""
      then inl (missing_token i.symbol)
      else if has i.symbol r.by_symbol
      then inl (duplicate_symbol i.symbol)
      else if has i.token r.by_token
      then inl (duplicate_token i.token)
      else rest

  -- `Load`: the error, if there is one, and the registry afterwards.
  unfoldable pub load : List (Instrument F) → Registry F → Registry F × Option LoadError
  load is r = elim (load_loop is new_registry) [ inl e ↦ (r, some e) | inr r' ↦ (r', none) ]

  -- The instrument that holds the symbol loses its token, ...
  unfoldable pub drop_symbol : String → Registry F → Registry F
  drop_symbol symbol r = elim (get symbol r.by_symbol) [
    | none ↦ r
    | some old ↦ record r { by_token = remove old.token r.by_token }
  ]

  -- ... and then the one that still holds the token loses its symbol.
  unfoldable pub drop_token : String → Registry F → Registry F
  drop_token token r = elim (get token r.by_token) [
    | none ↦ r
    | some old ↦ record r { by_symbol = remove old.symbol r.by_symbol }
  ]

  -- `Register`: whether it succeeds, and the registry afterwards.
  unfoldable pub register : Instrument F → Registry F → Registry F × Bool
  register i r =
      if i.symbol == "" || i.token == ""
      then (r, false)
      else (enter i (drop_token i.token (drop_symbol i.symbol r)), true)

  unfoldable pub by_symbol : String → Registry F → Option (Instrument F)
  by_symbol symbol r = get symbol r.by_symbol

  unfoldable pub by_token : String → Registry F → Option (Instrument F)
  by_token token r = get token r.by_token

  abbrev pub dict_values : Dict String (Instrument F) → List (Instrument F)
  dict_values [] = []
  dict_values ((k, i) ∷ m) = i ∷ dict_values m

  unfoldable pub all : Registry F → List (Instrument F)
  all r = dict_values r.by_symbol

  unfoldable pub count : Registry F → ℕ
  count r = size r.by_symbol
