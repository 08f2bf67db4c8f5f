-- ===== src/Opportunity/Engine.antt =====
-- The cache and the handlers: internal/opportunity/{cache,engine}.go. `now` is the clock at the
-- event, and `encodes` says whether the JSON encoder takes a publication.
use option_engine.Common.{
  ℕ, ◌-◌, Bool, false, ◌||◌, String, none, some, List, [], ◌∷◌, ◌++◌, ltb, length, drop,
  if◌then◌else◌, ◌==◌, string_eq,
}
use option_engine.Common.Dict.{Dict, get, put}
use option_engine.Common.Float.{Float}
use option_engine.Domain.{Instant, is_zero, SeriesKey, series_key_eq}
use option_engine.Opportunity.{
  Decimals, Config, SymbolState, Cache, Event, zero_float, clamp01, normalize_pnl,
}
use option_engine.Opportunity.Ranking.{
  RankedOpportunity, Summary, Sorter, rank, top_of, summarize, blank,
}

-- The part of the payload of opportunity.updated that is not in the ranked opportunity: its time.
pub record Publication (F : Type 0) : Type 0 where
  pub item : RankedOpportunity F
  pub at : Instant

pub record Engine (F : Type 0) : Type 0 where
  pub cache : Cache F
  pub summary : Summary F
  pub history : List (RankedOpportunity F)
  pub published : List (Publication F)

-- `maxOpportunityHistory`
abbrev pub max_opportunity_history : ℕ
max_opportunity_history = 10_000

-- What a payload without a symbol or a timeframe stands for.
abbrev pub or_text : String → String → String
or_text s t = if s == "" then t else s

module _ {F : Type 0} ⦃f : Float F⦄ where
  abbrev pub blank_state : String → String → SymbolState F
  blank_state symbol timeframe = record {
    symbol = symbol;
    timeframe = timeframe;
    signal_confidence = zero_float;
    strategy_confidence = zero_float;
    risk_approved = false;
    performance_score = zero_float;
    optimization_score = zero_float;
    scanner_score = zero_float;
    scanner_confidence = zero_float;
    scanner_status = "";
    updated_at = 0;
  }

  -- `stateFor`
  unfoldable pub state_for : String → String → Cache F → SymbolState F
  state_for symbol timeframe c =
      elim (get (record { symbol = symbol; timeframe = timeframe }) c.symbols) [
        | none ↦ blank_state symbol timeframe
        | some s ↦ s
      ]

  -- What the `Apply` methods of a symbol do to the map.
  unfoldable pub change : String → String → (SymbolState F → SymbolState F) → Cache F → Cache F
  change symbol timeframe g c = record c {
    symbols =
        put (record { symbol = symbol; timeframe = timeframe }) (g (state_for symbol timeframe c))
          c.symbols;
  }

  unfoldable pub apply_signal : String → String → F → Instant → Cache F → Cache F
  apply_signal symbol timeframe confidence at =
      change symbol timeframe
        (λ s. record s { signal_confidence = clamp01 confidence; updated_at = at })

  unfoldable pub apply_strategy : String → String → F → Instant → Cache F → Cache F
  apply_strategy symbol timeframe confidence at =
      change symbol timeframe
        (λ s. record s { strategy_confidence = clamp01 confidence; updated_at = at })

  unfoldable pub apply_risk : String → String → Bool → Instant → Cache F → Cache F
  apply_risk symbol timeframe approved at =
      change symbol timeframe (λ s. record s { risk_approved = approved; updated_at = at })

  unfoldable pub apply_performance :
      Decimals F → String → String → F → F → F → Instant → Cache F → Cache F
  apply_performance dec symbol timeframe win_rate realized unrealized at =
      change symbol timeframe (λ s. record s {
        performance_score = clamp01 (
            f.add (f.mul win_rate (dec "0.6"))
              (f.mul (normalize_pnl (f.add realized unrealized)) (dec "0.4")));
        updated_at = at;
      })

  unfoldable pub apply_optimization : String → String → F → Instant → Cache F → Cache F
  apply_optimization symbol timeframe score at =
      change symbol timeframe
        (λ s. record s { optimization_score = clamp01 score; updated_at = at })

  unfoldable pub apply_scanner : String → String → String → F → F → Instant → Cache F → Cache F
  apply_scanner symbol timeframe status score confidence at = change symbol timeframe (λ s.
      record s {
        scanner_score = clamp01 score;
        scanner_confidence = clamp01 confidence;
        scanner_status = status;
        updated_at = at;
      })

  unfoldable pub apply_walk_forward : F → Instant → Cache F → Cache F
  apply_walk_forward score at c = record c {
    platform = record c.platform { walk_forward_score = clamp01 score; updated_at = at };
  }

  unfoldable pub apply_monte_carlo : F → Instant → Cache F → Cache F
  apply_monte_carlo probability at c = record c {
    platform = record c.platform { monte_carlo_score = clamp01 probability; updated_at = at };
  }

  abbrev pub values : Dict SeriesKey (SymbolState F) → List (SymbolState F)
  values [] = []
  values ((k, s) ∷ m) = s ∷ values m

  -- `AllSymbols`
  unfoldable pub all_symbols : Cache F → List (SymbolState F)
  all_symbols c = values c.symbols

module _ {F : Type 0} (encodes : Publication F → Bool) where
  unfoldable pub publish : Instant → RankedOpportunity F → Engine F → Engine F
  publish at item e =
      let h = e.history ++ item ∷ [] in
      let p : Publication F = record { item = item; at = at } in
      record e {
        history =
            if ltb max_opportunity_history (length h)
            then drop (length h - max_opportunity_history) h
            else h;
        published = if encodes p then e.published ++ p ∷ [] else e.published;
      }

  unfoldable pub publish_all : Instant → List (RankedOpportunity F) → Engine F → Engine F
  publish_all at [] e = e
  publish_all at (x ∷ xs) e = publish_all at xs (publish at x e)

module _ {F : Type 0} ⦃f : Float F⦄ (sort_slice : Sorter F) (encodes : Publication F → Bool)
    (dec : Decimals F) (cfg : Config F) where
  unfoldable pub rank_and_publish : Instant → Instant → Engine F → Engine F
  rank_and_publish now at e =
      let ranked = rank sort_slice dec cfg now (all_symbols e.cache) e.cache.platform in
      let top = top_of cfg ranked in
      publish_all encodes (if is_zero at then now else at) top
        (record e { summary = summarize ranked top })

  unfoldable pub handle : Instant → Event F → Engine F → Engine F
  handle now (Event.signal symbol timeframe confidence at) e =
      if symbol == ""
      then e
      else record e { cache = apply_signal symbol timeframe confidence at e.cache }
  handle now (Event.strategy symbol timeframe confidence at) e =
      if symbol == ""
      then e
      else record e { cache = apply_strategy symbol timeframe confidence at e.cache }
  handle now (Event.risk symbol timeframe status at) e =
      if symbol == ""
      then e
      else record e { cache = apply_risk symbol timeframe (status == "APPROVED") at e.cache }
  handle now (Event.performance symbol timeframe win_rate realized unrealized at) e = record e {
    cache =
        apply_performance dec (or_text symbol "portfolio") (or_text timeframe "1m") win_rate
          realized unrealized at e.cache;
  }
  handle now (Event.optimization symbol timeframe score at) e = record e {
    cache =
        apply_optimization (or_text symbol "portfolio") (or_text timeframe "1m") score at e.cache;
  }
  handle now (Event.walk_forward score at) e = record e {
    cache = apply_walk_forward score at e.cache;
  }
  handle now (Event.monte_carlo probability at) e = record e {
    cache = apply_monte_carlo probability at e.cache;
  }
  handle now (Event.scanner symbol timeframe status score confidence at) e =
      if symbol == "" || timeframe == ""
      then e
      else rank_and_publish now at
          (record e { cache = apply_scanner symbol timeframe status score confidence at e.cache })
  handle now Event.unreadable e = e

  unfoldable pub handle_all : List (Instant × Event F) → Engine F → Engine F
  handle_all [] e = e
  handle_all ((now, evt) ∷ es) e = handle_all es (handle now evt e)

module _ {F : Type 0} ⦃f : Float F⦄ where
  abbrev pub new_engine : Engine F
  new_engine = record {
    cache = record {
      symbols = [];
      platform = record {
        walk_forward_score = zero_float;
        monte_carlo_score = zero_float;
        updated_at = 0;
      };
    };
    summary = blank 0 0;
    history = [];
    published = [];
  }
