-- ===== src/Opportunity.antt =====
-- Opportunity ranking: internal/opportunity/{cache,config,events,scoring}.go. `decimals` gives the
-- float64 constants of the code that are no whole numbers.
pub mod Ranking
pub mod Engine
pub mod Text
pub mod Order
pub mod Tiers
pub mod Range
pub mod Session
pub mod Insertion
pub mod Samples
use option_engine.Common.{
  ℕ, Bool, true, false, not, ◌&&◌, String, Option, none, some, List, [], ◌∷◌, if◌then◌else◌, ◌==◌,
  string_eq,
}
use option_engine.Common.Int.{ℤ, pos, leb_ℤ}
use option_engine.Common.Dict.{Dict, get, put}
use option_engine.Common.Float.{Float, le}
use option_engine.Domain.{Instant, SeriesKey, series_key_eq}

pub data Classification : Type 0 where
  buy watch ignore : Classification

-- The decimal constants, named by their text.
abbrev pub Decimals : Type 0 → Type 0
Decimals F = String → F

-- One weight, or one component of a score, for each source of intelligence.
pub record WeightsConfig (F : Type 0) : Type 0 where
  pub signal : F
  pub strategy : F
  pub performance : F
  pub optimization : F
  pub walk_forward : F
  pub monte_carlo : F

pub record Config (F : Type 0) : Type 0 where
  pub enabled : Bool
  pub top_n : ℤ
  pub subscriber_buffer : ℤ
  pub buy_threshold : F
  pub watch_threshold : F
  pub weights : WeightsConfig F

pub record SymbolState (F : Type 0) : Type 0 where
  pub symbol : String
  pub timeframe : String
  pub signal_confidence : F
  pub strategy_confidence : F
  pub risk_approved : Bool
  pub performance_score : F
  pub optimization_score : F
  pub scanner_score : F
  pub scanner_confidence : F
  pub scanner_status : String
  pub updated_at : Instant

pub record PlatformState (F : Type 0) : Type 0 where
  pub walk_forward_score : F
  pub monte_carlo_score : F
  pub updated_at : Instant

pub record Cache (F : Type 0) : Type 0 where
  pub symbols : Dict SeriesKey (SymbolState F)
  pub platform : PlatformState F

pub record ScoreComponents (F : Type 0) : Type 0 where
  pub signal : F
  pub strategy : F
  pub performance : F
  pub optimization : F
  pub walk_forward : F
  pub monte_carlo : F
  pub risk_factor : F

pub record ScoreResult (F : Type 0) : Type 0 where
  pub symbol : String
  pub timeframe : String
  pub confidence : F
  pub score : F
  pub classification : Classification
  pub components : ScoreComponents F

-- The events that the engine listens to, as their payloads are parsed; `unreadable` is a payload that
-- is no JSON of its type.
pub data Event (F : Type 0) : Type 0 where
  signal strategy : String → String → F → Instant → Event F
  risk : String → String → String → Instant → Event F
  performance : String → String → F → F → F → Instant → Event F
  optimization : String → String → F → Instant → Event F
  walk_forward monte_carlo : F → Instant → Event F
  scanner : String → String → String → F → F → Instant → Event F
  unreadable : Event F

module _ {F : Type 0} ⦃f : Float F⦄ where
  abbrev pub zero_float : F
  zero_float = f.of_int (pos 0)

  abbrev pub one_float : F
  one_float = f.of_int (pos 1)

  unfoldable pub clamp01 : F → F
  clamp01 v = if f.lt v zero_float then zero_float else if f.lt one_float v then one_float else v

  unfoldable pub normalize_pnl : F → F
  normalize_pnl pnl =
      if le f.lt f.eq pnl zero_float
      then zero_float
      else if le f.lt f.eq (f.of_int (pos 1000)) pnl
      then one_float
      else f.div pnl (f.of_int (pos 1000))

  abbrev pub no_weights : WeightsConfig F → Bool
  no_weights w =
      f.eq w.signal zero_float
      && f.eq w.strategy zero_float
      && f.eq w.performance zero_float
      && f.eq w.optimization zero_float
      && f.eq w.walk_forward zero_float
      && f.eq w.monte_carlo zero_float

  unfoldable pub with_defaults : Decimals F → Config F → Config F
  with_defaults dec c = record c {
    top_n = if leb_ℤ c.top_n (pos 0) then pos 20 else c.top_n;
    subscriber_buffer = if leb_ℤ c.subscriber_buffer (pos 0) then pos 256 else c.subscriber_buffer;
    buy_threshold = if le f.lt f.eq c.buy_threshold zero_float then dec "0.70" else c.buy_threshold;
    watch_threshold =
        if le f.lt f.eq c.watch_threshold zero_float then dec "0.40" else c.watch_threshold;
    weights =
        if no_weights c.weights
        then record {
          signal = dec "0.20";
          strategy = dec "0.20";
          performance = dec "0.15";
          optimization = dec "0.15";
          walk_forward = dec "0.15";
          monte_carlo = dec "0.15";
        }
        else c.weights;
  }

  unfoldable pub classify : F → F → F → Classification
  classify confidence buy_threshold watch_threshold =
      if le f.lt f.eq buy_threshold confidence
      then buy
      else if le f.lt f.eq watch_threshold confidence
      then watch
      else ignore

  abbrev pub weight_sum : WeightsConfig F → F
  weight_sum w =
      f.add
        (f.add (f.add (f.add (f.add w.signal w.strategy) w.performance) w.optimization)
          w.walk_forward)
        w.monte_carlo

  -- The components that `Compute` weighs.
  unfoldable pub components_of : Decimals F → SymbolState F → PlatformState F → ScoreComponents F
  components_of dec s p = record {
    signal =
        if f.eq s.signal_confidence zero_float && f.lt zero_float s.scanner_confidence
        then s.scanner_confidence
        else s.signal_confidence;
    strategy = s.strategy_confidence;
    performance = s.performance_score;
    optimization = s.optimization_score;
    walk_forward = p.walk_forward_score;
    monte_carlo = p.monte_carlo_score;
    risk_factor = if s.risk_approved then one_float else dec "0.6";
  }

  unfoldable pub weighted : WeightsConfig F → ScoreComponents F → F
  weighted w c =
      f.mul
        (f.div
          (f.add
            (f.add
              (f.add
                (f.add (f.add (f.mul w.signal c.signal) (f.mul w.strategy c.strategy))
                  (f.mul w.performance c.performance))
                (f.mul w.optimization c.optimization))
              (f.mul w.walk_forward c.walk_forward))
            (f.mul w.monte_carlo c.monte_carlo))
          (weight_sum w))
        c.risk_factor

  -- `Compute`
  unfoldable pub compute : Decimals F → Config F → SymbolState F → PlatformState F → ScoreResult F
  compute dec cfg s p =
      let c = components_of dec s p in
      let confidence = clamp01 (weighted cfg.weights c) in
      record {
        symbol = s.symbol;
        timeframe = s.timeframe;
        confidence = confidence;
        score = confidence;
        classification = classify confidence cfg.buy_threshold cfg.watch_threshold;
        components = c;
      }
