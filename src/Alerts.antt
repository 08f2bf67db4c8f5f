-- ===== src/Alerts.antt =====
-- The alert engine: internal/alerts/{events,config,cache,rules,engine,health}.go. An alert's number is
-- kept with its date and symbol instead of in a text.
pub mod Store
pub mod Rules
pub mod Cooldown
pub mod Spacing
pub mod Samples
use option_engine.Common.{
  ℕ, ◌+◌, ◌-◌, ◌↔◌, ◌≡◌, Bool, true, false, not, ◌&&◌, ◌||◌, String, Option, none, some, List, [],
  ◌∷◌, ◌++◌, ltb, nat_beq, if◌then◌else◌, Comparable, ◌==◌, ==_iff, string_eq, length, drop, keep,
  arith,
}
use option_engine.Common.Int.{ℤ, pos, ◌-ℤ◌, ◌*ℤ◌, leb_ℤ, ltb_ℤ, int64, u64}
use option_engine.Common.Dict.{Dict, get, put, has}
use option_engine.Common.Float.{Float, le}
use option_engine.Domain.{Instant, is_zero}

-- What the engine calls of `strings`, `strconv`, `fmt`, `math` and `encoding/json`; `encodes` says
-- whether `json.Marshal` accepts a number.
pub record Text (F : Type 0) : Type 0 where
  pub trim_space : String → String
  pub to_upper : String → String
  pub equal_fold : String → String → Bool
  pub parse_float : String → Option F
  pub abs : F → F
  pub sprintf : String → List String → String
  pub date_of : Instant → String
  pub encodes : F → Bool

pub data AlertType : Type 0 where
  recommendation_created confidence_increased confidence_decreased status_changed : AlertType
  entry_zone_reached exit_recommended recommendation_closed : AlertType

abbrev alert_code : AlertType → ℕ
alert_code recommendation_created = 0
alert_code confidence_increased = 1
alert_code confidence_decreased = 2
alert_code status_changed = 3
alert_code entry_zone_reached = 4
alert_code exit_recommended = 5
alert_code recommendation_closed = 6

pub alert_type_beq_iff :
    (a b : AlertType) → (nat_beq (alert_code a) (alert_code b) ≡ true) ↔ (a ≡ b)
alert_type_beq_iff a b = ground arith

instance abbrev pub alert_type_eq : Comparable AlertType
alert_type_eq = record {
  equal = λ a b. nat_beq (alert_code a) (alert_code b);
  equal_iff = alert_type_beq_iff;
}

pub record TimelineEntry : Type 0 where
  pub timestamp : Instant
  pub event : String
  pub reason : String
  pub previous_value : String
  pub new_value : String

-- A status is the upper-case text of the event, whatever it is.
pub record StateUpdate (F : Type 0) : Type 0 where
  pub recommendation_id : String
  pub symbol : String
  pub timeframe : String
  pub strategy : String
  pub current_status : String
  pub confidence : F
  pub latest_timeline_entry : TimelineEntry
  pub summary : String

pub record AlertId : Type 0 where
  pub date : String
  pub symbol : String
  pub number : ℕ

pub record AlertGenerated (F : Type 0) : Type 0 where
  pub alert_id : AlertId
  pub recommendation_id : String
  pub symbol : String
  pub timeframe : String
  pub alert_type : AlertType
  pub current_status : String
  pub confidence : F
  pub message : String
  pub reason : String
  pub generated_at : Instant

pub record CandidateAlert : Type 0 where
  pub alert_type : AlertType
  pub message : String
  pub reason : String

pub record Config (F : Type 0) : Type 0 where
  pub enabled : Bool
  pub subscriber_buffer : ℤ
  pub confidence_change_threshold : F
  pub cooldown_seconds : ℤ

pub record FingerprintKey : Type 0 where
  pub recommendation_id : String
  pub alert_type : AlertType
  pub current_status : String
  pub reason : String

abbrev fingerprint_beq : FingerprintKey → FingerprintKey → Bool
fingerprint_beq a b =
    a.recommendation_id == b.recommendation_id
    && a.alert_type == b.alert_type
    && a.current_status == b.current_status
    && a.reason == b.reason

pub fingerprint_beq_iff : (a b : FingerprintKey) → (fingerprint_beq a b ≡ true) ↔ (a ≡ b)
fingerprint_beq_iff a b = ground (
  arith,
  ==_iff a.recommendation_id b.recommendation_id,
  ==_iff a.alert_type b.alert_type,
  ==_iff a.current_status b.current_status,
  ==_iff a.reason b.reason,
)

instance abbrev pub fingerprint_eq : Comparable FingerprintKey
fingerprint_eq = record { equal = fingerprint_beq; equal_iff = fingerprint_beq_iff }

-- The key of the sequence numbers: a date, which has eight characters, and a symbol.
pub record DateKey : Type 0 where
  pub date : String
  pub symbol : String

abbrev date_key_beq : DateKey → DateKey → Bool
date_key_beq a b = a.date == b.date && a.symbol == b.symbol

pub date_key_beq_iff : (a b : DateKey) → (date_key_beq a b ≡ true) ↔ (a ≡ b)
date_key_beq_iff a b = ground (arith, ==_iff a.date b.date, ==_iff a.symbol b.symbol)

instance abbrev pub date_key_eq : Comparable DateKey
date_key_eq = record { equal = date_key_beq; equal_iff = date_key_beq_iff }

pub record Cache (F : Type 0) : Type 0 where
  pub cooldown : ℤ  -- nanoseconds
  pub max_history : ℕ
  pub seen_recommendations : Dict String (Unit {0})
  pub last_emitted : Dict FingerprintKey Instant
  pub seq_by_symbol_date : Dict DateKey ℕ  -- uint64
  pub history : List (AlertGenerated F)

-- uint64 each
pub record Health : Type 0 where
  pub alerts_generated : ℕ
  pub duplicates_suppressed : ℕ
  pub confidence_alerts : ℕ
  pub status_alerts : ℕ
  pub created_alerts : ℕ
  pub closed_alerts : ℕ
  pub cooldown_suppressed : ℕ

pub record Engine (F : Type 0) : Type 0 where
  pub cfg : Config F
  pub cache : Cache F
  pub health : Health
