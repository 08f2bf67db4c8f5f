-- ===== src/Research/Checks.antt =====
-- The checks of internal/researchengine/invariants.go on journals and counters. An issue holds what
-- its text is made of; those of one trade begin with its index.
use option_engine.Common.{ℕ, ◌+◌, not, ◌&&◌, ◌||◌, List, [], ◌∷◌, ◌++◌, ltb, nat_beq, if◌then◌else◌}
use option_engine.Common.Int.{pos, ltb_ℤ, leb_ℤ}
use option_engine.Common.Float.{Float, le}
use option_engine.Domain.{is_zero}
use option_engine.Research.{SimulatedTrade, SimulationMetrics}

pub data TradeIssue : Type 0 where
  missing_exit_time entry_after_exit invalid_price invalid_quantity invalid_bars : ℕ → TradeIssue

pub data MetricsIssue : Type 0 where
  opens_ne_closes : ℕ → ℕ → MetricsIssue
  no_action_signals : MetricsIssue

module _ {F P : Type 0} ⦃f : Float F⦄ where
  unfoldable pub trade_issues : ℕ → SimulatedTrade F P → List TradeIssue
  trade_issues i t =
      let zero_price = f.of_int (pos 0) in
      (if is_zero t.exit_time then missing_exit_time i ∷ [] else [])
      ++ (if not (ltb t.entry_time t.exit_time) && not (nat_beq t.entry_time t.exit_time)
          then entry_after_exit i ∷ []
          else [])
      ++ (if le f.lt f.eq t.entry_price zero_price || le f.lt f.eq t.exit_price zero_price
          then invalid_price i ∷ []
          else [])
      ++ (if leb_ℤ t.quantity (pos 0) then invalid_quantity i ∷ [] else [])
      ++ (if ltb_ℤ t.bars_held (pos 1) then invalid_bars i ∷ [] else [])

  -- `ValidateJournal`, from a trade on.
  unfoldable pub validate_journal : ℕ → List (SimulatedTrade F P) → List TradeIssue
  validate_journal i [] = []
  validate_journal i (t ∷ ts) = trade_issues i t ++ validate_journal (i + 1) ts

-- `ValidateSimulationMetrics`
unfoldable pub validate_simulation_metrics : SimulationMetrics → List MetricsIssue
validate_simulation_metrics m =
    let opens = m.opens_long + m.opens_short in
    let expected_signals = m.buy_signals + m.sell_signals + m.exit_signals in
    (if nat_beq opens m.closes then [] else opens_ne_closes opens m.closes ∷ [])
    ++ (if nat_beq expected_signals 0 && ltb 0 opens then no_action_signals ∷ [] else [])
