-- ===== src/Research/Chronicle.antt =====
-- What is said of a journal of internal/researchengine/simulator.go over time, and that the checks of
-- invariants.go find nothing in such a journal.
use option_engine.Common.{
  ℕ, ◌+◌, ◌≤◌, ◌<◌, ◌≡◌, refl, Option, none, some, List, [], ◌∷◌, arith, true, false, All, All-map,
}
use option_engine.Common.Pairwise.{Pairwise}
use option_engine.Common.Int.{pos, ◌<ℤ◌, ◌≤ℤ◌}
use option_engine.Common.Float.{Float, le}
use option_engine.Domain.{Instant}
use option_engine.Candle.{Candle}
use option_engine.Research.{SimulatorConfig, SimulatedTrade}
use option_engine.Research.Trades.{OpenPosition, update_excursion, zero_float, hundred}
use option_engine.Research.Checks.{trade_issues, validate_journal}
use option_engine.Research.Simulator.{Book, excursed}

-- What is above 0 is not also below or equal to it, as is so of every IEEE 754 value.
abbrev pub IsSigned : (F : Type 0) → ⦃f : Float F⦄ → Type 0
IsSigned F ⦃f⦄ = (a : F) → f.lt zero_float a ≡ true → le f.lt f.eq a zero_float ≡ false

-- The close of a candle, moved up and moved down by the slippage, is above 0.
abbrev pub IsPriced : {F : Type 0} → ⦃f : Float F⦄ → SimulatorConfig F → Candle F → Type 0
IsPriced ⦃f⦄ cfg c =
    (f.lt zero_float
        (f.mul c.close_price (f.add (f.of_int (pos 1)) (f.div cfg.slippage_pct hundred)))
      ≡ true)
    × (f.lt zero_float
          (f.mul c.close_price (f.sub (f.of_int (pos 1)) (f.div cfg.slippage_pct hundred)))
        ≡ true)

module _ {F P : Type 0} ⦃f : Float F⦄ where
  abbrev pub Precedes : SimulatedTrade F P → SimulatedTrade F P → Type 0
  Precedes t u = t.exit_time ≤ u.entry_time

  pub record IsFine (t : SimulatedTrade F P) : Type 0 where
    pub timed : 0 < t.exit_time
    pub forward : t.entry_time ≤ t.exit_time
    pub entered : f.lt zero_float t.entry_price ≡ true
    pub exited : f.lt zero_float t.exit_price ≡ true
    pub sized : pos 0 <ℤ t.quantity
    pub held : pos 1 ≤ℤ t.bars_held

  -- An open position was entered after every trade of the journal, and not later than `now`.
  abbrev pub IsOpen : Instant → List (SimulatedTrade F P) → Option (OpenPosition F P) → Type 0
  IsOpen now journal none = Unit
  IsOpen now journal (some p) =
      (p.entry_time ≤ now)
      × (f.lt zero_float p.entry_price ≡ true)
      × (pos 0 <ℤ p.quantity)
      × All (λ (t : SimulatedTrade F P). t.exit_time ≤ p.entry_time) journal

  pub record IsChronicle (now : Instant) (b : Book F P) : Type 0 where
    pub fine : All IsFine b.journal
    pub ordered : Pairwise Precedes b.journal
    pub past : All (λ (t : SimulatedTrade F P). t.exit_time ≤ now) b.journal
    pub opened : IsOpen now b.journal b.position

  pub later-IsOpen :
      (now later : Instant) (j : List (SimulatedTrade F P)) (candle : Candle F)
      (o : Option (OpenPosition F P))
      → now ≤ later
      → IsOpen now j o
      → IsOpen later j (excursed candle o)
  unfolding excursed update_excursion
  later-IsOpen now later j candle none l h = tt
  later-IsOpen now later j candle (some p) l h = (omega (arith, h.0), h.1, h.2, h.3)

  pub waiting-IsOpen :
      (now later : Instant) (j : List (SimulatedTrade F P)) (o : Option (OpenPosition F P))
      → now ≤ later
      → IsOpen now j o
      → IsOpen later j o
  waiting-IsOpen now later j none l h = tt
  waiting-IsOpen now later j (some p) l h = (omega (arith, h.0), h.1, h.2, h.3)

  pub later_past :
      (now later : Instant) (j : List (SimulatedTrade F P))
      → now ≤ later
      → All (λ (t : SimulatedTrade F P). t.exit_time ≤ now) j
      → All (λ (t : SimulatedTrade F P). t.exit_time ≤ later) j
  later_past now later j l h =
      All-map (λ (t : SimulatedTrade F P). t.exit_time ≤ now)
        (λ (t : SimulatedTrade F P). t.exit_time ≤ later) j (λ t e. omega (arith, e)) h

  fine_issues :
      (signed : IsSigned F) (i : ℕ) (t : SimulatedTrade F P) → IsFine t → trade_issues i t ≡ []
  unfolding trade_issues
  fine_issues signed i t h =
      let a = signed t.entry_price h.entered in
      let b = signed t.exit_price h.exited in
      rw (a, b) (ground (arith, h.timed, h.forward, h.sized, h.held))

  pub fine_checks :
      (signed : IsSigned F) (i : ℕ) (ts : List (SimulatedTrade F P))
      → All IsFine ts
      → validate_journal i ts ≡ []
  unfolding validate_journal
  fine_checks signed i [] h = refl
  fine_checks signed i (t ∷ ts) h =
      rw (fine_issues signed i t h.0, fine_checks signed (i + 1) ts h.1)
