-- ===== src/Research/Feed.antt =====
-- A run of internal/researchengine/simulator.go over candles in order: what its journal holds.
use option_engine.Common.{
  ℕ, ◌+◌, ◌≤◌, ◌<◌, ◌≡◌, refl, Option, none, some, List, [], ◌∷◌, arith, Bool-cases, inl, inr,
  String, length,
}
use option_engine.Common.Pairwise.{Pairwise}
use option_engine.Common.Int.{pos, ltb_ℤ, ◌<ℤ◌}
use option_engine.Common.Float.{Float}
use option_engine.Domain.{Instant}
use option_engine.Candle.{Candle}
use option_engine.Research.{
  Signal, Strategy, SimulatorConfig, SimulationMetrics, no_metrics, is_action, with_defaults,
}
use option_engine.Research.Trades.{OpenPosition}
use option_engine.Research.Checks.{validate_journal}
use option_engine.Research.Simulator.{
  Book, Run, excursed, trade_bar, step, loop, last_of, finish, run_with_metrics,
}
use option_engine.Research.Chronicle.{
  IsSigned, IsPriced, Precedes, IsChronicle, later-IsOpen, waiting-IsOpen, later_past, fine_checks,
}
use option_engine.Research.Journal.{act-IsChronicle, close_out-IsChronicle, counted}

-- The candles' closing times are known and never decrease, and what fills pay at their closing prices
-- is above 0.
abbrev pub IsFeed :
    {F : Type 0} ⦃f : Float F⦄ → SimulatorConfig F → Instant → List (Candle F) → Type 0
IsFeed cfg now [] = Unit
IsFeed cfg now (c ∷ cs) =
    (now ≤ c.close_time) × (0 < c.close_time) × IsPriced cfg c × IsFeed cfg c.close_time cs

module _ {F P I S : Type 0} ⦃f : Float F⦄ (cfg : SimulatorConfig F) (s : Strategy F P I S)
    (sized : pos 0 <ℤ cfg.quantity) where
  trade_bar-IsChronicle :
      (now : Instant) (candle : Candle F) (bar : ℕ) (sig : Signal F P) (regime : String)
      (b : Book F P)
      → now ≤ candle.close_time
      → 0 < candle.close_time
      → IsPriced cfg candle
      → IsChronicle now b
      → IsChronicle candle.close_time (trade_bar cfg s candle bar sig regime b)
  unfolding trade_bar
  trade_bar-IsChronicle now candle bar sig regime b l t c h =
      let moved : IsChronicle candle.close_time
          (record b { position = excursed candle b.position }) =
        record {
          fine = h.fine;
          ordered = h.ordered;
          past = later_past now candle.close_time b.journal l h.past;
          opened = later-IsOpen now candle.close_time b.journal candle b.position l h.opened;
        } in
      elim (Bool-cases (is_action sig.decision)) [
        | inl y ↦ rw y (act-IsChronicle cfg s sized sig.decision candle bar sig regime _ t c moved)
        | inr n ↦ rw n moved
      ]

  step-IsChronicle :
      (store : Option I) (now : Instant) (bar : ℕ) (candle : Candle F) (r : Run F P S)
      → now ≤ candle.close_time
      → 0 < candle.close_time
      → IsPriced cfg candle
      → IsChronicle now r.book
      → IsChronicle candle.close_time (step cfg s store bar candle r).book
  unfolding step
  step-IsChronicle store now bar candle r l t c h =
      elim (Bool-cases (ltb_ℤ (pos bar) s.warmup_bars)) [
        | inl y ↦ rw y (record {
          fine = h.fine;
          ordered = h.ordered;
          past = later_past now candle.close_time r.book.journal l h.past;
          opened = waiting-IsOpen now candle.close_time r.book.journal r.book.position l h.opened;
        })
        | inr n ↦ rw n (trade_bar-IsChronicle now candle bar _ _ r.book l t c h)
      ]

  -- A loop leaves a chronicle up to the close of its last candle, `c` if it has none.
  loop-IsChronicle :
      (store : Option I) (bar : ℕ) (c : Candle F) (cs : List (Candle F)) (r : Run F P S)
      → 0 < c.close_time
      → IsPriced cfg c
      → IsFeed cfg c.close_time cs
      → IsChronicle c.close_time r.book
      → IsChronicle (last_of c cs).close_time (loop cfg s store bar cs r).book
        × (0 < (last_of c cs).close_time)
        × IsPriced cfg (last_of c cs)
  unfolding loop last_of
  loop-IsChronicle store bar c [] r t p feed h = (h, t, p)
  loop-IsChronicle store bar c (d ∷ ds) r t p feed h =
      loop-IsChronicle store (bar + 1) d ds _ feed.1 feed.2 feed.3
        (step-IsChronicle store c.close_time bar d r feed.0 feed.1 feed.2 h)

  finish-IsChronicle :
      (o : Option (OpenPosition F P)) (last : Candle F) (bar : ℕ) (r : Run F P S)
      → r.book.position ≡ o
      → 0 < last.close_time
      → IsPriced cfg last
      → IsChronicle last.close_time r.book
      → IsChronicle last.close_time (finish cfg s o last bar r)
  unfolding finish
  finish-IsChronicle none last bar r e t c h = h
  finish-IsChronicle (some p) last bar r e t c h =
      close_out-IsChronicle cfg s sized p last bar _ _ e t c (counted cfg s sized _ r.book _ h)

module _ {F P I S : Type 0} ⦃f : Float F⦄ (cfg : SimulatorConfig F) (s : Strategy F P I S) where
  default_sized : pos 0 <ℤ (with_defaults cfg).quantity
  unfolding with_defaults
  default_sized = ground arith

  -- If the candles, in the order of the feed, have known closing times that never decrease, and each
  -- closing price moved up and down by the slippage is above 0, then whatever the strategy answers,
  -- with an indicator store and without: `ValidateJournal` finds nothing to report in the journal of
  -- a simulator with its defaults, and each trade ends no later than every later trade of the journal
  -- begins. Of the arithmetic only this is used: what is above 0 is not also below or equal to it.
  pub run-IsChronicle :
      (signed : IsSigned F) (store : Option I) (s0 : S) (m : SimulationMetrics) (c : Candle F)
      (cs : List (Candle F))
      → IsFeed (with_defaults cfg) 0 (c ∷ cs)
      → let journal = (run_with_metrics (with_defaults cfg) s store s0 m (c ∷ cs)).0 in
        (validate_journal 0 journal ≡ []) × Pairwise Precedes journal
  unfolding run_with_metrics loop
  run-IsChronicle signed store s0 m c cs feed =
      let fresh : Book F P = record { journal = []; position = none; metrics = no_metrics } in
      let start : Run F P S = record { book = fresh; history = []; strategy_state = s0 } in
      let began : IsChronicle 0 fresh = record {
        fine = tt;
        ordered = tt;
        past = tt;
        opened = tt;
      } in
      let cfg' = with_defaults cfg in
      let first =
        step-IsChronicle cfg' s default_sized store 0 0 c start feed.0 feed.1 feed.2 began in
      let r = loop cfg' s store 1 cs (step cfg' s store 0 c start) in
      let (h, t, p) =
        loop-IsChronicle cfg' s default_sized store 1 c cs _ feed.1 feed.2 feed.3 first in
      let k =
        finish-IsChronicle cfg' s default_sized r.book.position (last_of c cs) (length cs) r refl t
          p h in
      (fine_checks signed 0 _ k.fine, k.ordered)
