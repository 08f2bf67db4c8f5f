-- ===== src/Research/Journal.antt =====
-- The journal that internal/researchengine/simulator.go writes: each trade is well formed, and ends
-- before the next one begins.
use option_engine.Common.{
  subst, ℕ, ◌≤◌, ◌<◌, ◌≡◌, refl, Option, none, some, arith, Bool-cases, inl, inr, true, false, Bool,
  String, All-append, if◌then◌else◌,
}
use option_engine.Common.Pairwise.{Pairwise-snoc}
use option_engine.Common.Int.{ℤ, pos, ltb_ℤ, ◌<ℤ◌, ◌≤ℤ◌, ◌-ℤ◌}
use option_engine.Common.Float.{Float}
use option_engine.Domain.{Instant}
use option_engine.Candle.{Candle}
use option_engine.Research.{
  Decision, buy, sell, exit, ignore, other, Direction, long, short, Signal, Strategy,
  SimulatorConfig, SimulatedTrade, SimulationMetrics,
}
use option_engine.Research.Trades.{
  OpenPosition, can_open, close_position, open_position, fill_price, zero_float,
}
use option_engine.Research.Simulator.{
  Book, close_out, open_long, open_short, on_buy, on_sell, on_exit, act,
}
use option_engine.Research.Accounting.{direction_cases}
use option_engine.Research.Chronicle.{IsPriced, Precedes, IsFine, IsOpen, IsChronicle}

module _ {F P I S : Type 0} ⦃f : Float F⦄ (cfg : SimulatorConfig F) (s : Strategy F P I S)
    (sized : pos 0 <ℤ cfg.quantity) where
  fill_positive :
      (candle : Candle F) (d : Direction) (entry : Bool)
      → IsPriced cfg candle
      → f.lt zero_float (fill_price cfg candle.close_price d entry) ≡ true
  unfolding fill_price
  fill_positive candle long true h = h.0
  fill_positive candle long false h = h.1
  fill_positive candle short true h = h.1
  fill_positive candle short false h = h.0

  held_enough : (h : ℤ) → pos 1 ≤ℤ (if ltb_ℤ h (pos 1) then pos 1 else h)
  held_enough h = ground arith

  pub close_out-IsChronicle :
      (p : OpenPosition F P) (candle : Candle F) (bar : ℕ) (sig : Signal F P) (b : Book F P)
      → b.position ≡ some p
      → 0 < candle.close_time
      → IsPriced cfg candle
      → IsChronicle candle.close_time b
      → IsChronicle candle.close_time (close_out cfg s p candle bar sig b)
  unfolding close_out close_position
  close_out-IsChronicle p candle bar sig b e t c h =
      let o : IsOpen candle.close_time b.journal (some p) =
        subst (IsOpen candle.close_time b.journal) e h.opened in
      record {
        fine = All-append IsFine b.journal _ h.fine (
          record {
            timed = t;
            forward = o.0;
            entered = o.1;
            exited = fill_positive candle p.direction false c;
            sized = o.2;
            held = held_enough (pos bar -ℤ pos p.entry_bar);
          },
          tt,
        );
        ordered = Pairwise-snoc Precedes b.journal _ h.ordered o.3;
        past =
            All-append (λ (u : SimulatedTrade F P). u.exit_time ≤ candle.close_time) b.journal _
              h.past (omega arith, tt);
        opened = tt;
      }

  -- Both ways to open.
  opened-IsChronicle :
      (d : Direction) (candle : Candle F) (bar : ℕ) (sig : Signal F P) (regime : String)
      (b : Book F P) (m : SimulationMetrics)
      → IsPriced cfg candle
      → IsChronicle candle.close_time b
      → IsChronicle candle.close_time
          (record b { position = some (open_position cfg d candle bar sig regime); metrics = m })
  unfolding open_position
  opened-IsChronicle d candle bar sig regime b m c h = record {
    fine = h.fine;
    ordered = h.ordered;
    past = h.past;
    opened = (omega arith, fill_positive candle d true c, sized, h.past);
  }

  open_long-IsChronicle :
      (candle : Candle F) (bar : ℕ) (sig : Signal F P) (regime : String) (b : Book F P)
      → IsPriced cfg candle
      → IsChronicle candle.close_time b
      → IsChronicle candle.close_time (open_long cfg s candle bar sig regime b)
  unfolding open_long
  open_long-IsChronicle candle bar sig regime b c h = elim (Bool-cases (can_open cfg b.journal)) [
    | inl y ↦ rw y (opened-IsChronicle long candle bar sig regime b _ c h)
    | inr n ↦ rw n h
  ]

  open_short-IsChronicle :
      (candle : Candle F) (bar : ℕ) (sig : Signal F P) (regime : String) (b : Book F P)
      → IsPriced cfg candle
      → IsChronicle candle.close_time b
      → IsChronicle candle.close_time (open_short cfg s candle bar sig regime b)
  unfolding open_short
  open_short-IsChronicle candle bar sig regime b c h = elim (Bool-cases (can_open cfg b.journal)) [
    | inl y ↦ rw y (opened-IsChronicle short candle bar sig regime b _ c h)
    | inr n ↦ rw n h
  ]

  -- Counting changes nothing of this.
  pub counted :
      (now : Instant) (b : Book F P) (m : SimulationMetrics)
      → IsChronicle now b
      → IsChronicle now (record b { metrics = m })
  counted now b m h = record {
    fine = h.fine;
    ordered = h.ordered;
    past = h.past;
    opened = h.opened;
  }

  on_buy-IsChronicle :
      (o : Option (OpenPosition F P)) (candle : Candle F) (bar : ℕ) (sig : Signal F P)
      (regime : String) (b : Book F P)
      → b.position ≡ o
      → 0 < candle.close_time
      → IsPriced cfg candle
      → IsChronicle candle.close_time b
      → IsChronicle candle.close_time (on_buy cfg s o candle bar sig regime b)
  unfolding on_buy
  on_buy-IsChronicle none candle bar sig regime b e t c h =
      open_long-IsChronicle candle bar sig regime b c h
  on_buy-IsChronicle (some p) candle bar sig regime b e t c h = elim (direction_cases p.direction) [
    | inl l ↦ rw l (counted _ b _ h)
    | inr l ↦ rw l (
        open_long-IsChronicle candle bar sig regime _ c
          (close_out-IsChronicle p candle bar sig b e t c h))
  ]

  on_sell-IsChronicle :
      (o : Option (OpenPosition F P)) (candle : Candle F) (bar : ℕ) (sig : Signal F P)
      (regime : String) (b : Book F P)
      → b.position ≡ o
      → 0 < candle.close_time
      → IsPriced cfg candle
      → IsChronicle candle.close_time b
      → IsChronicle candle.close_time (on_sell cfg s o candle bar sig regime b)
  unfolding on_sell
  on_sell-IsChronicle none candle bar sig regime b e t c h =
      open_short-IsChronicle candle bar sig regime b c h
  on_sell-IsChronicle (some p) candle bar sig regime b e t c h =
      elim (direction_cases p.direction) [
        | inr l ↦ rw l (counted _ b _ h)
        | inl l ↦ rw l (
            open_short-IsChronicle candle bar sig regime _ c
              (close_out-IsChronicle p candle bar sig b e t c h))
      ]

  on_exit-IsChronicle :
      (o : Option (OpenPosition F P)) (candle : Candle F) (bar : ℕ) (sig : Signal F P)
      (b : Book F P)
      → b.position ≡ o
      → 0 < candle.close_time
      → IsPriced cfg candle
      → IsChronicle candle.close_time b
      → IsChronicle candle.close_time (on_exit cfg s o candle bar sig b)
  unfolding on_exit
  on_exit-IsChronicle none candle bar sig b e t c h = counted _ b _ h
  on_exit-IsChronicle (some p) candle bar sig b e t c h =
      close_out-IsChronicle p candle bar sig b e t c h

  pub act-IsChronicle :
      (d : Decision) (candle : Candle F) (bar : ℕ) (sig : Signal F P) (regime : String)
      (b : Book F P)
      → 0 < candle.close_time
      → IsPriced cfg candle
      → IsChronicle candle.close_time b
      → IsChronicle candle.close_time (act cfg s d candle bar sig regime b)
  unfolding act
  act-IsChronicle buy candle bar sig regime b t c h =
      on_buy-IsChronicle b.position candle bar sig regime _ refl t c (counted _ b _ h)
  act-IsChronicle sell candle bar sig regime b t c h =
      on_sell-IsChronicle b.position candle bar sig regime _ refl t c (counted _ b _ h)
  act-IsChronicle exit candle bar sig regime b t c h =
      on_exit-IsChronicle b.position candle bar sig _ refl t c (counted _ b _ h)
  act-IsChronicle ignore candle bar sig regime b t c h = h
  act-IsChronicle (other d) candle bar sig regime b t c h = h
