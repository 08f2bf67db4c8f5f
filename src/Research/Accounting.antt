-- ===== src/Research/Accounting.antt =====
-- What is opened is closed: the counters of internal/researchengine/simulator.go.
use option_engine.Common.{
  ℕ, ◌+◌, ◌≤◌, ◌≡◌, refl, ap, Option, none, some, List, [], ◌∷◌, arith, Bool-cases, inl, inr, ◌⊎◌,
  length, length-append, String,
}
use option_engine.Common.Int.{ltb_ℤ, pos}
use option_engine.Common.Float.{Float}
use option_engine.Candle.{Candle}
use option_engine.Research.{
  Decision, buy, sell, exit, ignore, other, Direction, long, short, Signal, Strategy,
  SimulatorConfig, SimulationMetrics, no_metrics, is_action,
}
use option_engine.Research.Trades.{OpenPosition, can_open, close_position}
use option_engine.Research.Checks.{validate_simulation_metrics}
use option_engine.Research.Simulator.{
  Book, Run, excursed, close_out, open_long, open_short, on_buy, on_sell, on_exit, act, trade_bar,
  step, loop, last_of, finish, run_with_metrics,
}

module _ {F P : Type 0} where
  abbrev pub open_count : Option (OpenPosition F P) → ℕ
  open_count none = 0
  open_count (some p) = 1

  -- Every opening is closed or still open, every closing is in the journal, and there are `slack`
  -- more signals to open on than openings.
  pub record IsBalanced (slack : ℕ) (b : Book F P) : Type 0 where
    pub balance :
        b.metrics.opens_long + b.metrics.opens_short ≡ b.metrics.closes + open_count b.position
    pub journaled : length b.journal ≡ b.metrics.closes
    pub signalled :
        b.metrics.opens_long + b.metrics.opens_short + slack
        ≤ b.metrics.buy_signals + b.metrics.sell_signals

pub direction_cases : (d : Direction) → (d ≡ long) ⊎ (d ≡ short)
direction_cases long = inl refl
direction_cases short = inr refl

excursed_count :
    {F P : Type 0} ⦃f : Float F⦄ (candle : Candle F) (o : Option (OpenPosition F P))
    → open_count (excursed candle o) ≡ open_count o
unfolding excursed
excursed_count candle none = refl
excursed_count candle (some p) = refl

module _ {F P I S : Type 0} ⦃f : Float F⦄ (cfg : SimulatorConfig F) (s : Strategy F P I S) where
  close_out-IsBalanced :
      (k : ℕ) (p : OpenPosition F P) (candle : Candle F) (bar : ℕ) (sig : Signal F P) (b : Book F P)
      → b.position ≡ some p
      → IsBalanced k b
      → IsBalanced k (close_out cfg s p candle bar sig b)
  unfolding close_out
  close_out-IsBalanced k p candle bar sig b e h =
      let c = ap open_count e in
      record {
        balance = omega (arith, h.balance, c);
        journaled = omega (
          arith,
          length-append b.journal (close_position cfg s.name p candle bar sig s.version ∷ []),
          h.journaled,
        );
        signalled = h.signalled;
      }

  open_long-IsBalanced :
      (candle : Candle F) (bar : ℕ) (sig : Signal F P) (regime : String) (b : Book F P)
      → b.position ≡ none
      → IsBalanced 1 b
      → IsBalanced 0 (open_long cfg s candle bar sig regime b)
  unfolding open_long
  open_long-IsBalanced candle bar sig regime b e h =
      let c = ap open_count e in
      elim (Bool-cases (can_open cfg b.journal)) [
        | inl y ↦ rw y (record {
          balance = omega (arith, h.balance, c);
          journaled = h.journaled;
          signalled = omega (arith, h.signalled);
        })
        | inr n ↦ rw n (record {
          balance = h.balance;
          journaled = h.journaled;
          signalled = omega (arith, h.signalled);
        })
      ]

  open_short-IsBalanced :
      (candle : Candle F) (bar : ℕ) (sig : Signal F P) (regime : String) (b : Book F P)
      → b.position ≡ none
      → IsBalanced 1 b
      → IsBalanced 0 (open_short cfg s candle bar sig regime b)
  unfolding open_short
  open_short-IsBalanced candle bar sig regime b e h =
      let c = ap open_count e in
      elim (Bool-cases (can_open cfg b.journal)) [
        | inl y ↦ rw y (record {
          balance = omega (arith, h.balance, c);
          journaled = h.journaled;
          signalled = omega (arith, h.signalled);
        })
        | inr n ↦ rw n (record {
          balance = h.balance;
          journaled = h.journaled;
          signalled = omega (arith, h.signalled);
        })
      ]

  pub closed :
      (p : OpenPosition F P) (candle : Candle F) (bar : ℕ) (sig : Signal F P) (b : Book F P)
      → (close_out cfg s p candle bar sig b).position ≡ none
  unfolding close_out
  closed p candle bar sig b = refl

  on_buy-IsBalanced :
      (o : Option (OpenPosition F P)) (candle : Candle F) (bar : ℕ) (sig : Signal F P)
      (regime : String) (b : Book F P)
      → b.position ≡ o
      → IsBalanced 1 b
      → IsBalanced 0 (on_buy cfg s o candle bar sig regime b)
  unfolding on_buy
  on_buy-IsBalanced none candle bar sig regime b e h =
      open_long-IsBalanced candle bar sig regime b e h
  on_buy-IsBalanced (some p) candle bar sig regime b e h = elim (direction_cases p.direction) [
    | inl l ↦ rw l (record {
      balance = h.balance;
      journaled = h.journaled;
      signalled = omega (arith, h.signalled);
    })
    | inr l ↦ rw l (
        open_long-IsBalanced candle bar sig regime (close_out cfg s p candle bar sig b)
          (closed p candle bar sig b) (close_out-IsBalanced 1 p candle bar sig b e h))
  ]

  on_sell-IsBalanced :
      (o : Option (OpenPosition F P)) (candle : Candle F) (bar : ℕ) (sig : Signal F P)
      (regime : String) (b : Book F P)
      → b.position ≡ o
      → IsBalanced 1 b
      → IsBalanced 0 (on_sell cfg s o candle bar sig regime b)
  unfolding on_sell
  on_sell-IsBalanced none candle bar sig regime b e h =
      open_short-IsBalanced candle bar sig regime b e h
  on_sell-IsBalanced (some p) candle bar sig regime b e h = elim (direction_cases p.direction) [
    | inr l ↦ rw l (record {
      balance = h.balance;
      journaled = h.journaled;
      signalled = omega (arith, h.signalled);
    })
    | inl l ↦ rw l (
        open_short-IsBalanced candle bar sig regime (close_out cfg s p candle bar sig b)
          (closed p candle bar sig b) (close_out-IsBalanced 1 p candle bar sig b e h))
  ]

  on_exit-IsBalanced :
      (o : Option (OpenPosition F P)) (candle : Candle F) (bar : ℕ) (sig : Signal F P)
      (b : Book F P)
      → b.position ≡ o
      → IsBalanced 0 b
      → IsBalanced 0 (on_exit cfg s o candle bar sig b)
  unfolding on_exit
  on_exit-IsBalanced none candle bar sig b e h = record {
    balance = h.balance;
    journaled = h.journaled;
    signalled = h.signalled;
  }
  on_exit-IsBalanced (some p) candle bar sig b e h = close_out-IsBalanced 0 p candle bar sig b e h

  act-IsBalanced :
      (d : Decision) (candle : Candle F) (bar : ℕ) (sig : Signal F P) (regime : String)
      (b : Book F P)
      → IsBalanced 0 b
      → IsBalanced 0 (act cfg s d candle bar sig regime b)
  unfolding act
  act-IsBalanced buy candle bar sig regime b h =
      on_buy-IsBalanced b.position candle bar sig regime _ refl (record {
        balance = h.balance;
        journaled = h.journaled;
        signalled = omega (arith, h.signalled);
      })
  act-IsBalanced sell candle bar sig regime b h =
      on_sell-IsBalanced b.position candle bar sig regime _ refl (record {
        balance = h.balance;
        journaled = h.journaled;
        signalled = omega (arith, h.signalled);
      })
  act-IsBalanced exit candle bar sig regime b h =
      on_exit-IsBalanced b.position candle bar sig _ refl
        (record { balance = h.balance; journaled = h.journaled; signalled = h.signalled })
  act-IsBalanced ignore candle bar sig regime b h = h
  act-IsBalanced (other d) candle bar sig regime b h = h

  trade_bar-IsBalanced :
      (candle : Candle F) (bar : ℕ) (sig : Signal F P) (regime : String) (b : Book F P)
      → IsBalanced 0 b
      → IsBalanced 0 (trade_bar cfg s candle bar sig regime b)
  unfolding trade_bar
  trade_bar-IsBalanced candle bar sig regime b h =
      let moved : IsBalanced 0 (record b { position = excursed candle b.position }) = record {
        balance = omega (arith, h.balance, excursed_count candle b.position);
        journaled = h.journaled;
        signalled = h.signalled;
      } in
      elim (Bool-cases (is_action sig.decision)) [
        | inl y ↦ rw y (act-IsBalanced sig.decision candle bar sig regime _ moved)
        | inr n ↦ rw n moved
      ]

  step-IsBalanced :
      (store : Option I) (bar : ℕ) (candle : Candle F) (r : Run F P S)
      → IsBalanced 0 r.book
      → IsBalanced 0 (step cfg s store bar candle r).book
  unfolding step
  step-IsBalanced store bar candle r h = elim (Bool-cases (ltb_ℤ (pos bar) s.warmup_bars)) [
    | inl y ↦ rw y h
    | inr n ↦ rw n (trade_bar-IsBalanced candle bar _ _ r.book h)
  ]

  loop-IsBalanced :
      (store : Option I) (bar : ℕ) (cs : List (Candle F)) (r : Run F P S)
      → IsBalanced 0 r.book
      → IsBalanced 0 (loop cfg s store bar cs r).book
  unfolding loop
  loop-IsBalanced store bar [] r h = h
  loop-IsBalanced store bar (c ∷ cs) r h =
      loop-IsBalanced store (bar + 1) cs _ (step-IsBalanced store bar c r h)

  finish-IsBalanced :
      (o : Option (OpenPosition F P)) (last : Candle F) (bar : ℕ) (r : Run F P S)
      → r.book.position ≡ o
      → IsBalanced 0 r.book
      → IsBalanced 0 (finish cfg s o last bar r) × ((finish cfg s o last bar r).position ≡ none)
  unfolding finish
  finish-IsBalanced none last bar r e h = (h, e)
  finish-IsBalanced (some p) last bar r e h = (
    close_out-IsBalanced 0 p last bar _ _ e
        (record { balance = h.balance; journaled = h.journaled; signalled = h.signalled }),
    closed p last bar _ _,
  )

  -- What the check of the counters wants holds of a balanced book without a position.
  balanced_checks :
      (b : Book F P)
      → IsBalanced 0 b
      → b.position ≡ none
      → validate_simulation_metrics b.metrics ≡ []
  unfolding validate_simulation_metrics
  balanced_checks b h e =
      let c = ap open_count e in
      let opened : b.metrics.opens_long + b.metrics.opens_short ≡ b.metrics.closes =
        omega (arith, h.balance, c) in
      ground (arith, h.signalled, opened)

  -- Whatever a strategy answers to the candles, of which there is at least one: at the end of the run as
  -- many positions were closed as opened, each closing is one trade of the journal, positions were
  -- opened on BUY and SELL signals only, at most one for each, and `ValidateSimulationMetrics` finds
  -- nothing to report.
  pub run-IsSettled :
      (store : Option I) (s0 : S) (m : SimulationMetrics) (c : Candle F) (cs : List (Candle F))
      → let r = run_with_metrics cfg s store s0 m (c ∷ cs) in
        (r.1.opens_long + r.1.opens_short ≡ r.1.closes)
        × (length r.0 ≡ r.1.closes)
        × (r.1.opens_long + r.1.opens_short ≤ r.1.buy_signals + r.1.sell_signals)
        × (validate_simulation_metrics r.1 ≡ [])
  unfolding run_with_metrics
  run-IsSettled store s0 m c cs =
      let fresh : Book F P = record { journal = []; position = none; metrics = no_metrics } in
      let start : Run F P S = record { book = fresh; history = []; strategy_state = s0 } in
      let r = loop cfg s store 0 (c ∷ cs) start in
      let looped =
        loop-IsBalanced store 0 (c ∷ cs) start
          (record { balance = refl; journaled = refl; signalled = omega arith }) in
      let (h, e) = finish-IsBalanced r.book.position (last_of c cs) (length cs) r refl looped in
      let n = ap open_count e in
      (
        omega (arith, h.balance, n),
        h.journaled,
        omega (arith, h.signalled),
        balanced_checks (finish cfg s r.book.position (last_of c cs) (length cs) r) h e,
      )
