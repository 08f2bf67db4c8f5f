-- ===== src/Research/Causality.antt =====
-- What internal/researchengine/simulator.go shows to a strategy, with an indicator store and without.
use option_engine.Common.{
  ℕ, zero, suc, ◌+◌, ◌-◌, ◌≡◌, refl, sym, ap, ◌∙◌, Option, none, some, List, [], ◌∷◌, ◌++◌, arith,
  Bool-cases, inl, inr, false, if◌then◌else◌, String, length, length-append, length-drop, drop, map,
  ltb,
}
use mathlib.Core.List.{append_assoc, append-nil, map-append}
use option_engine.Common.Float.{Float}
use option_engine.Common.Arrays.{drop-snoc, drop_all}
use option_engine.Indicator.Ring.{window}
use option_engine.Domain.{is_zero}
use option_engine.Candle.{Candle}
use option_engine.Research.{
  Decision, buy, sell, exit, ignore, other, Position, Signal, Context, Strategy, SimulatorConfig,
}
use option_engine.Research.Simulator.{
  Book, Run, history_cap, is_some, push_history, excursed, close_out, open_long, open_short, on_buy,
  on_sell, on_exit, act, trade_bar, context_at, step, loop,
}

drop-suc {ℓ} : {A : Type ℓ} (n : ℕ) (xs : List A) → drop 1 (drop n xs) ≡ drop (suc n) xs
drop-suc zero [] = refl
drop-suc zero (x ∷ xs) = refl
drop-suc (suc n) [] = refl
drop-suc (suc n) (x ∷ xs) = drop-suc n xs

-- The history, once cut to the last `cap` candles, is cut so again by each round.
window-push :
    {F : Type 0} (cap : ℕ) (c : Candle F) (past : List (Candle F))
    → push_history false cap c (window cap past) ≡ window cap (past ++ c ∷ [])
unfolding push_history
window-push cap c past =
    let w = window cap past in
    let n : length w ≡ length past - (length past - cap) = length-drop (length past - cap) past in
    let n' : length (w ++ c ∷ []) ≡ length w + 1 = length-append w (c ∷ []) in
    let k : length (past ++ c ∷ []) ≡ length past + 1 = length-append past (c ∷ []) in
    let moved : drop (length past - cap) (past ++ c ∷ []) ≡ w ++ c ∷ [] =
      drop-snoc (length past - cap) past c (omega arith) in
    elim (Bool-cases (ltb cap (length (w ++ c ∷ [])))) [
      | inl y ↦
          let one : length (w ++ c ∷ []) - cap ≡ 1 = ground (arith, n, n', y) in
          let next : length (past ++ c ∷ []) - cap ≡ suc (length past - cap) =
            ground (arith, n, n', k, y) in
          rw y (
            ap (λ i. drop i (w ++ c ∷ [])) one
            ∙ ap (drop 1) (sym moved)
            ∙ drop-suc (length past - cap) (past ++ c ∷ [])
            ∙ ap (λ i. drop i (past ++ c ∷ [])) (sym next))
      | inr m ↦
          let next : length (past ++ c ∷ []) - cap ≡ length past - cap =
            ground (arith, n, n', k, m) in
          rw m (sym moved ∙ ap (λ i. drop i (past ++ c ∷ [])) (sym next))
    ]

module _ {F P I S : Type 0} where
  -- A strategy that answers as another one does and notes each context.
  abbrev pub recorded : Strategy F P I S → Strategy F P I (S × List (Context F I))
  recorded s = record {
    name = s.name;
    version = s.version;
    warmup_bars = s.warmup_bars;
    parameters = λ st. s.parameters st.0;
    evaluate = λ ctx st. ((s.evaluate ctx st.0).0, ((s.evaluate ctx st.0).1, st.1 ++ ctx ∷ []));
  }

  -- The run without the notes.
  abbrev pub forget : Run F P (S × List (Context F I)) → Run F P S
  forget r = record { book = r.book; history = r.history; strategy_state = r.strategy_state.0 }

module _ {F I : Type 0} where
  -- A context less the position, which the book determines.
  abbrev pub briefing : Context F I → Context F I
  briefing ctx = record ctx { position = Position.flat }

  -- The history before a bar: the last `cap` candles, and none beside a store.
  abbrev pub shown : Option I → ℕ → List (Candle F) → List (Candle F)
  shown none cap past = window cap past
  shown (some i) cap past = []

  abbrev pub briefing_at : Option I → ℕ → List (Candle F) → Candle F → Context F I
  briefing_at store bar history c = record {
    symbol = c.symbol;
    timeframe = c.timeframe;
    candle = c;
    history = history;
    position = Position.flat;
    market_regime = "";
    bar_index = bar;
    store = store;
    timestamp = if is_zero c.close_time then c.open_time else c.close_time;
  }

  -- At each bar its index, the bar with its names and its time, the history before it and the store.
  abbrev pub briefings : Option I → ℕ → List (Candle F) → List (Candle F) → List (Context F I)
  briefings store cap past [] = []
  briefings store cap past (c ∷ cs) =
      briefing_at store (length past) (shown store cap past) c
      ∷ briefings store cap (past ++ c ∷ []) cs

  shown-nil : (store : Option I) (cap : ℕ) → [] ≡ shown store cap []
  shown-nil none cap = sym (drop_all (0 - cap) [] (omega arith))
  shown-nil (some i) cap = refl

module _ {F P I S : Type 0} ⦃f : Float F⦄ (cfg : SimulatorConfig F) (s : Strategy F P I S) where
  act-recorded :
      (d : Decision) (candle : Candle F) (bar : ℕ) (sig : Signal F P) (regime : String)
      (b : Book F P)
      → act cfg (recorded s) d candle bar sig regime b ≡ act cfg s d candle bar sig regime b
  unfolding act on_buy on_sell on_exit open_long open_short close_out
  act-recorded buy candle bar sig regime b = refl
  act-recorded sell candle bar sig regime b = refl
  act-recorded exit candle bar sig regime b = refl
  act-recorded ignore candle bar sig regime b = refl
  act-recorded (other d) candle bar sig regime b = refl

  trade_bar-recorded :
      (candle : Candle F) (bar : ℕ) (sig : Signal F P) (regime : String) (b : Book F P)
      → trade_bar cfg (recorded s) candle bar sig regime b ≡ trade_bar cfg s candle bar sig regime b
  unfolding trade_bar
  trade_bar-recorded candle bar sig regime b = rw (
      act-recorded sig.decision candle bar sig regime
        (record b { position = excursed candle b.position }))

  step-recorded :
      (store : Option I) (bar : ℕ) (candle : Candle F) (r : Run F P (S × List (Context F I)))
      → forget (step cfg (recorded s) store bar candle r) ≡ step cfg s store bar candle (forget r)
  unfolding step context_at
  step-recorded store bar candle r = simp trade_bar-recorded

  -- The simulator's history is what it shows, from one round to the next.
  shown-push :
      (store : Option I) (cap : ℕ) (c : Candle F) (past : List (Candle F))
      → push_history (is_some cfg (recorded s) store) cap c (shown store cap past)
        ≡ shown store cap (past ++ c ∷ [])
  unfolding push_history
  shown-push none cap c past = window-push cap c past
  shown-push (some i) cap c past = refl

  briefing-context_at :
      (store : Option I) (bar : ℕ) (c : Candle F) (r : Run F P (S × List (Context F I)))
      (past : List (Candle F))
      → r.history ≡ shown store (history_cap s.warmup_bars) past
      → bar ≡ length past
      → briefing (context_at cfg (recorded s) store bar c r)
        ≡ briefing_at store (length past) (shown store (history_cap s.warmup_bars) past) c
  unfolding context_at
  briefing-context_at none bar c r past h n = λ i. briefing_at none (n i) (h i) c
  briefing-context_at (some j) bar c r past h n = ap (λ b. briefing_at (some j) b [] c) n

  -- The notes of a run that goes on after the candles `past`.
  loop-recorded :
      (store : Option I) (bar : ℕ) (cs : List (Candle F)) (r : Run F P (S × List (Context F I)))
      (past : List (Candle F))
      → r.history ≡ shown store (history_cap s.warmup_bars) past
      → bar ≡ length past
      → (forget (loop cfg (recorded s) store bar cs r) ≡ loop cfg s store bar cs (forget r))
        × (map briefing (loop cfg (recorded s) store bar cs r).strategy_state.1
            ≡ map briefing r.strategy_state.1
              ++ briefings store (history_cap s.warmup_bars) past cs)
  unfolding loop step context_at
  loop-recorded store bar [] r past h n = (refl, sym (append-nil _))
  loop-recorded store bar (c ∷ cs) r past h n =
      let cap = history_cap s.warmup_bars in
      let r' = step cfg (recorded s) store bar c r in
      let h' : r'.history ≡ shown store cap (past ++ c ∷ []) = rw h (shown-push store cap c past) in
      let n' : bar + 1 ≡ length (past ++ c ∷ []) = omega (arith, n, length-append past (c ∷ [])) in
      let (same, notes) = loop-recorded store (bar + 1) cs r' (past ++ c ∷ []) h' n' in
      let e = briefing-context_at store bar c r past h n in
      (
        same ∙ ap (loop cfg s store (bar + 1) cs) (step-recorded store bar c r),
        notes ∙ simp (map-append, append_assoc, e),
      )

  -- Noting what the strategy is shown does not change the run; and at each bar it is shown, beside its
  -- position, the bar's index, the bar itself with its names and its time, the store if there is one,
  -- and, if there is none, the last bars before it, as many as the history holds, but beside a store
  -- no history. What a store answers about later bars is not stated.
  pub loop_shows_past :
      (store : Option I) (cs : List (Candle F)) (s0 : S) (b : Book F P)
      → let start : Run F P (S × List (Context F I)) = record {
        book = b;
        history = [];
        strategy_state = (s0, []);
      } in
        (forget (loop cfg (recorded s) store 0 cs start) ≡ loop cfg s store 0 cs (forget start))
        × (map briefing (loop cfg (recorded s) store 0 cs start).strategy_state.1
            ≡ briefings store (history_cap s.warmup_bars) [] cs)
  loop_shows_past store cs s0 b =
      loop-recorded store 0 cs (record { book = b; history = []; strategy_state = (s0, []) }) []
        (shown-nil store (history_cap s.warmup_bars)) refl
