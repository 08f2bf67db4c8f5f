-- ===== src/Pipeline/Gaps.antt =====
-- Where the three engines lose one another.
use option_engine.Common.{
  ◌≡◌, refl, ap, ◌∙◌, Bool, true, false, some, List, [], ◌∷◌, map, ◌==◌, ==_iff, ==_refl, string_eq,
}
use option_engine.Common.Int.{pos}
use option_engine.Common.Float.{Float}
use option_engine.Domain.{long_entry, short_entry, SeriesKey, series_key_eq}
use option_engine.Risk
use option_engine.Risk.{process, position_of, key_of}
use option_engine.Risk.Moves.{process_position}
use option_engine.Paper
use option_engine.Paper.{Text, execute, is_incomplete, not_positive, requires_market_price}
use option_engine.Paper.Orders.{handle_cases}
use option_engine.Paper.Positions.{execute-Settles, execute_unpriced, execute_priced}
use option_engine.Portfolio
use option_engine.Portfolio.{position_at}
use option_engine.Portfolio.Ledger.{Ledger, view, post, enter, apply-post}
use option_engine.Pipeline.{to_paper, to_portfolio, Desk, deliver, place, place_all}
use option_engine.Pipeline.Agreement.{complete-report, handle-apply}

module _ {F : Type 0} ⦃n : Float F⦄ (text : Text F) (cfg : Paper.Config F) where
  place_unpriced :
      (i : Paper.ApprovedTradeIntent F) (cancelled : Bool) (d : Desk F)
      → not_positive text i.reference_price ≡ true
      → requires_market_price text cfg ≡ true
      → (place text cfg cancelled i d).paper.cache.positions ≡ d.paper.cache.positions
  unfolding place
  place_unpriced i cancelled d low market =
      let (s, same) = execute_unpriced text cfg i d.paper.cache low market in
      handle_cases text cfg i cancelled d.paper (λ o. o.0.cache.positions ≡ d.paper.cache.positions)
        refl (λ _ _. same) (λ _. same)

  -- The risk engine's intents carry no reference price. With the configured default price `market`,
  -- and 0 <= 0, no list of them ever opens or closes a position of the paper engine, whatever the
  -- risk engine approved.
  pub risk_intents_never_fill :
      (is : List (Risk.ApprovedTradeIntent F)) (d : Desk F)
      → not_positive text (n.of_int (pos 0)) ≡ true
      → requires_market_price text cfg ≡ true
      → (place_all text cfg (map (λ i. (false, to_paper i)) is) d).paper.cache.positions
        ≡ d.paper.cache.positions
  unfolding place_all to_paper
  risk_intents_never_fill [] d low market = refl
  risk_intents_never_fill (i ∷ is) d low market =
      risk_intents_never_fill is (place text cfg false (to_paper i) d) low market
      ∙ place_unpriced (to_paper i) false d low market

  -- After an approved long entry the risk engine counts an open long position, and the paper engine's
  -- positions are those from before it got the intent. The default price is configured as `market`,
  -- and 0 <= 0.
  pub approved_entry_unfilled :
      (risk : Risk.Config F) (input : Risk.InputDecision F) (c : Risk.Cache) (d : Desk F)
      → not_positive text (n.of_int (pos 0)) ≡ true
      → requires_market_price text cfg ≡ true
      → input.decision ≡ long_entry
      → (process risk input c).1.status ≡ Risk.Status.approved
      → let (c', intent) = process risk input c in
        (position_of c' (key_of input) ≡ Risk.PositionState.long)
        × ((place text cfg false (to_paper intent) d).paper.cache.positions
            ≡ d.paper.cache.positions)
  unfolding to_paper
  approved_entry_unfilled risk input c d low market e h = (
    process_position risk input c (key_of input)
        ∙ rw (h, ==_refl (key_of input), e) (unfold Risk.moved in refl),
    place_unpriced (to_paper (process risk input c).1) false d low market,
  )

  -- An approved, complete event reaches the executor, and the portfolio applies its report.
  place_published :
      (i : Paper.ApprovedTradeIntent F) (d : Desk F)
      → i.status ≡ "APPROVED"
      → is_incomplete i ≡ false
      → text.encodes (execute text cfg i d.paper.cache).1.execution_price ≡ true
      → (place text cfg false i d).portfolio.cache
        ≡ (Portfolio.apply (to_portfolio (execute text cfg i d.paper.cache).1) d.portfolio.cache).0
  unfolding place Paper.handle Paper.publish deliver
  place_published i d s complete k =
      let r = (execute text cfg i d.paper.cache).1 in
      let (settles, answers) = execute-Settles text cfg i d.paper.cache in
      let same : (i.status == "APPROVED") ≡ true = (==_iff i.status "APPROVED").1 s in
      rw (complete, same, k)
        (handle-apply text.encodes (to_portfolio r) d.portfolio
          (complete-report text cfg i r answers complete))

  enter-lot :
      (s : Portfolio.Side) (r : Portfolio.InputReport F) (l : Ledger F) (k : SeriesKey)
      → Portfolio.report_key r ≡ k
      → (enter s r l).lot k ≡ some (Portfolio.opened s r).position
  unfolding Portfolio.opened
  enter-lot s r l k e =
      let same : (Portfolio.report_key r == k) ≡ true = (==_iff (Portfolio.report_key r) k).1 e in
      rw same refl

  posted_short :
      (r : Paper.ExecutionReport F) (l : Ledger F)
      → r.status ≡ Paper.ExecutionStatus.filled
      → r.action ≡ short_entry
      → post (to_portfolio r) l ≡ enter Portfolio.Side.short (to_portfolio r) l
  unfolding to_portfolio
  posted_short r l f a = rw (f, a) refl

  -- Turning a position round: a priced short entry, whatever its series holds, is filled, the new
  -- short lot replaces the old one, and the realized profit does not move, so that the gain or loss
  -- of a long lot that stood there is never booked. The event is complete and approved, its price
  -- is above zero and the execution price has an encoding in JSON.
  pub turned_lot_books_nothing :
      (i : Paper.ApprovedTradeIntent F) (d : Desk F)
      → i.action ≡ short_entry
      → i.status ≡ "APPROVED"
      → is_incomplete i ≡ false
      → not_positive text i.reference_price ≡ false
      → text.encodes (execute text cfg i d.paper.cache).1.execution_price ≡ true
      → let c = (place text cfg false i d).portfolio.cache in
        (c.realized_total ≡ d.portfolio.cache.realized_total)
        × (new' : Portfolio.Position F) × (position_at (Paper.intent_key i) c.positions ≡ some new')
        × (new'.side ≡ Portfolio.Side.short)
        × (new'.quantity ≡ i.quantity)
  unfolding view to_portfolio Portfolio.opened
  turned_lot_books_nothing i d a s complete priced k =
      let r = (execute text cfg i d.paper.cache).1 in
      let (settles, answers) = execute-Settles text cfg i d.paper.cache in
      let (filled, price) = execute_priced text cfg i d.paper.cache priced in
      let spec : view (place text cfg false i d).portfolio.cache
          ≡ enter Portfolio.Side.short (to_portfolio r) (view d.portfolio.cache) =
        ap view (place_published i d s complete k)
        ∙ apply-post (to_portfolio r) d.portfolio.cache
        ∙ posted_short r (view d.portfolio.cache) filled (answers.1 ∙ a) in
      (
        ap (λ (l : Ledger F). l.realized) spec,
        (Portfolio.opened Portfolio.Side.short (to_portfolio r)).position,
        ap (λ (l : Ledger F). l.lot (Paper.intent_key i)) spec
            ∙ enter-lot Portfolio.Side.short (to_portfolio r) (view d.portfolio.cache)
                (Paper.intent_key i) answers.0,
        refl,
        answers.2,
      )
