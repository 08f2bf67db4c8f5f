-- ===== src/Pipeline/Agreement.antt =====
-- The paper engine and the portfolio keep their own positions; they keep the same ones.
use mathlib.Core.Bool.{false≢true}
use option_engine.Common.{
  ◌≡◌, refl, sym, ap, ◌∙◌, Bool, true, false, ◌&&◌, Option, none, some, List, [], ◌∷◌, arith, ◌==◌,
  string_eq, if◌then◌else◌,
}
use option_engine.Common.Int.{ℤ}
use option_engine.Common.Dict.{get}
use option_engine.Common.Float.{Float}
use option_engine.Domain.{
  Action, long_entry, short_entry, long_exit, short_exit, SeriesKey, series_key_eq,
}
use option_engine.Paper
use option_engine.Paper.{Text, execute, is_incomplete, is_filled, report_key}
use option_engine.Paper.Orders.{handle_cases}
use option_engine.Paper.Positions.{settled, Answers, execute-Settles}
use option_engine.Portfolio
use option_engine.Portfolio.{position_at}
use option_engine.Portfolio.Ledger.{Ledger, view, post, post_action, apply-post}
use option_engine.Pipeline.{
  to_portfolio, report_status_text, Desk, deliver, place, place_all, new_desk,
}

-- What the two engines say of a series in common.
pub record Lot (F : Type 0) : Type 0 where
  pub side : Portfolio.Side
  pub quantity : ℤ
  pub price : F

abbrev side_of : Paper.PositionSide → Option Portfolio.Side
side_of Paper.PositionSide.flat = none
side_of Paper.PositionSide.long = some Portfolio.Side.long
side_of Paper.PositionSide.short = some Portfolio.Side.short

module _ {F : Type 0} where
  abbrev pub paper_lot : Option (Paper.Position F) → Option (Lot F)
  paper_lot none = none
  paper_lot (some p) = elim (side_of p.side) [
    | none ↦ none
    | some s ↦ some (record { side = s; quantity = p.quantity; price = p.entry_price })
  ]

  abbrev pub portfolio_lot : Option (Portfolio.Position F) → Option (Lot F)
  portfolio_lot none = none
  portfolio_lot (some p) =
      some (record { side = p.side; quantity = p.quantity; price = p.average_price })

  -- The same side, quantity and price in every series, or no position in either engine.
  abbrev pub Agree : Desk F → Type 0
  Agree d =
      (j : SeriesKey)
      → paper_lot (get j d.paper.cache.positions)
        ≡ portfolio_lot (position_at j d.portfolio.cache.positions)

module _ {F : Type 0} ⦃n : Float F⦄ where
  settled-post :
      (s : Paper.ExecutionStatus) (a : Action) (r : Paper.ExecutionReport F)
      (p : Option (Paper.Position F)) (l : Ledger F) (j : SeriesKey)
      → paper_lot p ≡ portfolio_lot (l.lot j)
      → paper_lot (if is_filled s && report_key r == j then settled a r p else p)
        ≡ portfolio_lot (
            (if report_status_text s == "FILLED" then post_action a (to_portfolio r) l else l).lot
              j)
  unfolding to_portfolio Portfolio.opened Paper.opened
  settled-post Paper.ExecutionStatus.rejected a r p l j h = h
  settled-post Paper.ExecutionStatus.filled long_entry r p l j h = ground arith
  settled-post Paper.ExecutionStatus.filled short_entry r p l j h = ground arith
  settled-post Paper.ExecutionStatus.filled long_exit r p l j h = ground arith
  settled-post Paper.ExecutionStatus.filled short_exit r p l j h = ground arith
  settled-post Paper.ExecutionStatus.filled _ r p l j h = ground arith

  -- The portfolio's lot after a report, by its specification.
  pub lot-apply :
      (r : Portfolio.InputReport F) (c : Portfolio.Cache F) (j : SeriesKey)
      → position_at j (Portfolio.apply r c).0.positions ≡ (post r (view c)).lot j
  unfolding view
  lot-apply r c j = ap (λ (l : Ledger F). l.lot j) (apply-post r c)

  -- A complete report reaches the portfolio's cache.
  pub handle-apply :
      (encodes : F → Bool) (r : Portfolio.InputReport F) (e : Portfolio.Engine F)
      → Portfolio.is_incomplete r ≡ false
      → (Portfolio.handle encodes r e).0.cache ≡ (Portfolio.apply r e.cache).0
  unfolding Portfolio.handle Portfolio.apply
  handle-apply encodes r e h = ground (arith, h)

module _ {F : Type 0} ⦃n : Float F⦄ (text : Text F) (cfg : Paper.Config F) where
  -- The report of this event, if it is executed, has a price that JSON can carry.
  abbrev pub Encodes : Paper.ApprovedTradeIntent F → Desk F → Type 0
  Encodes i d = text.encodes (execute text cfg i d.paper.cache).1.execution_price ≡ true

  pub complete-report :
      (i : Paper.ApprovedTradeIntent F) (r : Paper.ExecutionReport F)
      → Answers i r
      → is_incomplete i ≡ false
      → Portfolio.is_incomplete (to_portfolio r) ≡ false
  unfolding to_portfolio
  complete-report i r a h =
      let key : (r.symbol ≡ i.symbol) × (r.timeframe ≡ i.timeframe) =
        (ap (λ (k : SeriesKey). k.symbol) a.0, ap (λ (k : SeriesKey). k.timeframe) a.0) in
      rw (key.0, key.1, a.1) h

  published-Agree :
      (i : Paper.ApprovedTradeIntent F) (d : Desk F)
      → is_incomplete i ≡ false
      → Agree d
      → let (c, r) = execute text cfg i d.paper.cache in
        (h : Paper.Health)
        → Agree (record {
          paper = record { cache = c; health = h };
          portfolio = deliver text (some r) d.portfolio;
        })
  unfolding deliver
  published-Agree i d complete v h j =
      let (c, r) = execute text cfg i d.paper.cache in
      let (settles, answers) = execute-Settles text cfg i d.paper.cache in
      let out = to_portfolio r in
      let reached =
        handle-apply text.encodes out d.portfolio (complete-report i r answers complete) in
      let spec = lot-apply out d.portfolio.cache j in
      ap paper_lot (settles j)
      ∙ settled-post r.status r.action r (get j d.paper.cache.positions) (view d.portfolio.cache) j
          (unfold view in v j)
      ∙ sym (
          ap portfolio_lot (
            ap (λ (x : Portfolio.Cache F). position_at j x.positions) reached
            ∙ spec
            ∙ unfold to_portfolio in refl))

  place-Agree :
      (cancelled : Bool) (i : Paper.ApprovedTradeIntent F) (d : Desk F)
      → Encodes i d
      → Agree d
      → Agree (place text cfg cancelled i d)
  unfolding place
  place-Agree cancelled i d k v =
      handle_cases text cfg i cancelled d.paper
        (λ o. Agree (record { paper = o.0; portfolio = deliver text o.1 d.portfolio }))
        (unfold deliver in v)
        (λ complete _.
          published-Agree i d complete v
            (Paper.record_health d.paper.health (execute text cfg i d.paper.cache).1))
        (λ no'. absurd (false≢true (sym no' ∙ k)))

  -- Every event of the session that is executed has a price that JSON can carry.
  abbrev pub AllEncode : List (Bool × Paper.ApprovedTradeIntent F) → Desk F → Type 0
  AllEncode [] d = Unit {0}
  AllEncode ((cancelled, i) ∷ is) d = Encodes i d × AllEncode is (place text cfg cancelled i d)

  place_all-Agree :
      (is : List (Bool × Paper.ApprovedTradeIntent F)) (d : Desk F)
      → AllEncode is d
      → Agree d
      → Agree (place_all text cfg is d)
  unfolding place_all
  place_all-Agree [] d k v = v
  place_all-Agree ((cancelled, i) ∷ is) d k v =
      place_all-Agree is (place text cfg cancelled i d) k.1 (place-Agree cancelled i d k.0 v)

-- Whatever intents a session brings, with whatever actions and prices, filled or refused: the paper
-- engine and the portfolio that follows its reports end with the same side, quantity and entry price
-- in every series, or both with none. Each report is delivered, and no price is NaN or infinite.
pub session-Agree :
    {F : Type 0} ⦃n : Float F⦄ (text : Text F) (cfg : Paper.Config F)
    (is : List (Bool × Paper.ApprovedTradeIntent F))
    → AllEncode text cfg is new_desk
    → Agree (place_all text cfg is new_desk)
unfolding new_desk Paper.new_engine Paper.new_cache Portfolio.new_cache
session-Agree text cfg is k = place_all-Agree text cfg is new_desk k (λ j. unfold get in refl)
