-- ===== src/Portfolio/Ledger.antt =====
-- What the portfolio promises, without its aggregates and logs: one lot for each series, and the
-- profit that was booked when lots were closed (cache.go, `Apply`).
use mathlib.Core.Path.{fun_ext}
use option_engine.Common.{
  ◌≡◌, refl, ap, ◌∙◌, inl, inr, Option, none, some, List, [], ◌∷◌, ◌++◌, arith, ◌==◌, ==_iff,
  string_eq, if◌then◌else◌, Bool-cases, Option-cases,
}
use option_engine.Common.Dict.{Dict, get, put, remove, get-put, get-remove}
use option_engine.Common.Int.{ℤ, pos, leb_ℤ}
use option_engine.Common.Float.{Float}
use option_engine.Domain.{
  Action, long_entry, short_entry, long_exit, short_exit, SeriesKey, series_key_eq,
}
use option_engine.Portfolio.{
  Side, long, short, Position, PositionState, InputReport, Cache, report_key, opened, position_at,
  realized_pnl, signed_quantity, recompute_aggregates, close, switch_action, apply,
  trade_from_report,
}

pub record Ledger (F : Type 0) : Type 0 where
  pub lot : SeriesKey → Option (Position F)
  pub realized : F

unfoldable pub view : {F : Type 0} → Cache F → Ledger F
view c = record { lot = λ j. position_at j c.positions; realized = c.realized_total }

abbrev pub set_lot :
    {F : Type 0}
    → SeriesKey
    → Option (Position F)
    → (SeriesKey → Option (Position F))
    → SeriesKey
    → Option (Position F)
set_lot k p lots j = if k == j then p else lots j

module _ {F : Type 0} ⦃n : Float F⦄ where
  -- (exit price - entry price) * signed quantity, where a quantity that is not above 0 counts as 0.
  abbrev pub profit : Side → F → F → ℤ → F
  profit side entry_price exit_price quantity = n.mul (n.sub exit_price entry_price) (
      if leb_ℤ quantity (pos 0)
      then n.of_int (pos 0)
      else elim side [ long ↦ n.of_int quantity | short ↦ n.neg (n.of_int quantity) ])

  -- The profit of closing a lot at a price; there is none to book where there is no lot.
  abbrev pub booked : InputReport F → Option (Position F) → F → F
  booked r none total = total
  booked r (some p) total = n.add total (profit p.side p.average_price r.execution_price p.quantity)

  abbrev pub enter : Side → InputReport F → Ledger F → Ledger F
  enter side r l = record l {
    lot =
        set_lot (report_key r)
          (some (record {
            symbol = r.symbol;
            timeframe = r.timeframe;
            side = side;
            quantity = r.quantity;
            average_price = r.execution_price;
            entry_time = r.timestamp;
          }))
          l.lot;
  }

  abbrev pub exit : InputReport F → Ledger F → Ledger F
  exit r l = record {
    lot = set_lot (report_key r) none l.lot;
    realized = booked r (l.lot (report_key r)) l.realized;
  }

  abbrev pub post_action : Action → InputReport F → Ledger F → Ledger F
  post_action long_entry r l = enter long r l
  post_action short_entry r l = enter short r l
  post_action long_exit r l = exit r l
  post_action short_exit r l = exit r l
  post_action _ r l = l

  -- The specification of one report.
  abbrev pub post : InputReport F → Ledger F → Ledger F
  post r l = if r.status == "FILLED" then post_action r.action r l else l

  abbrev pub post_all : List (InputReport F) → Ledger F → Ledger F
  post_all [] l = l
  post_all (r ∷ rs) l = post_all rs (post r l)

  unfoldable pub apply_all : List (InputReport F) → Cache F → Cache F
  apply_all [] c = c
  apply_all (r ∷ rs) c = apply_all rs (apply r c).0

  position_at-put :
      (k j : SeriesKey) (s : PositionState F) (m : Dict SeriesKey (PositionState F))
      → position_at j (put k s m) ≡ (if k == j then some s.position else position_at j m)
  position_at-put k j s m = ground (arith, get-put k j s m)

  position_at-remove :
      (k j : SeriesKey) (m : Dict SeriesKey (PositionState F))
      → position_at j (remove k m) ≡ (if k == j then none else position_at j m)
  position_at-remove k j m = ground (arith, get-remove k j m)

  Ledger-path :
      (l m : Ledger F) → ((j : SeriesKey) → l.lot j ≡ m.lot j) → l.realized ≡ m.realized → l ≡ m
  Ledger-path l m h e = λ i. record { lot = fun_ext h i; realized = e i }

  exit-close :
      (r : InputReport F) (c : Cache F)
      → ((j : SeriesKey)
          → position_at j (close r c).positions
            ≡ (if report_key r == j then none else position_at j c.positions))
        × ((close r c).realized_total
            ≡ booked r (position_at (report_key r) c.positions) c.realized_total)
  unfolding close realized_pnl signed_quantity
  exit-close r c =
      let k = report_key r in
      elim (Option-cases (get k c.positions)) [
        | inl e ↦ (λ j. ground (arith, e, ==_iff k j), ground (arith, e))
        | inr (s, e) ↦ rw (e, close) (λ j. position_at-remove k j c.positions, ground (arith, e))
      ]

  -- What the chosen branch of the `switch` leaves, once the aggregates are recomputed.
  abbrev switched : Action → InputReport F → Cache F → Cache F
  switched a r c = elim (switch_action a r c) [ none ↦ c | some m ↦ recompute_aggregates m ]

  view-switched :
      (a : Action) (r : InputReport F) (c : Cache F)
      → view (switched a r c) ≡ post_action a r (view c)
  unfolding view switch_action recompute_aggregates opened
  view-switched long_entry r c =
      Ledger-path _ _ (λ j. position_at-put (report_key r) j (opened long r) c.positions) refl
  view-switched short_entry r c =
      Ledger-path _ _ (λ j. position_at-put (report_key r) j (opened short r) c.positions) refl
  view-switched long_exit r c = let (l, e) = exit-close r c in Ledger-path _ _ l e
  view-switched short_exit r c = let (l, e) = exit-close r c in Ledger-path _ _ l e
  view-switched _ r c = refl

  seen : InputReport F → Cache F → Cache F
  seen r c = record c {
    trades = c.trades ++ trade_from_report r ∷ [];
    reference_price = put r.symbol r.execution_price c.reference_price;
  }

  apply-switched :
      (r : InputReport F) (c : Cache F)
      → (apply r c).0 ≡ (if r.status == "FILLED" then switched r.action r (seen r c) else c)
  unfolding apply seen
  apply-switched r c = elim (Bool-cases (r.status == "FILLED")) [
    | inr f ↦ rw (f, apply) refl
    | inl f ↦
        rw (f, apply)
          (elim (Option-cases (switch_action r.action r (seen r c))) [
            | inl e ↦ ground (arith, e)
            | inr (m, e) ↦ ground (arith, e)
          ])
  ]

  -- One report does to the portfolio what the specification says.
  pub apply-post : (r : InputReport F) (c : Cache F) → view (apply r c).0 ≡ post r (view c)
  apply-post r c = rw (apply-switched r c) (elim (Bool-cases (r.status == "FILLED")) [
    | inl f ↦ rw f (view-switched r.action r (seen r c) ∙ unfold view seen in refl)
    | inr f ↦ rw f refl
  ])

-- Any list of reports leaves the portfolio with the lots and the booked profit of the
-- specification: an entry replaces its series' lot by that of the report and books nothing, an exit
-- removes it and books (exit price - entry price) * signed quantity, where a quantity that is not
-- above 0 counts as 0, and all other reports leave both alone.
pub view-apply_all :
    {F : Type 0} ⦃n : Float F⦄ (rs : List (InputReport F)) (c : Cache F)
    → view (apply_all rs c) ≡ post_all rs (view c)
unfolding apply_all
view-apply_all [] c = refl
view-apply_all (r ∷ rs) c = view-apply_all rs (apply r c).0 ∙ ap (post_all rs) (apply-post r c)
