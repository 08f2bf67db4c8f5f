-- ===== src/Calendar/Days.antt =====
-- Trading days and hours of internal/core/calendar/calendar.go.
use option_engine.Common.{
  ℕ, zero, suc, ◌<◌, ◌≡◌, refl, ◌⊎◌, inl, inr, true, false, not, ◌&&◌, ◌||◌, some, arith, ltb,
  Bool-cases, string_eq,
}
use option_engine.Domain.{Instant}
use option_engine.Calendar.{
  Time, Calendar, holiday, is_weekend, is_holiday, is_trading_day, session_type_for, market_open,
  market_close, is_market_open, next_loop, next_trading_day,
}

module _ (time : Time) (c : Calendar) where
  -- So many days later.
  abbrev pub days_after : ℕ → Instant → Instant
  days_after zero t = t
  days_after (suc n) t = days_after n (time.next_day t)

  -- The first trading day within so many days, or the last of those days if none of them is one.
  abbrev pub IsNext : ℕ → Instant → Instant → Type 0
  IsNext n t d =
      ((k : ℕ) × (k < n)
        × (d ≡ days_after (suc k) t)
        × (is_trading_day time c d ≡ true)
        × ((j : ℕ) → j < k → is_trading_day time c (days_after (suc j) t) ≡ false))
      ⊎ ((d ≡ days_after n t)
          × ((j : ℕ) → j < n → is_trading_day time c (days_after (suc j) t) ≡ false))

  next_loop-IsNext : (n : ℕ) (t : Instant) → IsNext n t (next_loop time c n t)
  unfolding next_loop
  next_loop-IsNext zero t = inr (refl, λ j h. absurd (omega arith))
  next_loop-IsNext (suc n) t = elim (Bool-cases (is_trading_day time c (time.next_day t))) [
    | inl y ↦ rw y (inl (0, omega arith, refl, y, λ j h. absurd (omega arith)))
    | inr m ↦ elim (next_loop-IsNext n (time.next_day t)) [
      | inl (k, l, e, y, before) ↦ rw m (inl (suc k, omega (arith, l), e, y, later t k m before))
      | inr (e, before) ↦ rw m (inr (e, later t n m before))
    ]
  ]
    where
      later :
          (t : Instant) (n : ℕ)
          → is_trading_day time c (time.next_day t) ≡ false
          → ((j : ℕ) → j < n → is_trading_day time c (days_after (suc j) (time.next_day t)) ≡ false)
          → (j : ℕ) → j < suc n
          → is_trading_day time c (days_after (suc j) t) ≡ false
      later t n m before zero h = m
      later t n m before (suc j) h = before j (omega (arith, h))

  -- `NextTradingDay` is the first trading day among the 366 days after, if there is one among them;
  -- else it is the last of those days, on which the exchange is closed.
  pub next_trading_day-IsNext : (t : Instant) → IsNext 366 t (next_trading_day time c t)
  unfolding next_trading_day
  next_trading_day-IsNext t = next_loop-IsNext 366 t

  -- Weekends and holidays have the session of a holiday, even if they are days of Muhurat trading.
  closed_session :
      (t : Instant)
      → is_weekend time c t || is_holiday time c t ≡ true
      → session_type_for time c t ≡ holiday
  unfolding session_type_for is_holiday
  closed_session t h = ground (arith, h)

  -- A day that has an opening time is a trading day.
  opens_trading :
      (t open_at : Instant)
      → market_open time c t ≡ some open_at
      → is_weekend time c t || is_holiday time c t ≡ false
  unfolding market_open
  opens_trading t open_at h = elim (Bool-cases (is_weekend time c t || is_holiday time c t)) [
    | inl y ↦ absurd (ground (arith, rw (market_open, closed_session t y) at h))
    | inr n ↦ n
  ]

  -- A day with an opening and a closing time is neither on a weekend nor a holiday, and on it the market
  -- is open exactly from the opening time to before the closing time.
  pub market_hours :
      (t open_at close_at : Instant)
      → market_open time c t ≡ some open_at
      → market_close time c t ≡ some close_at
      → (is_weekend time c t ≡ false)
        × (is_holiday time c t ≡ false)
        × (is_market_open time c t ≡ (not (ltb t open_at) && ltb t close_at))
  unfolding is_market_open is_trading_day
  market_hours t open_at close_at h k =
      let trading = opens_trading t open_at h in
      (
        ground (arith, trading),
        ground (arith, trading),
        rw (is_market_open, is_trading_day, trading, h, k) refl,
      )
