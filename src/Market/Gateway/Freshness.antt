-- ===== src/Market/Gateway/Freshness.antt =====
-- What the cache behind the gateway holds: market/gateway/engine.go with the validator, the normalizer
-- and the cache.
use option_engine.Common.{
  ◌≤◌, ◌≡◌, refl, sym, ap, ◌∙◌, inl, inr, true, false, String, Option, none, some, List, [], ◌∷◌,
  arith, ◌==◌, ==_iff, string_eq, Bool-cases, Option-cases, if◌then◌else◌,
}
use mathlib.Core.Option.{some-injective}
use option_engine.Common.Dict.{get, put, get-put}
use option_engine.Common.Float.{Float}
use option_engine.Domain.{Instant, Tick}
use option_engine.Market.Cache.{Cache, new_cache, put_tick}
use option_engine.Market.Validator.{Config, Validator, new_validator, check_tick, check_order}
use option_engine.Market.Validator.Order.{
  IsClean, check_tick-IsClean, check_order-after, validate_cases,
}
use option_engine.Market.Registry.{Registry}
use option_engine.Market.EventBus.{Bus}
use option_engine.Market.Gateway.{
  Text, Event, Engine, canonical, payload_of, publish_event, cache_tick, normalize, deliver, admit,
  new_gateway, handle, handle_all,
}

module _ {F C : Type 0} ⦃n : Float F⦄ where
  abbrev pub cached : String → Option (Cache F C) → Option (Tick F)
  cached s none = none
  cached s (some c) = get s c.ticks

  -- A validator and a cache that hold the same ticks, each under its symbol and clean.
  pub record IsFresh (vo : Option (Validator F)) (co : Option (Cache F C)) : Type 0 where
    pub validator : Validator F
    pub cache : Cache F C
    pub has_validator : vo ≡ some validator
    pub has_cache : co ≡ some cache
    pub same : (s : String) → get s cache.ticks ≡ get s validator.last
    pub clean :
        (s : String) (t : Tick F) → get s validator.last ≡ some t → (t.symbol ≡ s) × IsClean t

  -- Every symbol keeps a tick, of the same time or a later one.
  abbrev pub Follows : Option (Cache F C) → Option (Cache F C) → Type 0
  Follows co c1 =
      (s : String) (t : Tick F)
      → cached s co ≡ some t
      → (u : Tick F) × (cached s c1 ≡ some u) × (t.provider_ts ≤ u.provider_ts)

  Follows-refl : (co : Option (Cache F C)) → Follows co co
  Follows-refl co s t h = (t, h, omega arith)

  Follows-trans : (co c1 c2 : Option (Cache F C)) → Follows co c1 → Follows c1 c2 → Follows co c2
  Follows-trans co c1 c2 f g s t h =
      let (u, e, l) = f s t h in let (w, e', l') = g s u e in (w, e', omega (arith, l, l'))

  -- An accepted tick goes into both.
  accept-IsFresh :
      (v : Validator F) (c : Cache F C) (t : Tick F) (at : Instant)
      → ((s : String) → get s c.ticks ≡ get s v.last)
      → ((s : String) (t : Tick F) → get s v.last ≡ some t → (t.symbol ≡ s) × IsClean t)
      → check_tick v t at ≡ none
      → check_order (get t.symbol v.last) t ≡ none
      → IsFresh (some (record v { last = put t.symbol t v.last })) (some (put_tick t c))
        × Follows (some c) (some (put_tick t c))
  unfolding put_tick
  accept-IsFresh v c t at same clean fine later = (
    record {
      validator = record v { last = put t.symbol t v.last };
      cache = record c { ticks = put t.symbol t c.ticks };
      has_validator = refl;
      has_cache = refl;
      same = λ s.
          get-put t.symbol s t c.ticks
          ∙ ap (λ o. if t.symbol == s then some t else o) (same s)
          ∙ sym (get-put t.symbol s t v.last);
      clean = λ s u h. elim (Bool-cases (t.symbol == s)) [
        | inl y ↦
            let e : t ≡ u = some-injective t u (rw y at (sym (get-put t.symbol s t v.last) ∙ h)) in
            rw (← e) ((==_iff t.symbol s).0 y, check_tick-IsClean v t at fine)
        | inr k ↦ clean s u (rw k at (sym (get-put t.symbol s t v.last) ∙ h))
      ];
    },
    λ s u h. elim (Bool-cases (t.symbol == s)) [
      | inl y ↦
          let e : t.symbol ≡ s = (==_iff t.symbol s).0 y in
          let before : get t.symbol v.last ≡ some u = rw e (sym (same s) ∙ h) in
          (t, get-put t.symbol s t c.ticks ∙ rw y, check_order-after u t (rw before at later))
      | inr k ↦ (u, get-put t.symbol s t c.ticks ∙ rw k h, omega arith)
    ],
  )

module _ {F C : Type 0} ⦃n : Float F⦄ (text : Text F) where
  -- What an operation leaves of a fresh gateway.
  abbrev Keeps : Engine F C → Engine F C → Type 0
  Keeps g h = IsFresh h.validator h.cache × Follows g.cache h.cache

  publish_event_parts :
      (e : Event F) (g : Engine F C)
      → ((publish_event e g).validator ≡ g.validator) × ((publish_event e g).cache ≡ g.cache)
  publish_event_parts e g = elim (Option-cases g.bus) [
    | inl h ↦ rw h (refl, refl)
    | inr (b, h) ↦ rw h (refl, refl)
  ]

  deliver_parts :
      (e : Event F) (t : Tick F) (g : Engine F C) (c : Cache F C)
      → g.cache ≡ some c
      → ((deliver text e t g).validator ≡ g.validator)
        × ((deliver text e t g).cache ≡ some (put_tick t c))
  unfolding deliver
  deliver_parts e t g c h =
      let g' : Engine F C = record g { cache = some (put_tick t c) } in
      let k : cache_tick t g ≡ g' = rw h in
      elim (Bool-cases (text.encodes t)) [
        | inl y ↦ rw (y, k) (publish_event_parts (record e { body = canonical t }) g')
        | inr m ↦ rw (m, k) (refl, refl)
      ]

  admit-Keeps :
      (e : Event F) (t : Tick F) (at : Instant) (g : Engine F C)
      → IsFresh g.validator g.cache
      → Keeps g (admit text e t at g)
  unfolding admit
  admit-Keeps e t at g i =
      rw (i.has_validator, admit)
        (validate_cases i.validator t at
          (λ o.
            let h = record g { validator = some o.0 } in
            Keeps g (elim o.1 [ none ↦ deliver text e t h | some code ↦ h ]))
          (λ code. (
            record {
              validator = i.validator;
              cache = i.cache;
              has_validator = refl;
              has_cache = i.has_cache;
              same = i.same;
              clean = i.clean;
            },
            Follows-refl g.cache,
          ))
          (λ fine later.
            let v = record i.validator { last = put t.symbol t i.validator.last } in
            let h : Engine F C = record g { validator = some v } in
            let parts = deliver_parts e t h i.cache i.has_cache in
            rw (parts.0, parts.1, i.has_cache)
              (accept-IsFresh i.validator i.cache t at i.same i.clean fine later)))

  handle-Keeps :
      (e : Event F) (now at : Instant) (g : Engine F C)
      → IsFresh g.validator g.cache
      → Keeps g (handle text e now at g)
  unfolding handle
  handle-Keeps e now at g i =
      let unchanged : Keeps g g = (i, Follows-refl g.cache) in
      elim (Bool-cases e.is_market_data) [
        | inr k ↦
            let p = publish_event_parts (record e { is_market_data = false }) g in
            rw (k, p.0, p.1) unchanged
        | inl y ↦ elim (Option-cases (payload_of e.body)) [
          | inl o ↦ rw (y, o) unchanged
          | inr (p, o) ↦ elim (Bool-cases g.has_normalizer) [
            | inr k ↦ rw (y, o, k) unchanged
            | inl k ↦ elim (Option-cases (normalize text p now)) [
              | inl m ↦ rw (y, o, k, m) unchanged
              | inr (t, m) ↦ rw (y, o, k, m) (admit-Keeps e t at g i)
            ]
          ]
        ]
      ]

  handle_all-Keeps :
      (es : List (Event F × Instant × Instant)) (g : Engine F C)
      → IsFresh g.validator g.cache
      → Keeps g (handle_all text es g)
  unfolding handle_all
  handle_all-Keeps [] g i = (i, Follows-refl g.cache)
  handle_all-Keeps ((e, now, at) ∷ es) g i =
      let first = handle-Keeps e now at g i in
      let rest = handle_all-Keeps es (handle text e now at g) first.0 in
      (rest.0, Follows-trans g.cache _ _ first.1 rest.1)

module _ {F : Type 0} (C : Type 0) ⦃n : Float F⦄ (text : Text F) where
  -- A new gateway with all its parts, of which only the bus has been used.
  abbrev pub start : Config → Option (Registry F) → Bus (Event F) → Engine F C
  start cfg symbols bus =
      new_gateway (some new_cache) (some bus) (some (new_validator cfg symbols)) true

  start-IsFresh :
      (cfg : Config) (symbols : Option (Registry F)) (bus : Bus (Event F))
      → IsFresh (start cfg symbols bus).validator (start cfg symbols bus).cache
  unfolding new_gateway new_validator new_cache get
  start-IsFresh cfg symbols bus = record {
    validator = new_validator cfg symbols;
    cache = new_cache;
    has_validator = refl;
    has_cache = refl;
    same = λ s. refl;
    clean = λ s t h. cc;
  }

  -- Whatever events a new gateway handles that has all its parts: under a symbol the cache holds a
  -- tick of that symbol without prices or quantities below zero, and any further events leave a tick
  -- under it whose time is the same or later.
  pub gateway_fresh :
      (cfg : Config) (symbols : Option (Registry F)) (bus : Bus (Event F))
      (es fs : List (Event F × Instant × Instant)) (s : String) (t : Tick F)
      → cached s (handle_all text es (start cfg symbols bus)).cache ≡ some t
      → (t.symbol ≡ s)
        × IsClean t
        × ((u : Tick F) × (cached s
                (handle_all text fs (handle_all text es (start cfg symbols bus))).cache
              ≡ some u)
            × (t.provider_ts ≤ u.provider_ts))
  gateway_fresh cfg symbols bus es fs s t h =
      let g = handle_all text es (start cfg symbols bus) in
      let i =
        (handle_all-Keeps text es (start cfg symbols bus) (start-IsFresh cfg symbols bus)).0 in
      let later = (handle_all-Keeps text fs g i).1 s t h in
      let held : get s i.cache.ticks ≡ some t = rw i.has_cache at h in
      let c = i.clean s t (sym (i.same s) ∙ held) in (c.0, c.1, later)
