-- ===== src/Market/Cache.antt =====
-- The latest market state and its read model: internal/market/cache/cache.go and
-- internal/market/snapshot/snapshot.go. Values are copied where the code clones. An option chain is of
-- any type `C`, whose `underlying` is its key.
use option_engine.Common.{String, Option, none, some, List, [], ◌∷◌, string_eq}
use option_engine.Common.Int.{ℤ}
use option_engine.Common.Dict.{Dict, get, put}
use option_engine.Domain.{Instant, Tick}

pub record DepthLevel (F : Type 0) : Type 0 where
  pub price : F
  pub quantity : ℤ

pub record Depth (F : Type 0) : Type 0 where
  pub bids : List (DepthLevel F)
  pub asks : List (DepthLevel F)

pub record Cache (F C : Type 0) : Type 0 where
  pub ticks : Dict String (Tick F)
  pub chains : Dict String C
  pub depths : Dict String (Depth F)

pub record Snapshot (F C : Type 0) : Type 0 where
  pub at : Instant
  pub ticks : Dict String (Tick F)
  pub chains : Dict String C
  pub depths : Dict String (Depth F)

abbrev put_some {ℓ} : {A : Type ℓ} → String → Option A → Dict String A → Dict String A
put_some k none m = m
put_some k (some v) m = put k v m

module _ {F C : Type 0} where
  unfoldable pub new_cache : Cache F C
  new_cache = record { ticks = []; chains = []; depths = [] }

  unfoldable pub put_tick : Tick F → Cache F C → Cache F C
  put_tick t c = record c { ticks = put t.symbol t c.ticks }

  unfoldable pub tick_of : String → Cache F C → Option (Tick F)
  tick_of symbol c = get symbol c.ticks

  unfoldable pub put_chain : (C → String) → C → Cache F C → Cache F C
  put_chain underlying v c = record c { chains = put (underlying v) v c.chains }

  unfoldable pub chain_of : String → Cache F C → Option C
  chain_of symbol c = get symbol c.chains

  unfoldable pub put_depth : String → Depth F → Cache F C → Cache F C
  put_depth symbol d c = record c { depths = put symbol d c.depths }

  unfoldable pub depth_of : String → Cache F C → Option (Depth F)
  depth_of symbol c = get symbol c.depths

  -- The loop over the ticks.
  unfoldable pub snapshot_loop : Dict String (Tick F) → Cache F C → Snapshot F C → Snapshot F C
  snapshot_loop [] c s = s
  snapshot_loop ((symbol, tick) ∷ ticks) c s = snapshot_loop ticks c (record s {
    ticks = put symbol tick s.ticks;
    depths = put_some symbol (depth_of symbol c) s.depths;
    chains = put_some symbol (chain_of symbol c) s.chains;
  })

  -- `snapshot.New`
  unfoldable pub new_snapshot : Instant → Cache F C → Snapshot F C
  new_snapshot at c =
      snapshot_loop c.ticks c (record { at = at; ticks = []; chains = []; depths = [] })
