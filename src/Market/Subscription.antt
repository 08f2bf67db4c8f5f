-- ===== src/Market/Subscription.antt =====
-- The subscription manager: internal/market/subscription/manager.go.
-- A provider's `Subscribe` and `Unsubscribe` are functions that say whether a call fails; `sort`
-- stands for `sort.Strings`. The set of desired symbols is a list without repetitions.
pub mod Batches
use option_engine.Common.{
  ℕ, zero, suc, ◌+◌, ◌-◌, Bool, true, false, ◌&&◌, ◌||◌, String, Option, none, some, List, [], ◌∷◌,
  ◌++◌, leb, nat_beq, ◌==◌, string_eq, if◌then◌else◌, length, take, drop,
}
use option_engine.Common.Int.{ℤ, pos, pos_part, ltb_ℤ}

pub record Provider : Type 0 where
  pub subscribe_fails : List String → Bool
  pub unsubscribe_fails : List String → Bool

pub record Manager : Type 0 where
  pub provider : Provider
  pub desired : List String
  pub batch : ℕ

unfoldable pub new_manager : Provider → ℤ → Manager
new_manager p batch = record {
  provider = p;
  desired = [];
  batch = if ltb_ℤ batch (pos 1) then 1 else pos_part batch;
}

abbrev pub member : String → List String → Bool
member s [] = false
member s (x ∷ xs) = x == s || member s xs

-- `m.desired[s] = struct{}{}`, unless the symbol is empty.
unfoldable pub want : List String → List String → List String
want [] desired = desired
want (s ∷ ss) desired = want ss (if s == "" || member s desired then desired else desired ++ s ∷ [])

abbrev pub without : String → List String → List String
without s [] = []
without s (x ∷ xs) = if x == s then without s xs else x ∷ without s xs

unfoldable pub unwant : List String → List String → List String
unwant [] desired = desired
unwant (s ∷ ss) desired = unwant ss (without s desired)

-- The loop of `call`: the batches that were sent, the one that failed included, and whether none
-- failed. A round sends `ss[i:e]`, of which what is left of `ss` is here the argument; the fuel is
-- the number of rounds allowed.
unfoldable pub call_loop : ℕ → (List String → Bool) → ℕ → List String → List (List String) × Bool
call_loop zero fails batch ss = ([], true)
call_loop (suc f) fails batch [] = ([], true)
call_loop (suc f) fails batch (s ∷ ss) =
    let here = take batch (s ∷ ss) in
    let (sent, ok) = call_loop f fails batch (drop batch (s ∷ ss)) in
    if fails here then (here ∷ [], false) else (here ∷ sent, ok)

-- A batch holds at least one symbol, so that there are at most as many rounds as symbols.
unfoldable pub call : (List String → Bool) → ℕ → List String → List (List String) × Bool
call fails batch ss = call_loop (length ss) fails batch ss

unfoldable pub subscribe : List String → Manager → Manager × (List (List String) × Bool)
subscribe symbols m =
    (record m { desired = want symbols m.desired }, call m.provider.subscribe_fails m.batch symbols)

unfoldable pub unsubscribe : List String → Manager → Manager × (List (List String) × Bool)
unsubscribe symbols m = (
  record m { desired = unwant symbols m.desired },
  call m.provider.unsubscribe_fails m.batch symbols,
)

unfoldable pub recover :
    (List String → List String) → Provider → Manager → Manager × (List (List String) × Bool)
recover sort p m = (record m { provider = p }, call p.subscribe_fails m.batch (sort m.desired))

unfoldable pub symbols_of : (List String → List String) → Manager → List String
symbols_of sort m = sort m.desired
