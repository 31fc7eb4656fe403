-- ===== src/Dedup/TtlSet.antt =====
-- The set with expiring entries of internal/infra/rabbitmq/ttl_set.go, and its use as a deduper in
-- internal/infra/rabbitmq/deduper.go. Each method holds the mutex; the time is an argument.
use ops_captain.Base.{
  ℕ, ◌+◌, String, Bool, true, false, ◌&&◌, not, Option, none, some, [], ◌∷◌, ltb, leb, str_eq,
  if◌then◌else◌, length, keep,
}
use ops_captain.Base.Dict.{Dict, lookup, insert, erase}

-- The expiry of each key.
pub record TtlSet : Type 0 where
  pub items : Dict ℕ
  pub ttl : ℕ
  pub max_entries : ℕ

unfoldable pub new_ttl_set : ℕ → ℕ → TtlSet
new_ttl_set ttl max_entries = record { items = []; ttl = ttl; max_entries = max_entries }

-- `pruneExpiredLocked`: what `now` is after goes.
unfoldable pub prune_expired : TtlSet → ℕ → TtlSet
prune_expired s now = record s { items = keep (λ e. not (ltb e.1 now)) s.items }

unfoldable pub has : TtlSet → String → ℕ → TtlSet × Bool
has s key now =
    let pruned = prune_expired s now in
    elim (lookup key pruned.items) [
      | none ↦ (pruned, false)
      | some expire_at ↦
          if ltb expire_at now
          then (record pruned { items = erase key pruned.items }, false)
          else (pruned, true)
    ]

-- The first key that the map's order shows.
abbrev drop_any : Dict ℕ → Dict ℕ
drop_any [] = []
drop_any ((k, t) ∷ rest) = erase k rest

-- `blank` says that the key is empty once trimmed.
unfoldable pub mark : TtlSet → String → (blank : Bool) → ℕ → TtlSet
mark s key blank now =
    let pruned = prune_expired s now in
    let room =
      if leb pruned.max_entries (length pruned.items)
      then drop_any pruned.items
      else pruned.items in
    if blank then s else record pruned { items = insert key (now + s.ttl) room }

-- The oldest key so far and its expiry, if any was seen.
unfoldable pub oldest : Option (String × ℕ) → Dict ℕ → Option (String × ℕ)
oldest best [] = best
oldest none ((k, t) ∷ rest) = oldest (some (k, t)) rest
oldest (some (b, u)) ((k, t) ∷ rest) = oldest (some (if ltb t u then (k, t) else (b, u))) rest

-- `evictOldestLocked`; an empty key is not evicted.
unfoldable pub evict_oldest : Dict ℕ → Dict ℕ
unfolding oldest
evict_oldest items = elim (oldest none items) [
  | none ↦ items
  | some (k, t) ↦ if str_eq k "" then items else erase k items
]

-- `TTLSet.Claim`
unfoldable pub claim : TtlSet → String → (blank : Bool) → ℕ → TtlSet × Bool
claim s key blank now =
    let pruned = prune_expired s now in
    let held : Bool = elim (lookup key pruned.items) [ none ↦ false | some t ↦ ltb now t ] in
    let full = ltb 0 pruned.max_entries && leb pruned.max_entries (length pruned.items) in
    let room = if full then evict_oldest pruned.items else pruned.items in
    if blank
    then (s, true)
    else if held
    then (pruned, false)
    else (record pruned { items = insert key (now + s.ttl) room }, true)

-- `TTLSet.Release`
unfoldable pub release : TtlSet → String → (blank : Bool) → TtlSet
release s key blank = if blank then s else record s { items = erase key s.items }
