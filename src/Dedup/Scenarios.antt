-- ===== src/Dedup/Scenarios.antt =====
-- Runs of the set of internal/infra/rabbitmq/ttl_set.go and of the dedupers of deduper.go.
use ops_captain.Base.{
  ◌+◌, ◌≤◌, ◌≡◌, refl, String, Bool, true, false, not, ◌||◌, none, List, [], ◌∷◌, arith, length,
  keep, str_eq, if◌then◌else◌, eq_iff,
}
use ops_captain.Dedup.TtlSet.{TtlSet, claim, prune_expired}
use ops_captain.Base.Dict.{lookup, insert}
use ops_captain.Dedup.Shared.{
  Redis, nx_nil, nx_ok, RedisDeduper, redis_claim, redis_release, Deduper,
}
use ops_captain.Dedup.Release.{IsRedis, redis_release-untrimmed}
use ops_captain.Dedup.Claims.{Request, claims, claim-exclusive, ExpiresBy}

abbrev seen : TtlSet
seen = record { items = ("a", 50) ∷ []; ttl = 100; max_entries = 4 }

abbrev between : List Request
between =
    record { key = "c"; blank = false; at = 20 } ∷ record { key = ""; blank = true; at = 30 } ∷ []

b_granted : (claim seen "b" false 10).1 ≡ true
unfolding claim prune_expired lookup keep
b_granted = refl

b_room :
    length (claim seen "b" false 10).0.items + length between
    ≤ (claim seen "b" false 10).0.max_entries
unfolding claim prune_expired lookup keep insert
b_room = omega arith

claim-exclusive_example :
    (claim (claims (claim seen "b" false 10).0 between) "b" false 60).1 ≡ false
claim-exclusive_example =
    claim-exclusive seen "b" 10 60 between b_granted (ground arith) b_room (omega arith)

a_expires : ExpiresBy "a" 50 seen.items
a_expires = ground arith

abbrev blank_key : String → Bool
blank_key key = str_eq key ""

-- A server that holds keys for ever: its state is the list of the keys that are set.
abbrev holds : List String → String → Bool
holds [] key = false
holds (k ∷ ks) key = str_eq k key || holds ks key

abbrev without : String → List String → List String
without key [] = []
without key (k ∷ ks) = let rest = without key ks in if str_eq k key then rest else k ∷ rest

abbrev server : Redis (List String)
server = record {
  set_nx = λ s key n. if holds s key then (s, nx_nil) else (key ∷ s, nx_ok);
  del = λ s key. without key s;
  held = holds;
}

holds-without :
    (s : List String) (k j : String)
    → holds (without k s) j ≡ (if str_eq k j then false else holds s j)
holds-without [] k j = ground arith
holds-without (i ∷ s) k j = ground (arith, holds-without s k j, eq_iff k j, eq_iff i k, eq_iff i j)

server-IsRedis : IsRedis server
server-IsRedis = record {
  set_once = λ s k n h. ground arith;
  set_sets = λ s k n h. ground (arith, eq_iff k k);
  del_only = λ s k j. holds-without s k j;
}

-- Trims one text.
abbrev trim : String → String
trim s = if str_eq s "id " then "id" else s

abbrev deduper : RedisDeduper
deduper = record { connected = true; prefix = "dedup:"; ttl = 5000000000 }

redis_release-untrimmed_example :
    holds
      (redis_release server trim deduper (redis_claim server trim deduper [] "id ").0 "id ")
      "dedup:id"
    ≡ true
redis_release-untrimmed_example =
    redis_release-untrimmed server trim deduper [] "id " server-IsRedis refl (λ h. cc h) refl

abbrev once : Deduper (List String)
once = record { claim = λ s key. (key ∷ s, not (holds s key)); release = none }
