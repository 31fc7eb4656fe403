-- ===== src/Dedup/Shared.antt =====
-- The dedupers of internal/infra/rabbitmq/deduper.go that several instances share, and that are made of
-- others.
use Prim.Native.String.{◌++◌ as join}
use ops_captain.Base.{
  ℕ, ◌/◌, String, Bool, true, false, ◌||◌, not, Option, none, some, List, [], ◌∷◌, ◌==◌, str_eq,
  if◌then◌else◌,
}
use ops_captain.Base.Int.{ℤ, pos, leb_ℤ, pos_part}

-- What `SET key 1 NX EX ttl` answers: an error, nil, or OK.
pub data NxReply : Type 0 where
  nx_error nx_nil nx_ok : NxReply

-- The Redis server, with the states `S` it can be in: the two commands, and whether a key is set.
pub record Redis (S : Type 0) : Type 0 where
  pub set_nx : S → String → ℕ → S × NxReply
  pub del : S → String → S
  pub held : S → String → Bool

-- `connected` says that the client is not nil.
pub record RedisDeduper : Type 0 where
  pub connected : Bool
  pub prefix : String
  pub ttl : ℕ

unfoldable pub new_redis_deduper : Bool → String → ℤ → RedisDeduper
new_redis_deduper connected prefix ttl = record {
  connected = connected;
  prefix = if str_eq prefix "" then "opscaption:dedup:" else prefix;
  ttl = if leb_ℤ ttl (pos 0) then 600000000000 else pos_part ttl;
}

-- The expiry in whole seconds, and at least one.
abbrev pub expiry_of : RedisDeduper → ℕ
expiry_of d = let seconds = d.ttl / 1000000000 in if seconds == 0 then 1 else seconds

module _ {S : Type 0} (r : Redis S) (trim_space : String → String) where
  answer : S × NxReply → S × Bool
  answer (s, nx_error) = (s, true)
  answer (s, nx_nil) = (s, false)
  answer (s, nx_ok) = (s, true)

  -- `RedisDeduper.Claim`
  unfoldable pub redis_claim : RedisDeduper → S → String → S × Bool
  unfolding answer
  redis_claim d s key =
      let trimmed = trim_space key in
      if not d.connected || str_eq trimmed ""
      then (s, true)
      else answer (r.set_nx s (join d.prefix trimmed) (expiry_of d))

  -- `RedisDeduper.Release`
  unfoldable pub redis_release : RedisDeduper → S → String → S
  redis_release d s key =
      if not d.connected || str_eq (trim_space key) "" then s else r.del s (join d.prefix key)

-- A deduper as an interface, over the state `S` of all of them; `release` is none if it has no such
-- method.
pub record Deduper (S : Type 0) : Type 0 where
  pub claim : S → String → S × Bool
  pub release : Option (S → String → S)

module _ {S : Type 0} where
  -- `CompositeDeduper.Claim`; a part that is nil is passed over.
  unfoldable pub claim_parts : List (Option (Deduper S)) → S → String → S × Bool
  claim_parts [] s key = (s, true)
  claim_parts (none ∷ parts) s key = claim_parts parts s key
  claim_parts (some p ∷ parts) s key =
      let (t, granted) = p.claim s key in
      elim granted [ true ↦ claim_parts parts t key | false ↦ (t, false) ]

  -- `CompositeDeduper.Release`
  unfoldable pub release_parts : List (Option (Deduper S)) → S → String → S
  release_parts [] s key = s
  release_parts (none ∷ parts) s key = release_parts parts s key
  release_parts (some p ∷ parts) s key = elim p.release [
    | none ↦ release_parts parts s key
    | some release ↦ release_parts parts (release s key) key
  ]
