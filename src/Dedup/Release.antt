-- ===== src/Dedup/Release.antt =====
-- What the shared and composite dedupers of internal/infra/rabbitmq/deduper.go hold on to.
use Prim.Native.String.{◌++◌ as join}
use ops_captain.Base.{
  ℕ, ◌≡◌, ◌↔◌, refl, ◌≢◌, String, true, false, not, Option, none, some, List, [], ◌∷◌, arith,
  str_eq, if◌then◌else◌, Bool-cases, inl, inr, eq_iff, prefixed,
}
use ops_captain.Dedup.Shared.{
  nx_ok, Redis, RedisDeduper, expiry_of, redis_claim, redis_release, Deduper, claim_parts,
}

-- What Redis documents of the two commands: `SET NX` on a key that is set answers nil or an error, and
-- changes nothing; answering OK it sets the key; `DEL` unsets its key and no other.
pub record IsRedis {S : Type 0} (r : Redis S) : Type 0 where
  pub set_once : (s : S) (k : String) (n : ℕ) → r.held s k ≡ true → (r.set_nx s k n).1 ≢ nx_ok
  pub set_sets :
      (s : S) (k : String) (n : ℕ) → (r.set_nx s k n).1 ≡ nx_ok → r.held (r.set_nx s k n).0 k ≡ true
  pub del_only :
      (s : S) (k j : String) → r.held (r.del s k) j ≡ (if str_eq k j then false else r.held s j)

-- On a connected deduper, after a claim that Redis answers with OK and a release under the same key, the
-- claim is still held exactly if trimming changes the key.
pub redis_release-untrimmed :
    {S : Type 0} (r : Redis S) (trim_space : String → String) (d : RedisDeduper) (s : S)
    (key : String)
    → IsRedis r
    → d.connected ≡ true
    → trim_space key ≢ ""
    → (r.set_nx s (join d.prefix (trim_space key)) (expiry_of d)).1 ≡ nx_ok
    → r.held
        (redis_release r trim_space d (redis_claim r trim_space d s key).0 key)
        (join d.prefix (trim_space key))
      ≡ not (str_eq key (trim_space key))
unfolding redis_release redis_claim
redis_release-untrimmed r trim_space d s key laws up named ok =
    let full = join d.prefix (trim_space key) in
    let after = (r.set_nx s full (expiry_of d)).0 in
    ground (
      arith,
      ok,
      up,
      eq_iff (trim_space key) "",
      laws.set_sets s full (expiry_of d) ok,
      laws.del_only after (join d.prefix key) full,
      prefixed d.prefix key (trim_space key),
    )

-- The parts that are there granted the claim one after another, each on the state that the one before
-- it left.
abbrev pub AllGrant : {S : Type 0} → List (Option (Deduper S)) → S → String → Type 0
AllGrant [] s key = Unit
AllGrant (none ∷ parts) s key = AllGrant parts s key
AllGrant (some p ∷ parts) s key = ((p.claim s key).1 ≡ true) × AllGrant parts (p.claim s key).0 key

-- A composite deduper grants a claim exactly if every part that is there grants it.
pub claim_parts-AllGrant :
    {S : Type 0} (parts : List (Option (Deduper S))) (s : S) (key : String)
    → ((claim_parts parts s key).1 ≡ true) ↔ AllGrant parts s key
unfolding claim_parts
claim_parts-AllGrant [] s key = (λ h. tt, λ a. refl)
claim_parts-AllGrant (none ∷ parts) s key = claim_parts-AllGrant parts s key
claim_parts-AllGrant (some p ∷ parts) s key =
    let rest = claim_parts-AllGrant parts (p.claim s key).0 key in
    elim (Bool-cases (p.claim s key).1) [
      | inl e ↦ rw (e, claim_parts) (λ h. (refl, rest.0 h), λ a. rest.1 a.1)
      | inr e ↦ rw (e, claim_parts) (λ h. cc h, λ a. cc (a.0))
    ]
