-- ===== src/Dedup/Claims.antt =====
-- When a claim on the set of internal/infra/rabbitmq/ttl_set.go is granted, and how large it grows.
use ops_captain.Base.{
  ℕ, suc, ◌+◌, ◌≤◌, ◌<◌, ◌≡◌, refl, inl, inr, String, Bool, true, false, not, none, some, List, [],
  ◌∷◌, arith, ltb, length, keep, length-keep-le, Bool-cases, Option-cases, eq_iff,
}
use ops_captain.Base.Dict.{
  Dict, lookup, erase, lookup-insert, lookup-insert_self, length-insert, lookup-erase, AllEntries,
  AllEntries-lookup,
}
use ops_captain.Dedup.TtlSet.{TtlSet, prune_expired, evict_oldest, claim, release}

-- The entries that have not expired.
abbrev pub alive : ℕ → Dict ℕ → Dict ℕ
alive now = keep (λ e. not (ltb e.1 now))

-- Pruning keeps a key whose expiry has not passed.
lookup-alive :
    (now t : ℕ) (key : String) (m : Dict ℕ)
    → lookup key m ≡ some t
    → now ≤ t
    → lookup key (alive now m) ≡ some t
unfolding lookup keep
lookup-alive now t key [] h le = ground arith
lookup-alive now t key ((k, u) ∷ m) h le = ground (arith, lookup-alive now t key m)

-- A claim at a time: the key, whether it is blank, and when.
pub record Request : Type 0 where
  pub key : String
  pub blank : Bool
  pub at : ℕ

unfoldable pub claims : TtlSet → List Request → TtlSet
claims s [] = s
claims s (r ∷ rs) = claims (claim s r.key r.blank r.at).0 rs

-- The requests fall before the time `t`.
abbrev pub Before : ℕ → List Request → Type 0
Before t [] = Unit
Before t (r ∷ rs) = (r.at < t) × Before t rs

claim-holds :
    (s : TtlSet) (r : Request) (key : String) (t n : ℕ)
    → lookup key s.items ≡ some t
    → r.at < t
    → length s.items + suc n ≤ s.max_entries
    → (lookup key (claim s r.key r.blank r.at).0.items ≡ some t)
      × (length (claim s r.key r.blank r.at).0.items + n ≤ s.max_entries)
      × ((claim s r.key r.blank r.at).0.max_entries ≡ s.max_entries)
unfolding claim prune_expired
claim-holds s r key t n h lt room =
    let m = alive r.at s.items in
    ground (
      arith,
      lookup-alive r.at t key s.items h (omega arith),
      length-keep-le (λ (e : String × ℕ). not (ltb e.1 r.at)) s.items,
      lookup-insert r.key key (r.at + s.ttl) m,
      length-insert r.key (r.at + s.ttl) m,
      eq_iff r.key key,
    )

claims-hold :
    (s : TtlSet) (rs : List Request) (key : String) (t : ℕ)
    → lookup key s.items ≡ some t
    → Before t rs
    → length s.items + length rs ≤ s.max_entries
    → lookup key (claims s rs).items ≡ some t
unfolding claims
claims-hold s [] key t h b room = h
claims-hold s (r ∷ rs) key t h b room =
    let (held, fits, same) = claim-holds s r key t (length rs) h b.0 (omega arith) in
    claims-hold (claim s r.key r.blank r.at).0 rs key t held b.1 (rw same (omega arith))

claim-denied :
    (s : TtlSet) (key : String) (t now : ℕ)
    → lookup key s.items ≡ some t
    → now < t
    → (claim s key false now).1 ≡ false
unfolding claim prune_expired
claim-denied s key t now h lt = ground (arith, lookup-alive now t key s.items h (omega arith))

claim-granted :
    (s : TtlSet) (key : String) (now : ℕ)
    → (claim s key false now).1 ≡ true
    → lookup key (claim s key false now).0.items ≡ some (now + s.ttl)
unfolding claim prune_expired
claim-granted s key now h = ground (
  arith,
  lookup-insert_self key (now + s.ttl) (alive now s.items),
  lookup-insert_self key (now + s.ttl) (evict_oldest (alive now s.items)),
)

-- After a claim on a key that is not blank is granted, and while no more claims of any keys follow than the set has room
-- for, a further claim on the key is denied at any time before the first one expires.
pub claim-exclusive :
    (s : TtlSet) (key : String) (now later : ℕ) (rs : List Request)
    → (claim s key false now).1 ≡ true
    → Before (now + s.ttl) rs
    → length (claim s key false now).0.items + length rs ≤ (claim s key false now).0.max_entries
    → later < now + s.ttl
    → (claim (claims (claim s key false now).0 rs) key false later).1 ≡ false
claim-exclusive s key now later rs g b room lt =
    claim-denied _ key (now + s.ttl) later
      (claims-hold (claim s key false now).0 rs key (now + s.ttl) (claim-granted s key now g) b
        room)
      lt

pub alive-none :
    (now : ℕ) (key : String) (m : Dict ℕ) → lookup key m ≡ none → lookup key (alive now m) ≡ none
unfolding lookup keep
alive-none now key [] h = refl
alive-none now key ((k, u) ∷ m) h = ground (arith, alive-none now key m)

-- Every entry of the key expires by the time `t`.
abbrev pub ExpiresBy : String → ℕ → Dict ℕ → Type 0
ExpiresBy key t = AllEntries (λ k u. k ≡ key → u ≤ t)

alive-ExpiresBy :
    (now : ℕ) (key : String) (t : ℕ) (m : Dict ℕ)
    → ExpiresBy key t m
    → ExpiresBy key t (alive now m)
unfolding keep
alive-ExpiresBy now key t [] e = tt
alive-ExpiresBy now key t ((k, u) ∷ m) e = elim (Bool-cases (ltb u now)) [
  | inl old ↦ rw (old, keep) (alive-ExpiresBy now key t m e.1)
  | inr new ↦ rw (new, keep) (e.0, alive-ExpiresBy now key t m e.1)
]

claim-released :
    (s : TtlSet) (key : String) (now : ℕ) → (claim (release s key false) key false now).1 ≡ true
unfolding claim prune_expired release
claim-released s key now =
    ground
      (arith, alive-none now key (erase key s.items), lookup-erase key key s.items, eq_iff key key)

claim-expired :
    (s : TtlSet) (key : String) (t now : ℕ)
    → ExpiresBy key t s.items
    → t ≤ now
    → (claim s key false now).1 ≡ true
unfolding claim prune_expired
claim-expired s key t now e h = elim (Option-cases (lookup key (alive now s.items))) [
  | inl miss ↦ ground arith
  | inr (u, hit) ↦ ground (
    arith,
    AllEntries-lookup (λ k v. k ≡ key → v ≤ t) key u (alive now s.items)
        (alive-ExpiresBy now key t s.items e) hit refl,
  )
]

-- A key that is not blank can be claimed again at once after its release, and without one from the time on at which the
-- last of its entries expires.
pub claim-again :
    (s : TtlSet) (key : String) (t now any : ℕ)
    → ExpiresBy key t s.items
    → t ≤ now
    → ((claim (release s key false) key false any).1 ≡ true) × ((claim s key false now).1 ≡ true)
claim-again s key t now any e h = (claim-released s key any, claim-expired s key t now e h)
