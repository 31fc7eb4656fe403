-- ===== src/Dedup/Capacity.antt =====
-- How large the set of internal/infra/rabbitmq/ttl_set.go grows under claims.
use ops_captain.Base.{
  ℕ, ◌+◌, ◌≤◌, ◌<◌, ◌≡◌, refl, ap, ◌∙◌, ◌≢◌, ◌⊎◌, inl, inr, String, Bool, true, false, not, Option,
  none, some, List, [], ◌∷◌, arith, ltb, str_eq, length, length-keep-le, is_some, Bool-cases,
  Option-cases, eq_iff,
}
use ops_captain.Base.Dict.{
  Dict, lookup, has, lookup-insert, lookup-erase, length-insert, length-erase-has,
}
use ops_captain.Dedup.TtlSet.{TtlSet, new_ttl_set, prune_expired, oldest, evict_oldest, claim}
use ops_captain.Dedup.Claims.{alive, alive-none}

-- The oldest entry is one of the map, or the best so far.
oldest-found :
    (best : Option (String × ℕ)) (m : Dict ℕ) (k : String) (t : ℕ)
    → oldest best m ≡ some (k, t)
    → (best ≡ some (k, t)) ⊎ (is_some (lookup k m) ≡ true)
unfolding oldest lookup
oldest-found best [] k t h = inl h
oldest-found none ((j, u) ∷ m) k t h = ground (arith, oldest-found (some (j, u)) m k t, eq_iff j k)
oldest-found (some (b, v)) ((j, u) ∷ m) k t h = elim (Bool-cases (ltb u v)) [
  | inl e ↦ ground (arith, oldest-found (some (j, u)) m k t, eq_iff j k)
  | inr e ↦ ground (arith, oldest-found (some (b, v)) m k t, eq_iff j k)
]

oldest-some : (m : Dict ℕ) (b : String × ℕ) → is_some (oldest (some b) m) ≡ true
unfolding oldest
oldest-some [] b = refl
oldest-some ((j, u) ∷ m) (b, v) = oldest-some m _

oldest-in :
    (m : Dict ℕ)
    → 0 < length m
    → (k : String) × (t : ℕ) × (oldest none m ≡ some (k, t)) × (has k m ≡ true)
unfolding oldest
oldest-in [] pos = absurd (omega arith)
oldest-in ((j, u) ∷ m) pos = elim (Option-cases (oldest (some (j, u)) m)) [
  | inl e ↦ absurd (cc (ap is_some e, oldest-some m (j, u)))
  | inr ((k, t), e) ↦ elim (oldest-found none ((j, u) ∷ m) k t e) [
    | inl h ↦ absurd (cc h)
    | inr h ↦ (k, t, e, h)
  ]
]

-- Evicting makes room in a map that is not empty and has no empty key, and adds no key.
evict_oldest-room :
    (m : Dict ℕ)
    → 0 < length m
    → lookup "" m ≡ none
    → (length (evict_oldest m) < length m) × (lookup "" (evict_oldest m) ≡ none)
unfolding evict_oldest
evict_oldest-room m pos keyed =
    let (k, t, e, h) = oldest-in m pos in
    rw (e, evict_oldest)
      (ground (arith, length-erase-has k m h, lookup-erase k "" m, eq_iff k "", keyed, h))

record IsBounded (limit : ℕ) (s : TtlSet) : Type 0 where
  sized : s.max_entries ≡ limit
  keyed : lookup "" s.items ≡ none
  fits : length s.items ≤ s.max_entries
  capable : 0 < s.max_entries

claim-IsBounded :
    (limit : ℕ) (s : TtlSet) (key : String) (blank : Bool) (now : ℕ)
    → (blank ≡ true) ⊎ (key ≢ "")
    → IsBounded limit s
    → IsBounded limit (claim s key blank now).0
unfolding claim prune_expired
claim-IsBounded limit s key true now named b = b
claim-IsBounded limit s key false now (inl h) b = absurd (cc h)
claim-IsBounded limit s key false now (inr named) b =
    let m = alive now s.items in
    let fewer = length-keep-le (λ (e : String × ℕ). not (ltb e.1 now)) s.items in
    ground (
      arith,
      b.sized,
      b.keyed,
      b.fits,
      b.capable,
      fewer,
      alive-none now "" s.items b.keyed,
      evict_oldest-room m,
      length-insert key (now + s.ttl) m,
      lookup-insert key "" (now + s.ttl) m,
      length-insert key (now + s.ttl) (evict_oldest m),
      lookup-insert key "" (now + s.ttl) (evict_oldest m),
      eq_iff key "",
    )

-- Claims, each of a key at a time; `is_blank` says which keys are empty once trimmed.
unfoldable pub claim_all : (String → Bool) → TtlSet → List (String × ℕ) → TtlSet
claim_all is_blank s [] = s
claim_all is_blank s ((key, now) ∷ rest) =
    claim_all is_blank (claim s key (is_blank key) now).0 rest

blank_or_named :
    (is_blank : String → Bool) (key : String)
    → is_blank "" ≡ true
    → (is_blank key ≡ true) ⊎ (key ≢ "")
blank_or_named is_blank key e = elim (Bool-cases (str_eq key "")) [
  | inl h ↦ inl (ap is_blank ((eq_iff key "").0 h) ∙ e)
  | inr h ↦ inr (λ q. cc (h, (eq_iff key "").1 q))
]

claim_all-IsBounded :
    (is_blank : String → Bool) (limit : ℕ) (s : TtlSet) (rest : List (String × ℕ))
    → is_blank "" ≡ true
    → IsBounded limit s
    → IsBounded limit (claim_all is_blank s rest)
unfolding claim_all
claim_all-IsBounded is_blank limit s [] e b = b
claim_all-IsBounded is_blank limit s ((key, now) ∷ rest) e b =
    claim_all-IsBounded is_blank limit (claim s key (is_blank key) now).0 rest e
      (claim-IsBounded limit s key (is_blank key) now (blank_or_named is_blank key e) b)

new-IsBounded :
    (ttl max_entries : ℕ) → 0 < max_entries → IsBounded max_entries (new_ttl_set ttl max_entries)
unfolding new_ttl_set lookup
new-IsBounded ttl max_entries h = record {
  sized = refl;
  keyed = refl;
  fits = omega arith;
  capable = h;
}

-- After any claims on a new set with room for at least one entry, where the empty key counts as blank,
-- the set holds at most as many entries as it has room for.
pub claim_all-bounded :
    (is_blank : String → Bool) (ttl max_entries : ℕ) (rest : List (String × ℕ))
    → is_blank "" ≡ true
    → 0 < max_entries
    → length (claim_all is_blank (new_ttl_set ttl max_entries) rest).items ≤ max_entries
claim_all-bounded is_blank ttl max_entries rest e h =
    let b =
      claim_all-IsBounded is_blank max_entries (new_ttl_set ttl max_entries) rest e
        (new-IsBounded ttl max_entries h) in
    omega (arith, b.sized, b.fits)
