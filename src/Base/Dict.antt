-- ===== src/Base/Dict.antt =====
-- A Go map with string keys, as an association list. The order of the list is the order in which
-- one `range` over the map visits its keys; statements over every list cover every order.
use Prim.Native.Nat.{suc, ◌+◌, ◌≤◌}
use Prim.Native.String.{String}
use mathlib.Core.Path.{◌≡◌, refl, subst₂}
use mathlib.Core.Bool.{Bool, true, false}
use mathlib.Core.Logic.{◌≢◌, inl, inr}
use mathlib.Core.List.{List, [], ◌∷◌, map}
use mathlib.Core.Option.{Option, none, some}
use native.Mathlib.Omega.{arith}
use text.Mathlib.TextEquality.{eq_iff}
use ops_captain.Base.Tests.{if◌then◌else◌, str_eq, is_some, Bool-cases, Option-cases}
use ops_captain.Base.Lists.{length}

abbrev pub Dict {ℓ} : Type ℓ → Type ℓ
Dict V = List (String × V)

module _ {ℓ} {V : Type ℓ} where
  unfoldable pub lookup : String → Dict V → Option V
  lookup key [] = none
  lookup key ((first, held) ∷ rest) = if str_eq first key then some held else lookup key rest

  -- `m[k] = v`
  unfoldable pub insert : String → V → Dict V → Dict V
  insert key new [] = (key, new) ∷ []
  insert key new ((first, held) ∷ rest) =
      if str_eq first key then (key, new) ∷ rest else (first, held) ∷ insert key new rest

  -- `delete(m, k)`
  unfoldable pub erase : String → Dict V → Dict V
  erase k [] = []
  erase k ((j, w) ∷ m) = if str_eq j k then erase k m else (j, w) ∷ erase k m

  -- `_, ok := m[k]`
  abbrev pub has : String → Dict V → Bool
  has k m = is_some (lookup k m)

  abbrev pub values : Dict V → List V
  values = map (λ e. e.1)

  -- A loop that writes every value in place.
  abbrev pub map_values : (V → V) → Dict V → Dict V
  map_values f = map (λ e. (e.0, f e.1))

  pub lookup-insert :
      (key other : String) (new : V) (d : Dict V)
      → lookup other (insert key new d) ≡ (if str_eq key other then some new else lookup other d)
  unfolding insert lookup
  lookup-insert key other new [] = refl
  lookup-insert key other new ((first, held) ∷ rest) = ground (
    arith,
    lookup-insert key other new rest,
    eq_iff first key,
    eq_iff first other,
    eq_iff key other,
  )

  pub lookup-erase :
      (k j : String) (m : Dict V) → lookup j (erase k m) ≡ (if str_eq k j then none else lookup j m)
  unfolding lookup erase
  lookup-erase k j [] = ground arith
  lookup-erase k j ((i, w) ∷ m) =
      ground (arith, eq_iff k j, eq_iff i k, eq_iff i j, lookup-erase k j m)

  -- A write adds an entry exactly if the key is new.
  pub length-insert :
      (k : String) (v : V) (m : Dict V)
      → length (insert k v m) ≡ (if has k m then length m else suc (length m))
  unfolding lookup insert
  length-insert k v [] = refl
  length-insert k v ((i, w) ∷ m) = ground (arith, length-insert k v m)

  pub length-erase-le : (k : String) (m : Dict V) → length (erase k m) ≤ length m
  unfolding erase
  length-erase-le k [] = omega arith
  length-erase-le k ((i, w) ∷ m) = ground (arith, length-erase-le k m)

  -- Erasing a present key takes at least one entry away.
  pub length-erase-has :
      (k : String) (m : Dict V) → has k m ≡ true → suc (length (erase k m)) ≤ length m
  unfolding lookup erase
  length-erase-has k [] h = ground arith
  length-erase-has k ((i, w) ∷ m) h = ground (arith, length-erase-le k m, length-erase-has k m)

  pub lookup-map_values :
      (f : V → V) (k : String) (m : Dict V)
      → lookup k (map_values f m) ≡ elim (lookup k m) [ none ↦ none | some v ↦ some (f v) ]
  unfolding lookup
  lookup-map_values f k [] = refl
  lookup-map_values f k ((i, w) ∷ m) = ground (arith, lookup-map_values f k m)

  pub lookup-insert_self : (k : String) (v : V) (m : Dict V) → lookup k (insert k v m) ≡ some v
  lookup-insert_self k v m = ground (arith, lookup-insert k k v m, eq_iff k k)

  pub lookup-insert_other :
      (k j : String) (v : V) (m : Dict V) → k ≢ j → lookup j (insert k v m) ≡ lookup j m
  lookup-insert_other k j v m h = ground (arith, lookup-insert k j v m, eq_iff k j)

  -- A predicate of the keys and values of every entry.
  abbrev pub AllEntries {κ} : (String → V → Type κ) → Dict V → Type κ
  AllEntries P [] = Unit
  AllEntries P ((k, v) ∷ m) = P k v × AllEntries P m

  pub AllEntries-insert {κ} :
      (P : String → V → Type κ) (k : String) (v : V) (m : Dict V)
      → P k v
      → AllEntries P m
      → AllEntries P (insert k v m)
  unfolding insert
  AllEntries-insert P k v [] p a = (p, tt)
  AllEntries-insert P k v ((j, w) ∷ m) p a = elim (Bool-cases (str_eq j k)) [
    | inl e ↦ rw (e, insert) (p, a.1)
    | inr e ↦ rw (e, insert) (a.0, AllEntries-insert P k v m p a.1)
  ]

  pub AllEntries-lookup {κ} :
      (P : String → V → Type κ) (k : String) (v : V) (m : Dict V)
      → AllEntries P m
      → lookup k m ≡ some v
      → P k v
  unfolding lookup
  AllEntries-lookup P k v [] a h = absurd (cc h)
  AllEntries-lookup P k v ((j, w) ∷ m) a h = elim (Bool-cases (str_eq j k)) [
    | inl e ↦ subst₂ P ((eq_iff j k).0 e) (ground arith) a.0
    | inr e ↦ AllEntries-lookup P k v m a.1 (ground arith)
  ]

  pub AllEntries-mono {κ μ} :
      (P : String → V → Type κ) (Q : String → V → Type μ) (m : Dict V)
      → ((k : String) (v : V) → P k v → Q k v)
      → AllEntries P m
      → AllEntries Q m
  AllEntries-mono P Q [] f a = tt
  AllEntries-mono P Q ((j, w) ∷ m) f a = (f j w a.0, AllEntries-mono P Q m f a.1)

  pub AllEntries-map_values {κ} :
      (P : String → V → Type κ) (f : V → V) (m : Dict V)
      → ((k : String) (v : V) → P k v → P k (f v))
      → AllEntries P m
      → AllEntries P (map_values f m)
  AllEntries-map_values P f [] g a = tt
  AllEntries-map_values P f ((j, w) ∷ m) g a = (g j w a.0, AllEntries-map_values P f m g a.1)

  -- A key of which every entry's predicate is refuted is not there.
  pub has-AllEntries {κ} :
      (P : String → V → Type κ) (k : String) (m : Dict V)
      → AllEntries P m
      → ((v : V) → ¬ P k v)
      → has k m ≡ false
  has-AllEntries P k m a h = elim (Option-cases (lookup k m)) [
    | inl e ↦ rw e
    | inr (v, e) ↦ absurd (h v (AllEntries-lookup P k v m a e))
  ]

  pub length-insert_fresh :
      (k : String) (v : V) (m : Dict V) → has k m ≡ false → length (insert k v m) ≡ length m + 1
  length-insert_fresh k v m h = ground (arith, length-insert k v m)
