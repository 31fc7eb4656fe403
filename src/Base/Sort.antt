-- ===== src/Base/Sort.antt =====
-- Go's `sort.Slice`, as the insertion sort, and membership and distinctness of lists of texts.
use Prim.Native.String.{String}
use Prim.Native.Nat.{suc}
use mathlib.Core.Path.{◌≡◌, refl}
use mathlib.Core.Bool.{Bool, true, false}
use mathlib.Core.List.{List, [], ◌∷◌, ◌++◌, Perm}
use mathlib.Core.List.Perm
use native.Mathlib.Omega.{arith}
use text.Mathlib.TextEquality.{eq_iff}
use ops_captain.Base.Tests.{if◌then◌else◌, str_eq, Bool-cases}
use ops_captain.Base.Lists.{In}
use mathlib.Core.Logic.{◌↔◌, ◌⊎◌, inl, inr}
use ops_captain.Base.Lists.{length}

module _ {ℓ} {A : Type ℓ} (less : A → A → Bool) where
  unfoldable pub place : A → List A → List A
  place a [] = a ∷ []
  place a (x ∷ xs) = if less x a then x ∷ place a xs else a ∷ x ∷ xs

  unfoldable pub sort : List A → List A
  unfolding place
  sort [] = []
  sort (x ∷ xs) = place x (sort xs)

  place-perm : (a : A) (xs : List A) → Perm (place a xs) (a ∷ xs)
  unfolding place
  place-perm a [] = Perm.refl _
  place-perm a (x ∷ xs) = elim (Bool-cases (less x a)) [
    | inl e ↦ rw (e, place) (Perm.trans (Perm.cons x (place-perm a xs)) (Perm.swap a x xs))
    | inr e ↦ rw (e, place) (Perm.refl _)
  ]

  -- Sorting keeps the elements, each as often as it was there.
  pub sort-perm : (xs : List A) → Perm (sort xs) xs
  unfolding sort
  sort-perm [] = Perm.refl _
  sort-perm (x ∷ xs) = Perm.trans (place-perm x (sort xs)) (Perm.cons x (sort-perm xs))

  -- No element of the list is less than `a`.
  abbrev pub NoneLess : A → List A → Type 0
  NoneLess a [] = Unit
  NoneLess a (x ∷ xs) = (less x a ≡ false) × NoneLess a xs

  abbrev pub IsSorted : List A → Type 0
  IsSorted [] = Unit
  IsSorted (x ∷ xs) = NoneLess x xs × IsSorted xs

  module _ (asym : (a b : A) → less a b ≡ true → less b a ≡ false)
      (trans : (a b c : A) → less b a ≡ false → less c b ≡ false → less c a ≡ false) where
    NoneLess-weaken : (a b : A) (xs : List A) → less b a ≡ false → NoneLess b xs → NoneLess a xs
    NoneLess-weaken a b [] h n = tt
    NoneLess-weaken a b (x ∷ xs) h n = (trans a b x h n.0, NoneLess-weaken a b xs h n.1)

    NoneLess-place :
        (a b : A) (xs : List A) → less a b ≡ false → NoneLess b xs → NoneLess b (place a xs)
    unfolding place
    NoneLess-place a b [] h n = (h, tt)
    NoneLess-place a b (x ∷ xs) h n = elim (Bool-cases (less x a)) [
      | inl e ↦ rw (e, place) (n.0, NoneLess-place a b xs h n.1)
      | inr e ↦ rw (e, place) (h, n)
    ]

    place-IsSorted : (a : A) (xs : List A) → IsSorted xs → IsSorted (place a xs)
    unfolding place
    place-IsSorted a [] s = (tt, tt)
    place-IsSorted a (x ∷ xs) s = elim (Bool-cases (less x a)) [
      | inl e ↦ rw (e, place) (NoneLess-place a x xs (asym x a e) s.0, place-IsSorted a xs s.1)
      | inr e ↦ rw (e, place) ((e, NoneLess-weaken a x xs e s.0), s)
    ]

    pub sort-IsSorted : (xs : List A) → IsSorted (sort xs)
    unfolding sort
    sort-IsSorted [] = tt
    sort-IsSorted (x ∷ xs) = place-IsSorted x (sort xs) (sort-IsSorted xs)

unfoldable pub elem : String → List String → Bool
elem k [] = false
elem k (x ∷ xs) = if str_eq x k then true else elem k xs

abbrev pub Distinct : List String → Type 0
Distinct [] = Unit
Distinct (x ∷ xs) = (elem x xs ≡ false) × Distinct xs

pub elem-snoc :
    (k y : String) (xs : List String)
    → elem k (xs ++ y ∷ []) ≡ (if str_eq y k then true else elem k xs)
unfolding elem
elem-snoc k y [] = refl
elem-snoc k y (x ∷ xs) = ground (arith, elem-snoc k y xs)

pub Distinct-snoc :
    (y : String) (xs : List String) → elem y xs ≡ false → Distinct xs → Distinct (xs ++ y ∷ [])
unfolding elem
Distinct-snoc y [] h d = (refl, tt)
Distinct-snoc y (x ∷ xs) h d = (
  ground (arith, elem-snoc x y xs, eq_iff x y, eq_iff y x),
  Distinct-snoc y xs (ground arith) d.1,
)

module _ (less : String → String → Bool) where
  place-elem :
      (k a : String) (xs : List String)
      → elem k (place less a xs) ≡ (if str_eq a k then true else elem k xs)
  unfolding place elem
  place-elem k a [] = refl
  place-elem k a (x ∷ xs) = ground (arith, place-elem k a xs)

  -- Sorting a list of texts keeps its members, its length and their distinctness.
  pub sort-elem : (k : String) (xs : List String) → elem k (sort less xs) ≡ elem k xs
  unfolding sort elem
  sort-elem k [] = refl
  sort-elem k (x ∷ xs) = ground (arith, place-elem k x (sort less xs), sort-elem k xs)

  place-Distinct :
      (a : String) (xs : List String) → elem a xs ≡ false → Distinct xs → Distinct (place less a xs)
  unfolding place elem
  place-Distinct a [] h d = (refl, tt)
  place-Distinct a (x ∷ xs) h d = elim (Bool-cases (less x a)) [
    | inl e ↦
        rw (e, place)
          (
            ground (arith, h, d.0, place-elem x a xs, eq_iff a x, eq_iff x a),
            place-Distinct a xs (ground (arith, h)) d.1,
          )
    | inr e ↦ rw (e, place) (h, d)
  ]

  pub sort-Distinct : (xs : List String) → Distinct xs → Distinct (sort less xs)
  unfolding sort
  sort-Distinct [] d = tt
  sort-Distinct (x ∷ xs) d =
      place-Distinct x (sort less xs) (ground (arith, d.0, sort-elem x xs)) (sort-Distinct xs d.1)

  place-length : (a : String) (xs : List String) → length (place less a xs) ≡ suc (length xs)
  unfolding place
  place-length a [] = refl
  place-length a (x ∷ xs) = ground (arith, place-length a xs)

  pub sort-length : (xs : List String) → length (sort less xs) ≡ length xs
  unfolding sort
  sort-length [] = refl
  sort-length (x ∷ xs) = ground (arith, place-length x (sort less xs), sort-length xs)

-- A list without the first occurrence of a text.
unfoldable pub remove_first : String → List String → List String
remove_first k [] = []
remove_first k (x ∷ xs) = let others = remove_first k xs in if str_eq x k then xs else x ∷ others

pub remove_first-elem :
    (k j : String) (xs : List String)
    → Distinct xs
    → elem j (remove_first k xs) ≡ (if str_eq k j then false else elem j xs)
unfolding remove_first elem
remove_first-elem k j [] d = ground arith
remove_first-elem k j (x ∷ xs) d =
    ground (arith, d.0, remove_first-elem k j xs d.1, eq_iff x k, eq_iff k j, eq_iff x j)

pub remove_first-Distinct :
    (k : String) (xs : List String) → Distinct xs → Distinct (remove_first k xs)
unfolding remove_first
remove_first-Distinct k [] d = tt
remove_first-Distinct k (x ∷ xs) d = elim (Bool-cases (str_eq x k)) [
  | inl e ↦ rw (e, remove_first) d.1
  | inr e ↦
      rw (e, remove_first)
        (ground (arith, d.0, remove_first-elem k x xs d.1), remove_first-Distinct k xs d.1)
]

pub remove_first-length :
    (k : String) (xs : List String)
    → elem k xs ≡ true
    → suc (length (remove_first k xs)) ≡ length xs
unfolding remove_first elem
remove_first-length k [] h = absurd (cc h)
remove_first-length k (x ∷ xs) h = ground (arith, remove_first-length k xs)

module _ {A : Type 0} (less : A → A → Bool) where
  In-place : (a x : A) (ys : List A) → In a (place less x ys) ↔ ((x ≡ a) ⊎ In a ys)
  unfolding place
  In-place a x [] = (λ h. h, λ h. h)
  In-place a x (y ∷ ys) = elim (Bool-cases (less y x)) [
    | inr e ↦ rw (e, place) (λ h. h, λ h. h)
    | inl e ↦
        let (there, back) = In-place a x ys in
        rw (e, place)
          (
            λ h. elim h [
              | inl p ↦ inr (inl p)
              | inr p ↦ elim (there p) [ inl q ↦ inl q | inr q ↦ inr (inr q) ]
            ],
            λ h. elim h [
              | inl p ↦ inr (back (inl p))
              | inr p ↦ elim p [ inl q ↦ inl q | inr q ↦ inr (back (inr q)) ]
            ],
          )
  ]

  -- Sorting keeps the elements.
  pub In-sort : (a : A) (xs : List A) → In a (sort less xs) ↔ In a xs
  unfolding sort
  In-sort a [] = (λ h. h, λ h. h)
  In-sort a (x ∷ xs) =
      let (there, back) = In-place a x (sort less xs) in
      let (deeper, up) = In-sort a xs in
      (
        λ h. elim (there h) [ inl p ↦ inl p | inr p ↦ inr (deeper p) ],
        λ h. elim h [ inl p ↦ back (inl p) | inr p ↦ back (inr (up p)) ],
      )
