-- ===== src/Base/Drop.antt =====
-- Dropping a front part of a list.
use Prim.Native.Nat.{ℕ, zero, suc, ◌+◌, ◌≤◌}
use mathlib.Core.Path.{◌≡◌, refl, sym, ap, ◌∙◌}
use mathlib.Core.List.{List, [], ◌∷◌, ◌++◌}
use native.Mathlib.Omega.{arith}
use ops_captain.Base.Lists.{length, drop}

pub drop_none {ℓ} : {A : Type ℓ} (n : ℕ) (xs : List A) → n ≡ 0 → xs ≡ drop n xs
drop_none zero xs h = refl
drop_none (suc n) xs h = absurd (omega arith)

pub drop_more {ℓ} :
    {A : Type ℓ} (n m : ℕ) (x : A) (xs : List A) → n ≡ suc m → drop m xs ≡ drop n (x ∷ xs)
drop_more zero m x xs h = absurd (omega arith)
drop_more (suc n) m x xs h = ap (λ k. drop k xs) (omega arith)

pub drop_append {ℓ} :
    {A : Type ℓ} (n : ℕ) (xs ys : List A) → n ≤ length xs → drop n xs ++ ys ≡ drop n (xs ++ ys)
drop_append zero xs ys h = refl
drop_append (suc n) [] ys h = absurd (omega arith)
drop_append (suc n) (x ∷ xs) ys h = drop_append n xs ys (omega arith)

pub drop_nil {ℓ} : {A : Type ℓ} (n : ℕ) → drop {A = A} n [] ≡ []
drop_nil zero = refl
drop_nil (suc n) = refl

pub drop-drop {ℓ} : {A : Type ℓ} (m n : ℕ) (xs : List A) → drop m (drop n xs) ≡ drop (n + m) xs
drop-drop m zero xs = ap (λ k. drop k xs) (omega arith)
drop-drop m (suc n) [] = drop_nil m ∙ sym (drop_nil (suc n + m))
drop-drop m (suc n) (x ∷ xs) = drop-drop m n xs ∙ drop_more (suc n + m) (n + m) x xs (omega arith)
