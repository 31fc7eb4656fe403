-- ===== src/Approval/Keywords.antt =====
-- The search for keywords and the decision of internal/ai/service/approval_gate.go.
use Prim.Native.String.{◌++◌ as join, len, slice}
use text.Mathlib.Text.{find?}
use text.Mathlib.TextFind.{find_cases}
use text.Mathlib.TextLemmas.{append_assoc, nil-append}
use text.Mathlib.TextPositions.{len-append, slice-append_right, slice-append_left}
use ops_captain.Base.{
  ℕ, zero, suc, ◌+◌, ◌<◌, ◌≡◌, inl, inr, sym, ap, ◌∙◌, String, Bool, true, false, some, arith,
  Bool-cases, Option-cases,
}
use ops_captain.Approval.Gate.{Words, rest_after, scan, keyword_is_negated}

-- An occurrence that `find?` answers splits the text.
find?-split :
    (s keyword : String) (index : ℕ)
    → find? s keyword ≡ some index
    → (after : String) × (s ≡ join (slice s 0 index) (join keyword after))
      × (rest_after s index keyword ≡ after)
find?-split s keyword index h = elim (find_cases s keyword) [
  | inr miss ↦ absurd (ground arith)
  | inl (u, v, split, at) ↦
      let here : index ≡ len u = ground arith in
      let uk = join u keyword in
      let whole : s ≡ join uk v = split ∙ sym (append_assoc u keyword v) in
      let end : index + len keyword ≡ len uk = omega (arith, here, len-append u keyword) in
      let before : slice s 0 index ≡ u =
        ap (λ k. slice s 0 k) here
        ∙ ap (λ t. slice t 0 (len u)) split
        ∙ slice-append_left u (join keyword v) in
      (
        v,
        split ∙ ap (λ t. join t (join keyword v)) (sym before),
        ap (λ k. slice s k (len s)) end
            ∙ ap (λ t. slice t (len uk) (len t)) whole
            ∙ ap (λ k. slice (join uk v) (len uk) k) (len-append uk v)
            ∙ slice-append_right uk v,
      )
]

rest_after-len :
    (s keyword : String) (index : ℕ)
    → 0 < len keyword
    → find? s keyword ≡ some index
    → len (rest_after s index keyword) < len s
rest_after-len s keyword index full h =
    let (after, split, rest) = find?-split s keyword index h in
    omega (
      arith,
      full,
      ap len rest,
      ap len split,
      len-append (slice s 0 index) (join keyword after),
      len-append keyword after,
    )

module _ (w : Words) where
  -- The search for a keyword that is not empty ends with an answer within any number of rounds beyond
  -- the length of the text, as many as `has_any_unnegated_keyword` starts it with, and the answer does
  -- not depend on their number.
  pub scan-enough :
      (n k : ℕ) (text keyword : String)
      → 0 < len keyword
      → len text < n
      → len text < k
      → (found : Bool) × (scan w n text keyword ≡ some found) × (scan w k text keyword ≡ some found)
  unfolding scan
  scan-enough zero k text keyword full h g = absurd (omega (arith, h))
  scan-enough (suc n) zero text keyword full h g = absurd (omega (arith, g))
  scan-enough (suc n) (suc k) text keyword full h g = elim (Option-cases (find? text keyword)) [
    | inl e ↦ (false, ground (arith, e), ground (arith, e))
    | inr (index, e) ↦
        let shorter = rest_after-len text keyword index full e in
        let rest = rest_after text index keyword in
        let (later, first, second) =
          scan-enough n k rest keyword full (omega (arith, shorter, h))
            (omega (arith, shorter, g)) in
        elim (Bool-cases (keyword_is_negated w (slice text 0 index))) [
          | inl negated ↦
              (later, ground (arith, e, negated, first), ground (arith, e, negated, second))
          | inr plain ↦ (true, ground (arith, e, plain), ground (arith, e, plain))
        ]
  ]

  -- What the search finds is an occurrence: the text, after some beginning, reads on with a part that
  -- does not negate it, the keyword, and the rest.
  pub scan-occurs :
      (n : ℕ) (text keyword : String)
      → scan w n text keyword ≡ some true
      → (start before after : String) × (text ≡ join start (join before (join keyword after)))
        × (keyword_is_negated w before ≡ false)
  unfolding scan
  scan-occurs zero text keyword h = absurd (cc h)
  scan-occurs (suc n) text keyword h = elim (Option-cases (find? text keyword)) [
    | inl e ↦ absurd (ground arith)
    | inr (index, e) ↦
        let (after, split, rest) = find?-split text keyword index e in
        elim (Bool-cases (keyword_is_negated w (slice text 0 index))) [
          | inr plain ↦ ("", slice text 0 index, after, split ∙ sym (nil-append _), plain)
          | inl negated ↦
              let (start, before, last, found, plain) =
                scan-occurs n (rest_after text index keyword) keyword (ground arith) in
              let first = join (slice text 0 index) keyword in
              (
                join first start,
                before,
                last,
                split
                    ∙ sym (append_assoc (slice text 0 index) keyword after)
                    ∙ ap (join first) (sym rest ∙ found)
                    ∙ sym (append_assoc first start (join before (join keyword last))),
                plain,
              )
        ]
  ]
