-- ===== src/Context/Window.antt =====
-- How much `selectHistory` of internal/ai/contextengine/assembler_select.go lets through.
use ops_captain.Base.{
  ℕ, zero, suc, ◌+◌, ◌≤◌, ◌<◌, ◌∙◌, ◌≡◌, refl, sym, Bool, true, false, ◌||◌, not, some, List, [],
  ◌∷◌, arith, ltb, ◌==◌, length, get_elem?, Option-cases, Bool-cases, inl, inr, ap, if◌then◌else◌,
}
use ops_captain.Context.Items.{ContextProfile}
use ops_captain.Context.History.{
  Reading, Picked, flag_at, set_flag, flagged, tokens, has_summary_prefix, pick, pick_back, keep_at,
  keep_summary, select_history,
}

module _ {M F : Type 0} (x : Reading M F) where
  abbrev pub tokens_of : List M → ℕ
  tokens_of [] = 0
  tokens_of (m ∷ ms) = tokens x m + tokens_of ms

  -- The counters and the flags of the loops agree, for a budget and at most `limit` messages.
  record IsCounted (budget limit : ℕ) (history : List M) (p : Picked F) : Type 0 where
    aligned : length p.flags ≡ length history
    accounts : tokens_of (flagged p.flags history) ≡ p.used
    shared : p.used + p.remaining ≡ budget
    few : length (flagged p.flags history) ≤ limit

  pick_back-IsCounted :
      (limit budget idx : ℕ) (history : List M)
      → IsCounted budget limit history (pick_back x limit budget idx history)
        × ((pick_back x limit budget idx history).selected_count
            ≡ length (flagged (pick_back x limit budget idx history).flags history))
  unfolding pick_back pick
  pick_back-IsCounted limit budget idx [] =
      (record { aligned = refl; accounts = refl; shared = omega arith; few = omega arith }, refl)
  pick_back-IsCounted limit budget idx (m ∷ ms) =
      let (c, n) = pick_back-IsCounted limit budget (suc idx) ms in ground (arith, c, n)

  set_flag-flagged :
      (idx : ℕ) (flags : List Bool) (history : List M) (m : M)
      → get_elem? history idx ≡ some m
      → flag_at idx flags ≡ false
      → length flags ≡ length history
      → (length (set_flag idx flags) ≡ length history)
        × (tokens_of (flagged (set_flag idx flags) history)
            ≡ tokens x m + tokens_of (flagged flags history))
        × (length (flagged (set_flag idx flags) history) ≡ suc (length (flagged flags history)))
  set_flag-flagged idx [] [] m h f l = ground arith
  set_flag-flagged idx [] (k ∷ ks) m h f l = ground arith
  set_flag-flagged idx (b ∷ bs) [] m h f l = ground arith
  set_flag-flagged zero (b ∷ bs) (k ∷ ks) m h f l = ground arith
  set_flag-flagged (suc idx) (b ∷ bs) (k ∷ ks) m h f l =
      ground (arith, set_flag-flagged idx bs ks m h f (omega arith))

  keep_at-IsCounted :
      (budget limit idx : ℕ) (history : List M) (p : Picked F)
      → IsCounted budget limit history p
      → IsCounted budget (suc limit) history (keep_at x history idx p)
  unfolding keep_at
  keep_at-IsCounted budget limit idx history p c = elim (Option-cases (get_elem? history idx)) [
    | inl e ↦
        rw (e, keep_at)
          (record {
            aligned = c.aligned;
            accounts = c.accounts;
            shared = c.shared;
            few = omega (arith, c.few);
          })
    | inr (m, e) ↦ elim (Bool-cases (flag_at idx p.flags || ltb p.remaining (tokens x m))) [
      | inl h ↦
          rw (e, keep_at)
            (rw h (record {
              aligned = c.aligned;
              accounts = c.accounts;
              shared = c.shared;
              few = omega (arith, c.few);
            }))
      | inr h ↦ rw (e, keep_at) (rw h (ground (arith, c, set_flag-flagged idx p.flags history m e)))
    ]
  ]

  -- How many messages a summary at the start may add.
  abbrev pub summary_allowance : List M → ℕ
  summary_allowance [] = 0
  summary_allowance (m ∷ ms) = if has_summary_prefix x m then 2 else 0

  widen :
      (budget a b : ℕ) (history : List M) (p : Picked F)
      → a ≤ b
      → IsCounted budget a history p
      → IsCounted budget b history p
  widen budget a b history p h c = record {
    aligned = c.aligned;
    accounts = c.accounts;
    shared = c.shared;
    few = omega (arith, c.few);
  }

  IsCounted-either :
      (budget limit : ℕ) (history : List M) (p q : Picked F) (b : Bool)
      → IsCounted budget limit history p
      → IsCounted budget limit history q
      → IsCounted budget limit history (if b then p else q)
  IsCounted-either budget limit history p q true c d = c
  IsCounted-either budget limit history p q false c d = d

  keep_summary-IsCounted :
      (budget limit : ℕ) (history : List M) (p : Picked F)
      → IsCounted budget limit history p
      → IsCounted budget (limit + summary_allowance history) history (keep_summary x history p)
  unfolding keep_summary
  keep_summary-IsCounted budget limit [] p c = widen budget limit (limit + 0) [] p (omega arith) c
  keep_summary-IsCounted budget limit (m ∷ ms) p c = elim (Bool-cases (has_summary_prefix x m)) [
    | inr e ↦ rw (e, keep_summary) (widen budget limit (limit + 0) (m ∷ ms) p (omega arith) c)
    | inl e ↦
        rw (e, keep_summary)
          (IsCounted-either budget (limit + 2) (m ∷ ms) _ p (not (flag_at 0 p.flags))
            (widen budget (suc (suc limit)) (limit + 2) (m ∷ ms) _ (omega arith) (
              keep_at-IsCounted budget (suc limit) 1 (m ∷ ms) _
                (keep_at-IsCounted budget limit 0 (m ∷ ms) p c)))
            (widen budget limit (limit + 2) (m ∷ ms) p (omega arith) c))
  ]

  -- The messages selected from the history take the tokens that are reported, within the budget.
  -- They are no more than the profile allows, or at most two more if the first message is a summary.
  pub select_history-within :
      (history : List M) (profile : ContextProfile F)
      → let s = select_history x history profile in
        (tokens_of s.selected ≡ s.used)
        × (s.used ≤ profile.budget.history_tokens)
        × (length s.selected ≤ profile.max_history_messages + summary_allowance history)
  unfolding select_history
  select_history-within history profile =
      let budget = profile.budget.history_tokens in
      let limit = profile.max_history_messages in
      let c =
        keep_summary-IsCounted budget limit history (pick_back x limit budget 0 history)
          (pick_back-IsCounted limit budget 0 history).0 in
      elim (Bool-cases (length history == 0 || limit == 0 || budget == 0)) [
        | inl e ↦ rw (e, select_history) (refl, omega arith, omega arith)
        | inr e ↦ rw (e, select_history) (c.accounts, omega (arith, c.shared), c.few)
      ]

  pick_back-room :
      (limit budget idx : ℕ) (history : List M)
      → length history ≤ limit
      → tokens_of history ≤ budget
      → flagged (pick_back x limit budget idx history).flags history ≡ history
  unfolding pick_back pick
  pick_back-room limit budget idx [] h t = refl
  pick_back-room limit budget idx (m ∷ ms) h t =
      let p = pick_back x limit budget (suc idx) ms in
      let all = pick_back-room limit budget (suc idx) ms (omega arith) (omega arith) in
      let (c, n) = pick_back-IsCounted limit budget (suc idx) ms in
      let count : p.selected_count ≡ length ms = n ∙ ap length all in
      let paid : p.used ≡ tokens_of ms = sym c.accounts ∙ ap tokens_of all in
      ground (arith, all, count, paid, c.shared)

  pick_back-first :
      (limit budget idx : ℕ) (m : M) (ms : List M)
      → length (m ∷ ms) ≤ limit
      → tokens_of (m ∷ ms) ≤ budget
      → flag_at 0 (pick_back x limit budget idx (m ∷ ms)).flags ≡ true
  unfolding pick_back pick
  pick_back-first limit budget idx m ms h t =
      let p = pick_back x limit budget (suc idx) ms in
      let all = pick_back-room limit budget (suc idx) ms (omega arith) (omega arith) in
      let (c, n) = pick_back-IsCounted limit budget (suc idx) ms in
      let count : p.selected_count ≡ length ms = n ∙ ap length all in
      let paid : p.used ≡ tokens_of ms = sym c.accounts ∙ ap tokens_of all in
      ground (arith, all, count, paid, c.shared)

  keep_summary-idle :
      (m : M) (ms : List M) (p : Picked F)
      → flag_at 0 p.flags ≡ true
      → keep_summary x (m ∷ ms) p ≡ p
  unfolding keep_summary
  keep_summary-idle m ms p h = elim (Bool-cases (has_summary_prefix x m)) [
    | inl e ↦ rw (e, keep_summary) (rw h refl)
    | inr e ↦ rw (e, keep_summary) refl
  ]

  -- A history that the profile has room for, in number and in tokens, is selected as a whole.
  pub select_history-whole :
      (history : List M) (profile : ContextProfile F)
      → length history ≤ profile.max_history_messages
      → tokens_of history ≤ profile.budget.history_tokens
      → 0 < profile.budget.history_tokens
      → (select_history x history profile).selected ≡ history
  unfolding select_history
  select_history-whole [] profile h t b = refl
  select_history-whole (m ∷ ms) profile h t b =
      let budget = profile.budget.history_tokens in
      let limit = profile.max_history_messages in
      let kept =
        keep_summary-idle m ms (pick_back x limit budget 0 (m ∷ ms))
          (pick_back-first limit budget 0 m ms h t) in
      elim (Bool-cases (length (m ∷ ms) == 0 || limit == 0 || budget == 0)) [
        | inl e ↦ absurd (ground arith)
        | inr e ↦
            rw (e, select_history)
              (ap (λ (q : Picked F). flagged q.flags (m ∷ ms)) kept
                ∙ pick_back-room limit budget 0 (m ∷ ms) h t)
      ]
