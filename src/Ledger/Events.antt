-- ===== src/Ledger/Events.antt =====
-- Which events the ledger of internal/ai/runtime/ledger.go holds, and what a new status changes.
use mathlib.Core.List.{append-nil, append_assoc}
use mathlib.Core.Option
use ops_captain.Base.{
  ℕ, ◌-◌, ◌≡◌, refl, sym, ap, ◌∙◌, inl, inr, String, List, [], ◌∷◌, ◌++◌, arith, str_eq,
  if◌then◌else◌, length, drop, length-append, length-drop, Bool-cases, Option-cases, eq_iff, leb,
  tests,
}
use ops_captain.Base.Drop.{drop_none, drop_append, drop_nil, drop-drop}
use ops_captain.Base.Dict.{lookup, lookup-insert}
use ops_captain.Protocol.{TaskEnvelope, TaskEvent, TaskStatus}
use ops_captain.Ledger.Store.{prune_events, InMemoryLedger, update_task_status, append_event}

module _ {ℓ} {V : Type ℓ} where
  prune_events-drop :
      (limit : ℕ) (xs : List V) → prune_events limit xs ≡ drop (length xs - limit) xs
  unfolding prune_events
  prune_events-drop limit xs = elim (Bool-cases (leb (length xs) limit)) [
    | inl e ↦ rw (e, prune_events) (drop_none (length xs - limit) xs (omega (tests)))
    | inr e ↦ rw (e, prune_events)
  ]

  -- Pruning at every step leaves what pruning once at the end does.
  prune_events-again :
      (limit : ℕ) (old : List V) (e : V)
      → prune_events limit (prune_events limit old ++ e ∷ []) ≡ prune_events limit (old ++ e ∷ [])
  prune_events-again limit old e =
      let b = length old - limit in
      rw
        (
          prune_events-drop limit old,
          prune_events-drop limit (drop b old ++ e ∷ []),
          prune_events-drop limit (old ++ e ∷ []),
          drop_append b old (e ∷ []) (omega arith),
          drop-drop (length (drop b (old ++ e ∷ [])) - limit) b (old ++ e ∷ []),
        )
        (ap (λ n. drop n (old ++ e ∷ []))
          (omega (arith, length-drop b (old ++ e ∷ []), length-append old (e ∷ []))))

module _ {Any F : Type 0} where
  unfoldable pub append_events : InMemoryLedger Any F → List (TaskEvent Any) → InMemoryLedger Any F
  append_events l [] = l
  append_events l (e ∷ es) = append_events (append_event l e) es

  append_events-from :
      (l : InMemoryLedger Any F) (old es : List (TaskEvent Any))
      → l.events ≡ prune_events l.max_events old
      → (append_events l es).events ≡ prune_events l.max_events (old ++ es)
  unfolding append_events append_event
  append_events-from l old [] h = rw append-nil h
  append_events-from l old (e ∷ es) h =
      append_events-from (append_event l e) (old ++ e ∷ []) es
        (rw h (prune_events-again l.max_events old e))
      ∙ ap (prune_events l.max_events) (append_assoc old (e ∷ []) es)

  -- After any events on a ledger that held none, exactly the newest are held, as many as the limit
  -- allows, in the order in which they came.
  pub append_events-newest :
      (l : InMemoryLedger Any F) (es : List (TaskEvent Any))
      → l.events ≡ []
      → (append_events l es).events ≡ drop (length es - l.max_events) es
  append_events-newest l es h =
      append_events-from l [] es
        (h ∙ sym (prune_events-drop l.max_events [] ∙ drop_nil (0 - l.max_events)))
      ∙ prune_events-drop l.max_events es

  -- A task's status changes in place: of the task with this key only the status and the time of the
  -- update, nothing of the others, no key, and nothing at all on an unknown key.
  pub update_task_status-only :
      (l : InMemoryLedger Any F) (k j : String) (s : TaskStatus) (now : ℕ)
      → let l' = update_task_status l k s now in
        (lookup j l'.tasks.items ≡ (
          if str_eq k j
          then Option.map {A = TaskEnvelope Any F}
              (λ t. record t { status = s; updated_at = now })
              (lookup j l.tasks.items)
          else lookup j l.tasks.items))
        × (l'.tasks.order ≡ l.tasks.order)
        × (l'.results ≡ l.results)
        × (l'.events ≡ l.events)
  unfolding update_task_status
  update_task_status-only l k j s now = elim (Option-cases (lookup k l.tasks.items)) [
    | inl e ↦ rw (e, update_task_status) (ground (arith, eq_iff k j), refl, refl, refl)
    | inr (t, e) ↦
        rw (e, update_task_status)
          (
            ground (
              arith,
              eq_iff k j,
              lookup-insert k j (record t { status = s; updated_at = now }) l.tasks.items,
            ),
            refl,
            refl,
            refl,
          )
  ]
