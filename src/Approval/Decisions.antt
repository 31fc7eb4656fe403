-- ===== src/Approval/Decisions.antt =====
-- What the gate of internal/ai/service/approval_gate.go lets through, and what it queues.
use ops_captain.Base.{
  ℕ, ◌≡◌, refl, str_eq, ◌⊎◌, inl, inr, String, Bool, true, false, Option, none, some, arith,
  Bool-cases,
}
use ops_captain.Approval.Queue.{
  ApprovalRequest, ApprovalError, Outside, pending, status_key, enqueue, new_request, save,
  approval_queue_enabled,
}
use ops_captain.Approval.Moves.{IsRedis, IsDecoded}
use ops_captain.Approval.Reviews.{IsPlaced, enqueue-IsPlaced}
use ops_captain.Approval.Gate.{
  Words, requires_approval, build_execution_plan, queue_decision, check,
}

queue_decision-refuses :
    (reason : String) (answered : ApprovalError ⊎ ApprovalRequest)
    → (queue_decision reason answered).approved ≡ false
unfolding queue_decision
queue_decision-refuses reason (inl e) = refl
queue_decision-refuses reason (inr request) = refl

module _ (w : Words) {S : Type 0} (o : Outside S) where
  -- An action is let through only with the bypass of the context, or if it does not require
  -- approval; letting it through changes nothing and queues nothing.
  pub check-approved :
      (s : S) (bypass : Bool) (now : ℕ) (uuid : String) (session_id user_id : Option String)
      (action : String)
      → (check w o s bypass now uuid session_id user_id action).1.approved ≡ true
      → ((bypass ≡ true) ⊎ (requires_approval w (w.to_lower (o.trim_space action)) ≡ false))
        × ((check w o s bypass now uuid session_id user_id action).0 ≡ s)
        × ((check w o s bypass now uuid session_id user_id action).1.approval_request ≡ none)
  unfolding check
  check-approved s true now uuid session_id user_id action h = (inl refl, refl, refl)
  check-approved s false now uuid session_id user_id action h =
      elim (Bool-cases (requires_approval w (w.to_lower (o.trim_space action)))) [
        | inr e ↦ rw (e, check) (inr refl, refl, refl)
        | inl e ↦ absurd (
            ground (
              arith,
              e,
              queue_decision-refuses "high-risk action queued for human approval"
                  (enqueue o s now uuid session_id user_id action
                    "high-risk action queued for human approval"
                    (build_execution_plan w (o.trim_space action))).1,
            ))
      ]

  -- An action that requires approval, without the bypass, where the queue is enabled, saving succeeds,
  -- JSON gives the request back, and the new identifier stands in no set: it is not let through, and the
  -- request that the decision carries, with the trimmed action as its query, is placed; its status is
  -- pending, and it stands in the set of the pending requests only.
  pub check-queues :
      (s : S) (now : ℕ) (uuid : String) (session_id user_id : Option String) (action : String)
      → IsRedis o
      → requires_approval w (w.to_lower (o.trim_space action)) ≡ true
      → ((status : String) → o.member s (status_key o status) uuid ≡ false)
      → approval_queue_enabled o ≡ true
      → let request =
          new_request o now uuid session_id user_id action
            "high-risk action queued for human approval"
            (build_execution_plan w (o.trim_space action)) in
        IsDecoded o request
        → (save o s request pending).1 ≡ none
        → let after = check w o s false now uuid session_id user_id action in
          (after.1.approved ≡ false)
          × (after.1.queued ≡ true)
          × (after.1.approval_request ≡ some request)
          × (request.query ≡ o.trim_space action)
          × (request.status ≡ pending)
          × IsPlaced o after.0 uuid request
          × ((status : String)
              → o.member after.0 (status_key o status) uuid ≡ str_eq "pending" status)
  unfolding check new_request queue_decision
  check-queues s now uuid session_id user_id action laws risky fresh on decodes done =
      let (answered, placed, waits, query, member) =
        enqueue-IsPlaced o s now uuid session_id user_id action
          "high-risk action queued for human approval"
          (build_execution_plan w (o.trim_space action)) laws decodes fresh on done in
      rw (risky, check)
        (rw (answered, queue_decision) (refl, refl, refl, query, waits, placed, member))
