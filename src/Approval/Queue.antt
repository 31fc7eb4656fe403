-- ===== src/Approval/Queue.antt =====
-- The queue of internal/ai/service/approval_queue.go. Redis, JSON and the configuration are parameters; the
-- state `S` is Redis's, and every command answers whether it succeeded.
use Prim.Native.String.{◌++◌ as join}
use ops_captain.Base.{
  ℕ, ◌⊎◌, inl, inr, String, Bool, true, false, not, ◌&&◌, Option, none, some, List, [], ◌∷◌, str_eq,
  if◌then◌else◌,
}
use ops_captain.Base.Int.{ℤ, pos, leb_ℤ, pos_part}

-- `ApprovalStatus` is a text in the source, and a stored request may hold any.
abbrev pub ApprovalStatus : Type 0
ApprovalStatus = String

abbrev pub pending : ApprovalStatus
pending = "pending"

abbrev pub approved : ApprovalStatus
approved = "approved"

abbrev pub rejected : ApprovalStatus
rejected = "rejected"

abbrev pub executed : ApprovalStatus
executed = "executed"

pub record ApprovalRequest : Type 0 where
  pub id : String
  pub query : String
  pub reason : String
  pub status : ApprovalStatus
  pub session_id : String
  pub user_id : String
  pub requested_by : String
  pub reviewed_by : String
  pub review_reason : String
  pub execution_plan : List String
  pub result_trace_id : String
  pub created_at : ℕ
  pub updated_at : ℕ
  pub approved_at : ℕ
  pub rejected_at : ℕ
  pub execution_at : ℕ

pub data ApprovalError : Type 0 where
  not_enabled get_failed not_found undecodable : ApprovalError
  unencodable set_failed remove_failed add_failed list_failed : ApprovalError

-- The commands of Redis that the queue sends, `encoding/json`, `strings.TrimSpace`, the settings, and
-- `member`, what a set of Redis holds. GET answers none on an error, and the empty text for a missing key.
pub record Outside (S : Type 0) : Type 0 where
  pub get : S → String → Option String
  pub setex : S → String → ℕ → String → S × Bool
  pub srem : S → String → String → S × Bool
  pub sadd : S → String → String → S × Bool
  pub smembers : S → String → Option (List String)
  pub member : S → String → String → Bool
  pub marshal : ApprovalRequest → Option String
  pub unmarshal : String → Option ApprovalRequest
  pub trim_space : String → String
  pub resolves_env : String → Bool
  pub enabled_setting : Option (String × Bool)
  pub address_setting : Option String
  pub ttl_setting : Option ℤ
  pub prefix_setting : Option String

module _ {S : Type 0} (o : Outside S) where
  -- `approvalQueueEnabled`
  unfoldable pub approval_queue_enabled : Bool
  approval_queue_enabled =
      let addressed : Bool = elim o.address_setting [ none ↦ false | some a ↦ o.resolves_env a ] in
      elim o.enabled_setting [
        | none ↦ addressed
        | some (text, on) ↦
            if not (str_eq (o.trim_space text) "") && not on then false else addressed
      ]

  -- `approvalRequestTTL`, in seconds; a setting of more than 2 ^ 63 nanoseconds is left out.
  unfoldable pub approval_request_ttl : ℕ
  approval_request_ttl = elim o.ttl_setting [
    | none ↦ 86400
    | some n ↦ if leb_ℤ n (pos 0) then 86400 else pos_part n
  ]

  unfoldable pub approval_key_prefix : String
  approval_key_prefix = elim o.prefix_setting [
    | none ↦ "opscaptionai:approval"
    | some text ↦
        if str_eq (o.trim_space text) "" then "opscaptionai:approval" else o.trim_space text
  ]

  unfoldable pub request_key : String → String
  request_key id = join approval_key_prefix (join ":request:" (o.trim_space id))

  unfoldable pub status_key : ApprovalStatus → String
  status_key status = join approval_key_prefix (join ":status:" status)

  -- SREM from the set of the previous status, if that is another.
  unfoldable pub leave : S → ApprovalRequest → ApprovalStatus → S × Bool
  leave s request previous =
      if not (str_eq previous "") && not (str_eq previous request.status)
      then o.srem s (status_key previous) request.id
      else (s, true)

  unfoldable pub enlist : S → ApprovalRequest → ApprovalStatus → S × Option ApprovalError
  unfolding leave
  enlist s request previous =
      let left = leave s request previous in
      let added = o.sadd left.0 (status_key request.status) request.id in
      if left.1
      then (added.0, if added.1 then none else some add_failed)
      else (left.0, some remove_failed)

  unfoldable pub save : S → ApprovalRequest → ApprovalStatus → S × Option ApprovalError
  unfolding enlist
  save s request previous = elim (o.marshal request) [
    | none ↦ (s, some unencodable)
    | some payload ↦
        let set = o.setex s (request_key request.id) approval_request_ttl payload in
        if set.1 then enlist set.0 request previous else (set.0, some set_failed)
  ]

  unfoldable pub get : S → String → ApprovalError ⊎ ApprovalRequest
  get s request_id = elim (o.get s (request_key request_id)) [
    | none ↦ inl get_failed
    | some value ↦
        if str_eq (o.trim_space value) ""
        then inl not_found
        else elim (o.unmarshal (o.trim_space value)) [ none ↦ inl undecodable | some r ↦ inr r ]
  ]

  -- What a method answers after `save`.
  unfoldable pub answer :
      S × Option ApprovalError → ApprovalRequest → S × (ApprovalError ⊎ ApprovalRequest)
  answer (s, none) request = (s, inr request)
  answer (s, some e) request = (s, inl e)

  -- The session and the user of the context are none where they are missing or no text.
  unfoldable pub new_request :
      (now : ℕ) (uuid : String) (session_id user_id : Option String) (query reason : String)
      → List String
      → ApprovalRequest
  new_request now uuid session_id user_id query reason plan =
      let trimmed : Option String → String = λ t. elim t [ none ↦ "" | some t ↦ o.trim_space t ] in
      record {
        id = uuid;
        query = o.trim_space query;
        reason = o.trim_space reason;
        status = pending;
        session_id = trimmed session_id;
        user_id = trimmed user_id;
        requested_by = trimmed user_id;
        reviewed_by = "";
        review_reason = "";
        execution_plan = plan;
        result_trace_id = "";
        created_at = now;
        updated_at = now;
        approved_at = 0;
        rejected_at = 0;
        execution_at = 0;
      }

  unfoldable pub enqueue :
      S
      → (now : ℕ) (uuid : String) (session_id user_id : Option String) (query reason : String)
      → List String
      → S × (ApprovalError ⊎ ApprovalRequest)
  unfolding answer save new_request
  enqueue s now uuid session_id user_id query reason plan =
      let request = new_request now uuid session_id user_id query reason plan in
      if approval_queue_enabled
      then answer (save s request pending) request
      else (s, inl not_enabled)

  unfoldable pub as_approved : ℕ → String → ApprovalRequest → ApprovalRequest
  as_approved now reviewer r = record r {
    status = approved;
    reviewed_by = o.trim_space reviewer;
    approved_at = now;
    updated_at = now;
  }

  unfoldable pub approve : S → ℕ → String → String → S × (ApprovalError ⊎ ApprovalRequest)
  unfolding answer save as_approved get
  approve s now request_id reviewer = elim (get s request_id) [
    | inl e ↦ (s, inl e)
    | inr r ↦ answer (save s (as_approved now reviewer r) pending) (as_approved now reviewer r)
  ]

  unfoldable pub as_rejected : ℕ → String → String → ApprovalRequest → ApprovalRequest
  as_rejected now reviewer review_reason r = record r {
    status = rejected;
    reviewed_by = o.trim_space reviewer;
    review_reason = o.trim_space review_reason;
    rejected_at = now;
    updated_at = now;
  }

  unfoldable pub reject : S → ℕ → String → String → String → S × (ApprovalError ⊎ ApprovalRequest)
  unfolding answer save as_rejected get
  reject s now request_id reviewer why = elim (get s request_id) [
    | inl e ↦ (s, inl e)
    | inr r ↦
        answer (save s (as_rejected now reviewer why r) pending) (as_rejected now reviewer why r)
  ]

  unfoldable pub as_executed : ℕ → String → ApprovalRequest → ApprovalRequest
  as_executed now trace_id r = record r {
    status = executed;
    result_trace_id = o.trim_space trace_id;
    execution_at = now;
    updated_at = now;
  }

  unfoldable pub mark_executed : S → ℕ → String → String → S × Option ApprovalError
  unfolding save as_executed get
  mark_executed s now request_id trace_id = elim (get s request_id) [
    | inl e ↦ (s, some e)
    | inr r ↦ save s (as_executed now trace_id r) approved
  ]

  unfoldable pub found : S → List String → List ApprovalRequest
  found s [] = []
  found s (id ∷ ids) = elim (get s id) [ inl e ↦ found s ids | inr r ↦ r ∷ found s ids ]

  -- `List`; the empty status asks for the pending requests.
  unfoldable pub list : S → ApprovalStatus → ApprovalError ⊎ List ApprovalRequest
  unfolding found
  list s status =
      if approval_queue_enabled
      then elim (o.smembers s (status_key (if str_eq status "" then pending else status))) [
        | none ↦ inl list_failed
        | some ids ↦ inr (found s ids)
      ]
      else inr []
