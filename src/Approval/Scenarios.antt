-- ===== src/Approval/Scenarios.antt =====
-- Runs of the queue of internal/ai/service/approval_queue.go on a store held as functions.
use mathlib.Core.Option.{some_inj}
use ops_captain.Base.{
  ◌≡◌, ◌⊎◌, refl, inr, String, Bool, true, false, ◌&&◌, ◌||◌, not, Option, none, some, [], ◌∷◌,
  arith, str_eq, if◌then◌else◌, eq_iff, ap, sym, ◌∙◌, ◌≢◌, ◌==◌,
}
use ops_captain.Approval.Queue.{
  ApprovalRequest, Outside, pending, approved, rejected, get, save, enqueue, new_request, approve,
  status_key, as_approved, approval_queue_enabled, request_key, approval_key_prefix, leave, enlist,
  answer, as_rejected, reject,
}
use ops_captain.Approval.Gate.{
  Words, scan, keyword_is_negated, requires_approval, has_any_unnegated_keyword, check,
  build_execution_plan,
}
use ops_captain.Approval.Keywords.{scan-enough}
use ops_captain.Approval.Decisions.{check-approved, check-queues}
use ops_captain.Approval.Moves.{IsRedis, IsDecoded}
use ops_captain.Approval.Reviews.{
  rejects, error_of, reviewed, review, IsPlaced, review-IsPlaced, approve-rejected,
  enqueue-IsPlaced,
}

record Texts : Type 0 where
  texts : String → String
  sets : String → String → Bool

abbrev new : ApprovalRequest
new = record {
  id = "r1";
  query = "restart the api";
  reason = "high-risk action queued for human approval";
  status = pending;
  session_id = "";
  user_id = "";
  requested_by = "";
  reviewed_by = "";
  review_reason = "";
  execution_plan =
      "Review the requested operation scope and affected resources."
      ∷ "Validate safety constraints and available rollback options."
      ∷ "After approval, execute the original request: restart the api" ∷ [];
  result_trace_id = "";
  created_at = 5;
  updated_at = 5;
  approved_at = 0;
  rejected_at = 0;
  execution_at = 0;
}

abbrev refused : ApprovalRequest
refused = record new { status = rejected; reviewed_by = "ann"; rejected_at = 7; updated_at = 7 }

abbrev allowed : ApprovalRequest
allowed = record new { status = approved; reviewed_by = "bob"; approved_at = 9; updated_at = 9 }

abbrev allowed_later : ApprovalRequest
allowed_later = record refused {
  status = approved;
  reviewed_by = "bob";
  approved_at = 9;
  updated_at = 9;
}

-- An encoding of the four requests of the runs.
abbrev encode : ApprovalRequest → Option String
encode r = some (
    if str_eq r.status pending
    then "new"
    else if str_eq r.status rejected
    then "refused"
    else if r.rejected_at == 7
    then "later"
    else "allowed")

abbrev decode : String → Option ApprovalRequest
decode t =
    if str_eq t "new"
    then some new
    else if str_eq t "refused"
    then some refused
    else if str_eq t "later"
    then some allowed_later
    else some allowed

abbrev redis : Outside Texts
redis = record {
  get = λ s k. some (s.texts k);
  setex =
      λ s k n v. (record { texts = λ j. if str_eq k j then v else s.texts j; sets = s.sets }, true);
  srem = λ s k m. (
    record { texts = s.texts; sets = λ j i. not (str_eq k j && str_eq m i) && s.sets j i },
    true,
  );
  sadd = λ s k m.
      (record { texts = s.texts; sets = λ j i. (str_eq k j && str_eq m i) || s.sets j i }, true);
  smembers = λ s k. some [];
  member = λ s k m. s.sets k m;
  marshal = encode;
  unmarshal = decode;
  trim_space = λ t. t;
  resolves_env = λ t. true;
  enabled_setting = none;
  address_setting = some "redis:6379";
  ttl_setting = none;
  prefix_setting = none;
}

redis-IsRedis : IsRedis redis
redis-IsRedis = record {
  reads = λ s k v n e. ground (arith, eq_iff k k);
  sets_only = λ s k v j m n h. refl;
  adds = λ s k m j i e. refl;
  adds_only = λ s k m j h. refl;
  removes = λ s k m j i e. refl;
  removes_only = λ s k m j h. refl;
}

abbrev empty : Texts
empty = record { texts = λ k. ""; sets = λ k m. false }

decoded :
    (r : ApprovalRequest) (code : String)
    → encode r ≡ some code
    → code ≢ ""
    → decode code ≡ some r
    → IsDecoded redis r
decoded r code e full back v h = (
  λ empty_text. full (some_inj.0 (sym e ∙ h) ∙ empty_text),
  ap decode (some_inj.0 (sym h ∙ e)) ∙ back,
)

new_decoded : IsDecoded redis new
new_decoded = decoded new "new" refl (λ h. ground (arith, eq_iff "new" "", h)) refl

refused_decoded : IsDecoded redis refused
refused_decoded = decoded refused "refused" refl (λ h. ground (arith, eq_iff "refused" "", h)) refl

later_decoded : IsDecoded redis allowed_later
later_decoded = decoded allowed_later "later" refl (λ h. ground (arith, eq_iff "later" "", h)) refl

abbrev queued : Texts
queued = (save redis empty new pending).0

enqueue-IsPlaced_example :
    let after =
      enqueue redis empty 5 "r1" none none "restart the api" new.reason new.execution_plan in
    (after.1 ≡ inr new)
    × IsPlaced redis after.0 "r1" new
    × (new.status ≡ "pending")
    × (new.query ≡ "restart the api")
    × ((status : String)
        → redis.member after.0 (status_key redis status) "r1" ≡ str_eq "pending" status)
unfolding approval_queue_enabled save leave enlist new_request
enqueue-IsPlaced_example =
    enqueue-IsPlaced redis empty 5 "r1" none none "restart the api" new.reason new.execution_plan
      redis-IsRedis new_decoded (λ status. refl) refl refl

queued-IsPlaced : IsPlaced redis queued "r1" new
unfolding enqueue new_request approval_queue_enabled answer leave enlist
queued-IsPlaced =
    (enqueue-IsPlaced redis empty 5 "r1" none none "restart the api" new.reason new.execution_plan
      redis-IsRedis new_decoded (λ status. refl) refl refl).1

abbrev turned_down : Texts
turned_down = (review redis queued 7 "r1" (rejects "ann" "")).0

turned_down-IsPlaced : IsPlaced redis turned_down "r1" refused
unfolding reviewed as_rejected review reject get save leave enlist answer error_of request_key
    approval_key_prefix
turned_down-IsPlaced =
    review-IsPlaced redis queued 7 (rejects "ann" "") new redis-IsRedis refused_decoded
      queued-IsPlaced refl refl

approve-rejected_example :
    let after = (approve redis turned_down 9 "r1" "bob").0 in
    (get redis after "r1" ≡ inr (as_approved redis 9 "bob" refused))
    × (redis.member after (status_key redis approved) "r1" ≡ true)
    × (redis.member after (status_key redis rejected) "r1" ≡ true)
unfolding as_approved review approve get save leave enlist reject as_rejected answer error_of
    request_key approval_key_prefix
approve-rejected_example =
    approve-rejected redis turned_down 9 "bob" refused redis-IsRedis later_decoded
      turned_down-IsPlaced refl refl

-- Only "do not " negates what follows it, and nothing is a separator.
abbrev words : Words
words = record {
  to_lower = λ t. t;
  prefix_matches = λ before. str_eq before "do not ";
  scope_matches = λ clause. false;
  last_index = λ value separator. none;
  cut = λ n t. t;
}

scan-enough_example :
    (found : Bool) × (scan words 19 "do not restart api" "restart" ≡ some found)
    × (scan words 30 "do not restart api" "restart" ≡ some found)
scan-enough_example =
    scan-enough words 19 30 "do not restart api" "restart" (omega arith) (omega arith) (omega arith)

check-approved_example :
    ((false ≡ true) ⊎ (requires_approval words "do not restart" ≡ false))
    × ((check words redis empty false 5 "r1" none none "do not restart").0 ≡ empty)
    × ((check words redis empty false 5 "r1" none none "do not restart").1.approval_request ≡ none)
unfolding check requires_approval has_any_unnegated_keyword scan keyword_is_negated
check-approved_example =
    check-approved words redis empty false 5 "r1" none none "do not restart" refl

check-queues_example :
    let after = check words redis empty false 5 "r1" none none "restart the api" in
    (after.1.approved ≡ false)
    × (after.1.queued ≡ true)
    × (after.1.approval_request ≡ some new)
    × (new.query ≡ "restart the api")
    × (new.status ≡ "pending")
    × IsPlaced redis after.0 "r1" new
    × ((status : String)
        → redis.member after.0 (status_key redis status) "r1" ≡ str_eq "pending" status)
unfolding requires_approval has_any_unnegated_keyword scan keyword_is_negated new_request save
    enlist leave approval_queue_enabled build_execution_plan
check-queues_example =
    check-queues words redis empty 5 "r1" none none "restart the api" redis-IsRedis refl
      (λ status. refl) refl new_decoded refl
