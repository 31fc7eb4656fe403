-- ===== src/Approval/Reviews.antt =====
-- The life of a request in internal/ai/service/approval_queue.go: the sets that
-- a request stands in after each method.
use ops_captain.Base.{
  ℕ, ◌≡◌, refl, subst, ◌⊎◌, inl, inr, String, true, false, ◌||◌, ◌&&◌, not, Option, none, some,
  List, arith, str_eq, eq_iff,
}
use ops_captain.Approval.Queue.{
  ApprovalRequest, ApprovalStatus, ApprovalError, Outside, pending, approved, rejected, status_key,
  save, get, approve, reject, mark_executed, answer, as_approved, as_rejected, as_executed, enqueue,
  new_request, approval_queue_enabled,
}
use ops_captain.Approval.Moves.{IsRedis, IsDecoded, save-member}

-- The methods that review a stored request.
pub data Review : Type 0 where
  approves : (reviewer : String) → Review
  rejects : (reviewer why : String) → Review
  executes : (trace_id : String) → Review

-- The status that the method takes the request out of.
abbrev pub from_status : Review → ApprovalStatus
from_status (executes t) = approved
from_status r = pending

unfoldable pub error_of : {A : Type 0} → ApprovalError ⊎ A → Option ApprovalError
error_of (inl e) = some e
error_of (inr a) = none

module _ {S : Type 0} (o : Outside S) where
  unfoldable pub review : S → ℕ → String → Review → S × Option ApprovalError
  unfolding error_of
  review s now id (approves reviewer) =
      let answered = approve o s now id reviewer in (answered.0, error_of answered.1)
  review s now id (rejects reviewer why) =
      let answered = reject o s now id reviewer why in (answered.0, error_of answered.1)
  review s now id (executes trace_id) = mark_executed o s now id trace_id

  -- The request as the method writes it.
  unfoldable pub reviewed : ℕ → Review → ApprovalRequest → ApprovalRequest
  unfolding as_approved as_rejected as_executed
  reviewed now (approves reviewer) r = as_approved o now reviewer r
  reviewed now (rejects reviewer why) r = as_rejected o now reviewer why r
  reviewed now (executes trace_id) r = as_executed o now trace_id r

  -- A request that is read back as it is, and stands in the set of its status and in no other.
  pub record IsPlaced (s : S) (id : String) (r : ApprovalRequest) : Type 0 where
    pub named : r.id ≡ id
    pub stored : get o s id ≡ inr r
    pub listed :
        (status : ApprovalStatus) → o.member s (status_key o status) id ≡ str_eq r.status status

  answer-whole :
      (a : S × Option ApprovalError) (r : ApprovalRequest)
      → ((answer o a r).0, error_of (answer o a r).1) ≡ a
  unfolding answer error_of
  answer-whole (s, none) r = refl
  answer-whole (s, some e) r = refl

  answer-ok :
      (a : S × Option ApprovalError) (r : ApprovalRequest)
      → a.1 ≡ none
      → answer o a r ≡ (a.0, inr r)
  unfolding answer
  answer-ok (s, none) r e = refl
  answer-ok (s, some x) r e = absurd (cc e)

  -- Every method saves the reviewed request.
  review-save :
      (s : S) (now : ℕ) (id : String) (m : Review) (r : ApprovalRequest)
      → get o s id ≡ inr r
      → review s now id m ≡ save o s (reviewed now m r) (from_status m)
  unfolding review reviewed approve reject mark_executed
  review-save s now id (approves reviewer) r e =
      rw (e, approve)
        (answer-whole (save o s (as_approved o now reviewer r) pending)
          (as_approved o now reviewer r))
  review-save s now id (rejects reviewer why) r e =
      rw (e, reject)
        (answer-whole (save o s (as_rejected o now reviewer why r) pending)
          (as_rejected o now reviewer why r))
  review-save s now id (executes trace_id) r e = rw (e, mark_executed) refl

  saved : {a b : S × Option ApprovalError} → a ≡ b → a.1 ≡ none → b.1 ≡ none
  saved e done = subst (λ x. x.1 ≡ none) e done

  reviewed-id : (now : ℕ) (m : Review) (r : ApprovalRequest) → (reviewed now m r).id ≡ r.id
  unfolding reviewed
  reviewed-id now (approves reviewer) r = refl
  reviewed-id now (rejects reviewer why) r = refl
  reviewed-id now (executes trace_id) r = refl

  -- A review of any stored request, whatever its status, that succeeds: the request is read back as
  -- the method writes it, it stands in the set of the new status, no longer in the set that the method
  -- takes it out of, and in every other set exactly if it did before.
  pub review-member :
      (s : S) (now : ℕ) (m : Review) (r : ApprovalRequest)
      → IsRedis o
      → IsDecoded o (reviewed now m r)
      → get o s r.id ≡ inr r
      → (review s now r.id m).1 ≡ none
      → (get o (review s now r.id m).0 r.id ≡ inr (reviewed now m r))
        × ((status : ApprovalStatus)
            → o.member (review s now r.id m).0 (status_key o status) r.id ≡ (
                str_eq (reviewed now m r).status status
                || (not (str_eq (from_status m) status) && o.member s (status_key o status) r.id)))
  unfolding reviewed
  review-member s now (approves reviewer) r laws decodes stored done =
      let e = review-save s now r.id (approves reviewer) r stored in
      rw e (save-member o s (as_approved o now reviewer r) pending laws decodes (saved e done))
  review-member s now (rejects reviewer why) r laws decodes stored done =
      let e = review-save s now r.id (rejects reviewer why) r stored in
      rw e (save-member o s (as_rejected o now reviewer why r) pending laws decodes (saved e done))
  review-member s now (executes trace_id) r laws decodes stored done =
      let e = review-save s now r.id (executes trace_id) r stored in
      rw e (save-member o s (as_executed o now trace_id r) approved laws decodes (saved e done))

  pub review-IsPlaced :
      (s : S) (now : ℕ) (m : Review) (r : ApprovalRequest)
      → IsRedis o
      → IsDecoded o (reviewed now m r)
      → IsPlaced s r.id r
      → r.status ≡ from_status m
      → (review s now r.id m).1 ≡ none
      → IsPlaced (review s now r.id m).0 r.id (reviewed now m r)
  review-IsPlaced s now m r laws decodes p e done =
      let (stored, listed) = review-member s now m r laws decodes p.stored done in
      record {
        named = reviewed-id now m r;
        stored = stored;
        listed = λ status. ground (
          arith,
          listed status,
          p.listed status,
          eq_iff r.status status,
          eq_iff (from_status m) status,
        );
      }

  -- A rejected request can be approved: if it is placed as rejected and `Approve` succeeds, it is
  -- stored as approved, and stands both in the set of the approved and in that of the rejected requests.
  pub approve-rejected :
      (s : S) (now : ℕ) (reviewer : String) (r : ApprovalRequest)
      → IsRedis o
      → IsDecoded o (as_approved o now reviewer r)
      → IsPlaced s r.id r
      → r.status ≡ rejected
      → (review s now r.id (approves reviewer)).1 ≡ none
      → (get o (approve o s now r.id reviewer).0 r.id ≡ inr (as_approved o now reviewer r))
        × (o.member (approve o s now r.id reviewer).0 (status_key o approved) r.id ≡ true)
        × (o.member (approve o s now r.id reviewer).0 (status_key o rejected) r.id ≡ true)
  unfolding review reviewed as_approved
  approve-rejected s now reviewer r laws decodes p e done =
      let (stored, listed) = review-member s now (approves reviewer) r laws decodes p.stored done in
      (
        stored,
        listed approved,
        ground (arith, listed rejected, p.listed rejected, eq_iff r.status rejected),
      )

  -- Where the queue is enabled, saving the request succeeds, JSON gives it back, and the new identifier
  -- stands in no set, `Enqueue` answers the request, and it is placed: `Get` answers it, its status is
  -- pending, its query the trimmed one, and it stands in the set of the pending requests only.
  pub enqueue-IsPlaced :
      (s : S) (now : ℕ) (uuid : String) (session_id user_id : Option String) (query reason : String)
      (plan : List String)
      → IsRedis o
      → IsDecoded o (new_request o now uuid session_id user_id query reason plan)
      → ((status : ApprovalStatus) → o.member s (status_key o status) uuid ≡ false)
      → approval_queue_enabled o ≡ true
      → (save o s (new_request o now uuid session_id user_id query reason plan) pending).1 ≡ none
      → let request = new_request o now uuid session_id user_id query reason plan in
        let after = enqueue o s now uuid session_id user_id query reason plan in
        (after.1 ≡ inr request)
        × IsPlaced after.0 uuid request
        × (request.status ≡ pending)
        × (request.query ≡ o.trim_space query)
        × ((status : ApprovalStatus)
            → o.member after.0 (status_key o status) uuid ≡ str_eq "pending" status)
  unfolding enqueue new_request
  enqueue-IsPlaced s now uuid session_id user_id query reason plan laws decodes fresh on done =
      let request = new_request o now uuid session_id user_id query reason plan in
      let (stored, listed) = save-member o s request pending laws decodes done in
      rw (on, enqueue)
        (rw (answer-ok (save o s request pending) request done) (
          refl,
          record {
            named = refl;
            stored = stored;
            listed = λ status. ground (arith, listed status, fresh status);
          },
          refl,
          refl,
          λ status. ground (arith, listed status, fresh status),
        ))
