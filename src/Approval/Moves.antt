-- ===== src/Approval/Moves.antt =====
-- How a review of internal/ai/service/approval_queue.go moves a request between the sets of a status.
use Prim.Native.String.{◌++◌ as join}
use text.Mathlib.TextLemmas.{append_assoc, append_cancel_left, append_inj}
use ops_captain.Base.{
  ℕ, ◌≡◌, ◌≢◌, refl, sym, ◌∙◌, inl, inr, String, true, not, ◌&&◌, ◌||◌, none, some, arith, str_eq,
  Bool-cases, Option-cases, eq_iff, prefixed,
}
use ops_captain.Approval.Queue.{
  ApprovalRequest, ApprovalStatus, Outside, request_key, status_key, save, get,
  approval_request_ttl, approval_key_prefix, leave, enlist,
}

-- What Redis documents of the commands, as far as the queue relies on it. A command that answers OK has its
-- effect on its own key only; `member` is what SISMEMBER answers.
pub record IsRedis {S : Type 0} (o : Outside S) : Type 0 where
  pub reads :
      (s : S) (k v : String) (n : ℕ)
      → (o.setex s k n v).1 ≡ true
      → o.get (o.setex s k n v).0 k ≡ some v
  pub sets_only :
      (s : S) (k v j m : String) (n : ℕ) → k ≢ j → o.member (o.setex s k n v).0 j m ≡ o.member s j m
  pub adds :
      (s : S) (k m j i : String)
      → (o.sadd s k m).1 ≡ true
      → o.member (o.sadd s k m).0 j i ≡ ((str_eq k j && str_eq m i) || o.member s j i)
  pub adds_only : (s : S) (k m j : String) → k ≢ j → o.get (o.sadd s k m).0 j ≡ o.get s j
  pub removes :
      (s : S) (k m j i : String)
      → (o.srem s k m).1 ≡ true
      → o.member (o.srem s k m).0 j i ≡ (not (str_eq k j && str_eq m i) && o.member s j i)
  pub removes_only : (s : S) (k m j : String) → k ≢ j → o.get (o.srem s k m).0 j ≡ o.get s j

-- Decoding the JSON of a request gives the request.
abbrev pub IsDecoded : {S : Type 0} → Outside S → ApprovalRequest → Type 0
IsDecoded o r =
    (v : String)
    → o.marshal r ≡ some v
    → (o.trim_space v ≢ "") × (o.unmarshal (o.trim_space v) ≡ some r)

request≢status : (a b : String) → join ":request:" a ≢ join ":status:" b
request≢status a b h =
    let cut =
      append_inj {s₁ = ":request"} {s₂ = ":status:"} {t₁ = join ":" a} {t₂ = b}
        (sym (append_assoc ":request" ":" a) ∙ h) refl in
    ground (arith, eq_iff ":request" ":status:", cut.0)

module _ {S : Type 0} (o : Outside S) where
  request_key≢status_key : (id status : String) → request_key o id ≢ status_key o status
  unfolding request_key status_key
  request_key≢status_key id status h = request≢status (o.trim_space id) status (
      append_cancel_left (approval_key_prefix o) (join ":request:" (o.trim_space id))
        (join ":status:" status) h)

  status_key≢request_key : (id status : String) → status_key o status ≢ request_key o id
  status_key≢request_key id status h = request_key≢status_key id status (sym h)

  status_key_eq : (a b : String) → str_eq (status_key o a) (status_key o b) ≡ str_eq a b
  unfolding status_key
  status_key_eq a b =
      prefixed (approval_key_prefix o) (join ":status:" a) (join ":status:" b)
      ∙ prefixed ":status:" a b

  enlist-member :
      (s : S) (r : ApprovalRequest) (previous : ApprovalStatus)
      → IsRedis o
      → (enlist o s r previous).1 ≡ none
      → (o.get (enlist o s r previous).0 (request_key o r.id) ≡ o.get s (request_key o r.id))
        × ((status : ApprovalStatus)
            → o.member (enlist o s r previous).0 (status_key o status) r.id ≡ (
                str_eq r.status status
                || (not (not (str_eq previous "") && str_eq previous status)
                    && o.member s (status_key o status) r.id)))
  unfolding leave enlist
  enlist-member s r previous laws done =
      let key = request_key o r.id in
      let left = (leave o s r previous).0 in
      (
        ground (
          arith,
          laws.adds_only left (status_key o r.status) r.id key
              (status_key≢request_key r.id r.status),
          laws.removes_only s (status_key o previous) r.id key
              (status_key≢request_key r.id previous),
        ),
        λ status. ground (
          arith,
          laws.adds left (status_key o r.status) r.id (status_key o status) r.id,
          laws.removes s (status_key o previous) r.id (status_key o status) r.id,
          status_key_eq r.status status,
          status_key_eq previous status,
          eq_iff r.id r.id,
          eq_iff previous status,
          eq_iff previous r.status,
          eq_iff r.status status,
        ),
      )

  -- After a save that succeeds, the request is read back; it stands in the set of its status and no
  -- longer in that of the previous one, if that is another; all other sets are as before.
  pub save-member :
      (s : S) (r : ApprovalRequest) (previous : ApprovalStatus)
      → IsRedis o
      → IsDecoded o r
      → (save o s r previous).1 ≡ none
      → (get o (save o s r previous).0 r.id ≡ inr r)
        × ((status : ApprovalStatus)
            → o.member (save o s r previous).0 (status_key o status) r.id ≡ (
                str_eq r.status status
                || (not (not (str_eq previous "") && str_eq previous status)
                    && o.member s (status_key o status) r.id)))
  unfolding save get
  save-member s r previous laws decodes done = elim (Option-cases (o.marshal r)) [
    | inl e ↦ absurd (ground arith)
    | inr (payload, e) ↦
        let key = request_key o r.id in
        let ttl = approval_request_ttl o in
        let set = (o.setex s key ttl payload).0 in
        elim (Bool-cases (o.setex s key ttl payload).1) [
          | inr f ↦ absurd (ground (arith, e))
          | inl f ↦
              let listed = enlist-member set r previous laws (ground (arith, e)) in
              let (full, back) = decodes payload e in
              (
                ground (
                  arith,
                  e,
                  listed.0,
                  laws.reads s key payload ttl f,
                  full,
                  back,
                  eq_iff (o.trim_space payload) "",
                ),
                λ status. ground (
                  arith,
                  e,
                  listed.1 status,
                  laws.sets_only s key payload (status_key o status) r.id ttl
                      (request_key≢status_key r.id status),
                ),
              )
        ]
  ]
