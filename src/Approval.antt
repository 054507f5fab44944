-- ===== src/Approval.antt =====
-- The life of an evidence approval: src/mori_soc/services/evidence_approval.py, the handler
-- `evidence_transition` of src/mori_soc/api/routes/compliance.py, and the upsert of
-- src/mori_soc/repositories/state_postgres.py. The records of one control stand newest first, as
-- `load_evidence_approvals` gives them.
use mori_soc.Prelude.{
  if◌then◌else◌, or_text, contains, ◌<◌, String, ◌<>◌, Bool, true, false, not, ◌&&◌, ◌||◌, Option,
  none, some, List, [], ◌∷◌, ◌==◌,
}
use mori_soc.Prelude.Dict.{Dict, get, is_some, or_value}
pub mod Unique
pub mod Reviewed

abbrev pub approval_statuses : List String
approval_statuses = "draft" ∷ "reviewed" ∷ "approved" ∷ "superseded" ∷ "revoked" ∷ []

abbrev pub approval_sources : Dict (List String)
approval_sources =
    ("reviewed", "draft" ∷ [])
    ∷ ("approved", "reviewed" ∷ [])
    ∷ ("draft", "reviewed" ∷ [])
    ∷ ("superseded", "approved" ∷ [])
    ∷ ("revoked", "draft" ∷ "reviewed" ∷ "approved" ∷ "superseded" ∷ [])
    ∷ []

abbrev pub role_for : Dict (List String)
role_for =
    ("reviewed", "admin" ∷ "security" ∷ [])
    ∷ ("approved", "admin" ∷ [])
    ∷ ("draft", "admin" ∷ "security" ∷ [])
    ∷ ("revoked", "admin" ∷ [])
    ∷ ("superseded", "admin" ∷ [])
    ∷ []

unfoldable pub can_approve : String → String → Bool
unfolding get
can_approve current target =
    let found = get approval_sources target in
    is_some found && contains (or_value found []) (or_text current "draft")

pub record Approval : Type 0 where
  pub approval_id : String
  pub control_id : String
  pub evidence_id : String
  pub content_hash : String
  pub version : String
  pub status : String
  pub reviewer : String
  pub approver : String
  pub reviewed_at : String
  pub approved_at : String
  pub pdf_sha256 : String
  pub prev_approval_id : String
  pub supersede_reason : String
  pub actor : String
  pub created_at : String

-- `_current_approval_status`: a changed content or a superseded record starts a new version.
unfoldable pub current_approval_status : List Approval → String → String × Option Approval
current_approval_status [] current_hash = ("draft", none)
current_approval_status (latest ∷ _) current_hash =
    if not (current_hash == "") && not (latest.content_hash == current_hash)
    then ("draft", some latest)
    else (let st = or_text latest.status "draft" in
        if st == "superseded" then ("draft", some latest) else (st, some latest))

abbrev pub id_of : Option Approval → String
id_of none = ""
id_of (some a) = a.approval_id

-- `save_evidence_approval`: an old identity takes the new state and reason, and nothing else.
unfoldable pub save_approval : List Approval → Approval → List Approval
save_approval [] r = r ∷ []
save_approval (a ∷ older) r =
    if a.approval_id == r.approval_id
    then record a { status = r.status; supersede_reason = r.supersede_reason } ∷ older
    else a ∷ save_approval older r

-- Whether an identity has a record.
abbrev pub has_id : List Approval → String → Bool
has_id [] i = false
has_id (a ∷ r) i = a.approval_id == i || has_id r i

-- A record of a new identity is the newest.
unfoldable pub insert_approval : List Approval → Approval → List Approval
unfolding save_approval
insert_approval records r =
    if has_id records r.approval_id then save_approval records r else r ∷ records

-- `{**a, "status": "superseded"}`, with the reason
abbrev pub superseded_by : String → Approval → Approval
superseded_by version a = record a { status = "superseded"; supersede_reason = "대체: " <> version }

-- The loop over the records that were loaded, each saved on its own.
unfoldable pub supersede_loop : Approval → List Approval → List Approval → List Approval
unfolding insert_approval
supersede_loop r [] saved = saved
supersede_loop r (a ∷ loaded) saved = supersede_loop r loaded (
    if a.status == "approved" && not (a.approval_id == r.approval_id)
    then insert_approval saved (superseded_by r.version a)
    else saved)

pub record ApprovalRequest : Type 0 where
  pub target : String
  pub reason : String
  pub pdf_sha256 : String

pub data ApprovalReply : Type 0 where
  unknown_target : ApprovalReply
  no_evidence : ApprovalReply
  forbidden : ApprovalReply
  not_allowed : ApprovalReply
  recorded : Approval → ApprovalReply

-- The records after a reply.
unfoldable pub store_reply : List Approval → ApprovalReply → List Approval
unfolding insert_approval supersede_loop
store_reply records (recorded r) =
    let saved = insert_approval records r in
    if r.status == "approved" then supersede_loop r records saved else saved
store_reply records _ = records

-- `role in ROLE_FOR.get(target, ())`, where roles are enforced
abbrev pub may_set : Option String → String → Bool
may_set none target = true
may_set (some role) target = contains (or_value (get role_for target) []) role

-- The digest of the parts, and the first twelve characters of a hash, are parameters.
module _ (short_id : String → List String → String) (prefix_12 : String → String) where
  unfoldable pub build_approval :
      String → String → String → ApprovalRequest → String → String → String → Approval
  build_approval control_id content_hash version request actor prev_approval_id now =
      let status = request.target in
      record {
        approval_id = short_id "appr" (control_id ∷ content_hash ∷ status ∷ now ∷ []);
        control_id = control_id;
        evidence_id = control_id;
        content_hash = content_hash;
        version = or_text version (if content_hash == "" then "" else prefix_12 content_hash);
        status = status;
        reviewer = if status == "reviewed" then actor else "";
        approver = if status == "approved" then actor else "";
        reviewed_at = if status == "reviewed" then now else "";
        approved_at = if status == "approved" then now else "";
        pdf_sha256 = request.pdf_sha256;
        prev_approval_id = prev_approval_id;
        supersede_reason =
            if contains ("superseded" ∷ "revoked" ∷ "draft" ∷ []) status
            then request.reason
            else "";
        actor = actor;
        created_at = now;
      }

  -- Who asks: the role, when roles are enforced. What is asked of: the hash of the evidence, if any.
  unfoldable pub evidence_transition :
      Option String
      → Option String
      → String
      → String
      → List Approval
      → ApprovalRequest
      → String
      → ApprovalReply
  unfolding can_approve current_approval_status build_approval get
  evidence_transition role evidence control_id actor records request now =
      if not (contains approval_statuses request.target) then unknown_target else elim evidence [
        | none ↦ no_evidence
        | some hash ↦
            let (status, current) = current_approval_status records hash in
            if not (may_set role request.target)
            then forbidden
            else if not (can_approve status request.target)
            then not_allowed
            else recorded
                (build_approval control_id hash (prefix_12 hash) request actor (id_of current) now)
      ]
