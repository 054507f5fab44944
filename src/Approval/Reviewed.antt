-- ===== src/Approval/Reviewed.antt =====
-- What stands before an approval: `evidence_transition` and the current status of the evidence.
use mori_soc.Prelude.{
  contains, or_text_lem, or_false, if◌then◌else◌, Bool-cases, or_text, String, ◌≡◌, refl, sym, ap,
  ◌∙◌, ◌≢◌, inl, inr, Bool, true, false, not, ◌&&◌, Option, none, some, ◌⊎◌, List, [], ◌∷◌, arith,
  ◌==◌, eq_iff,
}
use mori_soc.Prelude.Dict.{get}
use mathlib.Core.Bool.{false≢true}
use mori_soc.Approval.{
  ApprovalReply, unknown_target, forbidden, not_allowed, id_of, approval_statuses, can_approve,
  Approval, current_approval_status, ApprovalRequest, may_set, build_approval, evidence_transition,
  recorded,
}
use mori_soc.Approval.Unique.{is_approved}

abbrev is_recorded : ApprovalReply → Bool
is_recorded (recorded r) = true
is_recorded _ = false

abbrev recorded_as : Approval → ApprovalReply → Approval
recorded_as a (recorded r) = r
recorded_as a _ = a

-- The answer of the tests, by their results.
tests_passed :
    (known may can : Bool) (a r : Approval)
    → (if not known
        then unknown_target
        else if not may
        then forbidden
        else if not can
        then not_allowed
        else recorded a)
      ≡ recorded r
    → (may ≡ true) × (can ≡ true) × (a ≡ r)
tests_passed true true true a r h = (refl, refl, ap (recorded_as a) h)
tests_passed true true false a r h = absurd (false≢true (ap is_recorded h))
tests_passed true false can a r h = absurd (false≢true (ap is_recorded h))
tests_passed false may can a r h = absurd (false≢true (ap is_recorded h))

recorded_lem :
    (short_id : String → List String → String) (prefix_12 : String → String) (role : Option String)
    (hash control_id actor : String) (records : List Approval) (request : ApprovalRequest)
    (now : String) (r : Approval)
    → evidence_transition short_id prefix_12 role (some hash) control_id actor records request now
      ≡ recorded r
    → (may_set role request.target ≡ true)
      × (can_approve (current_approval_status records hash).0 request.target ≡ true)
      × (request.target ≡ r.status)
      × (hash ≡ r.content_hash)
unfolding evidence_transition build_approval
recorded_lem short_id prefix_12 role hash control_id actor records request now r h =
    let (may, can, same) =
      tests_passed (contains approval_statuses request.target) (may_set role request.target)
        (can_approve (current_approval_status records hash).0 request.target)
        (build_approval short_id prefix_12 control_id hash (prefix_12 hash) request actor
          (id_of (current_approval_status records hash).1) now)
        r h in
    (may, can, ap (λ (a : Approval). a.status) same, ap (λ (a : Approval). a.content_hash) same)

-- Without evidence nothing is recorded.
unrecorded :
    (short_id : String → List String → String) (prefix_12 : String → String) (role : Option String)
    (control_id actor : String) (records : List Approval) (request : ApprovalRequest) (now : String)
    (r : Approval)
    → ◌≢◌
        (evidence_transition short_id prefix_12 role none control_id actor records request now)
        (recorded r)
unfolding evidence_transition
unrecorded short_id prefix_12 role control_id actor records request now r h =
    elim (Bool-cases (contains approval_statuses request.target)) [
      | inl e ↦ false≢true (ap is_recorded (rw e at h))
      | inr e ↦ false≢true (ap is_recorded (rw e at h))
    ]

reviewed_first : (c : String) → can_approve c "approved" ≡ true → c ≡ "reviewed"
unfolding can_approve get
reviewed_first c h = or_text_lem c "draft" "reviewed" refl (or_false h)

reviewed_is_no_draft : ◌≢◌ {A = String} "draft" "reviewed"
reviewed_is_no_draft e = false≢true (ap (λ s. s == "reviewed") e)

-- Whether the content has changed since the newest record.
abbrev is_changed : Approval → String → Bool
is_changed latest hash = not (hash == "") && not (latest.content_hash == hash)

changed_lem :
    (latest : Approval) (older : List Approval) (hash : String)
    → is_changed latest hash ≡ true
    → (current_approval_status (latest ∷ older) hash).0 ≡ "draft"
unfolding current_approval_status
changed_lem latest older hash e = rw e refl

pick :
    (b : Bool) (st : String) (o : Option Approval)
    → (if◌then◌else◌ {A = String × Option Approval} b ("draft", o) (st, o)).0
      ≡ (if b then "draft" else st)
pick true st o = refl
pick false st o = refl

draft_or : (b : Bool) (st : String) → (if b then "draft" else st) ≡ "reviewed" → st ≡ "reviewed"
draft_or true st h = absurd (reviewed_is_no_draft h)
draft_or false st h = h

unchanged_lem :
    (latest : Approval) (older : List Approval) (hash : String)
    → is_changed latest hash ≡ false
    → (current_approval_status (latest ∷ older) hash).0 ≡ "reviewed"
    → latest.status ≡ "reviewed"
unfolding current_approval_status
unchanged_lem latest older hash e h =
    let st = or_text latest.status "draft" in
    let h' = draft_or (st == "superseded") st (sym (pick (st == "superseded") _ _) ∙ (rw e at h)) in
    or_text_lem latest.status "draft" "reviewed" refl (ap (λ s. "reviewed" == s) h')

current_lem :
    (records : List Approval) (hash : String)
    → (current_approval_status records hash).0 ≡ "reviewed"
    → (latest : Approval) × (older : List Approval) × (records ≡ latest ∷ older)
      × (latest.status ≡ "reviewed")
      × ((hash == "") ≡ false → latest.content_hash ≡ hash)
current_lem [] hash h = absurd (reviewed_is_no_draft (unfold current_approval_status in h))
current_lem (latest ∷ older) hash h = elim (Bool-cases (is_changed latest hash)) [
  | inl e ↦ absurd (reviewed_is_no_draft (sym (changed_lem latest older hash e) ∙ h))
  | inr e ↦ (
    latest,
    older,
    refl,
    unchanged_lem latest older hash e h,
    λ n. ground (arith, eq_iff latest.content_hash hash, e, n),
  )
]

only_admin :
    (role : Option String) → may_set role "approved" ≡ true → (role ≡ none) ⊎ (role ≡ some "admin")
unfolding get
only_admin none h = inl refl
only_admin (some x) h = inr (ap some (sym ((eq_iff "admin" x).0 (or_false h))))

-- An approval is recorded only by an administrator, where roles are enforced, only for evidence that exists
-- and under the hash of that evidence, and only right after a review: the newest record is a review, and it
-- has the same hash unless the hash of the evidence is the empty text.
pub approved_after_review :
    (short_id : String → List String → String) (prefix_12 : String → String)
    (role evidence : Option String) (control_id actor : String) (records : List Approval)
    (request : ApprovalRequest) (now : String) (r : Approval)
    → evidence_transition short_id prefix_12 role evidence control_id actor records request now
      ≡ recorded r
    → is_approved r ≡ true
    → ((role ≡ none) ⊎ (role ≡ some "admin"))
      × (evidence ≡ some r.content_hash)
      × ((latest : Approval) × (older : List Approval) × (records ≡ latest ∷ older)
          × (latest.status ≡ "reviewed")
          × ((r.content_hash == "") ≡ false → latest.content_hash ≡ r.content_hash))
approved_after_review short_id prefix_12 role none control_id actor records request now r h e =
    absurd (unrecorded short_id prefix_12 role control_id actor records request now r h)
approved_after_review short_id prefix_12 role (some hash) control_id actor records request now r h
      e =
    let (may, can, target, same) =
      recorded_lem short_id prefix_12 role hash control_id actor records request now r h in
    let approved : request.target ≡ "approved" =
      ground (arith, eq_iff r.status "approved", target) in
    let reviewed : (current_approval_status records r.content_hash).0 ≡ "reviewed" =
      ap (λ k. (current_approval_status records k).0) (sym same)
      ∙ reviewed_first _ (ap (can_approve _) (sym approved) ∙ can) in
    (
      only_admin role (ap (may_set role) (sym approved) ∙ may),
      ap some same,
      current_lem records r.content_hash reviewed,
    )
