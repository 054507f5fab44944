-- ===== src/Approval/Unique.antt =====
-- The records of one control over a run of transitions.
use mori_soc.Prelude.{
  if◌then◌else◌, Bool-cases, count_if, ◌≤◌, String, ◌≡◌, refl, sym, ap, ◌∙◌, inl, inr, Bool, true,
  false, not, ◌&&◌, ◌||◌, Option, List, [], ◌∷◌, ◌++◌, map, arith, ◌==◌, eq_iff, eq_refl,
}
use mathlib.Core.List.{append_assoc}
use mori_soc.Approval.{
  Approval, save_approval, has_id, insert_approval, superseded_by, supersede_loop, ApprovalRequest,
  evidence_transition, store_reply, recorded,
}

abbrev pub NodupIds : List Approval → Type 0
NodupIds [] = Unit
NodupIds (a ∷ r) = (has_id r a.approval_id ≡ false) × NodupIds r

-- An approved record gives way to a new version.
abbrev pub retire : String → Approval → Approval
retire version a = if a.status == "approved" then superseded_by version a else a

abbrev pub is_approved : Approval → Bool
is_approved a = a.status == "approved"

id-retire : (v : String) (a : Approval) → (retire v a).approval_id ≡ a.approval_id
id-retire v a = ground arith

has_id-append :
    (xs ys : List Approval) (i : String) → has_id (xs ++ ys) i ≡ (has_id xs i || has_id ys i)
has_id-append [] ys i = refl
has_id-append (x ∷ xs) ys i = ground (arith, has_id-append xs ys i)

save_approval-append :
    (before r : List Approval) (a b : Approval)
    → has_id before a.approval_id ≡ false
    → b.approval_id ≡ a.approval_id
    → save_approval (before ++ a ∷ r) b
      ≡ before ++ record a { status = b.status; supersede_reason = b.supersede_reason } ∷ r
unfolding save_approval
save_approval-append [] r a b h same = rw same (rw (eq_refl a.approval_id) refl)
save_approval-append (x ∷ before) r a b h same =
    rw same (ground (arith, save_approval-append before r a b, same))

insert_approval-append :
    (before r : List Approval) (a b : Approval)
    → has_id before a.approval_id ≡ false
    → b.approval_id ≡ a.approval_id
    → insert_approval (before ++ a ∷ r) b
      ≡ before ++ record a { status = b.status; supersede_reason = b.supersede_reason } ∷ r
unfolding insert_approval
insert_approval-append before r a b h same =
    let known : has_id (before ++ a ∷ r) b.approval_id ≡ true =
      rw same (ground (arith, has_id-append before (a ∷ r) a.approval_id, eq_refl a.approval_id)) in
    rw known (save_approval-append before r a b h same)

abbrev Disjoint : List Approval → List Approval → Type 0
Disjoint before r = (i : String) → has_id r i ≡ true → has_id before i ≡ false

-- What the loop does at one record.
abbrev retire_in : Approval → List Approval → Approval → List Approval
retire_in r saved a =
    if a.status == "approved" && not (a.approval_id == r.approval_id)
    then insert_approval saved (superseded_by r.version a)
    else saved

retire_in-append :
    (r : Approval) (before loaded : List Approval) (a : Approval)
    → has_id before a.approval_id ≡ false
    → (a.approval_id == r.approval_id) ≡ false
    → retire_in r (before ++ a ∷ loaded) a ≡ before ++ retire r.version a ∷ loaded
retire_in-append r before loaded a h other = elim (Bool-cases (a.status == "approved")) [
  | inl e ↦
      rw (e, other) (insert_approval-append before loaded a (superseded_by r.version a) h refl)
  | inr e ↦ rw e refl
]

-- The records that the loop has passed are retired, the others are as they were.
supersede_loop-append :
    (r : Approval) (before loaded : List Approval)
    → NodupIds loaded
    → Disjoint before loaded
    → has_id loaded r.approval_id ≡ false
    → supersede_loop r loaded (before ++ loaded) ≡ before ++ map (retire r.version) loaded
unfolding supersede_loop
supersede_loop-append r before [] n d f = refl
supersede_loop-append r before (a ∷ loaded) n d f =
    let a' = retire r.version a in
    let apart : Disjoint (before ++ a' ∷ []) loaded = λ i h. ground (
      arith,
      has_id-append before (a' ∷ []) i,
      id-retire r.version a,
      d i,
      n.0,
      eq_iff a.approval_id i,
    ) in
    let outside : has_id before a.approval_id ≡ false =
      d a.approval_id (ground (arith, eq_refl a.approval_id)) in
    let other : (a.approval_id == r.approval_id) ≡ false = ground arith in
    let ih = supersede_loop-append r (before ++ a' ∷ []) loaded n.1 apart (ground arith) in
    ap (supersede_loop r loaded) (
      retire_in-append r before loaded a outside other ∙ sym (append_assoc before (a' ∷ []) loaded))
    ∙ ih
    ∙ append_assoc before (a' ∷ []) (map (retire r.version) loaded)

-- Storing a record of a new identity puts it in front; if it is an approval, every approved record
-- before it becomes superseded in its place, and every other record stays as it was.
pub store_reply_lem :
    (records : List Approval) (r : Approval)
    → NodupIds records
    → has_id records r.approval_id ≡ false
    → store_reply records (recorded r)
      ≡ (if is_approved r then r ∷ map (retire r.version) records else r ∷ records)
unfolding store_reply insert_approval
store_reply_lem records r n f =
    let apart : Disjoint (r ∷ []) records = λ i h. ground (arith, eq_iff r.approval_id i) in
    rw f (elim (Bool-cases (is_approved r)) [
      | inl e ↦ rw e (supersede_loop-append r (r ∷ []) records n apart f)
      | inr e ↦ rw e refl
    ])

has_id-retire :
    (v : String) (records : List Approval) (i : String)
    → has_id (map (retire v) records) i ≡ has_id records i
has_id-retire v [] i = refl
has_id-retire v (a ∷ r) i = rw (id-retire v a, has_id-retire v r i) refl

NodupIds-retire :
    (v : String) (records : List Approval) → NodupIds records → NodupIds (map (retire v) records)
NodupIds-retire v [] n = tt
NodupIds-retire v (a ∷ r) n =
    (rw (id-retire v a) (has_id-retire v r a.approval_id ∙ n.0), NodupIds-retire v r n.1)

none_approved-retire :
    (v : String) (records : List Approval) → count_if is_approved (map (retire v) records) ≡ 0
none_approved-retire v [] = refl
none_approved-retire v (a ∷ r) = elim (Bool-cases (a.status == "approved")) [
  | inl e ↦ rw e (none_approved-retire v r)
  | inr e ↦ rw (e, e) (none_approved-retire v r)
]

-- The records that a run of requests for one control can leave.
module _ (short_id : String → List String → String) (prefix_12 : String → String) where
  pub data Stored : List Approval → Type 0 where
    none_yet : Stored []
    one_more :
        (records : List Approval) (role evidence : Option String) (control_id actor : String)
        (request : ApprovalRequest) (now : String) (r : Approval)
        → Stored records
        → evidence_transition short_id prefix_12 role evidence control_id actor records request now
          ≡ recorded r
        → has_id records r.approval_id ≡ false
        → Stored (store_reply records (recorded r))

one_approved_step :
    (records : List Approval) (r : Approval)
    → NodupIds records × (count_if is_approved records ≤ 1)
    → has_id records r.approval_id ≡ false
    → NodupIds (store_reply records (recorded r))
      × (count_if is_approved (store_reply records (recorded r)) ≤ 1)
one_approved_step records r h f =
    rw (store_reply_lem records r h.0 f) (elim (Bool-cases (is_approved r)) [
      | inl e ↦ rw e (
        (has_id-retire r.version records r.approval_id ∙ f, NodupIds-retire r.version records h.0),
        ground (arith, none_approved-retire r.version records),
      )
      | inr e ↦ rw e ((f, h.0), ground (arith, h.1))
    ])

-- As long as each record has a new identity, no two records of a control share an identity and at
-- most one of them is approved.
pub one_approved :
    (short_id : String → List String → String) (prefix_12 : String → String)
    (records : List Approval)
    → Stored short_id prefix_12 records
    → NodupIds records × (count_if is_approved records ≤ 1)
one_approved short_id prefix_12 _ none_yet = (tt, omega arith)
one_approved short_id prefix_12 _
      (one_more records role evidence control_id actor request now r h _ f) =
    one_approved_step records r (one_approved short_id prefix_12 records h) f
