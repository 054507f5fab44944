-- ===== src/Freshness/Ageing.antt =====
-- What time does to the status of evidence.
use mori_soc.Prelude.{
  leb, if◌then◌else◌, ltb→lt, lt→ltb, leb→le, Bool-cases, or_text, contains, ℕ, ◌-◌, ◌/◌, ◌≤◌,
  String, ◌≡◌, refl, inl, inr, Bool, true, false, ◌&&◌, Option, none, some, List, [], ◌∷◌, arith,
  ◌==◌,
}
use mori_soc.Approval.{Approval}
use mori_soc.Freshness.{
  EvidenceRecord, latest, age_days, exceeds, within, is_given, review_time, review_statuses,
  status_by, day, age_of, review_age, freshness_at,
}

-- How much a status lets one rely on the evidence.
abbrev pub trust : String → ℕ
trust status =
    if status == "human_verified"
    then 4
    else if status == "evidence_available"
    then 3
    else if status == "review_required"
    then 2
    else if status == "evidence_stale"
    then 1
    else 0

trust_of : Bool → Bool → Bool → Bool → ℕ
trust_of s v a c = if s then 1 else if v then 4 else if a then 2 else if c then 2 else 3

trust-status_by : (s v a c : Bool) → trust (status_by s v a c) ≡ trust_of s v a c
unfolding trust_of
trust-status_by true v a c = refl
trust-status_by false true a c = refl
trust-status_by false false true c = refl
trust-status_by false false false true = refl
trust-status_by false false false false = refl

trust_of-le :
    (s s' v v' a c : Bool)
    → (s ≡ true → s' ≡ true)
    → (v' ≡ true → v ≡ true)
    → (v ≡ true → a ≡ true)
    → trust_of s' v' a c ≤ trust_of s v a c
unfolding trust_of
trust_of-le s s' v v' a c h k l = ground arith

le→leb : (a b : ℕ) → a ≤ b → leb a b ≡ true
le→leb a b h = ground arith

and_mono : (a b c : Bool) → (b ≡ true → c ≡ true) → (a && b) ≡ true → (a && c) ≡ true
and_mono a b c f h = ground arith

and_left : (a b : Bool) → (a && b) ≡ true → a ≡ true
and_left a b h = ground arith

older_is_stale :
    (o : Option ℕ) (now later days : ℕ)
    → now ≤ later
    → exceeds (age_of o now) days ≡ true
    → exceeds (age_of o later) days ≡ true
older_is_stale none now later days h e = e
older_is_stale (some t) now later days h e =
    let e' = ltb→lt days ((now - t) / day) e in
    lt→ltb days ((later - t) / day) (omega (arith, e', h))

younger_review :
    (o : Option ℕ) (now later days : ℕ)
    → now ≤ later
    → within (age_of o later) days ≡ true
    → within (age_of o now) days ≡ true
younger_review none now later days h e = e
younger_review (some t) now later days h e =
    let e' = leb→le ((later - t) / day) days e in
    le→leb ((now - t) / day) days (omega (arith, e', h))

module _ (parse_iso : String → Option ℕ) where
  review_within :
      (iso : String) (now later days : ℕ)
      → now ≤ later
      → within (review_age parse_iso iso later) days ≡ true
      → within (review_age parse_iso iso now) days ≡ true
  review_within iso now later days h e = elim (Bool-cases (iso == "")) [
    | inl p ↦ rw (p) (rw (p) at e)
    | inr q ↦ rw (q) (younger_review (parse_iso iso) now later days h (rw (q) at e))
  ]

  -- Evidence does not become more trustworthy by waiting: with the same records, approval and limits, a
  -- later look never gives a status of more trust.
  pub freshness-ages :
      (recs : List EvidenceRecord) (now later : ℕ) (approval : Option Approval)
      (approval_status : String) (stale_days review_stale_days : ℕ)
      → now ≤ later
      → trust
          (freshness_at parse_iso recs later approval approval_status stale_days
            review_stale_days).status
        ≤ trust
            (freshness_at parse_iso recs now approval approval_status stale_days
              review_stale_days).status
  unfolding freshness_at
  freshness-ages [] now later approval approval_status stale_days review_stale_days h = omega arith
  freshness-ages (r ∷ rs) now later approval approval_status stale_days review_stale_days h =
      let collected =
        or_text (latest (λ e. e.generated_at) (r ∷ rs)) (latest (λ e. e.created_at) (r ∷ rs)) in
      let approved = approval_status == "approved" in
      let in_review = is_given approval && contains review_statuses approval_status in
      let reviewed =
        λ (t : ℕ). within (review_age parse_iso (review_time approval) t) review_stale_days in
      let stale = λ (t : ℕ). exceeds (age_days parse_iso collected t) stale_days in
      rw
        (
          trust-status_by (stale later) (approved && reviewed later) approved in_review,
          trust-status_by (stale now) (approved && reviewed now) approved in_review,
        )
        (trust_of-le (stale now) (stale later) (approved && reviewed now)
          (approved && reviewed later) approved in_review
          (older_is_stale (parse_iso collected) now later stale_days h)
          (and_mono approved (reviewed later) (reviewed now)
            (review_within (review_time approval) now later review_stale_days h))
          (and_left approved (reviewed now)))
