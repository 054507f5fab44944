-- ===== src/Governance/Lifecycle/States.antt =====
-- The states of a framework version: draft, active, retired, and no way back.
use mori_soc.Prelude.{
  ℕ, suc, ◌≤◌, ◌+◌, String, ◌≡◌, refl, sym, ◌∙◌, ◌⊎◌, true, false, List, [], ◌∷◌, map, ◌++◌, some,
  arith, contains, or_text, length, text_lt, text_le, text_lt_of_not_lt, text_lt_irrefl,
  text_lt_asymm, inl, inr, Bool-cases, ◌==◌, eq_iff, if◌then◌else◌,
}
use mathlib.Core.List.{append-nil, append_assoc}
use mori_soc.Prelude.Dict.{get, put, get-put}
use mori_soc.Governance.Lifecycle.{
  str, Event, Record, str_of, events_of, can_version_transition, stamp_state,
  apply_version_lifecycle, periods_overlap,
}

abbrev pub status_of : Record → String
status_of r = or_text (str_of (get r "status")) "draft"

-- The rank of a state along the way.
abbrev pub rank : String → ℕ
rank s = if s == "draft" then 0 else if s == "active" then 1 else 2

-- A permitted transition is one of two: draft to active, or active to retired.
pub can_version_transition_lem :
    (current target : String)
    → can_version_transition current target ≡ true
    → ((or_text current "draft" ≡ "draft") × (target ≡ "active"))
      ⊎ ((or_text current "draft" ≡ "active") × (target ≡ "retired"))
unfolding can_version_transition
can_version_transition_lem current target h = ground (
  arith,
  eq_iff "active" target,
  eq_iff "retired" target,
  eq_iff "draft" (or_text current "draft"),
  eq_iff "active" (or_text current "draft"),
)

-- A requested transition: the target state, who asks, and when.
pub record Transition : Type 0 where
  pub target : String
  pub actor : String
  pub now : String

abbrev pub transit : Record → Transition → Record
transit r t = apply_version_lifecycle r t.target t.actor t.now

abbrev pub transit_all : Record → List Transition → Record
transit_all r [] = r
transit_all r (t ∷ ts) = transit_all (transit r t) ts

-- Each transition is permitted in the state in which it is made, as the callers check.
abbrev pub Permitted : Record → List Transition → Type 0
Permitted r [] = Unit
Permitted r (t ∷ ts) =
    (can_version_transition (str_of (get r "status")) t.target ≡ true) × Permitted (transit r t) ts

get-stamp_state_other :
    (r : Record) (target actor now k : String)
    → contains
        ("activated_at" ∷ "activated_by" ∷ "retired_at" ∷ "retired_by" ∷ "effective_to" ∷ [])
        k
      ≡ false
    → get (stamp_state r target actor now) k ≡ get r k
unfolding stamp_state
get-stamp_state_other r target actor now k h = elim (Bool-cases (target == "active")) [
  | inl e ↦ rw e (simp get-put (ground arith))
  | inr e ↦ rw e (elim (Bool-cases (target == "retired")) [
    | inl f ↦ rw f (simp get-put (ground arith))
    | inr f ↦ rw f
  ])
]

status-transit : (r : Record) (t : Transition) → get (transit r t) "status" ≡ some (str t.target)
unfolding apply_version_lifecycle
status-transit r t =
    rw get-put (get-stamp_state_other _ t.target t.actor t.now "status" refl ∙ simp get-put)

rank-transit :
    (r : Record) (t : Transition)
    → can_version_transition (str_of (get r "status")) t.target ≡ true
    → rank (status_of (transit r t)) ≡ suc (rank (status_of r))
rank-transit r t h = elim (can_version_transition_lem (str_of (get r "status")) t.target h) [
  | inl (from, to) ↦ rw (status-transit r t) (rw (from, to))
  | inr (from, to) ↦ rw (status-transit r t) (rw (from, to))
]

rank-le : (s : String) → rank s ≤ 2
rank-le s = ground arith

rank-transit_all :
    (r : Record) (ts : List Transition)
    → Permitted r ts
    → rank (status_of (transit_all r ts)) ≡ rank (status_of r) + length ts
rank-transit_all r [] h = omega arith
rank-transit_all r (t ∷ ts) h =
    omega (arith, rank-transit r t h.0, rank-transit_all (transit r t) ts h.1)

-- Every permitted transition takes a version one step further from draft over active to retired, so
-- there are never more than two, and from a retired version there is none.
pub transit_all_lem :
    (r : Record) (ts : List Transition)
    → Permitted r ts
    → (rank (status_of (transit_all r ts)) ≡ rank (status_of r) + length ts)
      × (rank (status_of r) + length ts ≤ 2)
transit_all_lem r ts h = (
  rank-transit_all r ts h,
  omega (arith, rank-transit_all r ts h, rank-le (status_of (transit_all r ts))),
)

log_of : Record → List Event
log_of r = events_of (get r "lifecycle")

log-transit :
    (r : Record) (t : Transition)
    → log_of (transit r t) ≡ log_of r ++ record { ts = t.now; actor = t.actor; to = t.target } ∷ []
unfolding log_of apply_version_lifecycle
log-transit r t = rw get-put (
    rw
      (get-stamp_state_other (put r "status" (str t.target)) t.target t.actor t.now "lifecycle"
        refl)
      (rw get-put))

abbrev pub entry_of : Transition → Event
entry_of t = record { ts = t.now; actor = t.actor; to = t.target }

-- The lifecycle log keeps its entries and gains one for each transition, in order.
pub log-transit_all :
    (r : Record) (ts : List Transition)
    → events_of (get (transit_all r ts) "lifecycle")
      ≡ events_of (get r "lifecycle") ++ map entry_of ts
unfolding log_of
log-transit_all r [] = sym (append-nil _)
log-transit_all r (t ∷ ts) =
    log-transit_all (transit r t) ts
    ∙ (rw (log-transit r t) (append_assoc (log_of r) (entry_of t ∷ []) (map entry_of ts)))

-- A day lies in a period; an empty bound leaves it open.
abbrev pub InPeriod : String → String → String → Type 0
InPeriod from to day =
    (text_le (or_text from "0000-01-01") day ≡ true)
    × (text_le day (or_text to "9999-12-31") ≡ true)

le_trans_text : (s t u : String) → text_le s t ≡ true → text_le t u ≡ true → text_le s u ≡ true
le_trans_text s t u p q = elim (Bool-cases (text_lt u s)) [
  | inl r ↦ ground (arith, text_lt_of_not_lt t u s, r, p, q)
  | inr r ↦ rw r
]

-- Two periods that share a day overlap.
pub periods_overlap_of_day :
    (a_from a_to b_from b_to day : String)
    → InPeriod a_from a_to day
    → InPeriod b_from b_to day
    → periods_overlap a_from a_to b_from b_to ≡ true
unfolding periods_overlap
periods_overlap_of_day a_from a_to b_from b_to day a b =
    rw (le_trans_text _ day _ a.0 b.1, le_trans_text _ day _ b.0 a.1)

-- Two periods that overlap, neither of which ends before it starts, share a day.
pub day_of_periods_overlap :
    (a_from a_to b_from b_to : String)
    → text_le (or_text a_from "0000-01-01") (or_text a_to "9999-12-31") ≡ true
    → text_le (or_text b_from "0000-01-01") (or_text b_to "9999-12-31") ≡ true
    → periods_overlap a_from a_to b_from b_to ≡ true
    → (day : String) × InPeriod a_from a_to day × InPeriod b_from b_to day
unfolding periods_overlap
day_of_periods_overlap a_from a_to b_from b_to a b h =
    let s = or_text a_from "0000-01-01" in
    let t = or_text b_from "0000-01-01" in
    elim (Bool-cases (text_lt s t)) [
      | inl p ↦ (t, (rw (text_lt_asymm s t p), ground arith), (rw (text_lt_irrefl t), b))
      | inr p ↦ (s, (rw (text_lt_irrefl s), a), (rw p, ground arith))
    ]
