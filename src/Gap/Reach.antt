-- ===== src/Gap/Reach.antt =====
-- What holds of every gap that the handlers of src/mori_soc/api/routes/compliance.py can make.
use mori_soc.Prelude.{
  Bool, not, if◌then◌else◌, or_text_lem, or_false, Bool-cases, or_text, contains, String, ◌≡◌, refl,
  sym, ap, ◌∙◌, ◌≢◌, inl, inr, true, false, ◌||◌, some, List, [], ◌∷◌, ◌++◌, arith, ◌==◌, eq_iff,
  eq_refl,
}
use mori_soc.Prelude.Dict.{Dict, get}
use mathlib.Core.Bool.{false≢true}
use mathlib.Core.Path.{subst}
use mori_soc.Gap.{
  GapReply, bad_target, refused, bad_resolution, gap_statuses, resolution_types, can_move, Step,
  Gap, GapRequest, build_gap, move_gap, unknown_resolution, gap_reply, gap_transition, moved,
}

-- The targets of the steps of a gap's history.
abbrev pub targets : List Step → List String
targets [] = []
targets (s ∷ r) = s.to ∷ targets r

contains-targets_append :
    (h : List Step) (s : Step) (x : String)
    → contains (targets (h ++ s ∷ [])) x ≡ (contains (targets h) x || s.to == x)
contains-targets_append [] s x = ground arith
contains-targets_append (t ∷ h) s x = ground (arith, contains-targets_append h s x)

module _ (short_id : String → List String → String) where
  -- The gaps of the repository: one is created, or the handler moves one.
  pub data Reachable : Gap → Type 0 where
    created :
        (source control_id key title detail now created_by : String)
        → Reachable (build_gap short_id source control_id key title detail now created_by)
    moved_on :
        (gaps : Dict Gap) (k : String) (request : GapRequest) (actor now : String) (gap gap' : Gap)
        → Reachable gap
        → get gaps k ≡ some gap
        → gap_transition gaps k request actor now ≡ moved gap'
        → Reachable gap'

-- The states that only a gap which a person has confirmed can be in.
abbrev pub after_decision : List String
after_decision = "confirmed" ∷ "remediation" ∷ "accepted_exception" ∷ "resolved" ∷ []

-- What the history of a gap holds for the state that it is in.
pub record Accounted (gap : Gap) : Type 0 where
  pub known : contains gap_statuses gap.status ≡ true
  pub recorded : contains (targets gap.history) gap.status ≡ true
  pub decided :
      contains after_decision gap.status ≡ true → contains (targets gap.history) "confirmed" ≡ true
  pub repaired : gap.status ≡ "resolved" → contains (targets gap.history) "remediation" ≡ true
  pub verified :
      gap.status ≡ "resolved"
      → (contains resolution_types gap.resolution_type ≡ true) × (gap.verified_at ≡ gap.updated_at)

candidate_is_open : ◌≢◌ {A = String} "candidate" "resolved"
candidate_is_open e = false≢true (ap (λ s. s == "resolved") e)

confirmed_first :
    (c : String)
    → (can_move c "remediation" ≡ true → c ≡ "confirmed")
      × (can_move c "accepted_exception" ≡ true → c ≡ "confirmed")
      × (can_move c "resolved" ≡ true → c ≡ "remediation")
unfolding can_move get
confirmed_first c = (
  λ h. or_text_lem c "candidate" "confirmed" refl (or_false (h)),
  λ h. or_text_lem c "candidate" "confirmed" refl (or_false (h)),
  λ h. or_text_lem c "candidate" "remediation" refl (or_false h),
)

-- What the way to each of the states needs.
sources_of :
    (c t : String)
    → can_move c t ≡ true
    → (t ≡ "remediation" → c ≡ "confirmed")
      × (t ≡ "accepted_exception" → c ≡ "confirmed")
      × (t ≡ "resolved" → c ≡ "remediation")
sources_of c t h = (
  λ e. (confirmed_first c).0 (ap (can_move c) (sym e) ∙ h),
  λ e. (confirmed_first c).1 (ap (can_move c) (sym e) ∙ h),
  λ e. (confirmed_first c).2 (ap (can_move c) (sym e) ∙ h),
)

build_gap-Accounted :
    (short_id : String → List String → String)
    (source control_id key title detail now created_by : String)
    → Accounted (build_gap short_id source control_id key title detail now created_by)
unfolding build_gap
build_gap-Accounted short_id source control_id key title detail now created_by = record {
  known = refl;
  recorded = refl;
  decided = λ e. absurd (false≢true e);
  repaired = λ e. absurd (candidate_is_open e);
  verified = λ e. absurd (candidate_is_open e);
}

resolution_known :
    (request : GapRequest)
    → (request.target == "resolved") ≡ true
    → unknown_resolution request ≡ false
    → contains resolution_types (or_text request.resolution_type "manually_verified") ≡ true
resolution_known request e h = elim (Bool-cases (request.resolution_type == "")) [
  | inl f ↦ rw f refl
  | inr f ↦ rw f (ground arith)
]

move_gap-Accounted :
    (gap : Gap) (request : GapRequest) (actor now : String)
    → Accounted gap
    → contains gap_statuses request.target ≡ true
    → can_move gap.status request.target ≡ true
    → unknown_resolution request ≡ false
    → Accounted (move_gap gap request actor now)
unfolding move_gap
move_gap-Accounted gap request actor now h known may resolution = record {
  known = known;
  recorded =
      rw (contains-targets_append gap.history _ request.target)
        (ground (arith, eq_refl request.target));
  decided = λ e. rw (contains-targets_append gap.history _ "confirmed") (
      ground (
        arith,
        λ (e : gap.status ≡ "confirmed"). h.decided (ap (contains after_decision) e),
        λ (e : gap.status ≡ "remediation"). h.decided (ap (contains after_decision) e),
        h.recorded,
        (sources_of gap.status request.target may).0,
        (sources_of gap.status request.target may).1,
        (sources_of gap.status request.target may).2,
        eq_iff "confirmed" request.target,
        eq_iff request.target "confirmed",
        eq_iff "remediation" request.target,
        eq_iff "accepted_exception" request.target,
        eq_iff "resolved" request.target,
      ));
  repaired = λ e.
      rw (contains-targets_append gap.history _ "remediation")
        (ground (arith, h.recorded, (sources_of gap.status request.target may).2));
  verified = λ e.
      let e' : (request.target == "resolved") ≡ true = ap (λ t. t == "resolved") e in
      rw e' (resolution_known request e' resolution, refl);
}

abbrev is_moved : GapReply → Bool
is_moved (moved gap) = true
is_moved _ = false

abbrev moved_to : Gap → GapReply → Gap
moved_to gap (moved gap') = gap'
moved_to gap _ = gap

-- The answer of the tests, by their results.
tests_passed :
    (known may unknown : Bool) (s t : String) (gap gap' : Gap)
    → (if not known
        then bad_target
        else if not may
        then refused s t
        else if unknown
        then bad_resolution
        else moved gap)
      ≡ moved gap'
    → (known ≡ true) × (may ≡ true) × (unknown ≡ false) × (gap ≡ gap')
tests_passed true true false s t gap gap' h = (refl, refl, refl, ap (moved_to gap) h)
tests_passed true true true s t gap gap' h = absurd (false≢true (ap is_moved h))
tests_passed true false unknown s t gap gap' h = absurd (false≢true (ap is_moved h))
tests_passed false may unknown s t gap gap' h = absurd (false≢true (ap is_moved h))

-- A request that moves a gap has passed every test of the handler.
gap_reply_moves :
    (gap gap' : Gap) (request : GapRequest) (actor now : String)
    → gap_reply gap request actor now ≡ moved gap'
    → (contains gap_statuses request.target ≡ true)
      × (can_move gap.status request.target ≡ true)
      × (unknown_resolution request ≡ false)
      × (move_gap gap request actor now ≡ gap')
gap_reply_moves gap gap' request actor now h =
    tests_passed (contains gap_statuses request.target) (can_move gap.status request.target)
      (unknown_resolution request) gap.status request.target (move_gap gap request actor now) gap' h

transition_found :
    (gaps : Dict Gap) (k : String) (request : GapRequest) (actor now : String) (gap : Gap)
    → get gaps k ≡ some gap
    → gap_transition gaps k request actor now ≡ gap_reply gap request actor now
unfolding gap_transition
transition_found gaps k request actor now gap e = rw (gap_transition, e) refl

-- A gap that the handlers can make is in one of the seven states and its history says so; it is
-- under remediation, excepted or resolved only if its history has a confirmation; it is resolved only
-- if its history has a remediation, and then by one of the three kinds of resolution, at the time of
-- its last change.
pub Reachable-Accounted :
    (short_id : String → List String → String) (gap : Gap) → Reachable short_id gap → Accounted gap
unfolding gap_transition
Reachable-Accounted short_id _ (created source control_id key title detail now created_by) =
    build_gap-Accounted short_id source control_id key title detail now created_by
Reachable-Accounted short_id _ (moved_on gaps k request actor now gap gap' r e h) =
    let (known, may, resolution, same) =
      gap_reply_moves gap gap' request actor now
        (sym (transition_found gaps k request actor now gap e) ∙ h) in
    subst Accounted same (
      move_gap-Accounted gap request actor now (Reachable-Accounted short_id gap r) known may
        resolution)
