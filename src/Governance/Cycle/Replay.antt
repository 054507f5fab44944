-- ===== src/Governance/Cycle/Replay.antt =====
-- What the replay of a history shows: the audit view.
use mori_soc.Prelude.{
  String, ◌≡◌, refl, sym, ◌∙◌, Bool, true, false, List, [], ◌∷◌, ◌++◌, Option, none, some, arith,
  All, All-append, ◌&&◌, text_lt, Bool-cases, inl, inr, ◌==◌, if◌then◌else◌,
}
use mori_soc.Prelude.Dict.{
  Dict, get, put, update, get-put, get-update, first_some, NodupKeys, put-NodupKeys,
}
use mori_soc.Governance.Cycle.{
  Value, text, Entry, CycleControl, Change, build_cycle_control, differs, new_value, note_change,
  field_changes, confirms_applicability, all_changes, is_empty, update_entry,
  apply_cycle_control_update, is_noop, replay, blank_state, cycle_control_as_of,
}

-- An entry later than the date that is asked for is not seen.
replay-append_later :
    (hs : List Entry) (e : Entry) (as_of : String) (state : Dict Value)
    → text_lt as_of e.ts ≡ true
    → replay (hs ++ e ∷ []) as_of state ≡ replay hs as_of state
unfolding replay
replay-append_later [] e as_of state h = rw h
replay-append_later (x ∷ hs) e as_of state h =
    ground (arith, replay-append_later hs e as_of (update state x.changed) h)

-- An update made after the audit date does not change what the replay shows for that date.
pub as_of-update_later :
    (cc : CycleControl) (c : Change) (as_of : String)
    → text_lt as_of c.now ≡ true
    → cycle_control_as_of (apply_cycle_control_update cc c) as_of ≡ cycle_control_as_of cc as_of
unfolding cycle_control_as_of apply_cycle_control_update
as_of-update_later cc c as_of h = elim (Bool-cases (is_noop cc c)) [
  | inl p ↦ rw p
  | inr p ↦ rw p (rw (replay-append_later cc.history (update_entry cc c) as_of blank_state h))
]

get-note_change :
    (field val old : String) (changed : Dict Value) (k : String)
    → get (note_change field val old changed) k ≡ (
        if field == k
        then (if differs val old then some (text val) else get changed k)
        else get changed k)
unfolding note_change
get-note_change field val old changed k = ground (arith, get-put changed field k (text val))

note_change-NodupKeys :
    (field val old : String) (changed : Dict Value)
    → NodupKeys changed
    → NodupKeys (note_change field val old changed)
unfolding note_change
note_change-NodupKeys field val old changed h = elim (Bool-cases (differs val old)) [
  | inl p ↦ rw p (put-NodupKeys changed field (text val) h)
  | inr p ↦ rw p h
]

module _ (cc : CycleControl) (c : Change) where
  pub all_changes-NodupKeys : NodupKeys (all_changes cc c)
  unfolding all_changes field_changes
  all_changes-NodupKeys = elim (Bool-cases (confirms_applicability cc c)) [
    | inl p ↦ rw p (put-NodupKeys (field_changes cc c) _ _ fields)
    | inr p ↦ rw p fields
  ]
    where
      fields : NodupKeys (field_changes cc c)
      fields = note_change-NodupKeys _ _ _ _ (
          note_change-NodupKeys _ _ _ _
            (note_change-NodupKeys _ _ _ _ (note_change-NodupKeys _ _ _ [] tt)))

  get-all_changes :
      (k : String)
      → ("applicability_pending_review" == k) ≡ false
      → get (all_changes cc c) k ≡ get (field_changes cc c) k
  unfolding all_changes
  get-all_changes k other = elim (Bool-cases (confirms_applicability cc c)) [
    | inl p ↦ rw p (rw get-put (rw other))
    | inr p ↦ rw p
  ]

abbrev pub noted : String → String → Option Value
noted val old = if differs val old then some (text val) else none

-- What an update notes of each of the four fields that an audit replays.
record Noted (cc : CycleControl) (c : Change) : Type 0 where
  evidence : get (all_changes cc c) "evidence_status" ≡ noted c.evidence_status cc.evidence_status
  assessment :
      get (all_changes cc c) "assessment_status" ≡ noted c.assessment_status cc.assessment_status
  applicability : get (all_changes cc c) "applicability" ≡ noted c.applicability cc.applicability
  assignee : get (all_changes cc c) "assignee" ≡ noted c.assignee cc.assignee

all_changes-Noted : (cc : CycleControl) (c : Change) → Noted cc c
unfolding field_changes get
all_changes-Noted cc c = record {
  evidence = get-all_changes cc c _ refl ∙ simp get-note_change;
  assessment = get-all_changes cc c _ refl ∙ simp get-note_change (ground arith);
  applicability = get-all_changes cc c _ refl ∙ simp get-note_change (ground arith);
  assignee = get-all_changes cc c _ refl ∙ simp get-note_change (ground arith);
}

-- The replayed state shows the current values of the four fields.
pub record Shows (state : Dict Value) (cc : CycleControl) : Type 0 where
  pub evidence : get state "evidence_status" ≡ some (text cc.evidence_status)
  pub assessment : get state "assessment_status" ≡ some (text cc.assessment_status)
  pub applicability : get state "applicability" ≡ some (text cc.applicability)
  pub assignee : get state "assignee" ≡ some (text cc.assignee)

-- No entry is later than `t`, and the history up to `t` ends in the current values.
pub record IsRecorded (t : String) (cc : CycleControl) : Type 0 where
  pub seen : All (λ (e : Entry). text_lt t e.ts ≡ false) cc.history
  pub shows : Shows (replay cc.history t blank_state) cc

replay-append_seen :
    (hs : List Entry) (e : Entry) (t : String) (state : Dict Value)
    → All (λ (x : Entry). text_lt t x.ts ≡ false) hs
    → text_lt t e.ts ≡ false
    → replay (hs ++ e ∷ []) t state ≡ update (replay hs t state) e.changed
unfolding replay
replay-append_seen [] e t state all h = rw h
replay-append_seen (x ∷ hs) e t state all h =
    rw (all.0) (replay-append_seen hs e t (update state x.changed) all.1 h)

build-IsRecorded :
    (t cycle_id control_ref assignee applicability now created_by : String)
    → text_lt t now ≡ false
    → IsRecorded t (build_cycle_control cycle_id control_ref assignee applicability now created_by)
unfolding build_cycle_control replay update get put
build-IsRecorded t cycle_id control_ref assignee applicability now created_by h = record {
  seen = (h, tt);
  shows =
      rw h (record { evidence = refl; assessment = refl; applicability = refl; assignee = refl });
}

get-is_empty : (d : Dict Value) (k : String) → is_empty d ≡ true → get d k ≡ none
unfolding get
get-is_empty [] k h = refl
get-is_empty (x ∷ d) k h = cc

noted-none : (val old : String) → noted val old ≡ none → new_value val old ≡ old
unfolding new_value
noted-none val old h = ground arith

noted-first_some :
    (val old : String)
    → first_some (noted val old) (some (text old)) ≡ some (text (new_value val old))
unfolding new_value
noted-first_some val old = ground arith

-- One field through an update that is recorded.
field-recorded :
    (r state : Dict Value) (k val old : String)
    → NodupKeys r
    → get r k ≡ noted val old
    → get state k ≡ some (text old)
    → get (update state r) k ≡ some (text (new_value val old))
field-recorded r state k val old u n g =
    get-update r state k u ∙ rw (n, g) (noted-first_some val old)

-- One field through an update that changes nothing.
field-unchanged :
    (r state : Dict Value) (k val old : String)
    → is_empty r ≡ true
    → get r k ≡ noted val old
    → get state k ≡ some (text old)
    → get state k ≡ some (text (new_value val old))
field-unchanged r state k val old e n g = rw (noted-none val old (sym n ∙ get-is_empty r k e)) g

and_left : (a b : Bool) → (a && b) ≡ true → a ≡ true
and_left a b h = ground arith

module _ (t : String) (cc : CycleControl) (c : Change) (before : IsRecorded t cc) where
  -- An update dated no later than `t` keeps the history in step with the fields.
  update-IsRecorded : text_lt t c.now ≡ false → IsRecorded t (apply_cycle_control_update cc c)
  unfolding apply_cycle_control_update
  update-IsRecorded h =
      let n = all_changes-Noted cc c in
      let u = all_changes-NodupKeys cc c in
      let old = before.shows in
      elim (Bool-cases (is_noop cc c)) [
        | inl p ↦
            let e : is_empty (all_changes cc c) ≡ true = and_left _ _ p in
            rw p (record {
              seen = before.seen;
              shows = record {
                evidence = field-unchanged _ _ _ _ _ e n.evidence old.evidence;
                assessment = field-unchanged _ _ _ _ _ e n.assessment old.assessment;
                applicability = field-unchanged _ _ _ _ _ e n.applicability old.applicability;
                assignee = field-unchanged _ _ _ _ _ e n.assignee old.assignee;
              };
            })
        | inr p ↦ rw p (record {
          seen = All-append _ cc.history (update_entry cc c ∷ []) before.seen (h, tt);
          shows =
              rw (replay-append_seen cc.history (update_entry cc c) t blank_state before.seen h)
                (record {
                  evidence = field-recorded _ _ _ _ _ u n.evidence old.evidence;
                  assessment = field-recorded _ _ _ _ _ u n.assessment old.assessment;
                  applicability = field-recorded _ _ _ _ _ u n.applicability old.applicability;
                  assignee = field-recorded _ _ _ _ _ u n.assignee old.assignee;
                });
        })
      ]

-- A sequence of updates.
abbrev pub run_updates : CycleControl → List Change → CycleControl
run_updates cc [] = cc
run_updates cc (c ∷ cs) = run_updates (apply_cycle_control_update cc c) cs

run_updates-IsRecorded :
    (t : String) (cc : CycleControl) (cs : List Change)
    → IsRecorded t cc
    → All (λ (c : Change). text_lt t c.now ≡ false) cs
    → IsRecorded t (run_updates cc cs)
run_updates-IsRecorded t cc [] r all = r
run_updates-IsRecorded t cc (c ∷ cs) r all =
    run_updates-IsRecorded t (apply_cycle_control_update cc c) cs (update-IsRecorded t cc c r all.0)
      all.1

-- A control built no later than `t` and updated any number of times, no later than `t`, is shown by
-- the replay at `t` with its current evidence status, assessment status, applicability and assignee.
pub as_of-run_updates :
    (t cycle_id control_ref assignee applicability now created_by : String) (cs : List Change)
    → text_lt t now ≡ false
    → All (λ (c : Change). text_lt t c.now ≡ false) cs
    → let cc =
        run_updates
          (build_cycle_control cycle_id control_ref assignee applicability now created_by)
          cs in
      Shows (cycle_control_as_of cc t) cc
unfolding cycle_control_as_of
as_of-run_updates t cycle_id control_ref assignee applicability now created_by cs h all =
    let r =
      run_updates-IsRecorded t _ cs
        (build-IsRecorded t cycle_id control_ref assignee applicability now created_by h) all in
    record {
      evidence = rw get-put r.shows.evidence;
      assessment = rw get-put r.shows.assessment;
      applicability = rw get-put r.shows.applicability;
      assignee = rw get-put r.shows.assignee;
    }

-- Updates that are all later than the audit date leave the audit view as it was.
pub as_of-run_updates_later :
    (as_of : String) (cc : CycleControl) (cs : List Change)
    → All (λ (c : Change). text_lt as_of c.now ≡ true) cs
    → cycle_control_as_of (run_updates cc cs) as_of ≡ cycle_control_as_of cc as_of
as_of-run_updates_later as_of cc [] all = refl
as_of-run_updates_later as_of cc (c ∷ cs) all =
    as_of-run_updates_later as_of (apply_cycle_control_update cc c) cs all.1
    ∙ as_of-update_later cc c as_of all.0

pub assessment_noted :
    (cc : CycleControl) (c : Change)
    → get (all_changes cc c) "assessment_status" ≡ noted c.assessment_status cc.assessment_status
assessment_noted cc c = (all_changes-Noted cc c).assessment

update_identity :
    (cc : CycleControl) (c : Change)
    → ((apply_cycle_control_update cc c).id ≡ cc.id)
      × ((apply_cycle_control_update cc c).control_ref ≡ cc.control_ref)
unfolding apply_cycle_control_update
update_identity cc c = elim (Bool-cases (is_noop cc c)) [
  | inl p ↦ rw p (refl, refl)
  | inr p ↦ rw p (refl, refl)
]

pub same_identity :
    (cc : CycleControl) (cs : List Change)
    → ((run_updates cc cs).id ≡ cc.id) × ((run_updates cc cs).control_ref ≡ cc.control_ref)
same_identity cc [] = (refl, refl)
same_identity cc (c ∷ cs) =
    let (i, r) = same_identity (apply_cycle_control_update cc c) cs in
    let (i', r') = update_identity cc c in (i ∙ i', r ∙ r')
