-- ===== src/Poller/Cycle.antt =====
-- What a cycle leaves behind, whichever attempt succeeds.
use mori_soc.Prelude.{
  if◌then◌else◌, Option-cases, length, length-append, ℕ, zero, suc, ◌+◌, ◌≤◌, String, ◌≡◌, refl,
  sym, ap, ◌∙◌, inl, inr, Bool, true, false, ◌||◌, Option, none, some, List, [], ◌∷◌, ◌++◌, arith,
}
use mori_soc.Prelude.Dict.{get, values, index_by}
use mori_soc.Inventory.{Repository, Entity, save, save_all, source_sync}
use mori_soc.Inventory.Entities.{SourceSync}
use mathlib.Core.List.{append-nil}
use mathlib.Core.Path.{subst}
use native.Mathlib.Decide.{dec_lt}
use mori_soc.Poller.{
  count_record, count_envelope, count_entity, IngestionReport, empty_report, Progress,
  save_entities, PollerCycleResult, failure_message, previous, save_envelope, save_envelopes,
  save_record, save_records, ingest_collector, success_sync, error_sync, succeed, give_up,
  attempt_from, run_cycle,
}

-- What is handed on: the mapper afterwards, the entities, and the error that ended it.
abbrev pub Output : Type 0 → Type 0
Output Mapper = Mapper × List Entity × Option String

module _ {Mapper : Type 0} where
  -- One more step, and the rest unless the step has failed.
  abbrev pub and_then : Output Mapper → (Mapper → Output Mapper) → Output Mapper
  and_then (m, xs, none) rest = ((rest m).0, xs ++ (rest m).1, (rest m).2)
  and_then (m, xs, some why) rest = (m, xs, some why)

  -- What a sequence hands on before its first error.
  abbrev pub chain {ℓ} :
      {X : Type ℓ} → (Mapper → X → Output Mapper) → Mapper → List X → Option String → Output Mapper
  chain f m [] e = (m, [], e)
  chain f m (x ∷ xs) e = and_then (f m x) (λ next. chain f next xs e)

  -- The progress that saves these entities on top of another.
  pub record Follows (p : Progress Mapper) (out : Output Mapper) (q : Progress Mapper)
      : Type 0 where
    pub stored : q.repository ≡ save_all p.repository out.1
    pub learned : q.mapper ≡ out.0
    pub failed : q.error ≡ out.2
    pub counted : q.report.entities_saved ≡ p.report.entities_saved + length out.1

save_all-append :
    (r : Repository) (xs ys : List Entity) → save_all r (xs ++ ys) ≡ save_all (save_all r xs) ys
save_all-append r [] ys = refl
save_all-append r (x ∷ xs) ys = save_all-append (save r x) xs ys

module _ {Mapper : Type 0} where
  save_entities-Follows :
      (r : Repository) (n : IngestionReport) (m : Mapper) (xs : List Entity) (e : Option String)
      → ((save_entities r n m xs e).repository ≡ save_all r xs)
        × ((save_entities r n m xs e).mapper ≡ m)
        × ((save_entities r n m xs e).error ≡ e)
        × ((save_entities r n m xs e).report.entities_saved ≡ n.entities_saved + length xs)
  unfolding save_entities
  save_entities-Follows r n m [] e = (refl, refl, refl, omega arith)
  save_entities-Follows r n m (x ∷ xs) e =
      let (a, b, c, d) = save_entities-Follows (save r x) (count_entity n) m xs e in
      (a, b, c, omega (arith, d))

  abbrev continue : Progress Mapper → Progress Mapper → Progress Mapper
  continue q q' = elim q.error [ none ↦ q' | some _ ↦ q ]

  Follows-then :
      (p q q' : Progress Mapper) (a : Output Mapper) (b : Mapper → Output Mapper)
      → Follows p a q
      → Follows q (b q.mapper) q'
      → Follows p (and_then a b) (continue q q')
  Follows-then p q q' (m, xs, none) b h later =
      let h' : Follows q (b m) q' = subst (λ next. Follows q (b next) q') h.learned later in
      rw h.failed (record {
        stored =
            h'.stored
            ∙ ap (λ r. save_all r (b m).1) h.stored
            ∙ sym (save_all-append p.repository xs (b m).1);
        learned = h'.learned;
        failed = h'.failed;
        counted = omega (arith, h.counted, h'.counted, length-append xs (b m).1);
      })
  Follows-then p q q' (m, xs, some why) b h later =
      rw h.failed
        (record { stored = h.stored; learned = h.learned; failed = refl; counted = h.counted })

module _ (Raw Envelope Mapper : Type 0) (normalize : Raw → List Envelope × Option String)
    (map_envelope : Mapper → Envelope → Output Mapper) where
  save_envelopes-Follows :
      (p : Progress Mapper) (xs : List Envelope) (e : Option String)
      → Follows p
          (chain map_envelope p.mapper xs e)
          (save_envelopes Raw Envelope Mapper normalize map_envelope p xs e)
  unfolding save_envelopes
  save_envelopes-Follows p [] e = record {
    stored = refl;
    learned = refl;
    failed = refl;
    counted = omega arith;
  }
  save_envelopes-Follows p (x ∷ xs) e =
      let q = save_envelope Raw Envelope Mapper normalize map_envelope p x in
      let (m, ys, why) = map_envelope p.mapper x in
      let (a, b, c, d) = save_entities-Follows p.repository (count_envelope p.report) m ys why in
      Follows-then p q _ (m, ys, why) (λ next. chain map_envelope next xs e)
        (record { stored = a; learned = b; failed = c; counted = d })
        (save_envelopes-Follows q xs e)

  -- What one raw record comes to.
  abbrev pub out_of : Mapper → Raw → Output Mapper
  out_of m raw = chain map_envelope m (normalize raw).0 (normalize raw).1

  save_records-Follows :
      (p : Progress Mapper) (xs : List Raw) (e : Option String)
      → Follows p
          (chain out_of p.mapper xs e)
          (save_records Raw Envelope Mapper normalize map_envelope p xs e)
  unfolding save_records
  save_records-Follows p [] e = record {
    stored = refl;
    learned = refl;
    failed = refl;
    counted = omega arith;
  }
  save_records-Follows p (x ∷ xs) e =
      let p' = record p { report = count_record p.report } in
      let q = save_record Raw Envelope Mapper normalize map_envelope p x in
      let h = save_envelopes-Follows p' (normalize x).0 (normalize x).1 in
      Follows-then p q _ (out_of p.mapper x) (λ next. chain out_of next xs e)
        (record { stored = h.stored; learned = h.learned; failed = h.failed; counted = h.counted })
        (save_records-Follows q xs e)

  -- What the collector hands on before the first error of a record or an envelope, or its own.
  abbrev pub collected : Mapper → List Raw × Option String → Output Mapper
  collected m (raws, e) = chain out_of m raws e

  -- An ingestion saves exactly the entities that come before the first error, in their order, counts
  -- them, and ends with that error, if there is one; each envelope is mapped by the mapper as the
  -- envelopes before it have left it.
  pub ingest_collector_lem :
      (r : Repository) (m : Mapper) (batch : List Raw × Option String)
      → Follows
          (record { repository = r; mapper = m; report = empty_report; error = none })
          (collected m batch)
          (ingest_collector Raw Envelope Mapper normalize map_envelope r m batch)
  unfolding ingest_collector
  ingest_collector_lem r m (raws, e) =
      save_records-Follows
        (record { repository = r; mapper = m; report = empty_report; error = none }) raws e

  module _ (source_name : String) (collect : ℕ → List Raw × Option String) (now : ℕ)
      (truncate : String → String) where
    abbrev is_none : Option String → Bool
    is_none none = true
    is_none (some _) = false

    -- Whether one of the attempts from the `n`th on succeeds, with `left` more after that one.
    abbrev pub succeeds : ℕ → ℕ → Mapper → Bool
    succeeds zero n m = is_none (collected m (collect n)).2
    succeeds (suc left) n m =
        let out = collected m (collect n) in is_none out.2 || succeeds left (n + 1) out.0

    -- What these attempts save, up to the first that succeeds.
    abbrev pub tried : ℕ → ℕ → Mapper → List Entity
    tried zero n m = (collected m (collect n)).1
    tried (suc left) n m =
        let out = collected m (collect n) in
        let rest = tried left (n + 1) out.0 in out.1 ++ (if is_none out.2 then [] else rest)

    -- The cycle's last act: what it records of the source.
    pub record Recorded (old : Option SourceSync) (ok : Bool) (r : Repository)
        (result : Repository × Mapper × PollerCycleResult) : Type 0 where
      pub sync : SourceSync
      pub stored : result.0 ≡ save r (source_sync sync)
      pub named : sync.source ≡ source_name
      pub status : sync.status ≡ (if ok then "success" else "error")
      pub told : result.2.status ≡ sync.status
      pub last_success :
          sync.last_success_at
          ≡ (if ok then some now else previous (λ s. s.last_success_at) none old)
      pub last_error :
          sync.last_error_at ≡ (if ok then previous (λ s. s.last_error_at) none old else some now)

    success_Recorded :
        (old : Option SourceSync) (r : Repository) (m : Mapper) (p : IngestionReport)
        → Recorded old true r (
            succeed Raw Envelope Mapper normalize map_envelope source_name collect now truncate old
              (record { repository = r; mapper = m; report = p; error = none }))
    success_Recorded old r m p = record {
      sync =
          success_sync Raw Envelope Mapper normalize map_envelope source_name collect now truncate
            old p;
      stored = refl;
      named = refl;
      status = refl;
      told = refl;
      last_success = refl;
      last_error = refl;
    }

    error_Recorded :
        (old : Option SourceSync) (attempts : ℕ) (why : String) (r : Repository) (m : Mapper)
        → Recorded old false r (
            give_up Raw Envelope Mapper normalize map_envelope source_name collect now truncate old
              attempts r m why)
    error_Recorded old attempts why r m = record {
      sync =
          error_sync Raw Envelope Mapper normalize map_envelope source_name collect now truncate old
            (failure_message attempts (truncate why));
      stored = refl;
      named = refl;
      status = refl;
      told = refl;
      last_success = refl;
      last_error = refl;
    }

    attempt_from_lem :
        (old : Option SourceSync) (attempts left n : ℕ) (r : Repository) (m : Mapper)
        → Recorded old (succeeds left n m) (save_all r (tried left n m)) (
            attempt_from Raw Envelope Mapper normalize map_envelope source_name collect now truncate
              old attempts left n r m)
    unfolding attempt_from
    attempt_from_lem old attempts zero n r m =
        let h = ingest_collector_lem r m (collect n) in
        elim (Option-cases (collected m (collect n)).2) [
          | inl e ↦ rw (attempt_from, h.failed, e, h.stored) (success_Recorded old _ _ _)
          | inr (why, e) ↦
              rw (attempt_from, h.failed, e, h.stored) (error_Recorded old attempts why _ _)
        ]
    attempt_from_lem old attempts (suc left) n r m =
        let h = ingest_collector_lem r m (collect n) in
        let q = ingest_collector Raw Envelope Mapper normalize map_envelope r m (collect n) in
        let out = collected m (collect n) in
        let rest = tried left (n + 1) out.0 in
        elim (Option-cases out.2) [
          | inl e ↦
              rw (attempt_from, h.failed, e, h.stored, append-nil out.1)
                (success_Recorded old _ _ _)
          | inr (why, e) ↦
              rw (attempt_from, h.failed, e, save_all-append r out.1 rest, ← h.stored, ← h.learned)
                (attempt_from_lem old attempts left (n + 1) q.repository q.mapper)
        ]

    -- A cycle of a source that is configured saves what its attempts hand on, up to the first of at most
    -- `max_retries + 1` that succeeds, and then records one state of the source: success, if one of them
    -- does, with the time of this cycle and the error time of the state before; else an error, with the
    -- time of this cycle and the success time of the state before. It reports that same status.
    pub run_cycle_lem :
        (max_retries : ℕ) (r : Repository) (m : Mapper)
        → Recorded
            (get (index_by (λ (s : SourceSync). s.source) (values r.source_syncs)) source_name)
            (succeeds max_retries 1 m)
            (save_all r (tried max_retries 1 m))
            (run_cycle Raw Envelope Mapper normalize map_envelope source_name collect now truncate
              true max_retries r m)
    unfolding run_cycle
    run_cycle_lem max_retries r m = attempt_from_lem _ (max_retries + 1) max_retries 1 r m

    succeeds_by :
        (left n k : ℕ) (m : Mapper)
        → n ≤ k
        → k ≤ n + left
        → ((m' : Mapper) → (collected m' (collect k)).2 ≡ none)
        → succeeds left n m ≡ true
    succeeds_by zero n k m low high h =
        let same : n ≡ k = omega (arith, low, high) in rw (same, h m) refl
    succeeds_by (suc left) n k m low high h = elim (Option-cases (collected m (collect n)).2) [
      | inl e ↦ rw (e) refl
      | inr (why, e) ↦ elim (dec_lt n k) [
        | yes before ↦ rw (e) (
            succeeds_by left (n + 1) k (collected m (collect n)).0 (omega (arith, before))
              (omega (arith, high)) h)
        | no later ↦
            let same : n ≡ k = omega (arith, low, later) in
            absurd (none-ne (sym (h m) ∙ ap (λ j. (collected m (collect j)).2) (sym same) ∙ e))
      ]
    ]
      where
        none-ne : {why : String} → ◌≡◌ {A = Option String} none (some why) → ⊥
        none-ne h = cc

    -- A cycle of a source that is configured reports success if any one of its `max_retries + 1` attempts
    -- would go without an error, however the attempts before it have ended.
    pub run_cycle_succeeds :
        (max_retries : ℕ) (r : Repository) (m : Mapper) (k : ℕ)
        → 1 ≤ k
        → k ≤ max_retries + 1
        → ((m' : Mapper) → (collected m' (collect k)).2 ≡ none)
        → (run_cycle Raw Envelope Mapper normalize map_envelope source_name collect now truncate
            true max_retries r m).2.status
          ≡ "success"
    run_cycle_succeeds max_retries r m k low high h =
        let recorded = run_cycle_lem max_retries r m in
        let ok : succeeds max_retries 1 m ≡ true =
          succeeds_by max_retries 1 k m low (omega (arith, high)) h in
        recorded.told ∙ recorded.status ∙ rw (ok) refl
