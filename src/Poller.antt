-- ===== src/Poller.antt =====
-- One cycle of a source: src/mori_soc/services/ingestion.py and `run_cycle` of
-- src/mori_soc/pollers/base.py, on the repository in memory. What a generator or a list of the
-- collector yields before it raises is a list with an optional error.
use mori_soc.Prelude.{
  if◌then◌else◌, show_nat, ℕ, zero, suc, ◌+◌, ◌<◌, String, ◌<>◌, Bool, Option, none, some, List, [],
  ◌∷◌,
}
use mori_soc.Prelude.Dict.{get, values, index_by}
use mori_soc.Inventory.{Repository, Entity, save, source_sync}
use mori_soc.Inventory.Entities.{SourceSync}
pub mod Cycle

pub record IngestionReport : Type 0 where
  pub records_collected : ℕ
  pub envelopes_normalized : ℕ
  pub entities_saved : ℕ

abbrev pub empty_report : IngestionReport
empty_report = record { records_collected = 0; envelopes_normalized = 0; entities_saved = 0 }

-- How far a run came: the repository, the mapper, the counts, and the error that ended it, if one did.
pub record Progress (Mapper : Type 0) : Type 0 where
  pub repository : Repository
  pub mapper : Mapper
  pub report : IngestionReport
  pub error : Option String

abbrev pub count_record : IngestionReport → IngestionReport
count_record p = record p { records_collected = p.records_collected + 1 }

abbrev pub count_envelope : IngestionReport → IngestionReport
count_envelope p = record p { envelopes_normalized = p.envelopes_normalized + 1 }

abbrev pub count_entity : IngestionReport → IngestionReport
count_entity p = record p { entities_saved = p.entities_saved + 1 }

unfoldable pub save_entities :
    {Mapper : Type 0}
    → Repository
    → IngestionReport
    → Mapper
    → List Entity
    → Option String
    → Progress Mapper
save_entities r p m [] e = record { repository = r; mapper = m; report = p; error = e }
save_entities r p m (x ∷ xs) e = save_entities (save r x) (count_entity p) m xs e

pub record PollerCycleResult : Type 0 where
  pub status : String
  pub report : Option IngestionReport
  pub message : String

-- `f"failed after {attempts} attempt(s): {message}"` and its like
abbrev pub ok_message : IngestionReport → String
ok_message p = "ok: " <> show_nat p.records_collected <> " records"

abbrev pub failure_message : ℕ → String → String
failure_message attempts message =
    "failed after " <> show_nat attempts <> " attempt(s): " <> message

-- A field of the previous record, if there is one.
abbrev pub previous {ℓ} : {A : Type ℓ} → (SourceSync → A) → A → Option SourceSync → A
previous f d none = d
previous f d (some s) = f s

-- The collector and the mapper, what they hand on before they raise, and what each attempt collects. A
-- mapper learns from each envelope, so it is passed on.
module _ (Raw Envelope Mapper : Type 0) (normalize : Raw → List Envelope × Option String)
    (map_envelope : Mapper → Envelope → Mapper × List Entity × Option String) where
  abbrev pub save_envelope : Progress Mapper → Envelope → Progress Mapper
  save_envelope p envelope =
      let (m, entities, e) = map_envelope p.mapper envelope in
      save_entities p.repository (count_envelope p.report) m entities e

  -- An error of an envelope ends the loops around it.
  unfoldable pub save_envelopes : Progress Mapper → List Envelope → Option String → Progress Mapper
  unfolding save_entities
  save_envelopes p [] e = record p { error = e }
  save_envelopes p (x ∷ xs) e =
      let next = save_envelope p x in
      elim next.error [ none ↦ save_envelopes next xs e | some _ ↦ next ]

  abbrev pub save_record : Progress Mapper → Raw → Progress Mapper
  save_record p raw =
      let (envelopes, e) = normalize raw in
      save_envelopes (record p { report = count_record p.report }) envelopes e

  unfoldable pub save_records : Progress Mapper → List Raw → Option String → Progress Mapper
  unfolding save_envelopes
  save_records p [] e = record p { error = e }
  save_records p (x ∷ xs) e =
      let next = save_record p x in
      elim next.error [ none ↦ save_records next xs e | some _ ↦ next ]

  unfoldable pub ingest_collector : Repository → Mapper → List Raw × Option String → Progress Mapper
  unfolding save_records
  ingest_collector r m (raws, e) =
      save_records (record { repository = r; mapper = m; report = empty_report; error = none }) raws
        e

  module _ (source_name : String) (collect : ℕ → List Raw × Option String) (now : ℕ)
      (truncate : String → String) where
    abbrev pub success_sync : Option SourceSync → IngestionReport → SourceSync
    success_sync old p = record {
      source = source_name;
      status = "success";
      last_sync_at = now;
      last_success_at = some now;
      last_error_at = previous (λ s. s.last_error_at) none old;
      message = some (ok_message p);
      records_collected = p.records_collected;
      envelopes_normalized = p.envelopes_normalized;
      entities_saved = p.entities_saved;
    }

    abbrev pub error_sync : Option SourceSync → String → SourceSync
    error_sync old message = record {
      source = source_name;
      status = "error";
      last_sync_at = now;
      last_success_at = previous (λ s. s.last_success_at) none old;
      last_error_at = some now;
      message = some message;
      records_collected = previous (λ s. s.records_collected) 0 old;
      envelopes_normalized = previous (λ s. s.envelopes_normalized) 0 old;
      entities_saved = previous (λ s. s.entities_saved) 0 old;
    }

    abbrev pub store_sync : Repository → SourceSync → Repository
    store_sync r s = save r (source_sync s)

    abbrev pub succeed :
        Option SourceSync → Progress Mapper → Repository × Mapper × PollerCycleResult
    succeed old p = (
      store_sync p.repository (success_sync old p.report),
      p.mapper,
      record { status = "success"; report = some p.report; message = ok_message p.report },
    )

    -- After the last attempt.
    abbrev pub give_up :
        Option SourceSync
        → ℕ
        → Repository
        → Mapper
        → String
        → Repository × Mapper × PollerCycleResult
    give_up old attempts r m e =
        let message = failure_message attempts (truncate e) in
        (
          store_sync r (error_sync old message),
          m,
          record { status = "error"; report = none; message = message },
        )

    -- The `n`th attempt, and at most `left` more.
    unfoldable pub attempt_from :
        Option SourceSync
        → ℕ
        → ℕ
        → ℕ
        → Repository
        → Mapper
        → Repository × Mapper × PollerCycleResult
    unfolding ingest_collector
    attempt_from old attempts zero n r m =
        let p = ingest_collector r m (collect n) in
        elim p.error [
          | none ↦ succeed old p
          | some e ↦ give_up old attempts p.repository p.mapper e
        ]
    attempt_from old attempts (suc left) n r m =
        let p = ingest_collector r m (collect n) in
        elim p.error [
          | none ↦ succeed old p
          | some e ↦ attempt_from old attempts left (n + 1) p.repository p.mapper
        ]

    -- A collector that is disabled or misconfigured is skipped.
    unfoldable pub run_cycle :
        Bool → ℕ → Repository → Mapper → Repository × Mapper × PollerCycleResult
    unfolding attempt_from
    run_cycle configured max_retries r m =
        let existing = index_by (λ (s : SourceSync). s.source) (values r.source_syncs) in
        if configured
        then attempt_from (get existing source_name) (max_retries + 1) max_retries 1 r m
        else (
          r,
          m,
          record {
            status = "skipped";
            report = none;
            message = "collector disabled or misconfigured";
          },
        )
