-- ===== src/Tests/Ledgers.antt =====
-- The event ledger at concrete inputs.
use mori_soc.Prelude.{String, ◌<>◌, ◌≡◌, refl, ◌⊎◌, true, some, [], ◌∷◌}
use mori_soc.Governance.Ledger.{Core, LedgerEvent, verify_governance_chain}
use mori_soc.Governance.Ledger.Verified.{Collision, verified_ledger_unique, truncated_verifies}

-- A hash that shows its input.
abbrev shown : String → Core → String
shown prev c = prev <> "|" <> c.event_id

abbrev event : String → String → LedgerEvent
event prev id = record {
  core = record {
    event_id = id;
    kind = "framework";
    entity_id = id;
    revision = 1;
    event_type = "create";
    actor = "lee";
    occurred_at = "2025-01-01";
    payload = "{}";
  };
  prev_hash = prev;
  hash = prev <> "|" <> id;
}

abbrev first_event : LedgerEvent
first_event = event "GENESIS" "a"

abbrev second_event : LedgerEvent
second_event = event "GENESIS|a" "b"

abbrev third_event : LedgerEvent
third_event = event "GENESIS|a|b" "c"

broken_runs :
    ((verify_governance_chain shown (first_event ∷ second_event ∷ third_event ∷ [])).is_ok ≡ true)
    × ((verify_governance_chain shown (first_event ∷ third_event ∷ [])).broken_at ≡ some "c")
unfolding verify_governance_chain
broken_runs = (refl, refl)

verified_ledger_unique_example :
    ((first_event ∷ second_event ∷ []) ≡ (first_event ∷ second_event ∷ [])) ⊎ Collision shown
unfolding verify_governance_chain
verified_ledger_unique_example =
    verified_ledger_unique shown (first_event ∷ second_event ∷ []) (first_event ∷ second_event ∷ [])
      refl refl refl refl

truncated_verifies_example : (verify_governance_chain shown (second_event ∷ [])).is_ok ≡ true
unfolding verify_governance_chain
truncated_verifies_example =
    truncated_verifies shown (first_event ∷ []) (second_event ∷ []) (third_event ∷ []) refl
