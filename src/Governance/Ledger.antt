-- ===== src/Governance/Ledger.antt =====
-- src/mori_soc/services/control_governance.py: the append-only ledger of governance events, a hash
-- chain.
pub mod Verified
use mori_soc.Prelude.{
  ℕ, String, ◌<>◌, Bool, true, false, ◌==◌, if◌then◌else◌, List, [], ◌∷◌, ◌++◌, Option, none, some,
  length, last?, show_nat,
}

-- The fields that an event's hash is taken over; a payload is a JSON object, here its canonical text.
pub record Core : Type 0 where
  pub event_id : String
  pub kind : String
  pub entity_id : String
  pub revision : ℕ
  pub event_type : String
  pub actor : String
  pub occurred_at : String
  pub payload : String

pub record LedgerEvent : Type 0 where
  pub core : Core
  pub prev_hash : String
  pub hash : String

pub record Verdict : Type 0 where
  pub is_ok : Bool
  pub count : ℕ
  pub broken_at : Option String

-- The arguments of `build_governance_event`.
pub record NewEvent : Type 0 where
  pub kind : String
  pub entity_id : String
  pub revision : ℕ
  pub event_type : String
  pub actor : String
  pub occurred_at : String
  pub payload : String

-- `event_hash prev core` is the SHA-256 of `prev|canonical(core)`.
module _ (event_hash : String → Core → String) where
  unfoldable pub build_governance_event : String → NewEvent → LedgerEvent
  build_governance_event prev_hash n =
      let core : Core = record {
        event_id = n.kind <> ":" <> n.entity_id <> ":r" <> show_nat n.revision;
        kind = n.kind;
        entity_id = n.entity_id;
        revision = n.revision;
        event_type = n.event_type;
        actor = n.actor;
        occurred_at = n.occurred_at;
        payload = n.payload;
      } in
      record { core = core; prev_hash = prev_hash; hash = event_hash prev_hash core }

  -- `prev_link is not None and e.get("prev_hash") != prev_link`
  abbrev pub is_unlinked : Option String → LedgerEvent → Bool
  is_unlinked none e = false
  is_unlinked (some link) e = if e.prev_hash == link then false else true

  -- The loop of `verify_governance_chain`: the first event that does not fit.
  unfoldable pub broken_event : Option String → List LedgerEvent → Option String
  broken_event link [] = none
  broken_event link (e ∷ r) =
      let rest = broken_event (some e.hash) r in
      if event_hash e.prev_hash e.core == e.hash
      then (if is_unlinked link e then some e.core.event_id else rest)
      else some e.core.event_id

  abbrev verdict_of : Option String → ℕ → Verdict
  verdict_of none n = record { is_ok = true; count = n; broken_at = none }
  verdict_of (some id) n = record { is_ok = false; count = n; broken_at = some id }

  unfoldable pub verify_governance_chain : List LedgerEvent → Verdict
  unfolding broken_event
  verify_governance_chain events = verdict_of (broken_event none events) (length events)

  abbrev pub last_hash : List LedgerEvent → String
  last_hash events = elim (last? events) [ none ↦ "GENESIS" | some e ↦ e.hash ]

  -- A new event is linked to the hash of the last one.
  unfoldable pub append_event : List LedgerEvent → NewEvent → List LedgerEvent
  unfolding build_governance_event
  append_event events n = events ++ build_governance_event (last_hash events) n ∷ []
