-- ===== src/Governance/Ledger/Verified.antt =====
-- What the verification of the ledger shows, and what it cannot show.
use mathlib.Core.List.{head-eq_of_cons-eq}
use mori_soc.Prelude.{
  ◌&&◌, ◌⊎◌, eqb, String, ◌≡◌, refl, sym, ◌∙◌, ap, Bool, true, false, List, [], ◌∷◌, ◌++◌, Option,
  none, some, arith, length, inl, inr, Bool-cases, ◌==◌, eq_iff,
}
use mori_soc.Governance.Ledger.{
  Core, LedgerEvent, NewEvent, build_governance_event, is_unlinked, broken_event,
  verify_governance_chain, last_hash, append_event,
}

-- Whether two inputs of the hash are the same.
abbrev pub same_input : String → Core → String → Core → Bool
same_input p c q d =
    p == q
    && c.event_id == d.event_id
    && c.kind == d.kind
    && c.entity_id == d.entity_id
    && eqb c.revision d.revision
    && c.event_type == d.event_type
    && c.actor == d.actor
    && c.occurred_at == d.occurred_at
    && c.payload == d.payload

same_input-same : (p q : String) (c d : Core) → same_input p c q d ≡ true → (p ≡ q) × (c ≡ d)
same_input-same p q c d h = ground (
  arith,
  eq_iff p q,
  eq_iff c.event_id d.event_id,
  eq_iff c.kind d.kind,
  eq_iff c.entity_id d.entity_id,
  eq_iff c.event_type d.event_type,
  eq_iff c.actor d.actor,
  eq_iff c.occurred_at d.occurred_at,
  eq_iff c.payload d.payload,
)

module _ (event_hash : String → Core → String) where
  -- The events are hashed rightly, and each is linked to the one before.
  abbrev pub Links : Option String → List LedgerEvent → Type 0
  Links link [] = Unit
  Links link (e ∷ r) =
      (event_hash e.prev_hash e.core ≡ e.hash)
      × (is_unlinked event_hash link e ≡ false)
      × Links (some e.hash) r

  Links-broken_event :
      (link : Option String) (es : List LedgerEvent)
      → Links link es
      → broken_event event_hash link es ≡ none
  unfolding broken_event
  Links-broken_event link [] h = refl
  Links-broken_event link (e ∷ r) h =
      rw ((eq_iff (event_hash e.prev_hash e.core) e.hash).1 h.0)
        (rw (h.1) (Links-broken_event (some e.hash) r h.2))

  broken_event-Links :
      (link : Option String) (es : List LedgerEvent)
      → broken_event event_hash link es ≡ none
      → Links link es
  unfolding broken_event
  broken_event-Links link [] h = tt
  broken_event-Links link (e ∷ r) h =
      let hashed = eq_iff (event_hash e.prev_hash e.core) e.hash in
      (ground (arith, hashed), ground arith, broken_event-Links (some e.hash) r (ground arith))

  verified_iff :
      (es : List LedgerEvent) → (verify_governance_chain event_hash es).is_ok ≡ true → Links none es
  unfolding verify_governance_chain
  verified_iff es h = broken_event-Links none es (ground arith)

  last_link : Option String → List LedgerEvent → Option String
  last_link link [] = link
  last_link link (e ∷ r) = last_link (some e.hash) r

  last_link-last_hash :
      (e : LedgerEvent) (r : List LedgerEvent)
      → last_link (some e.hash) r ≡ some (last_hash event_hash (e ∷ r))
  unfolding last_link
  last_link-last_hash e [] = refl
  last_link-last_hash e (x ∷ r) = last_link-last_hash x r

  Links-snoc :
      (link : Option String) (es : List LedgerEvent) (e : LedgerEvent)
      → Links link es
      → event_hash e.prev_hash e.core ≡ e.hash
      → is_unlinked event_hash (last_link link es) e ≡ false
      → Links link (es ++ e ∷ [])
  unfolding last_link
  Links-snoc link [] e h p q = (p, q, tt)
  Links-snoc link (x ∷ es) e h p q = (h.0, h.1, Links-snoc (some x.hash) es e h.2 p q)

  linked_to_last :
      (es : List LedgerEvent) (n : NewEvent)
      → is_unlinked event_hash
          (last_link none es)
          (build_governance_event event_hash (last_hash event_hash es) n)
        ≡ false
  unfolding last_link build_governance_event
  linked_to_last [] n = refl
  linked_to_last (e ∷ r) n =
      rw (last_link-last_hash e r)
        (rw ((eq_iff (last_hash event_hash (e ∷ r)) (last_hash event_hash (e ∷ r))).1 refl))

  append-Links :
      (es : List LedgerEvent) (n : NewEvent)
      → Links none es
      → Links none (append_event event_hash es n)
  unfolding append_event build_governance_event
  append-Links es n h = Links-snoc none es _ h refl (linked_to_last es n)

  abbrev pub append_all : List LedgerEvent → List NewEvent → List LedgerEvent
  append_all es [] = es
  append_all es (n ∷ ns) = append_all (append_event event_hash es n) ns

  append_all-Links :
      (es : List LedgerEvent) (ns : List NewEvent) → Links none es → Links none (append_all es ns)
  append_all-Links es [] h = h
  append_all-Links es (n ∷ ns) h =
      append_all-Links (append_event event_hash es n) ns (append-Links es n h)

  -- A ledger that is only appended to is verified, after any events.
  pub appended_verifies :
      (ns : List NewEvent) → (verify_governance_chain event_hash (append_all [] ns)).is_ok ≡ true
  unfolding verify_governance_chain
  appended_verifies ns = rw (Links-broken_event none (append_all [] ns) (append_all-Links [] ns tt))

  -- Two different inputs of the hash with one result.
  pub record Collision : Type 0 where
    pub first_link : String
    pub first_core : Core
    pub second_link : String
    pub second_core : Core
    pub same_hash : event_hash first_link first_core ≡ event_hash second_link second_core
    pub differ : same_input first_link first_core second_link second_core ≡ false

  same_event :
      (e f : LedgerEvent)
      → event_hash e.prev_hash e.core ≡ e.hash
      → event_hash f.prev_hash f.core ≡ f.hash
      → e.hash ≡ f.hash
      → (e ≡ f) ⊎ Collision
  same_event e f p q h = elim (Bool-cases (same_input e.prev_hash e.core f.prev_hash f.core)) [
    | inl same ↦
        let (links, cores) = same_input-same e.prev_hash f.prev_hash e.core f.core same in
        inl (λ i. record { core = cores i; prev_hash = links i; hash = h i })
    | inr different ↦ inr (record {
      first_link = e.prev_hash;
      first_core = e.core;
      second_link = f.prev_hash;
      second_core = f.core;
      same_hash = p ∙ h ∙ sym q;
      differ = different;
    })
  ]

  link_of_linked :
      (h : String) (e : LedgerEvent) → is_unlinked event_hash (some h) e ≡ false → e.prev_hash ≡ h
  link_of_linked h e u = ground (arith, eq_iff e.prev_hash h)

  same_ledger :
      (k l : Option String) (es fs : List LedgerEvent)
      → Links k es
      → Links l fs
      → length es ≡ length fs
      → last_hash event_hash es ≡ last_hash event_hash fs
      → (es ≡ fs) ⊎ Collision
  same_ledger k l [] [] p q n h = inl refl
  same_ledger k l [] (f ∷ fs) p q n h = absurd (omega arith)
  same_ledger k l (e ∷ es) [] p q n h = absurd (omega arith)
  same_ledger k l (e ∷ []) (f ∷ []) p q n h = elim (same_event e f p.0 q.0 h) [
    | inl same ↦ inl (ap (λ (x : LedgerEvent). x ∷ []) same)
    | inr c ↦ inr c
  ]
  same_ledger k l (e ∷ []) (f ∷ f' ∷ fs) p q n h = absurd (omega arith)
  same_ledger k l (e ∷ e' ∷ es) (f ∷ []) p q n h = absurd (omega arith)
  same_ledger k l (e ∷ e' ∷ es) (f ∷ f' ∷ fs) p q n h =
      elim (same_ledger (some e.hash) (some f.hash) (e' ∷ es) (f' ∷ fs) p.2 q.2 (omega arith) h) [
        | inl rest ↦
            let head : e' ≡ f' = head-eq_of_cons-eq rest in
            let hashes : e.hash ≡ f.hash =
              sym (link_of_linked e.hash e' p.2.1)
              ∙ ap (λ (x : LedgerEvent). x.prev_hash) head
              ∙ link_of_linked f.hash f' q.2.1 in
            elim (same_event e f p.0 q.0 hashes) [
              | inl same ↦ inl (λ i. same i ∷ rest i)
              | inr c ↦ inr c
            ]
        | inr c ↦ inr c
      ]

  -- Two verified ledgers of one length that end in the same hash are the same, or they show two different
  -- inputs of the hash function with one result: no event can be altered, exchanged or moved without a
  -- change of the last hash or a collision.
  pub verified_ledger_unique :
      (es fs : List LedgerEvent)
      → (verify_governance_chain event_hash es).is_ok ≡ true
      → (verify_governance_chain event_hash fs).is_ok ≡ true
      → length es ≡ length fs
      → last_hash event_hash es ≡ last_hash event_hash fs
      → (es ≡ fs) ⊎ Collision
  verified_ledger_unique es fs p q n h =
      same_ledger none none es fs (verified_iff es p) (verified_iff fs q) n h

  Links-left :
      (link : Option String) (es fs : List LedgerEvent) → Links link (es ++ fs) → Links link es
  Links-left link [] fs h = tt
  Links-left link (e ∷ es) fs h = (h.0, h.1, Links-left (some e.hash) es fs h.2)

  forget_link : (link : Option String) (es : List LedgerEvent) → Links link es → Links none es
  forget_link link [] h = tt
  forget_link link (e ∷ es) h = (h.0, refl, h.2)

  Links-right :
      (link : Option String) (es fs : List LedgerEvent) → Links link (es ++ fs) → Links none fs
  Links-right link [] fs h = forget_link link fs h
  Links-right link (e ∷ es) fs h = Links-right (some e.hash) es fs h.2

  -- The verification does not see that the newest or the oldest events of a verified ledger are gone.
  pub truncated_verifies :
      (oldest rest newest : List LedgerEvent)
      → (verify_governance_chain event_hash (oldest ++ (rest ++ newest))).is_ok ≡ true
      → (verify_governance_chain event_hash rest).is_ok ≡ true
  unfolding verify_governance_chain
  truncated_verifies oldest rest newest h = rw (
      Links-broken_event none rest (
        Links-left none rest newest
          (Links-right none oldest (rest ++ newest) (broken_event-Links none _ (ground arith)))))
