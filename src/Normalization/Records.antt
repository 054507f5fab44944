-- ===== src/Normalization/Records.antt =====
-- What the records of one envelope have in common, and which envelopes are refused.
use mori_soc.Prelude.{
  if◌then◌else◌, All, All-append, contains, ℕ, String, ◌<>◌, ◌≡◌, refl, Bool, true, false, ◌||◌,
  Option, none, some, List, [], ◌∷◌, arith, ◌==◌, eq_iff,
}
use mori_soc.Prelude.Dict.{is_some}
use mori_soc.Inventory.{
  Entity, host, host_alias, alert, vulnerability, query_result, host_observation,
}
use mori_soc.Normalization.Values.{Envelope, extract_aliases}
use mori_soc.Normalization.Hosts.{Mapper, choose_host_id, resolve_host_id}
use mori_soc.Normalization.Mappings.{
  map_account, map_directory_account, map_group_membership, map_privilege_binding,
  map_account_observation, map_control_check, Mapping, build_alias_records, map_host_observation,
  named_host, map_query_result, alert_of, alert_on, map_alert, map_vulnerability, map_envelope,
  mapped, unsupported,
}

-- A record that refers to a host refers to this one.
abbrev pub RefersTo : String → Entity → Type 0
RefersTo h (host x) = x.host_id ≡ h
RefersTo h (host_alias x) = x.host_id ≡ h
RefersTo h (alert x) = is_some x.host_id ≡ true → x.host_id ≡ some h
RefersTo h (vulnerability x) = x.host_id ≡ h
RefersTo h (query_result x) = x.host_id ≡ h
RefersTo h (host_observation x) = x.host_id ≡ h
RefersTo h _ = Unit

abbrev pub entities : Mapping → List Entity
entities (mapped m xs) = xs
entities (unsupported _) = []

-- All records that an envelope is mapped to, if they refer to a host, refer to this one.
unfoldable pub About : String → Mapping → Type 0
About h x = All (RefersTo h) (entities x)

abbrev pub is_mapped : Mapping → Bool
is_mapped (mapped m xs) = true
is_mapped (unsupported _) = false

abbrev pub account_types : List String
account_types =
    "directory_account" ∷ "group_membership" ∷ "privilege_binding" ∷ "account_observation"
    ∷ "control_check" ∷ []

abbrev pub envelope_types : List String
envelope_types = "host_observation" ∷ "query_result" ∷ "alert" ∷ "vulnerability" ∷ account_types

if-either {ℓ κ} :
    {A : Type ℓ} (P : A → Type κ) (b : Bool) (x y : A) → P x → P y → P (if b then x else y)
if-either P true x y p q = p
if-either P false x y p q = q

is_mapped-if :
    (s t : String) (x y : Mapping) (c : Bool)
    → is_mapped x ≡ true
    → is_mapped y ≡ c
    → is_mapped (if s == t then x else y) ≡ (t == s || c)
is_mapped-if s t x y c p q = ground (arith, eq_iff s t, eq_iff t s)

module _ (digest : String → String) (fromisoformat : String → Option ℕ) where
  -- The host that the aliases of an envelope stand for.
  abbrev pub host_of_envelope : Mapper → Envelope → String
  host_of_envelope m e =
      (resolve_host_id digest m e.source (extract_aliases e).1 ("host-" <> e.entity_id)).1

  aliases-All :
      (h : String) (aliases : List String) (e : Envelope)
      → All (RefersTo h) (build_alias_records digest fromisoformat h aliases e)
  aliases-All h [] e = tt
  aliases-All h (a ∷ r) e = (refl, aliases-All h r e)

  named-All :
      (h : String) (e : Envelope) (name platform : Option String)
      → All (RefersTo h) (named_host digest fromisoformat e h name platform)
  named-All h e none platform = tt
  named-All h e (some n) platform = (refl, tt)

  observation-All :
      (m : Mapper) (e : Envelope)
      → About (host_of_envelope m e) (map_host_observation digest fromisoformat m e)
  unfolding map_host_observation About
  observation-All m e =
      let h = host_of_envelope m e in
      (refl, All-append (RefersTo h) _ _ (aliases-All h (extract_aliases e).1 e) (refl, tt))

  query-All :
      (m : Mapper) (e : Envelope)
      → About (host_of_envelope m e) (map_query_result digest fromisoformat m e)
  unfolding map_query_result About
  query-All m e =
      let h = host_of_envelope m e in
      All-append (RefersTo h) _ _ (named-All h e _ _)
        (All-append (RefersTo h) _ _ (aliases-All h (extract_aliases e).1 e) (refl, tt))

  vulnerability-All :
      (m : Mapper) (e : Envelope)
      → About (host_of_envelope m e) (map_vulnerability digest fromisoformat m e)
  unfolding map_vulnerability About
  vulnerability-All m e =
      let h = host_of_envelope m e in
      All-append (RefersTo h) _ _ (named-All h e _ _)
        (All-append (RefersTo h) _ _ (aliases-All h (extract_aliases e).1 e) (refl, tt))

  -- Aliases decide without the fallback.
  alert_on-All :
      (m : Mapper) (e : Envelope) (alias : Option String) (aliases : List String)
      → About
          (resolve_host_id digest m e.source aliases ("host-" <> e.entity_id)).1
          (alert_on digest fromisoformat m e alias aliases)
  unfolding resolve_host_id choose_host_id About
  alert_on-All m e alias [] = (λ some_host. cc, tt)
  alert_on-All m e alias (a ∷ r) =
      let h = (resolve_host_id digest m e.source (a ∷ r) ("host-" <> e.entity_id)).1 in
      let last : All (RefersTo h) (alert_of digest fromisoformat e (some h) ∷ []) =
        (λ some_host. refl, tt) in
      (
        refl,
        All-append (RefersTo h) (build_alias_records digest fromisoformat h (a ∷ r) e)
            (alert_of digest fromisoformat e (some h) ∷ []) (aliases-All h (a ∷ r) e) last,
      )

  alert-All :
      (m : Mapper) (e : Envelope)
      → About (host_of_envelope m e) (map_alert digest fromisoformat m e)
  unfolding map_alert
  alert-All m e = alert_on-All m e (extract_aliases e).0 (extract_aliases e).1

  directory-All :
      (m : Mapper) (e : Envelope) (h : String)
      → About h (mapped m (map_directory_account digest fromisoformat e))
  unfolding map_directory_account About
  directory-All m e h = (tt, tt)

  membership-All :
      (m : Mapper) (e : Envelope) (h : String)
      → About h (mapped m (map_group_membership digest fromisoformat e))
  unfolding map_group_membership About
  membership-All m e h = (tt, tt)

  binding-All :
      (m : Mapper) (e : Envelope) (h : String)
      → About h (mapped m (map_privilege_binding digest fromisoformat e))
  unfolding map_privilege_binding About
  binding-All m e h = (tt, tt)

  account_observation-All :
      (m : Mapper) (e : Envelope) (h : String)
      → About h (mapped m (map_account_observation digest fromisoformat e))
  unfolding map_account_observation About
  account_observation-All m e h = (tt, tt)

  control_check-All :
      (m : Mapper) (e : Envelope) (h : String)
      → About h (mapped m (map_control_check digest fromisoformat e))
  unfolding map_control_check About
  control_check-All m e h = (tt, tt)

  unsupported-All : (h why : String) → About h (unsupported why)
  unfolding About
  unsupported-All h why = tt

  account-All :
      (m : Mapper) (e : Envelope) (h : String) → About h (map_account digest fromisoformat m e)
  unfolding map_account
  account-All m e h = if-either (About h) _ _ _ (directory-All m e h) (
      if-either (About h) _ _ _ (membership-All m e h) (
        if-either (About h) _ _ _ (binding-All m e h) (
          if-either (About h) _ _ _ (account_observation-All m e h)
            (if-either (About h) _ _ _ (control_check-All m e h) (unsupported-All h _)))))

  -- Every record that an envelope is mapped to, if it refers to a host, refers to the one host that the
  -- aliases of the envelope stand for.
  pub map_envelope-All :
      (m : Mapper) (e : Envelope)
      → About (host_of_envelope m e) (map_envelope digest fromisoformat m e)
  unfolding map_envelope
  map_envelope-All m e =
      let h = host_of_envelope m e in
      if-either (About h) _ _ _ (observation-All m e) (
        if-either (About h) _ _ _ (query-All m e) (
          if-either (About h) _ _ _ (alert-All m e)
            (if-either (About h) _ _ _ (vulnerability-All m e) (account-All m e h))))

  alert_on-is_mapped :
      (m : Mapper) (e : Envelope) (alias : Option String) (aliases : List String)
      → is_mapped (alert_on digest fromisoformat m e alias aliases) ≡ true
  alert_on-is_mapped m e alias [] = refl
  alert_on-is_mapped m e alias (a ∷ r) = refl

  is_mapped-map_account :
      (m : Mapper) (e : Envelope)
      → is_mapped (map_account digest fromisoformat m e) ≡ contains account_types e.entity_type
  unfolding map_account
  is_mapped-map_account m e =
      let s = e.entity_type in
      is_mapped-if s "directory_account" (mapped m _) _ _ refl (
        is_mapped-if s "group_membership" (mapped m _) _ _ refl (
          is_mapped-if s "privilege_binding" (mapped m _) _ _ refl (
            is_mapped-if s "account_observation" (mapped m _) _ _ refl
              (is_mapped-if s "control_check" (mapped m _) (unsupported _) false refl refl))))

  maps_observation :
      (m : Mapper) (e : Envelope) → is_mapped (map_host_observation digest fromisoformat m e) ≡ true
  unfolding map_host_observation
  maps_observation m e = refl

  maps_query :
      (m : Mapper) (e : Envelope) → is_mapped (map_query_result digest fromisoformat m e) ≡ true
  unfolding map_query_result
  maps_query m e = refl

  maps_alert : (m : Mapper) (e : Envelope) → is_mapped (map_alert digest fromisoformat m e) ≡ true
  unfolding map_alert
  maps_alert m e = alert_on-is_mapped m e (extract_aliases e).0 (extract_aliases e).1

  maps_vulnerability :
      (m : Mapper) (e : Envelope) → is_mapped (map_vulnerability digest fromisoformat m e) ≡ true
  unfolding map_vulnerability
  maps_vulnerability m e = refl

  -- An envelope is refused exactly if its type is not among the nine.
  pub is_mapped-map_envelope :
      (m : Mapper) (e : Envelope)
      → is_mapped (map_envelope digest fromisoformat m e) ≡ contains envelope_types e.entity_type
  unfolding map_envelope
  is_mapped-map_envelope m e =
      let s = e.entity_type in
      is_mapped-if s "host_observation" (map_host_observation digest fromisoformat m e) _ _
        (maps_observation m e)
        (is_mapped-if s "query_result" (map_query_result digest fromisoformat m e) _ _
          (maps_query m e)
          (is_mapped-if s "alert" (map_alert digest fromisoformat m e) _ _ (maps_alert m e) (
            is_mapped-if s "vulnerability" (map_vulnerability digest fromisoformat m e)
              (map_account digest fromisoformat m e) _ (maps_vulnerability m e)
              (is_mapped-map_account m e))))
