-- ===== src/Inventory/Scores.antt =====
-- The scores of the hosts after a recalculation, src/mori_soc/services/risk_score.py.
use mori_soc.Prelude.{
  if◌then◌else◌, Bool-cases, Option-cases, select, ℕ, ◌+◌, ◌≤◌, ◌<◌, String, ◌≡◌, refl, sym, ap,
  ◌∙◌, inl, inr, Bool, not, ◌&&◌, Option, none, some, List, [], ◌∷◌, ◌++◌, map, arith, ◌==◌, eq_iff,
}
use mori_soc.Prelude.Dict.{
  append_to, list_of, get-append_to, Dict, get, or_value, put, values, get-put, NodupKeys,
  put-NodupKeys, put-KeyedBy, get-KeyedBy, first_some, KeyedBy,
}
use mori_soc.Prelude.Tally.{total}
use mori_soc.Inventory.Entities.{Host, Alert, Vulnerability}
use mathlib.Core.List.{append-nil, append_assoc}
use mori_soc.Inventory.{
  host, host_alias, alert, vulnerability, query_result, host_observation, source_sync,
  control_check_result, directory_account, privilege_binding, group_membership, account_observation,
  Repository, Entity, merged, save_host, save, save_all, set_score, apply_risk_scores, alert_weight,
  vuln_weight, calculate, host_key, group_alerts, group_vulns, rescored, recalculate_hosts,
  scores_of, recalculate_risk_scores,
}

-- The two loops group by the host.
group_vulns_lem :
    (d : Dict (List Vulnerability)) (vs : List Vulnerability) (k : String)
    → list_of (group_vulns d vs) k ≡ list_of d k ++ select (λ v. v.host_id == k) vs
unfolding group_vulns
group_vulns_lem d [] k = sym (append-nil _)
group_vulns_lem d (v ∷ vs) k =
    group_vulns_lem (append_to d v.host_id v) vs k
    ∙ rw (get-append_to d v.host_id k v) (elim (Bool-cases (v.host_id == k)) [
      | inl e ↦ rw e (append_assoc (list_of d k) (v ∷ []) (select (λ w. w.host_id == k) vs))
      | inr e ↦ rw e refl
    ])

-- The alerts of a host that has an identity.
abbrev pub is_alert_of : String → Alert → Bool
is_alert_of k a = not (host_key a == "") && host_key a == k

group_alerts_lem :
    (d : Dict (List Alert)) (alerts : List Alert) (k : String)
    → list_of (group_alerts d alerts) k ≡ list_of d k ++ select (is_alert_of k) alerts
unfolding group_alerts
group_alerts_lem d [] k = sym (append-nil _)
group_alerts_lem d (a ∷ r) k = elim (Bool-cases (host_key a == "")) [
  | inl z ↦ rw z (group_alerts_lem d r k)
  | inr z ↦ rw z (
      group_alerts_lem (append_to d (host_key a) a) r k
      ∙ rw (get-append_to d (host_key a) k a) (elim (Bool-cases (host_key a == k)) [
        | inl e ↦ rw e (append_assoc (list_of d k) (a ∷ []) (select (is_alert_of k) r))
        | inr e ↦ rw e refl
      ]))
]

-- The score that one host deserves.
abbrev pub deserved : Repository → String → ℕ
deserved r k =
    calculate (select (is_alert_of k) (values r.alerts))
      (select (λ v. v.host_id == k) (values r.vulnerabilities))

calculate-groups :
    (alerts : List Alert) (vulns : List Vulnerability) (k : String)
    → calculate (list_of (group_alerts [] alerts) k) (list_of (group_vulns [] vulns) k)
      ≡ calculate (select (is_alert_of k) alerts) (select (λ v. v.host_id == k) vulns)
unfolding get
calculate-groups alerts vulns k = rw (group_alerts_lem [] alerts k, group_vulns_lem [] vulns k) refl

-- A host that takes a score, if there is one.
abbrev pub scored : Option ℕ → Option Host → Option Host
scored s none = none
scored s (some h) = some (record h { risk_score = or_value s h.risk_score })

scored-none : (o : Option Host) → scored none o ≡ o
scored-none none = refl
scored-none (some h) = refl

scored-scored : (s : ℕ) (o : Option Host) → scored none (scored (some s) o) ≡ scored (some s) o
scored-scored s none = refl
scored-scored s (some h) = refl

get-set_score_at :
    (hosts : Dict Host) (j k : String) (s : ℕ) (o : Option Host)
    → get hosts j ≡ o
    → get (set_score hosts j s o) k
      ≡ (if j == k then scored (some s) (get hosts k) else get hosts k)
get-set_score_at hosts j k s none h = elim (Bool-cases (j == k)) [
  | inl e ↦
      let same : get hosts k ≡ none = ap (get hosts) (ground (arith, eq_iff j k)) ∙ h in
      rw (e, same) refl
  | inr e ↦ rw e refl
]
get-set_score_at hosts j k s (some x) h = elim (Bool-cases (j == k)) [
  | inl e ↦
      let same : get hosts k ≡ some x = ap (get hosts) (ground (arith, eq_iff j k)) ∙ h in
      rw (get-put hosts j k (record x { risk_score = s }), e, same) refl
  | inr e ↦ rw (get-put hosts j k (record x { risk_score = s }), e) refl
]

-- Each known host gets the score for its identity, if there is one.
get-apply_risk_scores :
    (hosts : Dict Host) (scores : Dict ℕ) (k : String)
    → NodupKeys scores
    → get (apply_risk_scores hosts scores) k ≡ scored (get scores k) (get hosts k)
unfolding apply_risk_scores get
get-apply_risk_scores hosts [] k n = sym (scored-none (get hosts k))
get-apply_risk_scores hosts ((j, s) ∷ scores) k n =
    get-apply_risk_scores (set_score hosts j s (get hosts j)) scores k n.1
    ∙ ap (scored (get scores k)) (get-set_score_at hosts j k s (get hosts j) refl)
    ∙ elim (Bool-cases (j == k)) [
      | inl e ↦
          let same : get scores k ≡ none = ap (get scores) (ground (arith, eq_iff j k)) ∙ n.0 in
          rw (e, same) (scored-scored s (get hosts k))
      | inr e ↦ rw e refl
    ]

-- The score that a function on hosts gives to a host, if there is one.
abbrev score_by : (Host → Host) → Option Host → Option ℕ
score_by f none = none
score_by f (some h) = some (f h).risk_score

get-scores_of :
    (f : Host → Host)
    → ((h : Host) → (f h).host_id ≡ h.host_id)
    → (hosts : Dict Host) (d : Dict ℕ) (k : String) → NodupKeys hosts
    → KeyedBy (λ h. h.host_id) hosts
    → get (scores_of d (map f (values hosts))) k ≡ first_some (score_by f (get hosts k)) (get d k)
unfolding scores_of get
get-scores_of f same [] d k n keyed = refl
get-scores_of f same ((j, h) ∷ hosts) d k n keyed =
    let at : (f h).host_id ≡ j = same h ∙ sym keyed.0 in
    get-scores_of f same hosts (put d (f h).host_id (f h).risk_score) k n.1 keyed.1
    ∙ rw (get-put d (f h).host_id k (f h).risk_score, at)
        (elim (Bool-cases (j == k)) [
          | inl e ↦
              let gone : get hosts k ≡ none = ap (get hosts) (ground (arith, eq_iff j k)) ∙ n.0 in
              rw (e, gone) refl
          | inr e ↦ rw e refl
        ])

NodupKeys-scores_of : (d : Dict ℕ) (hs : List Host) → NodupKeys d → NodupKeys (scores_of d hs)
unfolding scores_of
NodupKeys-scores_of d [] n = n
NodupKeys-scores_of d (h ∷ hs) n =
    NodupKeys-scores_of (put d h.host_id h.risk_score) hs (put-NodupKeys d h.host_id h.risk_score n)

-- The hosts of a repository stand at their own identities, each once.
pub record IsValid (r : Repository) : Type 0 where
  pub nodup : NodupKeys r.hosts
  pub keyed : KeyedBy (λ (h : Host). h.host_id) r.hosts

-- After a recalculation every host is as it was but for its score, which is that of its own alerts and
-- its own vulnerabilities.
pub recalculate_risk_scores_lem :
    (r : Repository) (k : String)
    → IsValid r
    → get (recalculate_risk_scores r).hosts k ≡ scored (some (deserved r k)) (get r.hosts k)
unfolding recalculate_risk_scores recalculate_hosts get
recalculate_risk_scores_lem r k valid =
    let f =
      rescored (group_alerts [] (values r.alerts)) (group_vulns [] (values r.vulnerabilities)) in
    get-apply_risk_scores r.hosts _ k (NodupKeys-scores_of [] (map f (values r.hosts)) tt)
    ∙ ap (λ s. scored s (get r.hosts k))
        (get-scores_of f (λ h. refl) r.hosts [] k valid.nodup valid.keyed)
    ∙ elim (Option-cases (get r.hosts k)) [
      | inl e ↦ rw e refl
      | inr (h, e) ↦
          let at : h.host_id ≡ k =
            get-KeyedBy (λ (x : Host). x.host_id) r.hosts k h valid.keyed e in
          rw e (
            ap (λ n. some (record h { risk_score = n }))
              (calculate-groups (values r.alerts) (values r.vulnerabilities) h.host_id
                ∙ ap (deserved r) at))
    ]

save_host-valid :
    (hosts : Dict Host) (h : Host)
    → NodupKeys hosts
    → KeyedBy (λ (x : Host). x.host_id) hosts
    → NodupKeys (save_host hosts h) × KeyedBy (λ (x : Host). x.host_id) (save_host hosts h)
unfolding save_host
save_host-valid hosts h n keyed = (
  put-NodupKeys hosts h.host_id (merged (get hosts h.host_id) h) n,
  put-KeyedBy (λ (x : Host). x.host_id) hosts h.host_id (merged (get hosts h.host_id) h)
      (elim (Option-cases (get hosts h.host_id)) [
        | inl e ↦ rw e refl
        | inr (x, e) ↦ rw e (sym (get-KeyedBy (λ (y : Host). y.host_id) hosts h.host_id x keyed e))
      ])
      keyed,
)

save-IsValid : (r : Repository) (e : Entity) → IsValid r → IsValid (save r e)
unfolding save
save-IsValid r (host h) v = record {
  nodup = (save_host-valid r.hosts h v.nodup v.keyed).0;
  keyed = (save_host-valid r.hosts h v.nodup v.keyed).1;
}
save-IsValid r (host_alias e) v = record { nodup = v.nodup; keyed = v.keyed }
save-IsValid r (alert e) v = record { nodup = v.nodup; keyed = v.keyed }
save-IsValid r (vulnerability e) v = record { nodup = v.nodup; keyed = v.keyed }
save-IsValid r (query_result e) v = record { nodup = v.nodup; keyed = v.keyed }
save-IsValid r (host_observation e) v = record { nodup = v.nodup; keyed = v.keyed }
save-IsValid r (source_sync e) v = record { nodup = v.nodup; keyed = v.keyed }
save-IsValid r (control_check_result e) v = record { nodup = v.nodup; keyed = v.keyed }
save-IsValid r (directory_account e) v = record { nodup = v.nodup; keyed = v.keyed }
save-IsValid r (privilege_binding e) v = record { nodup = v.nodup; keyed = v.keyed }
save-IsValid r (group_membership e) v = record { nodup = v.nodup; keyed = v.keyed }
save-IsValid r (account_observation e) v = record { nodup = v.nodup; keyed = v.keyed }

-- A run of saves keeps a repository valid: every host stands at its own identity, each once.
pub save_all-IsValid : (r : Repository) (es : List Entity) → IsValid r → IsValid (save_all r es)
save_all-IsValid r [] h = h
save_all-IsValid r (e ∷ es) h = save_all-IsValid (save r e) es (save-IsValid r e h)

total-append : (xs ys : List ℕ) → total (xs ++ ys) ≡ total xs + total ys
total-append [] ys = omega arith
total-append (x ∷ xs) ys = omega (arith, total-append xs ys)

map-append {ℓ κ} :
    {A : Type ℓ} {B : Type κ} (f : A → B) (xs ys : List A) → map f (xs ++ ys) ≡ map f xs ++ map f ys
map-append f [] ys = refl
map-append f (x ∷ xs) ys = ap (λ r. f x ∷ r) (map-append f xs ys)

-- A score is at most 100, more alerts or vulnerabilities never lower it, and below 100 it is exactly the
-- sum of the weights.
pub calculate_lem :
    (alerts more : List Alert) (vulns others : List Vulnerability)
    → (calculate alerts vulns ≤ 100)
      × (calculate alerts vulns ≤ calculate (alerts ++ more) (vulns ++ others))
      × (calculate alerts vulns < 100
          → calculate alerts vulns
            ≡ total (map alert_weight alerts) + total (map vuln_weight vulns))
unfolding calculate
calculate_lem alerts more vulns others =
    rw (map-append alert_weight alerts more, map-append vuln_weight vulns others)
      (rw
        (
          total-append (map alert_weight alerts) (map alert_weight more),
          total-append (map vuln_weight vulns) (map vuln_weight others),
        )
        (omega arith, omega arith, λ h. omega arith))
