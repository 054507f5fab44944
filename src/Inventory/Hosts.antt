-- ===== src/Inventory/Hosts.antt =====
-- What `_save_host` keeps of a host that is saved many times.
use mori_soc.Prelude.{
  if◌then◌else◌, Bool-cases, or_text, ℕ, String, ◌≡◌, refl, ap, ◌∙◌, inl, inr, Option, none, some,
  [], ◌∷◌, arith, ◌==◌, eq_iff, eq_refl,
}
use mori_soc.Prelude.Dict.{Dict, get, put, get-put}
use mori_soc.Inventory.Entities.{Host}
use mori_soc.Inventory.{or_option, min_dt, max_dt, merged, save_host}

put-put : {V : Type 0} (d : Dict V) (k : String) (v w : V) → put (put d k v) k w ≡ put d k w
unfolding put
put-put [] k v w = rw (eq_refl k) refl
put-put ((j, x) ∷ d) k v w = elim (Bool-cases (j == k)) [
  | inl e ↦ rw (e, e) refl
  | inr e ↦ rw (e, e) (ap (λ r. (j, x) ∷ r) (put-put d k v w))
]

or_text-same : (a b : String) → or_text a (or_text a b) ≡ or_text a b
or_text-same a b = ground arith

or_option-same : (a b : Option String) → or_option a (or_option a b) ≡ or_option a b
or_option-same none b = refl
or_option-same (some a) b = ground arith

or_option_self : (a : Option String) → or_option a a ≡ a
or_option_self none = refl
or_option_self (some a) = ground arith

min_dt_self : (a : Option ℕ) → min_dt a a ≡ a
min_dt_self none = refl
min_dt_self (some a) = ground arith

max_dt_self : (a : Option ℕ) → max_dt a a ≡ a
max_dt_self none = refl
max_dt_self (some a) = ground arith

min_dt-same : (a b : Option ℕ) → min_dt (min_dt a b) b ≡ min_dt a b
min_dt-same none b = min_dt_self b
min_dt-same (some a) none = refl
min_dt-same (some a) (some b) = ground arith

max_dt-same : (a b : Option ℕ) → max_dt (max_dt a b) b ≡ max_dt a b
max_dt-same none b = max_dt_self b
max_dt-same (some a) none = refl
max_dt-same (some a) (some b) = ground arith

merged-twice : (o : Option Host) (h : Host) → merged (some (merged o h)) h ≡ merged o h
merged-twice none h = ground (
  arith,
  or_option_self h.platform,
  or_option_self h.primary_ip,
  min_dt_self h.first_seen_at,
  max_dt_self h.last_seen_at,
)
merged-twice (some e) h = ground (
  arith,
  or_text-same h.hostname e.hostname,
  or_option-same h.platform e.platform,
  or_option-same h.primary_ip e.primary_ip,
  min_dt-same e.first_seen_at h.first_seen_at,
  max_dt-same e.last_seen_at h.last_seen_at,
)

get-save_host :
    (hosts : Dict Host) (a : Host) (k : String)
    → get (save_host hosts a) k
      ≡ (if a.host_id == k then some (merged (get hosts k) a) else get hosts k)
unfolding save_host
get-save_host hosts a k = elim (Bool-cases (a.host_id == k)) [
  | inl e ↦
      let same : a.host_id ≡ k = ground (arith, eq_iff a.host_id k) in
      rw (get-put hosts a.host_id k (merged (get hosts a.host_id) a), e)
        (ap (λ j. some (merged (get hosts j) a)) same)
  | inr e ↦ rw (get-put hosts a.host_id k (merged (get hosts a.host_id) a), e) refl
]

stored_host :
    (hosts : Dict Host) (h : Host)
    → get (put hosts h.host_id (merged (get hosts h.host_id) h)) h.host_id
      ≡ some (merged (get hosts h.host_id) h)
stored_host hosts h = rw (get-put hosts h.host_id h.host_id, eq_refl h.host_id) refl

-- Saving a host a second time changes nothing.
pub save_host_twice :
    (hosts : Dict Host) (h : Host) → save_host (save_host hosts h) h ≡ save_host hosts h
unfolding save_host
save_host_twice hosts h =
    put-put hosts h.host_id _ _
    ∙ ap (put hosts h.host_id)
        (ap (λ o. merged o h) (stored_host hosts h) ∙ merged-twice (get hosts h.host_id) h)

-- What a save can only raise, or lower: the score and the two times.
abbrev pub extremes : Option Host → Option (ℕ × Option ℕ × Option ℕ)
extremes none = none
extremes (some h) = some (h.risk_score, h.first_seen_at, h.last_seen_at)

min_dt_swap : (o a b : Option ℕ) → min_dt (min_dt o a) b ≡ min_dt (min_dt o b) a
min_dt_swap none none b = ground arith
min_dt_swap none (some a) none = refl
min_dt_swap none (some a) (some b) = ground arith
min_dt_swap (some o) none none = refl
min_dt_swap (some o) none (some b) = ground arith
min_dt_swap (some o) (some a) none = ground arith
min_dt_swap (some o) (some a) (some b) = ground arith

max_dt_swap : (o a b : Option ℕ) → max_dt (max_dt o a) b ≡ max_dt (max_dt o b) a
max_dt_swap none none b = ground arith
max_dt_swap none (some a) none = refl
max_dt_swap none (some a) (some b) = ground arith
max_dt_swap (some o) none none = refl
max_dt_swap (some o) none (some b) = ground arith
max_dt_swap (some o) (some a) none = ground arith
max_dt_swap (some o) (some a) (some b) = ground arith

extremes_swap :
    (o : Option Host) (a b : Host)
    → extremes (some (merged (some (merged o a)) b))
      ≡ extremes (some (merged (some (merged o b)) a))
extremes_swap none a b = ground (
  arith,
  min_dt_swap none a.first_seen_at b.first_seen_at,
  max_dt_swap none a.last_seen_at b.last_seen_at,
)
extremes_swap (some h) a b = ground (
  arith,
  min_dt_swap h.first_seen_at a.first_seen_at b.first_seen_at,
  max_dt_swap h.last_seen_at a.last_seen_at b.last_seen_at,
)

-- Two sources that report at the same time may do so in either order: the score, the first and the
-- last time of every host are the same.
pub save_host_swap :
    (hosts : Dict Host) (a b : Host) (k : String)
    → extremes (get (save_host (save_host hosts a) b) k)
      ≡ extremes (get (save_host (save_host hosts b) a) k)
save_host_swap hosts a b k =
    rw
      (
        get-save_host (save_host hosts a) b k,
        get-save_host (save_host hosts b) a k,
        get-save_host hosts a k,
        get-save_host hosts b k,
      )
      (elim (Bool-cases (a.host_id == k)) [
        | inl e ↦ rw e (elim (Bool-cases (b.host_id == k)) [
          | inl f ↦ rw f (extremes_swap (get hosts k) a b)
          | inr f ↦ rw f refl
        ])
        | inr e ↦ rw e refl
      ])
