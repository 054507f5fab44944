-- ===== src/Access/Sessions.antt =====
-- What the session middleware lets through.
use mori_soc.Prelude.{
  if◌then◌else◌, Bool-cases, Option-cases, ℕ, String, ◌≡◌, refl, sym, ap, ◌∙◌, ◌≢◌, inl, inr, Bool,
  true, false, Option, none, some, arith, ◌==◌, eq_refl,
}
use mori_soc.Prelude.Dict.{Dict, get, put, get-put, get-remove}
use mori_soc.Access.{
  through, cross_origin, Session, session_expired, is_public, WebRequest, turned_away,
  is_cross_origin, gate, check_session,
}

turned_away-through : (q : WebRequest) → turned_away q ≢ through
turned_away-through q h = ground arith

crossed : cross_origin ≢ through
crossed h = ground arith

gate-through :
    (env : Dict String) (origin_allowed : String → String → Bool) (sessions : Dict Session)
    (q : WebRequest) (now : ℕ) (sess : Session)
    → (gate env origin_allowed sessions q now (some sess)).0 ≡ through
    → (session_expired env sess now ≡ false)
      × (is_cross_origin origin_allowed q ≡ false)
      × ((gate env origin_allowed sessions q now (some sess)).1
          ≡ put sessions q.token (record sess { last_seen = some now }))
gate-through env origin_allowed sessions q now sess h =
    elim (Bool-cases (session_expired env sess now)) [
      | inl e ↦ absurd (turned_away-through q (rw e at h))
      | inr e ↦ elim (Bool-cases (is_cross_origin origin_allowed q)) [
        | inl f ↦ absurd (crossed (rw (e, f) at h))
        | inr f ↦ (e, f, rw e refl)
      ]
    ]

-- The session that a request names.
abbrev found : Dict Session → WebRequest → Option Session
found sessions q = if q.token == "" then none else get sessions q.token

found-get :
    (sessions : Dict Session) (q : WebRequest) (sess : Session)
    → found sessions q ≡ some sess
    → get sessions q.token ≡ some sess
found-get sessions q sess h = ground arith

-- A request to a page that is not public goes through only with the token of a session that has not
-- expired, and, if it changes something, not from another origin; the session stays and is marked as
-- seen now.
pub through_lem :
    (env : Dict String) (origin_allowed : String → String → Bool) (sessions : Dict Session)
    (q : WebRequest) (now : ℕ)
    → is_public q.path ≡ false
    → (check_session env origin_allowed sessions q now).0 ≡ through
    → (sess : Session) × (get sessions q.token ≡ some sess)
      × (session_expired env sess now ≡ false)
      × (is_cross_origin origin_allowed q ≡ false)
      × (get (check_session env origin_allowed sessions q now).1 q.token
          ≡ some (record sess { last_seen = some now }))
unfolding check_session
through_lem env origin_allowed sessions q now closed h =
    let same : check_session env origin_allowed sessions q now
        ≡ gate env origin_allowed sessions q now (found sessions q) =
      rw closed refl in
    elim (Option-cases (found sessions q)) [
      | inl e ↦ absurd (
          turned_away-through q (
            ap (λ o. (gate env origin_allowed sessions q now o).0) (sym e)
            ∙ sym (ap (λ p. p.0) same)
            ∙ h))
      | inr (sess, e) ↦
          let opened = ap (λ o. gate env origin_allowed sessions q now o) e in
          let (live, same_origin, stored) =
            gate-through env origin_allowed sessions q now sess
              (sym (ap (λ p. p.0) opened) ∙ sym (ap (λ p. p.0) same) ∙ h) in
          (
            sess,
            found-get sessions q sess e,
            live,
            same_origin,
            ap (λ p. get p.1 q.token) (same ∙ opened)
                ∙ ap (λ d. get d q.token) stored
                ∙ rw (get-put sessions q.token q.token, eq_refl q.token) refl,
          )
    ]

-- A session that has expired is gone after its next request, which is turned away; no other session
-- changes.
pub expired_lem :
    (env : Dict String) (origin_allowed : String → String → Bool) (sessions : Dict Session)
    (q : WebRequest) (now : ℕ) (sess : Session)
    → is_public q.path ≡ false
    → (q.token == "") ≡ false
    → get sessions q.token ≡ some sess
    → session_expired env sess now ≡ true
    → ((check_session env origin_allowed sessions q now).0 ≡ turned_away q)
      × ((k : String)
          → get (check_session env origin_allowed sessions q now).1 k
            ≡ (if q.token == k then none else get sessions k))
unfolding check_session
expired_lem env origin_allowed sessions q now sess closed given found old =
    rw (check_session, closed, given, found, old) (refl, get-remove sessions q.token)
