-- ===== src/Access/Lockout.antt =====
-- How many wrong passwords the login looks at.
use mori_soc.Prelude.{
  ltb, leb, if◌then◌else◌, Bool-cases, length, select, count_if, All, strip, ℕ, ◌≤◌, String, ◌≡◌,
  refl, ◌∙◌, inl, inr, Bool, true, false, not, none, List, [], ◌∷◌, ◌++◌, arith, ◌==◌, eq_refl,
}
use mori_soc.Prelude.Dict.{Dict, get, or_value, put, get-put}
use mori_soc.RateLimit.{Request, client_ip, in_window}
use mathlib.Core.Path.{subst}
use mathlib.Core.List.{append-nil, append_assoc}
use mori_soc.RateLimit.Window.{Ordered}
use mori_soc.RateLimit.Cap.{Bounded, Bounded-passed, count_if-select, within}
use mori_soc.Access.{
  rejected, AccessState, max_failures, lockout_window, login_key, locked_seconds, LoginReply,
  auth_login,
}

is_locked :
    (m w now : ℕ) (fails : List ℕ) → ltb 0 (locked_seconds m w now fails) ≡ leb m (length fails)
unfolding locked_seconds
is_locked m w now [] = elim (Bool-cases (leb m 0)) [
  | inl e ↦ rw e (ground arith)
  | inr e ↦ rw e refl
]
is_locked m w now (t ∷ fails) = elim (Bool-cases (leb m (length (t ∷ fails)))) [
  | inl e ↦ rw e (ground arith)
  | inr e ↦ rw e refl
]

-- A refused attempt is not counted as a failure.
Bounded-locked :
    (w cap t now : ℕ) (kept before : List ℕ)
    → t ≤ now
    → Bounded w cap t kept before
    → Bounded w cap now (select (in_window w now) kept) before
Bounded-locked w cap t now kept before h b = record {
  capped = b.capped;
  past = λ later h'. rw (count_if-select w now later kept h') (b.past later (omega (arith, h, h')));
}

kept-put : (d : Dict (List ℕ)) (k : String) (v : List ℕ) → or_value (get (put d k v) k) [] ≡ v
kept-put d k v = rw (get-put d k k v, eq_refl k) refl

module _ (env : Dict String) (verify_credentials : String → String → Bool)
    (role_of : String → String) (username : String) (request : Request) (token : String) where
  abbrev pub login_at : AccessState → ℕ → String → LoginReply × AccessState
  login_at s now password =
      auth_login env verify_credentials role_of s username password request token now

  abbrev is_rejected : LoginReply → Bool
  is_rejected rejected = true
  is_rejected _ = false

  -- The times of the attempts whose password was looked at, and was wrong.
  abbrev pub rejections : AccessState → List (ℕ × String) → List ℕ
  rejections s [] = []
  rejections s ((now, password) ∷ r) =
      let rest = rejections (login_at s now password).1 r in
      if is_rejected (login_at s now password).0 then now ∷ rest else rest

  abbrev key : String
  key = login_key (strip username) (client_ip request)

  abbrev kept : AccessState → List ℕ
  kept s = or_value (get s.failures key) []

  -- A password that is given, and is wrong.
  abbrev pub IsWrong : ℕ × String → Type 0
  IsWrong (now, password) =
      ((password == "") ≡ false) × (verify_credentials (strip username) password ≡ false)

  abbrev recent : AccessState → ℕ → List ℕ
  recent s now = select (in_window (lockout_window env) now) (kept s)

  wrong_login :
      (s : AccessState) (now : ℕ) (password : String)
      → (strip username == "") ≡ false
      → IsWrong (now, password)
      → (is_rejected (login_at s now password).0
          ≡ not (leb (max_failures env) (length (recent s now))))
        × (kept (login_at s now password).1 ≡ (
            if leb (max_failures env) (length (recent s now))
            then recent s now
            else recent s now ++ now ∷ []))
  unfolding auth_login
  wrong_login s now password named wrong =
      elim (Bool-cases (leb (max_failures env) (length (recent s now)))) [
        | inl e ↦
            let full = is_locked (max_failures env) (lockout_window env) now (recent s now) ∙ e in
            rw (auth_login, named, wrong.0, full, e) (refl, kept-put s.failures key (recent s now))
        | inr e ↦
            let free = is_locked (max_failures env) (lockout_window env) now (recent s now) ∙ e in
            rw (auth_login, named, wrong.0, free, wrong.1, e)
              (refl, kept-put (put s.failures key (recent s now)) key (recent s now ++ now ∷ []))
      ]

  rejections-Bounded :
      (s : AccessState) (t : ℕ) (before : List ℕ) (tries : List (ℕ × String))
      → (strip username == "") ≡ false
      → Ordered t tries
      → All IsWrong tries
      → Bounded (lockout_window env) (max_failures env) t (kept s) before
      → (now : ℕ)
      → count_if (within (lockout_window env) now) (before ++ rejections s tries) ≤ max_failures env
  rejections-Bounded s t before [] named o wrong b now = rw (append-nil before) (b.capped now)
  rejections-Bounded s t before ((x, password) ∷ tries) named o wrong b now =
      let w = lockout_window env in
      let next = (login_at s x password).1 in
      let rest = rejections next tries in
      let (reply, kept') = wrong_login s x password named wrong.0 in
      elim (Bool-cases (leb (max_failures env) (length (recent s x)))) [
        | inl e ↦
            let b' : Bounded w (max_failures env) x (kept next) before =
              rw (kept', e) (Bounded-locked w (max_failures env) t x (kept s) before o.0 b) in
            rw (reply, e) (rejections-Bounded next x before tries named o.1 wrong.1 b' now)
        | inr e ↦
            let b' : Bounded w (max_failures env) x (kept next) (before ++ x ∷ []) =
              rw (kept', e) (Bounded-passed w (max_failures env) t x (kept s) before o.0 e b) in
            rw (reply, e)
              (subst (λ xs. count_if (within w now) xs ≤ max_failures env)
                (append_assoc before (x ∷ []) rest)
                (rejections-Bounded next x (before ++ x ∷ []) tries named o.1 wrong.1 b' now))
      ]

  -- Whoever only tries wrong passwords for one user name from one address, as the clock goes on, has at
  -- most `max_failures` of them looked at in the lockout window that ends at any moment.
  pub rejections_at_most :
      (s : AccessState) (tries : List (ℕ × String))
      → (strip username == "") ≡ false
      → get s.failures (login_key (strip username) (client_ip request)) ≡ none
      → Ordered 0 tries
      → All IsWrong tries
      → (now : ℕ)
      → count_if (within (lockout_window env) now) (rejections s tries) ≤ max_failures env
  rejections_at_most s tries named fresh o wrong now =
      rejections-Bounded s 0 [] tries named o wrong
        (record { capped = λ n. omega arith; past = λ n h. omega arith }) now
