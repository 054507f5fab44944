-- ===== src/Accounts/Findings.antt =====
-- What the findings of a reconciliation say.
use mori_soc.Prelude.{
  ltb, if◌then◌else◌, lt→ltb, Bool-cases, length, take, select, count_if, All, count_if-append,
  All-append, contains, ℕ, zero, suc, ◌+◌, String, ◌≡◌, refl, sym, ap, ◌∙◌, inl, inr, Bool, true,
  false, ◌&&◌, ◌||◌, Option, List, [], ◌∷◌, ◌++◌, map, arith, ◌==◌, eq_iff,
}
use mori_soc.Prelude.Dict.{Dict, get, or_value, get-put}
use mori_soc.Prelude.Tally.{count_of, count_of-bump}
use mathlib.Core.List.{append-nil, append_assoc}
use mori_soc.Accounts.{
  Account, DirectoryEntry, AllowEntry, dir_by_user, approved, Row, tag, review, sort_hosts,
  review_hosts, Tallies, note_finding, note_tags, note_rows, no_tallies, reconcile,
}

-- An approval of `sudo` is an approval of the account.
pub approved_sudo-account :
    (approvals : List AllowEntry) (username host_key : String)
    → approved approvals username host_key "sudo" ≡ true
    → approved approvals username host_key "account" ≡ true
unfolding approved
approved_sudo-account [] username host_key h = h
approved_sudo-account (a ∷ approvals) username host_key h =
    ground (arith, approved_sudo-account approvals username host_key)

take-append_one {ℓ} :
    {A : Type ℓ} (n : ℕ) (l : List A) (x : A)
    → (if ltb (length (take n l)) n then take n l ++ x ∷ [] else take n l) ≡ take n (l ++ x ∷ [])
take-append_one zero l x = refl
take-append_one (suc zero) [] x = refl
take-append_one (suc (suc n)) [] x = rw (lt→ltb 0 (suc (suc n)) (omega arith)) refl
take-append_one (suc n) (y ∷ l) x = elim (Bool-cases (ltb (length (take n l)) n)) [
  | inl e ↦
      let up : ltb (suc (length (take n l))) (suc n) ≡ true = ground arith in
      rw up (ap (λ r. y ∷ r) (rw⁻¹ (take-append_one n l x) (rw e refl)))
  | inr e ↦
      let up : ltb (suc (length (take n l))) (suc n) ≡ false = ground arith in
      rw up (ap (λ r. y ∷ r) (rw⁻¹ (take-append_one n l x) (rw e refl)))
]

contains-append :
    (xs ys : List String) (k : String) → contains (xs ++ ys) k ≡ (contains xs k || contains ys k)
contains-append [] ys k = refl
contains-append (x ∷ xs) ys k = ground (arith, contains-append xs ys k)

-- A row has each finding at most once.
abbrev pub IsPlain : Row → Type 0
IsPlain row =
    (k : String) → count_if (λ t. t == k) row.findings ≡ (if contains row.findings k then 1 else 0)

-- Whether a tag is there, and is `k`.
count_if-tag :
    (b : Bool) (t k : String) → count_if (λ u. u == k) (tag b t) ≡ (if b && t == k then 1 else 0)
count_if-tag true t k = ground arith
count_if-tag false t k = refl

contains-tag : (b : Bool) (t k : String) → contains (tag b t) k ≡ (b && t == k)
contains-tag true t k = ground arith
contains-tag false t k = refl

literal_lem : (x k : String) → (x == k) ≡ true → x ≡ k
literal_lem x k e = ground (arith, eq_iff x k)

abbrev one : Bool → ℕ
one b = if b then 1 else 0

one_of :
    (a b c d : Bool) (k : String)
    → one (a && "leaver" == k)
        + one (b && "orphan_priv" == k)
        + one (c && "unapproved_sudo" == k)
        + one (d && "dormant" == k)
      ≡ one (
          a && "leaver" == k
          || b && "orphan_priv" == k
          || c && "unapproved_sudo" == k
          || d && "dormant" == k)
one_of a b c d k = elim (Bool-cases ("leaver" == k)) [
  | inl e ↦ rw⁻¹ (literal_lem "leaver" k e) (ground arith)
  | inr e ↦ rw e (elim (Bool-cases ("orphan_priv" == k)) [
    | inl f ↦ rw⁻¹ (literal_lem "orphan_priv" k f) (ground arith)
    | inr f ↦ rw f (elim (Bool-cases ("unapproved_sudo" == k)) [
      | inl g ↦ rw⁻¹ (literal_lem "unapproved_sudo" k g) (ground arith)
      | inr g ↦ rw g (ground arith)
    ])
  ])
]

tags-plain :
    (a b c d : Bool) (k : String)
    → let ts =
        tag a "leaver" ++ tag b "orphan_priv" ++ tag c "unapproved_sudo" ++ tag d "dormant" in
      count_if (λ t. t == k) ts ≡ (if contains ts k then 1 else 0)
tags-plain a b c d k =
    let y = tag a "leaver" ++ tag b "orphan_priv" in
    let z = y ++ tag c "unapproved_sudo" in
    rw
      (
        count_if-append (λ t. t == k) z (tag d "dormant"),
        count_if-append (λ t. t == k) y (tag c "unapproved_sudo"),
        count_if-append (λ t. t == k) (tag a "leaver") (tag b "orphan_priv"),
        contains-append z (tag d "dormant") k,
        contains-append y (tag c "unapproved_sudo") k,
        contains-append (tag a "leaver") (tag b "orphan_priv") k,
        count_if-tag a "leaver" k,
        count_if-tag b "orphan_priv" k,
        count_if-tag c "unapproved_sudo" k,
        count_if-tag d "dormant" k,
        contains-tag a "leaver" k,
        contains-tag b "orphan_priv" k,
        contains-tag c "unapproved_sudo" k,
        contains-tag d "dormant" k,
      )
      (one_of a b c d k)

note_tags-counts :
    (row : Row) (s : Tallies) (ts : List String) (k : String)
    → count_of (note_tags row s ts).counts k ≡ count_of s.counts k + count_if (λ t. t == k) ts
unfolding note_tags
note_tags-counts row s [] k = omega arith
note_tags-counts row s (t ∷ ts) k =
    ground (arith, note_tags-counts row (note_finding row s t) ts k, count_of-bump s.counts t k)

note_rows-counts :
    (s : Tallies) (rows : List Row) (k : String)
    → All IsPlain rows
    → count_of (note_rows s rows).counts k
      ≡ count_of s.counts k + count_if (λ (row : Row). contains row.findings k) rows
unfolding note_rows
note_rows-counts s [] k h = omega arith
note_rows-counts s (row ∷ rows) k h = ground (
  arith,
  note_rows-counts (note_tags row s row.findings) rows k h.1,
  note_tags-counts row s row.findings k,
  h.0 k,
)

-- The rows of one kind that are kept.
abbrev listed_as : Tallies → String → List Row
listed_as s k = or_value (get s.findings k) []

note_finding-list :
    (row : Row) (s : Tallies) (t k : String) (l : List Row)
    → listed_as s k ≡ take 200 l
    → listed_as (note_finding row s t) k ≡ (if t == k then take 200 (l ++ row ∷ []) else take 200 l)
note_finding-list row s t k l h = elim (Bool-cases (t == k)) [
  | inl e ↦
      let same : t ≡ k = ground (arith, eq_iff t k) in
      let at : listed_as s t ≡ take 200 l = ap (listed_as s) same ∙ h in
      rw e (elim (Bool-cases (ltb (length (take 200 l)) 200)) [
        | inl f ↦
            rw (at, f, get-put s.findings t k (take 200 l ++ row ∷ []), e)
              (rw⁻¹ (take-append_one 200 l row) (rw f refl))
        | inr f ↦ rw (at, f, h) (rw⁻¹ (take-append_one 200 l row) (rw f refl))
      ])
  | inr e ↦ rw e (elim (Bool-cases (ltb (length (listed_as s t)) 200)) [
    | inl f ↦ rw (f, get-put s.findings t k (listed_as s t ++ row ∷ []), e) h
    | inr f ↦ rw f h
  ])
]

contains-none :
    (ts : List String) (k : String) → count_if (λ u. u == k) ts ≡ 0 → contains ts k ≡ false
contains-none [] k h = refl
contains-none (t ∷ ts) k h = ground (arith, contains-none ts k)

-- Where each tag of a row is another one.
note_tags-list :
    (row : Row) (s : Tallies) (ts : List String) (k : String) (l : List Row)
    → count_if (λ t. t == k) ts ≡ (if contains ts k then 1 else 0)
    → listed_as s k ≡ take 200 l
    → listed_as (note_tags row s ts) k
      ≡ (if contains ts k then take 200 (l ++ row ∷ []) else take 200 l)
unfolding note_tags
note_tags-list row s [] k l one h = h
note_tags-list row s (t ∷ ts) k l one h = elim (Bool-cases (t == k)) [
  | inl e ↦
      let none_left : count_if (λ u. u == k) ts ≡ 0 = ground (arith, one, e) in
      let gone : contains ts k ≡ false = contains-none ts k none_left in
      rw e (
        note_tags-list row (note_finding row s t) ts k (l ++ row ∷ []) (none_left ∙ rw gone refl)
          (note_finding-list row s t k l h ∙ rw e refl)
        ∙ rw gone refl)
  | inr e ↦ rw e (
      note_tags-list row (note_finding row s t) ts k l
        (sym (ap (λ b. if b then suc (count_if (λ u. u == k) ts) else count_if (λ u. u == k) ts) e)
          ∙ one
          ∙ rw e refl)
        (note_finding-list row s t k l h ∙ rw e refl))
]

note_rows-list :
    (s : Tallies) (rows : List Row) (k : String) (l : List Row)
    → All IsPlain rows
    → listed_as s k ≡ take 200 l
    → listed_as (note_rows s rows) k
      ≡ take 200 (l ++ select (λ (row : Row). contains row.findings k) rows)
unfolding note_rows
note_rows-list s [] k l h e = rw (append-nil l) e
note_rows-list s (row ∷ rows) k l h e =
    let next = note_tags-list row s row.findings k l (h.0 k) e in
    elim (Bool-cases (contains row.findings k)) [
      | inl f ↦ rw f (
          note_rows-list (note_tags row s row.findings) rows k (l ++ row ∷ []) h.1
            (next ∙ rw f refl)
          ∙ ap (take 200) (append_assoc l (row ∷ []) _))
      | inr f ↦ rw f (note_rows-list (note_tags row s row.findings) rows k l h.1 (next ∙ rw f refl))
    ]

module _ (parse_iso : String → Option ℕ) (now dormant_days : ℕ) where
  review-IsPlain :
      (users : Dict DirectoryEntry) (approvals : List AllowEntry) (host_key : String) (a : Account)
      → IsPlain (review parse_iso now dormant_days users approvals host_key a)
  unfolding review
  review-IsPlain users approvals host_key a k = tags-plain _ _ _ _ k

  map-IsPlain :
      (users : Dict DirectoryEntry) (approvals : List AllowEntry) (host_key : String)
      (accounts : List Account)
      → All IsPlain (map (review parse_iso now dormant_days users approvals host_key) accounts)
  map-IsPlain users approvals host_key [] = tt
  map-IsPlain users approvals host_key (a ∷ r) =
      (review-IsPlain users approvals host_key a, map-IsPlain users approvals host_key r)

  review_hosts-IsPlain :
      (users : Dict DirectoryEntry) (approvals : List AllowEntry) (hosts : Dict (List Account))
      → All IsPlain (review_hosts parse_iso now dormant_days users approvals hosts)
  unfolding review_hosts
  review_hosts-IsPlain users approvals [] = tt
  review_hosts-IsPlain users approvals ((k, accounts) ∷ r) =
      All-append IsPlain (map (review parse_iso now dormant_days users approvals k) accounts)
        (review_hosts parse_iso now dormant_days users approvals r)
        (map-IsPlain users approvals k accounts) (review_hosts-IsPlain users approvals r)

  no_tallies-count : (k : String) → count_of no_tallies.counts k ≡ 0
  unfolding get
  no_tallies-count k = ground arith

  no_tallies-list : (k : String) → listed_as no_tallies k ≡ []
  unfolding get
  no_tallies-list k = ground arith

  -- Whatever the accounts, the directory and the approvals: the count of each kind of finding is the
  -- number of rows that have it, and its list holds the first 200 of those rows, in their order.
  pub reconcile-tallies :
      (hosts : Dict (List Account)) (directory : List DirectoryEntry) (approvals : List AllowEntry)
      (k : String)
      → let r = reconcile parse_iso now dormant_days hosts directory approvals in
        (count_of r.tallies.counts k ≡ count_if (λ (row : Row). contains row.findings k) r.accounts)
        × (or_value (get r.tallies.findings k) []
            ≡ take 200 (select (λ (row : Row). contains row.findings k) r.accounts))
  unfolding reconcile
  reconcile-tallies hosts directory approvals k =
      let users = dir_by_user directory in
      let rows = review_hosts parse_iso now dormant_days users approvals (sort_hosts hosts) in
      let plain = review_hosts-IsPlain users approvals (sort_hosts hosts) in
      (
        omega (arith, note_rows-counts no_tallies rows k plain, no_tallies-count k),
        note_rows-list no_tallies rows k [] plain (no_tallies-list k),
      )
