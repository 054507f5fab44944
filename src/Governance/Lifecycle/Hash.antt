-- ===== src/Governance/Lifecycle/Hash.antt =====
-- The content hash of a framework version does not depend on its lifecycle.
use mori_soc.Prelude.{
  String, ◌≡◌, refl, ◌∙◌, true, [], ◌∷◌, some, contains, inl, inr, Bool-cases, ◌==◌, eq_iff,
}
use mori_soc.Prelude.Dict.{get, put, get-put}
use mori_soc.Governance.Lifecycle.{
  Field, str, Record, hash_volatile, content, content_hash, VersionArgs, build_framework_version,
  stamp_state, apply_version_lifecycle,
}

-- A write to a field that is no content leaves the content as it is.
content-put_volatile :
    (r : Record) (k : String) (v : Field)
    → contains hash_volatile k ≡ true
    → content (put r k v) ≡ content r
unfolding content put
content-put_volatile [] k v h = rw h
content-put_volatile ((j, w) ∷ r) k v h = elim (Bool-cases (j == k)) [
  | inl e ↦ rw e (rw ((eq_iff j k).0 e) (rw h))
  | inr e ↦ rw e (rw (content-put_volatile r k v h))
]

content-stamp_state :
    (r : Record) (target actor now : String) → content (stamp_state r target actor now) ≡ content r
unfolding stamp_state
content-stamp_state r target actor now = elim (Bool-cases (target == "active")) [
  | inl e ↦ rw e (simp (content-put_volatile))
  | inr e ↦ rw e (elim (Bool-cases (target == "retired")) [
    | inl f ↦ rw f (simp (content-put_volatile))
    | inr f ↦ rw f
  ])
]

content-apply_version_lifecycle :
    (r : Record) (target actor now : String)
    → content (apply_version_lifecycle r target actor now) ≡ content r
unfolding apply_version_lifecycle
content-apply_version_lifecycle r target actor now =
    content-put_volatile _ "lifecycle" _ refl
    ∙ content-stamp_state (put r "status" (str target)) target actor now
    ∙ content-put_volatile r "status" (str target) refl

module _ (digest : Record → String) where
  -- A transition to any state leaves the content hash as it was.
  pub content_hash-lifecycle :
      (r : Record) (target actor now : String)
      → content_hash digest (apply_version_lifecycle r target actor now) ≡ content_hash digest r
  unfolding content_hash
  content_hash-lifecycle r target actor now = rw content-apply_version_lifecycle

  -- The record carries the hash of its own content.
  abbrev pub IsStamped : Record → Type 0
  IsStamped r = get r "content_hash" ≡ some (str (content_hash digest r))

  get-stamp_state :
      (r : Record) (target actor now : String)
      → get (stamp_state r target actor now) "content_hash" ≡ get r "content_hash"
  unfolding stamp_state
  get-stamp_state r target actor now = elim (Bool-cases (target == "active")) [
    | inl e ↦ rw e (simp get-put)
    | inr e ↦
        rw e
          (elim (Bool-cases (target == "retired")) [ inl f ↦ rw f (simp get-put) | inr f ↦ rw f ])
  ]

  -- A record that carries the hash of its content still does after a transition to any state.
  pub lifecycle-IsStamped :
      (r : Record) (target actor now : String)
      → IsStamped r
      → IsStamped (apply_version_lifecycle r target actor now)
  unfolding apply_version_lifecycle
  lifecycle-IsStamped r target actor now h =
      let same = content_hash-lifecycle r target actor now in
      rw same (rw get-put (rw get-stamp_state (rw get-put h)))

  content_hash-put :
      (r : Record) (k : String) (v : Field)
      → contains hash_volatile k ≡ true
      → content_hash digest (put r k v) ≡ content_hash digest r
  unfolding content_hash
  content_hash-put r k v h = rw (content-put_volatile r k v h)

  -- So does every record that is built.
  pub build-IsStamped : (a : VersionArgs) → IsStamped (build_framework_version digest a)
  unfolding build_framework_version
  build-IsStamped a = rw get-put (
      rw
        (
          content_hash-put _ "lifecycle" _ refl,
          content_hash-put _ "hash_algorithm" _ refl,
          content_hash-put _ "canonicalization" _ refl,
          content_hash-put _ "content_hash" _ refl,
        )
        (simp get-put))
