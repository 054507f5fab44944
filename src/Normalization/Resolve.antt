-- ===== src/Normalization/Resolve.antt =====
-- Which host an alias stands for, over a run of resolutions.
use mori_soc.Prelude.{
  if◌then◌else◌, Bool-cases, contains, starts_with, String, ◌<>◌, ◌≡◌, refl, sym, ap, ◌∙◌, ◌⊎◌, inl,
  inr, Bool, true, false, ◌&&◌, Option, none, some, List, [], ◌∷◌, arith, ◌==◌, eq_iff,
}
use mori_soc.Prelude.Dict.{Dict, get, put, get-put}
use mori_soc.Normalization.Hosts.{
  bridge, scoped, scoped_host_id, Mapper, bucket_map, find_host_id, put_all,
  register_bucket_aliases, choose_host_id, bucket_of, resolve_host_id,
}
use mathlib.Core.Path.{subst}
use Prim.Native.String.append
use text.Mathlib.TextLemmas.{append_assoc}

get-put_all :
    (d : Dict String) (aliases : List String) (h a : String)
    → get (put_all d aliases h) a ≡ (if contains aliases a then some h else get d a)
unfolding put_all
get-put_all d [] h a = refl
get-put_all d (b ∷ r) h a =
    ground (arith, get-put_all (put d b h) r h a, get-put d b a h, Bool-cases (contains r a))

bucket_map-register :
    (m : Mapper) (b c : String) (aliases : List String) (h : String)
    → bucket_map (register_bucket_aliases m b aliases h) c
      ≡ (if b == c then put_all (bucket_map m b) aliases h else bucket_map m c)
unfolding register_bucket_aliases
bucket_map-register m b c aliases h =
    ground (arith, get-put m.bucket_alias_map b c (put_all (bucket_map m b) aliases h))

-- The host under which a bucket knows an alias.
abbrev pub known : Mapper → String → String → Option String
known m bucket alias = get (bucket_map m bucket) alias

pub record Named : Type 0 where
  pub source : String
  pub aliases : List String
  pub fallback : String

abbrev pub is_first : String → List String → Bool
is_first a [] = false
is_first a (b ∷ bs) = b == a

-- Where a record of the bucket names the alias, it names it first, as its primary identity.
abbrev pub Leads : String → String → List Named → Type 0
Leads bucket a [] = Unit
Leads bucket a (n ∷ ns) =
    ((bucket_of n.source == bucket && contains n.aliases a) ≡ true → is_first a n.aliases ≡ true)
    × Leads bucket a ns

module _ (digest : String → String) where
  abbrev pub resolved : Mapper → String → List String → String → Mapper
  resolved m source aliases fallback = (resolve_host_id digest m source aliases fallback).0

  abbrev pub host_of : Mapper → String → List String → String → String
  host_of m source aliases fallback = (resolve_host_id digest m source aliases fallback).1

  known-resolved :
      (m : Mapper) (source : String) (aliases : List String) (fallback b a : String)
      → known (resolved m source aliases fallback) b a ≡ (
          if bucket_of source == b && contains aliases a
          then some (host_of m source aliases fallback)
          else known m b a)
  unfolding resolve_host_id
  known-resolved m source aliases fallback b a =
      let bucket = bucket_of source in
      let h = choose_host_id digest m bucket aliases fallback in
      ground (
        arith,
        bucket_map-register m bucket b aliases h,
        get-put_all (bucket_map m bucket) aliases h a,
        eq_iff bucket b,
      )

  known-host_of :
      (m : Mapper) (source : String) (a : String) (rest : List String) (fallback h : String)
      → known m (bucket_of source) a ≡ some h
      → host_of m source (a ∷ rest) fallback ≡ h
  unfolding resolve_host_id choose_host_id find_host_id
  known-host_of m source a rest fallback h e = rw (e) refl

  -- An alias that a record names stands for the host of that record from then on: whatever source of
  -- the same bucket names it first, with whatever other aliases, is about the same host.
  pub resolve_host_id_again :
      (m : Mapper) (source later : String) (aliases : List String) (fallback a : String)
      (rest : List String) (fallback' : String)
      → contains aliases a ≡ true
      → bucket_of later ≡ bucket_of source
      → host_of (resolved m source aliases fallback) later (a ∷ rest) fallback'
        ≡ host_of m source aliases fallback
  resolve_host_id_again m source later aliases fallback a rest fallback' listed same =
      known-host_of (resolved m source aliases fallback) later a rest fallback'
        (host_of m source aliases fallback)
        (ground (
          arith,
          known-resolved m source aliases fallback (bucket_of later) a,
          eq_iff (bucket_of source) (bucket_of later),
        ))

  unfoldable pub resolve_all : Mapper → List Named → Mapper
  resolve_all m [] = m
  resolve_all m (n ∷ ns) = resolve_all (resolved m n.source n.aliases n.fallback) ns

  first_is_known :
      (m : Mapper) (n : Named) (a h : String)
      → known m (bucket_of n.source) a ≡ some h
      → is_first a n.aliases ≡ true
      → host_of m n.source n.aliases n.fallback ≡ h
  first_is_known m n a h e f = lead n.aliases f
    where
      lead : (bs : List String) → is_first a bs ≡ true → host_of m n.source bs n.fallback ≡ h
      lead [] f = cc
      lead (b ∷ bs) f =
          let same : a ≡ b = ground (arith, eq_iff b a) in
          subst (λ x. host_of m n.source (x ∷ bs) n.fallback ≡ h) same
            (known-host_of m n.source a bs n.fallback h e)

  -- A primary identity never moves: a bucket that knows an alias under a host knows it under that host
  -- after any run of records, if those of the bucket that name the alias name it first.
  pub resolve_all-known :
      (ns : List Named) (m : Mapper) (bucket a h : String)
      → known m bucket a ≡ some h
      → Leads bucket a ns
      → known (resolve_all m ns) bucket a ≡ some h
  unfolding resolve_all
  resolve_all-known [] m bucket a h e leads = e
  resolve_all-known (n ∷ ns) m bucket a h e leads =
      resolve_all-known ns (resolved m n.source n.aliases n.fallback) bucket a h
        (known-resolved m n.source n.aliases n.fallback bucket a
          ∙ step (Bool-cases (bucket_of n.source == bucket && contains n.aliases a)))
        leads.1
    where
      step :
          ((bucket_of n.source == bucket && contains n.aliases a) ≡ true)
            ⊎ ((bucket_of n.source == bucket && contains n.aliases a) ≡ false)
          → (if bucket_of n.source == bucket && contains n.aliases a
              then some (host_of m n.source n.aliases n.fallback)
              else known m bucket a)
            ≡ some h
      step (inr no_change) = rw (no_change) e
      step (inl named) =
          let here : bucket_of n.source ≡ bucket =
            ground (arith, eq_iff (bucket_of n.source) bucket) in
          rw (named) (
            ap some (
              first_is_known m n a h (subst (λ b. known m b a ≡ some h) (sym here) e)
                (leads.0 named)))

starts_with-append : (p s : String) → starts_with (p <> s) p ≡ true
unfolding starts_with
starts_with-append String.[] s = refl
starts_with-append (String.◌∷◌ c p) s =
    rw (append.cons c p s) (ground (arith, starts_with-append p s))

module _ (digest : String → String) where
  scoped_prefix :
      (bucket identity : String)
      → starts_with (scoped digest bucket identity) (bucket <> "-") ≡ true
  scoped_prefix bucket identity = elim (Bool-cases (starts_with identity (bucket <> "-"))) [
    | inl h ↦ rw (h) h
    | inr h ↦
        rw (h)
          (rw (← append_assoc bucket "-" identity) (starts_with-append (bucket <> "-") identity))
  ]

  -- A host that no alias stands for yet is named after the bucket of its source, whatever its identity.
  pub new_host_prefix :
      (m : Mapper) (source : String) (aliases : List String) (fallback : String)
      → find_host_id (bucket_map m (bucket_of source)) aliases ≡ none
      → find_host_id m.alias_map aliases ≡ none
      → bridge digest m (bucket_of source) aliases ≡ none
      → starts_with (host_of digest m source aliases fallback) (bucket_of source <> "-") ≡ true
  unfolding resolve_host_id choose_host_id scoped_host_id
  new_host_prefix m source aliases fallback p q r =
      rw (p, q, r) (scoped_prefix (bucket_of source) _)
