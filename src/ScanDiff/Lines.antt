-- ===== src/ScanDiff/Lines.antt =====
-- A scan in which findings have only changed their lines.
use mori_soc.Prelude.{
  Bool-cases, length, All, ℕ, suc, ◌+◌, String, ◌≡◌, refl, sym, ap, ◌∙◌, inl, inr, false, none,
  some, List, [], ◌∷◌, map, arith, ◌==◌, eq_iff, eq_refl,
}
use mori_soc.Prelude.Dict.{
  Dict, get, is_some, or_value, put, get-put, index_onto, index_by, NodupKeys, index_onto-NodupKeys,
}
use mathlib.Core.Path.{subst}
use mori_soc.ScanDiff.{
  Finding, first_text, rule_keys, symbol_keys, context_keys, semantic_fingerprint, finding_identity,
  missing_from, Matched, line_changed, severity_changed, match_pair, match_loop, diff_findings,
  summarize_diff,
}

-- The finding at another line.
abbrev pub at_line : (Finding → String) → Finding → Finding
at_line line f = put f "line" (line f)

module _ (line : Finding → String) where
  get-at_line :
      (f : Finding) (k : String) → ("line" == k) ≡ false → get (at_line line f) k ≡ get f k
  get-at_line f k h = rw (get-put f "line" k (line f), h) refl

  first_text-at_line :
      (f : Finding) (ks : List String)
      → All (λ k. ("line" == k) ≡ false) ks
      → first_text (at_line line f) ks ≡ first_text f ks
  unfolding first_text
  first_text-at_line f [] h = refl
  first_text-at_line f (k ∷ ks) h = rw (get-at_line f k h.0, first_text-at_line f ks h.1) refl

  semantic_fingerprint-at_line :
      (f : Finding) → semantic_fingerprint (at_line line f) ≡ semantic_fingerprint f
  unfolding semantic_fingerprint
  semantic_fingerprint-at_line f =
      rw
        (
          first_text-at_line f symbol_keys (refl, (refl, (refl, (refl, tt)))),
          first_text-at_line f ("message" ∷ "msg" ∷ []) (refl, (refl, tt)),
          first_text-at_line f context_keys (refl, (refl, (refl, tt))),
        )
        refl

  identity-at_line : (f : Finding) → finding_identity (at_line line f) ≡ finding_identity f
  unfolding finding_identity
  identity-at_line f =
      rw
        (
          first_text-at_line f ("file" ∷ "path" ∷ []) (refl, (refl, tt)),
          first_text-at_line f rule_keys (refl, (refl, (refl, (refl, tt)))),
          semantic_fingerprint-at_line f,
        )
        refl

  all_at_line : Dict Finding → Dict Finding
  all_at_line [] = []
  all_at_line ((k, f) ∷ d) = (k, at_line line f) ∷ all_at_line d

  put-all_at_line :
      (d : Dict Finding) (k : String) (f : Finding)
      → put (all_at_line d) k (at_line line f) ≡ all_at_line (put d k f)
  unfolding put all_at_line
  put-all_at_line [] k f = refl
  put-all_at_line ((j, g) ∷ d) k f = elim (Bool-cases (j == k)) [
    | inl e ↦ rw (e) refl
    | inr e ↦ rw (e, put-all_at_line d k f) refl
  ]

  index-all_at_line :
      (d : Dict Finding) (fs : List Finding)
      → index_onto finding_identity (all_at_line d) (map (at_line line) fs)
        ≡ all_at_line (index_onto finding_identity d fs)
  unfolding index_onto
  index-all_at_line d [] = refl
  index-all_at_line d (f ∷ fs) =
      ap
        (λ k.
          index_onto finding_identity (put (all_at_line d) k (at_line line f))
            (map (at_line line) fs))
        (identity-at_line f)
      ∙ ap (λ e. index_onto finding_identity e (map (at_line line) fs))
          (put-all_at_line d (finding_identity f) f)
      ∙ index-all_at_line (put d (finding_identity f) f) fs

  get-all_at_line :
      (d : Dict Finding) (k : String) → is_some (get (all_at_line d) k) ≡ is_some (get d k)
  unfolding get all_at_line
  get-all_at_line [] k = refl
  get-all_at_line ((j, g) ∷ d) k = ground (arith, get-all_at_line d k)

  -- Each entry of the second dict is in the first.
  Agrees : Dict Finding → Dict Finding → Type 0
  Agrees e [] = Unit
  Agrees e ((k, f) ∷ d) = (get e k ≡ some f) × Agrees e d

  Agrees-cons :
      (e d : Dict Finding) (j : String) (g : Finding)
      → get d j ≡ none
      → Agrees e d
      → Agrees ((j, g) ∷ e) d
  unfolding Agrees get
  Agrees-cons e [] j g n h = tt
  Agrees-cons e ((k, f) ∷ d) j g n h =
      ground (arith, Agrees-cons e d j g, h.0, h.1, eq_iff j k, eq_iff k j)

  Agrees-self : (d : Dict Finding) → NodupKeys d → Agrees d d
  unfolding Agrees get
  Agrees-self [] h = tt
  Agrees-self ((k, f) ∷ d) h = (rw (eq_refl k) refl, Agrees-cons d d k f h.0 (Agrees-self d h.1))

  new-all_at_line : (e d : Dict Finding) → Agrees e d → missing_from e (all_at_line d) ≡ []
  unfolding missing_from all_at_line Agrees
  new-all_at_line e [] h = refl
  new-all_at_line e ((k, f) ∷ d) h = rw (h.0, new-all_at_line e d h.1) refl

  removed-all_at_line : (e d : Dict Finding) → Agrees e d → missing_from (all_at_line e) d ≡ []
  unfolding missing_from Agrees
  removed-all_at_line e [] h = refl
  removed-all_at_line e ((k, f) ∷ d) h =
      rw (get-all_at_line e k, h.0, removed-all_at_line e d h.1) refl

  severity-at_line : (f : Finding) → severity_changed f (at_line line f) ≡ false
  severity-at_line f =
      rw (get-at_line f "severity" refl, eq_refl (or_value (get f "severity") "")) refl

  match_loop-found :
      (e d : Dict Finding) (k : String) (a b : Finding)
      → get e k ≡ some a
      → match_loop e ((k, b) ∷ d) ≡ match_pair a b (match_loop e d)
  unfolding match_loop
  match_loop-found e d k a b h =
      ap (λ o. elim o [ none ↦ match_loop e d | some x ↦ match_pair x b (match_loop e d) ]) h

  Matches : Matched → ℕ → Type 0
  Matches m n = (m.modified ≡ []) × (length m.moved + m.unchanged ≡ n)

  match_pair-at_line :
      (f : Finding) (m : Matched) (n : ℕ)
      → Matches m n
      → Matches (match_pair f (at_line line f) m) (suc n)
  unfolding Matches
  match_pair-at_line f m n h =
      rw (severity-at_line f) (elim (Bool-cases (line_changed f (at_line line f))) [
        | inl c ↦ rw (c) (h.0, omega (arith, h.1))
        | inr c ↦ rw (c) (h.0, omega (arith, h.1))
      ])

  match-all_at_line :
      (e d : Dict Finding) → Agrees e d → Matches (match_loop e (all_at_line d)) (length d)
  unfolding all_at_line Agrees Matches match_loop
  match-all_at_line e [] h = (refl, refl)
  match-all_at_line e ((k, f) ∷ d) h =
      subst (λ m. Matches m (suc (length d)))
        (sym (match_loop-found e (all_at_line d) k f (at_line line f) h.0))
        (match_pair-at_line f (match_loop e (all_at_line d)) (length d) (match-all_at_line e d h.1))

  -- What a comparison shows where nothing but lines has changed.
  Quiet : Dict Finding → Dict Finding → Type 0
  Quiet pk ck =
      (missing_from pk ck ≡ []) × (missing_from ck pk ≡ []) × Matches (match_loop pk ck) (length pk)

  index-Quiet :
      (fs : List Finding)
      → Quiet (index_by finding_identity fs) (index_by finding_identity (map (at_line line) fs))
  unfolding Quiet all_at_line
  index-Quiet fs =
      let d = index_by finding_identity fs in
      let same = Agrees-self d (index_onto-NodupKeys finding_identity [] fs tt) in
      subst (Quiet d) (sym (index-all_at_line [] fs))
        ((new-all_at_line d d same, removed-all_at_line d d same, match-all_at_line d d same))

  -- The comparison of a scan with one whose findings differ from its own in their lines at most shows
  -- no change, so it never calls the scanner nondeterministic, whatever the inputs of the two scans;
  -- every finding, by its identity, is counted as moved or as unchanged.
  pub summarize_diff-at_line :
      (prev_env cur_env : Dict String) (fs : List Finding)
      → ((summarize_diff prev_env cur_env fs (map (at_line line) fs)).changed ≡ false)
        × ((summarize_diff prev_env cur_env fs (map (at_line line) fs)).nondeterministic ≡ false)
        × ((summarize_diff prev_env cur_env fs (map (at_line line) fs)).diff.moved_count
              + (summarize_diff prev_env cur_env fs (map (at_line line) fs)).diff.unchanged_count
            ≡ length (index_by finding_identity fs))
  unfolding summarize_diff diff_findings Quiet Matches
  summarize_diff-at_line prev_env cur_env fs =
      let (new, removed, (modified, counted)) = index-Quiet fs in
      rw (new, removed, modified) (refl, (ground arith), counted)
