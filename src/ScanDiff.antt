-- ===== src/ScanDiff.antt =====
-- The comparison of two scans: src/mori_soc/services/scan_diff.py. A finding and the inputs of a scan
-- are dicts of texts; a key whose value is `None` reads as one that is missing.
use mori_soc.Prelude.{
  ltb, leb, eqb, if◌then◌else◌, length, or_text, strip, first_chars, lower, ℕ, zero, suc, ◌+◌, ◌/◌,
  ◌<◌, String, ◌<>◌, ◌≡◌, refl, Bool, true, false, not, ◌&&◌, ◌||◌, Option, none, some, List, [],
  ◌∷◌, ◌++◌, map, ◌==◌,
}
use mori_soc.Prelude.Dict.{Dict, get, is_some, or_value, put, remove, index_by}
use Prim.Native.Char.{code}
pub mod Lines

abbrev pub Finding : Type 0
Finding = Dict String

-- `str(f.get(k1) or f.get(k2) or ... or "")`
unfoldable pub first_text : Finding → List String → String
first_text f [] = ""
first_text f (k ∷ ks) = or_text (or_value (get f k) "") (first_text f ks)

abbrev pub rule_keys : List String
rule_keys = "rule_id" ∷ "ruleId" ∷ "rule" ∷ "category" ∷ []

abbrev pub symbol_keys : List String
symbol_keys = "symbol" ∷ "sink" ∷ "function" ∷ "normalized" ∷ []

abbrev pub context_keys : List String
context_keys = "data_type" ∷ "table" ∷ "column" ∷ []

abbrev is_path_char : ℕ → Bool
is_path_char c =
    (leb 48 c && leb c 57)
    || (leb 65 c && leb c 90)
    || (leb 97 c && leb c 122)
    || leb 128 c
    || eqb c 95
    || eqb c 46
    || eqb c 47
    || eqb c 92
    || eqb c 45

starts_path : String → Bool
starts_path String.[] = false
starts_path (String.◌∷◌ c s) = is_path_char (code c)

-- `re.sub(r"[/\\][\w./\\-]+", "PATH", s)`; `inside` says that a path is being skipped.
hide_paths : Bool → String → String
unfolding starts_path
hide_paths inside String.[] = String.[]
hide_paths inside (String.◌∷◌ c s) = elim (inside && is_path_char (code c)) [
  | true ↦ hide_paths true s
  | false ↦ elim ((eqb (code c) 47 || eqb (code c) 92) && starts_path s) [
    | true ↦ "PATH" <> hide_paths true s
    | false ↦ String.◌∷◌ c (hide_paths false s)
  ]
]

-- `re.sub(r"\d+", "#", s)`; `inside` says that a number is being skipped.
hide_digits : Bool → String → String
hide_digits inside String.[] = String.[]
hide_digits inside (String.◌∷◌ c s) = elim (leb 48 (code c) && leb (code c) 57) [
  | true ↦ (if inside then "" else "#") <> hide_digits true s
  | false ↦ String.◌∷◌ c (hide_digits false s)
]

-- The part of the fingerprint that is made of the three texts it reads.
unfoldable pub fingerprint_of : String → String → String → String
unfolding hide_paths hide_digits first_chars strip lower
fingerprint_of symbol message context =
    if not (symbol == "")
    then first_chars 120 (lower (strip symbol))
    else strip (
        first_chars 120 (lower (strip (hide_digits false (hide_paths false message))))
        <> (if context == "" then "" else "|" <> context))

unfoldable pub semantic_fingerprint : Finding → String
unfolding first_text fingerprint_of
semantic_fingerprint f =
    fingerprint_of (first_text f symbol_keys) (first_text f ("message" ∷ "msg" ∷ []))
      (first_text f context_keys)

unfoldable pub finding_key : Finding → String
unfolding first_text get
finding_key f =
    first_text f ("file" ∷ "path" ∷ [])
    <> "|"
    <> or_value (get f "line") ""
    <> "|"
    <> first_text f rule_keys

unfoldable pub finding_identity : Finding → String
unfolding first_text semantic_fingerprint
finding_identity f =
    first_text f ("file" ∷ "path" ∷ [])
    <> "|"
    <> first_text f rule_keys
    <> "|"
    <> semantic_fingerprint f

fingerprints :
    (fingerprint_of "" "Key at /etc/app.conf line 12:40" "" ≡ "key at path line #:#")
    × (fingerprint_of "" "a / b" "rrn" ≡ "a / b|rrn")
    × (fingerprint_of " Exec() " "x" "rrn" ≡ "exec()")
unfolding fingerprint_of
fingerprints = (refl, refl, refl)

-- `[d[k] for k in d if k not in other]`
unfoldable pub missing_from : Dict Finding → Dict Finding → List Finding
unfolding get
missing_from other [] = []
missing_from other ((k, f) ∷ d) =
    let rest = missing_from other d in if is_some (get other k) then rest else f ∷ rest

pub record Matched : Type 0 where
  pub moved : List Finding
  pub modified : List Finding
  pub unchanged : ℕ

-- `{**f, k: v}`
abbrev pub with_value : Finding → String → Option String → Finding
with_value f k none = remove f k
with_value f k (some v) = put f k v

abbrev pub line_changed : Finding → Finding → Bool
line_changed a b = not (or_value (get a "line") "None" == or_value (get b "line") "None")

abbrev pub severity_changed : Finding → Finding → Bool
severity_changed a b = not (or_value (get a "severity") "" == or_value (get b "severity") "")

abbrev pub match_pair : Finding → Finding → Matched → Matched
match_pair a b m =
    if severity_changed a b
    then record m {
      modified =
          put (with_value b "prev_severity" (get a "severity")) "change" "severity_changed"
          ∷ m.modified;
    }
    else if line_changed a b
    then record m { moved = with_value b "prev_line" (get a "line") ∷ m.moved }
    else record m { unchanged = suc m.unchanged }

-- The loop over the present findings whose identity the earlier scan has.
unfoldable pub match_loop : Dict Finding → Dict Finding → Matched
unfolding get put remove
match_loop earlier [] = record { moved = []; modified = []; unchanged = 0 }
match_loop earlier ((k, b) ∷ d) =
    let rest = match_loop earlier d in
    elim (get earlier k) [ none ↦ rest | some a ↦ match_pair a b rest ]

pub record FindingsDiff : Type 0 where
  pub new : List Finding
  pub removed : List Finding
  pub moved : List Finding
  pub modified : List Finding
  pub new_count : ℕ
  pub removed_count : ℕ
  pub moved_count : ℕ
  pub modified_count : ℕ
  pub unchanged_count : ℕ

unfoldable pub diff_findings : List Finding → List Finding → FindingsDiff
unfolding index_by finding_identity missing_from match_loop
diff_findings prev cur =
    let pk = index_by finding_identity prev in
    let ck = index_by finding_identity cur in
    let new = missing_from pk ck in
    let removed = missing_from ck pk in
    let matched = match_loop pk ck in
    record {
      new = new;
      removed = removed;
      moved = matched.moved;
      modified = matched.modified;
      new_count = length new;
      removed_count = length removed;
      moved_count = length matched.moved;
      modified_count = length matched.modified;
      unchanged_count = matched.unchanged;
    }

abbrev pub env_differs : Dict String → Dict String → String → Bool
env_differs prev cur k = not (or_value (get prev k) "" == or_value (get cur k) "")

unfoldable pub attribute_change : Dict String → Dict String → List String
unfolding get
attribute_change prev cur =
    (if env_differs prev cur "commit" then "code" ∷ [] else [])
    ++ (if env_differs prev cur "ruleset" then "ruleset" ∷ [] else [])
    ++ (if env_differs prev cur "model" || env_differs prev cur "tool" then "ai" ∷ [] else [])

abbrev pub env_keys : List String
env_keys = "commit" ∷ "scanner" ∷ "ruleset" ∷ "model" ∷ "tool" ∷ "input_signature" ∷ []

pub record DiffSummary : Type 0 where
  pub prev : List (String × Option String)
  pub cur : List (String × Option String)
  pub diff : FindingsDiff
  pub causes : List String
  pub changed : Bool
  pub same_input : Bool
  pub nondeterministic : Bool

abbrev pub is_changed : FindingsDiff → Bool
is_changed d = ltb 0 d.new_count || ltb 0 d.removed_count || ltb 0 d.modified_count

abbrev pub has_none : List String → Bool
has_none [] = true
has_none (_ ∷ _) = false

unfoldable pub summarize_diff :
    Dict String → Dict String → List Finding → List Finding → DiffSummary
unfolding diff_findings attribute_change get
summarize_diff prev_env cur_env prev_findings cur_findings =
    let d = diff_findings prev_findings cur_findings in
    let causes = attribute_change prev_env cur_env in
    record {
      prev = map (λ k. (k, get prev_env k)) env_keys;
      cur = map (λ k. (k, get cur_env k)) env_keys;
      diff = d;
      causes = causes;
      changed = is_changed d;
      same_input = has_none causes;
      nondeterministic = has_none causes && is_changed d;
    }
