-- ===== src/Tests/Scans.antt =====
-- Two scans at concrete inputs.
use mori_soc.Prelude.{String, ◌≡◌, ◌+◌, length, refl, true, false, [], ◌∷◌, map}
use mori_soc.Prelude.Dict.{Dict, get, index_onto, index_by}
use mori_soc.ScanDiff.{Finding, finding_identity, attribute_change, summarize_diff}
use mori_soc.ScanDiff.Lines.{at_line, summarize_diff-at_line}

abbrev leak : Finding
leak =
    ("rule_id", "PII-1")
    ∷ ("file", "app/user.py")
    ∷ ("line", "12")
    ∷ ("message", "rrn logged at /var/log/a.log:12")
    ∷ ("severity", "high")
    ∷ []

abbrev weak_hash : Finding
weak_hash =
    ("ruleId", "CRYPTO-2") ∷ ("path", "app/auth.py") ∷ ("symbol", "md5") ∷ ("line", "40") ∷ []

abbrev inputs : Dict String
inputs = ("commit", "a1") ∷ ("ruleset", "r7") ∷ ("tool", "mori") ∷ []

abbrev line_40 : Finding → String
line_40 f = "40"

identities : finding_identity leak ≡ "app/user.py|PII-1|rrn logged at path:#"
unfolding finding_identity get
identities = refl

causes : attribute_change inputs (("commit", "b2") ∷ ("ruleset", "r7") ∷ []) ≡ "code" ∷ "ai" ∷ []
unfolding attribute_change
causes = refl

new_finding_is_flagged :
    (summarize_diff inputs inputs (leak ∷ []) (leak ∷ weak_hash ∷ [])).nondeterministic ≡ true
unfolding summarize_diff index_onto
new_finding_is_flagged = refl

moved_is_counted :
    (summarize_diff inputs inputs
      (leak ∷ weak_hash ∷ [])
      (map (at_line line_40) (leak ∷ weak_hash ∷ []))).diff.moved_count
    ≡ 1
unfolding summarize_diff index_onto
moved_is_counted = refl

summarize_diff-at_line_example :
    let r =
      summarize_diff inputs inputs
        (leak ∷ weak_hash ∷ [])
        (map (at_line line_40) (leak ∷ weak_hash ∷ [])) in
    (r.changed ≡ false)
    × (r.nondeterministic ≡ false)
    × (r.diff.moved_count + r.diff.unchanged_count
        ≡ length (index_by finding_identity (leak ∷ weak_hash ∷ [])))
summarize_diff-at_line_example =
    summarize_diff-at_line line_40 inputs inputs (leak ∷ weak_hash ∷ [])
