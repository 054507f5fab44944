-- ===== src/Csv/RoundTrip.antt =====
-- What the writer has written, the reader reads back.
use mori_soc.Prelude.{
  size, eqb, if◌then◌else◌, Bool-cases, All, ℕ, zero, suc, ◌+◌, ◌-◌, ◌≤◌, String, ◌<>◌, ◌≡◌, refl,
  sym, ap, ◌∙◌, inl, inr, Bool, true, false, not, ◌&&◌, ◌||◌, some, List, [], ◌∷◌, ◌++◌, arith,
  ◌==◌,
}
use mori_soc.Csv.Format.{
  is_comma, is_quote, is_newline, needs_quotes, escape, write_field, end_of_row, is_empty,
  write_tail, write_row, write_rows, Mode, Reader, saved, parse_mode, end_mode, feed, read_rows,
  start_record, start_field, in_field, in_quoted, quote_in_quoted, eat_newline,
}
use Prim.Native.Char.{Char, code}
use Prim.Native.String.append
use mathlib.Core.Path.{subst}
use mathlib.Core.List
use text.Mathlib.TextLemmas.{append-nil, append_assoc}
use mori_soc.Csv.RoundTrip.Steps.{
  reading, closes_field, closes_row, opens, Plain, Plain-head, feed-step, feed-char, feed-in_field,
  feed-escape, feed-comma, feed-end_of_row, Plain-in_field,
}
use mori_soc.Csv.RoundTrip.Fields.{IsRead-field}
mod Steps
mod Fields

module _ (limit : ℕ) where
  -- No field is longer than the reader's limit.
  abbrev pub Fits : List String → Type 0
  Fits row = All (λ f. size f ≤ limit) row

  feed-write_tail :
      (r : List String) (m : Mode) (w : String) (n : ℕ) (fs : List String) (rs : List (List String))
      (b : Bool) (rest : String)
      → closes_field m ≡ true
      → (is_empty r ≡ true → closes_row m ≡ true)
      → Fits r
      → feed limit (reading m w n fs rs) b (write_tail r rest)
        ≡ feed limit (reading start_record "" limit [] (rs ++ (fs ++ w ∷ r) ∷ [])) false rest
  unfolding write_tail
  feed-write_tail [] m w n fs rs b rest c l h = feed-end_of_row limit m w n fs rs b rest (l refl)
  feed-write_tail (f ∷ r) m w n fs rs b rest c l h =
      let x =
        IsRead-field limit start_field false f (fs ++ w ∷ []) rs true (write_tail r rest) refl
          h.0 in
      feed-comma limit m w n fs rs b (write_field false f <> write_tail r rest) c
      ∙ x.read
      ∙ feed-write_tail r x.last_mode f x.room (fs ++ w ∷ []) rs x.in_line rest x.closes
          (λ _. x.closes_line refl) h.1
      ∙ ap (λ row. feed limit (reading start_record "" limit [] (rs ++ row ∷ [])) false rest)
          (List.append_assoc fs (w ∷ []) (f ∷ r))

  closes_alone : (r : List String) → is_empty r ≡ true → (not (is_empty r)) ≡ false
  closes_alone r h = rw (h) refl

  feed-write_row :
      (row : List String) (rs : List (List String)) (rest : String)
      → Fits row
      → feed limit (reading start_record "" limit [] rs) false (write_row row rest)
        ≡ feed limit (reading start_record "" limit [] (rs ++ row ∷ [])) false rest
  unfolding write_row
  feed-write_row [] rs rest h =
      feed-char limit _ (reading eat_newline "" limit [] rs) false "\r" _ refl refl
      ∙ feed-step limit _ (reading eat_newline "" limit [] rs) true "\n" rest refl
  feed-write_row (f ∷ r) rs rest h =
      let x =
        IsRead-field limit start_record (is_empty r) f [] rs false (write_tail r rest) refl h.0 in
      x.read
      ∙ feed-write_tail r x.last_mode f x.room [] rs x.in_line rest x.closes
          (λ e. x.closes_line (closes_alone r e)) h.1

  feed-write_rows :
      (rows rs : List (List String))
      → All Fits rows
      → feed limit (reading start_record "" limit [] rs) false (write_rows rows) ≡ some (rs ++ rows)
  unfolding write_rows feed
  feed-write_rows [] rs h = rw (List.append-nil rs) refl
  feed-write_rows (row ∷ rows) rs h =
      feed-write_row row rs (write_rows rows) h.0
      ∙ feed-write_rows rows (rs ++ row ∷ []) h.1
      ∙ ap some (List.append_assoc rs (row ∷ []) rows)

  -- The reader reads back every table that the writer writes, whatever texts its fields hold, rows of no
  -- field and rows of an empty field among them, if no field is longer than the reader's limit.
  pub read_rows-write_rows :
      (rows : List (List String)) → All Fits rows → read_rows limit (write_rows rows) ≡ some rows
  unfolding read_rows
  read_rows-write_rows rows h = feed-write_rows rows [] h
