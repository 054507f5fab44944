-- ===== src/Csv/Format.antt =====
-- What src/mori_soc/services/csv_export.py and src/mori_soc/services/csv_import.py use of the module
-- `csv`: the writer and the reader of the dialect "excel", with the reader's limit on the length of a
-- field.
use mori_soc.Prelude.{
  eqb, if◌then◌else◌, ℕ, zero, suc, String, ◌<>◌, ◌≡◌, refl, Bool, true, false, not, ◌&&◌, ◌||◌,
  Option, none, some, List, [], ◌∷◌, ◌++◌, ◌==◌,
}
use Prim.Native.Char.{Char, code}

abbrev pub is_comma : Char → Bool
is_comma c = eqb (code c) 44

abbrev pub is_quote : Char → Bool
is_quote c = eqb (code c) 34

abbrev pub is_newline : Char → Bool
is_newline c = eqb (code c) 10 || eqb (code c) 13

unfoldable pub needs_quotes : String → Bool
needs_quotes String.[] = false
needs_quotes (String.◌∷◌ c s) =
    let rest = needs_quotes s in is_comma c || is_quote c || is_newline c || rest

-- A quote in a quoted field is doubled.
unfoldable pub escape : String → String
escape String.[] = String.[]
escape (String.◌∷◌ c s) =
    let rest = escape s in
    if is_quote c then String.◌∷◌ "\"" (String.◌∷◌ c rest) else String.◌∷◌ c rest

-- `alone` says that the row has no other field: an empty one is quoted then.
unfoldable pub write_field : Bool → String → String
unfolding needs_quotes escape
write_field alone s =
    if needs_quotes s || (alone && s == "")
    then String.◌∷◌ "\"" (escape s <> String.◌∷◌ "\"" String.[])
    else s

abbrev pub end_of_row : String → String
end_of_row rest = String.◌∷◌ "\r" (String.◌∷◌ "\n" rest)

abbrev pub is_empty {ℓ} : {A : Type ℓ} → List A → Bool
is_empty [] = true
is_empty (_ ∷ _) = false

-- A row, and what is written after it.
unfoldable pub write_tail : List String → String → String
unfolding write_field
write_tail [] rest = end_of_row rest
write_tail (f ∷ r) rest = String.◌∷◌ "," (write_field false f <> write_tail r rest)

-- `writer.writerow`
unfoldable pub write_row : List String → String → String
unfolding write_tail
write_row [] rest = end_of_row rest
write_row (f ∷ r) rest = write_field (is_empty r) f <> write_tail r rest

unfoldable pub write_rows : List (List String) → String
unfolding write_row
write_rows [] = ""
write_rows (row ∷ rows) = write_row row (write_rows rows)

pub data Mode : Type 0 where
  start_record : Mode
  start_field : Mode
  in_field : Mode
  in_quoted : Mode
  quote_in_quoted : Mode
  eat_newline : Mode

-- `room` is how many characters the field may still take.
pub record Reader : Type 0 where
  pub mode : Mode
  pub field : String
  pub room : ℕ
  pub fields : List String
  pub rows : List (List String)

module _ (limit : ℕ) where
  abbrev pub start : Reader
  start = record { mode = start_record; field = ""; room = limit; fields = []; rows = [] }

  abbrev pub saved : Mode → Reader → Reader
  saved mode p = record p {
    mode = mode;
    field = "";
    room = limit;
    fields = p.fields ++ p.field ∷ [];
  }

  -- A field that is longer than the limit is an error.
  abbrev pub added : Mode → Reader → Char → Option Reader
  added mode p c = elim p.room [
    | zero ↦ none
    | suc n ↦ some (record p { mode = mode; field = p.field <> String.◌∷◌ c String.[]; room = n })
  ]

  abbrev pub at_field : Reader → Char → Option Reader
  at_field p c =
      if is_newline c
      then some (saved eat_newline p)
      else if is_quote c
      then some (record p { mode = in_quoted })
      else if is_comma c
      then some (saved start_field p)
      else added in_field p c

  abbrev pub parse_mode : Mode → Reader → Char → Option Reader
  parse_mode start_record p c =
      if is_newline c then some (record p { mode = eat_newline }) else at_field p c
  parse_mode start_field p c = at_field p c
  parse_mode in_field p c =
      if is_newline c
      then some (saved eat_newline p)
      else if is_comma c
      then some (saved start_field p)
      else added in_field p c
  parse_mode in_quoted p c =
      if is_quote c then some (record p { mode = quote_in_quoted }) else added in_quoted p c
  parse_mode quote_in_quoted p c =
      if is_quote c
      then added in_quoted p c
      else if is_comma c
      then some (saved start_field p)
      else if is_newline c
      then some (saved eat_newline p)
      else added in_field p c
  parse_mode eat_newline p c = if is_newline c then some p else none

  abbrev pub emitted : Reader → Reader
  emitted p = record p { mode = start_record; fields = []; rows = p.rows ++ p.fields ∷ [] }

  -- The end of a line.
  abbrev pub end_mode : Mode → Reader → Reader
  end_mode start_record p = emitted p
  end_mode in_quoted p = p
  end_mode eat_newline p = emitted p
  end_mode _ p = emitted (saved start_record p)

  -- The end of the text: an open quotation ends with it.
  abbrev pub finish : Mode → Reader → List (List String)
  finish in_quoted p = (emitted (saved start_record p)).rows
  finish _ p = p.rows

  -- `in_line` says that the line has begun.
  unfoldable pub feed : Reader → Bool → String → Option (List (List String))
  feed p in_line String.[] =
      let q = if in_line then end_mode p.mode p else p in some (finish q.mode q)
  feed p in_line (String.◌∷◌ c s) = elim (parse_mode p.mode p c) [
    | none ↦ none
    | some q ↦ feed (if eqb (code c) 10 then end_mode q.mode q else q) (not (eqb (code c) 10)) s
  ]

  -- `list(csv.reader(io.StringIO(text)))`, or `none` for a `csv.Error`
  unfoldable pub read_rows : String → Option (List (List String))
  unfolding feed
  read_rows text = feed start false text

read_rows_runs :
    (read_rows 9 "a,\"b \"\"c\"\"\"\r\n\n,x\"y"
      ≡ some (("a" ∷ "b \"c\"" ∷ []) ∷ [] ∷ ("" ∷ "x\"y" ∷ []) ∷ []))
    × (read_rows 9 "\"a\nb" ≡ some (("a\nb" ∷ []) ∷ []))
    × (read_rows 9 "a\rb" ≡ none)
    × (read_rows 3 "abcd" ≡ none)
    × (write_rows (("" ∷ []) ∷ [] ∷ ("a,b" ∷ "" ∷ []) ∷ []) ≡ "\"\"\r\n\r\n\"a,b\",\r\n")
unfolding read_rows write_rows
read_rows_runs = (refl, refl, refl, refl, refl)
