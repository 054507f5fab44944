-- ===== src/Tests/Tables.antt =====
-- Exported and imported tables at concrete inputs.
use mori_soc.Prelude.{All, show_nat, String, ◌≡◌, refl, true, some, List, [], ◌∷◌, map, arith}
use mori_soc.Prelude.Dict.{Dict, get, values}
use mori_soc.Csv.Format.{read_rows}
use mori_soc.Csv.Export.{Cell, defuse, row_fields, render_csv, csv_streaming_response, text}
use mori_soc.Csv.Import.{max_import_rows, join_with, parse_csv}
use mori_soc.Csv.Cells.{IsInert, render_csv_lem}
use mori_soc.Csv.Required.{Sound, parse_csv-Sound}

abbrev header_map : Dict String
header_map = ("host", "Host") ∷ ("owner", "Owner") ∷ []

abbrev rows : List (Dict Cell)
rows =
    (("host", text "=cmd|'/c calc'!A0") ∷ ("owner", text "Kim, \"ops\"") ∷ [])
    ∷ (("host", text "-12.5") ∷ ("note", text "x") ∷ [])
    ∷ []

exported :
    render_csv rows header_map
    ≡ "Host,Owner\r\n'=cmd|'/c calc'!A0,\"Kim, \"\"ops\"\"\"\r\n-12.5,\r\n"
unfolding render_csv
exported = refl

cut_off : (csv_streaming_response (("MORI_MAX_EXPORT_ROWS", "1") ∷ []) rows header_map).1 ≡ true
unfolding csv_streaming_response
cut_off = refl

render_csv_lem_example :
    (read_rows 131072 (render_csv rows header_map)
      ≡ some (values header_map ∷ map (row_fields header_map) rows))
    × All (All IsInert) (map (row_fields header_map) rows)
unfolding defuse get
render_csv_lem_example =
    render_csv_lem 131072 rows header_map (omega arith)
      ((refl, (refl, tt)), ((refl, (refl, tt)), tt))

abbrev aliases : Dict (List String)
aliases = ("hostname", "host" ∷ "자산" ∷ []) ∷ ("owner", "담당자" ∷ []) ∷ []

abbrev upload : String
upload = "Host,Owner,extra\r\nweb,Kim,1\r\n , \r\n,Lee,2\r\ndb,Park\r\n"

imported :
    (parse_csv 131072 "" [] upload aliases ("hostname" ∷ [])).rows
    ≡ (("hostname", "web") ∷ ("owner", "Kim") ∷ [])
      ∷ (("hostname", "db") ∷ ("owner", "Park") ∷ [])
      ∷ []
unfolding parse_csv
imported = refl

refusals :
    ((parse_csv 9 "" [] " \n" aliases []).errors ≡ "빈 CSV 입니다." ∷ [])
    × ((parse_csv 131072 "" [] upload aliases ("hostname" ∷ [])).errors
        ≡ "4행: 필수값 누락(hostname) — 건너뜀." ∷ [])
unfolding parse_csv show_nat join_with
refusals = (refl, refl)

parse_csv-Sound_example :
    Sound
      (max_import_rows [])
      ("hostname" ∷ [])
      (parse_csv 131072 "" [] upload aliases ("hostname" ∷ []))
parse_csv-Sound_example = parse_csv-Sound 131072 "" [] upload aliases ("hostname" ∷ [])
