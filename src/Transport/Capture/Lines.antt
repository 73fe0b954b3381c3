-- ===== src/Transport/Capture/Lines.antt =====
-- A capture log as text: `to_text` and `from_text` of crates/xeedee/src/transport/capture.rs, and
-- the standard library's `lines`, `trim_end_matches` and `split_once`.
use xeedee.Base.{
  ℕ, ◌+◌, Bool, true, false, ◌&&◌, Option, none, some, List, [], ◌∷◌, ◌++◌, Bytes, codes, Result,
  ok, err, ◌==◌, if◌then◌else◌,
}
use xeedee.Transport.Capture.{
  CaptureLog, CaptureEntry, CaptureParseError, missing_tag, unknown_tag, bad_escape, Direction, tag,
  from_tag, merge, escape, unescape,
}

unfoldable pub strip_cr : Bytes → Bytes
strip_cr [] = []
strip_cr (b ∷ []) = if b == b'\r' then [] else b ∷ []
strip_cr (b ∷ c ∷ s) = b ∷ strip_cr (c ∷ s)

-- `str::lines`, the current line in front
unfoldable pub lines_from : Bytes → Bytes → List Bytes
unfolding strip_cr
lines_from [] [] = []
lines_from (b ∷ line) [] = (b ∷ line) ∷ []
lines_from line (c ∷ s) = elim (c == b'\n') [
  | true ↦ strip_cr line ∷ lines_from [] s
  | false ↦ lines_from (line ++ c ∷ []) s
]

abbrev is_nil : Bytes → Bool
is_nil [] = true
is_nil (_ ∷ _) = false

unfoldable pub trim_end_matches : ℕ → Bytes → Bytes
trim_end_matches b [] = []
trim_end_matches b (c ∷ s) =
    let t = trim_end_matches b s in if (c == b) && is_nil t then [] else c ∷ t

unfoldable pub split_once : ℕ → Bytes → Option (Bytes × Bytes)
split_once b [] = none
split_once b (c ∷ s) =
    let later = split_once b s in
    if c == b then some ([], s) else elim later [ none ↦ none | some (u, v) ↦ some (c ∷ u, v) ]

abbrev pub header : Bytes
header = codes "# xbdm capture v1\n"

unfoldable pub entry_line : CaptureEntry → Bytes
unfolding escape tag
entry_line e = tag e.direction ++ 32 ∷ escape e.data_bytes

unfoldable pub entries_text : List CaptureEntry → Bytes
unfolding entry_line
entries_text [] = []
entries_text (e ∷ entries) = entry_line e ++ b'\n' ∷ entries_text entries

unfoldable pub to_text : CaptureLog → Bytes
unfolding entries_text
to_text log = header ++ entries_text log.entries

abbrev pub is_skipped : Bytes → Bool
is_skipped [] = true
is_skipped (c ∷ _) = c == b'#'

-- What one line adds: nothing, or a direction and bytes.
unfoldable pub parse_line : ℕ → Bytes → Result CaptureParseError (Option (Direction × Bytes))
unfolding trim_end_matches split_once from_tag unescape
parse_line line_no raw_line =
    let line = trim_end_matches b'\r' (trim_end_matches b'\n' raw_line) in
    if is_skipped line then ok none else elim (split_once 32 line) [
      | none ↦ err (missing_tag line_no)
      | some (name, rest) ↦ elim (from_tag name) [
        | none ↦ err (unknown_tag line_no)
        | some direction ↦ elim (unescape rest) [
          | none ↦ err (bad_escape line_no)
          | some bytes ↦ ok (some (direction, bytes))
        ]
      ]
    ]

unfoldable pub from_lines : ℕ → List Bytes → List CaptureEntry → Result CaptureParseError CaptureLog
unfolding parse_line merge
from_lines idx [] entries = ok (record { entries = entries })
from_lines idx (raw_line ∷ more) entries = elim (parse_line (idx + 1) raw_line) [
  | err e ↦ err e
  | ok none ↦ from_lines (idx + 1) more entries
  | ok (some (direction, bytes)) ↦ from_lines (idx + 1) more (merge direction bytes entries)
]

unfoldable pub from_text : Bytes → Result CaptureParseError CaptureLog
unfolding from_lines lines_from
from_text input = from_lines 0 (lines_from [] input) []
