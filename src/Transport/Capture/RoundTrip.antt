-- ===== src/Transport/Capture/RoundTrip.antt =====
-- A capture log written as text is read back (crates/xeedee/src/transport/capture.rs).
use xeedee.Base.{
  ℕ, ◌+◌, ◌/◌, ◌%◌, ◌≤◌, ◌<◌, ◌≡◌, refl, sym, ap, ◌∙◌, subst, false, some, List, [], ◌∷◌, ◌++◌,
  append-nil, append_assoc, arith, Bytes, ok, ◌==◌, All, All-append,
}
use xeedee.Text.Number.{digit_char, print_hex}
use xeedee.Transport.Capture.{
  CaptureLog, CaptureEntry, Direction, direction_eq, tag, from_tag, merge, escape_byte, escape,
  server_to_client, client_to_server,
}
use xeedee.Transport.Capture.Escapes.{IsBytes, unescape-escape}
use xeedee.Transport.Capture.Lines.{
  strip_cr, lines_from, trim_end_matches, split_once, header, entry_line, entries_text, to_text,
  parse_line, from_lines, from_text, is_skipped,
}

-- A line without control characters.
abbrev IsClean : Bytes → Type 0
IsClean = All (λ c. 32 ≤ c)

digit_clean : (d : ℕ) → d < 16 → 32 ≤ digit_char d
unfolding digit_char
digit_clean d h = ground arith

byte-IsClean : (b : ℕ) → IsClean (escape_byte b)
unfolding escape_byte print_hex
byte-IsClean b = ground (arith, digit_clean (b / 16 % 16), digit_clean (b % 16))

escape-IsClean : (s : Bytes) → IsClean (escape s)
unfolding escape
escape-IsClean [] = tt
escape-IsClean (b ∷ s) =
    All-append (λ c. 32 ≤ c) (escape_byte b) (escape s) (byte-IsClean b) (escape-IsClean s)

line-IsClean : (e : CaptureEntry) → IsClean (entry_line e)
unfolding entry_line tag
line-IsClean e =
    All-append (λ c. 32 ≤ c) (tag e.direction) (32 ∷ escape e.data_bytes) (tag_clean e.direction)
      (omega arith, escape-IsClean e.data_bytes)
  where
    tag_clean : (d : Direction) → IsClean (tag d)
    tag_clean server_to_client = (omega arith, (omega arith, tt))
    tag_clean client_to_server = (omega arith, (omega arith, tt))

clean_stripped : (s : Bytes) → IsClean s → strip_cr s ≡ s
unfolding strip_cr
clean_stripped [] h = refl
clean_stripped (b ∷ []) (h, _) = ground arith
clean_stripped (b ∷ c ∷ s) (_, h) = ap (λ t. b ∷ t) (clean_stripped (c ∷ s) h)

clean_trimmed : (b : ℕ) (s : Bytes) → b < 32 → IsClean s → trim_end_matches b s ≡ s
unfolding trim_end_matches
clean_trimmed b [] k h = refl
clean_trimmed b (c ∷ s) k (h, hs) = ground (arith, clean_trimmed b s k hs)

clean_line :
    (line s rest : Bytes)
    → IsClean s
    → lines_from line (s ++ b'\n' ∷ rest) ≡ strip_cr (line ++ s) ∷ lines_from [] rest
unfolding lines_from
clean_line line [] rest h = ap (λ l. strip_cr l ∷ lines_from [] rest) (sym (append-nil line))
clean_line line (c ∷ s) rest (h, hs) =
    let other : (c == b'\n') ≡ false = ground arith in
    rw (other, lines_from)
      (clean_line (line ++ c ∷ []) s rest hs
        ∙ ap (λ l. strip_cr l ∷ lines_from [] rest) (append_assoc line (c ∷ []) s))

module _ (e : CaptureEntry) where
  kept : is_skipped (entry_line e) ≡ false
  unfolding entry_line tag
  kept = at e.direction
    where
      at : (d : Direction) → is_skipped (tag d ++ 32 ∷ escape e.data_bytes) ≡ false
      at server_to_client = refl
      at client_to_server = refl

  split : split_once 32 (entry_line e) ≡ some (tag e.direction, escape e.data_bytes)
  unfolding entry_line tag split_once
  split = at e.direction
    where
      at :
          (d : Direction)
          → split_once 32 (tag d ++ 32 ∷ escape e.data_bytes) ≡ some (tag d, escape e.data_bytes)
      at server_to_client = refl
      at client_to_server = refl

from_tag-tag : (d : Direction) → from_tag (tag d) ≡ some d
unfolding from_tag tag
from_tag-tag server_to_client = refl
from_tag-tag client_to_server = refl

entry_parsed :
    (line_no : ℕ) (e : CaptureEntry)
    → IsBytes e.data_bytes
    → parse_line line_no (entry_line e) ≡ ok (some (e.direction, e.data_bytes))
unfolding parse_line
entry_parsed line_no e h =
    rw
      (
        clean_trimmed b'\n' (entry_line e) (omega arith) (line-IsClean e),
        clean_trimmed b'\r' (entry_line e) (omega arith) (line-IsClean e),
      )
      (rw (kept e)
        (rw (split e) (rw (from_tag-tag e.direction) (rw (unescape-escape e.data_bytes h) refl))))

-- No two neighbours go the same way.
unfoldable pub IsAlternating : List CaptureEntry → Type 0
IsAlternating [] = Unit
IsAlternating (e ∷ []) = Unit
IsAlternating (e ∷ f ∷ entries) =
    (direction_eq e.direction f.direction ≡ false) × IsAlternating (f ∷ entries)

merge_last :
    (before : List CaptureEntry) (e : CaptureEntry) (entries : List CaptureEntry)
    → IsAlternating (before ++ e ∷ entries)
    → merge e.direction e.data_bytes before ≡ before ++ e ∷ []
unfolding merge IsAlternating
merge_last [] e entries h = refl
merge_last (d ∷ []) e entries (h, _) = rw (h, merge) refl
merge_last (d ∷ f ∷ before) e entries (_, h) = ap (λ l. d ∷ l) (merge_last (f ∷ before) e entries h)

abbrev pub HasBytes : CaptureEntry → Type 0
HasBytes e = IsBytes e.data_bytes

entries_read :
    (idx : ℕ) (entries before : List CaptureEntry)
    → All HasBytes entries
    → IsAlternating (before ++ entries)
    → from_lines idx (lines_from [] (entries_text entries)) before
      ≡ ok (record { entries = before ++ entries })
unfolding from_lines lines_from entries_text
entries_read idx [] before _ _ = ap (λ l. ok (record { entries = l })) (sym (append-nil before))
entries_read idx (e ∷ entries) before (hb, hs) h =
    let first : lines_from [] (entry_line e ++ b'\n' ∷ entries_text entries)
        ≡ entry_line e ∷ lines_from [] (entries_text entries) =
      clean_line [] (entry_line e) (entries_text entries) (line-IsClean e)
      ∙ ap (λ l. l ∷ lines_from [] (entries_text entries))
          (clean_stripped (entry_line e) (line-IsClean e)) in
    let same : before ++ e ∷ entries ≡ (before ++ e ∷ []) ++ entries =
      sym (append_assoc before (e ∷ []) entries) in
    ap (λ l. from_lines idx l before) first
    ∙ rw (entry_parsed (idx + 1) e hb, from_lines)
        (rw (merge_last before e entries h)
          (entries_read (idx + 1) entries (before ++ e ∷ []) hs (subst IsAlternating same h)))
    ∙ ap (λ l. ok (record { entries = l })) (sym same)

header_skipped : (s : Bytes) → from_text (header ++ s) ≡ from_lines 1 (lines_from [] s) []
unfolding from_text lines_from strip_cr from_lines parse_line trim_end_matches
header_skipped s = refl

pub from_text-to_text :
    (log : CaptureLog)
    → All HasBytes log.entries
    → IsAlternating log.entries
    → from_text (to_text log) ≡ ok log
unfolding to_text
from_text-to_text log h k =
    header_skipped (entries_text log.entries) ∙ entries_read 1 log.entries [] h k
