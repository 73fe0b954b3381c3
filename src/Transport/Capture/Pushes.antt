-- ===== src/Transport/Capture/Pushes.antt =====
-- What a recording pushes onto a capture log (crates/xeedee/src/transport/capture.rs).
use xeedee.Base.{
  ◌<◌, ◌≡◌, refl, sym, ap, ◌∙◌, subst, inl, inr, true, false, List, [], ◌∷◌, ◌++◌, append-nil,
  append_assoc, Bytes, ok, if◌then◌else◌, Bool-cases, All, All-append,
}
use xeedee.Transport.Capture.{
  CaptureLog, CaptureEntry, Direction, server_to_client, client_to_server, direction_eq, merge,
  push, empty_log,
}
use xeedee.Transport.Capture.Escapes.{IsBytes}
use xeedee.Transport.Capture.Lines.{to_text, from_text}
use xeedee.Transport.Capture.RoundTrip.{IsAlternating, HasBytes, from_text-to_text}

-- The pushes of a recording, one after the other.
unfoldable pub push_all : List (Direction × Bytes) → CaptureLog → CaptureLog
unfolding push
push_all [] log = log
push_all ((direction, bytes) ∷ pushes) log = push_all pushes (push direction bytes log)

-- What a push adds to the bytes of a direction.
abbrev pub pushed_one : Direction → Direction → Bytes → Bytes
pushed_one w d b = if direction_eq d w then b else []

unfoldable pub pushed : Direction → List (Direction × Bytes) → Bytes
pushed w [] = []
pushed w ((d, b) ∷ pushes) = pushed_one w d b ++ pushed w pushes

-- What a log has for one direction.
unfoldable pub one_way : Direction → List CaptureEntry → Bytes
one_way w [] = []
one_way w (e ∷ entries) = pushed_one w e.direction e.data_bytes ++ one_way w entries

merge_head :
    (d : Direction) (b : Bytes) (e : CaptureEntry) (entries : List CaptureEntry)
    → (f : CaptureEntry) × (rest : List CaptureEntry) × (merge d b (e ∷ entries) ≡ f ∷ rest)
      × (f.direction ≡ e.direction)
unfolding merge
merge_head d b e [] = elim (Bool-cases (direction_eq e.direction d)) [
  | inl same ↦ rw (same, merge) (record e { data_bytes = e.data_bytes ++ b }, [], refl, refl)
  | inr other ↦ rw (other, merge) (e, record { direction = d; data_bytes = b } ∷ [], refl, refl)
]
merge_head d b e (f ∷ entries) = (e, merge d b (f ∷ entries), refl, refl)

cons-IsAlternating :
    (e : CaptureEntry) (l : List CaptureEntry) (f : CaptureEntry) (rest : List CaptureEntry)
    (d : Direction)
    → l ≡ f ∷ rest
    → f.direction ≡ d
    → direction_eq e.direction d ≡ false
    → IsAlternating l
    → IsAlternating (e ∷ l)
unfolding IsAlternating
cons-IsAlternating e l f rest d whole same other h =
    let h' : IsAlternating (f ∷ rest) = subst IsAlternating whole h in
    subst (λ m. IsAlternating (e ∷ m)) (sym whole) (ap (direction_eq e.direction) same ∙ other, h')

merge-IsAlternating :
    (d : Direction) (b : Bytes) (entries : List CaptureEntry)
    → IsAlternating entries
    → IsAlternating (merge d b entries)
unfolding merge IsAlternating
merge-IsAlternating d b [] h = tt
merge-IsAlternating d b (e ∷ []) h = elim (Bool-cases (direction_eq e.direction d)) [
  | inl same ↦ rw (same, merge) tt
  | inr other ↦ rw (other, merge) (other, tt)
]
merge-IsAlternating d b (e ∷ f ∷ entries) (h, hs) =
    let (g, rest, whole, same) = merge_head d b f entries in
    cons-IsAlternating e (merge d b (f ∷ entries)) g rest f.direction whole same h
      (merge-IsAlternating d b (f ∷ entries) hs)

merge-HasBytes :
    (d : Direction) (b : Bytes) (entries : List CaptureEntry)
    → IsBytes b
    → All HasBytes entries
    → All HasBytes (merge d b entries)
unfolding merge
merge-HasBytes d b [] hb h = (hb, tt)
merge-HasBytes d b (e ∷ []) hb (he, h) = elim (Bool-cases (direction_eq e.direction d)) [
  | inl same ↦ rw (same, merge) (All-append (λ c. c < 256) e.data_bytes b he hb, tt)
  | inr other ↦ rw (other, merge) (he, (hb, tt))
]
merge-HasBytes d b (e ∷ f ∷ entries) hb (he, h) = (he, merge-HasBytes d b (f ∷ entries) hb h)

direction_eq_sound : (a b : Direction) → direction_eq a b ≡ true → a ≡ b
unfolding direction_eq
direction_eq_sound server_to_client server_to_client h = refl
direction_eq_sound client_to_server client_to_server h = refl
direction_eq_sound server_to_client client_to_server h = absurd (cc)
direction_eq_sound client_to_server server_to_client h = absurd (cc)

joined :
    (w d : Direction) (a b : Bytes)
    → pushed_one w d (a ++ b) ++ [] ≡ pushed_one w d a ++ [] ++ pushed_one w d b
joined w d a b = elim (Bool-cases (direction_eq d w)) [
  | inl same ↦ rw (same) (append-nil (a ++ b) ∙ ap (λ t. t ++ b) (sym (append-nil a)))
  | inr other ↦ rw (other) refl
]

pushed_nothing : (w d : Direction) → pushed_one w d [] ≡ []
pushed_nothing w d = elim (Bool-cases (direction_eq d w)) [
  | inl same ↦ rw (same) refl
  | inr other ↦ rw (other) refl
]

one_way-merge :
    (w d : Direction) (b : Bytes) (entries : List CaptureEntry)
    → one_way w (merge d b entries) ≡ one_way w entries ++ pushed_one w d b
unfolding merge one_way
one_way-merge w d b [] = append-nil (pushed_one w d b)
one_way-merge w d b (e ∷ []) = elim (Bool-cases (direction_eq e.direction d)) [
  | inl same ↦
      rw (same, merge)
        (joined w e.direction e.data_bytes b
          ∙ ap (λ a. pushed_one w e.direction e.data_bytes ++ [] ++ pushed_one w a b)
              (direction_eq_sound e.direction d same))
  | inr other ↦
      rw (other, merge)
        (ap (λ t. pushed_one w e.direction e.data_bytes ++ t) (append-nil (pushed_one w d b))
          ∙ ap (λ t. t ++ pushed_one w d b)
              (sym (append-nil (pushed_one w e.direction e.data_bytes))))
]
one_way-merge w d b (e ∷ f ∷ entries) =
    ap (λ t. pushed_one w e.direction e.data_bytes ++ t) (one_way-merge w d b (f ∷ entries))
    ∙ sym (
        append_assoc (pushed_one w e.direction e.data_bytes) (one_way w (f ∷ entries))
          (pushed_one w d b))

one_way-push :
    (w d : Direction) (b : Bytes) (log : CaptureLog)
    → one_way w (push d b log).entries ≡ one_way w log.entries ++ pushed_one w d b
unfolding push
one_way-push w d [] log =
    sym (append-nil (one_way w log.entries))
    ∙ ap (λ t. one_way w log.entries ++ t) (sym (pushed_nothing w d))
one_way-push w d (c ∷ s) log = one_way-merge w d (c ∷ s) log.entries

one_way-push_all :
    (w : Direction) (pushes : List (Direction × Bytes)) (log : CaptureLog)
    → one_way w (push_all pushes log).entries ≡ one_way w log.entries ++ pushed w pushes
unfolding push_all pushed
one_way-push_all w [] log = sym (append-nil (one_way w log.entries))
one_way-push_all w ((d, b) ∷ pushes) log =
    one_way-push_all w pushes (push d b log)
    ∙ ap (λ t. t ++ pushed w pushes) (one_way-push w d b log)
    ∙ append_assoc (one_way w log.entries) (pushed_one w d b) (pushed w pushes)

-- A log that is read back from its text.
record IsWritable (log : CaptureLog) : Type 0 where
  bytes : All HasBytes log.entries
  alternating : IsAlternating log.entries

push-IsWritable :
    (d : Direction) (b : Bytes) (log : CaptureLog)
    → IsBytes b
    → IsWritable log
    → IsWritable (push d b log)
unfolding push
push-IsWritable d [] log hb h = h
push-IsWritable d (c ∷ s) log hb h = record {
  bytes = merge-HasBytes d (c ∷ s) log.entries hb h.bytes;
  alternating = merge-IsAlternating d (c ∷ s) log.entries h.alternating;
}

push_all-IsWritable :
    (pushes : List (Direction × Bytes)) (log : CaptureLog)
    → All (λ p. IsBytes p.1) pushes
    → IsWritable log
    → IsWritable (push_all pushes log)
unfolding push_all
push_all-IsWritable [] log _ h = h
push_all-IsWritable ((d, b) ∷ pushes) log (hb, hs) h =
    push_all-IsWritable pushes (push d b log) hs (push-IsWritable d b log hb h)

-- Whatever bytes are pushed onto an empty log, the log holds in each direction all that was pushed
-- for it, in order, and the text of the log is read back as the same log.
pub from_text-push_all :
    (pushes : List (Direction × Bytes))
    → All (λ p. IsBytes p.1) pushes
    → ((w : Direction) → one_way w (push_all pushes empty_log).entries ≡ pushed w pushes)
      × (from_text (to_text (push_all pushes empty_log)) ≡ ok (push_all pushes empty_log))
unfolding IsAlternating one_way
from_text-push_all pushes h =
    let written : IsWritable (push_all pushes empty_log) =
      push_all-IsWritable pushes empty_log h (record { bytes = tt; alternating = tt }) in
    (
      (λ w. one_way-push_all w pushes empty_log),
      from_text-to_text (push_all pushes empty_log) written.bytes written.alternating,
    )
