-- ===== src/Client/Engine/Measure.antt =====
-- Each round of `advance` consumes input, so its fuel is enough.
use xeedee.Base.{
  ℕ, zero, suc, ◌+◌, ◌-◌, ◌*◌, ◌≤◌, ◌<◌, ◌≡◌, refl, Option, none, some, [], ◌∷◌, Bytes, Result, ok,
  err, length, length-drop, drop, min, take, ◌++◌, arith, Option-cases, inl, inr, ap, List,
}
use xeedee.Crates.{plain, find_index}
use xeedee.Client.Engine.{
  State, ClientEngine, HeadExpect, fail, on_head, on_banner, on_body_line, step_binary, Progress,
  moved, stuck,
}
use xeedee.Client.Engine.Steps.{
  TakenLine, no_line, taken, with_head, try_take_line, step_line, step_in, step,
}
use xeedee.Protocol.Error.{Error}
use xeedee.Protocol.Head.{ResponseHead}
use xeedee.Protocol.StatusCode.{Classified}

pub find_index-lt : (b : ℕ) (s : Bytes) (i : ℕ) → find_index b s ≡ some i → i < length s
find_index-lt b [] i h = cc
find_index-lt b (c ∷ s) i h = elim (Option-cases (find_index b s)) [
  | inl e ↦ ground arith
  | inr (j, e) ↦ ground (arith, find_index-lt b s j e)
]

-- A step that reads a line leaves the state and the queues alone.
pub record IsTaken (e : ClientEngine) (line : Bytes) (e' : ClientEngine) : Type 0 where
  pub pos : ℕ
  pub found : find_index b'\n' e.inbox ≡ some pos
  pub rest : e' ≡ record e { inbox = drop (pos + 1) e.inbox }

pub try_take_line-IsTaken :
    (e : ClientEngine) (line : Bytes) (e' : ClientEngine)
    → try_take_line plain e ≡ taken line e'
    → IsTaken e line e'
unfolding try_take_line plain
try_take_line-IsTaken e line e' h = elim (Option-cases (find_index b'\n' e.inbox)) [
  | inl none_found ↦ absurd (ground arith)
  | inr (pos, found) ↦ record { pos = pos; found = found; rest = ground arith }
]

IsTaken-shorter :
    (e : ClientEngine) (line : Bytes) (e' : ClientEngine)
    → IsTaken e line e'
    → length e'.inbox < length e.inbox
IsTaken-shorter e line e' t = omega (
  arith,
  ap (λ (r : ClientEngine). length r.inbox) t.rest,
  length-drop (t.pos + 1) e.inbox,
  find_index-lt b'\n' e.inbox t.pos t.found,
)

inbox-on_head :
    (expect : HeadExpect) (c : Classified) (rest : Bytes) (e : ClientEngine)
    → (on_head expect c rest e).inbox ≡ e.inbox
unfolding on_head
inbox-on_head expect c rest e = ground arith

inbox-on_banner : (c : Classified) (e : ClientEngine) → (on_banner c e).inbox ≡ e.inbox
unfolding on_banner
inbox-on_banner c e = ground arith

inbox-on_body_line :
    (head : Bytes) (lines : List Bytes) (line : Bytes) (e : ClientEngine)
    → (on_body_line head lines line e).inbox ≡ e.inbox
unfolding on_body_line
inbox-on_body_line head lines line e = ground arith

-- A finished binary body takes one more round to report.
abbrev pub collecting : State → ℕ
collecting (State.reading_binary head remaining body) = 1
collecting _ = 0

abbrev pub measure : ClientEngine → ℕ
measure e = 2 * length e.inbox + collecting e.state

pub collecting-le-one : (s : State) → collecting s ≤ 1
collecting-le-one (State.reading_binary head remaining body) = omega arith
collecting-le-one _ = omega arith

with_head-measure :
    (o : Option (Result Error ResponseHead)) (k : ResponseHead → ClientEngine → ClientEngine)
    (e e' : ClientEngine)
    → ((h : ResponseHead) → (k h e).inbox ≡ e.inbox)
    → with_head o k e ≡ moved e'
    → e'.inbox ≡ e.inbox
unfolding with_head fail
with_head-measure none k e e' keeps h = absurd (cc)
with_head-measure (some (err cause)) k e e' keeps h = ground arith
with_head-measure (some (ok head)) k e e' keeps h = ground (arith, keeps head)

step_line-measure :
    (k : Bytes → ClientEngine → Progress) (e e' : ClientEngine)
    → ((line : Bytes) (m m' : ClientEngine) → k line m ≡ moved m' → m'.inbox ≡ m.inbox)
    → step_line plain k e ≡ moved e'
    → length e'.inbox < length e.inbox
unfolding step_line
step_line-measure k e e' keeps h = go (try_take_line plain e) refl h
  where
    go :
        (t : TakenLine)
        → try_take_line plain e ≡ t
        → elim t [ no_line m ↦ stuck m | taken line m ↦ k line m ] ≡ moved e'
        → length e'.inbox < length e.inbox
    go (no_line m) eq p = absurd (cc)
    go (taken line m) eq p = omega (
      arith,
      IsTaken-shorter e line m (try_take_line-IsTaken e line m eq),
      ap (λ (t : Bytes). length t) (keeps line m e' p),
    )

body_line-measure :
    (head : Bytes) (lines : List Bytes) (line : Bytes) (m m' : ClientEngine)
    → moved (on_body_line head lines line m) ≡ moved m'
    → m'.inbox ≡ m.inbox
body_line-measure head lines line m m' p = ground (arith, inbox-on_body_line head lines line m)

taken_some :
    (r : ℕ) (c : ℕ) (s : Bytes)
    → length (drop (min (suc r) (length (c ∷ s))) (c ∷ s)) < length (c ∷ s)
taken_some r c s = omega (arith, length-drop (min (suc r) (length (c ∷ s))) (c ∷ s))

step_binary-measure :
    (head : Bytes) (remaining : ℕ) (body : Bytes) (e e' : ClientEngine)
    → step_binary head remaining body e ≡ moved e'
    → measure e' < 2 * length e.inbox + 1
unfolding step_binary
step_binary-measure head zero body e e' h = ground arith
step_binary-measure head (suc r) body e e' h = go e.inbox refl h
  where
    go :
        (i : Bytes)
        → e.inbox ≡ i
        → elim i [
          | [] ↦ stuck e
          | c ∷ s ↦
              (let n = min (suc r) (length (c ∷ s)) in
                moved (record e {
                  state = State.reading_binary head (suc r - n) (body ++ take n (c ∷ s));
                  inbox = drop n (c ∷ s);
                }))
        ]
          ≡ moved e'
        → measure e' < 2 * length e.inbox + 1
    go [] eq p = absurd (cc)
    go (c ∷ s) eq p = ground (arith, taken_some r c s)

step_in-measure :
    (s : State) (e e' : ClientEngine)
    → step_in plain s e ≡ moved e'
    → measure e' < 2 * length e.inbox + collecting s
unfolding step_in
step_in-measure State.need_banner e e' h = omega (
  arith,
  collecting-le-one e'.state,
  step_line-measure _ e e'
      (λ line m m' p. with_head-measure _ _ m m' (λ head. inbox-on_banner _ m) p) h,
)
step_in-measure (State.awaiting_head expect) e e' h = omega (
  arith,
  collecting-le-one e'.state,
  step_line-measure _ e e'
      (λ line m m' p. with_head-measure _ _ m m' (λ head. inbox-on_head expect _ _ m) p) h,
)
step_in-measure (State.reading_multiline head lines) e e' h = omega (
  arith,
  collecting-le-one e'.state,
  step_line-measure _ e e' (λ line m m' p. body_line-measure head lines line m m' p) h,
)
step_in-measure (State.reading_binary head remaining body) e e' h =
    step_binary-measure head remaining body e e' h
step_in-measure _ e e' h = absurd (cc)

pub step-measure : (e e' : ClientEngine) → step plain e ≡ moved e' → measure e' < measure e
unfolding step
step-measure e e' h = step_in-measure e.state e e' h
