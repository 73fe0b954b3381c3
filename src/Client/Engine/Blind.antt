-- ===== src/Client/Engine/Blind.antt =====
-- A line that is there is read the same when more bytes stand behind it
-- (crates/xeedee/src/client/engine.rs).
use xeedee.Base.{
  ℕ, zero, suc, ◌+◌, ◌≤◌, ◌<◌, ◌≡◌, refl, inl, inr, Option, none, some, List, [], ◌∷◌, ◌++◌, arith,
  Bytes, Result, ok, err, Option-cases, length, get_elem?, take-append_le, drop-append_le,
}
use xeedee.Crates.{plain, find_index}
use xeedee.Client.Engine.{
  ClientEngine, HeadExpect, fail, line_end, on_head, on_banner, on_body_line, Progress, moved,
  stuck,
}
use xeedee.Client.Engine.Measure.{find_index-lt}
use xeedee.Client.Engine.Steps.{TakenLine, no_line, taken, with_head, try_take_line, step_line}
use xeedee.Protocol.Error.{Error}
use xeedee.Protocol.Head.{ResponseHead}
use xeedee.Protocol.StatusCode.{Classified}

abbrev pub extend : Bytes → ClientEngine → ClientEngine
extend b e = record e { inbox = e.inbox ++ b }

find_index-append :
    (c : ℕ) (s b : Bytes) (i : ℕ) → find_index c s ≡ some i → find_index c (s ++ b) ≡ some i
find_index-append c [] b i h = absurd (cc)
find_index-append c (d ∷ s) b i h = elim (Option-cases (find_index c s)) [
  | inl e ↦ ground arith
  | inr (j, e) ↦ ground (arith, find_index-append c s b j e)
]

get_elem?-append : (s b : Bytes) (i : ℕ) → i < length s → get_elem? (s ++ b) i ≡ get_elem? s i
get_elem?-append [] b i h = absurd (omega arith)
get_elem?-append (c ∷ s) b zero h = refl
get_elem?-append (c ∷ s) b (suc i) h = get_elem?-append s b i (omega arith)

line_end-append : (pos : ℕ) (s b : Bytes) → pos < length s → line_end pos (s ++ b) ≡ line_end pos s
unfolding line_end
line_end-append zero s b h = refl
line_end-append (suc p) s b h = rw (get_elem?-append s b p (omega arith), line_end) refl

line_end-le : (pos : ℕ) (s : Bytes) → line_end pos s ≤ pos
unfolding line_end
line_end-le zero s = omega arith
line_end-le (suc p) s = ground arith

taken_again :
    (b : Bytes) (e : ClientEngine) (line : Bytes) (m : ClientEngine)
    → try_take_line plain e ≡ taken line m
    → try_take_line plain (extend b e) ≡ taken line (extend b m)
unfolding try_take_line plain
taken_again b e line m h = elim (Option-cases (find_index b'\n' e.inbox)) [
  | inl none_found ↦ absurd (ground arith)
  | inr (pos, found) ↦ ground (
    arith,
    find_index-append b'\n' e.inbox b pos found,
    line_end-append pos e.inbox b (find_index-lt b'\n' e.inbox pos found),
    take-append_le (line_end pos e.inbox) e.inbox b
        (omega (arith, line_end-le pos e.inbox, find_index-lt b'\n' e.inbox pos found)),
    drop-append_le (pos + 1) e.inbox b (omega (arith, find_index-lt b'\n' e.inbox pos found)),
  )
]

-- What follows a line does not look at the inbox.
pub record IsBlind (k : ClientEngine → Progress) : Type 0 where
  pub at : (b : Bytes) (e n : ClientEngine) → k e ≡ moved n → k (extend b e) ≡ moved (extend b n)

pub on_head_blind :
    (expect : HeadExpect) (c : Classified) (rest b : Bytes) (e : ClientEngine)
    → on_head expect c rest (extend b e) ≡ extend b (on_head expect c rest e)
unfolding on_head
on_head_blind expect c rest b e = ground arith

pub on_banner_blind :
    (c : Classified) (b : Bytes) (e : ClientEngine)
    → on_banner c (extend b e) ≡ extend b (on_banner c e)
unfolding on_banner
on_banner_blind c b e = ground arith

pub on_body_line_blind :
    (head : Bytes) (lines : List Bytes) (line b : Bytes) (e : ClientEngine)
    → on_body_line head lines line (extend b e) ≡ extend b (on_body_line head lines line e)
unfolding on_body_line
on_body_line_blind head lines line b e = ground arith

pub with_head-IsBlind :
    (o : Option (Result Error ResponseHead)) (k : ResponseHead → ClientEngine → ClientEngine)
    → ((h : ResponseHead) (b : Bytes) (e : ClientEngine) → k h (extend b e) ≡ extend b (k h e))
    → IsBlind (with_head o k)
unfolding with_head fail
with_head-IsBlind none k c = record { at = λ b e n h. absurd (cc) }
with_head-IsBlind (some (err cause)) k c = record { at = λ b e n h. ground arith }
with_head-IsBlind (some (ok head)) k c = record { at = λ b e n h. ground (arith, c head b e) }

pub step_line-IsBlind :
    (k : Bytes → ClientEngine → Progress)
    → ((line : Bytes) → IsBlind (k line))
    → IsBlind (step_line plain k)
unfolding step_line
step_line-IsBlind k blind = record { at = λ b e n h. go b e n (try_take_line plain e) refl h }
  where
    go :
        (b : Bytes) (e n : ClientEngine) (t : TakenLine)
        → try_take_line plain e ≡ t
        → elim t [ no_line m ↦ stuck m | taken line m ↦ k line m ] ≡ moved n
        → step_line plain k (extend b e) ≡ moved (extend b n)
    go b e n (no_line m) eq p = absurd (cc)
    go b e n (taken line m) eq p =
        rw (taken_again b e line m eq, step_line) ((blind line).at b m n p)
