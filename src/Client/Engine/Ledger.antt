-- ===== src/Client/Engine/Ledger.antt =====
-- Commands and their answers (crates/xeedee/src/client/engine.rs): every accepted command is
-- answered at most once, and no answer comes unasked.
use xeedee.Base.{
  ℕ, zero, suc, ◌+◌, ◌-◌, ◌≤◌, min, ◌≡◌, refl, ap, subst, inl, inr, false, Option, none, some, List,
  [], ◌∷◌, ◌++◌, arith, Bytes, codes, bytes_eq, Result, ok, err, Bool-cases, length, take, drop,
}
use xeedee.Client.Engine.{
  State, ClientEngine, ClientEvent, HeadExpect, fail, on_head, on_banner, on_body_line, step_binary,
  Progress, moved, stuck, panicked, push_event, set_state,
}
use xeedee.Client.Engine.Ops.{is_terminal_state}
use xeedee.Client.Engine.Steps.{with_head}
use xeedee.Protocol.Error.{Error, FramingError}
use xeedee.Protocol.Head.{ResponseHead}
use xeedee.Protocol.StatusCode.{Classified, success, error, unknown}
use xeedee.Protocol.SuccessCode.{SuccessCode}

-- The events that end a command's wait.
abbrev pub is_answer : ClientEvent → ℕ
is_answer (ClientEvent.response r) = 1
is_answer (ClientEvent.binary_head text) = 1
is_answer (ClientEvent.remote_error code text) = 1
is_answer _ = 0

abbrev pub answers : List ClientEvent → ℕ
answers [] = 0
answers (v ∷ events) = is_answer v + answers events

-- Whether a command waits for its answer.
abbrev pub waiting : State → ℕ
waiting (State.awaiting_head expect) = 1
waiting (State.reading_multiline text lines) = 1
waiting (State.reading_binary text remaining body) = 1
waiting _ = 0

pub answers-append : (a b : List ClientEvent) → answers (a ++ b) ≡ answers a + answers b
answers-append [] b = omega arith
answers-append (v ∷ a) b = omega (arith, answers-append a b)

-- Commands waiting or answered, in a state that is given beside the engine.
abbrev pub owed_in : State → ClientEngine → ℕ
owed_in s e = answers e.events + waiting s

abbrev pub owed : ClientEngine → ℕ
owed e = owed_in e.state e

-- Nothing is owed that was not, and nothing is lost unless the engine ends.
pub record IsKept (before : ℕ) (e : ClientEngine) : Type 0 where
  pub most : owed e ≤ before
  pub all : is_terminal_state e.state ≡ false → owed e ≡ before

pub fail-IsKept :
    (s : State) (cause : Error) (e : ClientEngine) → IsKept (owed_in s e) (fail cause e)
unfolding fail is_terminal_state
fail-IsKept s cause e = record {
  most = omega (arith, answers-append e.events (ClientEvent.failed cause ∷ []));
  all = λ h. cc;
}

pub on_banner-IsKept :
    (c : Classified) (e : ClientEngine) → IsKept (owed_in State.need_banner e) (on_banner c e)
unfolding on_banner fail is_terminal_state
on_banner-IsKept c e = record {
  most = ground (
    arith,
    answers-append e.events (ClientEvent.connected ∷ []),
    answers-append e.events (ClientEvent.failed (Error.framing FramingError.missing_banner) ∷ []),
  );
  all = λ h. ground (arith, answers-append e.events (ClientEvent.connected ∷ []));
}

-- `moved` and `stuck` alike.
abbrev pub Keeps : ℕ → Progress → Type 0
Keeps before (moved e) = IsKept before e
Keeps before (stuck e) = IsKept before e
Keeps before panicked = Unit

-- An answer is pushed, and the wait is over.
answered-IsKept :
    (s : State) (v : ClientEvent) (e : ClientEngine)
    → is_answer v ≡ 1
    → waiting s ≡ 0
    → IsKept (answers e.events + 1) (push_event v (set_state s e))
answered-IsKept s v e one over = record {
  most = omega (arith, answers-append e.events (v ∷ []));
  all = λ h. omega (arith, answers-append e.events (v ∷ []));
}

-- The wait goes on.
still-IsKept :
    (s : State) (e : ClientEngine) → waiting s ≡ 1 → IsKept (answers e.events + 1) (set_state s e)
still-IsKept s e one = record { most = omega arith; all = λ h. omega arith }

pub failed-IsKept :
    (cause : Error) (e : ClientEngine) → IsKept (answers e.events + 1) (fail cause e)
failed-IsKept cause e = fail-IsKept (State.awaiting_head HeadExpect.no_binary) cause e

pub on_head-IsKept :
    (expect : HeadExpect) (c : Classified) (rest : Bytes) (e : ClientEngine)
    → IsKept (answers e.events + 1) (on_head expect c rest e)
unfolding on_head
on_head-IsKept expect (error code) rest e = answered-IsKept _ _ e refl refl
on_head-IsKept expect (unknown code) rest e = failed-IsKept _ e
on_head-IsKept expect (success SuccessCode.multiline_follows) rest e = still-IsKept _ e refl
on_head-IsKept HeadExpect.no_binary (success SuccessCode.binary_follows) rest e = failed-IsKept _ e
on_head-IsKept (HeadExpect.eager_binary len) (success SuccessCode.binary_follows) rest e =
    still-IsKept _ e refl
on_head-IsKept HeadExpect.stream_binary (success SuccessCode.binary_follows) rest e =
    answered-IsKept _ _ e refl refl
on_head-IsKept expect (success code) rest e = answered-IsKept _ _ e refl refl

pub on_body_line-IsKept :
    (head : Bytes) (lines : List Bytes) (line : Bytes) (e : ClientEngine)
    → IsKept (answers e.events + 1) (on_body_line head lines line e)
unfolding on_body_line
on_body_line-IsKept head lines line e = elim (Bool-cases (bytes_eq line (codes "."))) [
  | inl last ↦ rw (last, on_body_line) (answered-IsKept State.idle _ e refl refl)
  | inr more ↦ rw (more, on_body_line) (still-IsKept _ e refl)
]

pub step_binary-Keeps :
    (head : Bytes) (remaining : ℕ) (body : Bytes) (e : ClientEngine)
    → e.state ≡ State.reading_binary head remaining body
    → Keeps (answers e.events + 1) (step_binary head remaining body e)
unfolding step_binary
step_binary-Keeps head zero body e at = answered-IsKept State.idle _ e refl refl
step_binary-Keeps head (suc r) body e at = go e.inbox
  where
    go :
        (i : Bytes)
        → Keeps (answers e.events + 1) (elim i [
          | [] ↦ stuck e
          | c ∷ s ↦
              (let n = min (suc r) (length (c ∷ s)) in
                moved (record e {
                  state = State.reading_binary head (suc r - n) (body ++ take n (c ∷ s));
                  inbox = drop n (c ∷ s);
                }))
        ])
    go [] = record { most = omega (arith, ap waiting at); all = λ h. omega (arith, ap waiting at) }
    go (c ∷ s) = record { most = omega arith; all = λ h. omega arith }

pub with_head-Keeps :
    (before : ℕ) (o : Option (Result Error ResponseHead))
    (k : ResponseHead → ClientEngine → ClientEngine) (e : ClientEngine)
    → ((h : ResponseHead) → IsKept before (k h e))
    → ((cause : Error) → IsKept before (fail cause e))
    → Keeps before (with_head o k e)
unfolding with_head
with_head-Keeps before none k e kept failing = tt
with_head-Keeps before (some (err cause)) k e kept failing = failing cause
with_head-Keeps before (some (ok head)) k e kept failing = kept head

pub owed_self : (e : ClientEngine) → IsKept (owed e) e
owed_self e = record { most = omega arith; all = λ h. refl }

pub IsKept-at : (e m n : ClientEngine) → IsKept (owed e) n → n ≡ m → IsKept (owed e) m
IsKept-at e m n h p = subst (IsKept (owed e)) p h
