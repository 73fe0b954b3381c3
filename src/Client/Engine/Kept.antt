-- ===== src/Client/Engine/Kept.antt =====
-- The transitions of the engine of crates/xeedee/src/client/engine.rs keep the account of
-- commands and answers.
use xeedee.Base.{
  ℕ, zero, suc, ◌+◌, ◌≡◌, refl, sym, ap, ◌∙◌, subst, inl, inr, true, false, some, arith, Bytes, ltb,
  Bool-cases, Option-cases, length, drop,
}
use xeedee.Crates.{plain, find_index}
use xeedee.Client.Engine.{
  State, ClientEngine, fail, on_body_line, Progress, moved, stuck, max_line_len, line_end,
}
use xeedee.Client.Engine.Measure.{try_take_line-IsTaken}
use xeedee.Client.Engine.Quiescence.{Progress-cases, loop_moved, loop_stuck, loop_panicked}
use xeedee.Client.Engine.Ops.{is_terminal_state}
use xeedee.Client.Engine.Steps.{
  TakenLine, no_line, taken, try_take_line, step_line, step_in, step, advance_loop, enough, advance,
}
use xeedee.Protocol.Error.{Error, FramingError}
use xeedee.Client.Engine.Ledger.{
  owed, owed_in, answers, IsKept, Keeps, fail-IsKept, on_banner-IsKept, failed-IsKept,
  on_head-IsKept, on_body_line-IsKept, step_binary-Keeps, with_head-Keeps, owed_self, IsKept-at,
}

-- No line: the engine has failed, or is as it was.
no_line-IsKept : (e m : ClientEngine) → try_take_line plain e ≡ no_line m → IsKept (owed e) m
unfolding try_take_line plain
no_line-IsKept e m h = elim (Option-cases (find_index b'\n' e.inbox)) [
  | inl unended ↦ elim (Bool-cases (ltb max_line_len (length e.inbox))) [
    | inl long ↦
        IsKept-at e m (fail (Error.framing FramingError.line_too_long) e) (fail-IsKept e.state _ e)
          (ground arith)
    | inr short ↦ IsKept-at e m e (owed_self e) (ground arith)
  ]
  | inr (pos, found) ↦ elim (Bool-cases (ltb max_line_len (line_end pos e.inbox))) [
    | inl long ↦
        IsKept-at e m (fail (Error.framing FramingError.line_too_long) e) (fail-IsKept e.state _ e)
          (ground arith)
    | inr short ↦
        IsKept-at e m
          (fail (Error.framing FramingError.non_utf8_line)
            (record e { inbox = drop (pos + 1) e.inbox }))
          (fail-IsKept e.state _ (record e { inbox = drop (pos + 1) e.inbox })) (ground arith)
  ]
]

step_line-Keeps :
    (s : State) (k : Bytes → ClientEngine → Progress) (e : ClientEngine)
    → e.state ≡ s
    → ((line : Bytes) (m : ClientEngine) → m.events ≡ e.events → Keeps (owed_in s e) (k line m))
    → Keeps (owed_in s e) (step_line plain k e)
unfolding step_line
step_line-Keeps s k e at keeps = go (try_take_line plain e) refl
  where
    go :
        (t : TakenLine)
        → try_take_line plain e ≡ t
        → Keeps (owed_in s e) (elim t [ no_line m ↦ stuck m | taken line m ↦ k line m ])
    go (no_line m) eq = subst (λ t. IsKept (owed_in t e) m) at (no_line-IsKept e m eq)
    go (taken line m) eq =
        keeps line m (ap (λ (r : ClientEngine). r.events) (try_take_line-IsTaken e line m eq).rest)

-- The events before and after the line was taken are the same.
moved_to :
    (e m : ClientEngine) (k : ℕ) (p : Progress)
    → m.events ≡ e.events
    → Keeps (answers m.events + k) p
    → Keeps (answers e.events + k) p
moved_to e m k p same h = subst (λ v. Keeps (answers v + k) p) same h

step_in-Keeps :
    (s : State) (e : ClientEngine) → e.state ≡ s → Keeps (owed_in s e) (step_in plain s e)
unfolding step_in
step_in-Keeps State.need_banner e at = step_line-Keeps State.need_banner _ e at λ line m same.
    moved_to e m 0 _ same (
      with_head-Keeps _ _ _ m (λ h. on_banner-IsKept _ m)
        (λ cause. fail-IsKept State.need_banner cause m))
step_in-Keeps (State.awaiting_head expect) e at =
    step_line-Keeps (State.awaiting_head expect) _ e at λ line m same.
      moved_to e m 1 _ same (
        with_head-Keeps _ _ _ m (λ h. on_head-IsKept expect _ _ m) (λ cause. failed-IsKept cause m))
step_in-Keeps (State.reading_multiline head lines) e at =
    step_line-Keeps (State.reading_multiline head lines) _ e at λ line m same.
      moved_to e m 1 (moved (on_body_line head lines line m)) same
        (on_body_line-IsKept head lines line m)
step_in-Keeps (State.reading_binary head remaining body) e at =
    step_binary-Keeps head remaining body e at
step_in-Keeps s e at = subst (λ t. IsKept (owed_in t e) e) at (owed_self e)

step-Keeps : (e : ClientEngine) → Keeps (owed e) (step plain e)
unfolding step
step-Keeps e = step_in-Keeps e.state e refl

terminal_stuck :
    (s : State) (e : ClientEngine) → is_terminal_state s ≡ true → step_in plain s e ≡ stuck e
unfolding step_in is_terminal_state
terminal_stuck State.closed e h = refl
terminal_stuck State.failed e h = refl
terminal_stuck State.streaming_body e h = refl
terminal_stuck State.idle e h = refl
terminal_stuck _ e h = absurd (cc)

loop_terminal :
    (fuel : ℕ) (e e' : ClientEngine)
    → is_terminal_state e.state ≡ true
    → advance_loop plain fuel e ≡ some e'
    → e ≡ e'
unfolding advance_loop step
loop_terminal zero e e' h p = cc
loop_terminal (suc fuel) e e' h p = ground (arith, terminal_stuck e.state e h)

loop-IsKept :
    (fuel : ℕ) (e e' : ClientEngine) → advance_loop plain fuel e ≡ some e' → IsKept (owed e) e'
loop-IsKept zero e e' p = IsKept-at e e' e (owed_self e) (unfold advance_loop in cc)
loop-IsKept (suc fuel) e e' p = elim (Progress-cases (step plain e)) [
  | inl (n, eq) ↦
      let first : IsKept (owed e) n = subst (Keeps (owed e)) eq (step-Keeps e) in
      let rest = sym (loop_moved fuel e n eq) ∙ p in
      elim (Bool-cases (is_terminal_state n.state)) [
        | inl over ↦ IsKept-at e e' n first (loop_terminal fuel n e' over rest)
        | inr alive ↦
            let later = loop-IsKept fuel n e' rest in
            record {
              most = omega (arith, first.most, later.most);
              all = λ h. omega (arith, first.all alive, later.all h);
            }
      ]
  | inr (inl (n, eq)) ↦
      IsKept-at e e' n (subst (Keeps (owed e)) eq (step-Keeps e)) (cc (loop_stuck fuel e n eq))
  | inr (inr eq) ↦ absurd (cc (loop_panicked fuel e eq))
]

pub advance-IsKept : (e e' : ClientEngine) → advance plain e ≡ some e' → IsKept (owed e) e'
unfolding advance
advance-IsKept e e' h = loop-IsKept (enough e) e e' h

-- An engine that lives has lived.
pub advance_alive :
    (e e' : ClientEngine)
    → advance plain e ≡ some e'
    → is_terminal_state e'.state ≡ false
    → is_terminal_state e.state ≡ false
unfolding advance
advance_alive e e' h alive = elim (Bool-cases (is_terminal_state e.state)) [
  | inl over ↦ absurd (ground (arith, loop_terminal (enough e) e e' over h))
  | inr lives ↦ lives
]
