-- ===== src/Client/Engine/Quiescence.antt =====
-- `advance` of crates/xeedee/src/client/engine.rs runs until nothing more can be done.
use xeedee.Base.{
  ℕ, zero, suc, ◌*◌, ◌≤◌, ◌<◌, ◌≡◌, refl, sym, ◌∙◌, subst, ◌≢◌, ◌⊎◌, inl, inr, Option, none, some,
  arith, Bytes, Result, ok, err, Option-cases, length,
}
use xeedee.Crates.{Crates, plain, find_index, Documented, for_all_crates}
use xeedee.Client.Engine.{State, ClientEngine, step_binary, Progress, moved, stuck, panicked}
use xeedee.Client.Engine.Measure.{measure, step-measure, collecting-le-one}
use xeedee.Client.Engine.Steps.{
  TakenLine, no_line, taken, with_head, try_take_line, step_line, step_in, step, advance_loop,
  enough, advance,
}
use xeedee.Protocol.Error.{Error}
use xeedee.Protocol.Head.{ResponseHead}

-- A line that is not there leaves the engine as it was, or failed.
no_line-unchanged :
    (e e' : ClientEngine)
    → try_take_line plain e ≡ no_line e'
    → (e' ≡ e) ⊎ (e'.state ≡ State.failed)
unfolding try_take_line plain
no_line-unchanged e e' h = elim (Option-cases (find_index b'\n' e.inbox)) [
  | inl none_found ↦ ground arith
  | inr (pos, found) ↦ ground arith
]

step-failed : (e : ClientEngine) → e.state ≡ State.failed → step plain e ≡ stuck e
unfolding step
step-failed e h = rw (h, step_in) refl

with_head-moves :
    (o : Option (Result Error ResponseHead)) (k : ResponseHead → ClientEngine → ClientEngine)
    (e e' : ClientEngine)
    → with_head o k e ≢ stuck e'
unfolding with_head
with_head-moves none k e e' h = cc
with_head-moves (some (err cause)) k e e' h = cc
with_head-moves (some (ok head)) k e e' h = cc

step_line-stuck :
    (k : Bytes → ClientEngine → Progress) (e e' : ClientEngine)
    → ((line : Bytes) (m m' : ClientEngine) → k line m ≢ stuck m')
    → step_line plain k e ≡ stuck e'
    → (e' ≡ e) ⊎ (e'.state ≡ State.failed)
unfolding step_line
step_line-stuck k e e' moves h = go (try_take_line plain e) refl h
  where
    go :
        (t : TakenLine)
        → try_take_line plain e ≡ t
        → elim t [ no_line m ↦ stuck m | taken line m ↦ k line m ] ≡ stuck e'
        → (e' ≡ e) ⊎ (e'.state ≡ State.failed)
    go (no_line m) eq p = no_line-unchanged e e' (ground arith)
    go (taken line m) eq p = absurd (moves line m e' p)

step_in-stuck :
    (s : State) (e e' : ClientEngine)
    → step_in plain s e ≡ stuck e'
    → (e' ≡ e) ⊎ (e'.state ≡ State.failed)
unfolding step_in
step_in-stuck State.need_banner e e' h =
    step_line-stuck _ e e' (λ line m m'. with_head-moves _ _ m m') h
step_in-stuck (State.awaiting_head expect) e e' h =
    step_line-stuck _ e e' (λ line m m'. with_head-moves _ _ m m') h
step_in-stuck (State.reading_multiline head lines) e e' h =
    step_line-stuck _ e e' (λ line m m' p. cc) h
step_in-stuck (State.reading_binary head zero body) e e' h = unfold step_binary in ground arith
step_in-stuck (State.reading_binary head (suc r) body) e e' h = unfold step_binary in ground arith
step_in-stuck _ e e' h = inl (ground arith)

pub stuck_state :
    (e e' : ClientEngine) → step plain e ≡ stuck e' → (e' ≡ e) ⊎ (e'.state ≡ State.failed)
unfolding step
stuck_state e e' h = step_in-stuck e.state e e' h

-- An engine that is stuck stays stuck.
pub stuck-step : (e e' : ClientEngine) → step plain e ≡ stuck e' → step plain e' ≡ stuck e'
stuck-step e e' h = elim (stuck_state e e' h) [
  | inl same ↦ subst (λ m. step plain m ≡ stuck e') (sym same) h
  | inr failed ↦ step-failed e' failed
]

-- A state is read off a step by its state.
pub step_at :
    (e : ClientEngine) (s : State) (p : Progress)
    → e.state ≡ s
    → step_in plain s e ≡ p
    → step plain e ≡ p
unfolding step
step_at e s p h k = subst (λ t. step_in plain t e ≡ p) (sym h) k

pub Progress-cases :
    (p : Progress)
    → ((e : ClientEngine) × (p ≡ moved e)) ⊎ ((e : ClientEngine) × (p ≡ stuck e)) ⊎ (p ≡ panicked)
Progress-cases (moved e) = inl (e, refl)
Progress-cases (stuck e) = inr (inl (e, refl))
Progress-cases panicked = inr (inr refl)

module _ (fuel : ℕ) (e : ClientEngine) where
  pub loop_moved :
      (n : ClientEngine)
      → step plain e ≡ moved n
      → advance_loop plain (suc fuel) e ≡ advance_loop plain fuel n
  unfolding advance_loop
  loop_moved n h = rw (h, advance_loop)

  pub loop_stuck :
      (n : ClientEngine) → step plain e ≡ stuck n → advance_loop plain (suc fuel) e ≡ some n
  unfolding advance_loop
  loop_stuck n h = rw (h, advance_loop)

  pub loop_panicked : step plain e ≡ panicked → advance_loop plain (suc fuel) e ≡ none
  unfolding advance_loop
  loop_panicked h = rw (h, advance_loop)

loop-end :
    (fuel : ℕ) (e e' : ClientEngine)
    → measure e < fuel
    → advance_loop plain fuel e ≡ some e'
    → step plain e' ≡ stuck e'
loop-end zero e e' m h = absurd (omega arith)
loop-end (suc fuel) e e' m h = elim (Progress-cases (step plain e)) [
  | inl (n, eq) ↦
      loop-end fuel n e' (omega (arith, step-measure e n eq)) (sym (loop_moved fuel e n eq) ∙ h)
  | inr (inl (n, eq)) ↦ stuck-step e e' (cc (loop_stuck fuel e n eq))
  | inr (inr eq) ↦ absurd (cc (loop_panicked fuel e eq))
]

-- More fuel than the measure makes no difference.
pub loop_fuel :
    (f g : ℕ) (e : ClientEngine)
    → measure e < f
    → measure e < g
    → advance_loop plain f e ≡ advance_loop plain g e
loop_fuel zero g e p q = absurd (omega arith)
loop_fuel (suc f) zero e p q = absurd (omega arith)
loop_fuel (suc f) (suc g) e p q = elim (Progress-cases (step plain e)) [
  | inl (n, eq) ↦
      loop_moved f e n eq
      ∙ loop_fuel f g n (omega (arith, step-measure e n eq)) (omega (arith, step-measure e n eq))
      ∙ sym (loop_moved g e n eq)
  | inr (inl (n, eq)) ↦ loop_stuck f e n eq ∙ sym (loop_stuck g e n eq)
  | inr (inr eq) ↦ loop_panicked f e eq ∙ sym (loop_panicked g e eq)
]

pub measure-lt-enough : (e : ClientEngine) → measure e < enough e
measure-lt-enough e = omega (arith, collecting-le-one e.state)

pub advance_moved :
    (e n : ClientEngine) → step plain e ≡ moved n → advance plain e ≡ advance plain n
unfolding advance
advance_moved e n h =
    let k = suc (2 * length e.inbox) in
    loop_moved k e n h
    ∙ loop_fuel k (enough n) n (omega (arith, step-measure e n h, collecting-le-one e.state))
        (measure-lt-enough n)

pub advance_stuck : (e n : ClientEngine) → step plain e ≡ stuck n → advance plain e ≡ some n
unfolding advance
advance_stuck e n h = loop_stuck (suc (2 * length e.inbox)) e n h

pub advance_panicked : (e : ClientEngine) → step plain e ≡ panicked → advance plain e ≡ none
unfolding advance
advance_panicked e h = loop_panicked (suc (2 * length e.inbox)) e h

-- What `advance` shows of an engine: nothing is left to do, once more changes nothing, and the
-- loop was not cut short.
pub record IsSettled (x : Crates) (e e' : ClientEngine) : Type 0 where
  pub still : step x e' ≡ stuck e'
  pub again : advance x e' ≡ some e'
  pub uncut : (fuel : ℕ) → enough e ≤ fuel → advance_loop x fuel e ≡ some e'

advance-IsSettled-plain : (e e' : ClientEngine) → advance plain e ≡ some e' → IsSettled plain e e'
unfolding advance
advance-IsSettled-plain e e' h =
    let end = loop-end _ e e' (measure-lt-enough e) h in
    record {
      still = end;
      again = advance_stuck e' e' end;
      uncut = λ fuel more.
          loop_fuel fuel (enough e) e (omega (arith, measure-lt-enough e)) (measure-lt-enough e)
          ∙ h;
    }

-- The loop of `advance` ends by itself, whatever bytes have arrived: where it does not panic, the
-- engine that it leaves has no transition left, a second `advance` changes nothing, and more rounds
-- than the model's fuel allows would end in the same engine.
pub advance-IsSettled :
    (x : Crates) → Documented x → (e e' : ClientEngine) → advance x e ≡ some e' → IsSettled x e e'
advance-IsSettled =
    for_all_crates (λ x. (e e' : ClientEngine) → advance x e ≡ some e' → IsSettled x e e')
      advance-IsSettled-plain
