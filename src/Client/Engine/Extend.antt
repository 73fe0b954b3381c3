-- ===== src/Client/Engine/Extend.antt =====
-- Bytes that stand behind those that `advance` of crates/xeedee/src/client/engine.rs works on are
-- worked on as if they had come later.
use xeedee.Base.{
  ℕ, zero, suc, ◌-◌, ◌≤◌, ◌<◌, min, ◌≡◌, refl, sym, ap, ◌∙◌, inl, inr, false, some, [], ◌∷◌, ◌++◌,
  append-nil, append_assoc, arith, Bytes, leb, leb→le, leb_false→lt, take-min, drop-min, Bool-cases,
  length, take, drop, length-append, take_all, drop_all, take-append_le, drop-append_le,
  take-append_ge, drop-append_ge,
}
use mathlib.Core.Path.{ap₂}
use xeedee.Crates.{plain}
use xeedee.Client.Engine.{State, ClientEngine, step_binary, moved}
use xeedee.Client.Engine.Blind.{
  extend, on_head_blind, on_banner_blind, on_body_line_blind, with_head-IsBlind, step_line-IsBlind,
}
use xeedee.Client.Engine.Measure.{measure, step-measure}
use xeedee.Client.Engine.Ops.{is_deaf}
use xeedee.Client.Engine.Quiescence.{
  stuck_state, step_at, Progress-cases, advance_moved, advance_stuck, advance_panicked,
}
use xeedee.Client.Engine.Steps.{step_in, step, advance}

-- An engine in the middle of a binary body.
abbrev pub binary : Bytes → ClientEngine → ℕ → Bytes → Bytes → ClientEngine
binary head e remaining body inbox = record e {
  state = State.reading_binary head remaining body;
  inbox = inbox;
}

pub binary-eq :
    (head : Bytes) (e : ClientEngine) {r r' : ℕ} {body body' i i' : Bytes}
    → r ≡ r'
    → body ≡ body'
    → i ≡ i'
    → binary head e r body i ≡ binary head e r' body' i'
binary-eq head e p q s = λ k. binary head e (p k) (q k) (s k)

-- The engine after a chunk of a binary body.
abbrev pub filled : Bytes → ℕ → Bytes → Bytes → ClientEngine → ClientEngine
filled head r body i e = binary head e (suc r - length i) (body ++ take (suc r) i) (drop (suc r) i)

sub-min : (n k : ℕ) → n - min n k ≡ n - k
sub-min n k = omega arith

step_filled :
    (head : Bytes) (r : ℕ) (body : Bytes) (c : ℕ) (s : Bytes) (e : ClientEngine)
    → e.inbox ≡ c ∷ s
    → step_binary head (suc r) body e ≡ moved (filled head r body (c ∷ s) e)
unfolding step_binary
step_filled head r body c s e at =
    rw (at, step_binary)
      (ap moved (
        binary-eq head e (sub-min (suc r) (length (c ∷ s)))
          (ap (λ t. body ++ t) (take-min (suc r) (c ∷ s))) (drop-min (suc r) (c ∷ s))))

filled_enough :
    (head : Bytes) (r : ℕ) (body i b : Bytes) (e : ClientEngine)
    → suc r ≤ length i
    → filled head r body (i ++ b) e ≡ extend b (filled head r body i e)
filled_enough head r body i b e h =
    binary-eq head e (omega (arith, length-append i b))
      (ap (λ t. body ++ t) (take-append_le (suc r) i b h)) (drop-append_le (suc r) i b h)

filled_more :
    (head : Bytes) (r : ℕ) (body i b : Bytes) (e : ClientEngine)
    → length i ≤ r
    → filled head (r - length i) (body ++ take (suc r) i) b e ≡ filled head r body (i ++ b) e
filled_more head r body i b e h =
    let k : suc (r - length i) ≡ suc r - length i = omega arith in
    binary-eq head e (omega (arith, length-append i b))
      (append_assoc body (take (suc r) i) (take (suc (r - length i)) b)
        ∙ ap (λ t. body ++ t)
            (ap₂ (λ (u v : Bytes). u ++ v) (take_all (suc r) i (omega arith))
                (ap (λ (m : ℕ). take m b) k)
              ∙ sym (take-append_ge (suc r) i b (omega arith))))
      (ap (λ (m : ℕ). drop m b) k ∙ sym (drop-append_ge (suc r) i b (omega arith)))

pub advance-filled :
    (head : Bytes) (r : ℕ) (body : Bytes) (c : ℕ) (s : Bytes) (e : ClientEngine)
    → e.state ≡ State.reading_binary head (suc r) body
    → e.inbox ≡ c ∷ s
    → advance plain e ≡ advance plain (filled head r body (c ∷ s) e)
unfolding step_in
advance-filled head r body c s e at has =
    advance_moved e _
      (step_at e (State.reading_binary head (suc r) body) _ at (step_filled head r body c s e has))

module _ (b : Bytes) where
  binary_rest :
      (head : Bytes) (r : ℕ) (body i d : Bytes) (e : ClientEngine)
      → length i ≤ r
      → advance plain (filled head r body (i ++ d) e)
        ≡ advance plain (extend d (filled head r body i e))
  binary_rest head r body i [] e h = ap (advance plain) (
      ap (λ t. filled head r body t e) (append-nil i)
      ∙ binary-eq head e refl refl (sym (append-nil (drop (suc r) i))))
  binary_rest head r body i (c ∷ d) e h = sym (
      advance-filled head (r - length i) (body ++ take (suc r) i) c d
        (extend (c ∷ d) (filled head r body i e))
        (ap (λ (m : ℕ). State.reading_binary head m (body ++ take (suc r) i)) (omega arith))
        (ap (λ t. t ++ c ∷ d) (drop_all (suc r) i (omega arith)))
      ∙ ap (advance plain) (filled_more head r body i (c ∷ d) e h))

  binary_more :
      (head : Bytes) (r : ℕ) (body : Bytes) (e n : ClientEngine) (i : Bytes)
      → e.inbox ≡ i
      → e.state ≡ State.reading_binary head (suc r) body
      → step_binary head (suc r) body e ≡ moved n
      → advance plain (extend b e) ≡ advance plain (extend b n)
  binary_more head r body e n [] has at h = absurd (unfold step_binary in ground arith)
  binary_more head r body e n (c ∷ s) has at h =
      advance-filled head r body c (s ++ b) (extend b e) at (ap (λ t. t ++ b) has)
      ∙ elim (Bool-cases (leb (suc r) (length (c ∷ s)))) [
        | inl all ↦ ap (advance plain) (filled_enough head r body (c ∷ s) b e (leb→le _ _ all))
        | inr part ↦
            binary_rest head r body (c ∷ s) b e
              (omega (arith, leb_false→lt (suc r) (length (c ∷ s)) part))
      ]
      ∙ ap (λ k. advance plain (extend b k)) (cc (step_filled head r body c s e has))

  binary_extend :
      (head : Bytes) (r : ℕ) (body : Bytes) (e n : ClientEngine)
      → e.state ≡ State.reading_binary head r body
      → step_binary head r body e ≡ moved n
      → advance plain (extend b e) ≡ advance plain (extend b n)
  binary_extend head zero body e n at h = advance_moved (extend b e) (extend b n) (
      step_at (extend b e) (State.reading_binary head zero body) _ at
        (unfold step_in step_binary in ground arith))
  binary_extend head (suc r) body e n at h = binary_more head r body e n e.inbox refl at h

  step_in-extend :
      (s : State) (e n : ClientEngine)
      → e.state ≡ s
      → step_in plain s e ≡ moved n
      → advance plain (extend b e) ≡ advance plain (extend b n)
  unfolding step_in
  step_in-extend State.need_banner e n at h = advance_moved (extend b e) (extend b n) (
      step_at _ State.need_banner _ at
        ((step_line-IsBlind _ λ line. with_head-IsBlind _ _ λ head. on_banner_blind _).at b e n h))
  step_in-extend (State.awaiting_head expect) e n at h = advance_moved (extend b e) (extend b n) (
      step_at _ (State.awaiting_head expect) _ at (
        (step_line-IsBlind _ λ line. with_head-IsBlind _ _ λ head. on_head_blind expect _ _).at b e
          n h))
  step_in-extend (State.reading_multiline head lines) e n at h =
      advance_moved (extend b e) (extend b n) (
        step_at _ (State.reading_multiline head lines) _ at (
          (step_line-IsBlind _ λ line. record {
            at = λ c m m' p. ground (arith, on_body_line_blind head lines line c m);
          }).at
            b e n h))
  step_in-extend (State.reading_binary head r body) e n at h = binary_extend head r body e n at h
  step_in-extend _ e n at h = absurd (cc)

  step-extend :
      (e n : ClientEngine)
      → step plain e ≡ moved n
      → advance plain (extend b e) ≡ advance plain (extend b n)
  unfolding step
  step-extend e n h = step_in-extend e.state e n refl h

  pub advance-extend :
      (fuel : ℕ) (e e1 : ClientEngine)
      → measure e < fuel
      → advance plain e ≡ some e1
      → is_deaf e1.state ≡ false
      → advance plain (extend b e) ≡ advance plain (extend b e1)
  advance-extend zero e e1 m h live = absurd (omega arith)
  advance-extend (suc fuel) e e1 m h live = elim (Progress-cases (step plain e)) [
    | inl (n, eq) ↦
        step-extend e n eq
        ∙ advance-extend fuel n e1 (omega (arith, step-measure e n eq))
            (sym (advance_moved e n eq) ∙ h) live
    | inr (inl (n, eq)) ↦ elim (stuck_state e n eq) [
      | inl same ↦ ap (λ k. advance plain (extend b k)) (cc (advance_stuck e n eq))
      | inr failed ↦ absurd (unfold is_deaf in ground (arith, advance_stuck e n eq))
    ]
    | inr (inr eq) ↦ absurd (cc (advance_panicked e eq))
  ]
