-- ===== src/Client/Engine/Chunks.antt =====
-- How the received bytes are cut into chunks makes no difference to the engine of
-- crates/xeedee/src/client/engine.rs.
use xeedee.Base.{
  suc, ◌≡◌, refl, sym, ap, ◌∙◌, inl, inr, true, false, Option, none, some, List, [], ◌∷◌, ◌++◌,
  append-nil, append_assoc, arith, Bytes, Bool-cases,
}
use xeedee.Base.Options.{◌>>=◌}
use xeedee.Client.Engine.{ClientEngine}
use xeedee.Client.Engine.Blind.{extend}
use xeedee.Client.Engine.Extend.{advance-extend}
use xeedee.Client.Engine.Measure.{measure}
use xeedee.Client.Engine.Ops.{is_deaf, recv}
use xeedee.Client.Engine.Steps.{advance}
use xeedee.Crates.{Crates, plain, Documented, for_all_crates}

pub recv_hears :
    (a : Bytes) (e : ClientEngine)
    → is_deaf e.state ≡ false
    → recv plain a e ≡ advance plain (extend a e)
unfolding recv
recv_hears a e h = rw (h, recv) refl

pub recv_deaf : (a : Bytes) (e : ClientEngine) → is_deaf e.state ≡ true → recv plain a e ≡ some e
unfolding recv
recv_deaf a e h = rw (h, recv)

deaf_before :
    (a : Bytes) (e e1 : ClientEngine)
    → recv plain a e ≡ some e1
    → is_deaf e1.state ≡ false
    → is_deaf e.state ≡ false
deaf_before a e e1 h live = elim (Bool-cases (is_deaf e.state)) [
  | inl deaf ↦ absurd (ground (arith, recv_deaf a e deaf))
  | inr hears ↦ hears
]

recv-append :
    (a b : Bytes) (e e1 : ClientEngine)
    → recv plain a e ≡ some e1
    → is_deaf e1.state ≡ false
    → recv plain (a ++ b) e ≡ recv plain b e1
recv-append a b e e1 h live =
    let hears = deaf_before a e e1 h live in
    recv_hears (a ++ b) e hears
    ∙ ap (λ i. advance plain (record e { inbox = i })) (sym (append_assoc e.inbox a b))
    ∙ advance-extend b (suc (measure (extend a e))) (extend a e) e1 (omega arith)
        (sym (recv_hears a e hears) ∙ h) live
    ∙ sym (recv_hears b e1 live)

-- A peer whose bytes arrive in chunks.
abbrev pub recv_all : Crates → List Bytes → ClientEngine → Option ClientEngine
recv_all x [] e = some e
recv_all x (c ∷ chunks) e = do e' ← recv x c e; recv_all x chunks e'

abbrev pub join : List Bytes → Bytes
join [] = []
join (c ∷ chunks) = c ++ join chunks

>>=-eq-some :
    (o : Option ClientEngine) (f : ClientEngine → Option ClientEngine) {b : ClientEngine}
    → (o >>= f) ≡ some b
    → (a : ClientEngine) × (o ≡ some a) × (f a ≡ some b)
>>=-eq-some none f h = absurd (cc)
>>=-eq-some (some a) f h = (a, refl, h)

recv-join-plain :
    (c : Bytes) (chunks : List Bytes) (e e1 : ClientEngine)
    → recv_all plain (c ∷ chunks) e ≡ some e1
    → is_deaf e1.state ≡ false
    → recv plain (join (c ∷ chunks)) e ≡ some e1
recv-join-plain c [] e e1 h live =
    let (m, first, last) = >>=-eq-some (recv plain c e) some h in
    ap (λ s. recv plain s e) (append-nil c) ∙ first ∙ last
recv-join-plain c (d ∷ chunks) e e1 h live =
    let (m, first, last) = >>=-eq-some (recv plain c e) (recv_all plain (d ∷ chunks)) h in
    let later = recv-join-plain d chunks m e1 last live in
    recv-append c (join (d ∷ chunks)) e m first (deaf_before (join (d ∷ chunks)) m e1 later live)
    ∙ later

-- Chunks of received bytes that leave the engine able to receive more leave it exactly as their
-- concatenation, received at once, would: same state, events, queued input and output.
pub recv-join :
    (x : Crates)
    → Documented x
    → (c : Bytes) (chunks : List Bytes) (e e1 : ClientEngine) → recv_all x (c ∷ chunks) e ≡ some e1
    → is_deaf e1.state ≡ false
    → recv x (join (c ∷ chunks)) e ≡ some e1
recv-join =
    for_all_crates
      (λ x.
        (c : Bytes) (chunks : List Bytes) (e e1 : ClientEngine)
        → recv_all x (c ∷ chunks) e ≡ some e1
        → is_deaf e1.state ≡ false
        → recv x (join (c ∷ chunks)) e ≡ some e1)
      recv-join-plain
