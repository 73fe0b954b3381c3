-- ===== src/Discovery/Runner.antt =====
-- The loop that drives the discovery engine: `drive` of crates/xeedee/src/discovery/runner.rs. The
-- network is the list of what the socket will receive and when; binding the socket is left out.
use xeedee.Base.{
  ℕ, zero, suc, ◌+◌, ◌-◌, ◌*◌, ◌≤◌, min, max, ◌≡◌, refl, sym, ap, subst, ◌⊎◌, inl, inr, true, false,
  Option, none, some, List, [], ◌∷◌, arith, Bytes, ok, ltb, Bool-cases, length, take,
}
use xeedee.Crates.{Crates}
use xeedee.Discovery.Wire.{NapRequest}
use xeedee.Discovery.Engine
use xeedee.Discovery.Engine.{
  DiscoveryConfig, DiscoveryFilter, new, new-fresh, fresh, total_sends, SocketAddr, DiscoveryAction,
  DiscoveredConsole, Discovery, poll, handle_inbound, is_due, until,
}
use xeedee.Discovery.Engine.Runs.{after_send, Polled, ends, sends, waits, poll-Polled, is_over}
use xeedee.Discovery.Engine.Sends.{
  IsArmed, due_left, rearmed, Sending, sending, handle_inbound-sending,
}

-- When the socket has something, and a datagram or an error of `recv_from`.
abbrev pub Arrival : Type 0
Arrival = ℕ × Option (SocketAddr × Bytes)

abbrev Next : Type 0
Next = ℕ → List Arrival → Discovery → Option (List DiscoveredConsole)

-- The buffer of `recv_from` cuts a datagram at 1024 bytes.
unfoldable pub receive : Crates → Option (SocketAddr × Bytes) → Discovery → Discovery
unfolding handle_inbound
receive x none d = d
receive x (some (src, payload)) d = handle_inbound x src (take 1024 payload) d

-- `timeout_at(until, recv_from)`
unfoldable pub sleep :
    Crates → Next → ℕ → ℕ → List Arrival → Discovery → Option (List DiscoveredConsole)
unfolding receive
sleep x next now t [] d = next t [] d
sleep x next now t ((at, got) ∷ more) d = elim (ltb at t) [
  | true ↦ next (max now at) more (receive x got d)
  | false ↦ next t ((at, got) ∷ more) d
]

unfoldable pub act_on :
    Crates → Next → ℕ → List Arrival → DiscoveryAction × Discovery → Option (List DiscoveredConsole)
unfolding sleep
act_on x next now arrivals (Engine.done consoles, d) = some consoles
act_on x next now arrivals (Engine.send_datagram _ _, d) = next now arrivals d
act_on x next now arrivals (Engine.wait t, d) = sleep x next now t arrivals d

-- `lag` is the time that passes before each round reads the clock.
unfoldable pub drive : Crates → (ℕ → ℕ) → ℕ → Next
unfolding act_on poll
drive x lag zero now arrivals d = none
drive x lag (suc fuel) now arrivals d =
    act_on x (drive x lag fuel) (now + lag fuel) arrivals (poll (now + lag fuel) d)

-- The deadline or the next send is at hand.
Soon : ℕ → Discovery → Type 0
Soon now d = (d.deadline ≤ now) ⊎ (is_due d.next_send_at now ≡ true)

due_later :
    (at : Option ℕ) (now later : ℕ) → now ≤ later → is_due at now ≡ true → is_due at later ≡ true
due_later at now later h k = ground arith

Soon-later : (now later : ℕ) (d : Discovery) → now ≤ later → Soon now d → Soon later d
unfolding Soon
Soon-later now later d h (inl past) = inl (omega arith)
Soon-later now later d h (inr due) = inr (due_later d.next_send_at now later h due)

-- Whoever sleeps until the given instant has something to do then.
until-Soon : (d : Discovery) → Soon (until d) d
unfolding Soon
until-Soon d = soon_at d.deadline d.next_send_at
  where
    soon_at :
        (deadline : ℕ) (at : Option ℕ)
        → (deadline ≤ elim at [ some t ↦ min deadline t | none ↦ deadline ])
          ⊎ (is_due at (elim at [ some t ↦ min deadline t | none ↦ deadline ]) ≡ true)
    soon_at deadline none = inl (omega arith)
    soon_at deadline (some t) = ground arith

-- One that has something to do does not wait.
Soon-busy :
    (now : ℕ) (d : Discovery)
    → is_over now d ≡ false
    → is_due d.next_send_at now ≡ false
    → Soon now d
    → ⊥
unfolding Soon
Soon-busy now d going early (inl past) = ground arith
Soon-busy now d going early (inr due) = ground arith

-- The rounds that are left at most: two for a send, one for an arrival, one to wait for the end.
Enough : ℕ → ℕ → List Arrival → Discovery → Type 0
Enough fuel now arrivals d =
    (2 * d.sends_left + 2 + length arrivals ≤ fuel)
    ⊎ (Soon now d × (2 * d.sends_left + 1 + length arrivals ≤ fuel))

nothing_left : (now : ℕ) (arrivals : List Arrival) (d : Discovery) → Enough 0 now arrivals d → ⊥
unfolding Enough
nothing_left now arrivals d (inl h) = omega arith
nothing_left now arrivals d (inr (_, h)) = omega arith

Enough-later :
    (fuel now later : ℕ) (arrivals : List Arrival) (d : Discovery)
    → now ≤ later
    → Enough fuel now arrivals d
    → Enough fuel later arrivals d
unfolding Enough
Enough-later fuel now later arrivals d le (inl h) = inl h
Enough-later fuel now later arrivals d le (inr (soon, h)) = inr (Soon-later now later d le soon, h)

abbrev Ends : Option (List DiscoveredConsole) → Type 0
Ends result = (consoles : List DiscoveredConsole) × (result ≡ some consoles)

receive-sending :
    (x : Crates) (got : Option (SocketAddr × Bytes)) (d : Discovery)
    → sending (receive x got d) ≡ sending d
unfolding receive
receive-sending x none d = refl
receive-sending x (some (src, payload)) d = handle_inbound-sending x src (take 1024 payload) d

module _ (x : Crates) (next : Next) (fuel : ℕ)
    (ends_next : (now : ℕ) (arrivals : List Arrival) (d : Discovery)
      → IsArmed d.next_send_at d.sends_left
      → Enough fuel now arrivals d
      → Ends (next now arrivals d)) where
  sleep-Ends :
      (now : ℕ) (arrivals : List Arrival) (d : Discovery)
      → IsArmed d.next_send_at d.sends_left
      → 2 * d.sends_left + 2 + length arrivals ≤ suc fuel
      → Ends (sleep x next now (until d) arrivals d)
  unfolding sleep Enough
  sleep-Ends now [] d armed h = ends_next (until d) [] d armed (inr (until-Soon d, omega arith))
  sleep-Ends now ((at, got) ∷ more) d armed h = elim (Bool-cases (ltb at (until d))) [
    | inl first ↦
        rw (first, sleep)
          (ends_next (max now at) more (receive x got d)
            (subst (λ (s : Sending). IsArmed s.at s.left) (sym (receive-sending x got d)) armed)
            (inl (
              subst (λ (s : Sending). 2 * s.left + 2 + length more ≤ fuel)
                (sym (receive-sending x got d)) (omega arith))))
    | inr last ↦
        rw (last, sleep)
          (ends_next (until d) ((at, got) ∷ more) d armed (inr (until-Soon d, omega arith)))
  ]

  act-Ends :
      (now : ℕ) (arrivals : List Arrival) (d : Discovery) (p : DiscoveryAction × Discovery)
      → Polled now d p
      → IsArmed d.next_send_at d.sends_left
      → Enough (suc fuel) now arrivals d
      → Ends (act_on x next now arrivals p)
  unfolding act_on Enough
  act-Ends now arrivals d p (ends over) armed h = (d.discovered, refl)
  act-Ends now arrivals d p (sends going due) armed h =
      ends_next now arrivals (after_send now d)
        (rearmed (d.sends_left - 1) (now + d.retransmit_interval))
        (inl (omega (arith, due_left d.next_send_at d.sends_left now armed due, h)))
  act-Ends now arrivals d p (waits going early) armed (inl h) = sleep-Ends now arrivals d armed h
  act-Ends now arrivals d p (waits going early) armed (inr (soon, h)) =
      absurd (Soon-busy now d going early soon)

drive-Ends :
    (x : Crates) (lag : ℕ → ℕ) (fuel now : ℕ) (arrivals : List Arrival) (d : Discovery)
    → IsArmed d.next_send_at d.sends_left
    → Enough fuel now arrivals d
    → Ends (drive x lag fuel now arrivals d)
unfolding drive
drive-Ends x lag zero now arrivals d armed h = absurd (nothing_left now arrivals d h)
drive-Ends x lag (suc fuel) now arrivals d armed h =
    act-Ends x (drive x lag fuel) fuel (drive-Ends x lag fuel) (now + lag fuel) arrivals d
      (poll (now + lag fuel) d) (poll-Polled (now + lag fuel) d) armed
      (Enough-later (suc fuel) now (now + lag fuel) arrivals d (omega arith) h)

-- The loop ends and returns consoles, whatever the clock does between its rounds and whatever the
-- socket receives, in two rounds for each send that is configured, one for each arrival and two more.
pub drive-new :
    (x : Crates) (request : NapRequest) (config : DiscoveryConfig) (filter : DiscoveryFilter)
    (start : ℕ) (d : Discovery) (lag : ℕ → ℕ) (now : ℕ) (arrivals : List Arrival) (fuel : ℕ)
    → new request config filter start ≡ ok d
    → 2 * total_sends config + 2 + length arrivals ≤ fuel
    → (consoles : List DiscoveredConsole) × (drive x lag fuel now arrivals d ≡ some consoles)
unfolding Enough
drive-new x request config filter start d lag now arrivals fuel h enough =
    let (packet, encodes, same) = new-fresh request config filter start d h in
    let armed : IsArmed d.next_send_at d.sends_left =
      subst (λ (m : Discovery). IsArmed m.next_send_at m.sends_left) (sym same)
        (rearmed (total_sends config) start) in
    let left : d.sends_left ≡ total_sends config = ap (λ (m : Discovery). m.sends_left) same in
    drive-Ends x lag fuel now arrivals d armed (inl (omega arith))
