-- ===== src/Discovery/Engine/Sends.antt =====
-- How often the discovery engine sends, and what (crates/xeedee/src/discovery/engine.rs).
use xeedee.Base.{
  ℕ, zero, suc, ◌+◌, ◌-◌, ◌≤◌, ◌<◌, ◌≡◌, refl, sym, ap, ◌∙◌, subst, true, Option, none, some, List,
  [], ◌∷◌, arith, Bytes, ok, ltb, if◌then◌else◌, length, All, length-append, All-append,
}
use xeedee.Crates.{Crates}
use xeedee.Discovery.Wire.{NapRequest, encode_request}
use xeedee.Discovery.Engine.{
  SocketAddr, DiscoveryAction, DiscoveryConfig, DiscoveryFilter, Discovery, new, new-fresh, fresh,
  poll, accept, handle_inbound, total_sends, is_due,
}
use xeedee.Discovery.Engine.Runs.{
  after_send, Polled, ends, sends, waits, poll-Polled, Event, Run, polled, inbound, started, happen,
  note_action, run,
}

-- A send is scheduled only while sends are left.
abbrev pub IsArmed : Option ℕ → ℕ → Type 0
IsArmed none n = Unit
IsArmed (some _) n = 0 < n

-- The part of the machine that sends.
pub record Sending : Type 0 where
  pub at : Option ℕ
  pub left : ℕ
  pub to : SocketAddr
  pub packet : Bytes

abbrev pub sending : Discovery → Sending
sending d = record {
  at = d.next_send_at;
  left = d.sends_left;
  to = d.destination;
  packet = d.encoded_request;
}

accept-sending :
    (src : SocketAddr) (name : Bytes) (d : Discovery) → sending (accept src name d) ≡ sending d
unfolding accept
accept-sending src name d = ground arith

-- A datagram received changes nothing of it.
pub handle_inbound-sending :
    (x : Crates) (src : SocketAddr) (payload : Bytes) (d : Discovery)
    → sending (handle_inbound x src payload d) ≡ sending d
unfolding handle_inbound accept
handle_inbound-sending x src payload d = ground arith

-- The sends made and left are those of the configuration, each of the one packet to the one place.
pub record KeepsCount (to : SocketAddr) (packet : Bytes) (total : ℕ)
    (sent : List (SocketAddr × Bytes)) (s : Sending) : Type 0 where
  pub counted : length sent + s.left ≡ total
  pub armed : IsArmed s.at s.left
  pub to_there : s.to ≡ to
  pub same_packet : s.packet ≡ packet
  pub all_sent : All (λ p. p ≡ (to, packet)) sent

pub due_left : (at : Option ℕ) (n now : ℕ) → IsArmed at n → is_due at now ≡ true → 0 < n
due_left none n now h due = absurd (cc)
due_left (some _) n now h due = h

pub rearmed : (n t : ℕ) → IsArmed (if ltb 0 n then some t else none) n
rearmed zero t = tt
rearmed (suc n) t = ground arith

module _ (x : Crates) (to : SocketAddr) (packet : Bytes) (total : ℕ) where
  abbrev Counts : Run → Type 0
  Counts r = KeepsCount to packet total r.sent (sending r.machine)

  poll-Counts :
      (now : ℕ) (r : Run) (p : DiscoveryAction × Discovery)
      → Polled now r.machine p
      → Counts r
      → Counts (note_action p r)
  unfolding note_action
  poll-Counts now r p (ends over) h = h
  poll-Counts now r p (waits going early) h = h
  poll-Counts now r p (sends going due) h = record {
    counted = omega (
      arith,
      h.counted,
      some_left,
      length-append r.sent ((r.machine.destination, r.machine.encoded_request) ∷ []),
    );
    armed = still_armed;
    to_there = h.to_there;
    same_packet = h.same_packet;
    all_sent =
        All-append (λ q. q ≡ (to, packet)) r.sent _ h.all_sent
          (
            ap (λ a. (a, r.machine.encoded_request)) h.to_there ∙ ap (λ b. (to, b)) h.same_packet,
            tt,
          );
  }
    where
      some_left : 0 < r.machine.sends_left
      some_left = due_left r.machine.next_send_at r.machine.sends_left now h.armed due

      still_armed :
          IsArmed (after_send now r.machine).next_send_at (after_send now r.machine).sends_left
      still_armed = rearmed (r.machine.sends_left - 1) (now + r.machine.retransmit_interval)

  happen-Counts : (e : Event) (r : Run) → Counts r → Counts (happen x e r)
  unfolding happen
  happen-Counts (polled now) r h =
      poll-Counts now r (poll now r.machine) (poll-Polled now r.machine) h
  happen-Counts (inbound src payload) r h =
      subst (KeepsCount to packet total r.sent)
        (sym (handle_inbound-sending x src payload r.machine)) h

  run-Counts : (events : List Event) (r : Run) → Counts r → Counts (run x events r)
  unfolding run
  run-Counts [] r h = h
  run-Counts (e ∷ events) r h = run-Counts events (happen x e r) (happen-Counts e r h)

-- In every run of a new machine, whatever the caller polls and hands over, it asks for at most one
-- send more than the retransmits of the configuration, and each sends the encoded request to the
-- destination of the configuration.
pub run-sends :
    (x : Crates) (request : NapRequest) (config : DiscoveryConfig) (filter : DiscoveryFilter)
    (start : ℕ) (d : Discovery) (events : List Event)
    → new request config filter start ≡ ok d
    → (packet : Bytes) × (encode_request request ≡ ok packet)
      × (length (run x events (started d)).sent ≤ suc config.retransmits)
      × All (λ s. s ≡ (config.destination, packet)) (run x events (started d)).sent
run-sends x request config filter start d events h =
    let (packet, encodes, same) = new-fresh request config filter start d h in
    let ended : KeepsCount config.destination packet (total_sends config)
        (run x events (started d)).sent (sending (run x events (started d)).machine) =
      subst
        (λ m.
          KeepsCount config.destination packet (total_sends config) (run x events (started m)).sent
            (sending (run x events (started m)).machine))
        (sym same) (fresh_run packet) in
    (packet, encodes, omega (arith, ended.counted), ended.all_sent)
  where
    fresh_run :
        (packet : Bytes)
        → KeepsCount config.destination packet
            (total_sends config)
            (run x events (started (fresh packet config filter start))).sent
            (sending (run x events (started (fresh packet config filter start))).machine)
    fresh_run packet =
        run-Counts x config.destination packet (total_sends config) events
          (started (fresh packet config filter start))
          (record {
            counted = omega arith;
            armed = rearmed (total_sends config) start;
            to_there = refl;
            same_packet = refl;
            all_sent = tt;
          })
