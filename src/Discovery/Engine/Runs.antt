-- ===== src/Discovery/Engine/Runs.antt =====
-- Runs of the discovery engine (crates/xeedee/src/discovery/engine.rs): what its caller does to it
-- in turn, the datagrams it asked for and the consoles it reported.
use xeedee.Base.{
  ℕ, ◌+◌, ◌-◌, ◌≡◌, refl, inl, inr, Bool, true, false, ◌||◌, none, some, List, [], ◌∷◌, ◌++◌, Bytes,
  Result, ok, err, ltb, leb, if◌then◌else◌, Bool-cases, any,
}
use xeedee.Crates.{Crates}
use xeedee.Discovery.Wire.{NapError, NapResponse, parse_response}
use xeedee.Discovery.Engine
use xeedee.Discovery.Engine.{
  SocketAddr, DiscoveredConsole, DiscoveryAction, DiscoveryConfig, DiscoveryFilter, Discovery, poll,
  accept, keeps, stops, addr_eq, handle_inbound, is_due, until,
}

pub data Event : Type 0 where
  polled : ℕ → Event
  inbound : SocketAddr → Bytes → Event

pub record Run : Type 0 where
  pub sent : List (SocketAddr × Bytes)
  pub reported : List DiscoveredConsole
  pub machine : Discovery

abbrev pub started : Discovery → Run
started d = record { sent = []; reported = []; machine = d }

unfoldable pub note_action : DiscoveryAction × Discovery → Run → Run
note_action (Engine.send_datagram dest payload, d) r = record r {
  sent = r.sent ++ (dest, payload) ∷ [];
  machine = d;
}
note_action (Engine.wait _, d) r = record r { machine = d }
note_action (Engine.done consoles, d) r = record r {
  reported = r.reported ++ consoles;
  machine = d;
}

unfoldable pub happen : Crates → Event → Run → Run
unfolding note_action poll handle_inbound
happen x (polled now) r = note_action (poll now r.machine) r
happen x (inbound src payload) r = record r { machine = handle_inbound x src payload r.machine }

unfoldable pub run : Crates → List Event → Run → Run
unfolding happen
run x [] r = r
run x (e ∷ events) r = run x events (happen x e r)

-- The machine after a send.
abbrev pub after_send : ℕ → Discovery → Discovery
after_send now d = record d {
  sends_left = d.sends_left - 1;
  next_send_at = if ltb 0 (d.sends_left - 1) then some (now + d.retransmit_interval) else none;
}

abbrev pub is_over : ℕ → Discovery → Bool
is_over now d = d.completed || leb d.deadline now

-- The three things that `poll` does.
pub data Polled (now : ℕ) (d : Discovery) : DiscoveryAction × Discovery → Type 0 where
  ends :
      (is_over now d ≡ true) → Polled now d (Engine.done d.discovered, record d { discovered = [] })
  sends :
      (is_over now d ≡ false)
      → (is_due d.next_send_at now ≡ true)
      → Polled now d (Engine.send_datagram d.destination d.encoded_request, after_send now d)
  waits :
      (is_over now d ≡ false)
      → (is_due d.next_send_at now ≡ false)
      → Polled now d (Engine.wait (until d), d)

pub poll-Polled : (now : ℕ) (d : Discovery) → Polled now d (poll now d)
unfolding poll
poll-Polled now d = elim (Bool-cases (is_over now d)) [
  | inl over ↦ rw (over, poll) (ends over)
  | inr going ↦ elim (Bool-cases (is_due d.next_send_at now)) [
    | inl due ↦ rw (going, poll) (rw (due) (sends going due))
    | inr early ↦ rw (going, poll) (rw (early) (waits going early))
  ]
]

-- The machine with an address more among those seen.
abbrev pub note : SocketAddr → Discovery → Discovery
note src d = record d { seen = src ∷ d.seen }

-- The things that `handle_inbound` does.
pub data Handled (x : Crates) (src : SocketAddr) (payload : Bytes) (d : Discovery)
    : Discovery → Type 0 where
  echoes : Handled x src payload d d
  drops : (any (addr_eq src) d.seen ≡ false) → Handled x src payload d (note src d)
  takes :
      (name : Bytes)
      → (any (addr_eq src) d.seen ≡ false)
      → (parse_response x payload ≡ ok (record { name = name }))
      → (keeps d.filter name ≡ true)
      → Handled x src payload d (record d {
        seen = src ∷ d.seen;
        completed = d.completed || stops d.filter;
        discovered = d.discovered ++ record { name = name; addr = src } ∷ [];
      })

parsed-Handled :
    (x : Crates) (src : SocketAddr) (payload : Bytes) (d : Discovery)
    (p : Result NapError NapResponse)
    → any (addr_eq src) d.seen ≡ false
    → parse_response x payload ≡ p
    → Handled x src payload d
        (elim p [ err _ ↦ note src d | ok reply ↦ accept src reply.name (note src d) ])
unfolding accept
parsed-Handled x src payload d (err e) h k = drops h
parsed-Handled x src payload d (ok reply) h k = elim (Bool-cases (keeps d.filter reply.name)) [
  | inl kept ↦ rw (kept, accept) (takes reply.name h k kept)
  | inr other ↦ rw (other, accept) (drops h)
]

pub handle_inbound-Handled :
    (x : Crates) (src : SocketAddr) (payload : Bytes) (d : Discovery)
    → Handled x src payload d (handle_inbound x src payload d)
unfolding handle_inbound
handle_inbound-Handled x src payload d = elim (Bool-cases (any (addr_eq src) d.seen)) [
  | inl old ↦ rw (old, handle_inbound) echoes
  | inr fresh_one ↦
      rw (fresh_one, handle_inbound)
        (parsed-Handled x src payload d (parse_response x payload) fresh_one refl)
]
