-- ===== src/Discovery/Engine.antt =====
-- The discovery state machine: crates/xeedee/src/discovery/engine.rs. Instants and durations are
-- counts of the clock; the set of seen addresses is a list.
pub mod Runs
pub mod Sends
pub mod Consoles
use xeedee.Base.{
  ℕ, zero, suc, ◌+◌, ◌-◌, ◌*◌, ◌/◌, ◌%◌, ◌^◌, ◌≤◌, ◌<◌, min, String, ◌≡◌, refl, sym, ap, ◌∙◌, subst,
  fun_ext, ◌≢◌, ◌↔◌, ◌⊎◌, inl, inr, Bool, true, false, ◌&&◌, ◌||◌, not, Option, none, some, List,
  [], ◌∷◌, ◌++◌, map, append-nil, append_assoc, arith, Bytes, codes, bytes_eq, bytes_eq_refl,
  bytes_eq_sound, Result, ok, err, ok_or, map_err, ltb, leb, ◌==◌, if◌then◌else◌, ltb→lt, lt→ltb,
  leb→le, le→leb, leb_false→lt, ltb_false→le, take-min, drop-min, ==_iff, ==_refl, Bool-cases,
  Option-cases, length, take, drop, get_elem?, any, All, length-append, length-take, length-drop,
  take-append-drop, take_all, drop_all, take_left, drop_left, take-append_le, drop-append_le,
  take-append_ge, drop-append_ge, All-append,
}
use xeedee.Crates.{Crates}
use xeedee.Discovery.Wire
use xeedee.Discovery.Wire.{
  NapError, NapRequest, NapResponse, encode_request, lookup_request, what_is_your_name,
  parse_response, nap_port,
}
use xeedee.Text.Number.{max_u32}

pub data IpAddr : Type 0 where
  v4 v6 : ℕ → IpAddr

-- An IPv6 address has a flow label and a scope, which are 0 for IPv4.
pub record SocketAddr : Type 0 where
  pub ip : IpAddr
  pub port : ℕ
  pub flow : ℕ
  pub scope : ℕ

unfoldable pub ip_eq : IpAddr → IpAddr → Bool
ip_eq (v4 a) (v4 b) = a == b
ip_eq (v6 a) (v6 b) = a == b
ip_eq _ _ = false

unfoldable pub addr_eq : SocketAddr → SocketAddr → Bool
unfolding ip_eq
addr_eq a b = ip_eq a.ip b.ip && (a.port == b.port) && (a.flow == b.flow) && (a.scope == b.scope)

pub record DiscoveredConsole : Type 0 where
  pub name : Bytes
  pub addr : SocketAddr

pub record DiscoveryConfig : Type 0 where
  pub destination : SocketAddr
  pub listen_for : ℕ
  pub retransmits : ℕ
  pub retransmit_interval : ℕ
  pub broadcast : Bool

-- `Duration::from_millis`, in nanoseconds
abbrev pub from_millis : ℕ → ℕ
from_millis ms = ms * 1_000_000

unfoldable pub config_broadcast : DiscoveryConfig
config_broadcast = record {
  destination = record { ip = v4 0xffff_ffff; port = nap_port; flow = 0; scope = 0 };
  listen_for = from_millis 1500;
  retransmits = 3;
  retransmit_interval = from_millis 400;
  broadcast = true;
}

unfoldable pub config_unicast : SocketAddr → DiscoveryConfig
config_unicast target = record {
  destination = target;
  listen_for = from_millis 500;
  retransmits = 0;
  retransmit_interval = from_millis 0;
  broadcast = false;
}

pub data DiscoveryAction : Type 0 where
  send_datagram : SocketAddr → Bytes → DiscoveryAction
  wait : ℕ → DiscoveryAction
  done : List DiscoveredConsole → DiscoveryAction

pub data DiscoveryFilter : Type 0 where
  keep_all : DiscoveryFilter
  stop_on_name : Bytes → DiscoveryFilter

pub record Discovery : Type 0 where
  pub encoded_request : Bytes
  pub destination : SocketAddr
  pub deadline : ℕ
  pub next_send_at : Option ℕ
  pub sends_left : ℕ
  pub retransmit_interval : ℕ
  pub seen : List SocketAddr
  pub discovered : List DiscoveredConsole
  pub filter : DiscoveryFilter
  pub completed : Bool

-- `retransmits.saturating_add(1)`
abbrev pub total_sends : DiscoveryConfig → ℕ
total_sends config = min (suc config.retransmits) max_u32

-- The machine of an encoded request.
abbrev pub fresh : Bytes → DiscoveryConfig → DiscoveryFilter → ℕ → Discovery
fresh encoded config filter start = record {
  encoded_request = encoded;
  destination = config.destination;
  deadline = start + config.listen_for;
  next_send_at = if ltb 0 (total_sends config) then some start else none;
  sends_left = total_sends config;
  retransmit_interval = config.retransmit_interval;
  seen = [];
  discovered = [];
  filter = filter;
  completed = false;
}

unfoldable pub new : NapRequest → DiscoveryConfig → DiscoveryFilter → ℕ → Result NapError Discovery
unfolding encode_request
new request config filter start = elim (encode_request request) [
  | err e ↦ err e
  | ok encoded ↦ ok (fresh encoded config filter start)
]

-- `none` is the panic of `expect`.
unfoldable pub broadcast_run : DiscoveryConfig → ℕ → Option Discovery
unfolding new what_is_your_name
broadcast_run config start = elim (new what_is_your_name config keep_all start) [
  | ok d ↦ some d
  | err _ ↦ none
]

unfoldable pub lookup : Bytes → DiscoveryConfig → ℕ → Result NapError Discovery
unfolding new lookup_request
lookup name config start = new (lookup_request name) config (stop_on_name name) start

abbrev pub is_due : Option ℕ → ℕ → Bool
is_due none now = false
is_due (some at) now = leb at now

abbrev pub until : Discovery → ℕ
until d = elim d.next_send_at [ some t ↦ min d.deadline t | none ↦ d.deadline ]

unfoldable pub poll : ℕ → Discovery → DiscoveryAction × Discovery
poll now d =
    if d.completed || leb d.deadline now
    then (done d.discovered, record d { discovered = [] })
    else if is_due d.next_send_at now
    then (
      send_datagram d.destination d.encoded_request,
      record d {
        sends_left = d.sends_left - 1;
        next_send_at =
            if ltb 0 (d.sends_left - 1) then some (now + d.retransmit_interval) else none;
      },
    )
    else (wait (until d), d)

-- `&console.name == name`, whether the filter keeps a reply
unfoldable pub keeps : DiscoveryFilter → Bytes → Bool
keeps keep_all name = true
keeps (stop_on_name wanted) name = bytes_eq name wanted

unfoldable pub stops : DiscoveryFilter → Bool
stops keep_all = false
stops (stop_on_name _) = true

-- The rest of the handler, for a reply that parses.
unfoldable pub accept : SocketAddr → Bytes → Discovery → Discovery
unfolding keeps stops
accept src name d =
    if keeps d.filter name
    then record d {
      completed = d.completed || stops d.filter;
      discovered = d.discovered ++ record { name = name; addr = src } ∷ [];
    }
    else d

unfoldable pub handle_inbound : Crates → SocketAddr → Bytes → Discovery → Discovery
unfolding accept addr_eq
handle_inbound x src payload d =
    if any (addr_eq src) d.seen then d else elim (parse_response x payload) [
      | err _ ↦ record d { seen = src ∷ d.seen }
      | ok reply ↦ accept src reply.name (record d { seen = src ∷ d.seen })
    ]

-- A machine is the fresh one of the encoded request.
pub new-fresh :
    (request : NapRequest) (config : DiscoveryConfig) (filter : DiscoveryFilter) (start : ℕ)
    (d : Discovery)
    → new request config filter start ≡ ok d
    → (encoded : Bytes) × (encode_request request ≡ ok encoded)
      × (d ≡ fresh encoded config filter start)
unfolding new
new-fresh request config filter start d h = go (encode_request request) refl h
  where
    go :
        (e : Result NapError Bytes)
        → encode_request request ≡ e
        → (elim e [ err e ↦ err e | ok encoded ↦ ok (fresh encoded config filter start) ]) ≡ ok d
        → (encoded : Bytes) × (encode_request request ≡ ok encoded)
          × (d ≡ fresh encoded config filter start)
    go (err e) k h = absurd (cc)
    go (ok encoded) k h = (encoded, k, cc)
