-- ===== src/Discovery/Engine/Consoles.antt =====
-- Which consoles the discovery engine reports (crates/xeedee/src/discovery/engine.rs).
use xeedee.Base.{
  ℕ, ◌≡◌, refl, sym, ap, ◌∙◌, subst, ◌≢◌, Bool, true, false, ◌||◌, List, [], ◌∷◌, ◌++◌, append-nil,
  append_assoc, arith, Bytes, ok, ==_refl, any, All, All-append,
}
use xeedee.Crates.{Crates}
use xeedee.Discovery.Wire.{NapRequest, parse_response}
use xeedee.Discovery.Engine
use xeedee.Discovery.Engine.{
  IpAddr, ip_eq, SocketAddr, DiscoveredConsole, DiscoveryAction, DiscoveryConfig, DiscoveryFilter,
  Discovery, new, new-fresh, fresh, poll, accept, handle_inbound, keeps, stops, addr_eq,
}
use xeedee.Discovery.Engine.Runs.{
  Polled, ends, sends, waits, poll-Polled, Event, Run, polled, inbound, started, happen,
  note_action, run, Handled, echoes, drops, takes, handle_inbound-Handled,
}

-- All that a run has heard of: the consoles reported and the ones kept for the next report.
abbrev pub heard : Run → List DiscoveredConsole
heard r = r.reported ++ r.machine.discovered

-- No two have an address in common.
pub IsDistinct : List DiscoveredConsole → Type 0
IsDistinct [] = Unit
IsDistinct (c ∷ cs) = All (λ e. c.addr ≢ e.addr) cs × IsDistinct cs

module _ (x : Crates) (P : SocketAddr → Bytes → Type 0) (filter : DiscoveryFilter) where
  -- A datagram for which `P` holds, from the console's address, carries its name, which the filter keeps.
  abbrev pub IsFrom : DiscoveredConsole → Type 0
  IsFrom c =
      (payload : Bytes) × P c.addr payload
      × (parse_response x payload ≡ ok (record { name = c.name }))
      × (keeps filter c.name ≡ true)

  abbrev pub Meets : Event → Type 0
  Meets (polled _) = Unit
  Meets (inbound src payload) = P src payload

IsDistinct-snoc :
    (cs : List DiscoveredConsole) (e : DiscoveredConsole)
    → IsDistinct cs
    → All (λ c. c.addr ≢ e.addr) cs
    → IsDistinct (cs ++ e ∷ [])
unfolding IsDistinct
IsDistinct-snoc [] e _ _ = (tt, tt)
IsDistinct-snoc (c ∷ cs) e (hc, hs) (nc, ns) =
    (All-append (λ d. c.addr ≢ d.addr) cs (e ∷ []) hc (nc, tt), IsDistinct-snoc cs e hs ns)

abbrev IsSeen : List SocketAddr → DiscoveredConsole → Type 0
IsSeen seen c = any (addr_eq c.addr) seen ≡ true

ip_eq_refl : (a : IpAddr) → ip_eq a a ≡ true
unfolding ip_eq
ip_eq_refl (Engine.v4 n) = ==_refl n
ip_eq_refl (Engine.v6 n) = ==_refl n

addr_eq_refl : (a : SocketAddr) → addr_eq a a ≡ true
unfolding addr_eq
addr_eq_refl a = rw (ip_eq_refl a.ip, ==_refl a.port, ==_refl a.flow, ==_refl a.scope) refl

-- An address not seen is none of those seen.
unseen :
    (src : SocketAddr) (seen : List SocketAddr) (cs : List DiscoveredConsole)
    → any (addr_eq src) seen ≡ false
    → All (IsSeen seen) cs
    → All (λ c. c.addr ≢ src) cs
unseen src seen [] h k = tt
unseen src seen (c ∷ cs) h (kc, ks) = (
  (λ (e : c.addr ≡ src). grind (arith, h, kc, ap (λ a. any (addr_eq a) seen) e)),
  unseen src seen cs h ks,
)

or_true : (a b : Bool) → b ≡ true → a || b ≡ true
or_true a b h = ground (arith, h)

still-IsSeen :
    (src : SocketAddr) (seen : List SocketAddr) (cs : List DiscoveredConsole)
    → All (IsSeen seen) cs
    → All (IsSeen (src ∷ seen)) cs
still-IsSeen src seen [] k = tt
still-IsSeen src seen (c ∷ cs) (kc, ks) =
    (or_true (addr_eq c.addr src) _ kc, still-IsSeen src seen cs ks)

record KeepsConsoles (x : Crates) (P : SocketAddr → Bytes → Type 0) (filter : DiscoveryFilter)
    (r : Run) : Type 0 where
  all_seen : All (IsSeen r.machine.seen) (heard r)
  distinct : IsDistinct (heard r)
  genuine : All (IsFrom x P filter) (heard r)
  same_filter : r.machine.filter ≡ filter

module _ (x : Crates) (P : SocketAddr → Bytes → Type 0) (filter : DiscoveryFilter) where
  poll_keeps :
      (now : ℕ) (r : Run) (p : DiscoveryAction × Discovery)
      → Polled now r.machine p
      → KeepsConsoles x P filter r
      → KeepsConsoles x P filter (note_action p r)
  unfolding note_action
  poll_keeps now r p (sends _ _) h = record {
    all_seen = h.all_seen;
    distinct = h.distinct;
    genuine = h.genuine;
    same_filter = h.same_filter;
  }
  poll_keeps now r p (waits _ _) h = record {
    all_seen = h.all_seen;
    distinct = h.distinct;
    genuine = h.genuine;
    same_filter = h.same_filter;
  }
  poll_keeps now r p (ends _) h =
      let same : heard r ≡ heard r ++ [] = sym (append-nil (heard r)) in
      record {
        all_seen = subst (All (IsSeen r.machine.seen)) same h.all_seen;
        distinct = subst IsDistinct same h.distinct;
        genuine = subst (All (IsFrom x P filter)) same h.genuine;
        same_filter = h.same_filter;
      }

  inbound_keeps :
      (src : SocketAddr) (payload : Bytes) (r : Run) (d : Discovery)
      → P src payload
      → Handled x src payload r.machine d
      → KeepsConsoles x P filter r
      → KeepsConsoles x P filter (record r { machine = d })
  inbound_keeps src payload r d heard_it echoes h = record {
    all_seen = h.all_seen;
    distinct = h.distinct;
    genuine = h.genuine;
    same_filter = h.same_filter;
  }
  inbound_keeps src payload r d heard_it (drops _) h = record {
    all_seen = still-IsSeen src r.machine.seen (heard r) h.all_seen;
    distinct = h.distinct;
    genuine = h.genuine;
    same_filter = h.same_filter;
  }
  inbound_keeps src payload r d heard_it (takes name new_one parsed kept) h =
      let c : DiscoveredConsole = record { name = name; addr = src } in
      let same : heard r ++ c ∷ [] ≡ r.reported ++ (r.machine.discovered ++ c ∷ []) =
        append_assoc r.reported r.machine.discovered (c ∷ []) in
      record {
        all_seen = subst (All (IsSeen (src ∷ r.machine.seen))) same (
            All-append (IsSeen (src ∷ r.machine.seen)) (heard r) (c ∷ [])
              (still-IsSeen src r.machine.seen (heard r) h.all_seen)
              (rw (addr_eq_refl src) refl, tt));
        distinct = subst IsDistinct same (
            IsDistinct-snoc (heard r) c h.distinct
              (unseen src r.machine.seen (heard r) new_one h.all_seen));
        genuine = subst (All (IsFrom x P filter)) same (
            All-append (IsFrom x P filter) (heard r) (c ∷ []) h.genuine
              ((payload, heard_it, parsed, ap (λ f. keeps f name) (sym h.same_filter) ∙ kept), tt));
        same_filter = h.same_filter;
      }

  run_keeps :
      (events : List Event) (r : Run)
      → All (Meets x P filter) events
      → KeepsConsoles x P filter r
      → KeepsConsoles x P filter (run x events r)
  unfolding run happen
  run_keeps [] r _ h = h
  run_keeps (polled now ∷ events) r (_, ms) h =
      run_keeps events (happen x (polled now) r) ms
        (poll_keeps now r (poll now r.machine) (poll-Polled now r.machine) h)
  run_keeps (inbound src payload ∷ events) r (m, ms) h =
      run_keeps events (happen x (inbound src payload) r) ms
        (inbound_keeps src payload r _ m (handle_inbound-Handled x src payload r.machine) h)

-- In every run of a new machine, no two of the consoles it reports or is about to report have an
-- address in common, and each comes from a datagram of the run: whatever is true of all of these
-- is true of one sent from the console's address that parses to its name, a name the filter keeps.
pub run-IsDistinct :
    (x : Crates) (P : SocketAddr → Bytes → Type 0) (request : NapRequest) (config : DiscoveryConfig)
    (filter : DiscoveryFilter) (start : ℕ) (d : Discovery) (events : List Event)
    → new request config filter start ≡ ok d
    → All (Meets x P filter) events
    → IsDistinct (heard (run x events (started d)))
      × All (IsFrom x P filter) (heard (run x events (started d)))
unfolding IsDistinct
run-IsDistinct x P request config filter start d events h met =
    let (packet, encodes, same) = new-fresh request config filter start d h in
    let ended : KeepsConsoles x P filter (run x events (started d)) =
      subst (λ m. KeepsConsoles x P filter (run x events (started m))) (sym same)
        (run_keeps x P filter events (started (fresh packet config filter start)) met
          (record { all_seen = tt; distinct = tt; genuine = tt; same_filter = refl })) in
    (ended.distinct, ended.genuine)
