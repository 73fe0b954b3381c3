-- ===== src/Client/Driver.antt =====
-- The client that drives the engine over a transport: crates/xeedee/src/client/mod.rs and state.rs.
-- The transport is a parameter. An error report is the error that it holds. A call that waits for
-- ever, that panics or that has no fuel left has no result.
pub mod Runs
pub mod Refusals
pub mod Mocked
pub mod Closes
use xeedee.Base.{
  ℕ, zero, suc, ◌+◌, ◌-◌, ◌*◌, ◌/◌, ◌%◌, ◌^◌, ◌≤◌, ◌<◌, min, max, String, ◌≡◌, refl, sym, ap, ◌∙◌,
  subst, fun_ext, ◌≢◌, ◌↔◌, ◌⊎◌, inl, inr, Bool, true, false, ◌&&◌, ◌||◌, not, Option, none, some,
  List, [], ◌∷◌, ◌++◌, map, append-nil, append_assoc, arith, Bytes, codes, bytes_eq, bytes_eq_refl,
  bytes_eq_sound, Result, ok, err, ok_or, map_err, ltb, leb, ◌==◌, if◌then◌else◌, ltb→lt, lt→ltb,
  leb→le, le→leb, leb_false→lt, ltb_false→le, take-min, drop-min, ==_iff, ==_refl, Bool-cases,
  Option-cases, length, take, drop, get_elem?, any, All, length-append, length-take, length-drop,
  take-append-drop, take_all, drop_all, take_left, drop_left, take-append_le, drop-append_le,
  take-append_ge, drop-append_ge, All-append,
}
use xeedee.Base.Options.{◌>>=◌}
use xeedee.Base.Results.{tried}
use xeedee.Client.Engine
use xeedee.Client.Engine.{ClientEngine, ClientEvent}
use xeedee.Client.Engine.Ops.{
  submit, submit_streaming, expect_response, send, pending_send, close_read, recv, poll,
  is_terminal,
}
use xeedee.Client.Engine.Ops
use xeedee.Crates.{Crates}
use xeedee.Protocol.Command.{Command, ExpectedBody, binary_body}
use xeedee.Protocol.Error.{
  Error, connection_closed, engine_misuse, remote, transport, framing, head_too_short,
  missing_binary_len, SubmitError, unusable,
}
use xeedee.Protocol.Response.{Response}

-- `AsyncReadExt::read`, `AsyncWriteExt::write_all` and `flush`, with the transport they leave.
pub record Transport (T : Type 0) : Type 0 where
  pub read : ℕ → T → Option (Result Error Bytes × T)
  pub write_all : Bytes → T → Option (Result Error (Unit {0}) × T)
  pub flush : T → Option (Result Error (Unit {0}) × T)

-- The markers of state.rs.
pub data Phase : Type 0 where
  fresh connected : Phase

pub record Client (T : Type 0) (phase : Phase) : Type 0 where
  pub transport : T
  pub engine : ClientEngine

abbrev pub read_chunk : ℕ
read_chunk = 8 * 1024

unfoldable pub submit_to_report : SubmitError → Error
submit_to_report SubmitError.unusable = connection_closed
submit_to_report misuse = engine_misuse misuse

abbrev pub Outcome : Type 0 → Type 0 → Phase → Type 0
Outcome A T phase = Option (Result Error A × Client T phase)

abbrev pub set_engine :
    {T : Type 0} {phase : Phase} → ClientEngine → Client T phase → Client T phase
set_engine e c = record { transport = c.transport; engine = e }

-- The events that a caller waits for.
abbrev pub is_connected : ClientEvent → Bool
is_connected ClientEvent.connected = true
is_connected _ = false

abbrev pub is_reply : ClientEvent → Bool
is_reply (ClientEvent.response _) = true
is_reply (ClientEvent.remote_error _ _) = true
is_reply _ = false

abbrev pub is_reply_or_closed : ClientEvent → Bool
is_reply_or_closed ClientEvent.closed = true
is_reply_or_closed event = is_reply event

abbrev pub is_reply_or_head : ClientEvent → Bool
is_reply_or_head (ClientEvent.binary_head _) = true
is_reply_or_head event = is_reply event

-- What an event that the caller does not wait for stops the pump with.
unfoldable pub stops : ClientEvent → Option Error
stops (ClientEvent.failed cause) = some cause
stops ClientEvent.closed = some connection_closed
stops _ = none

module _ {T : Type 0} {phase : Phase} where
  -- A call of the transport, inside the client.
  unfoldable pub on_transport :
      {A : Type 0} → Option (Result Error A × T) → ClientEngine → Outcome A T phase
  on_transport none e = none
  on_transport (some (r, t)) e = some (r, record { transport = t; engine = e })

  -- A call of the engine that may refuse.
  unfoldable pub on_engine : Ops.Outcome → T → Outcome (Unit {0}) T phase
  unfolding submit_to_report
  on_engine (e, err cause) t =
      some (err (submit_to_report cause), record { transport = t; engine = e })
  on_engine (e, ok _) t = some (ok tt, record { transport = t; engine = e })

module _ {T : Type 0} {phase : Phase} (x : Crates) (io : Transport T) where
  -- What the engine has queued is written out, a chunk at a time.
  unfoldable pub write_queued : ℕ → Client T phase → Outcome (Unit {0}) T phase
  unfolding pending_send send on_transport tried
  write_queued zero c = none
  write_queued (suc fuel) c = elim (pending_send c.engine == 0) [
    | true ↦ some (ok tt, c)
    | false ↦
        let (e, chunk) = send read_chunk c.engine in
        do
          wrote ← on_transport (io.write_all chunk c.transport) e
          tried wrote (λ _ c'. write_queued fuel c')
  ]

  -- The next event that the caller waits for, if there is one.
  unfoldable pub surface :
      ℕ → (ClientEvent → Bool) → Client T phase → Outcome (Option ClientEvent) T phase
  unfolding poll stops
  surface zero wants c = none
  surface (suc fuel) wants c = do
    (e, event) ← poll x c.engine
    elim event [
      | none ↦ some (ok none, set_engine e c)
      | some ev ↦ if wants ev then some (ok (some ev), set_engine e c) else elim (stops ev) [
        | some cause ↦ some (err cause, set_engine e c)
        | none ↦ surface fuel wants (set_engine e c)
      ]
    ]

  unfoldable pub pump_until :
      ℕ → (ClientEvent → Bool) → Client T phase → Outcome ClientEvent T phase
  unfolding write_queued surface on_transport is_terminal close_read recv tried
  pump_until zero wants c = none
  pump_until (suc fuel) wants c = do
    wrote ← write_queued (suc fuel) c
    tried wrote (λ _ c1. do
      flushed ← on_transport (io.flush c1.transport) c1.engine
      tried flushed (λ _ c2. do
        event ← surface (suc fuel) wants c2
        tried event (λ found c3. elim found [
          | some ev ↦ some (ok ev, c3)
          | none ↦ if is_terminal c3.engine then some (err connection_closed, c3) else do
            got ← on_transport (io.read read_chunk c3.transport) c3.engine
            tried got (λ bytes c4. elim bytes [
              | [] ↦ pump_until fuel wants (set_engine (close_read c4.engine) c4)
              | b ∷ s ↦ do e ← recv x (b ∷ s) c4.engine; pump_until fuel wants (set_engine e c4)
            ])
        ])))

abbrev pub fresh_client : {T : Type 0} → T → Client T fresh
fresh_client t = record { transport = t; engine = Engine.new }

-- `Some(len)` for a binary body, which the command has to tell.
unfoldable pub wanted_len : {A : Type 0} → Command A → Result Error (Option ℕ)
wanted_len cmd = elim cmd.expected [
  | binary_body ↦ elim cmd.binary_len [
    | none ↦ err (transport missing_binary_len)
    | some n ↦ ok (some n)
  ]
  | _ ↦ ok none
]

-- What `run` makes of the event that ends the pump.
unfoldable pub on_reply : {A : Type 0} → Command A → ClientEvent → Option (Result Error A)
on_reply cmd (ClientEvent.response response) = some (cmd.parse response)
on_reply cmd (ClientEvent.remote_error code message) = elim (cmd.handle_remote code message) [
  | some mapped ↦ some mapped
  | none ↦ some (err (remote code message))
]
on_reply cmd _ = none

-- What the callers that want the response itself make of the event.
unfoldable pub raw_reply : ClientEvent → Option (Result Error Response)
raw_reply (ClientEvent.response response) = some (ok response)
raw_reply (ClientEvent.remote_error code message) = some (err (remote code message))
raw_reply _ = none

-- A closed connection is as good as a reply.
unfoldable pub forgive : Error → Result Error (Unit {0})
forgive connection_closed = ok tt
forgive cause = err cause

unfoldable pub head_reply : ClientEvent → Option (Result Error Bytes)
head_reply (ClientEvent.binary_head head) = some (ok head)
head_reply (ClientEvent.remote_error code message) = some (err (remote code message))
head_reply (ClientEvent.response response) = some (err (framing head_too_short))
head_reply _ = none

module _ {T : Type 0} (x : Crates) (io : Transport T) (fuel : ℕ) where
  -- The client of the next phase; an event that the pump does not return is a panic.
  unfoldable pub read_banner : Client T fresh → Option (Result Error (Client T connected))
  unfolding pump_until
  read_banner c = do
    (event, c') ← pump_until x io fuel is_connected c
    elim event [
      | err cause ↦ some (err cause)
      | ok ClientEvent.connected ↦
          some (ok (record { transport = c'.transport; engine = c'.engine }))
      | ok _ ↦ none
    ]

  unfoldable pub run_line :
      {A : Type 0} → Command A → Bytes → Option ℕ → Client T connected → Outcome A T connected
  unfolding submit pump_until on_engine on_reply tried
  run_line cmd line len c = do
    sent ← on_engine (submit line len c.engine) c.transport
    tried sent (λ _ c1. do
      event ← pump_until x io fuel is_reply c1
      tried event (λ ev c2. do result ← on_reply cmd ev; some (result, c2)))

  unfoldable pub run_with :
      {A : Type 0}
      → Command A
      → Client T connected
      → Result Error Bytes
      → Result Error (Option ℕ)
      → Outcome A T connected
  unfolding run_line
  run_with cmd c (err cause) len = some (err cause, c)
  run_with cmd c (ok line) (err cause) = some (err cause, c)
  run_with cmd c (ok line) (ok len) = run_line cmd line len c

  unfoldable pub run : {A : Type 0} → Command A → Client T connected → Outcome A T connected
  unfolding wanted_len run_with
  run cmd c = run_with cmd c cmd.wire_line (wanted_len cmd)

  unfoldable pub await_raw : Ops.Outcome → T → Outcome Response T connected
  unfolding pump_until on_engine raw_reply tried
  await_raw outcome t = do
    sent ← on_engine outcome t
    tried sent (λ _ c1. do
      event ← pump_until x io fuel is_reply c1
      tried event (λ ev c2. do result ← raw_reply ev; some (result, c2)))

  unfoldable pub send_raw : Bytes → Client T connected → Outcome Response T connected
  unfolding submit await_raw
  send_raw line c = await_raw (submit line none c.engine) c.transport

  unfoldable pub read_post_upload_response : Client T connected → Outcome Response T connected
  unfolding expect_response await_raw
  read_post_upload_response c = await_raw (expect_response c.engine) c.transport

  unfoldable pub bye : Client T connected → Option (Result Error (Unit {0}))
  unfolding submit pump_until on_engine forgive
  bye c = do
    (sent, c1) ← on_engine {phase = connected} (submit (codes "bye") none c.engine) c.transport
    elim sent [
      | err cause ↦ some (err cause)
      | ok _ ↦ do
        (event, c2) ← pump_until x io fuel is_reply_or_closed c1
        elim event [ err cause ↦ some (forgive cause) | ok _ ↦ some (ok tt) ]
    ]

  unfoldable pub run_streaming : Bytes → Client T connected → Outcome Bytes T connected
  unfolding submit_streaming pump_until on_engine head_reply tried
  run_streaming line c = do
    sent ← on_engine (submit_streaming line c.engine) c.transport
    tried sent (λ _ c1. do
      event ← pump_until x io fuel is_reply_or_head c1
      tried event (λ ev c2. do result ← head_reply ev; some (result, c2)))
