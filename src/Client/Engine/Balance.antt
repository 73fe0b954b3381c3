-- ===== src/Client/Engine/Balance.antt =====
-- The account of commands and answers over whole sessions with the engine of
-- crates/xeedee/src/client/engine.rs.
use xeedee.Base.{
  ℕ, ◌+◌, ◌≡◌, refl, sym, ap, subst, inl, inr, false, Option, none, some, List, [], ◌∷◌, ◌++◌,
  arith, Bytes, Bool-cases, Option-cases,
}
use xeedee.Crates.{Crates, plain, Documented, for_all_crates}
use xeedee.Client.Engine.{State, ClientEngine, ClientEvent, HeadExpect}
use xeedee.Client.Engine.Chunks.{recv_hears, recv_deaf}
use xeedee.Client.Engine.Kept.{advance-IsKept, advance_alive}
use xeedee.Client.Engine.Ledger.{answers, answers-append, owed, IsKept, owed_self}
use xeedee.Client.Engine.Ops.{
  is_terminal_state, is_terminal, ready, queue_submit, submit, submit_streaming, expect_response,
  send, close_read, take_inbox, end_stream, abort_stream, is_deaf, recv, pop_event, poll,
}
use xeedee.Client.Engine.Steps.{advance}
use xeedee.Protocol.Error.{stream_abandoned}
use xeedee.Client.Engine.Sessions.{
  Op, recv_op, poll_op, submit_op, submit_streaming_op, expect_response_op, send_op, close_read_op,
  take_inbox_op, end_stream_op, abort_stream_op, Session, start, after, answer_of, act, run,
  IsBalanced,
}

-- An engine that keeps the account, and lives only if it lived.
kept-IsBalanced :
    (s : Session) (e : ClientEngine)
    → IsBalanced s
    → IsKept (owed s.engine) e
    → (is_terminal_state e.state ≡ false → is_terminal_state s.engine.state ≡ false)
    → IsBalanced (record s { engine = e })
kept-IsBalanced s e b k lives = record {
  most = omega (arith, b.most, k.most);
  all = λ h. omega (arith, b.all (lives h), k.all h);
}

queue_submit-IsBalanced :
    (line : Bytes) (expect : HeadExpect) (s : Session)
    → IsBalanced s
    → IsBalanced (after s (queue_submit line expect s.engine))
unfolding queue_submit ready is_terminal_state
queue_submit-IsBalanced line expect s b = go s.engine.state refl
  where
    go : (t : State) → s.engine.state ≡ t → IsBalanced (after s (queue_submit line expect s.engine))
    go State.idle at = record { most = ground (arith, b.most); all = λ h. ground (arith, b.all) }
    go _ at = record { most = ground (arith, b.most); all = λ h. ground (arith, b.all) }

recv-IsKept :
    (bytes : Bytes) (e e' : ClientEngine)
    → recv plain bytes e ≡ some e'
    → IsKept (owed e) e' × (is_terminal_state e'.state ≡ false → is_terminal_state e.state ≡ false)
recv-IsKept bytes e e' h = elim (Bool-cases (is_deaf e.state)) [
  | inl deaf ↦
      let same : e ≡ e' = cc (recv_deaf bytes e deaf) in
      (
        subst (IsKept (owed e)) same (owed_self e),
        λ lives. subst (λ (m : ClientEngine). is_terminal_state m.state ≡ false) (sym same) lives,
      )
  | inr hears ↦
      let extended = record e { inbox = e.inbox ++ bytes } in
      let ran : advance plain extended ≡ some e' = cc (recv_hears bytes e hears) in
      (advance-IsKept extended e' ran, advance_alive extended e' ran)
]

pop-IsBalanced :
    (s : Session) (m : ClientEngine)
    → IsBalanced (record s { engine = m })
    → IsBalanced
        (record s { engine = (pop_event m).0; delivered = s.delivered + answer_of (pop_event m).1 })
unfolding pop_event
pop-IsBalanced s m b = go m.events refl
  where
    go :
        (events : List ClientEvent)
        → m.events ≡ events
        → IsBalanced (record s {
          engine = (pop_event m).0;
          delivered = s.delivered + answer_of (pop_event m).1;
        })
    go [] at = record { most = ground (arith, b.most); all = λ h. ground (arith, b.all) }
    go (v ∷ events) at = record {
      most = ground (arith, b.most, ap answers at);
      all = λ h. ground (arith, b.all, ap answers at);
    }

became : (s s' m : Session) → IsBalanced m → some m ≡ some s' → IsBalanced s'
became s s' m b h = let same : m ≡ s' = cc in subst IsBalanced same b

expect_response-IsBalanced :
    (s : Session) → IsBalanced s → IsBalanced (after s (expect_response s.engine))
unfolding expect_response ready is_terminal_state
expect_response-IsBalanced s b = go s.engine.state refl
  where
    go : (t : State) → s.engine.state ≡ t → IsBalanced (after s (expect_response s.engine))
    go State.idle at = record { most = ground (arith, b.most); all = λ h. ground (arith, b.all) }
    go _ at = record { most = ground (arith, b.most); all = λ h. ground (arith, b.all) }

close_read-IsBalanced :
    (s : Session) → IsBalanced s → IsBalanced (record s { engine = close_read s.engine })
unfolding close_read is_terminal_state
close_read-IsBalanced s b = elim (Bool-cases (is_terminal s.engine)) [
  | inl over ↦ rw (over, close_read) (record { most = b.most; all = b.all })
  | inr alive ↦
      rw (alive, close_read)
        (record {
          most = omega (arith, b.most, answers-append s.engine.events (ClientEvent.closed ∷ []));
          all = λ h. absurd (cc);
        })
]

end_stream-IsBalanced :
    (leftover : Bytes) (s : Session)
    → IsBalanced s
    → IsBalanced (record s { engine = end_stream leftover s.engine })
unfolding end_stream is_terminal_state
end_stream-IsBalanced leftover s b = go s.engine.state refl
  where
    go :
        (t : State)
        → s.engine.state ≡ t
        → IsBalanced (record s { engine = end_stream leftover s.engine })
    go State.idle at = record { most = ground (arith, b.most); all = λ h. ground (arith, b.all) }
    go _ at = record { most = ground (arith, b.most); all = λ h. ground (arith, b.all) }

abort_stream-IsBalanced :
    (unread : Option ℕ) (s : Session)
    → IsBalanced s
    → IsBalanced (record s { engine = abort_stream unread s.engine })
unfolding abort_stream is_terminal_state
abort_stream-IsBalanced unread s b = go s.engine.state refl
  where
    queued :
        answers (s.engine.events ++ ClientEvent.failed (stream_abandoned unread) ∷ [])
        ≡ answers s.engine.events + 0
    queued = answers-append s.engine.events (ClientEvent.failed (stream_abandoned unread) ∷ [])

    go :
        (t : State)
        → s.engine.state ≡ t
        → IsBalanced (record s { engine = abort_stream unread s.engine })
    go State.idle at = record {
      most = ground (arith, b.most, queued);
      all = λ h. ground (arith, b.all);
    }
    go _ at = record { most = ground (arith, b.most, queued); all = λ h. ground (arith, b.all) }

act-IsBalanced :
    (op : Op) (s s' : Session) → act plain op s ≡ some s' → IsBalanced s → IsBalanced s'
unfolding act
act-IsBalanced (recv_op bytes) s s' h b = elim (Option-cases (recv plain bytes s.engine)) [
  | inl panic ↦ absurd (ground arith)
  | inr (e, ran) ↦
      let same : record s { engine = e } ≡ s' = ground arith in
      let (kept, lives) = recv-IsKept bytes s.engine e ran in
      subst IsBalanced same (kept-IsBalanced s e b kept lives)
]
act-IsBalanced poll_op s s' h b = elim (Option-cases (advance plain s.engine)) [
  | inl panic ↦ absurd (unfold poll in ground arith)
  | inr (m, ran) ↦
      let same : record s {
        engine = (pop_event m).0;
        delivered = s.delivered + answer_of (pop_event m).1;
      }
          ≡ s' =
        unfold poll in ground arith in
      subst IsBalanced same (
        pop-IsBalanced s m
          (kept-IsBalanced s m b (advance-IsKept s.engine m ran) (advance_alive s.engine m ran)))
]
act-IsBalanced (submit_op line none) s s' h b =
    became s s' _ (queue_submit-IsBalanced line HeadExpect.no_binary s b) (unfold submit in h)
act-IsBalanced (submit_op line (some n)) s s' h b =
    became s s' _ (queue_submit-IsBalanced line (HeadExpect.eager_binary n) s b)
      (unfold submit in h)
act-IsBalanced (submit_streaming_op line) s s' h b =
    became s s' _ (queue_submit-IsBalanced line HeadExpect.stream_binary s b)
      (unfold submit_streaming in h)
act-IsBalanced expect_response_op s s' h b = became s s' _ (expect_response-IsBalanced s b) h
act-IsBalanced (send_op room) s s' h b =
    became s s' (record s { engine = (send room s.engine).0 })
      (unfold send in record { most = b.most; all = b.all }) h
act-IsBalanced close_read_op s s' h b = became s s' _ (close_read-IsBalanced s b) h
act-IsBalanced take_inbox_op s s' h b =
    became s s' (record s { engine = (take_inbox s.engine).0 })
      (unfold take_inbox in record { most = b.most; all = b.all }) h
act-IsBalanced (end_stream_op leftover) s s' h b =
    became s s' _ (end_stream-IsBalanced leftover s b) h
act-IsBalanced (abort_stream_op unread) s s' h b =
    became s s' _ (abort_stream-IsBalanced unread s b) h

run-IsBalanced :
    (ops : List Op) (s s' : Session) → run plain ops s ≡ some s' → IsBalanced s → IsBalanced s'
run-IsBalanced [] s s' h b = became s s' s b (unfold run in h)
run-IsBalanced (op ∷ ops) s s' h b = elim (Option-cases (act plain op s)) [
  | inl panic ↦ absurd (unfold run in ground arith)
  | inr (m, ran) ↦
      run-IsBalanced ops m s' (unfold run in ground arith) (act-IsBalanced op s m ran b)
]

IsBalanced-start : IsBalanced start
IsBalanced-start = record { most = omega arith; all = λ h. refl }

-- In every session that starts with a new engine and does not panic, whatever methods are called in
-- whatever order and whatever bytes arrive, the answers delivered or queued together with the command
-- that waits are at most the commands accepted, and exactly as many while the engine has neither
-- failed nor been closed: no command is lost, none is answered twice, and no answer comes unasked.
pub run-start-IsBalanced :
    (x : Crates)
    → Documented x
    → (ops : List Op) (s : Session) → run x ops start ≡ some s
    → IsBalanced s
run-start-IsBalanced =
    for_all_crates (λ x. (ops : List Op) (s : Session) → run x ops start ≡ some s → IsBalanced s)
      (λ ops s h. run-IsBalanced ops start s h IsBalanced-start)
