-- ===== src/Engine/Approval.antt =====
-- desktop/src/engine/mod.rs: how a connection becomes authorised.
use antarloka.Prelude.{
  ◌≡◌, ◌⊎◌, inl, inr, refl, Bool, true, false, not, ◌&&◌, some, arith, list_eq, nat_eq, ◌==◌,
  Option-cases, Bool-cases, sym, ◌∙◌, list_beq_iff,
}
use antarloka.Prelude.Map.{lookup, adjust, lookup-adjust}
use antarloka.Text.{Bytes}
use antarloka.Proto.Message.{Message}
use antarloka.Security.Fingerprint.{DeviceId}
use antarloka.Engine.State.{Inner, Params, Env, Conn, EngineEvent, emit, send, send_raw, close}
use antarloka.Engine.Pairing.{
  save_trust, report_save, authorise, finalize, try_finalize_pairing, respond_pairing,
  set_authorised, set_local_ok, set_remote_ok,
}
use antarloka.Engine.Dispatch.{
  conn_authorised, dispatch, on_message, on_hello, on_pair_request, on_pair_accept,
}
use antarloka.Util.Clamp.{clamp_str}
use antarloka.Proto.Message.{Hello, PairRequest, TextMsg, TransferId}
use antarloka.Engine.State.{OutSignal}
use antarloka.Engine.Incoming.{on_offer, on_chunk}
use antarloka.Engine.Dispatch.{on_text, signal_outgoing, on_stop, on_file_done}
use antarloka.Engine.Frame.{
  on_offer-SameSessions, on_chunk-SameSessions, on_file_done-SameSessions, on_stop-SameSessions,
}

-- The user here has approved the device on its live connection.
abbrev pub Approves : Inner → DeviceId → DeviceId → Type 0
Approves s device d =
    (d ≡ device) × ((c : Conn) × (lookup device s.conns ≡ some c) × (c.local_ok ≡ true))

pub same_conns :
    (s t : Inner) (d : DeviceId)
    → t.conns ≡ s.conns
    → conn_authorised t d ≡ true
    → conn_authorised s d ≡ true
unfolding conn_authorised
same_conns s t d e h = ground arith

emit-conns : (s : Inner) (e : EngineEvent) → (emit s e).conns ≡ s.conns
unfolding emit
emit-conns s e = refl

pub text-conns : (s : Inner) (d : DeviceId) (t : TextMsg) → (on_text s d t).conns ≡ s.conns
unfolding on_text send_raw send emit
text-conns s d t = ground arith

pub signal-conns :
    (s : Inner) (id : TransferId) (sig : OutSignal) → (signal_outgoing s id sig).conns ≡ s.conns
unfolding signal_outgoing
signal-conns s id sig = refl

module _ (px : Params) (env : Env) where
  conn_authorised-adjust :
      (f : Conn → Conn) (s : Inner) (device d : DeviceId)
      → ((c : Conn) → (f c).authorised ≡ c.authorised)
      → conn_authorised (record s { conns = adjust f device s.conns }) d ≡ conn_authorised s d
  unfolding conn_authorised
  conn_authorised-adjust f s device d same = elim (Option-cases (lookup d s.conns)) [
    | inl e ↦ ground (arith, lookup-adjust f device d s.conns)
    | inr (c, e) ↦ ground (arith, lookup-adjust f device d s.conns, same c)
  ]

  -- `try_finalize_pairing` authorises the connection that both sides approved, and no other.
  try_finalize-authorised :
      (s : Inner) (device d : DeviceId)
      → conn_authorised (try_finalize_pairing px env s device) d ≡ true
      → (conn_authorised s d ≡ true)
        ⊎ ((d ≡ device)
            × ((c : Conn) × (lookup device s.conns ≡ some c)
                × (c.local_ok ≡ true)
                × (c.remote_ok ≡ true)))
  unfolding try_finalize_pairing finalize authorise report_save save_trust emit conn_authorised
  try_finalize-authorised s device d h = elim (Option-cases (lookup device s.conns)) [
    | inl e ↦ ground arith
    | inr (c, e) ↦ elim (Bool-cases (c.local_ok && c.remote_ok && not c.authorised)) [
      | inr waits ↦ inl (ground arith)
      | inl ready ↦ elim (Bool-cases (device == d)) [
        | inl same ↦
            inr (sym ((list_beq_iff nat_eq device d).0 same), (c, e, ground arith, ground arith))
        | inr other ↦ inl (ground (arith, lookup-adjust set_authorised device d s.conns))
      ]
    ]
  ]

  -- `lookup` of the connection after `PairAccept` or the user's approval has been noted.
  pub noted :
      (f : Conn → Conn) (s : Inner) (device : DeviceId) (c : Conn)
      → lookup device (adjust f device s.conns) ≡ some c
      → (c' : Conn) × (lookup device s.conns ≡ some c') × (c ≡ f c')
  noted f s device c h = elim (Option-cases (lookup device s.conns)) [
    | inl e ↦
        ground (arith, lookup-adjust f device device s.conns, list_beq_iff nat_eq device device)
    | inr (c', e) ↦ (
      c',
      e,
      ground (arith, lookup-adjust f device device s.conns, list_beq_iff nat_eq device device),
    )
  ]

  pair_accept-authorised :
      (s : Inner) (device d : DeviceId)
      → conn_authorised (on_pair_accept px env s device) d ≡ true
      → (conn_authorised s d ≡ true)
        ⊎ ((d ≡ device) × ((c : Conn) × (lookup device s.conns ≡ some c) × (c.local_ok ≡ true)))
  unfolding on_pair_accept
  pair_accept-authorised s device d h =
      elim (try_finalize-authorised (record s { conns = adjust set_remote_ok device s.conns })
        device d h) [
          | inl old ↦ inl (sym (conn_authorised-adjust set_remote_ok s device d (λ c. refl)) ∙ old)
          | inr (same, (c, e, a, b)) ↦
              let (c', e', shape) = noted set_remote_ok s device c e in
              inr (same, (c', e', ground arith))
        ]

  hello-authorised :
      (authorised : Bool) (s : Inner) (device d : DeviceId) (key : Bytes) (h : Hello)
      → conn_authorised (on_hello px env authorised s device key h) d ≡ true
      → conn_authorised s d ≡ true
  unfolding on_hello save_trust emit
  hello-authorised authorised s device d key h e =
      let f = λ (c : Conn). record c { name = clamp_str h.name 64 } in
      sym (conn_authorised-adjust f s device d (λ c. refl))
      ∙ same_conns (record s { conns = adjust f device s.conns })
          (on_hello px env authorised s device key h) d (ground arith) e

  request-authorised :
      (authorised : Bool) (s : Inner) (device d : DeviceId) (p : PairRequest)
      → conn_authorised (on_pair_request env authorised s device p).1 d ≡ true
      → conn_authorised s d ≡ true
  unfolding on_pair_request emit
  request-authorised authorised s device d p e = elim (Option-cases (lookup device s.conns)) [
    | inl none' ↦ ground arith
    | inr (c, found) ↦
        let f = λ (c : Conn). record c { name = clamp_str p.name 64; prompted_at = some env.now } in
        sym (conn_authorised-adjust f s device d (λ c. refl))
        ∙ same_conns (record s { conns = adjust f device s.conns })
            (on_pair_request env authorised s device p).1 d (ground arith) e
  ]

  send_raw-conns : (s : Inner) (d : DeviceId) (m : Message) → (send_raw s d m).conns ≡ s.conns
  unfolding send_raw send
  send_raw-conns s d m = ground arith

  dispatch-authorised :
      (authorised : Bool) (s : Inner) (device d : DeviceId) (key : Bytes) (msg : Message)
      → conn_authorised (dispatch px env authorised s device key msg).1 d ≡ true
      → (conn_authorised s d ≡ true) ⊎ ((msg ≡ Message.pair_accept) × Approves s device d)
  unfolding dispatch
  dispatch-authorised a s device d key Message.ping h =
      inl (same_conns s (send_raw s device Message.pong) d (send_raw-conns s device Message.pong) h)
  dispatch-authorised a s device d key Message.pong h = inl h
  dispatch-authorised a s device d key (Message.hello x) h =
      inl (hello-authorised a s device d key x h)
  dispatch-authorised a s device d key (Message.pair_request p) h =
      inl (request-authorised a s device d p h)
  dispatch-authorised a s device d key Message.pair_accept h =
      elim (pair_accept-authorised s device d h) [ inl old ↦ inl old | inr new ↦ inr (refl, new) ]
  dispatch-authorised a s device d key (Message.pair_reject r) h = inl (
      same_conns s (emit s (EngineEvent.pairing_finished device false)) d
        (emit-conns s (EngineEvent.pairing_finished device false)) h)
  dispatch-authorised a s device d key (Message.text t) h =
      inl (same_conns s (on_text s device t) d (text-conns s device t) h)
  dispatch-authorised a s device d key (Message.text_ack id) h = inl h
  dispatch-authorised a s device d key (Message.file_offer o) h = inl (
      same_conns s (on_offer px env s device key o) d
        ((on_offer-SameSessions px env s device key o).conns) h)
  dispatch-authorised a s device d key (Message.file_accept id) h = inl (
      same_conns s (signal_outgoing s id OutSignal.accepted) d
        (signal-conns s id OutSignal.accepted) h)
  dispatch-authorised a s device d key (Message.file_reject r) h = inl (
      same_conns s (signal_outgoing s r.id (OutSignal.rejected (clamp_str r.reason 120))) d
        (signal-conns s r.id (OutSignal.rejected (clamp_str r.reason 120))) h)
  dispatch-authorised a s device d key (Message.file_cancel r) h =
      inl (same_conns s (on_stop env s r) d ((on_stop-SameSessions px env s r).conns) h)
  dispatch-authorised a s device d key (Message.file_error r) h =
      inl (same_conns s (on_stop env s r) d ((on_stop-SameSessions px env s r).conns) h)
  dispatch-authorised a s device d key (Message.file_chunk id offset bytes) h = inl (
      same_conns s (on_chunk px env s device key id offset bytes) d
        ((on_chunk-SameSessions px env s device key id offset bytes).conns) h)
  dispatch-authorised a s device d key (Message.file_done x) h =
      inl (same_conns s (on_file_done env s x) d ((on_file_done-SameSessions px env s x).conns) h)

  -- A connection is authorised after a message only if it was before, or if the message was
  -- `PairAccept` on that very connection and the user here had approved it.
  pub on_message-authorised :
      (s : Inner) (device d : DeviceId) (key : Bytes) (msg : Message)
      → conn_authorised (on_message px env s device key msg).1 d ≡ true
      → (conn_authorised s d ≡ true) ⊎ ((msg ≡ Message.pair_accept) × Approves s device d)
  unfolding on_message
  on_message-authorised s device d key msg h =
      ground (arith, dispatch-authorised (conn_authorised s device) s device d key msg)

  -- The user's answer authorises a connection only if it was before, or if the answer is yes and
  -- the peer on that very connection had approved.
  pub respond_pairing-authorised :
      (s : Inner) (device d : DeviceId) (answer : Bool)
      → conn_authorised (respond_pairing px env s device answer) d ≡ true
      → (conn_authorised s d ≡ true)
        ⊎ ((answer ≡ true)
            × ((d ≡ device)
                × ((c : Conn) × (lookup device s.conns ≡ some c) × (c.remote_ok ≡ true))))
  unfolding respond_pairing emit send close
  respond_pairing-authorised s device d false h = elim (Option-cases (lookup device s.conns)) [
    | inl e ↦ inl (same_conns s (respond_pairing px env s device false) d (ground arith) h)
    | inr (c, e) ↦ inl (same_conns s (respond_pairing px env s device false) d (ground arith) h)
  ]
  respond_pairing-authorised s device d true h = elim (Option-cases (lookup device s.conns)) [
    | inl e ↦ inl (same_conns s (respond_pairing px env s device true) d (ground arith) h)
    | inr (c, e) ↦
        let s1 = record s { conns = adjust set_local_ok device s.conns } in
        elim (try_finalize-authorised (send s1 c.sender Message.pair_accept) device d
          (ground arith)) [
            | inl old ↦ inl (
                sym (conn_authorised-adjust set_local_ok s device d (λ c. refl))
                ∙ same_conns s1 (send s1 c.sender Message.pair_accept) d refl old)
            | inr (same, (c1, e1, a, b)) ↦
                let (c', e', shape) = noted set_local_ok s device c1 e1 in
                inr (refl, (same, (c', e', ground arith)))
          ]
  ]
