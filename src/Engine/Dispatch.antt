-- ===== src/Engine/Dispatch.antt =====
-- desktop/src/engine/mod.rs: `on_message`, through which everything goes that a peer says.
use antarloka.Prelude.{
  ◌++◌, Bool, true, false, not, ◌&&◌, [], ◌∷◌, none, some, if◌then◌else◌, Result, ok, err, list_eq,
  nat_eq,
}
use antarloka.Prelude.Map.{lookup, adjust}
use antarloka.Text.{Str, Bytes}
use antarloka.Util.Clamp.{clamp_str}
use antarloka.Proto.Message.{
  Message, TransferId, Hello, PairRequest, TextMsg, FileDone, IdReason, allowed_before_pairing,
  max_text_chars,
}
use antarloka.Security.Fingerprint.{DeviceId}
use antarloka.Security.Trust.{touch}
use antarloka.Engine.Transfer.{is_complete}
use antarloka.Engine.State.{
  Inner, Params, Env, Conn, Outgoing, OutSignal, EngineEvent, emit, send_raw, conn_info,
}
use antarloka.Engine.Pairing.{save_trust, try_finalize_pairing, set_remote_ok}
use antarloka.Engine.Incoming.{abort_incoming, on_offer, on_chunk}
use antarloka.Engine.Texts.{no_connection, data_before_pairing, pairing_rejected, done_but_short}

abbrev pub Reply : Type 0
Reply = Result (Unit {0}) Str × Inner

-- `conns.get(&device).map(|c| c.authorised).unwrap_or(false)`
unfoldable pub conn_authorised : Inner → DeviceId → Bool
conn_authorised s device = elim (lookup device s.conns) [ none ↦ false | some c ↦ c.authorised ]

unfoldable pub signal_outgoing : Inner → TransferId → OutSignal → Inner
signal_outgoing s id sig = record s {
  outgoing = adjust (λ (o : Outgoing). record o { signals = o.signals ++ sig ∷ [] }) id s.outgoing;
}

unfoldable pub on_hello : Params → Env → Bool → Inner → DeviceId → Bytes → Hello → Inner
on_hello px env authorised s device key h =
    let name = clamp_str h.name 64 in
    let s1 = record s { conns = adjust (λ (c : Conn). record c { name = name }) device s.conns } in
    let s2 =
      if authorised
      then save_trust env (record s1 { trust = touch px.b64 s1.trust key name env.now_ms })
      else s1 in
    emit s2 (EngineEvent.connected (conn_info s2 device))

unfoldable pub on_pair_request : Env → Bool → Inner → DeviceId → PairRequest → Reply
on_pair_request env authorised s device p =
    let name = clamp_str p.name 64 in
    elim (lookup device s.conns) [
      | none ↦ (err no_connection, s)
      | some c ↦
          let s1 = record s {
            conns =
                adjust (λ (c : Conn). record c { name = name; prompted_at = some env.now }) device
                  s.conns;
          } in
          (
            ok tt,
            if not authorised
                then emit s1
                    (EngineEvent.pairing_required device name c.fingerprint c.sas c.addr true)
                else s1,
          )
    ]

unfoldable pub on_pair_accept : Params → Env → Inner → DeviceId → Inner
on_pair_accept px env s device =
    try_finalize_pairing px env (record s { conns = adjust set_remote_ok device s.conns }) device

unfoldable pub on_text : Inner → DeviceId → TextMsg → Inner
on_text s device t =
    send_raw (emit s (EngineEvent.text_received device (clamp_str t.text max_text_chars) t.ts))
      device (Message.text_ack t.id)

-- Both `FileCancel` and `FileError`.
unfoldable pub on_stop : Env → Inner → IdReason → Inner
on_stop env s r =
    abort_incoming env (signal_outgoing s r.id OutSignal.cancel) r.id (clamp_str r.reason 120)

unfoldable pub on_file_done : Env → Inner → FileDone → Inner
on_file_done env s d = elim (lookup d.id s.incoming) [
  | none ↦ s
  | some t ↦ if not (is_complete t) then abort_incoming env s d.id done_but_short else s
]

unfoldable pub dispatch : Params → Env → Bool → Inner → DeviceId → Bytes → Message → Reply
dispatch px env authorised s device key Message.ping = (ok tt, send_raw s device Message.pong)
dispatch px env authorised s device key Message.pong = (ok tt, s)
dispatch px env authorised s device key (Message.hello h) =
    (ok tt, on_hello px env authorised s device key h)
dispatch px env authorised s device key (Message.pair_request p) =
    on_pair_request env authorised s device p
dispatch px env authorised s device key Message.pair_accept =
    (ok tt, on_pair_accept px env s device)
dispatch px env authorised s device key (Message.pair_reject reason) = (
  err (pairing_rejected (clamp_str reason 80)),
  emit s (EngineEvent.pairing_finished device false),
)
dispatch px env authorised s device key (Message.text t) = (ok tt, on_text s device t)
dispatch px env authorised s device key (Message.text_ack id) = (ok tt, s)
dispatch px env authorised s device key (Message.file_offer o) =
    (ok tt, on_offer px env s device key o)
dispatch px env authorised s device key (Message.file_accept id) =
    (ok tt, signal_outgoing s id OutSignal.accepted)
dispatch px env authorised s device key (Message.file_reject r) =
    (ok tt, signal_outgoing s r.id (OutSignal.rejected (clamp_str r.reason 120)))
dispatch px env authorised s device key (Message.file_cancel r) = (ok tt, on_stop env s r)
dispatch px env authorised s device key (Message.file_error r) = (ok tt, on_stop env s r)
dispatch px env authorised s device key (Message.file_chunk id offset bytes) =
    (ok tt, on_chunk px env s device key id offset bytes)
dispatch px env authorised s device key (Message.file_done d) = (ok tt, on_file_done env s d)

unfoldable pub on_message : Params → Env → Inner → DeviceId → Bytes → Message → Reply
on_message px env s device key msg =
    let authorised = conn_authorised s device in
    if not authorised && not (allowed_before_pairing msg)
    then (err data_before_pairing, s)
    else dispatch px env authorised s device key msg
