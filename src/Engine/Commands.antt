-- ===== src/Engine/Commands.antt =====
-- desktop/src/engine/mod.rs: what the front-end asks for, with `key_for` and `cancel_transfer`.
use antarloka.Prelude.{
  Bool, true, [], Option, none, some, if◌then◌else◌, ok, err, ◌==◌, list_eq, nat_eq,
}
use antarloka.Prelude.Map.{lookup, adjust}
use antarloka.Text.{Str, Bytes, trim}
use antarloka.Util.Clamp.{clamp_str}
use antarloka.Proto.Message.{Message, TransferId, max_text_chars}
use antarloka.Security.Fingerprint.{DeviceId}
use antarloka.Security.Trust.{
  bind_option, key_bytes, by_device_id, remove_key, set_auto_accept, set_blocked,
}
use antarloka.Engine.State.{
  Inner, Params, Env, Config, Outgoing, EngineEvent, emit, send_raw, send_to, close,
}
use antarloka.Engine.Pairing.{save_trust}
use antarloka.Engine.Incoming.{abort_incoming}
use antarloka.Engine.Texts.{cancelled_reason, cancelled_by_sender, cancelled_by_receiver}

unfoldable pub key_for : Params → Inner → DeviceId → Option Bytes
key_for px s device = elim (lookup device s.conns) [
  | some c ↦ some c.key
  | none ↦ elim (lookup device s.peers) [
    | some p ↦ some p.info.public_key
    | none ↦ bind_option (by_device_id px.b64 px.blake2s s.trust device) (key_bytes px.b64)
  ]
]

unfoldable pub disconnect : Inner → DeviceId → Inner
disconnect s device = elim (lookup device s.conns) [ none ↦ s | some c ↦ close s c.sender ]

-- `id` is `TransferId::random()`.
unfoldable pub send_text : Params → Env → Inner → DeviceId → TransferId → Str → Inner
send_text px env s to id text =
    let text' = clamp_str (trim text) max_text_chars in
    if text' == []
    then s
    else let (r, s') =
        send_to px env s to (Message.text (record { id = id; ts = env.now_ms; text = text' })) in
      elim r [
        | ok _ ↦ emit s' (EngineEvent.text_sent to text' env.now_ms)
        | err e ↦ emit s' (EngineEvent.error e)
      ]

unfoldable pub forget : Params → Env → Inner → DeviceId → Inner
forget px env s device = elim (key_for px s device) [
  | none ↦ s
  | some key ↦
      let s1 = save_trust env (record s { trust = (remove_key px.b64 s.trust key).0 }) in
      emit (disconnect s1 device) EngineEvent.trust_changed
]

unfoldable pub set_device_auto_accept : Params → Env → Inner → DeviceId → Bool → Inner
set_device_auto_accept px env s device on =
    let s1 : Inner = elim (key_for px s device) [
      | none ↦ s
      | some key ↦ save_trust env (record s { trust = set_auto_accept px.b64 s.trust key on })
    ] in
    emit s1 EngineEvent.trust_changed

unfoldable pub set_device_blocked : Params → Env → Inner → DeviceId → Bool → Inner
set_device_blocked px env s device blocked =
    let s1 : Inner = elim (key_for px s device) [
      | none ↦ s
      | some key ↦
          let s' = save_trust env (record s { trust = set_blocked px.b64 s.trust key blocked }) in
          if blocked then disconnect s' device else s'
    ] in
    emit s1 EngineEvent.trust_changed

-- The settings file and the beacon, which the code changes too, are not part of the state.
unfoldable pub update_config : Inner → Config → Inner
update_config s new = record s { config = new }

unfoldable pub cancel_incoming : Env → Inner → TransferId → Inner
cancel_incoming env s id = elim (lookup id s.incoming) [
  | none ↦ s
  | some t ↦
      abort_incoming env
        (send_raw s t.from
          (Message.file_cancel (record { id = id; reason = cancelled_by_receiver })))
        id cancelled_reason
]

unfoldable pub cancel_transfer : Params → Env → Inner → TransferId → Inner
cancel_transfer px env s id = elim (lookup id s.outgoing) [
  | some o ↦
      let s1 = record s {
        outgoing = adjust (λ (x : Outgoing). record x { cancelled = true }) id s.outgoing;
      } in
      (send_to px env s1 o.to
        (Message.file_cancel (record { id = id; reason = cancelled_by_sender }))).1
  | none ↦ cancel_incoming env s id
]
