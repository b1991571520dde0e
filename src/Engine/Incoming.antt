-- ===== src/Engine/Incoming.antt =====
-- desktop/src/engine/mod.rs: offers, chunks and the end of incoming transfers.
use antarloka.Prelude.{
  ℕ, ◌*◌, ◌%◌, Bool, true, false, not, ◌&&◌, ◌||◌, none, some, ltb, leb, ◌==◌, list_eq, nat_eq,
  if◌then◌else◌, Result, ok, err, length,
}
use antarloka.Prelude.Map.{lookup, insert, remove, contains}
use antarloka.Text.{Str, Bytes}
use antarloka.Util.Clamp.{clamp_str}
use antarloka.Proto.Message.{Message, TransferId, FileOffer, chunk_size}
use antarloka.Security.Fingerprint.{DeviceId, keys_equal}
use antarloka.Security.Trust.{get}
use antarloka.Engine.Transfer.{
  IncomingTransfer, TransferError, new_transfer, accept, write_chunk, is_complete, finish, abort,
}
use antarloka.Engine.State.{Inner, Params, Env, EngineEvent, emit, send_raw, max_incoming_transfers}
use antarloka.Engine.Texts.{
  file_too_big, offer_over_limit, too_many_transfers, rejected_by_user, rejected_by_receiver,
  file_not_made, disk_error,
}

unfoldable pub abort_incoming : Env → Inner → TransferId → Str → Inner
abort_incoming env s id reason = elim (lookup id s.incoming) [
  | none ↦ s
  | some t ↦
      emit
        (record s {
          incoming = remove id s.incoming;
          disk = abort env.abort_flush env.abort_removed t s.disk;
        })
        (EngineEvent.transfer_finished id true t.name none (some reason))
]

unfoldable pub reject_offer : Inner → DeviceId → TransferId → Str → Inner
reject_offer s device id reason =
    send_raw s device (Message.file_reject (record { id = id; reason = reason }))

unfoldable pub accepted_offer :
    Params → Env → DeviceId → TransferId → IncomingTransfer → Inner → Inner
accepted_offer px env device id t s =
    let (r, t', disk') = accept px.digests env.accept_io px.incoming_dir t s.disk in
    let s1 = record s { incoming = insert id t' s.incoming; disk = disk' } in
    elim r [
      | ok _ ↦ send_raw s1 device (Message.file_accept id)
      | err _ ↦ reject_offer (abort_incoming env s1 id file_not_made) device id disk_error
    ]

unfoldable pub respond_offer : Params → Env → Inner → TransferId → Bool → Inner
respond_offer px env s id yes' = elim (lookup id s.incoming) [
  | none ↦ s
  | some t ↦
      if not yes'
      then reject_offer (abort_incoming env s id rejected_by_user) t.from id rejected_by_receiver
      else accepted_offer px env t.from id t s
]

-- `trust.get(key).map(|d| d.auto_accept_files).unwrap_or(false)`
unfoldable pub auto_accepts : Params → Inner → Bytes → Bool
auto_accepts px s key = elim (get px.b64 s.trust key) [
  | none ↦ false
  | some d ↦ d.auto_accept_files
]

unfoldable pub on_offer : Params → Env → Inner → DeviceId → Bytes → FileOffer → Inner
on_offer px env s device key o =
    if ltb 0 s.config.max_file_size && ltb s.config.max_file_size o.size
    then emit (reject_offer s device o.id file_too_big)
        (EngineEvent.notice (offer_over_limit (clamp_str o.name 60)))
    else if leb max_incoming_transfers (length s.incoming) || contains o.id s.incoming
    then reject_offer s device o.id too_many_transfers
    else let t = new_transfer o.id device key o.name o.size o.sha256 env.now in
      let s1 = record s { incoming = insert o.id t s.incoming } in
      if auto_accepts px s key
      then respond_offer px env s1 o.id true
      else emit s1 (EngineEvent.offer_received device o.id t.name o.size)

-- `Outcome::Complete`: the transfer leaves the table and is checked and published.
unfoldable pub complete : Params → Env → DeviceId → TransferId → IncomingTransfer → Inner → Inner
complete px env device id t s =
    let s1 = record s { incoming = remove id s.incoming } in
    let (r, disk') = finish px.digests env.finish_io env.pid s.config.download_dir t s.disk in
    let s2 = record s1 { disk = disk' } in
    elim r [
      | ok path ↦ emit s2 (EngineEvent.transfer_finished id true t.name (some path) none)
      | err e ↦
          emit
            (send_raw s2 device (Message.file_error (record { id = id; reason = px.show_error e })))
            (EngineEvent.transfer_finished id true t.name none (some (px.show_error e)))
    ]

-- Throttled: one event in about 64 chunks.
unfoldable pub progress : TransferId → IncomingTransfer → Inner → Inner
progress id t s =
    if ltb (t.received % (chunk_size * 64)) chunk_size
    then emit s (EngineEvent.transfer_progress id t.received t.size true)
    else s

-- `Outcome::Fail`
unfoldable pub fail_chunk : Params → Env → DeviceId → TransferId → TransferError → Inner → Inner
fail_chunk px env device id e s =
    abort_incoming env
      (send_raw s device (Message.file_error (record { id = id; reason = px.show_error e }))) id
      (px.show_error e)

unfoldable pub after_write :
    Params
    → Env
    → DeviceId
    → TransferId
    → Result (Unit {0}) TransferError
    → IncomingTransfer
    → Inner
    → Inner
after_write px env device id (ok _) t s =
    if is_complete t then complete px env device id t s else progress id t s
after_write px env device id (err e) t s = fail_chunk px env device id e s

unfoldable pub on_chunk : Params → Env → Inner → DeviceId → Bytes → TransferId → ℕ → Bytes → Inner
on_chunk px env s device key id offset bytes = elim (lookup id s.incoming) [
  | none ↦ s
  | some t ↦
      if not (t.from == device) || not (keys_equal t.from_key key)
      then s
      else let (r, t', disk') = write_chunk env.write_io offset bytes t s.disk in
        after_write px env device id r t'
          (record s { incoming = insert id t' s.incoming; disk = disk' })
]
