-- ===== src/Engine/Frame.antt =====
-- What the operations of the engine leave alone.
use antarloka.Prelude.{
  ℕ, ◌≡◌, Bool, true, arith, Result, ok, err, list_eq, nat_eq, Option-cases, inl, inr,
}
use antarloka.Prelude.Map.{lookup, insert}
use antarloka.Text.{Str, Bytes}
use antarloka.Proto.Message.{Message, TransferId, FileOffer, IdReason, FileDone}
use antarloka.Security.Fingerprint.{DeviceId}
use antarloka.Engine.Transfer.{IncomingTransfer, TransferError, new_transfer, write_chunk}
use antarloka.Engine.State.{Inner, Params, Env, emit, send, send_raw}
use antarloka.Engine.Pairing.{save_trust, report_save, authorise, finalize, try_finalize_pairing}
use antarloka.Engine.Incoming.{
  abort_incoming, reject_offer, accepted_offer, respond_offer, on_offer, complete, progress,
  fail_chunk, after_write, on_chunk,
}
use antarloka.Engine.Dispatch.{signal_outgoing, on_stop, on_file_done}

-- Connections, pairings and peers.
pub record SameSessions (s t : Inner) : Type 0 where
  pub conns : t.conns ≡ s.conns
  pub trust : t.trust ≡ s.trust
  pub saved : t.saved ≡ s.saved
  pub peers : t.peers ≡ s.peers
  pub config : t.config ≡ s.config

-- The tables of transfers and the disk.
pub record SameFiles (s t : Inner) : Type 0 where
  pub incoming : t.incoming ≡ s.incoming
  pub outgoing : t.outgoing ≡ s.outgoing
  pub disk : t.disk ≡ s.disk
  pub config : t.config ≡ s.config
  pub peers : t.peers ≡ s.peers

pub abort_incoming-SameSessions :
    (env : Env) (s : Inner) (id : TransferId) (reason : Str)
    → SameSessions s (abort_incoming env s id reason)
unfolding abort_incoming emit
abort_incoming-SameSessions env s id reason = ground arith

pub send_raw-SameSessions :
    (s : Inner) (d : DeviceId) (m : Message) → SameSessions s (send_raw s d m)
unfolding send_raw send
send_raw-SameSessions s d m = ground arith

module _ (px : Params) (env : Env) where
  pub respond_offer-SameSessions :
      (s : Inner) (id : TransferId) (answer : Bool)
      → SameSessions s (respond_offer px env s id answer)
  unfolding respond_offer reject_offer accepted_offer abort_incoming emit send_raw send
  respond_offer-SameSessions s id answer = ground arith

  pub on_offer-SameSessions :
      (s : Inner) (d : DeviceId) (key : Bytes) (o : FileOffer)
      → SameSessions s (on_offer px env s d key o)
  unfolding on_offer reject_offer emit send_raw send
  on_offer-SameSessions s d key o = ground (
    arith,
    respond_offer-SameSessions
        (record s {
          incoming =
              insert o.id (new_transfer o.id d key o.name o.size o.sha256 env.now) s.incoming;
        })
        o.id true,
  )

  after_write-SameSessions :
      (d : DeviceId) (id : TransferId) (r : Result (Unit {0}) TransferError) (t : IncomingTransfer)
      (s : Inner)
      → SameSessions s (after_write px env d id r t s)
  unfolding after_write complete progress fail_chunk abort_incoming emit send_raw send
  after_write-SameSessions d id (ok x) t s = ground arith
  after_write-SameSessions d id (err e) t s = ground arith

  pub on_chunk-SameSessions :
      (s : Inner) (d : DeviceId) (key : Bytes) (id : TransferId) (offset : ℕ) (bytes : Bytes)
      → SameSessions s (on_chunk px env s d key id offset bytes)
  unfolding on_chunk
  on_chunk-SameSessions s d key id offset bytes = elim (Option-cases (lookup id s.incoming)) [
    | inl absent ↦ ground arith
    | inr (t, e) ↦
        let (r, t', disk') = write_chunk env.write_io offset bytes t s.disk in
        ground (
          arith,
          after_write-SameSessions d id r t'
              (record s { incoming = insert id t' s.incoming; disk = disk' }),
        )
  ]

  pub on_file_done-SameSessions : (s : Inner) (x : FileDone) → SameSessions s (on_file_done env s x)
  unfolding on_file_done abort_incoming emit
  on_file_done-SameSessions s x = ground arith

  pub on_stop-SameSessions : (s : Inner) (r : IdReason) → SameSessions s (on_stop env s r)
  unfolding on_stop signal_outgoing abort_incoming emit
  on_stop-SameSessions s r = ground arith

  pub try_finalize-SameFiles :
      (s : Inner) (device : DeviceId) → SameFiles s (try_finalize_pairing px env s device)
  unfolding try_finalize_pairing finalize authorise report_save save_trust emit
  try_finalize-SameFiles s device = ground arith
