-- ===== src/Engine/Bounds.antt =====
-- desktop/src/engine: the tables stay within their limits, whatever the peers send.
use antarloka.Prelude.{
  ℕ, ◌≡◌, ◌≤◌, refl, Bool, true, false, ◌||◌, arith, list_eq, nat_eq, Option-cases, inl, inr,
  length, leb, Result, ok, err,
}
use antarloka.Prelude.Map.{
  lookup, insert, remove, contains, distinct, distinct-insert, distinct-remove, length-insert,
  length-remove-le,
}
use antarloka.Text.{Str, Bytes}
use antarloka.Proto.Message.{Message, TransferId, FileOffer, IdReason, FileDone}
use antarloka.Security.Fingerprint.{DeviceId}
use antarloka.Engine.Transfer.{accept, IncomingTransfer, TransferError, new_transfer, write_chunk}
use antarloka.Engine.State.{Inner, Params, Env, emit, send, send_raw, max_incoming_transfers}
use antarloka.Engine.Incoming.{
  abort_incoming, reject_offer, accepted_offer, respond_offer, on_offer, complete, progress,
  fail_chunk, after_write, on_chunk,
}
use antarloka.Engine.Dispatch.{signal_outgoing, on_stop, on_file_done}

-- The table of incoming transfers.
pub record TransfersOk (s : Inner) : Type 0 where
  pub bounded : length s.incoming ≤ max_incoming_transfers
  pub keys : distinct s.incoming ≡ true

replaced :
    (s : Inner) (id : TransferId) (t : IncomingTransfer)
    → contains id s.incoming ≡ true
    → TransfersOk s
    → TransfersOk (record s { incoming = insert id t s.incoming })
replaced s id t h o = record {
  bounded = ground (arith, length-insert id t s.incoming, o.bounded);
  keys = distinct-insert id t s.incoming o.keys;
}

removed :
    (s : Inner) (id : TransferId)
    → TransfersOk s
    → TransfersOk (record s { incoming = remove id s.incoming })
removed s id o = record {
  bounded = omega (arith, length-remove-le id s.incoming, o.bounded);
  keys = distinct-remove id s.incoming o.keys;
}

-- Only the table matters.
pub same_table : (s t : Inner) → t.incoming ≡ s.incoming → TransfersOk s → TransfersOk t
same_table s t e o = record { bounded = rw e o.bounded; keys = rw e o.keys }

pub abort_incoming-TransfersOk :
    (env : Env) (s : Inner) (id : TransferId) (reason : Str)
    → TransfersOk s
    → TransfersOk (abort_incoming env s id reason)
unfolding abort_incoming emit
abort_incoming-TransfersOk env s id reason o = ground (arith, removed s id o)

send_raw-incoming :
    (s : Inner) (d : DeviceId) (m : Message) → (send_raw s d m).incoming ≡ s.incoming
unfolding send_raw send
send_raw-incoming s d m = ground arith

module _ (px : Params) (env : Env) where
  accepted_offer-TransfersOk :
      (d : DeviceId) (id : TransferId) (t : IncomingTransfer) (s : Inner)
      → contains id s.incoming ≡ true
      → TransfersOk s
      → TransfersOk (accepted_offer px env d id t s)
  unfolding accepted_offer reject_offer abort_incoming emit send_raw send
  accepted_offer-TransfersOk d id t s h o =
      let (r, t', disk') = accept px.digests env.accept_io px.incoming_dir t s.disk in
      let s1 = record s { incoming = insert id t' s.incoming; disk = disk' } in
      let o1 =
        same_table (record s { incoming = insert id t' s.incoming }) s1 refl
          (replaced s id t' h o) in
      ground (arith, o1, removed s1 id o1, r)

  pub respond_offer-TransfersOk :
      (s : Inner) (id : TransferId) (answer : Bool)
      → TransfersOk s
      → TransfersOk (respond_offer px env s id answer)
  unfolding respond_offer reject_offer abort_incoming emit send_raw send
  respond_offer-TransfersOk s id answer o = elim (Option-cases (lookup id s.incoming)) [
    | inl e ↦ ground arith
    | inr (t, e) ↦ ground (arith, removed s id o, accepted_offer-TransfersOk t.from id t s)
  ]

  fresh_entry :
      (s : Inner) (id : TransferId) (t : IncomingTransfer)
      → leb max_incoming_transfers (length s.incoming) || contains id s.incoming ≡ false
      → TransfersOk s
      → TransfersOk (record s { incoming = insert id t s.incoming })
  fresh_entry s id t h o = record {
    bounded = ground (arith, length-insert id t s.incoming, o.bounded);
    keys = distinct-insert id t s.incoming o.keys;
  }

  pub on_offer-TransfersOk :
      (s : Inner) (d : DeviceId) (key : Bytes) (x : FileOffer)
      → TransfersOk s
      → TransfersOk (on_offer px env s d key x)
  unfolding on_offer reject_offer emit send_raw send
  on_offer-TransfersOk s d key x o =
      let t = new_transfer x.id d key x.name x.size x.sha256 env.now in
      let s1 = record s { incoming = insert x.id t s.incoming } in
      ground (arith, fresh_entry s x.id t, respond_offer-TransfersOk s1 x.id true)

  after_write-TransfersOk :
      (d : DeviceId) (id : TransferId) (r : Result (Unit {0}) TransferError) (t : IncomingTransfer)
      (s : Inner)
      → TransfersOk s
      → TransfersOk (after_write px env d id r t s)
  unfolding after_write complete progress fail_chunk abort_incoming emit send_raw send
  after_write-TransfersOk d id (ok x) t s o = ground (arith, removed s id o)
  after_write-TransfersOk d id (err e) t s o = ground (arith, removed s id o)

  pub on_chunk-TransfersOk :
      (s : Inner) (d : DeviceId) (key : Bytes) (id : TransferId) (offset : ℕ) (bytes : Bytes)
      → TransfersOk s
      → TransfersOk (on_chunk px env s d key id offset bytes)
  unfolding on_chunk
  on_chunk-TransfersOk s d key id offset bytes o = elim (Option-cases (lookup id s.incoming)) [
    | inl absent ↦ ground arith
    | inr (t, e) ↦
        let (r, t', disk') = write_chunk env.write_io offset bytes t s.disk in
        let s1 = record s { incoming = insert id t' s.incoming; disk = disk' } in
        let o1 = replaced s id t' (ground arith) o in
        ground (
          arith,
          after_write-TransfersOk d id r t' s1
              (same_table (record s { incoming = insert id t' s.incoming }) s1 refl o1),
        )
  ]

  pub on_stop-TransfersOk :
      (s : Inner) (r : IdReason) → TransfersOk s → TransfersOk (on_stop env s r)
  unfolding on_stop signal_outgoing abort_incoming emit
  on_stop-TransfersOk s r o = ground (arith, removed s r.id o)

  pub on_file_done-TransfersOk :
      (s : Inner) (x : FileDone) → TransfersOk s → TransfersOk (on_file_done env s x)
  unfolding on_file_done abort_incoming emit
  on_file_done-TransfersOk s x o = ground (arith, removed s x.id o)
