-- ===== src/Engine/Owner.antt =====
-- desktop/src/engine/mod.rs: which transfer a message about files can touch.
use antarloka.Prelude.{
  ℕ, ◌≡◌, Bool, false, not, ◌&&◌, Option, none, some, arith, list_eq, nat_eq, ◌==◌, if◌then◌else◌,
  Option-cases, inl, inr, list_beq_iff, Result, ok, err,
}
use antarloka.Prelude.Map.{lookup, insert, lookup-insert, lookup-remove}
use antarloka.Text.{Bytes}
use antarloka.Proto.Message.{TransferId, FileDone, IdReason}
use antarloka.Security.Fingerprint.{DeviceId, keys_equal}
use antarloka.Engine.Transfer.{IncomingTransfer, TransferError, is_complete, write_chunk}
use antarloka.Engine.State.{Inner, Params, Env, emit, send, send_raw}
use antarloka.Engine.Incoming.{
  abort_incoming, complete, progress, fail_chunk, after_write, on_chunk,
}
use antarloka.Engine.Dispatch.{signal_outgoing, on_stop, on_file_done}

-- The transfer is of this device and was offered with this key.
abbrev pub is_owner : IncomingTransfer → DeviceId → Bytes → Bool
is_owner t device key = t.from == device && keys_equal t.from_key key

abbrev pub unfinished : Option IncomingTransfer → Bool
unfinished none = false
unfinished (some t) = not (is_complete t)

module _ (px : Params) (env : Env) where
  after_write-others :
      (d : DeviceId) (id j : TransferId) (r : Result (Unit {0}) TransferError)
      (t : IncomingTransfer) (s : Inner)
      → (id == j) ≡ false
      → lookup j (after_write px env d id r t s).incoming ≡ lookup j s.incoming
  unfolding after_write complete progress fail_chunk abort_incoming emit send_raw send
  after_write-others d id j (ok x) t s n = ground (arith, lookup-remove id j s.incoming)
  after_write-others d id j (err e) t s n = ground (arith, lookup-remove id j s.incoming)

  -- A chunk leaves every transfer as it was that it does not name, or that another device or key
  -- offered.
  pub on_chunk-others :
      (s : Inner) (device : DeviceId) (key : Bytes) (id : TransferId) (offset : ℕ) (bytes : Bytes)
      (j : TransferId) (u : IncomingTransfer)
      → lookup j s.incoming ≡ some u
      → (id == j && is_owner u device key) ≡ false
      → lookup j (on_chunk px env s device key id offset bytes).incoming ≡ some u
  unfolding on_chunk
  on_chunk-others s device key id offset bytes j u e n =
      elim (Option-cases (lookup id s.incoming)) [
        | inl absent ↦ ground arith
        | inr (t, f) ↦
            let (r, t', disk') = write_chunk env.write_io offset bytes t s.disk in
            let s1 = record s { incoming = insert id t' s.incoming; disk = disk' } in
            ground (
              arith,
              list_beq_iff nat_eq id j,
              after_write-others device id j r t' s1,
              lookup-insert id j t' s.incoming,
            )
      ]

-- `FileDone` removes the transfer that it names if that is unfinished, and does nothing else to the
-- table: a transfer that has all its bytes when `FileDone` comes, one of size zero above all, stays.
pub lookup-on_file_done :
    (env : Env) (s : Inner) (d : FileDone) (j : TransferId)
    → lookup j (on_file_done env s d).incoming
      ≡ (if d.id == j && unfinished (lookup d.id s.incoming) then none else lookup j s.incoming)
unfolding on_file_done abort_incoming emit
lookup-on_file_done env s d j = elim (Option-cases (lookup d.id s.incoming)) [
  | inl e ↦ ground arith
  | inr (t, e) ↦ ground (arith, lookup-remove d.id j s.incoming)
]

-- `FileCancel` and `FileError` remove the transfer that they name, from whichever device it is, and
-- no other.
pub lookup-on_stop :
    (env : Env) (s : Inner) (r : IdReason) (j : TransferId)
    → lookup j (on_stop env s r).incoming ≡ (if r.id == j then none else lookup j s.incoming)
unfolding on_stop signal_outgoing abort_incoming emit
lookup-on_stop env s r j = elim (Option-cases (lookup r.id s.incoming)) [
  | inl e ↦ ground (arith, list_beq_iff nat_eq r.id j)
  | inr (t, e) ↦ ground (arith, lookup-remove r.id j s.incoming)
]
