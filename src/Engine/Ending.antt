-- ===== src/Engine/Ending.antt =====
-- desktop/src/engine/mod.rs: what the end of a connection does to the transfers of its device.
use antarloka.Prelude.{
  ℕ, ◌≡◌, refl, Bool, true, false, ◌||◌, List, [], ◌∷◌, Option, none, some, arith, list_eq, nat_eq,
  ◌==◌, if◌then◌else◌, Option-cases, list_beq_iff,
}
use antarloka.Prelude.Map.{distinct, Map, lookup, remove, contains, lookup-remove, map_option}
use antarloka.Text.{Str}
use antarloka.Proto.Message.{TransferId}
use antarloka.Security.Fingerprint.{DeviceId}
use antarloka.Engine.Transfer.{IncomingTransfer}
use antarloka.Engine.State.{Inner, Env, Outgoing, emit, close}
use antarloka.Engine.Incoming.{abort_incoming}
use antarloka.Engine.Texts.{connection_closed}
use antarloka.Engine.Connection.{
  transfers_from, abort_all, cancel_to, fail_transfers_for, end_connection,
}

unfoldable member : TransferId → List TransferId → Bool
member j [] = false
member j (id ∷ ids) = id == j || member j ids

lookup-abort_incoming :
    (env : Env) (s : Inner) (id j : TransferId) (reason : Str)
    → lookup j (abort_incoming env s id reason).incoming
      ≡ (if id == j then none else lookup j s.incoming)
unfolding abort_incoming emit
lookup-abort_incoming env s id j reason =
    ground (arith, lookup-remove id j s.incoming, list_beq_iff nat_eq id j)

lookup-abort_all :
    (env : Env) (reason : Str) (ids : List TransferId) (s : Inner) (j : TransferId)
    → lookup j (abort_all env reason ids s).incoming
      ≡ (if member j ids then none else lookup j s.incoming)
unfolding abort_all member
lookup-abort_all env reason [] s j = refl
lookup-abort_all env reason (id ∷ ids) s j = ground (
  arith,
  lookup-abort_all env reason ids (abort_incoming env s id reason) j,
  lookup-abort_incoming env s id j reason,
)

pub abort_all-conns :
    (env : Env) (reason : Str) (ids : List TransferId) (s : Inner)
    → (abort_all env reason ids s).conns ≡ s.conns
unfolding abort_all abort_incoming emit
abort_all-conns env reason [] s = refl
abort_all-conns env reason (id ∷ ids) s =
    ground (arith, abort_all-conns env reason ids (abort_incoming env s id reason))

abort_all-outgoing :
    (env : Env) (reason : Str) (ids : List TransferId) (s : Inner)
    → (abort_all env reason ids s).outgoing ≡ s.outgoing
unfolding abort_all abort_incoming emit
abort_all-outgoing env reason [] s = refl
abort_all-outgoing env reason (id ∷ ids) s =
    ground (arith, abort_all-outgoing env reason ids (abort_incoming env s id reason))

is_from : DeviceId → Option IncomingTransfer → Bool
is_from device none = false
is_from device (some t) = t.from == device

member-transfers_from-absent :
    (device : DeviceId) (m : Map TransferId IncomingTransfer) (j : TransferId)
    → contains j m ≡ false
    → member j (transfers_from device m) ≡ false
unfolding transfers_from member lookup
member-transfers_from-absent device [] j h = refl
member-transfers_from-absent device ((id, t) ∷ m) j h =
    ground (arith, member-transfers_from-absent device m j)

member-transfers_from :
    (device : DeviceId) (m : Map TransferId IncomingTransfer) (j : TransferId)
    → distinct m ≡ true
    → member j (transfers_from device m) ≡ is_from device (lookup j m)
unfolding transfers_from member distinct lookup is_from
member-transfers_from device [] j h = refl
member-transfers_from device ((id, t) ∷ m) j h = ground (
  arith,
  member-transfers_from device m j,
  member-transfers_from-absent device m j,
  list_beq_iff nat_eq id j,
)

lookup-cancel_to :
    (device : DeviceId) (m : Map TransferId Outgoing) (j : TransferId)
    → lookup j (cancel_to device m)
      ≡ map_option
          (λ (o : Outgoing). if o.to == device then record o { cancelled = true } else o)
          (lookup j m)
unfolding cancel_to lookup
lookup-cancel_to device [] j = refl
lookup-cancel_to device ((id, o) ∷ m) j = ground (arith, lookup-cancel_to device m j)

-- What is left of an incoming and of an outgoing transfer when a device is gone.
abbrev pub survives : DeviceId → Option IncomingTransfer → Option IncomingTransfer
survives device none = none
survives device (some t) = if t.from == device then none else some t

abbrev pub cancel_for : DeviceId → Outgoing → Outgoing
cancel_for device o = if o.to == device then record o { cancelled = true } else o

-- If no transfer is filed twice, after the end of a connection it is gone, and no connection of
-- another device is; the incoming transfers of the device, and no others, are gone; and the outgoing
-- transfers to it, and no others, are told to stop.
pub end_connection-transfers :
    (env : Env) (s : Inner) (device : DeviceId) (channel : ℕ) (reason : Str) (id : TransferId)
    (d : DeviceId)
    → distinct s.incoming ≡ true
    → (lookup d (end_connection env s device channel reason).conns
        ≡ (if device == d then none else lookup d s.conns))
      × (lookup id (end_connection env s device channel reason).incoming
          ≡ survives device (lookup id s.incoming))
      × (lookup id (end_connection env s device channel reason).outgoing
          ≡ map_option (cancel_for device) (lookup id s.outgoing))
unfolding end_connection fail_transfers_for emit close is_from
end_connection-transfers env s device channel reason id d h =
    let s1 = close s channel in
    let s2 = record s1 { conns = remove device s1.conns } in
    let ids = transfers_from device s.incoming in
    (
      ground (arith, abort_all-conns env connection_closed ids s2, lookup-remove device d s.conns),
      ground (
        arith,
        lookup-abort_all env connection_closed ids s2 id,
        member-transfers_from device s.incoming id h,
        Option-cases (lookup id s.incoming),
      ),
      ground (
        arith,
        abort_all-outgoing env connection_closed ids s2,
        lookup-cancel_to device s.outgoing id,
      ),
    )
