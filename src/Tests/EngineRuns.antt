-- ===== src/Tests/EngineRuns.antt =====
-- Runs of desktop/src/engine/mod.rs.
use antarloka.Prelude.{
  ◌≡◌, ◌⊎◌, refl, true, false, ◌&&◌, ◌==◌, list_eq, nat_eq, [], ◌∷◌, arith, none, some, ok,
  if◌then◌else◌, list_beq,
}
use antarloka.Prelude.Map.{lookup, insert_sorted, distinct, map_option}
use antarloka.Text.{Bytes, codes}
use antarloka.Proto.Message.{Message, FileDone}
use antarloka.Security.Fingerprint.{keys_equal}
use antarloka.Security.Trust.{TrustStore, add, new_device}
use antarloka.Security.Trust.Valid.{IsValid}
use antarloka.Engine.State.{Inner, Conn}
use antarloka.Engine.Incoming.{on_chunk}
use antarloka.Engine.Dispatch.{on_message, conn_authorised, on_file_done}
use antarloka.Engine.Connection.{open_connection, end_connection}
use antarloka.Engine.Frame.{SameFiles}
use antarloka.Engine.Gate.{Approved, news, on_message-SameFiles}
use antarloka.Engine.Paired.{Pairs, on_message-Pairs}
use antarloka.Engine.Lifecycle.{Opened, open_connection-Opened}
use antarloka.Engine.Ending.{survives, cancel_for, end_connection-transfers}
use antarloka.Engine.Owner.{is_owner, unfinished, on_chunk-others, lookup-on_file_done}
use antarloka.Engine.Invariant.{IsWellFormed}
use antarloka.Engine.Steps.{message, at_start, then_step, start, Reachable-IsWellFormed}
use antarloka.Engine.Granted.{Grants, step-authorised}
use antarloka.Prelude.{length, List, ◌+◌, ◌<◌, ◌^◌}
use antarloka.Engine.Transfer.Stream.{concat}
use antarloka.Engine.Sending.{Sender}
use antarloka.Engine.Sending.Rounds.{IsQuiet, HandsOver, send_rounds, send_rounds-HandsOver}
use antarloka.Tests.Samples.{
  params, good_env, state_with, conn_a, device_a, key_a, key_b, transfer_id, transfer_a, config,
  empty_store, handshake_a, plain64, plain64-IsLossless,
}

abbrev half_paired : Inner
half_paired = state_with (conn_a false true false)

abbrev store_after : TrustStore
store_after = record { devices = (key_a, new_device key_a (codes "phone") 100_000) ∷ [] }

empty-IsValid : IsValid empty_store
unfolding lookup
empty-IsValid = record { filed = λ k d h. cc; bounded = omega arith }

phone_added : add plain64 empty_store key_a (codes "phone") 100_000 ≡ ok store_after
unfolding add lookup insert_sorted
phone_added = refl

found : (c : Conn) → lookup device_a (state_with c).conns ≡ some c
unfolding lookup list_beq
found c = refl

on_message-Pairs_example :
    Pairs params good_env
      (on_message params good_env half_paired device_a key_a Message.pair_accept).1
      device_a
      key_a
on_message-Pairs_example =
    on_message-Pairs params good_env half_paired device_a (conn_a false true false) store_after
      plain64-IsLossless empty-IsValid (found (conn_a false true false)) refl refl phone_added

abbrev asked : Inner
asked = state_with (conn_a false false true)

authorised_after :
    conn_authorised
      (on_message params good_env half_paired device_a key_a Message.pair_accept).1
      device_a
    ≡ true
authorised_after = on_message-Pairs_example.0

step-authorised_example :
    (conn_authorised half_paired device_a ≡ true)
    ⊎ Grants {px = params}
        (message good_env half_paired device_a key_a Message.pair_accept)
        device_a
step-authorised_example =
    step-authorised {px = params} (message good_env half_paired device_a key_a Message.pair_accept)
      device_a authorised_after

unpaired : conn_authorised half_paired device_a ≡ false
unfolding conn_authorised lookup list_beq
unpaired = refl

abbrev chunk : Message
chunk = Message.file_chunk transfer_id 0 (1 ∷ [])

on_message-SameFiles_example :
    SameFiles half_paired (on_message params good_env half_paired device_a key_a chunk).1
    × (news (on_message params good_env half_paired device_a key_a chunk).1 ≡ news half_paired)
    × Approved params good_env half_paired
        (on_message params good_env half_paired device_a key_a chunk).1
        device_a
        chunk
on_message-SameFiles_example =
    on_message-SameFiles params good_env half_paired device_a key_a chunk unpaired

Reachable-IsWellFormed_example :
    IsWellFormed
      (on_message params good_env (start config empty_store []) device_a key_a Message.ping).1
Reachable-IsWellFormed_example =
    Reachable-IsWellFormed params plain64-IsLossless config empty_store []
      (on_message params good_env (start config empty_store []) device_a key_a Message.ping).1
      empty-IsValid
      (then_step at_start
        (message good_env (start config empty_store []) device_a key_a Message.ping))

open_connection-Opened_example :
    ((open_connection params good_env (start config empty_store []) handshake_a true none).0
        ≡ false)
      × ((open_connection params good_env
            (start config empty_store [])
            handshake_a
            true
            none).1.conns
          ≡ (start config empty_store []).conns)
    ⊎ ((open_connection params good_env (start config empty_store []) handshake_a true none).0
        ≡ true)
      × Opened params
          (start config empty_store [])
          (open_connection params good_env (start config empty_store []) handshake_a true none).1
          handshake_a
          none
open_connection-Opened_example =
    open_connection-Opened params good_env (start config empty_store []) handshake_a true none

once : distinct half_paired.incoming ≡ true
unfolding distinct lookup
once = refl

end_connection-transfers_example :
    (lookup key_b (end_connection good_env half_paired device_a 1 []).conns
      ≡ (if device_a == key_b then none else lookup key_b half_paired.conns))
    × (lookup transfer_id (end_connection good_env half_paired device_a 1 []).incoming
        ≡ survives device_a (lookup transfer_id half_paired.incoming))
    × (lookup transfer_id (end_connection good_env half_paired device_a 1 []).outgoing
        ≡ map_option (cancel_for device_a) (lookup transfer_id half_paired.outgoing))
end_connection-transfers_example =
    end_connection-transfers good_env half_paired device_a 1 [] transfer_id key_b once

held : lookup transfer_id half_paired.incoming ≡ some transfer_a
unfolding lookup list_beq
held = refl

-- Another key on the same device.
foreign : (transfer_id == transfer_id && is_owner transfer_a device_a key_b) ≡ false
unfolding keys_equal list_beq
foreign = refl

on_chunk-others_example :
    lookup transfer_id
      (on_chunk params good_env half_paired device_a key_b transfer_id 0 (1 ∷ [])).incoming
    ≡ some transfer_a
on_chunk-others_example =
    on_chunk-others params good_env half_paired device_a key_b transfer_id 0 (1 ∷ []) transfer_id
      transfer_a held foreign

abbrev done_message : FileDone
done_message = record { id = transfer_id; sha256 = [] }

lookup-on_file_done_example :
    lookup transfer_id (on_file_done good_env half_paired done_message).incoming ≡ (
      if transfer_id == transfer_id && unfinished (lookup transfer_id half_paired.incoming)
      then none
      else lookup transfer_id half_paired.incoming)
lookup-on_file_done_example = lookup-on_file_done good_env half_paired done_message transfer_id

-- The same device, paired, to which a file of three bytes is on its way.
abbrev sending : Inner
sending = record (state_with (conn_a true true true)) {
  outgoing =
      (transfer_id, record { to = device_a; name = []; size = 3; signals = []; cancelled = false })
      ∷ [];
}

abbrev sender : Sender
sender = record {
  to = device_a;
  id = transfer_id;
  name = [];
  path = [];
  size = 3;
  offset = 0;
  chunk_no = 0;
}

sending-IsQuiet : IsQuiet 1 sending sender
unfolding lookup list_beq
sending-IsQuiet = record {
  conn = conn_a true true true;
  connected = refl;
  paired = refl;
  through = refl;
  entry = record { to = device_a; name = []; size = 3; signals = []; cancelled = false };
  filed = refl;
  going = refl;
  silent = refl;
}

abbrev two_pieces : List Bytes
two_pieces = (1 ∷ 2 ∷ []) ∷ (3 ∷ []) ∷ []

short_file : 0 + length (concat two_pieces) < 2 ^ 64
unfolding concat
short_file = omega arith

send_rounds-HandsOver_example :
    HandsOver 1 two_pieces sending sender (send_rounds params good_env two_pieces sending sender)
send_rounds-HandsOver_example =
    send_rounds-HandsOver params good_env refl 1 two_pieces sending sender sending-IsQuiet
      short_file
