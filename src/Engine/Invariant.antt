-- ===== src/Engine/Invariant.antt =====
-- desktop/src/engine/mod.rs: an invariant of the whole engine, kept by `on_message` and by the
-- answers of the user.
use antarloka.Prelude.{
  ℕ, ◌≡◌, refl, Bool, true, not, ◌&&◌, arith, list_eq, nat_eq, Option-cases, Bool-cases, inl, inr,
}
use antarloka.Prelude.Map.{lookup, adjust}
use antarloka.Text.{Bytes}
use antarloka.Proto.Message.{Message, TransferId, allowed_before_pairing}
use antarloka.Security.Fingerprint.{DeviceId}
use antarloka.Security.Trust.Valid.{IsLossless}
use antarloka.Engine.State.{Inner, Params, Env, emit, send, send_raw, close}
use antarloka.Engine.Pairing.{try_finalize_pairing, respond_pairing, set_local_ok}
use antarloka.Engine.Incoming.{respond_offer}
use antarloka.Engine.Dispatch.{dispatch, on_message, on_text, signal_outgoing, conn_authorised}
use antarloka.Engine.Bounds.{
  TransfersOk, same_table, on_offer-TransfersOk, on_chunk-TransfersOk, on_stop-TransfersOk,
  on_file_done-TransfersOk, respond_offer-TransfersOk,
}
use antarloka.Engine.Frame.{respond_offer-SameSessions, try_finalize-SameFiles}
use antarloka.Engine.Gate.{dispatch-SameFiles}
use antarloka.Engine.Sessions.{
  SessionsOk, kept, adjusted, try_finalize-SessionsOk, dispatch-SessionsOk,
}

-- The invariant: every table keeps its limit and the trust store is well formed.
pub record IsWellFormed (s : Inner) : Type 0 where
  pub sessions : SessionsOk s
  pub transfers : TransfersOk s

-- The user's answer to an offer keeps the invariant.
pub respond_offer-IsWellFormed :
    (px : Params) (env : Env) (s : Inner) (id : TransferId) (answer : Bool)
    → IsWellFormed s
    → IsWellFormed (respond_offer px env s id answer)
respond_offer-IsWellFormed px env s id answer w = record {
  sessions =
      kept s (respond_offer px env s id answer) (respond_offer-SameSessions px env s id answer)
        w.sessions;
  transfers = respond_offer-TransfersOk px env s id answer w.transfers;
}

module _ (px : Params) (env : Env) (lossless : IsLossless px.b64) where
  early-TransfersOk :
      (a : Bool) (s : Inner) (d : DeviceId) (key : Bytes) (msg : Message)
      → allowed_before_pairing msg ≡ true
      → TransfersOk s
      → TransfersOk (dispatch px env a s d key msg).1
  early-TransfersOk a s d key msg h o =
      same_table s (dispatch px env a s d key msg).1
        (dispatch-SameFiles px env a s d key msg h).incoming o

  dispatch-TransfersOk :
      (a : Bool) (s : Inner) (d : DeviceId) (key : Bytes) (msg : Message)
      → TransfersOk s
      → TransfersOk (dispatch px env a s d key msg).1
  unfolding dispatch send_raw send emit on_text signal_outgoing allowed_before_pairing
  dispatch-TransfersOk a s d key Message.ping o = early-TransfersOk a s d key Message.ping refl o
  dispatch-TransfersOk a s d key Message.pong o = o
  dispatch-TransfersOk a s d key (Message.hello h) o =
      early-TransfersOk a s d key (Message.hello h) refl o
  dispatch-TransfersOk a s d key (Message.pair_request p) o =
      early-TransfersOk a s d key (Message.pair_request p) refl o
  dispatch-TransfersOk a s d key Message.pair_accept o =
      early-TransfersOk a s d key Message.pair_accept refl o
  dispatch-TransfersOk a s d key (Message.pair_reject r) o =
      early-TransfersOk a s d key (Message.pair_reject r) refl o
  dispatch-TransfersOk a s d key (Message.text t) o = ground arith
  dispatch-TransfersOk a s d key (Message.text_ack id) o = o
  dispatch-TransfersOk a s d key (Message.file_offer x) o = on_offer-TransfersOk px env s d key x o
  dispatch-TransfersOk a s d key (Message.file_accept id) o = ground arith
  dispatch-TransfersOk a s d key (Message.file_reject r) o = ground arith
  dispatch-TransfersOk a s d key (Message.file_cancel r) o = on_stop-TransfersOk px env s r o
  dispatch-TransfersOk a s d key (Message.file_error r) o = on_stop-TransfersOk px env s r o
  dispatch-TransfersOk a s d key (Message.file_chunk id offset bytes) o =
      on_chunk-TransfersOk px env s d key id offset bytes o
  dispatch-TransfersOk a s d key (Message.file_done x) o = on_file_done-TransfersOk px env s x o

  -- Every message of every peer keeps the invariant.
  pub on_message-IsWellFormed :
      (s : Inner) (d : DeviceId) (key : Bytes) (msg : Message)
      → IsWellFormed s
      → IsWellFormed (on_message px env s d key msg).1
  unfolding on_message
  on_message-IsWellFormed s d key msg w =
      let a = conn_authorised s d in
      let after : IsWellFormed (dispatch px env a s d key msg).1 = record {
        sessions = dispatch-SessionsOk px env lossless a s d key msg w.sessions;
        transfers = dispatch-TransfersOk a s d key msg w.transfers;
      } in
      elim (Bool-cases (not a && not (allowed_before_pairing msg))) [
        | inl refused ↦ rw refused w
        | inr passed ↦ rw passed after
      ]

  approved-IsWellFormed :
      (s : Inner) (d : DeviceId) (channel : ℕ)
      → IsWellFormed s
      → IsWellFormed (
          try_finalize_pairing px env
            (send (record s { conns = adjust set_local_ok d s.conns }) channel Message.pair_accept)
            d)
  unfolding send
  approved-IsWellFormed s d channel w =
      let s1 =
        send (record s { conns = adjust set_local_ok d s.conns }) channel Message.pair_accept in
      record {
        sessions =
            try_finalize-SessionsOk px env lossless s1 d
              (ground (arith, adjusted set_local_ok s d w.sessions));
        transfers =
            same_table s (try_finalize_pairing px env s1 d)
              (try_finalize-SameFiles px env s1 d).incoming w.transfers;
      }

  -- The user's answer to a pairing keeps the invariant.
  pub respond_pairing-IsWellFormed :
      (s : Inner) (d : DeviceId) (answer : Bool)
      → IsWellFormed s
      → IsWellFormed (respond_pairing px env s d answer)
  unfolding respond_pairing send close emit
  respond_pairing-IsWellFormed s d answer w = elim (Option-cases (lookup d s.conns)) [
    | inl e ↦ ground arith
    | inr (c, e) ↦ ground (arith, approved-IsWellFormed s d c.sender w)
  ]
