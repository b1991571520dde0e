-- ===== src/Engine/Pairing.antt =====
-- desktop/src/engine/mod.rs: `respond_pairing` and `try_finalize_pairing`.
use antarloka.Prelude.{
  Bool, true, false, not, ◌&&◌, none, some, if◌then◌else◌, Result, ok, err, list_eq, nat_eq,
}
use antarloka.Prelude.Map.{lookup, adjust}
use antarloka.Proto.Message.{Message}
use antarloka.Security.Fingerprint.{DeviceId}
use antarloka.Security.Trust.{TrustStore, TrustError, add}
use antarloka.Engine.State.{Inner, Params, Env, Conn, EngineEvent, emit, send, close, conn_info}
use antarloka.Engine.Texts.{
  connection_gone, rejected_by_user, pairing_not_stored, trust_not_written,
}

-- `let _ = t.save(..)`, and what is reported where the result is read.
unfoldable pub save_trust : Env → Inner → Inner
save_trust env s = if env.trust_written then record s { saved = some s.trust } else s

unfoldable pub report_save : Params → Env → Inner → Inner
report_save px env s =
    if env.trust_written then s else emit s (EngineEvent.error (trust_not_written px.io_error))

abbrev pub set_authorised : Conn → Conn
set_authorised c = record c { authorised = true; prompted_at = none }

abbrev pub set_local_ok : Conn → Conn
set_local_ok c = record c { local_ok = true }

abbrev pub set_remote_ok : Conn → Conn
set_remote_ok c = record c { remote_ok = true }

-- What follows the new entry in the trust store.
unfoldable pub authorise : Params → Env → DeviceId → TrustStore → Inner → Inner
authorise px env device trust s =
    let s1 = report_save px env (save_trust env (record s { trust = trust })) in
    let s2 = record s1 { conns = adjust set_authorised device s1.conns } in
    let s3 = emit (emit s2 (EngineEvent.pairing_finished device true)) EngineEvent.trust_changed in
    emit s3 (EngineEvent.connected (conn_info s3 device))

unfoldable pub finalize : Params → Env → DeviceId → Inner → Result TrustStore TrustError → Inner
finalize px env device s (ok trust) = authorise px env device trust s
finalize px env device s (err e) =
    emit s (EngineEvent.error (pairing_not_stored (px.show_trust_error e)))

unfoldable pub try_finalize_pairing : Params → Env → Inner → DeviceId → Inner
try_finalize_pairing px env s device = elim (lookup device s.conns) [
  | none ↦ s
  | some c ↦
      if c.local_ok && c.remote_ok && not c.authorised
      then finalize px env device s (add px.b64 s.trust c.key c.name env.now_ms)
      else s
]

unfoldable pub respond_pairing : Params → Env → Inner → DeviceId → Bool → Inner
respond_pairing px env s device accept = elim (lookup device s.conns) [
  | none ↦ emit s (EngineEvent.error connection_gone)
  | some c ↦
      if not accept
      then emit (close (send s c.sender (Message.pair_reject rejected_by_user)) c.sender)
          (EngineEvent.pairing_finished device false)
      else let s1 = record s { conns = adjust set_local_ok device s.conns } in
        try_finalize_pairing px env (send s1 c.sender Message.pair_accept) device
]
