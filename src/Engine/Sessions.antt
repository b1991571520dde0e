-- ===== src/Engine/Sessions.antt =====
-- desktop/src/engine/mod.rs: connections, peers and paired devices stay within their limits, and
-- the trust store stays valid, whatever a peer sends.
use antarloka.Prelude.{
  ◌≡◌, ◌≤◌, refl, Bool, some, arith, list_eq, nat_eq, Option-cases, inl, inr, length, Result, ok,
  err,
}
use antarloka.Prelude.Map.{lookup, adjust, length-adjust}
use antarloka.Text.{Bytes}
use antarloka.Util.Clamp.{clamp_str}
use antarloka.Proto.Message.{Message, Hello, PairRequest}
use antarloka.Security.Fingerprint.{DeviceId}
use antarloka.Security.Trust.{TrustStore, TrustError, add}
use antarloka.Security.Trust.Valid.{IsLossless, IsValid, add-IsValid, touch-IsValid}
use antarloka.Engine.State.{
  Inner, Params, Env, Conn, emit, send, send_raw, max_connections, max_peers,
}
use antarloka.Engine.Pairing.{
  save_trust, report_save, authorise, finalize, try_finalize_pairing, set_authorised, set_remote_ok,
}
use antarloka.Engine.Incoming.{on_offer, on_chunk}
use antarloka.Engine.Dispatch.{
  dispatch, on_hello, on_pair_request, on_pair_accept, on_text, on_stop, on_file_done,
  signal_outgoing,
}
use antarloka.Engine.Frame.{
  SameSessions, on_offer-SameSessions, on_chunk-SameSessions, on_file_done-SameSessions,
  on_stop-SameSessions,
}

-- The limits on connections and peers, and the store of paired devices.
pub record SessionsOk (s : Inner) : Type 0 where
  pub conns : length s.conns ≤ max_connections
  pub peers : length s.peers ≤ max_peers
  pub trust : IsValid s.trust

pub kept : (s t : Inner) → SameSessions s t → SessionsOk s → SessionsOk t
kept s t e o = record {
  conns = rw e.conns o.conns;
  peers = rw e.peers o.peers;
  trust = rw e.trust o.trust;
}

pub adjusted :
    (f : Conn → Conn) (s : Inner) (d : DeviceId)
    → SessionsOk s
    → SessionsOk (record s { conns = adjust f d s.conns })
adjusted f s d o = record {
  conns = omega (arith, length-adjust f d s.conns, o.conns);
  peers = o.peers;
  trust = o.trust;
}

module _ (px : Params) (env : Env) (lossless : IsLossless px.b64) where
  authorise-SessionsOk :
      (s : Inner) (d : DeviceId) (t : TrustStore)
      → IsValid t
      → SessionsOk s
      → SessionsOk (authorise px env d t s)
  unfolding authorise report_save save_trust emit
  authorise-SessionsOk s d t v o = ground (arith, length-adjust set_authorised d s.conns)

  finalized-SessionsOk :
      (s : Inner) (d : DeviceId) (r : Result TrustStore TrustError)
      → ((t : TrustStore) → r ≡ ok t → IsValid t)
      → SessionsOk s
      → SessionsOk (finalize px env d s r)
  unfolding finalize emit
  finalized-SessionsOk s d (ok t) v o = authorise-SessionsOk s d t (v t refl) o
  finalized-SessionsOk s d (err e) v o = ground arith

  finalize-SessionsOk :
      (s : Inner) (d : DeviceId) (c : Conn)
      → SessionsOk s
      → SessionsOk (finalize px env d s (add px.b64 s.trust c.key c.name env.now_ms))
  finalize-SessionsOk s d c o =
      finalized-SessionsOk s d (add px.b64 s.trust c.key c.name env.now_ms)
        (λ t e. add-IsValid px.b64 lossless s.trust t c.key c.name env.now_ms o.trust e) o

  pub try_finalize-SessionsOk :
      (s : Inner) (d : DeviceId) → SessionsOk s → SessionsOk (try_finalize_pairing px env s d)
  unfolding try_finalize_pairing
  try_finalize-SessionsOk s d o = elim (Option-cases (lookup d s.conns)) [
    | inl e ↦ ground arith
    | inr (c, e) ↦ ground (arith, finalize-SessionsOk s d c o)
  ]

  hello-SessionsOk :
      (a : Bool) (s : Inner) (d : DeviceId) (key : Bytes) (h : Hello)
      → SessionsOk s
      → SessionsOk (on_hello px env a s d key h)
  unfolding on_hello save_trust emit
  hello-SessionsOk a s d key h o = ground (
    arith,
    adjusted (λ (c : Conn). record c { name = clamp_str h.name 64 }) s d o,
    touch-IsValid px.b64 lossless s.trust key (clamp_str h.name 64) env.now_ms o.trust,
  )

  request-SessionsOk :
      (a : Bool) (s : Inner) (d : DeviceId) (p : PairRequest)
      → SessionsOk s
      → SessionsOk (on_pair_request env a s d p).1
  unfolding on_pair_request emit
  request-SessionsOk a s d p o = ground (
    arith,
    adjusted (λ (c : Conn). record c { name = clamp_str p.name 64; prompted_at = some env.now }) s d
        o,
  )

  pair_accept-SessionsOk :
      (s : Inner) (d : DeviceId) → SessionsOk s → SessionsOk (on_pair_accept px env s d)
  unfolding on_pair_accept
  pair_accept-SessionsOk s d o =
      try_finalize-SessionsOk (record s { conns = adjust set_remote_ok d s.conns }) d
        (adjusted set_remote_ok s d o)

  pub dispatch-SessionsOk :
      (a : Bool) (s : Inner) (d : DeviceId) (key : Bytes) (msg : Message)
      → SessionsOk s
      → SessionsOk (dispatch px env a s d key msg).1
  unfolding dispatch send_raw send emit on_text signal_outgoing
  dispatch-SessionsOk a s d key Message.ping o = ground arith
  dispatch-SessionsOk a s d key Message.pong o = o
  dispatch-SessionsOk a s d key (Message.hello h) o = hello-SessionsOk a s d key h o
  dispatch-SessionsOk a s d key (Message.pair_request p) o = request-SessionsOk a s d p o
  dispatch-SessionsOk a s d key Message.pair_accept o = pair_accept-SessionsOk s d o
  dispatch-SessionsOk a s d key (Message.pair_reject r) o = ground arith
  dispatch-SessionsOk a s d key (Message.text t) o = ground arith
  dispatch-SessionsOk a s d key (Message.text_ack id) o = o
  dispatch-SessionsOk a s d key (Message.file_offer x) o =
      kept s (on_offer px env s d key x) (on_offer-SameSessions px env s d key x) o
  dispatch-SessionsOk a s d key (Message.file_accept id) o = ground arith
  dispatch-SessionsOk a s d key (Message.file_reject r) o = ground arith
  dispatch-SessionsOk a s d key (Message.file_cancel r) o =
      kept s (on_stop env s r) (on_stop-SameSessions px env s r) o
  dispatch-SessionsOk a s d key (Message.file_error r) o =
      kept s (on_stop env s r) (on_stop-SameSessions px env s r) o
  dispatch-SessionsOk a s d key (Message.file_chunk id offset bytes) o =
      kept s (on_chunk px env s d key id offset bytes)
        (on_chunk-SameSessions px env s d key id offset bytes) o
  dispatch-SessionsOk a s d key (Message.file_done x) o =
      kept s (on_file_done env s x) (on_file_done-SameSessions px env s x) o
