-- ===== src/Engine/Paired.antt =====
-- desktop/src/engine/mod.rs: what two approvals lead to.
use antarloka.Prelude.{
  ℕ, ◌≡◌, refl, true, false, some, arith, ok, list_eq, nat_eq, sym, ◌∙◌, beq_refl, length, ap,
  nat_beq_iff,
}
use antarloka.Prelude.Map.{lookup, adjust, lookup-adjust}
use antarloka.Text.{Str, Bytes}
use antarloka.Proto.Message.{Message, allowed_before_pairing}
use antarloka.Security.Fingerprint.{DeviceId}
use antarloka.Security.Trust.{TrustStore, add, is_authorised}
use antarloka.Security.Trust.Valid.{IsLossless, IsValid}
use antarloka.Security.Trust.Authorised.{is_authorised-add}
use antarloka.Engine.State.{Inner, Params, Env, Conn, emit, send}
use antarloka.Engine.Pairing.{
  save_trust, report_save, authorise, finalize, try_finalize_pairing, respond_pairing,
  set_authorised, set_local_ok, set_remote_ok,
}
use antarloka.Engine.Dispatch.{conn_authorised, dispatch, on_message, on_pair_accept}

-- The connection and the store agree that the key is paired, and the file too if it was written.
record IsPaired (px : Params) (env : Env) (s : Inner) (device : DeviceId) (t : TrustStore)
    : Type 0 where
  conn : conn_authorised s device ≡ true
  trust : s.trust ≡ t
  saved : env.trust_written ≡ true → s.saved ≡ some t

module _ (px : Params) (env : Env) where
  authorise-IsPaired :
      (s : Inner) (device : DeviceId) (c : Conn) (t : TrustStore)
      → lookup device s.conns ≡ some c
      → IsPaired px env (authorise px env device t s) device t
  unfolding authorise report_save save_trust emit conn_authorised
  authorise-IsPaired s device c t e =
      ground (arith, lookup-adjust set_authorised device device s.conns, beq_refl device)

  try_finalize-IsPaired :
      (s : Inner) (device : DeviceId) (c : Conn) (t : TrustStore)
      → lookup device s.conns ≡ some c
      → c.local_ok ≡ true
      → c.remote_ok ≡ true
      → c.authorised ≡ false
      → add px.b64 s.trust c.key c.name env.now_ms ≡ ok t
      → IsPaired px env (try_finalize_pairing px env s device) device t
  unfolding try_finalize_pairing finalize
  try_finalize-IsPaired s device c t e l r a h = ground (arith, authorise-IsPaired s device c t e)

  -- What the two sides of a pairing come to.
  abbrev pub Pairs : Inner → DeviceId → Bytes → Type 0
  Pairs s device key =
      (conn_authorised s device ≡ true)
      × ((is_authorised px.b64 s.trust key ≡ true)
          × (env.trust_written ≡ true → s.saved ≡ some s.trust))

  add-length :
      (s t : TrustStore) (key : Bytes) (name : Str) (now : ℕ)
      → add px.b64 s key name now ≡ ok t
      → length key ≡ 32
  unfolding add
  add-length s t key name now h = ground (arith, nat_beq_iff (length key) 32)

  IsPaired-Pairs :
      (s s' : Inner) (device : DeviceId) (key : Bytes) (name : Str) (t : TrustStore)
      → IsLossless px.b64
      → IsValid s.trust
      → add px.b64 s.trust key name env.now_ms ≡ ok t
      → IsPaired px env s' device t
      → Pairs s' device key
  IsPaired-Pairs s s' device key name t lossless v h p = (
    p.conn,
    (
      ground (
        arith,
        p.trust,
        is_authorised-add px.b64 lossless s.trust t key key name env.now_ms v h
            (add-length s.trust t key name env.now_ms h),
        beq_refl key,
      ),
      λ w. p.saved w ∙ ap some (sym p.trust),
    ),
  )

  -- When the peer approves a pairing that the user here has approved, and the store takes the key,
  -- the connection is authorised, the store authorises the key, and the store on disk is the one
  -- in memory if it could be written.
  pub on_message-Pairs :
      (s : Inner) (device : DeviceId) (c : Conn) (t : TrustStore)
      → IsLossless px.b64
      → IsValid s.trust
      → lookup device s.conns ≡ some c
      → c.local_ok ≡ true
      → c.authorised ≡ false
      → add px.b64 s.trust c.key c.name env.now_ms ≡ ok t
      → Pairs (on_message px env s device c.key Message.pair_accept).1 device c.key
  unfolding on_message dispatch on_pair_accept allowed_before_pairing
  on_message-Pairs s device c t lossless v e l a h =
      let s1 = record s { conns = adjust set_remote_ok device s.conns } in
      let found : lookup device s1.conns ≡ some (set_remote_ok c) =
        ground (arith, lookup-adjust set_remote_ok device device s.conns, beq_refl device) in
      ground (
        arith,
        IsPaired-Pairs s (try_finalize_pairing px env s1 device) device c.key c.name t lossless v h
            (try_finalize-IsPaired s1 device (set_remote_ok c) t found l refl a h),
      )

  -- When the user here approves a pairing that the peer has approved, the same holds.
  pub respond_pairing-Pairs :
      (s : Inner) (device : DeviceId) (c : Conn) (t : TrustStore)
      → IsLossless px.b64
      → IsValid s.trust
      → lookup device s.conns ≡ some c
      → c.remote_ok ≡ true
      → c.authorised ≡ false
      → add px.b64 s.trust c.key c.name env.now_ms ≡ ok t
      → Pairs (respond_pairing px env s device true) device c.key
  unfolding respond_pairing send
  respond_pairing-Pairs s device c t lossless v e r a h =
      let s1 = record s { conns = adjust set_local_ok device s.conns } in
      let s2 = send s1 c.sender Message.pair_accept in
      let found : lookup device s2.conns ≡ some (set_local_ok c) =
        ground (arith, lookup-adjust set_local_ok device device s.conns, beq_refl device) in
      ground (
        arith,
        IsPaired-Pairs s (try_finalize_pairing px env s2 device) device c.key c.name t lossless v h
            (try_finalize-IsPaired s2 device (set_local_ok c) t found refl r a h),
      )
