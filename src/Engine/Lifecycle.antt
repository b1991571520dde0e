-- ===== src/Engine/Lifecycle.antt =====
-- desktop/src/engine/mod.rs: what `run_connection` sets up.
use antarloka.Prelude.{
  sym, ap, ◌∙◌, ◌≡◌, ◌<◌, ◌⊎◌, refl, Bool, true, false, ◌||◌, Option, none, some, arith, list_eq,
  nat_eq, ◌==◌, beq_refl, length, leb, leb_false→lt, Bool-cases, inl, inr,
}
use antarloka.Prelude.Map.{lookup, insert, contains, lookup-insert}
use antarloka.Text.{Bytes}
use antarloka.Security.Fingerprint.{DeviceId, device_id, keys_equal_iff}
use antarloka.Security.Trust.{TrustedDevice, get, is_authorised}
use antarloka.Engine.State.{Inner, Params, Env, Conn, emit, send, close, max_connections}
use antarloka.Engine.Connection.{
  Handshaked, standing, is_unexpected, new_conn, greet, open_connection,
}
use antarloka.Engine.Dispatch.{conn_authorised}

-- A connection that got its reader: the peer proved the key that was expected, if one was, no entry of the trust store under its key is blocked, the new entry
-- is the first of its device, there was room for it, and it is authorised if and only if the store
-- authorises the key that the peer proved.
pub record Opened (px : Params) (s s' : Inner) (hs : Handshaked) (expected : Option Bytes)
    : Type 0 where
  pub is_expected : (k : Bytes) → expected ≡ some k → hs.remote_static ≡ k
  pub not_blocked :
      (d : TrustedDevice) → get px.b64 s.trust hs.remote_static ≡ some d → d.blocked ≡ false
  pub permitted :
      (is_authorised px.b64 s.trust hs.remote_static || s.config.allow_new_pairings) ≡ true
  pub is_first : lookup (device_id px.blake2s hs.remote_static) s.conns ≡ none
  pub room : length s.conns < max_connections
  pub authorised :
      conn_authorised s' (device_id px.blake2s hs.remote_static)
      ≡ is_authorised px.b64 s.trust hs.remote_static
  pub others :
      (d : DeviceId)
      → (device_id px.blake2s hs.remote_static == d) ≡ false
      → lookup d s'.conns ≡ lookup d s.conns
  pub approvals :
      (c : Conn) × (lookup (device_id px.blake2s hs.remote_static) s'.conns ≡ some c)
      × (c.key ≡ hs.remote_static)
      × (c.addr ≡ hs.peer_addr)
      × (c.local_ok ≡ false)
      × (c.remote_ok ≡ false)

module _ (px : Params) (env : Env) where
  greet-conns :
      (s : Inner) (hs : Handshaked) (device : DeviceId) (a w : Bool)
      → (greet px s hs device a w).conns ≡ s.conns
  unfolding greet emit send
  greet-conns s hs device a w = ground arith

  standing-authorised :
      (s : Inner) (key : Bytes) → (standing px s key).authorised ≡ is_authorised px.b64 s.trust key
  unfolding standing is_authorised
  standing-authorised s key = ground arith

  expected_key : (k key : Bytes) → is_unexpected (some k) key ≡ false → key ≡ k
  unfolding is_unexpected
  expected_key k key h = ground (arith, h, keys_equal_iff k key)

  standing-blocked :
      (s : Inner) (key : Bytes) (d : TrustedDevice)
      → get px.b64 s.trust key ≡ some d
      → (standing px s key).blocked ≡ d.blocked
  unfolding standing
  standing-blocked s key d e = ground (arith, e)

  admitted-Opened :
      (s : Inner) (hs : Handshaked) (w : Bool) (expected : Option Bytes)
      → is_unexpected expected hs.remote_static ≡ false
      → (standing px s hs.remote_static).blocked ≡ false
      → ((standing px s hs.remote_static).authorised || s.config.allow_new_pairings) ≡ true
      → contains (device_id px.blake2s hs.remote_static) s.conns ≡ false
      → leb max_connections (length s.conns) ≡ false
      → Opened px s
          (greet px
            (record s {
              conns =
                  insert
                    (device_id px.blake2s hs.remote_static)
                    (new_conn px env hs (standing px s hs.remote_static))
                    s.conns;
            })
            hs
            (device_id px.blake2s hs.remote_static)
            (standing px s hs.remote_static).authorised
            w)
          hs
          expected
  unfolding conn_authorised new_conn
  admitted-Opened s hs w expected x b p f r =
      let key = hs.remote_static in
      let device = device_id px.blake2s key in
      let c : Conn = new_conn px env hs (standing px s key) in
      let s1 = record s { conns = insert device c s.conns } in
      let same = greet-conns s1 hs device (standing px s key).authorised w in
      record {
        is_expected = λ k e. expected_key k key (sym (ap (λ o. is_unexpected o key) e) ∙ x);
        not_blocked = λ d e. ground (arith, b, standing-blocked s key d e);
        permitted = ground (arith, standing-authorised s key);
        is_first = ground arith;
        room = leb_false→lt _ _ r;
        authorised = ground (
          arith,
          same,
          lookup-insert device device c s.conns,
          beq_refl device,
          standing-authorised s key,
        );
        others = λ d n. ground (arith, same, lookup-insert device d c s.conns);
        approvals = (
          c,
          ground (arith, same, lookup-insert device device c s.conns, beq_refl device),
          refl,
          refl,
          refl,
          refl,
        );
      }

  -- The state of `admitted-Opened`.
  abbrev admitted : Inner → Handshaked → Bool → Inner
  admitted s hs w =
      greet px
        (record s {
          conns =
              insert (device_id px.blake2s hs.remote_static)
                (new_conn px env hs (standing px s hs.remote_static)) s.conns;
        })
        hs (device_id px.blake2s hs.remote_static) (standing px s hs.remote_static).authorised w

  open_connection-admitted :
      (s : Inner) (hs : Handshaked) (w : Bool) (expected : Option Bytes)
      → is_unexpected expected hs.remote_static ≡ false
      → (standing px s hs.remote_static).blocked ≡ false
      → ((standing px s hs.remote_static).authorised || s.config.allow_new_pairings) ≡ true
      → contains (device_id px.blake2s hs.remote_static) s.conns ≡ false
      → leb max_connections (length s.conns) ≡ false
      → open_connection px env s hs w expected ≡ (true, admitted s hs w)
  unfolding open_connection
  open_connection-admitted s hs w expected a b p f r = ground arith

  -- A handshake either leaves the connections as they were and gets no reader, or it gets one and
  -- everything that `Opened` lists holds.
  pub open_connection-Opened :
      (s : Inner) (hs : Handshaked) (we_dialed : Bool) (expected : Option Bytes)
      → ((open_connection px env s hs we_dialed expected).0 ≡ false)
          × ((open_connection px env s hs we_dialed expected).1.conns ≡ s.conns)
        ⊎ ((open_connection px env s hs we_dialed expected).0 ≡ true)
          × Opened px s (open_connection px env s hs we_dialed expected).1 hs expected
  unfolding open_connection emit close
  open_connection-Opened s hs w expected =
      let key = hs.remote_static in
      let device = device_id px.blake2s key in
      let st = standing px s key in
      elim (Bool-cases (is_unexpected expected key)) [
        | inl a ↦ inl (ground arith)
        | inr a ↦ elim (Bool-cases st.blocked) [
          | inl b ↦ inl (ground arith)
          | inr b ↦ elim (Bool-cases (st.authorised || s.config.allow_new_pairings)) [
            | inr p ↦ inl (ground arith)
            | inl p ↦ elim (Bool-cases (contains device s.conns)) [
              | inl f ↦ inl (ground arith)
              | inr f ↦ elim (Bool-cases (leb max_connections (length s.conns))) [
                | inl r ↦ inl (ground arith)
                | inr r ↦ inr (
                    rw (open_connection-admitted s hs w expected a b p f r)
                      (refl, admitted-Opened s hs w expected a b p f r))
              ]
            ]
          ]
        ]
      ]
