-- ===== src/Engine/Listener/Admitted.antt =====
-- What is known of a connection that was let in, and of one that was dialled.
use antarloka.Prelude.{
  ℕ, ap, ◌∙◌, ◌≡◌, ◌<◌, refl, true, Option, none, some, inl, inr, arith, length, list_eq, nat_eq,
  Eq, Option-cases,
}
use antarloka.Prelude.Map.{Map, lookup}
use antarloka.Text.{Bytes}
use antarloka.Util.Lan.{IpAddr, is_lan_addr}
use antarloka.Security.Fingerprint.{DeviceId}
use antarloka.Net.RateLimit.{guard_allow}
use antarloka.Engine.State.{Inner, Params, Env, SocketAddr, PeerEntry, max_connections}
use antarloka.Engine.Connection.{Handshaked, open_connection}
use antarloka.Engine.Lifecycle.{Opened, open_connection-Opened}
use antarloka.Engine.Listener.{
  admit, dial, connect, Dialled, unreachable, no_handshake, complete_handshake,
}

module _ ⦃e : Eq IpAddr⦄ where
  -- An inbound connection is let in only from an address that can be named, while connections are
  -- accepted and there is room, from the local network if the settings say so, and within the
  -- limiter.
  pub admit_only :
      (guard : Map IpAddr (ℕ × ℕ)) (now : ℕ) (addr : Option SocketAddr) (s : Inner)
      → (admit guard now addr s).0 ≡ true
      → (a : SocketAddr) × (addr ≡ some a)
        × (s.config.accept_incoming ≡ true)
        × (s.config.lan_only ≡ true → is_lan_addr a.ip ≡ true)
        × (length s.conns < max_connections)
        × ((guard_allow guard now a.ip).0 ≡ true)
  unfolding admit
  admit_only guard now none s h = ground (arith, h)
  admit_only guard now (some a) s h = (
    a,
    refl,
    ground (arith, h),
    λ lan. ground (arith, h, lan),
    ground (arith, h),
    ground (arith, h),
  )

module _ (px : Params) (env : Env) (network : SocketAddr → Dialled) where
  -- What was found at the address completed a handshake in which it proved the key; the address is one
  -- that the settings allow; and the connection is the one that `Opened` tells of, at that address.
  pub record IsProven (s next : Inner) (addr : SocketAddr) (key : Bytes) : Type 0 where
    pub hs : Handshaked
    pub completed : network addr ≡ complete_handshake key hs.handshake_hash hs.channel
    pub proven : hs.remote_static ≡ key
    pub at_addr : hs.peer_addr ≡ addr
    pub in_lan : s.config.lan_only ≡ true → is_lan_addr addr.ip ≡ true
    pub is_opened : Opened px s next hs (some key)

  -- The handshake that `dial` makes of an answer.
  abbrev shaken : SocketAddr → Bytes → Bytes → ℕ → Handshaked
  shaken addr key transcript channel = record {
    remote_static = key;
    handshake_hash = transcript;
    peer_addr = addr;
    channel = channel;
  }

  dial_reaches :
      (answer : Dialled) (addr : SocketAddr) (expected : Option Bytes) (s : Inner)
      → network addr ≡ answer
      → (dial px env network addr expected s).0 ≡ true
      → (k : Bytes) × (h : Bytes) × (c : ℕ) × (answer ≡ complete_handshake k h c)
        × (s.config.lan_only ≡ true → is_lan_addr addr.ip ≡ true)
        × (dial px env network addr expected s
            ≡ open_connection px env s (shaken addr k h c) true expected)
  unfolding dial
  dial_reaches (unreachable why) addr expected s e h = ground (arith, h, e)
  dial_reaches (no_handshake why) addr expected s e h = ground (arith, h, e)
  dial_reaches (complete_handshake k t c) addr expected s e h =
      (k, t, c, refl, λ lan. ground (arith, h, lan, e), ground (arith, h, e))

  pub dial-IsProven :
      (addr : SocketAddr) (key : Bytes) (s : Inner)
      → (dial px env network addr (some key) s).0 ≡ true
      → IsProven s (dial px env network addr (some key) s).1 addr key
  dial-IsProven addr key s h =
      let (k, t, c, done, lan, same) = dial_reaches (network addr) addr (some key) s refl h in
      let hs = shaken addr k t c in
      elim (open_connection-Opened px env s hs true (some key)) [
        | inl (refused, _) ↦ ground (arith, h, same, refused)
        | inr (_, opened) ↦
            let proven : k ≡ key = opened.is_expected key refl in
            rw same (record {
              hs = hs;
              completed = done ∙ ap (λ x. complete_handshake x t c) proven;
              proven = proven;
              at_addr = refl;
              in_lan = lan;
              is_opened = opened;
            })
      ]

  -- A connection that `connect` made is with a peer in sight, at the address of its beacon (in the
  -- local network, if the settings say so), that proved the key of its beacon, and that is not
  -- blocked.
  pub connect-IsProven :
      (device : DeviceId) (s : Inner)
      → (connect px env network device s).0 ≡ true
      → (p : PeerEntry) × (lookup device s.peers ≡ some p)
        × IsProven s (connect px env network device s).1 p.info.addr p.info.public_key
  unfolding connect
  connect-IsProven device s h = elim (Option-cases (lookup device s.peers)) [
    | inl e ↦ ground (arith, h, e)
    | inr (p, e) ↦ (
      p,
      e,
      rw (connect, e) (dial-IsProven p.info.addr p.info.public_key s (ground (arith, h, e))),
    )
  ]
