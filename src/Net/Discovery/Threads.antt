-- ===== src/Net/Discovery/Threads.antt =====
-- desktop/src/net/discovery.rs: the two threads of discovery, a round at a time.
pub mod Rounds
use antarloka.Prelude.{
  ℕ, zero, suc, ◌+◌, ◌-◌, ◌*◌, ◌/◌, ◌%◌, ◌≤◌, ◌<◌, ◌≡◌, refl, Bool, true, false, not, ◌&&◌, List,
  [], ◌∷◌, ◌++◌, Option, none, some, ltb, leb, min, ◌==◌, nat_eq, if◌then◌else◌, length, arith, map,
  Eq, Bool-cases, inl, inr, ltb_false→le, ltb→lt,
}
use antarloka.Prelude.Map.{Map, map_option}
use antarloka.Text.{Bytes}
use antarloka.Util.Lan.{IpAddr, v4}
use antarloka.Proto.Codec.{Json}
use antarloka.Security.Base64.{Base64}
use antarloka.Engine.State.{SocketAddr}
use antarloka.Net.RateLimit.{limiter_allow}
use antarloka.Net.Discovery.{
  Beacon, BeaconInfo, DiscoveredPeer, max_beacon_bytes, encode_beacon, validate_beacon,
}

abbrev pub discovery_port : ℕ
discovery_port = 45820

abbrev pub multicast_group : IpAddr
multicast_group = v4 239 255 79 20

module _ (b64 : Base64) (json : Json Beacon) (blake2s : Bytes → Bytes) ⦃e : Eq IpAddr⦄ where
  -- One round of the listener, over what `recv_from` gave: the peer that is handed on, and the
  -- limiter after it. A datagram that is too long is not counted.
  unfoldable pub listen_once :
      Bytes
      → Map IpAddr (ℕ × ℕ)
      → ℕ
      → Option (Bytes × SocketAddr)
      → Option DiscoveredPeer × Map IpAddr (ℕ × ℕ)
  listen_once own_pk limiter now none = (none, limiter)
  listen_once own_pk limiter now (some (raw, src)) =
      if ltb max_beacon_bytes (length raw)
      then (none, limiter)
      else let (allowed, after) = limiter_allow limiter now src.ip in
        (if allowed then validate_beacon b64 json blake2s raw src own_pk else none, after)

-- `interface_broadcasts`: an interface is whether it is the loopback, and its broadcast address if
-- it has one; an address is the number that it is on the wire.
unfoldable pub broadcasts_of : List (Bool × Option ℕ) → List ℕ
broadcasts_of [] = []
broadcasts_of ((loopback, broadcast) ∷ ifaces) =
    let rest = broadcasts_of ifaces in
    if loopback then rest else elim broadcast [ none ↦ rest | some b ↦ b ∷ rest ]

-- `out.sort()`
unfoldable pub insert_number : ℕ → List ℕ → List ℕ
insert_number a [] = a ∷ []
insert_number a (b ∷ bs) = let rest = insert_number a bs in if leb a b then a ∷ b ∷ bs else b ∷ rest

unfoldable pub sort_numbers : List ℕ → List ℕ
sort_numbers [] = []
sort_numbers (a ∷ as') = insert_number a (sort_numbers as')

-- `out.dedup()`
unfoldable pub dedup : List ℕ → List ℕ
dedup [] = []
dedup (a ∷ []) = a ∷ []
dedup (a ∷ b ∷ bs) = let rest = dedup (b ∷ bs) in if a == b then rest else a ∷ rest

unfoldable pub interface_broadcasts : List (Bool × Option ℕ) → List ℕ
interface_broadcasts ifaces = dedup (sort_numbers (broadcasts_of ifaces))

-- The address that is the number on the wire.
abbrev pub octets : ℕ → IpAddr
octets n = v4 (n / 16_777_216) (n / 65_536 % 256) (n / 256 % 256) (n % 256)

-- Where one announcement goes: two fixed addresses, and the broadcast address of each interface.
unfoldable pub announcement :
    Base64 → Json Beacon → BeaconInfo → List (Bool × Option ℕ) → Option (Bytes × List SocketAddr)
announcement b64 json info ifaces =
    elim (if info.announce then encode_beacon b64 json info else none) [
      | none ↦ none
      | some payload ↦ some (
        payload,
        map (λ ip. record { ip = ip; port = discovery_port })
            (v4 255 255 255 255 ∷ multicast_group ∷ map octets (interface_broadcasts ifaces)),
      )
    ]

abbrev pub sleep_step : ℕ
sleep_step = 200

-- `sleep_interruptible`, in milliseconds: how long it slept, if the rounds suffice. `running` is
-- what the flag holds in each round.
unfoldable pub sleep_interruptible : ℕ → (ℕ → Bool) → ℕ → ℕ → Option ℕ
sleep_interruptible zero running round left = none
sleep_interruptible (suc fuel) running round left =
    let rest = sleep_interruptible fuel running (suc round) (left - min sleep_step left) in
    if ltb 0 left && running round then map_option (λ n. min sleep_step left + n) rest else some 0
