-- ===== src/Tests/ListenerRuns.antt =====
-- Runs of the listener, of housekeeping, of the pairing URI, and of the loops on files and clocks.
use antarloka.Prelude.{ap}
use antarloka.Text.{Str}
use antarloka.Prelude.{
  ℕ, ◌≤◌, ◌≡◌, refl, Bool, true, false, ◌==◌, list_eq, nat_eq, List, [], ◌∷◌, arith, none, some, ok,
  if◌then◌else◌, list_beq, all, ltb,
}
use antarloka.Prelude.Map.{lookup}
use antarloka.Text.{codes}
use antarloka.Util.Lan.{IpAddr, v4, is_lan_addr}
use antarloka.Util.Clamp.{clamp_str}
use antarloka.Security.Fingerprint.{keys_equal}
use antarloka.Security.Trust.{get}
use antarloka.Engine.State.{Inner, Env, PeerEntry, SocketAddr}
use antarloka.Engine.Connection.{open_connection, standing, is_unexpected}
use antarloka.Engine.Listener.{Dialled, connect, dial, tick, complete_handshake}
use antarloka.Engine.Listener.Settled.{IsSettled, tick-IsSettled}
use antarloka.Engine.Listener.Admitted.{IsProven, connect-IsProven}
use antarloka.Engine.PairingUri.Target.{
  Texts, PairingTarget, parse_pairing_uri, pairing_uri, chosen_host, local_ipv4,
}
use antarloka.Engine.PairingUri.Dial.{dial_pairing_uri, dial_pairing_uri-IsProven}
use antarloka.Engine.PairingUri.Scanned.{IsTextual, parse_pairing_uri-pairing_uri}
use antarloka.Net.Discovery.Threads.{sleep_interruptible}
use antarloka.Net.Discovery.Threads.Rounds.{sleep_interruptible_ends}
use antarloka.Engine.Transfer.Hashing.{hash_file, hash_file_lem}
use antarloka.Tests.Samples.{
  params, good_env, state_with, conn_a, device_a, key_a, address_a, plain_digests,
}

-- A peer in sight at 99 seconds, whose connection has waited since 90.
abbrev visible : Inner
visible = record (state_with (conn_a false false false)) {
  peers =
      (
        device_a,
        record {
          info = record {
            device = device_a;
            name = codes "phone";
            platform = codes "android";
            addr = address_a;
            public_key = key_a;
            paired = false;
          };
          last_seen = 99;
        },
      )
      ∷ [];
}

-- Too late for both.
abbrev late : Env
late = record good_env { now = 300 }

tick-IsSettled_example : IsSettled params late visible (tick params late 260 visible).1
tick-IsSettled_example = tick-IsSettled params late 260 visible

-- `key_a` is proved at every address.
abbrev answers : SocketAddr → Dialled
answers addr = complete_handshake key_a [] 2

abbrev alone : Inner
alone = record visible { conns = [] }

connected : (connect params good_env answers device_a alone).0 ≡ true
unfolding connect dial open_connection standing get is_unexpected keys_equal lookup list_beq
    is_lan_addr
connected = refl

connect-IsProven_example :
    (p : PeerEntry) × (lookup device_a alone.peers ≡ some p)
    × IsProven params good_env answers alone
        (connect params good_env answers device_a alone).1
        p.info.addr
        p.info.public_key
connect-IsProven_example = connect-IsProven params good_env answers device_a alone connected

-- Stand-ins for base64, addresses and UTF-8, which know one address.
abbrev home : IpAddr
home = v4 192 168 1 7

abbrev texts : Texts
texts = record {
  b64url = record { to_text = λ b. b; from_text = λ s. some s };
  parse_ip = λ s. if s == codes "192.168.1.7" then some home else none;
  show_ip = λ ip. codes "192.168.1.7";
  utf8 = λ s. s;
  from_utf8_lossy = λ b. b;
}

abbrev interfaces : List (Bool × IpAddr)
interfaces = (true, v4 127 0 0 1) ∷ (false, home) ∷ []

texts-IsTextual : IsTextual texts key_a (chosen_host texts interfaces) home (codes "my desk")
unfolding all list_beq local_ipv4 is_lan_addr
texts-IsTextual = record {
  lossless = refl;
  field64 = refl;
  ips = refl;
  field_ips = refl;
  ascii = λ s h. refl;
  bytes = refl;
  decoded = refl;
}

parse_pairing_uri-pairing_uri_example :
    parse_pairing_uri texts (pairing_uri texts key_a 45821 interfaces (codes "my desk"))
    ≡ ok (record {
      public_key = key_a;
      host = home;
      port = 45821;
      name = clamp_str (codes "my desk") 64;
    })
parse_pairing_uri-pairing_uri_example =
    parse_pairing_uri-pairing_uri texts key_a 45821 interfaces home (codes "my desk")
      texts-IsTextual refl (omega arith) (omega arith)

-- The link of a peer with `key_a`.
abbrev link : Str
link = pairing_uri texts key_a 45821 interfaces (codes "my desk")

abbrev dialled : Bool × Inner
dialled = dial params good_env answers (record { ip = home; port = 45821 }) (some key_a) alone

dialled_is : dialled.0 ≡ true
unfolding dial open_connection standing get is_unexpected keys_equal lookup list_beq is_lan_addr
dialled_is = refl

link_dialled : dial_pairing_uri texts params good_env answers link alone ≡ ok (true, dialled.1)
unfolding dial_pairing_uri
link_dialled =
    let read =
      parse_pairing_uri-pairing_uri texts key_a 45821 interfaces home (codes "my desk")
        texts-IsTextual refl (omega arith) (omega arith) in
    rw read (ap ok (λ i. (dialled_is i, dialled.1)))

dial_pairing_uri-IsProven_example :
    (t : PairingTarget) × (parse_pairing_uri texts link ≡ ok t)
    × IsProven params good_env answers alone dialled.1
        (record { ip = t.host; port = t.port })
        t.public_key
dial_pairing_uri-IsProven_example =
    dial_pairing_uri-IsProven texts params good_env answers link alone dialled.1 link_dialled

-- The flag is cleared in the third round of a sleep of a second.
abbrev until_third : ℕ → Bool
until_third round = ltb round 2

sleep_interruptible_ends_example :
    (n : ℕ) × (sleep_interruptible 6 until_third 0 1000 ≡ some n)
    × (n ≤ 1000)
    × (((k : ℕ) → until_third k ≡ true) → n ≡ 1000)
sleep_interruptible_ends_example = sleep_interruptible_ends 5 until_third 0 1000 (omega arith)

-- The reads of a file of three bytes give one byte each.
hash_file_lem_example :
    hash_file plain_digests 4 (λ round. 0) (1 ∷ 2 ∷ 3 ∷ []) ≡ some (1 ∷ 2 ∷ 3 ∷ [], 3)
hash_file_lem_example = hash_file_lem plain_digests (λ round. 0) 4 (1 ∷ 2 ∷ 3 ∷ []) (omega arith)
