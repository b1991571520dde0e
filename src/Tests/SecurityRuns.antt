-- ===== src/Tests/SecurityRuns.antt =====
-- Runs of desktop/src/security, desktop/src/net/discovery.rs and the limiter of handshakes.
use antarloka.Prelude.{
  ℕ, ◌≡◌, ◌≤◌, refl, true, ◌||◌, ◌==◌, nat_eq, list_eq, [], ◌∷◌, length, arith, some, ok,
  list_beq_iff, list_beq,
}
use antarloka.Prelude.Map.{lookup, insert_sorted}
use antarloka.Text.{codes}
use antarloka.Util.Clamp.{clamp_str}
use antarloka.Util.Lan.{is_lan_addr}
use antarloka.Proto.Codec.{Json}
use antarloka.Security.Fingerprint.{device_id, keys_equal}
use antarloka.Security.Trust.{TrustStore, get, key_bytes, is_authorised, add, new_device}
use antarloka.Security.Trust.Valid.{IsValid}
use antarloka.Security.Trust.Authorised.{is_authorised-add}
use antarloka.Net.Discovery.{
  Beacon, BeaconInfo, DiscoveredPeer, check_beacon, encode_beacon, validate_beacon,
  max_beacon_bytes,
}
use antarloka.Net.Discovery.Checked.{
  IsChecked, validate_beacon-IsChecked, validate_beacon-encode_beacon,
}
use antarloka.Net.RateLimit.Budget.{budget, used, let_in, in_minute, let_in-le}
use antarloka.Prelude.{◌+◌, ◌<◌, ◌^◌, List}
use antarloka.Prelude.Map.{Map, distinct}
use antarloka.Tests.Samples.{
  plain64, plain64-IsLossless, drop_prefix, key_a, key_b, address_a, empty_store,
}

empty_store-IsValid : IsValid empty_store
unfolding lookup
empty_store-IsValid = record { filed = λ k d h. cc; bounded = omega arith }

abbrev store_a : TrustStore
store_a = record { devices = (key_a, new_device key_a (codes "phone") 5) ∷ [] }

store_a-IsValid : IsValid store_a
unfolding lookup
store_a-IsValid = record {
  filed = λ k d h. ground (arith, list_beq_iff nat_eq key_a k);
  bounded = omega arith;
}

added_a : add plain64 empty_store key_a (codes "phone") 5 ≡ ok store_a
unfolding add lookup insert_sorted
added_a = refl

is_authorised-add_example :
    is_authorised plain64 store_a key_b
    ≡ (key_a == key_b || is_authorised plain64 empty_store key_b)
is_authorised-add_example =
    is_authorised-add plain64 plain64-IsLossless empty_store store_a key_a key_b (codes "phone") 5
      empty_store-IsValid added_a refl

authorised_a : is_authorised plain64 store_a key_a ≡ true
unfolding is_authorised get key_bytes lookup keys_equal list_beq
authorised_a = refl

-- A parser that knows one beacon.
abbrev info_b : BeaconInfo
info_b = record {
  public_key = key_b;
  name = codes "laptop";
  port = 45821;
  platform = codes "linux";
  announce = true;
}

abbrev one_beacon : Json Beacon
one_beacon = record {
  to_writer = λ b. some (1 ∷ []);
  from_slice = λ r. some (record {
    m = codes "SYNCMOB";
    v = 1;
    pk = key_b;
    name = clamp_str (codes "laptop") 32;
    port = 45821;
    platform = codes "linux";
  });
}

abbrev peer_b : DiscoveredPeer
peer_b = record {
  device_id = device_id drop_prefix key_b;
  public_key = key_b;
  name = clamp_str (clamp_str (codes "laptop") 32) 32;
  platform = clamp_str (codes "linux") 16;
  addr = record { ip = address_a.ip; port = 45821 };
}

encoded_b : encode_beacon plain64 one_beacon info_b ≡ some (1 ∷ [])
unfolding encode_beacon
encoded_b = refl

in_lan_a : is_lan_addr address_a.ip ≡ true
unfolding is_lan_addr
in_lan_a = refl

validate_beacon-encode_beacon_example :
    validate_beacon plain64 one_beacon drop_prefix (1 ∷ []) address_a key_a ≡ some peer_b
validate_beacon-encode_beacon_example =
    validate_beacon-encode_beacon plain64 one_beacon drop_prefix info_b (1 ∷ []) address_a key_a
      plain64-IsLossless refl encoded_b in_lan_a refl (λ e. cc) (λ e. omega arith)

believed_b : validate_beacon plain64 one_beacon drop_prefix (1 ∷ []) address_a key_a ≡ some peer_b
unfolding validate_beacon check_beacon is_lan_addr list_beq
believed_b = refl

validate_beacon-IsChecked_example :
    IsChecked drop_prefix address_a key_a peer_b × (length {A = ℕ} (1 ∷ []) ≤ max_beacon_bytes)
validate_beacon-IsChecked_example =
    validate_beacon-IsChecked plain64 one_beacon drop_prefix (1 ∷ []) address_a key_a peer_b
      believed_b

-- Three requests of one address within a minute.
abbrev requests : List (ℕ × ℕ)
requests = (0, 5) ∷ (10, 5) ∷ (20, 5) ∷ []

abbrev nobody : Map ℕ (ℕ × ℕ)
nobody = []

nobody-distinct : distinct nobody ≡ true
unfolding distinct
nobody-distinct = refl

requests-in_minute : in_minute 0 requests ≡ true
unfolding in_minute
requests-in_minute = refl

nobody-used : used (lookup 5 nobody) + length requests < 2 ^ 32
unfolding lookup
nobody-used = omega arith

let_in-le_example : let_in 5 requests nobody ≤ budget 0 (lookup 5 nobody)
let_in-le_example = let_in-le 0 5 requests nobody nobody-distinct requests-in_minute nobody-used
