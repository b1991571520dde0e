-- ===== src/Engine/PairingUri/Target.antt =====
-- desktop/src/engine/mod.rs: `pairing_uri` and `parse_pairing_uri`. Base64 for URLs, the text of an
-- address, and UTF-8 are parameters.
use antarloka.Prelude.{
  ℕ, ◌+◌, ◌*◌, ◌-◌, Bool, true, false, not, ◌&&◌, List, [], ◌∷◌, ◌++◌, Option, none, some, ltb, leb,
  ◌==◌, nat_eq, list_eq, if◌then◌else◌, Result, ok, err, ◌>>=◌, ◌>>◌, ensure, ok_or, length,
}
use antarloka.Text.{Str, Bytes, codes, to_decimal}
use antarloka.Util.Lan.{IpAddr, v4, v6, is_lan_addr}
use antarloka.Util.Clamp.{clamp_str}
use antarloka.Proto.Message.{default_tcp_port}
use antarloka.Security.Base64.{Base64}
use antarloka.Security.Trust.{bind_option}
use antarloka.Engine.PairingUri.{url_escape, url_unescape}

-- `parse` and `Display` of an address, and the two directions of UTF-8.
pub record Texts : Type 0 where
  pub b64url : Base64
  pub parse_ip : Str → Option IpAddr
  pub show_ip : IpAddr → Str
  pub utf8 : Str → Bytes
  pub from_utf8_lossy : Bytes → Str

pub record PairingTarget : Type 0 where
  pub public_key : Bytes
  pub host : IpAddr
  pub port : ℕ
  pub name : Str

-- `panicked` is no error of the code: `url_unescape` has cut a character in two.
pub data UriError : Type 0 where
  no_link no_key bad_key_length no_host panicked : UriError

-- `str::strip_prefix`
unfoldable pub strip_prefix : Str → Str → Option Str
strip_prefix [] s = some s
strip_prefix (p ∷ ps) [] = none
strip_prefix (p ∷ ps) (c ∷ s) = let rest = strip_prefix ps s in if p == c then rest else none

first_longer : ℕ → List Str → List Str
first_longer c [] = (c ∷ []) ∷ []
first_longer c (p ∷ ps) = (c ∷ p) ∷ ps

-- `str::split` at a character.
unfoldable pub split_on : ℕ → Str → List Str
unfolding first_longer
split_on x [] = [] ∷ []
split_on x (c ∷ s) = if c == x then [] ∷ split_on x s else first_longer c (split_on x s)

-- `kv.split_once('=').unwrap_or((kv, ""))`
unfoldable pub key_value : Str → Str × Str
key_value [] = ([], [])
key_value (c ∷ s) = let (k, v) = key_value s in if c == b'=' then ([], s) else (c ∷ k, v)

unfoldable pub next_digit : ℕ → ℕ → Option ℕ
next_digit acc c =
    if leb b'0' c && leb c b'9' && leb (acc * 10 + (c - b'0')) 65535
    then some (acc * 10 + (c - b'0'))
    else none

unfoldable pub parse_digits : ℕ → Str → Option ℕ
parse_digits acc [] = some acc
parse_digits acc (c ∷ s) = bind_option (next_digit acc c) (λ n. parse_digits n s)

-- `str::parse::<u16>`: a plus sign may stand in front.
unfoldable pub parse_u16 : Str → Option ℕ
parse_u16 [] = none
parse_u16 (c ∷ []) = if c == b'+' then none else parse_digits 0 (c ∷ [])
parse_u16 (c ∷ d ∷ s) = parse_digits 0 (if c == b'+' then d ∷ s else c ∷ d ∷ s)

is_v4 : IpAddr → Bool
is_v4 (v4 a b c d) = true
is_v4 (v6 s t u v w x y z) = false

-- `local_ipv4`, over the interfaces: whether each is the loopback, and its address.
unfoldable pub local_ipv4 : List (Bool × IpAddr) → Option IpAddr
unfolding is_v4
local_ipv4 [] = none
local_ipv4 ((loopback, ip) ∷ ifaces) =
    let rest = local_ipv4 ifaces in
    if not loopback && is_v4 ip && is_lan_addr ip then some ip else rest

pub record Fields : Type 0 where
  pub pk : Option Bytes
  pub host : Option IpAddr
  pub port : Option ℕ
  pub name : Str

abbrev pub no_fields : Fields
no_fields = record { pk = none; host = none; port = none; name = [] }

module _ (tx : Texts) where
  -- One arm of the loop's match.
  unfoldable pub take_field : Str × Str → Fields → Result Fields UriError
  take_field (k, v) f =
      if k == codes "pk"
      then ok (record f { pk = tx.b64url.from_text v })
      else if k == codes "host"
      then ok (record f { host = tx.parse_ip v })
      else if k == codes "port"
      then ok (record f { port = parse_u16 v })
      else if k == codes "name"
      then elim (url_unescape (tx.utf8 v)) [
        | none ↦ err panicked
        | some bs ↦ ok (record f { name = clamp_str (tx.from_utf8_lossy bs) 64 })
      ]
      else ok f

  unfoldable pub take_fields : List Str → Fields → Result Fields UriError
  take_fields [] f = ok f
  take_fields (kv ∷ kvs) f = take_field (key_value kv) f >>= take_fields kvs

  -- `port.filter(|p| *p > 0).unwrap_or(DEFAULT_TCP_PORT)`
  abbrev pub chosen_port : Option ℕ → ℕ
  chosen_port none = default_tcp_port
  chosen_port (some p) = if ltb 0 p then p else default_tcp_port

  -- The checks that follow the loop.
  unfoldable pub to_target : Fields → Result PairingTarget UriError
  to_target f = do
    pk ← ok_or f.pk no_key
    ensure (length pk == 32) bad_key_length
    host ← ok_or f.host no_host
    ok (record { public_key = pk; host = host; port = chosen_port f.port; name = f.name })

  unfoldable pub parse_pairing_uri : Str → Result PairingTarget UriError
  parse_pairing_uri uri = do
    rest ← ok_or (strip_prefix (codes "syncmob://pair?") uri) no_link
    fields ← take_fields (split_on b'&' rest) no_fields
    to_target fields

  -- The host of the URI, over the interfaces.
  abbrev pub chosen_host : List (Bool × IpAddr) → Str
  chosen_host ifaces = elim (local_ipv4 ifaces) [ none ↦ codes "0.0.0.0" | some ip ↦ tx.show_ip ip ]

  -- `pairing_uri`, for the key, the port and the name of this node, over the interfaces.
  unfoldable pub pairing_uri : Bytes → ℕ → List (Bool × IpAddr) → Str → Str
  pairing_uri public_key port ifaces name =
      codes "syncmob://pair?v=1&pk="
      ++ (tx.b64url.to_text public_key
          ++ (codes "&port="
              ++ (to_decimal port
                  ++ (codes "&host="
                      ++ (chosen_host ifaces ++ (codes "&name=" ++ url_escape (tx.utf8 name)))))))
