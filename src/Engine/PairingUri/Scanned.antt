-- ===== src/Engine/PairingUri/Scanned.antt =====
-- What `parse_pairing_uri` reads of what `pairing_uri` writes.
use antarloka.Prelude.{
  ℕ, zero, suc, ◌+◌, ◌/◌, ◌%◌, ◌<◌, ◌≤◌, ◌≡◌, refl, Bool, true, false, not, List, [], ◌∷◌, ◌++◌,
  some, ltb, ◌==◌, nat_eq, list_eq, ok, length, arith, all, all-append, Bool-cases, Option-cases,
  ltb_false→le, inl, inr, ap, ◌∙◌, list_beq,
}
use antarloka.Text.{Str, Bytes, codes, to_decimal, decimal_digits}
use antarloka.Util.Lan.{IpAddr}
use antarloka.Util.Clamp.{clamp_str}
use antarloka.Security.Trust.{bind_option}
use antarloka.Security.Fingerprint.{hex_upper}
use antarloka.Engine.PairingUri.{url_escape, escape_byte, is_unreserved, is_ascii_alphanumeric}
use antarloka.Engine.PairingUri.Escaped.{url_unescape-url_escape}
use antarloka.Engine.PairingUri.Target.{
  Texts, strip_prefix, split_on, key_value, next_digit, parse_digits, parse_u16, no_fields,
  take_field, take_fields, to_target, parse_pairing_uri, pairing_uri, chosen_host,
}

abbrev pub is_field : ℕ → Bool
is_field c = not (c == b'&')

abbrev pub is_ascii : ℕ → Bool
is_ascii c = ltb c 128

split_on-append :
    (p s : Str) → all is_field p ≡ true → split_on b'&' (p ++ b'&' ∷ s) ≡ p ∷ split_on b'&' s
unfolding split_on all
split_on-append [] s h = refl
split_on-append (c ∷ p) s h = ground (arith, h, split_on-append p s)

split_on-last : (p : Str) → all is_field p ≡ true → split_on b'&' p ≡ p ∷ []
unfolding split_on all
split_on-last [] h = refl
split_on-last (c ∷ p) h = ground (arith, h, split_on-last p)

escape_byte-plain :
    (b : ℕ)
    → b < 256
    → (all is_field (escape_byte b) ≡ true) × (all is_ascii (escape_byte b) ≡ true)
unfolding escape_byte is_unreserved is_ascii_alphanumeric hex_upper all
escape_byte-plain b h = ground arith

url_escape-plain :
    (bs : Bytes)
    → all (λ b. ltb b 256) bs ≡ true
    → (all is_field (url_escape bs) ≡ true) × (all is_ascii (url_escape bs) ≡ true)
unfolding url_escape all
url_escape-plain [] h = (refl, refl)
url_escape-plain (b ∷ bs) h =
    let (f, a) = escape_byte-plain b (ground (arith, h)) in
    let (fs, as') = url_escape-plain bs (ground (arith, h)) in
    (
      all-append is_field (escape_byte b) (url_escape bs) f fs,
      all-append is_ascii (escape_byte b) (url_escape bs) a as',
    )

parse_digits-append :
    (acc c : ℕ) (s : Str)
    → parse_digits acc (s ++ c ∷ []) ≡ bind_option (parse_digits acc s) (λ n. next_digit n c)
unfolding parse_digits
parse_digits-append acc c [] = elim (Option-cases (next_digit acc c)) [
  | inl e ↦ ground (arith, e)
  | inr (n, e) ↦ ground (arith, e)
]
parse_digits-append acc c (d ∷ s) = elim (Option-cases (next_digit acc d)) [
  | inl e ↦ ground (arith, e)
  | inr (n, e) ↦ rw e (parse_digits-append n c s)
]

decimal_digits-parsed : (f n : ℕ) → n < f → n ≤ 65535 → parse_digits 0 (decimal_digits f n) ≡ some n
unfolding decimal_digits parse_digits next_digit
decimal_digits-parsed zero n h k = ground (arith, h)
decimal_digits-parsed (suc f) n h k = elim (Bool-cases (ltb n 10)) [
  | inl small ↦ ground (arith, small)
  | inr large ↦
      rw (large, parse_digits-append 0 (b'0' + n % 10) (decimal_digits f (n / 10)))
        (ground (
          arith,
          large,
          decimal_digits-parsed f (n / 10) (omega (arith, h, ltb_false→le n 10 large))
              (omega (arith, k)),
        ))
]

decimal_digits-field : (f n : ℕ) → all is_field (decimal_digits f n) ≡ true
unfolding decimal_digits all
decimal_digits-field zero n = refl
decimal_digits-field (suc f) n = ground (
  arith,
  decimal_digits-field f (n / 10),
  all-append is_field (decimal_digits f (n / 10)) ((b'0' + n % 10) ∷ []),
)

starts_with_digit : Str → Bool
starts_with_digit [] = false
starts_with_digit (c ∷ s) = not (c == b'+')

starts_with_digit-append :
    (s t : Str) → starts_with_digit s ≡ true → starts_with_digit (s ++ t) ≡ true
unfolding starts_with_digit
starts_with_digit-append [] t h = ground (arith, h)
starts_with_digit-append (c ∷ s) t h = h

starts_with_digit-decimal_digits : (f n : ℕ) → n < f → starts_with_digit (decimal_digits f n) ≡ true
unfolding decimal_digits starts_with_digit
starts_with_digit-decimal_digits zero n h = ground (arith, h)
starts_with_digit-decimal_digits (suc f) n h = elim (Bool-cases (ltb n 10)) [
  | inl small ↦ ground (arith, small)
  | inr large ↦ rw large (
      starts_with_digit-append (decimal_digits f (n / 10)) ((b'0' + n % 10) ∷ [])
        (starts_with_digit-decimal_digits f (n / 10) (omega (arith, h, ltb_false→le n 10 large))))
]

parse_u16-parse_digits : (s : Str) → starts_with_digit s ≡ true → parse_u16 s ≡ parse_digits 0 s
unfolding parse_u16 starts_with_digit
parse_u16-parse_digits [] h = ground (arith, h)
parse_u16-parse_digits (c ∷ []) h = ground (arith, h)
parse_u16-parse_digits (c ∷ d ∷ s) h = ground (arith, h)

parse_u16-to_decimal : (n : ℕ) → n ≤ 65535 → parse_u16 (to_decimal n) ≡ some n
unfolding to_decimal
parse_u16-to_decimal n k =
    parse_u16-parse_digits (decimal_digits (suc n) n)
      (starts_with_digit-decimal_digits (suc n) n (omega arith))
    ∙ decimal_digits-parsed (suc n) n (omega arith) k

-- What base64, addresses and UTF-8 promise of the values that are written: the key, the host, which
-- is the text of `ip`, and the name.
pub record IsTextual (tx : Texts) (pk : Bytes) (host : Str) (ip : IpAddr) (name : Str)
    : Type 0 where
  pub lossless : tx.b64url.from_text (tx.b64url.to_text pk) ≡ some pk
  pub field64 : all is_field (tx.b64url.to_text pk) ≡ true
  pub ips : tx.parse_ip host ≡ some ip
  pub field_ips : all is_field host ≡ true
  pub ascii : (s : Str) → all is_ascii s ≡ true → tx.utf8 s ≡ s
  pub bytes : all (λ b. ltb b 256) (tx.utf8 name) ≡ true
  pub decoded : tx.from_utf8_lossy (tx.utf8 name) ≡ name

module _ (tx : Texts) where
  take_fields_written :
      (pk : Bytes) (port : ℕ) (host : Str) (ip : IpAddr) (name : Str)
      → IsTextual tx pk host ip name
      → port ≤ 65535
      → take_fields tx
          (codes "v=1"
            ∷ (codes "pk=" ++ tx.b64url.to_text pk)
            ∷ (codes "port=" ++ to_decimal port)
            ∷ (codes "host=" ++ host)
            ∷ (codes "name=" ++ url_escape (tx.utf8 name))
            ∷ [])
          no_fields
        ≡ ok (record { pk = some pk; host = some ip; port = some port; name = clamp_str name 64 })
  unfolding take_fields take_field key_value list_beq
  take_fields_written pk port host ip name textual k =
      let bs : Bytes = tx.utf8 name in
      let (_, plain) = url_escape-plain bs (textual.bytes) in
      ground (
        arith,
        textual.lossless,
        parse_u16-to_decimal port k,
        textual.ips,
        textual.ascii (url_escape bs) plain,
        url_unescape-url_escape bs (textual.bytes),
        textual.decoded,
      )

  split_written :
      (pk : Bytes) (port : ℕ) (host : Str) (ip : IpAddr) (name : Str)
      → IsTextual tx pk host ip name
      → split_on b'&' (
          codes "v=1&pk="
          ++ (tx.b64url.to_text pk
              ++ (codes "&port="
                  ++ (to_decimal port
                      ++ (codes "&host="
                          ++ (host ++ (codes "&name=" ++ url_escape (tx.utf8 name))))))))
        ≡ codes "v=1"
          ∷ (codes "pk=" ++ tx.b64url.to_text pk)
          ∷ (codes "port=" ++ to_decimal port)
          ∷ (codes "host=" ++ host)
          ∷ (codes "name=" ++ url_escape (tx.utf8 name))
          ∷ []
  unfolding all to_decimal
  split_written pk port host ip name textual =
      let bs : Bytes = tx.utf8 name in
      let (field_name, _) = url_escape-plain bs (textual.bytes) in
      split_on-append (codes "v=1") _ refl
      ∙ ap (λ t. codes "v=1" ∷ t)
          (split_on-append (codes "pk=" ++ tx.b64url.to_text pk) _ (textual.field64)
            ∙ ap (λ t. (codes "pk=" ++ tx.b64url.to_text pk) ∷ t)
                (split_on-append (codes "port=" ++ to_decimal port) _
                    (decimal_digits-field (suc port) port)
                  ∙ ap (λ t. (codes "port=" ++ to_decimal port) ∷ t)
                      (split_on-append (codes "host=" ++ host) _ (textual.field_ips)
                        ∙ ap (λ t. (codes "host=" ++ host) ∷ t)
                            (split_on-last (codes "name=" ++ url_escape bs) field_name))))

  -- A pairing URI is read back as the key, the address and the port that were written, and the name
  -- cut to 64 characters, for a key of 32 bytes and a port that is not zero; this if base64, the
  -- address and UTF-8 can be read back.
  pub parse_pairing_uri-pairing_uri :
      (pk : Bytes) (port : ℕ) (ifaces : List (Bool × IpAddr)) (ip : IpAddr) (name : Str)
      → IsTextual tx pk (chosen_host tx ifaces) ip name
      → length pk ≡ 32
      → 0 < port
      → port ≤ 65535
      → parse_pairing_uri tx (pairing_uri tx pk port ifaces name)
        ≡ ok (record { public_key = pk; host = ip; port = port; name = clamp_str name 64 })
  unfolding parse_pairing_uri pairing_uri strip_prefix to_target
  parse_pairing_uri-pairing_uri pk port ifaces ip name textual size positive k =
      let host : Str = chosen_host tx ifaces in
      ground (
        arith,
        split_written pk port host ip name textual,
        take_fields_written pk port host ip name textual k,
        size,
        positive,
      )
