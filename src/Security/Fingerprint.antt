-- ===== src/Security/Fingerprint.antt =====
-- desktop/src/security/fingerprint.rs. BLAKE2s is the parameter `blake2s`.
use antarloka.Prelude.{
  ℕ, ◌+◌, ◌-◌, ◌/◌, ◌%◌, ◌<◌, ◌≡◌, ◌↔◌, Bool, true, false, List, [], ◌∷◌, ◌++◌, arith, ltb, ◌==◌,
  nat_eq, list_eq, list_beq_iff, if◌then◌else◌, length, take, ap,
}
use antarloka.Text.{Str, Bytes, codes}
use antarloka.Proto.Bytes.{from_be_bytes}

-- `[u8; 8]`
abbrev pub DeviceId : Type 0
DeviceId = Bytes

module _ (blake2s : Bytes → Bytes) where
  unfoldable pub device_id : Bytes → DeviceId
  device_id public_key = take 8 (blake2s (codes "SyncMob/1 device-id" ++ public_key))

  -- The number whose digits are the code.
  unfoldable pub sas_number : Bytes → ℕ
  sas_number handshake_hash =
      from_be_bytes 0 (take 8 (blake2s (codes "SyncMob/1 sas" ++ handshake_hash))) % 100_000_000

-- `format!("{:04}", n)`, for a number below 10000.
unfoldable pub four_digits : ℕ → Str
four_digits n =
    (b'0' + n / 1000 % 10) ∷ (b'0' + n / 100 % 10) ∷ (b'0' + n / 10 % 10) ∷ (b'0' + n % 10) ∷ []

unfoldable pub show_sas : ℕ → Str
show_sas v = four_digits (v / 10000) ++ (b' ' ∷ four_digits (v % 10000))

unfoldable pub sas_code : (Bytes → Bytes) → Bytes → Str
sas_code blake2s handshake_hash = show_sas (sas_number blake2s handshake_hash)

unfoldable pub hex_upper : ℕ → ℕ
hex_upper n = if ltb n 10 then b'0' + n else b'A' + n - 10

-- `format!("{:02X}{:02X}", c[0], c[1])` for each pair of bytes, joined by spaces.
unfoldable pub hex_groups : Bytes → List Str
hex_groups (x ∷ y ∷ bs) =
    (hex_upper (x / 16) ∷ hex_upper (x % 16) ∷ hex_upper (y / 16) ∷ hex_upper (y % 16) ∷ [])
    ∷ hex_groups bs
hex_groups _ = []

unfoldable pub join_spaces : List Str → Str
join_spaces [] = []
join_spaces (g ∷ []) = g
join_spaces (g ∷ h ∷ gs) = g ++ (b' ' ∷ join_spaces (h ∷ gs))

unfoldable pub fingerprint : (Bytes → Bytes) → Bytes → Str
fingerprint blake2s public_key =
    join_spaces (hex_groups (take 16 (blake2s (codes "SyncMob/1 fingerprint" ++ public_key))))

unfoldable pub keys_equal : Bytes → Bytes → Bool
keys_equal a b = if length a == length b then a == b else false

-- The comparison in constant time decides equality.
pub keys_equal_iff : (a b : Bytes) → (keys_equal a b ≡ true) ↔ (a ≡ b)
unfolding keys_equal
keys_equal_iff a b = ground (arith, list_beq_iff nat_eq a b, λ (e : a ≡ b). ap length e)

four_digits-injective : (m n : ℕ) → m < 10000 → n < 10000 → four_digits m ≡ four_digits n → m ≡ n
unfolding four_digits
four_digits-injective m n h k e = ground arith

show_sas_parts :
    (m n : ℕ)
    → show_sas m ≡ show_sas n
    → (four_digits (m / 10000) ≡ four_digits (n / 10000))
      × (four_digits (m % 10000) ≡ four_digits (n % 10000))
unfolding show_sas four_digits
show_sas_parts m n e = ground arith

show_sas-injective : (m n : ℕ) → m < 100_000_000 → n < 100_000_000 → show_sas m ≡ show_sas n → m ≡ n
show_sas-injective m n h k e =
    let (high, low) = show_sas_parts m n e in
    omega (
      arith,
      four_digits-injective (m / 10000) (n / 10000) (omega arith) (omega arith) high,
      four_digits-injective (m % 10000) (n % 10000) (omega arith) (omega arith) low,
    )

-- Two sessions show the same code exactly if their numbers below 10^8 agree: no digit is lost.
pub sas_code_iff :
    (blake2s : Bytes → Bytes) (g h : Bytes)
    → (sas_code blake2s g ≡ sas_code blake2s h) ↔ (sas_number blake2s g ≡ sas_number blake2s h)
unfolding sas_code sas_number
sas_code_iff blake2s g h = (show_sas-injective _ _ (omega arith) (omega arith), λ e. ap show_sas e)
