-- ===== src/Tests/Writers.antt =====
-- A cipher that changes nothing, and writers for the files of a profile that read back what they
-- write.
use antarloka.Prelude.{
  ◌≡◌, false, ◌&&◌, ◌||◌, List, [], ◌∷◌, ◌++◌, none, some, ◌==◌, ◌∙◌, ap, nat_eq, list_eq,
  list_beq_iff, if◌then◌else◌, length, take, drop, take-append, drop-append, arith, Option-cases,
  inl, inr, is_some,
}
use antarloka.Text.{Bytes}
use antarloka.Proto.Codec.{Json}
use antarloka.Proto.RoundTrip.{Faithful}
use antarloka.Engine.State.{Config}
use antarloka.Security.Keystore.{StoredKey, Vault}
use antarloka.Security.Keystore.Kept.{IsCipher}
use antarloka.Security.Trust.{TrustedDevice}
use antarloka.Security.Trust.Saved.{Envelope, Contents}
use antarloka.Tests.Samples.{config}

abbrev pub clear : Vault
clear = record {
  argon = λ pass salt. some salt;
  encrypt = λ key nonce aad pt. some pt;
  decrypt = λ key nonce aad ct. some ct;
}

pub clear-IsCipher : IsCipher clear
clear-IsCipher key nonce aad plain ct h = ground (arith, h)

-- A writer for keys that are not protected.
abbrev pub plain_keys : Json StoredKey
plain_keys = record {
  to_writer = λ s.
      if is_some s.salt || is_some s.nonce
      then none
      else some (
          s.version ∷ length s.protection ∷ length s.public ∷ s.protection
          ++ (s.public ++ s.secret));
  from_slice = λ b. elim b [
    | version ∷ p ∷ q ∷ rest ↦ some (record {
      version = version;
      protection = take p rest;
      public = take q (drop p rest);
      salt = none;
      nonce = none;
      secret = drop q (drop p rest);
    })
    | _ ↦ none
  ];
}

drop_middle : (x y z : Bytes) → take (length y) (drop (length x) (x ++ (y ++ z))) ≡ y
drop_middle x y z = ap (take (length y)) (drop-append x (y ++ z)) ∙ take-append y z

drop_last : (x y z : Bytes) → drop (length y) (drop (length x) (x ++ (y ++ z))) ≡ z
drop_last x y z = ap (drop (length y)) (drop-append x (y ++ z)) ∙ drop-append y z

pub plain_keys-Faithful : Faithful plain_keys
plain_keys-Faithful s b h = elim (Option-cases s.salt) [
  | inr (_, e) ↦ ground (arith, e, h)
  | inl e ↦ elim (Option-cases s.nonce) [
    | inr (_, f) ↦ ground (arith, e, f, h)
    | inl f ↦ ground (
      arith,
      e,
      f,
      h,
      take-append s.protection (s.public ++ s.secret),
      drop_middle s.protection s.public s.secret,
      drop_last s.protection s.public s.secret,
    )
  ]
]

abbrev pub plain_envelopes : Json Envelope
plain_envelopes = record {
  to_writer = λ e. some (e.version ∷ length e.nonce ∷ e.nonce ++ e.ct);
  from_slice = λ b. elim b [
    | version ∷ p ∷ rest ↦
        some (record { version = version; nonce = take p rest; ct = drop p rest })
    | _ ↦ none
  ];
}

pub plain_envelopes-Faithful : Faithful plain_envelopes
plain_envelopes-Faithful e b h =
    ground (arith, h, take-append e.nonce e.ct, drop-append e.nonce e.ct)

-- A writer for lists of at most one device, with neither mark set.
abbrev pub plain_bodies : Json Contents
plain_bodies = record {
  to_writer = λ c. elim c.devices [
    | [] ↦ some []
    | d ∷ [] ↦
        if d.auto_accept_files || d.blocked
        then none
        else some (d.added_at_ms ∷ d.last_seen_ms ∷ length d.public_key ∷ d.public_key ++ d.name)
    | _ ↦ none
  ];
  from_slice = λ b. elim b [
    | [] ↦ some (record { devices = [] })
    | added ∷ seen ∷ p ∷ rest ↦ some (record {
      devices =
          (record {
            public_key = take p rest;
            name = drop p rest;
            added_at_ms = added;
            last_seen_ms = seen;
            auto_accept_files = false;
            blocked = false;
          })
          ∷ [];
    })
    | _ ↦ none
  ];
}

plain_bodies_read :
    (devices : List TrustedDevice) (b : Bytes)
    → plain_bodies.to_writer (record { devices = devices }) ≡ some b
    → plain_bodies.from_slice b ≡ some (record { devices = devices })
plain_bodies_read [] b h = ground (arith, h)
plain_bodies_read (d ∷ []) b h =
    ground (arith, h, take-append d.public_key d.name, drop-append d.public_key d.name)
plain_bodies_read (d ∷ e ∷ ds) b h = ground (arith, h)

pub plain_bodies-Faithful : Faithful plain_bodies
plain_bodies-Faithful c b h = plain_bodies_read c.devices b h

-- A writer for settings that differ from the sample in the name alone.
abbrev pub plain_configs : Json Config
plain_configs = record {
  to_writer = λ c.
      if c.tcp_port == config.tcp_port
        && c.max_file_size == config.max_file_size
        && c.download_dir == config.download_dir
        && c.discovery_enabled
        && c.accept_incoming
        && c.lan_only
        && c.allow_new_pairings
      then some c.device_name
      else none;
  from_slice = λ b. some (record config { device_name = b });
}

pub plain_configs-Faithful : Faithful plain_configs
plain_configs-Faithful c b h =
    ground (arith, h, list_beq_iff list_eq c.download_dir config.download_dir)
