-- ===== src/Proto/Bounds.antt =====
-- What `decode` guarantees of every message that it lets through.
use antarloka.Prelude.{ℕ, ◌≤◌, ◌≡◌, true, ◌∷◌, arith, length, ok, nat_eq}
use antarloka.Text.{Bytes}
use antarloka.Proto.Message.{
  Message, type_byte, max_file_size, max_text_chars, max_name_chars, max_filename_chars,
}
use antarloka.Prelude.{length-take, length-drop, ◌+◌}
use antarloka.Proto.Codec.{Serde, decode, decode_control, decode_chunk, is_sha256_hex}

-- What `decode` checks, message by message: the names, texts and file names, the size of a file and
-- the offset in it, and the SHA-256.
abbrev pub IsBounded : Message → Type 0
IsBounded (Message.hello h) = length h.name ≤ max_name_chars
IsBounded (Message.pair_request p) = length p.name ≤ max_name_chars
IsBounded (Message.text t) = length t.text ≤ max_text_chars
IsBounded (Message.file_offer o) =
    (length o.name ≤ max_filename_chars)
    × (o.size ≤ max_file_size)
    × (is_sha256_hex o.sha256 ≡ true)
IsBounded (Message.file_chunk id offset bytes) = (length id ≡ 16) × (offset ≤ max_file_size)
IsBounded (Message.file_done d) = is_sha256_hex d.sha256 ≡ true
IsBounded _ = Unit {0}

-- A chunk is as long as its frame lets it: type, identifier and offset take 25 bytes.
abbrev pub FillsFrame : Bytes → Message → Type 0
FillsFrame frame (Message.file_chunk id offset bytes) = length frame ≡ 25 + length bytes
FillsFrame frame _ = Unit {0}

module _ (serde : Serde) where
  decode_control-IsBounded :
      (t : ℕ) (body : Bytes) (m : Message)
      → decode_control serde t body ≡ ok m
      → IsBounded m × (type_byte m ≡ t) × FillsFrame (t ∷ body) m
  unfolding decode_control type_byte
  decode_control-IsBounded t body m h = ground arith

  decode_chunk-IsBounded :
      (body : Bytes) (m : Message)
      → decode_chunk body ≡ ok m
      → IsBounded m × (type_byte m ≡ 0x33) × FillsFrame (0x33 ∷ body) m
  unfolding decode_chunk type_byte
  decode_chunk-IsBounded body m h = ground (arith, length-take 16 body, length-drop 24 body)

  -- A message that comes out of `decode` keeps the limits that are checked, has the type that the frame
  -- names, and, if it is a chunk, holds all but 25 bytes of the frame, however long that is.
  pub decode-IsBounded :
      (t : ℕ) (body : Bytes) (m : Message)
      → decode serde (t ∷ body) ≡ ok m
      → IsBounded m × (type_byte m ≡ t) × FillsFrame (t ∷ body) m
  unfolding decode
  decode-IsBounded t body m h =
      ground (arith, decode_chunk-IsBounded body m, decode_control-IsBounded t body m)
