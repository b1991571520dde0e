-- ===== src/Proto/Codec.antt =====
-- desktop/src/proto.rs: `Message::encode` and `Message::decode`.
use antarloka.Prelude.{
  ℕ, Bool, ◌&&◌, [], ◌∷◌, ◌++◌, Option, some, ltb, leb, ◌==◌, nat_eq, if◌then◌else◌, Result, ok,
  err, ◌>>=◌, ◌>>◌, ensure, ok_or, length, take, drop, all,
}
use antarloka.Text.{Str, Bytes, codes, byte_len, is_ascii_hexdigit}
use antarloka.Proto.Bytes.{to_be_bytes, from_be_bytes}
use antarloka.Proto.Message.{
  Message, TransferId, Hello, PairRequest, TextMsg, FileOffer, IdReason, FileDone, type_byte,
  max_plaintext, max_control_json, max_file_size, max_text_chars, max_name_chars,
  max_filename_chars,
}

pub data ProtoError : Type 0 where
  empty : ProtoError
  unknown_type : ℕ → ProtoError
  too_large : ℕ → ProtoError
  malformed : Str → ProtoError
  json : ProtoError

-- `serde_json::to_writer` and `serde_json::from_slice` at one type.
pub record Json (A : Type 0) : Type 0 where
  pub to_writer : A → Option Bytes
  pub from_slice : Bytes → Option A

-- serde_json at each struct; `ids` is `IdOnly`, and `reasons` the object with a `reason` alone.
pub record Serde : Type 0 where
  pub hellos : Json Hello
  pub pair_requests : Json PairRequest
  pub reasons : Json Str
  pub texts : Json TextMsg
  pub ids : Json TransferId
  pub file_offers : Json FileOffer
  pub id_reasons : Json IdReason
  pub file_dones : Json FileDone

module _ (serde : Serde) where
  -- What `encode` writes behind the type byte.
  unfoldable pub payload : Message → Option Bytes
  payload (Message.hello h) = serde.hellos.to_writer h
  payload Message.ping = some []
  payload Message.pong = some []
  payload (Message.pair_request p) = serde.pair_requests.to_writer p
  payload Message.pair_accept = some []
  payload (Message.pair_reject reason) = serde.reasons.to_writer reason
  payload (Message.text t) = serde.texts.to_writer t
  payload (Message.text_ack id) = serde.ids.to_writer id
  payload (Message.file_offer o) = serde.file_offers.to_writer o
  payload (Message.file_accept id) = serde.ids.to_writer id
  payload (Message.file_reject r) = serde.id_reasons.to_writer r
  payload (Message.file_chunk id offset bytes) = some (id ++ (to_be_bytes 8 offset ++ bytes))
  payload (Message.file_done d) = serde.file_dones.to_writer d
  payload (Message.file_error r) = serde.id_reasons.to_writer r
  payload (Message.file_cancel r) = serde.id_reasons.to_writer r

  unfoldable pub encode : Message → Result Bytes ProtoError
  encode m = do
    body ← ok_or (payload m) ProtoError.json
    let out = type_byte m ∷ body
    ensure (leb (length out) max_plaintext) (ProtoError.too_large (length out))
    ok out

-- `o.sha256.len() != 64 || !o.sha256.bytes().all(|b| b.is_ascii_hexdigit())`
unfoldable pub is_sha256_hex : Str → Bool
is_sha256_hex s = byte_len s == 64 && all is_ascii_hexdigit s

unfoldable pub decode_chunk : Bytes → Result Message ProtoError
decode_chunk body = do
  ensure (leb 24 (length body)) (ProtoError.malformed (codes "file chunk header"))
  let offset = from_be_bytes 0 (take 8 (drop 16 body))
  ensure (leb offset max_file_size) (ProtoError.malformed (codes "chunk offset"))
  ok (Message.file_chunk (take 16 body) offset (drop 24 body))

-- `serde_json::from_slice(body)?`
abbrev read {ℓ} : {A : Type ℓ} → Option A → Result A ProtoError
read o = ok_or o ProtoError.json

abbrev clamped : ℕ → Str → Str → Result (Unit {0}) ProtoError
clamped max s part = ensure (leb (length s) max) (ProtoError.malformed part)

module _ (serde : Serde) where
  decode_hello : Bytes → Result Message ProtoError
  decode_hello body = do
    h ← read (serde.hellos.from_slice body)
    clamped max_name_chars h.name (codes "hello name")
    ok (Message.hello h)

  decode_pair_request : Bytes → Result Message ProtoError
  decode_pair_request body = do
    p ← read (serde.pair_requests.from_slice body)
    clamped max_name_chars p.name (codes "pair name")
    ok (Message.pair_request p)

  decode_text : Bytes → Result Message ProtoError
  decode_text body = do
    t ← read (serde.texts.from_slice body)
    clamped max_text_chars t.text (codes "text length")
    ok (Message.text t)

  decode_file_offer : Bytes → Result Message ProtoError
  decode_file_offer body = do
    o ← read (serde.file_offers.from_slice body)
    clamped max_filename_chars o.name (codes "file name length")
    ensure (leb o.size max_file_size) (ProtoError.malformed (codes "file size"))
    ensure (is_sha256_hex o.sha256) (ProtoError.malformed (codes "sha256"))
    ok (Message.file_offer o)

  decode_file_done : Bytes → Result Message ProtoError
  decode_file_done body = do
    d ← read (serde.file_dones.from_slice body)
    ensure (is_sha256_hex d.sha256) (ProtoError.malformed (codes "sha256"))
    ok (Message.file_done d)

  decode_id : (TransferId → Message) → Bytes → Result Message ProtoError
  decode_id f body = do id ← read (serde.ids.from_slice body); ok (f id)

  decode_id_reason : (IdReason → Message) → Bytes → Result Message ProtoError
  decode_id_reason f body = do r ← read (serde.id_reasons.from_slice body); ok (f r)

  decode_pair_reject : Bytes → Result Message ProtoError
  decode_pair_reject body = do
    reason ← read (serde.reasons.from_slice body)
    ok (Message.pair_reject reason)

  -- The arms of `match t`.
  unfoldable pub decode_control : ℕ → Bytes → Result Message ProtoError
  unfolding decode_hello decode_pair_request decode_text decode_file_offer decode_file_done
      decode_id decode_id_reason decode_pair_reject
  decode_control t body =
      if t == 0x01
      then decode_hello body
      else if t == 0x02
      then ok Message.ping
      else if t == 0x03
      then ok Message.pong
      else if t == 0x10
      then decode_pair_request body
      else if t == 0x11
      then ok Message.pair_accept
      else if t == 0x12
      then decode_pair_reject body
      else if t == 0x20
      then decode_text body
      else if t == 0x21
      then decode_id Message.text_ack body
      else if t == 0x30
      then decode_file_offer body
      else if t == 0x31
      then decode_id Message.file_accept body
      else if t == 0x32
      then decode_id_reason Message.file_reject body
      else if t == 0x35
      then decode_id_reason Message.file_error body
      else if t == 0x36
      then decode_id_reason Message.file_cancel body
      else if t == 0x34
      then decode_file_done body
      else err (ProtoError.unknown_type t)

  unfoldable pub decode : Bytes → Result Message ProtoError
  decode [] = err ProtoError.empty
  decode (t ∷ body) =
      if t == 0x33
      then decode_chunk body
      else if ltb max_control_json (length body)
      then err (ProtoError.too_large (length body))
      else decode_control t body
