-- ===== src/Proto/Message.antt =====
-- desktop/src/proto.rs: the constants, the message types and what an unpaired peer may send.
use antarloka.Prelude.{ℕ, ◌-◌, ◌*◌, ◌^◌, ◌≡◌, refl, Bool, true, false, ltb}
use antarloka.Text.{Str, Bytes}

abbrev pub max_frame : ℕ
max_frame = 65535

abbrev pub max_plaintext : ℕ
max_plaintext = max_frame - 16

abbrev pub chunk_size : ℕ
chunk_size = 32 * 1024

abbrev pub max_control_json : ℕ
max_control_json = 16 * 1024

abbrev pub max_file_size : ℕ
max_file_size = 2 ^ 40

abbrev pub max_text_chars : ℕ
max_text_chars = 4096

abbrev pub max_name_chars : ℕ
max_name_chars = 64

abbrev pub max_filename_chars : ℕ
max_filename_chars = 255

abbrev pub default_tcp_port : ℕ
default_tcp_port = 45821

-- `[u8; 16]`
abbrev pub TransferId : Type 0
TransferId = Bytes

pub record Hello : Type 0 where
  pub name : Str
  pub version : ℕ
  pub platform : Str

pub record PairRequest : Type 0 where
  pub name : Str
  pub platform : Str

pub record TextMsg : Type 0 where
  pub id : TransferId
  pub ts : ℕ
  pub text : Str

pub record FileOffer : Type 0 where
  pub id : TransferId
  pub name : Str
  pub size : ℕ
  pub sha256 : Str
  pub mime : Str

pub record IdReason : Type 0 where
  pub id : TransferId
  pub reason : Str

pub record FileDone : Type 0 where
  pub id : TransferId
  pub sha256 : Str

pub data Message : Type 0 where
  hello : Hello → Message
  ping pong : Message
  pair_request : PairRequest → Message
  pair_accept : Message
  pair_reject : Str → Message
  text : TextMsg → Message
  text_ack : TransferId → Message
  file_offer : FileOffer → Message
  file_accept : TransferId → Message
  file_reject : IdReason → Message
  file_chunk : TransferId → ℕ → Bytes → Message
  file_done : FileDone → Message
  file_error file_cancel : IdReason → Message

-- The module `ty`, as the names of the message types.
unfoldable pub type_byte : Message → ℕ
type_byte (Message.hello _) = 0x01
type_byte Message.ping = 0x02
type_byte Message.pong = 0x03
type_byte (Message.pair_request _) = 0x10
type_byte Message.pair_accept = 0x11
type_byte (Message.pair_reject _) = 0x12
type_byte (Message.text _) = 0x20
type_byte (Message.text_ack _) = 0x21
type_byte (Message.file_offer _) = 0x30
type_byte (Message.file_accept _) = 0x31
type_byte (Message.file_reject _) = 0x32
type_byte (Message.file_chunk _ _ _) = 0x33
type_byte (Message.file_done _) = 0x34
type_byte (Message.file_error _) = 0x35
type_byte (Message.file_cancel _) = 0x36

unfoldable pub allowed_before_pairing : Message → Bool
allowed_before_pairing (Message.hello _) = true
allowed_before_pairing Message.ping = true
allowed_before_pairing Message.pong = true
allowed_before_pairing (Message.pair_request _) = true
allowed_before_pairing Message.pair_accept = true
allowed_before_pairing (Message.pair_reject _) = true
allowed_before_pairing _ = false

-- A message may precede pairing exactly if its type byte is below that of texts and files.
pub allowed_before_pairing-type_byte :
    (m : Message) → allowed_before_pairing m ≡ ltb (type_byte m) 0x20
unfolding allowed_before_pairing type_byte
allowed_before_pairing-type_byte (Message.hello _) = refl
allowed_before_pairing-type_byte _ = refl
