-- ===== src/Tests/ProtoRuns.antt =====
-- Runs of desktop/src/proto.rs.
use antarloka.Prelude.{
  ◌+◌, ◌-◌, ◌≡◌, refl, ◌==◌, nat_eq, [], ◌∷◌, length, ok, err, ltb, if◌then◌else◌,
}
use antarloka.Text.{codes, byte_len}
use antarloka.Proto.Message.{Message, FileDone, type_byte, max_control_json}
use antarloka.Proto.Codec.{ProtoError, encode, decode, payload, decode_control, is_sha256_hex}
use antarloka.Proto.Bounds.{IsBounded, FillsFrame, decode-IsBounded}
use antarloka.Proto.RoundTrip.{decode-encode}
use antarloka.Tests.Samples.{small_serde, small_serde-IsFaithful, transfer_id}

abbrev ack : Message
ack = Message.text_ack transfer_id

ack_encoded : encode small_serde ack ≡ ok (0x21 ∷ transfer_id)
unfolding encode payload type_byte
ack_encoded = refl

decode-encode_example : decode small_serde (0x21 ∷ transfer_id) ≡ (
    if type_byte ack == 0x33
    then ok ack
    else if ltb (max_control_json + 1) (length (0x21 ∷ transfer_id))
    then err (ProtoError.too_large (length (0x21 ∷ transfer_id) - 1))
    else ok ack)
decode-encode_example =
    decode-encode small_serde small_serde-IsFaithful ack (0x21 ∷ transfer_id) ack_encoded tt

ack_decoded : decode small_serde (0x21 ∷ transfer_id) ≡ ok ack
unfolding decode decode_control type_byte
ack_decoded = refl

decode-IsBounded_example :
    IsBounded ack × (type_byte ack ≡ 0x21) × FillsFrame (0x21 ∷ transfer_id) ack
decode-IsBounded_example = decode-IsBounded small_serde 0x21 transfer_id ack ack_decoded

-- What `send_file_blocking` sends at the end of a file.
abbrev unhashed : FileDone
unhashed = record { id = transfer_id; sha256 = [] }

unhashed_encoded : encode small_serde (Message.file_done unhashed) ≡ ok (0x34 ∷ 16 ∷ transfer_id)
unfolding encode payload type_byte
unhashed_encoded = refl

unhashed_refused :
    decode small_serde (0x34 ∷ 16 ∷ transfer_id) ≡ err (ProtoError.malformed (codes "sha256"))
unfolding decode decode_control is_sha256_hex byte_len
unhashed_refused = refl
