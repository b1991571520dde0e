-- ===== src/Proto/RoundTrip.antt =====
-- `decode` after `encode`.
use antarloka.Prelude.{
  ℕ, ◌+◌, ◌-◌, ◌≤◌, ◌≡◌, ◌≢◌, refl, true, ◌∷◌, ◌++◌, some, arith, ltb, ◌==◌, nat_eq, if◌then◌else◌,
  length, length-append, take, drop, take-append, drop-append, ok, err, Option-cases, Bool-cases,
  inl, inr, ap, sym, append_assoc, ◌∙◌,
}
use antarloka.Text.{Bytes}
use antarloka.Proto.Bytes.{to_be_bytes, length-to_be_bytes, from_be_bytes-to_be_bytes}
use antarloka.Proto.Message.{
  Message, TransferId, type_byte, max_plaintext, max_control_json, max_file_size,
}
use antarloka.Proto.Codec.{
  Json, Serde, ProtoError, payload, encode, decode, decode_control, decode_chunk,
}
use antarloka.Proto.Bounds.{IsBounded}

-- serde reads back what it wrote.
abbrev pub Faithful : {A : Type 0} → Json A → Type 0
Faithful {A} j = (a : A) (b : Bytes) → j.to_writer a ≡ some b → j.from_slice b ≡ some a

pub record IsFaithful (serde : Serde) : Type 0 where
  pub hellos : Faithful serde.hellos
  pub pair_requests : Faithful serde.pair_requests
  pub reasons : Faithful serde.reasons
  pub texts : Faithful serde.texts
  pub ids : Faithful serde.ids
  pub file_offers : Faithful serde.file_offers
  pub id_reasons : Faithful serde.id_reasons
  pub file_dones : Faithful serde.file_dones

-- `encode` succeeds with the type byte and the payload, within the limit of a frame.
pub encode-eq-ok :
    (serde : Serde) (m : Message) (out : Bytes)
    → encode serde m ≡ ok out
    → (body : Bytes) × (payload serde m ≡ some body)
      × (out ≡ type_byte m ∷ body)
      × (length out ≤ max_plaintext)
unfolding encode
encode-eq-ok serde m out h = elim (Option-cases (payload serde m)) [
  | inl e ↦ ground arith
  | inr (body, e) ↦ (body, e, ground arith, ground arith)
]

pub take_exact : (n : ℕ) (xs ys : Bytes) → length xs ≡ n → take n (xs ++ ys) ≡ xs
take_exact n xs ys h = rw (← h) (take-append xs ys)

pub drop_exact : (n : ℕ) (xs ys : Bytes) → length xs ≡ n → drop n (xs ++ ys) ≡ ys
drop_exact n xs ys h = rw (← h) (drop-append xs ys)

decode_chunk-payload :
    (id : TransferId) (offset : ℕ) (bytes : Bytes)
    → length id ≡ 16
    → offset ≤ max_file_size
    → decode_chunk (id ++ (to_be_bytes 8 offset ++ bytes)) ≡ ok (Message.file_chunk id offset bytes)
unfolding decode_chunk
decode_chunk-payload id offset bytes h k =
    let word : Bytes = to_be_bytes 8 offset in
    let size = length-to_be_bytes 8 offset in
    let header : length (id ++ word) ≡ 24 = omega (arith, length-append id word) in
    let rest : drop 24 (id ++ (word ++ bytes)) ≡ bytes =
      ap (λ xs. drop 24 xs) (sym (append_assoc id word bytes))
      ∙ drop_exact 24 (id ++ word) bytes header in
    rw
      (
        take_exact 16 id (word ++ bytes) h,
        drop_exact 16 id (word ++ bytes) h,
        take_exact 8 word bytes size,
      )
      (ground (
        arith,
        rest,
        from_be_bytes-to_be_bytes 8 offset (omega arith),
        length-append id (word ++ bytes),
        length-append word bytes,
      ))

module _ (serde : Serde) (faithful : IsFaithful serde) where
  decode_control-payload :
      (m : Message) (body : Bytes)
      → payload serde m ≡ some body
      → IsBounded m
      → type_byte m ≢ 0x33
      → decode_control serde (type_byte m) body ≡ ok m
  unfolding payload decode_control type_byte
  decode_control-payload (Message.hello h) body e b n = ground (arith, faithful.hellos h body)
  decode_control-payload Message.ping body e b n = refl
  decode_control-payload Message.pong body e b n = refl
  decode_control-payload (Message.pair_request p) body e b n =
      ground (arith, faithful.pair_requests p body)
  decode_control-payload Message.pair_accept body e b n = refl
  decode_control-payload (Message.pair_reject r) body e b n =
      ground (arith, faithful.reasons r body)
  decode_control-payload (Message.text t) body e b n = ground (arith, faithful.texts t body)
  decode_control-payload (Message.text_ack id) body e b n = ground (arith, faithful.ids id body)
  decode_control-payload (Message.file_offer o) body e b n =
      ground (arith, faithful.file_offers o body)
  decode_control-payload (Message.file_accept id) body e b n = ground (arith, faithful.ids id body)
  decode_control-payload (Message.file_reject r) body e b n =
      ground (arith, faithful.id_reasons r body)
  decode_control-payload (Message.file_chunk id offset bytes) body e b n = absurd (n refl)
  decode_control-payload (Message.file_done d) body e b n =
      ground (arith, faithful.file_dones d body)
  decode_control-payload (Message.file_error r) body e b n =
      ground (arith, faithful.id_reasons r body)
  decode_control-payload (Message.file_cancel r) body e b n =
      ground (arith, faithful.id_reasons r body)

  decode_chunk-eq :
      (m : Message) (body : Bytes)
      → (type_byte m == 0x33) ≡ true
      → payload serde m ≡ some body
      → IsBounded m
      → decode_chunk body ≡ ok m
  unfolding payload type_byte
  decode_chunk-eq (Message.file_chunk id offset bytes) body c e b =
      ground (arith, decode_chunk-payload id offset bytes b.0 b.1)
  decode_chunk-eq _ body c e b = cc

  -- Any bounded message that `encode` lets through comes back from `decode` as it was, but for one
  -- case: a message other than a file chunk whose JSON is longer than 16 KiB is refused.
  pub decode-encode :
      (m : Message) (out : Bytes)
      → encode serde m ≡ ok out
      → IsBounded m
      → decode serde out ≡ (
          if type_byte m == 0x33
          then ok m
          else if ltb (max_control_json + 1) (length out)
          then err (ProtoError.too_large (length out - 1))
          else ok m)
  unfolding decode
  decode-encode m out h b =
      let (body, e, shape, _) = encode-eq-ok serde m out h in
      rw shape (elim (Bool-cases (type_byte m == 0x33)) [
        | inl chunk ↦ rw (chunk, decode) (decode_chunk-eq m body chunk e b)
        | inr control ↦ ground (arith, decode_control-payload m body e b)
      ])
