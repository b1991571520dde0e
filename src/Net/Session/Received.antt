-- ===== src/Net/Session/Received.antt =====
-- What is known of a message that `recv` gives, whatever the peer wrote.
use antarloka.Prelude.{
  ℕ, suc, ◌+◌, ◌≤◌, ◌≡◌, ◌≢◌, ◌∷◌, [], some, Option, ok, err, length, arith, ltb, Option-cases,
  Result-cases, Bool-cases, inl, inr,
}
use antarloka.Text.{Bytes}
use antarloka.Proto.Message.{Message, max_frame}
use antarloka.Proto.Codec.{Serde, decode, encode}
use antarloka.Proto.Bounds.{IsBounded, FillsFrame, decode-IsBounded}
use antarloka.Proto.RoundTrip.{encode-eq-ok}
use antarloka.Net.Session.{
  Channel, Transport, recv, open_frame, read_frame, is_frame_length, max_messages, send_message,
  seal, frame_too_large,
}
use antarloka.Net.Session.Frames.{read_frame-fits}

module _ {T : Type 0} (snow : Transport T) (serde : Serde) where
  -- The frame that a message came in.
  pub record CameIn (c next : Channel T) (m : Message) : Type 0 where
    pub ct : Bytes
    pub pt : Bytes
    pub long_enough : 16 ≤ length ct
    pub short_enough : length ct ≤ max_frame
    pub authentic : snow.read_message c.cipher ct ≡ (some pt, next.cipher)
    pub parsed : decode serde pt ≡ ok m
    pub filled : FillsFrame pt m
    pub taken : length c.inbound ≡ 4 + length ct + length next.inbound
    pub counted : next.recvd ≡ suc c.recvd
    pub in_limit : c.recvd ≤ max_messages

  opened :
      (c next : Channel T) (ct : Bytes) (m : Message)
      → open_frame snow serde c ct ≡ (ok m, next)
      → (pt : Bytes) × (snow.read_message c.cipher ct ≡ (some pt, next.cipher))
        × (decode serde pt ≡ ok m)
        × (next.recvd ≡ suc c.recvd)
        × (c.recvd ≤ max_messages)
        × (next.inbound ≡ c.inbound)
  unfolding open_frame
  opened c next ct m h = elim (Bool-cases (ltb max_messages c.recvd)) [
    | inl over ↦ ground (arith, over)
    | inr fine ↦ elim (Option-cases (snow.read_message c.cipher ct).0) [
      | inl e ↦ ground (arith, fine, e)
      | inr (pt, e) ↦ elim (Result-cases (decode serde pt)) [
        | inr (_, d) ↦ ground (arith, fine, e, d)
        | inl (n, d) ↦ (
          pt,
          ground (arith, fine, e, d),
          ground (arith, fine, e, d),
          ground (arith, fine, e, d),
          ground (arith, fine),
          ground (arith, fine, e, d),
        )
      ]
    ]
  ]

  decoded-IsBounded :
      (pt : Bytes) (m : Message) → decode serde pt ≡ ok m → IsBounded m × FillsFrame pt m
  unfolding decode
  decoded-IsBounded [] m h = ground (arith, h)
  decoded-IsBounded (t ∷ body) m h = let (b, _, f) = decode-IsBounded serde t body m h in (b, f)

  -- A message that `recv` gives keeps the limits that `decode` checks, and a chunk is as long as its
  -- frame lets it. It was in a frame of at least 16
  -- and at most 65535 bytes that the cipher authenticated, one frame was taken from the
  -- stream, and the session had not received more than its 2^48 messages.
  pub recv-IsBounded :
      (c next : Channel T) (m : Message)
      → recv snow serde c ≡ (ok m, next)
      → IsBounded m × CameIn c next m
  unfolding recv
  recv-IsBounded c next m h = elim (Result-cases (read_frame is_frame_length c.inbound)) [
    | inr (_, e) ↦ ground (arith, e)
    | inl ((ct, rest), e) ↦
        let (fits, taken) = read_frame-fits is_frame_length c.inbound ct rest e in
        let (pt, a, d, n, k, i) =
          opened (record c { inbound = rest }) next ct m (ground (arith, e)) in
        (
          (decoded-IsBounded pt m d).0,
          record {
            ct = ct;
            pt = pt;
            long_enough = ground (arith, fits);
            short_enough = ground (arith, fits);
            authentic = a;
            parsed = d;
            filled = (decoded-IsBounded pt m d).1;
            taken = ground (arith, taken, i);
            counted = n;
            in_limit = k;
          },
        )
  ]

  -- The second length check of `send` never fires: `encode` has made it.
  send_message-frame_too_large_never :
      (taken : Option ℕ) (c : Channel T) (m : Message) (n : ℕ)
      → (send_message snow serde taken c m).0 ≢ err (frame_too_large n)
  unfolding send_message seal
  send_message-frame_too_large_never taken c m n h = elim (Result-cases (encode serde m)) [
    | inr (_, e) ↦ ground (arith, e)
    | inl (pt, e) ↦ ground (arith, e, encode-eq-ok serde m pt e)
  ]
