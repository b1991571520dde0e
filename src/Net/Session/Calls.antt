-- ===== src/Net/Session/Calls.antt =====
-- `send` and `recv` where nothing fails, and at the two ends of a channel's life.
use antarloka.Prelude.{
  ℕ, ◌≤◌, ◌≡◌, true, false, [], ◌++◌, Option, none, some, ok, err, length, arith,
}
use antarloka.Text.{Bytes}
use antarloka.Proto.Message.{Message, max_plaintext}
use antarloka.Proto.Codec.{Serde, encode, decode}
use antarloka.Net.Session.{
  Channel, Transport, closed, io, frame, send_message, seal, recv, open_frame, read_frame,
  read_exact, is_frame_length, bump, max_messages, write_all,
}
use antarloka.Net.Session.Frames.{read_frame-frame}

module _ {T : Type 0} (snow : Transport T) (serde : Serde) where
  pub send_message-open :
      (c : Channel T) (m : Message) (pt ct : Bytes) (next : T)
      → c.is_shut ≡ false
      → c.sent ≤ max_messages
      → encode serde m ≡ ok pt
      → length pt ≤ max_plaintext
      → snow.write_message c.cipher pt ≡ (some ct, next)
      → send_message snow serde none c m
        ≡ (ok tt, record c { sent = bump c.sent; cipher = next; outbound = c.outbound ++ frame ct })
  unfolding send_message seal write_all
  send_message-open c m pt ct next h k e short w = ground (arith, h, k, e, short, w)

  pub send_message-shut :
      (taken : Option ℕ) (c : Channel T) (m : Message)
      → c.is_shut ≡ true
      → send_message snow serde taken c m ≡ (err closed, c)
  unfolding send_message
  send_message-shut taken c m h = ground (arith, h)

  pub recv-frame :
      (c : Channel T) (m : Message) (pt ct rest : Bytes) (next : T)
      → c.inbound ≡ frame ct ++ rest
      → is_frame_length (length ct) ≡ true
      → c.recvd ≤ max_messages
      → snow.read_message c.cipher ct ≡ (some pt, next)
      → decode serde pt ≡ ok m
      → recv snow serde c ≡ (ok m, record c { inbound = rest; recvd = bump c.recvd; cipher = next })
  unfolding recv open_frame
  recv-frame c m pt ct rest next i fits k r d =
      let read = read_frame-frame is_frame_length ct rest (ground (arith, fits)) fits in
      ground (arith, i, read, k, r, d)

  pub recv-empty :
      (c : Channel T) → c.inbound ≡ [] → recv snow serde c ≡ (err io, record c { inbound = [] })
  unfolding recv read_frame read_exact
  recv-empty c i = ground (arith, i)
