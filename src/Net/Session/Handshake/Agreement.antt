-- ===== src/Net/Session/Handshake/Agreement.antt =====
-- The two sides of a handshake end with each other's key and the same hash.
use antarloka.Prelude.{
  ◌≡◌, refl, ap, true, false, [], ◌++◌, none, some, ok, length, arith, append-nil,
}
use antarloka.Text.{Bytes}
use antarloka.Security.Fingerprint.{sas_code}
use antarloka.Security.Keystore.{Identity}
use antarloka.Engine.State.{SocketAddr}
use antarloka.Net.Session.{frame, new_channel, write_all}
use antarloka.Net.Session.Frames.{read_frame-frame}
use antarloka.Net.Session.Handshake.{
  Handshakes, CompletedHandshake, Stream, SocketIo, write_hs, read_hs, build, finish_handshake,
  handshake_initiator, handshake_responder, is_handshake_length,
}

-- A socket on which no call fails.
abbrev pub healthy : SocketAddr → SocketIo
healthy addr = record {
  peer_addr = some addr;
  configured = true;
  reconfigured = true;
  first_write = none;
  second_write = none;
}

module _ {P H T : Type 0} (snow : Handshakes P H T) where
  write_hs-ok :
      (hs next : H) (msg : Bytes) (w : Stream)
      → snow.write_message hs ≡ (some msg, next)
      → write_hs snow none hs w ≡ (ok next, record w { outbound = w.outbound ++ frame msg })
  unfolding write_hs write_all
  write_hs-ok hs next msg w e = ground (arith, e)

  read_hs-ok :
      (hs next : H) (msg payload rest : Bytes) (w : Stream)
      → w.inbound ≡ frame msg ++ rest
      → is_handshake_length (length msg) ≡ true
      → snow.read_message hs msg ≡ (some payload, next)
      → read_hs snow hs w ≡ (ok next, record w { inbound = rest })
  unfolding read_hs
  read_hs-ok hs next msg payload rest w i fits e =
      ground
        (arith, i, read_frame-frame is_handshake_length msg rest (ground (arith, fits)) fits, e)

-- What Noise promises of an undisturbed run of XX between the two sides: the three messages are
-- read as they were written, each fits its frame, and at the end each side knows the other's key,
-- both have the same hash, and both have a transport state.
pub record IsXx {P H T : Type 0} (snow : Handshakes P H T) (i r : Identity) : Type 0 where
  pub i0 : H
  pub i1 : H
  pub i2 : H
  pub i3 : H
  pub r0 : H
  pub r1 : H
  pub r2 : H
  pub r3 : H
  pub m1 : Bytes
  pub m2 : Bytes
  pub m3 : Bytes
  pub p1 : Bytes
  pub p2 : Bytes
  pub p3 : Bytes
  pub ti : T
  pub tr : T
  pub start_i : build snow i true ≡ ok i0
  pub start_r : build snow r false ≡ ok r0
  pub write1 : snow.write_message i0 ≡ (some m1, i1)
  pub read1 : snow.read_message r0 m1 ≡ (some p1, r1)
  pub write2 : snow.write_message r1 ≡ (some m2, r2)
  pub read2 : snow.read_message i1 m2 ≡ (some p2, i2)
  pub write3 : snow.write_message i2 ≡ (some m3, i3)
  pub read3 : snow.read_message r2 m3 ≡ (some p3, r3)
  pub fits1 : is_handshake_length (length m1) ≡ true
  pub fits2 : is_handshake_length (length m2) ≡ true
  pub fits3 : is_handshake_length (length m3) ≡ true
  pub knows_r : snow.get_remote_static i3 ≡ some r.public
  pub knows_i : snow.get_remote_static r3 ≡ some i.public
  pub same_hash : snow.get_handshake_hash i3 ≡ snow.get_handshake_hash r3
  pub transport_i : snow.into_transport_mode i3 ≡ some ti
  pub transport_r : snow.into_transport_mode r3 ≡ some tr

module _ {P H T : Type 0} (snow : Handshakes P H T) (i r : Identity) (x : IsXx snow i r)
    (at_i at_r : SocketAddr) where
  -- The connecting side ends with the other's key; the second message is all that it reads.
  initiator-run :
      (later : Bytes)
      → handshake_initiator snow
          (healthy at_r)
          i
          (record { inbound = frame x.m2 ++ later; outbound = [] })
        ≡ (
          ok (record {
            channel = record (new_channel x.ti) { inbound = later };
            remote_static = r.public;
            handshake_hash = snow.get_handshake_hash x.i3;
            peer_addr = at_r;
            is_initiator = true;
          }),
          record { inbound = later; outbound = frame x.m1 ++ frame x.m3 },
        )
  unfolding handshake_initiator finish_handshake
  initiator-run later =
      let w0 : Stream = record { inbound = frame x.m2 ++ later; outbound = [] } in
      let w1 : Stream = record { inbound = frame x.m2 ++ later; outbound = frame x.m1 } in
      let w2 : Stream = record { inbound = later; outbound = frame x.m1 } in
      ground (
        arith,
        x.start_i,
        write_hs-ok snow x.i0 x.i1 x.m1 w0 x.write1,
        read_hs-ok snow x.i1 x.i2 x.m2 x.p2 later w1 refl x.fits2 x.read2,
        write_hs-ok snow x.i2 x.i3 x.m3 w2 x.write3,
        x.knows_r,
        x.transport_i,
      )

  -- The accepting side, which reads the first and the third.
  responder-run :
      (later : Bytes)
      → handshake_responder snow
          (healthy at_i)
          r
          (record { inbound = frame x.m1 ++ (frame x.m3 ++ later); outbound = [] })
        ≡ (
          ok (record {
            channel = record (new_channel x.tr) { inbound = later };
            remote_static = i.public;
            handshake_hash = snow.get_handshake_hash x.r3;
            peer_addr = at_i;
            is_initiator = false;
          }),
          record { inbound = later; outbound = frame x.m2 },
        )
  unfolding handshake_responder finish_handshake
  responder-run later =
      let w0 : Stream = record { inbound = frame x.m1 ++ (frame x.m3 ++ later); outbound = [] } in
      let w1 : Stream = record { inbound = frame x.m3 ++ later; outbound = [] } in
      let w2 : Stream = record { inbound = frame x.m3 ++ later; outbound = frame x.m2 } in
      ground (
        arith,
        x.start_r,
        read_hs-ok snow x.r0 x.r1 x.m1 x.p1 (frame x.m3 ++ later) w0 refl x.fits1 x.read1,
        write_hs-ok snow x.r1 x.r2 x.m2 w1 x.write2,
        read_hs-ok snow x.r2 x.r3 x.m3 x.p3 later w2 refl x.fits3 x.read3,
        x.knows_i,
        x.transport_r,
      )

  -- Each side reads what the other wrote. Both sides end, with nothing left unread, each with the
  -- key of the other, with the same hash, from which both show the same pairing code, and with the
  -- channel of their transport.
  pub handshake_agreement :
      (blake2s : Bytes → Bytes)
      → (a : CompletedHandshake T) × (b : CompletedHandshake T) × (out_i : Bytes) × (out_r : Bytes)
        × (handshake_initiator snow (healthy at_r) i (record { inbound = out_r; outbound = [] })
            ≡ (ok a, record { inbound = []; outbound = out_i }))
        × (handshake_responder snow (healthy at_i) r (record { inbound = out_i; outbound = [] })
            ≡ (ok b, record { inbound = []; outbound = out_r }))
        × (a.remote_static ≡ r.public)
        × (b.remote_static ≡ i.public)
        × (sas_code blake2s a.handshake_hash ≡ sas_code blake2s b.handshake_hash)
        × (a.channel ≡ new_channel x.ti)
        × (b.channel ≡ new_channel x.tr)
  handshake_agreement blake2s = (
    record {
      channel = new_channel x.ti;
      remote_static = r.public;
      handshake_hash = snow.get_handshake_hash x.i3;
      peer_addr = at_r;
      is_initiator = true;
    },
    record {
      channel = new_channel x.tr;
      remote_static = i.public;
      handshake_hash = snow.get_handshake_hash x.r3;
      peer_addr = at_i;
      is_initiator = false;
    },
    frame x.m1 ++ frame x.m3,
    frame x.m2,
    rw (← append-nil (frame x.m2)) (initiator-run []),
    rw (← append-nil (frame x.m3)) (responder-run []),
    refl,
    refl,
    ap (sas_code blake2s) x.same_hash,
    refl,
    refl,
  )
