-- ===== src/Tests/SessionRuns.antt =====
-- Runs of the secure channel over a toy cipher, whose state is the nonce.
use antarloka.Prelude.{
  ℕ, suc, ◌-◌, ◌≡◌, refl, Bool, true, false, [], ◌∷◌, ◌++◌, some, ok, List, length, length-append,
  take, take-append, replicate, arith, if◌then◌else◌,
}
use antarloka.Text.{Bytes}
use antarloka.Proto.Message.{ping, pong, type_byte}
use antarloka.Proto.Codec.{encode, decode, payload, decode_control}
use antarloka.Proto.Bounds.{IsBounded}
use antarloka.Proto.Bytes.{to_be_bytes, from_be_bytes}
use antarloka.Security.Keystore.{Identity, unprotected}
use antarloka.Security.Fingerprint.{sas_code}
use antarloka.Net.Session.{
  Transport, Channel, frame, recv, open_frame, read_frame, read_exact, new_channel,
}
use antarloka.Net.Session.Queue.{put, get, hang_up, Act, run_link, run_queue, new_link}
use antarloka.Net.Session.InTransit.{IsNoise}
use antarloka.Net.Session.Refines.{run_link-run_queue}
use antarloka.Net.Session.Received.{CameIn, recv-IsBounded}
use antarloka.Net.Session.Handshake.{
  Handshakes, CompletedHandshake, handshake_initiator, handshake_responder, build,
}
use antarloka.Net.Session.Handshake.Agreement.{IsXx, healthy, handshake_agreement}
use antarloka.Tests.Samples.{small_serde, key_a, key_b, address_a, drop_prefix}

-- The tag is the nonce, sixteen times.
abbrev toy : Transport ℕ
toy = record {
  write_message = λ n pt. (some (pt ++ replicate 16 n), suc n);
  read_message = λ n ct. (some (take (length ct - 16) ct), suc n);
}

toy_reads :
    (n : ℕ) (pt : Bytes) → take (length (pt ++ replicate 16 n) - 16) (pt ++ replicate 16 n) ≡ pt
toy_reads n pt =
    let size : length (pt ++ replicate 16 n) - 16 ≡ length pt =
      omega (arith, length-append pt (replicate 16 n)) in
    rw size (take-append pt (replicate 16 n))

toy-IsNoise : IsNoise toy (λ n s r. s ≡ r)
toy-IsNoise = record {
  writes = λ n s r pt e room short.
      (pt ++ replicate 16 s, suc s, refl, omega (arith, length-append pt (replicate 16 s)));
  reads =
      λ n s next r pt ct e w. (suc r, ground (arith, e, w, toy_reads s pt), ground (arith, e, w));
}

abbrev requests : List Act
requests = put ping ∷ get ∷ hang_up ∷ put pong ∷ get ∷ []

ping_encoded : encode small_serde ping ≡ ok (2 ∷ [])
unfolding encode payload type_byte
ping_encoded = refl

pong_encoded : encode small_serde pong ≡ ok (3 ∷ [])
unfolding encode payload type_byte
pong_encoded = refl

ping_decoded : decode small_serde (2 ∷ []) ≡ ok ping
unfolding decode decode_control
ping_decoded = refl

pong_decoded : decode small_serde (3 ∷ []) ≡ ok pong
unfolding decode decode_control
pong_decoded = refl

run_link-run_queue_example :
    run_link toy small_serde requests (new_link 0 0)
    ≡ run_queue requests (record { items = []; is_shut = false })
run_link-run_queue_example =
    run_link-run_queue toy small_serde toy-IsNoise requests 0 0 refl
      ((2 ∷ [], ping_encoded, ping_decoded), ((3 ∷ [], pong_encoded, pong_decoded), tt))
      (omega arith)

-- One frame has come.
abbrev waiting : Channel ℕ
waiting = record (new_channel 0) { inbound = frame (2 ∷ replicate 16 0) }

abbrev after_ping : Channel ℕ
after_ping = record (new_channel 1) { recvd = 1 }

ping_received : recv toy small_serde waiting ≡ (ok ping, after_ping)
unfolding recv open_frame read_frame read_exact to_be_bytes from_be_bytes decode decode_control
ping_received = refl

recv-IsBounded_example : IsBounded ping × CameIn toy small_serde waiting after_ping ping
recv-IsBounded_example = recv-IsBounded toy small_serde waiting after_ping ping ping_received

-- A handshake whose state is the side and the number of messages it has seen.
abbrev toy_handshake : Handshakes (Unit {0}) (Bool × ℕ) ℕ
toy_handshake = record {
  parse = λ s. some tt;
  builder = λ p private_key prologue is_initiator. some (is_initiator, 0);
  write_message = λ hs. (some (1 ∷ hs.1 ∷ []), (hs.0, suc hs.1));
  read_message = λ hs msg. (some [], (hs.0, suc hs.1));
  get_remote_static = λ hs. some (if hs.0 then key_b else key_a);
  get_handshake_hash = λ hs. replicate 32 5;
  into_transport_mode = λ hs. some 0;
}

abbrev owner : Bytes → Identity
owner public_key = record { secret = key_a; public = public_key; protection = unprotected }

toy-IsXx : IsXx toy_handshake (owner key_a) (owner key_b)
unfolding build
toy-IsXx = record {
  i0 = (true, 0);
  i1 = (true, 1);
  i2 = (true, 2);
  i3 = (true, 3);
  r0 = (false, 0);
  r1 = (false, 1);
  r2 = (false, 2);
  r3 = (false, 3);
  m1 = 1 ∷ 0 ∷ [];
  m2 = 1 ∷ 1 ∷ [];
  m3 = 1 ∷ 2 ∷ [];
  p1 = [];
  p2 = [];
  p3 = [];
  ti = 0;
  tr = 0;
  start_i = refl;
  start_r = refl;
  write1 = refl;
  read1 = refl;
  write2 = refl;
  read2 = refl;
  write3 = refl;
  read3 = refl;
  fits1 = refl;
  fits2 = refl;
  fits3 = refl;
  knows_r = refl;
  knows_i = refl;
  same_hash = refl;
  transport_i = refl;
  transport_r = refl;
}

handshake_agreement_example :
    (a : CompletedHandshake ℕ) × (b : CompletedHandshake ℕ) × (out_i : Bytes) × (out_r : Bytes)
    × (handshake_initiator toy_handshake
          (healthy address_a)
          (owner key_a)
          (record { inbound = out_r; outbound = [] })
        ≡ (ok a, record { inbound = []; outbound = out_i }))
    × (handshake_responder toy_handshake
          (healthy address_a)
          (owner key_b)
          (record { inbound = out_i; outbound = [] })
        ≡ (ok b, record { inbound = []; outbound = out_r }))
    × (a.remote_static ≡ key_b)
    × (b.remote_static ≡ key_a)
    × (sas_code drop_prefix a.handshake_hash ≡ sas_code drop_prefix b.handshake_hash)
    × (a.channel ≡ new_channel 0)
    × (b.channel ≡ new_channel 0)
unfolding toy-IsXx
handshake_agreement_example =
    handshake_agreement toy_handshake (owner key_a) (owner key_b) toy-IsXx address_a address_a
      drop_prefix
