-- ===== src/Net/Session/Frames.antt =====
-- A frame that was written is read back as it was, and no other length is let through.
use antarloka.Prelude.{
  ℕ, ◌+◌, ◌<◌, ◌≡◌, refl, ◌%◌, Bool, true, ◌++◌, some, arith, ok, length, length-append,
  length-take, length-drop, leb, Option-cases, Bool-cases, inl, inr, append_assoc,
}
use antarloka.Text.{Bytes}
use antarloka.Proto.Bytes.{
  to_be_bytes, from_be_bytes, length-to_be_bytes, from_be_bytes-to_be_bytes,
}
use antarloka.Proto.RoundTrip.{take_exact, drop_exact}
use antarloka.Net.Session.{frame, read_exact, read_frame, u32_values}

pub read_exact-append :
    (n : ℕ) (front rest : Bytes)
    → length front ≡ n
    → read_exact n (front ++ rest) ≡ some (front, rest)
unfolding read_exact
read_exact-append n front rest h =
    rw (take_exact n front rest h, drop_exact n front rest h)
      (ground (arith, length-append front rest))

pub read_frame-frame :
    (fits : ℕ → Bool) (ct rest : Bytes)
    → length ct < u32_values
    → fits (length ct) ≡ true
    → read_frame fits (frame ct ++ rest) ≡ ok (ct, rest)
unfolding read_frame
read_frame-frame fits ct rest small h =
    let whole : length ct % u32_values ≡ length ct = omega arith in
    let prefix : Bytes = to_be_bytes 4 (length ct) in
    let counted : from_be_bytes 0 prefix ≡ length ct =
      from_be_bytes-to_be_bytes 4 (length ct) (omega arith) in
    rw
      (
        whole,
        append_assoc prefix ct rest,
        read_frame,
        read_exact-append 4 prefix (ct ++ rest) (length-to_be_bytes 4 (length ct)),
        counted,
        h,
        read_exact-append (length ct) ct rest refl,
      )
      refl

read_exact-split :
    (n : ℕ) (bs front rest : Bytes)
    → read_exact n bs ≡ some (front, rest)
    → (length front ≡ n) × (length bs ≡ n + length rest)
unfolding read_exact
read_exact-split n bs front rest h = elim (Bool-cases (leb n (length bs))) [
  | inl e ↦ ground (arith, e, length-take n bs, length-drop n bs)
  | inr e ↦ ground (arith, e)
]

-- Whatever the peer sends, a frame that is read has a length that is let through, and it and its
-- prefix are all that is taken from the stream.
pub read_frame-fits :
    (fits : ℕ → Bool) (bs ct rest : Bytes)
    → read_frame fits bs ≡ ok (ct, rest)
    → (fits (length ct) ≡ true) × (length bs ≡ 4 + length ct + length rest)
unfolding read_frame
read_frame-fits fits bs ct rest h = elim (Option-cases (read_exact 4 bs)) [
  | inl e ↦ ground (arith, e)
  | inr ((prefix, body), e) ↦
      let len : ℕ = from_be_bytes 0 prefix in
      let (_, all) = read_exact-split 4 bs prefix body e in
      elim (Bool-cases (fits len)) [
        | inr f ↦ ground (arith, e, f)
        | inl f ↦ elim (Option-cases (read_exact len body)) [
          | inl g ↦ ground (arith, e, f, g)
          | inr ((front, left), g) ↦
              let (size, parts) = read_exact-split len body front left g in
              let same : ct ≡ front = ground (arith, e, f, g) in
              let after : rest ≡ left = ground (arith, e, f, g) in
              rw (same, after) (rw size f, omega (arith, all, parts, size))
        ]
      ]
]
