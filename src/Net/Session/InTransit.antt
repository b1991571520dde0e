-- ===== src/Net/Session/InTransit.antt =====
-- What Noise promises of two ciphers in step, and the frames that are on their way between them.
use antarloka.Prelude.{
  ℕ, suc, subst, ◌+◌, ◌≤◌, ◌<◌, ◌≡◌, List, [], ◌∷◌, ◌++◌, some, ok, length, arith, append_assoc,
  append-nil, sym,
}
use antarloka.Text.{Bytes}
use antarloka.Proto.Message.{Message, max_plaintext}
use antarloka.Proto.Codec.{Serde, decode}
use antarloka.Net.Session.{Transport, frame, u64_values}

-- What Noise promises once the two ends share keys: `InStep n s r` says that the sender's state `s`
-- and the receiver's `r` stand at the nonce `n`.
pub record IsNoise {T : Type 0} (snow : Transport T) (InStep : ℕ → T → T → Type 0) : Type 0 where
  pub writes :
      (n : ℕ) (s r : T) (pt : Bytes)
      → InStep n s r
      → suc n < u64_values
      → length pt ≤ max_plaintext
      → (ct : Bytes) × (next : T) × (snow.write_message s pt ≡ (some ct, next))
        × (length ct ≡ length pt + 16)
  pub reads :
      (n : ℕ) (s next r : T) (pt ct : Bytes)
      → InStep n s r
      → snow.write_message s pt ≡ (some ct, next)
      → (after : T) × (snow.read_message r ct ≡ (some pt, after)) × InStep (suc n) next after

-- The frames that are on their way from a sender's state to its present one, with their messages.
pub data InTransit {T : Type 0} (snow : Transport T) (serde : Serde)
    : T → Bytes → List Message → T → Type 0 where
  landed : (s : T) → InTransit snow serde s [] [] s
  flying :
      (s next now : T) (pt ct rest : Bytes) (m : Message) (ms : List Message)
      → snow.write_message s pt ≡ (some ct, next)
      → length ct ≡ length pt + 16
      → length pt ≤ max_plaintext
      → decode serde pt ≡ ok m
      → InTransit snow serde next rest ms now
      → InTransit snow serde s (frame ct ++ rest) (m ∷ ms) now

module _ {T : Type 0} (snow : Transport T) (serde : Serde) where
  pub InTransit-append :
      {s now next : T} {wire ct pt : Bytes} {ms : List Message} {m : Message}
      → InTransit snow serde s wire ms now
      → snow.write_message now pt ≡ (some ct, next)
      → length ct ≡ length pt + 16
      → length pt ≤ max_plaintext
      → decode serde pt ≡ ok m
      → InTransit snow serde s (wire ++ frame ct) (ms ++ m ∷ []) next
  InTransit-append {next} {ct} {pt} {m} (landed s) w c k d =
      subst (λ b. InTransit snow serde s b (m ∷ []) next) (append-nil (frame ct))
        (flying s next next pt ct [] m [] w c k d (landed next))
  InTransit-append {next} {ct} {m} (flying s mid now pt0 ct0 rest m0 ms w0 c0 k0 d0 t) w c k d =
      subst (λ b. InTransit snow serde s b (m0 ∷ (ms ++ m ∷ [])) next)
        (sym (append_assoc (frame ct0) rest (frame ct)))
        (flying s mid next pt0 ct0 (rest ++ frame ct) m0 (ms ++ m ∷ []) w0 c0 k0 d0
          (InTransit-append t w c k d))

module _ {T : Type 0} (snow : Transport T) (serde : Serde) {InStep : ℕ → T → T → Type 0}
    (honest : IsNoise snow InStep) where
  -- Once everything on its way is read, the receiver has reached the sender's present state.
  pub InStep-InTransit :
      {s now : T} {wire : Bytes} {ms : List Message} (n : ℕ) (r : T)
      → InTransit snow serde s wire ms now
      → InStep n s r
      → (end : T) × InStep (n + length ms) now end
  InStep-InTransit n r (landed s) h = (r, subst (λ k. InStep k s r) (omega arith) h)
  InStep-InTransit n r (flying s mid now pt ct rest m ms w c k d t) h =
      let (after, _, stepped) = honest.reads n s mid r pt ct h w in
      let (end, reached) = InStep-InTransit (suc n) after t stepped in
      (end, subst (λ k. InStep k now end) (omega arith) reached)
