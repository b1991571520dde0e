-- ===== src/Engine/PairingUri/Dial.antt =====
-- desktop/src/engine/mod.rs: `dial_pairing_uri`, and what a scanned link makes sure of.
use antarloka.Prelude.{
  sym, ap, ◌≡◌, Bool, true, some, inl, inr, arith, nat_eq, Result, ok, ◌>>=◌, Result-cases,
}
use antarloka.Text.{Str}
use antarloka.Engine.State.{Inner, Params, Env, SocketAddr}
use antarloka.Engine.Listener.{Dialled, dial}
use antarloka.Engine.Listener.Admitted.{IsProven, dial-IsProven}
use antarloka.Engine.PairingUri.Target.{Texts, PairingTarget, UriError, parse_pairing_uri}

module _ (tx : Texts) where
  module _ (px : Params) (env : Env) where
    -- `dial_pairing_uri`, with what comes of connecting to each address.
    unfoldable pub dial_pairing_uri :
        (SocketAddr → Dialled) → Str → Inner → Result (Bool × Inner) UriError
    dial_pairing_uri network uri s = parse_pairing_uri tx uri >>= λ t.
        ok (dial px env network (record { ip = t.host; port = t.port }) (some t.public_key) s)

    -- A connection that a scanned link made is with a peer that proved the key of the link, at the
    -- address of the link (in the local network, if the settings say so), and that is not blocked.
    pub dial_pairing_uri-IsProven :
        (network : SocketAddr → Dialled) (uri : Str) (s next : Inner)
        → dial_pairing_uri network uri s ≡ ok (true, next)
        → (t : PairingTarget) × (parse_pairing_uri tx uri ≡ ok t)
          × IsProven px env network s next (record { ip = t.host; port = t.port }) t.public_key
    unfolding dial_pairing_uri
    dial_pairing_uri-IsProven network uri s next h =
        elim (Result-cases (parse_pairing_uri tx uri)) [
          | inl (t, e) ↦
              let addr : SocketAddr = record { ip = t.host; port = t.port } in
              let dialled : dial px env network addr (some t.public_key) s ≡ (true, next) =
                ground (arith, h, e) in
              (
                t,
                e,
                rw (sym (ap (λ r. r.1) dialled))
                    (dial-IsProven px env network addr t.public_key s (ap (λ r. r.0) dialled)),
              )
          | inr (x, e) ↦ ground (arith, h, e)
        ]
