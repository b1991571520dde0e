-- ===== src/Engine/Queries.antt =====
-- desktop/src/engine/mod.rs: what the front-end asks the engine for. A map gives its values in the
-- order of its list.
use antarloka.Prelude.{ℕ, suc, Bool, true, false, List, [], ◌∷◌, ◌++◌, map, if◌then◌else◌}
use antarloka.Prelude.Map.{Map}
use antarloka.Text.{Str}
use antarloka.Proto.Message.{TransferId}
use antarloka.Security.Fingerprint.{DeviceId, device_id}
use antarloka.Security.Trust.{TrustStore, is_authorised, str_lt}
use antarloka.Engine.Transfer.{IncomingTransfer}
use antarloka.Engine.State.{Inner, Params, PeerInfo, PeerEntry, ConnInfo, Conn, Outgoing}

pub record TransferInfo : Type 0 where
  pub id : TransferId
  pub peer : DeviceId
  pub name : Str
  pub size : ℕ
  pub done : ℕ
  pub incoming : Bool

-- `sort_by` over the names, which keeps the order of equal ones.
unfoldable pub insert_by_name : PeerInfo → List PeerInfo → List PeerInfo
insert_by_name p [] = p ∷ []
insert_by_name p (q ∷ qs) =
    let rest = insert_by_name p qs in if str_lt q.name p.name then q ∷ rest else p ∷ q ∷ qs

unfoldable pub sort_by_name : List PeerInfo → List PeerInfo
sort_by_name [] = []
sort_by_name (p ∷ ps) = insert_by_name p (sort_by_name ps)

module _ (px : Params) where
  -- A peer as it is shown: paired if the trust store says so now.
  abbrev pub shown : TrustStore → DeviceId × PeerEntry → PeerInfo
  shown trust (_, p) = record p.info { paired = is_authorised px.b64 trust p.info.public_key }

  unfoldable pub peers : Inner → List PeerInfo
  peers s = sort_by_name (map (shown s.trust) s.peers)

  unfoldable pub connections : Inner → List ConnInfo
  connections s =
      map
        (λ (e : DeviceId × Conn). record {
          device = device_id px.blake2s e.1.key;
          name = e.1.name;
          addr = e.1.addr;
          fingerprint = e.1.fingerprint;
          sas = e.1.sas;
          paired = e.1.authorised;
        })
        s.conns

outgoing_rows : (ℕ → TransferId) → ℕ → Map TransferId Outgoing → List TransferInfo
outgoing_rows drawn n [] = []
outgoing_rows drawn n ((_, o) ∷ m) =
    record { id = drawn n; peer = o.to; name = o.name; size = o.size; done = 0; incoming = false }
    ∷ outgoing_rows drawn (suc n) m

-- `drawn` are the identifiers that `TransferId::random` gives.
unfoldable pub active_transfers : (ℕ → TransferId) → Inner → List TransferInfo
unfolding outgoing_rows
active_transfers drawn s =
    outgoing_rows drawn 0 s.outgoing
    ++ map
        (λ (e : TransferId × IncomingTransfer). record {
          id = e.1.id;
          peer = e.1.from;
          name = e.1.name;
          size = e.1.size;
          done = e.1.received;
          incoming = true;
        })
        s.incoming
