-- ===== src/Engine/Gate.antt =====
-- What a peer that is not paired cannot do.
use antarloka.Prelude.{
  ◌≡◌, refl, ◌⊎◌, Bool, true, false, arith, list_eq, nat_eq, List, [], ◌∷◌, ◌++◌, keep, some,
  Result, ok, err, ◌∙◌, Option-cases, Bool-cases, inl, inr,
}
use antarloka.Prelude.Map.{adjust, lookup}
use antarloka.Text.{Bytes}
use antarloka.Proto.Message.{Message, allowed_before_pairing}
use antarloka.Security.Fingerprint.{DeviceId}
use antarloka.Engine.State.{Inner, Params, Env, Conn, EngineEvent, push_event, emit, send, send_raw}
use antarloka.Engine.Pairing.{
  save_trust, set_remote_ok, report_save, authorise, finalize, try_finalize_pairing,
}
use antarloka.Security.Trust.{TrustStore, TrustError, add}
use antarloka.Engine.Approval.{noted}
use antarloka.Engine.Dispatch.{
  conn_authorised, dispatch, on_message, on_hello, on_pair_request, on_pair_accept,
}
use antarloka.Engine.Frame.{SameFiles, try_finalize-SameFiles}

-- A text, or news of a transfer.
abbrev is_content : EngineEvent → Bool
is_content (EngineEvent.text_received d t n) = true
is_content (EngineEvent.text_sent d t n) = true
is_content (EngineEvent.offer_received d t n k) = true
is_content (EngineEvent.transfer_progress t n k b) = true
is_content (EngineEvent.transfer_finished t b n p e) = true
is_content _ = false

-- What the front-end hears of texts and transfers.
abbrev pub news : Inner → List EngineEvent
news s = keep is_content s.events

keep-append_other :
    (q : List EngineEvent) (e : EngineEvent)
    → is_content e ≡ false
    → keep is_content (q ++ e ∷ []) ≡ keep is_content q
unfolding keep
keep-append_other [] e h = ground (arith, h)
keep-append_other (x ∷ q) e h = ground (arith, h, keep-append_other q e)

emit-news : (s : Inner) (e : EngineEvent) → is_content e ≡ false → news (emit s e) ≡ news s
unfolding emit push_event
emit-news s e h = ground (arith, keep-append_other s.events e h)

module _ (px : Params) (env : Env) where
  save-news : (s : Inner) → news (report_save px env (save_trust env s)) ≡ news s
  unfolding report_save save_trust
  save-news s = elim (Bool-cases env.trust_written) [
    | inl done ↦ rw done refl
    | inr failed ↦ rw failed (emit-news s _ refl)
  ]

  finalize-news :
      (s : Inner) (device : DeviceId) (r : Result TrustStore TrustError)
      → news (finalize px env device s r) ≡ news s
  unfolding finalize authorise
  finalize-news s device (ok trust) =
      emit-news _ _ refl
      ∙ emit-news _ _ refl
      ∙ emit-news _ _ refl
      ∙ save-news (record s { trust = trust })
  finalize-news s device (err e) = emit-news s _ refl

  try_finalize-news :
      (s : Inner) (device : DeviceId) → news (try_finalize_pairing px env s device) ≡ news s
  unfolding try_finalize_pairing
  try_finalize-news s device = elim (Option-cases (lookup device s.conns)) [
    | inl e ↦ rw (try_finalize_pairing, e) refl
    | inr (c, e) ↦
        ground (arith, e, finalize-news s device (add px.b64 s.trust c.key c.name env.now_ms))
  ]

module _ (px : Params) (env : Env) where
  pub dispatch-SameFiles :
      (authorised : Bool) (s : Inner) (device : DeviceId) (key : Bytes) (msg : Message)
      → allowed_before_pairing msg ≡ true
      → SameFiles s (dispatch px env authorised s device key msg).1
  unfolding dispatch allowed_before_pairing on_hello on_pair_request on_pair_accept save_trust emit
      send_raw send
  dispatch-SameFiles authorised s device key Message.ping h = ground arith
  dispatch-SameFiles authorised s device key Message.pong h = ground arith
  dispatch-SameFiles authorised s device key (Message.hello x) h = ground arith
  dispatch-SameFiles authorised s device key (Message.pair_request x) h = ground arith
  dispatch-SameFiles authorised s device key Message.pair_accept h = ground (
    arith,
    try_finalize-SameFiles px env (record s { conns = adjust set_remote_ok device s.conns }) device,
  )
  dispatch-SameFiles authorised s device key (Message.pair_reject r) h = ground arith
  dispatch-SameFiles authorised s device key _ h = cc

  -- The trust store and what was saved of it change only when the user approved the pairing.
  abbrev pub Approved : Inner → Inner → DeviceId → Message → Type 0
  Approved s t device msg =
      (t.trust ≡ s.trust) × (t.saved ≡ s.saved)
      ⊎ (msg ≡ Message.pair_accept)
        × ((c : Conn) × (lookup device s.conns ≡ some c) × (c.local_ok ≡ true))

  try_finalize-trust :
      (s : Inner) (device : DeviceId)
      → (let t = try_finalize_pairing px env s device in (t.trust ≡ s.trust) × (t.saved ≡ s.saved))
        ⊎ ((c : Conn) × (lookup device s.conns ≡ some c) × (c.local_ok ≡ true))
  unfolding try_finalize_pairing
  try_finalize-trust s device = elim (Option-cases (lookup device s.conns)) [
    | inl e ↦ inl (ground (arith, e))
    | inr (c, e) ↦ elim (Bool-cases c.local_ok) [
      | inl approved ↦ inr (c, e, approved)
      | inr open' ↦ inl (ground (arith, e, open'))
    ]
  ]

  pair_accept-Approved :
      (s : Inner) (device : DeviceId)
      → Approved s (on_pair_accept px env s device) device Message.pair_accept
  unfolding on_pair_accept
  pair_accept-Approved s device =
      elim (try_finalize-trust (record s { conns = adjust set_remote_ok device s.conns }) device) [
        | inl same ↦ inl same
        | inr (c, e, approved) ↦
            let (c', e', same) = noted px env set_remote_ok s device c e in
            inr (refl, (c', e', ground (arith, approved, same)))
      ]

  dispatch-Approved :
      (s : Inner) (device : DeviceId) (key : Bytes) (msg : Message)
      → allowed_before_pairing msg ≡ true
      → Approved s (dispatch px env false s device key msg).1 device msg
  unfolding dispatch allowed_before_pairing on_hello on_pair_request emit send_raw send
  dispatch-Approved s device key Message.ping h = inl (ground arith)
  dispatch-Approved s device key Message.pong h = inl (ground arith)
  dispatch-Approved s device key (Message.hello x) h = inl (ground arith)
  dispatch-Approved s device key (Message.pair_request x) h = inl (ground arith)
  dispatch-Approved s device key Message.pair_accept h = pair_accept-Approved s device
  dispatch-Approved s device key (Message.pair_reject r) h = inl (ground arith)
  dispatch-Approved s device key _ h = cc

  dispatch-news :
      (s : Inner) (device : DeviceId) (key : Bytes) (msg : Message)
      → allowed_before_pairing msg ≡ true
      → news (dispatch px env false s device key msg).1 ≡ news s
  unfolding dispatch allowed_before_pairing on_hello on_pair_request on_pair_accept send_raw send
  dispatch-news s device key Message.ping h = ground arith
  dispatch-news s device key Message.pong h = ground arith
  dispatch-news s device key (Message.hello x) h = emit-news _ _ refl
  dispatch-news s device key (Message.pair_request x) h =
      elim (Option-cases (lookup device s.conns)) [
        | inl e ↦ rw (on_pair_request, e) refl
        | inr (c, e) ↦ rw (on_pair_request, e) (emit-news _ _ refl)
      ]
  dispatch-news s device key Message.pair_accept h =
      try_finalize-news px env (record s { conns = adjust set_remote_ok device s.conns }) device
  dispatch-news s device key (Message.pair_reject r) h = emit-news _ _ refl
  dispatch-news s device key _ h = cc

  -- Nothing that a peer without pairing says changes a transfer, a file in quarantine or among the
  -- downloads, the settings or the peers, or brings the front-end a text or news of a transfer; and it
  -- changes the trust store or its file only by accepting a pairing that the user has approved.
  pub on_message-SameFiles :
      (s : Inner) (device : DeviceId) (key : Bytes) (msg : Message)
      → conn_authorised s device ≡ false
      → SameFiles s (on_message px env s device key msg).1
        × (news (on_message px env s device key msg).1 ≡ news s)
        × Approved s (on_message px env s device key msg).1 device msg
  unfolding on_message
  on_message-SameFiles s device key msg a = elim (Bool-cases (allowed_before_pairing msg)) [
    | inl allowed ↦
        rw (a, allowed)
          (
            dispatch-SameFiles false s device key msg allowed,
            dispatch-news s device key msg allowed,
            dispatch-Approved s device key msg allowed,
          )
    | inr other ↦ rw (a, other) (ground arith, refl, inl (refl, refl))
  ]
