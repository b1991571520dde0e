-- ===== src/Front/Shown.antt =====
-- What the front-end shows of connections and of pairing prompts is what the last events say.
use antarloka.Prelude.{
  ◌≡◌, refl, Bool, false, List, [], ◌∷◌, Option, none, some, nat_eq, list_eq, ◌==◌, if◌then◌else◌,
  arith, Option-cases, inl, inr, ◌∙◌, ap,
}
use antarloka.Prelude.Map.{lookup, lookup-insert, lookup-remove, map_option}
use antarloka.Security.Fingerprint.{DeviceId}
use antarloka.Engine.State.{EngineEvent}
use antarloka.Front.{
  Running, Show, PairPrompt, push_chat, note, learn_name, on_connected, on_pairing_finished,
  on_progress, on_finished, on_event, pump_events,
}

-- Whether the device is connected, and paired, after one event.
abbrev pub connected_by : DeviceId → EngineEvent → Option Bool → Option Bool
connected_by d (EngineEvent.connected c) now = if c.device == d then some c.paired else now
connected_by d (EngineEvent.disconnected j reason) now = if j == d then none else now
connected_by d _ now = now

unfoldable pub connected_after : DeviceId → List EngineEvent → Option Bool → Option Bool
connected_after d [] now = now
connected_after d (e ∷ es) now = connected_after d es (connected_by d e now)

abbrev pub is_device : DeviceId → Option DeviceId → Bool
is_device d none = false
is_device d (some j) = j == d

-- The device whose pairing prompt is shown after one event.
abbrev pub prompted_by : EngineEvent → Option DeviceId → Option DeviceId
prompted_by (EngineEvent.pairing_required d name fingerprint sas addr remote) now = some d
prompted_by (EngineEvent.pairing_finished d accepted) now = if is_device d now then none else now
prompted_by _ now = now

unfoldable pub prompted_after : List EngineEvent → Option DeviceId → Option DeviceId
prompted_after [] now = now
prompted_after (e ∷ es) now = prompted_after es (prompted_by e now)

abbrev pub prompt_device : Running → Option DeviceId
prompt_device r = map_option (λ (p : PairPrompt). p.device) r.pairing

module _ (show : Show) where
  lookup-on_event_connected :
      (d : DeviceId) (e : EngineEvent) (r : Running)
      → lookup d (on_event show e r).connected ≡ connected_by d e (lookup d r.connected)
  unfolding on_event on_connected on_pairing_finished on_finished on_progress push_chat note
      learn_name
  lookup-on_event_connected d (EngineEvent.connected c) r =
      ground (arith, lookup-insert c.device d c.paired r.connected)
  lookup-on_event_connected d (EngineEvent.disconnected j reason) r = lookup-remove j d r.connected
  lookup-on_event_connected d (EngineEvent.pairing_finished j accepted) r = ground arith
  lookup-on_event_connected d (EngineEvent.pairing_required j name fp sas addr remote) r =
      ground arith
  lookup-on_event_connected d (EngineEvent.peer_discovered p) r = refl
  lookup-on_event_connected d (EngineEvent.peer_lost id) r = refl
  lookup-on_event_connected d (EngineEvent.text_received from text ts) r = refl
  lookup-on_event_connected d (EngineEvent.text_sent to text ts) r = refl
  lookup-on_event_connected d (EngineEvent.offer_received from id name size) r = refl
  lookup-on_event_connected d (EngineEvent.transfer_progress id done total incoming) r = refl
  lookup-on_event_connected d (EngineEvent.transfer_finished id incoming name path error) r = refl
  lookup-on_event_connected d EngineEvent.trust_changed r = refl
  lookup-on_event_connected d (EngineEvent.notice m) r = refl
  lookup-on_event_connected d (EngineEvent.error m) r = refl

  -- After any events a device is shown as connected, and as paired, as the last event about its
  -- connection says.
  pub pump_events-connected_after :
      (d : DeviceId) (es : List EngineEvent) (r : Running)
      → lookup d (pump_events show es r).connected ≡ connected_after d es (lookup d r.connected)
  unfolding pump_events connected_after
  pump_events-connected_after d [] r = refl
  pump_events-connected_after d (e ∷ es) r =
      pump_events-connected_after d es (on_event show e r)
      ∙ ap (connected_after d es) (lookup-on_event_connected d e r)

  on_event-prompted_by :
      (e : EngineEvent) (r : Running)
      → prompt_device (on_event show e r) ≡ prompted_by e (prompt_device r)
  unfolding on_event on_connected on_pairing_finished on_finished on_progress push_chat note
      learn_name
  on_event-prompted_by (EngineEvent.connected c) r = ground arith
  on_event-prompted_by (EngineEvent.disconnected j reason) r = refl
  on_event-prompted_by (EngineEvent.pairing_finished j accepted) r = elim (Option-cases r.pairing) [
    | inl e ↦ ground (arith, e)
    | inr (p, e) ↦ ground (arith, e)
  ]
  on_event-prompted_by (EngineEvent.pairing_required j name fp sas addr remote) r = refl
  on_event-prompted_by (EngineEvent.peer_discovered p) r = refl
  on_event-prompted_by (EngineEvent.peer_lost id) r = refl
  on_event-prompted_by (EngineEvent.text_received from text ts) r = refl
  on_event-prompted_by (EngineEvent.text_sent to text ts) r = refl
  on_event-prompted_by (EngineEvent.offer_received from id name size) r = refl
  on_event-prompted_by (EngineEvent.transfer_progress id done total incoming) r = refl
  on_event-prompted_by (EngineEvent.transfer_finished id incoming name path error) r = refl
  on_event-prompted_by EngineEvent.trust_changed r = refl
  on_event-prompted_by (EngineEvent.notice m) r = refl
  on_event-prompted_by (EngineEvent.error m) r = refl

  -- After any events the pairing prompt shown is of the device that asked last, unless that
  -- device's pairing has ended since: a later request takes the place of an unanswered one.
  pub pump_events-prompted_after :
      (es : List EngineEvent) (r : Running)
      → prompt_device (pump_events show es r) ≡ prompted_after es (prompt_device r)
  unfolding pump_events prompted_after
  pump_events-prompted_after [] r = refl
  pump_events-prompted_after (e ∷ es) r =
      pump_events-prompted_after es (on_event show e r)
      ∙ ap (prompted_after es) (on_event-prompted_by e r)
