-- ===== src/Tests/FrontRuns.antt =====
-- Runs of the front-end's events.
use antarloka.Prelude.{
  ◌≡◌, true, List, [], ◌∷◌, none, some, arith, replicate, list_eq, nat_eq, list_beq,
}
use antarloka.Prelude.Map.{lookup}
use antarloka.Text.{codes}
use antarloka.Engine.State.{EngineEvent}
use antarloka.Front.{Show, new_running, pump_events}
use antarloka.Front.Bounds.{IsTrimmed, pump_events-IsTrimmed}
use antarloka.Front.Shown.{
  connected_after, prompted_after, prompt_device, pump_events-connected_after,
  pump_events-prompted_after,
}
use antarloka.Tests.Samples.{device_a, address_a}

abbrev plain_show : Show
plain_show = record {
  stamp_now = [];
  stamp = λ n. [];
  device = λ d. [];
  addr = λ a. [];
  path = λ p. [];
}

-- Two devices ask for pairing, one after the other.
abbrev asked : List EngineEvent
asked =
    EngineEvent.pairing_required device_a (codes "phone") [] [] address_a true
    ∷ EngineEvent.pairing_required (replicate 8 9) (codes "other") [] [] address_a true
    ∷ EngineEvent.disconnected device_a []
    ∷ []

new_running-IsTrimmed : IsTrimmed new_running
unfolding lookup
new_running-IsTrimmed = record { log = omega arith; chats = λ d v e. ground (arith, e) }

pump_events-IsTrimmed_example : IsTrimmed (pump_events plain_show asked new_running)
pump_events-IsTrimmed_example =
    pump_events-IsTrimmed plain_show asked new_running new_running-IsTrimmed

pump_events-connected_after_example :
    lookup device_a (pump_events plain_show asked new_running).connected ≡ none
unfolding connected_after lookup list_beq
pump_events-connected_after_example =
    pump_events-connected_after plain_show device_a asked new_running

pump_events-prompted_after_example :
    prompt_device (pump_events plain_show asked new_running) ≡ some (replicate 8 9)
unfolding prompted_after
pump_events-prompted_after_example = pump_events-prompted_after plain_show asked new_running
