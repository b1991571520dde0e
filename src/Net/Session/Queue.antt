-- ===== src/Net/Session/Queue.antt =====
-- What one end of a channel sends and the other receives, and the queue that the two ends are.
use antarloka.Prelude.{
  ◌≡◌, Bool, true, List, [], ◌∷◌, ◌++◌, Option, none, some, if◌then◌else◌, Result, ok, err,
}
use antarloka.Text.{Bytes}
use antarloka.Proto.Message.{Message}
use antarloka.Proto.Codec.{Serde, encode, decode}
use antarloka.Net.Session.{
  Channel, Transport, SessionError, closed, io, send_message, recv, shut, new_channel,
}

-- What the two ends are asked to do, and what each request answers.
pub data Act : Type 0 where
  put : Message → Act
  get hang_up : Act

abbrev pub Answer : Type 0
Answer = Result (Option Message) SessionError

-- The abstract channel: the messages on their way, oldest first.
pub record Queue : Type 0 where
  pub items : List Message
  pub is_shut : Bool

abbrev pub sent_answer : Result (Unit {0}) SessionError → Answer
sent_answer (ok _) = ok none
sent_answer (err e) = err e

abbrev pub received_answer : Result Message SessionError → Answer
received_answer (ok m) = ok (some m)
received_answer (err e) = err e

unfoldable pub queue_act : Act → Queue → Answer × Queue
queue_act (put m) q =
    if q.is_shut then (err closed, q) else (ok none, record q { items = q.items ++ m ∷ [] })
queue_act get q = elim q.items [
  | [] ↦ (err io, q)
  | m ∷ ms ↦ (ok (some m), record q { items = ms })
]
queue_act hang_up q = (ok none, record q { is_shut = true })

unfoldable pub run_queue : List Act → Queue → List Answer
run_queue [] q = []
run_queue (x ∷ xs) q = let (answer, next) = queue_act x q in answer ∷ run_queue xs next

-- The two ends of one direction: the network carries what the sender wrote.
pub record Link (T : Type 0) : Type 0 where
  pub here : Channel T
  pub there : Channel T

abbrev pub new_link : {T : Type 0} → T → T → Link T
new_link s r = record { here = new_channel s; there = new_channel r }

module _ {T : Type 0} (snow : Transport T) (serde : Serde) where
  abbrev pub carried : Link T → Channel T → Link T
  carried l c = record {
    here = record c { outbound = [] };
    there = record l.there { inbound = l.there.inbound ++ c.outbound };
  }

  unfoldable pub link_act : Act → Link T → Answer × Link T
  link_act (put m) l =
      let (answer, next) = send_message snow serde none l.here m in
      (sent_answer answer, carried l next)
  link_act get l =
      let (answer, next) = recv snow serde l.there in
      (received_answer answer, record l { there = next })
  link_act hang_up l = (ok none, record l { here = shut l.here })

  unfoldable pub run_link : List Act → Link T → List Answer
  run_link [] l = []
  run_link (x ∷ xs) l = let (answer, next) = link_act x l in answer ∷ run_link xs next

  -- A message that `decode` takes back as `encode` wrote it.
  abbrev pub IsDeliverable : Message → Type 0
  IsDeliverable m = (pt : Bytes) × (encode serde m ≡ ok pt) × (decode serde pt ≡ ok m)

  abbrev pub AllDeliverable : List Act → Type 0
  AllDeliverable [] = Unit {0}
  AllDeliverable (put m ∷ xs) = IsDeliverable m × AllDeliverable xs
  AllDeliverable (x ∷ xs) = AllDeliverable xs
