-- ===== src/Front/Bounds.antt =====
-- The front-end's log and chats do not grow without bound.
use antarloka.Prelude.{
  ◌-◌, ◌≤◌, ◌≡◌, Bool, true, false, not, List, [], ◌∷◌, ◌++◌, Option, none, some, nat_eq, list_eq,
  ◌==◌, if◌then◌else◌, length, length-drop, arith, Bool-cases, inl, inr,
}
use antarloka.Prelude.Map.{lookup, insert, lookup-insert}
use antarloka.Text.{Str}
use antarloka.Fs.{FilePath}
use antarloka.Proto.Message.{TransferId}
use antarloka.Security.Fingerprint.{DeviceId}
use antarloka.Engine.State.{EngineEvent, ConnInfo}
use antarloka.Front.{
  Running, Show, ChatItem, Color, welcome, green, amber, max_log, max_chat, trim_log, trim_chat,
  push_chat, note, learn_name, on_connected, on_pairing_finished, on_progress, on_finished,
  on_event, pump_events, or_default,
}

length-trim_log-le : (xs : List (Str × Color)) → length (trim_log xs) ≤ max_log
unfolding trim_log
length-trim_log-le [] = omega arith
length-trim_log-le (x ∷ xs) = ground (arith, length-trim_log-le xs)

length-trim_chat-le : (v : List ChatItem) → length (trim_chat v) ≤ max_chat
unfolding trim_chat
length-trim_chat-le v = ground (arith, length-drop (length v - max_chat) v)

-- At most 300 lines in the log, and at most 1000 items in each chat.
pub record IsTrimmed (r : Running) : Type 0 where
  pub log : length r.log ≤ max_log
  pub chats : (d : DeviceId) (v : List ChatItem) → lookup d r.chats ≡ some v → length v ≤ max_chat

push_chat-IsTrimmed :
    (d : DeviceId) (x : ChatItem) (r : Running) → IsTrimmed r → IsTrimmed (push_chat d x r)
unfolding push_chat
push_chat-IsTrimmed d x r t = record {
  log = t.log;
  chats = λ j v e. ground (
    arith,
    e,
    lookup-insert d j (trim_chat (or_default (lookup d r.chats) [] ++ x ∷ [])) r.chats,
    length-trim_chat-le (or_default (lookup d r.chats) [] ++ x ∷ []),
    t.chats j v,
  );
}

learn_name-IsTrimmed :
    (d : DeviceId) (name : Str) (r : Running) → IsTrimmed r → IsTrimmed (learn_name d name r)
unfolding learn_name
learn_name-IsTrimmed d name r t = elim (Bool-cases (name == [])) [
  | inl e ↦ rw e t
  | inr e ↦ rw e (record { log = t.log; chats = t.chats })
]

if-IsTrimmed :
    (b : Bool) (x y : Running) → IsTrimmed x → IsTrimmed y → IsTrimmed (if b then x else y)
if-IsTrimmed true x y t u = t
if-IsTrimmed false x y t u = u

module _ (show : Show) where
  note-IsTrimmed :
      (text : Str) (color : Color) (r : Running) → IsTrimmed r → IsTrimmed (note show text color r)
  unfolding note
  note-IsTrimmed text color r t = record { log = length-trim_log-le _; chats = t.chats }

  on_connected-IsTrimmed :
      (c : ConnInfo) (r : Running) → IsTrimmed r → IsTrimmed (on_connected show c r)
  unfolding on_connected
  on_connected-IsTrimmed c r t =
      let r1 = learn_name c.device c.name r in
      let r2 : Running = record r1 { connected = insert c.device c.paired r1.connected } in
      let t1 = learn_name-IsTrimmed c.device c.name r t in
      let t2 : IsTrimmed r2 = record { log = t1.log; chats = t1.chats } in
      let t3 = note-IsTrimmed (welcome show r2 c.device) green r2 t2 in
      if-IsTrimmed (not c.paired) _ _ t2 (record { log = t3.log; chats = t3.chats })

  on_pairing_finished-IsTrimmed :
      (d : DeviceId) (accepted : Bool) (r : Running)
      → IsTrimmed r
      → IsTrimmed (on_pairing_finished show d accepted r)
  unfolding on_pairing_finished
  on_pairing_finished-IsTrimmed d accepted r t =
      let answered : Bool = elim r.pairing [ none ↦ false | some p ↦ p.device == d ] in
      let t1 =
        if-IsTrimmed answered (record r { pairing = none }) r
          (record { log = t.log; chats = t.chats }) t in
      let t2 = note-IsTrimmed _ green _ t1 in
      if-IsTrimmed accepted _ _ (record { log = t2.log; chats = t2.chats })
        (note-IsTrimmed _ amber _ t1)

  on_finished-IsTrimmed :
      (id : TransferId) (incoming : Bool) (name : Str) (path : Option FilePath) (error : Option Str)
      (r : Running)
      → IsTrimmed r
      → IsTrimmed (on_finished show id incoming name path error r)
  unfolding on_finished
  on_finished-IsTrimmed id incoming name path error r t =
      push_chat-IsTrimmed _ _ _ (note-IsTrimmed _ _ _ (record { log = t.log; chats = t.chats }))

  on_event-IsTrimmed : (e : EngineEvent) (r : Running) → IsTrimmed r → IsTrimmed (on_event show e r)
  unfolding on_event on_progress
  on_event-IsTrimmed (EngineEvent.peer_discovered p) r t =
      note-IsTrimmed _ _ _ (record { log = t.log; chats = t.chats })
  on_event-IsTrimmed (EngineEvent.peer_lost id) r t = note-IsTrimmed _ _ r t
  on_event-IsTrimmed (EngineEvent.connected c) r t = on_connected-IsTrimmed c r t
  on_event-IsTrimmed (EngineEvent.disconnected d reason) r t =
      note-IsTrimmed _ _ _ (record { log = t.log; chats = t.chats })
  on_event-IsTrimmed (EngineEvent.pairing_required d name fp sas addr remote) r t =
      let t1 = learn_name-IsTrimmed d name r t in record { log = t1.log; chats = t1.chats }
  on_event-IsTrimmed (EngineEvent.pairing_finished d accepted) r t =
      on_pairing_finished-IsTrimmed d accepted r t
  on_event-IsTrimmed (EngineEvent.text_received from text ts) r t = push_chat-IsTrimmed from _ r t
  on_event-IsTrimmed (EngineEvent.text_sent to text ts) r t = push_chat-IsTrimmed to _ r t
  on_event-IsTrimmed (EngineEvent.offer_received from id name size) r t = record {
    log = t.log;
    chats = t.chats;
  }
  on_event-IsTrimmed (EngineEvent.transfer_progress id done total incoming) r t = record {
    log = t.log;
    chats = t.chats;
  }
  on_event-IsTrimmed (EngineEvent.transfer_finished id incoming name path error) r t =
      on_finished-IsTrimmed id incoming name path error r t
  on_event-IsTrimmed EngineEvent.trust_changed r t = t
  on_event-IsTrimmed (EngineEvent.notice m) r t = note-IsTrimmed _ _ r t
  on_event-IsTrimmed (EngineEvent.error m) r t = note-IsTrimmed _ _ r t

  -- However many events come, the log keeps to 300 lines and each chat to 1000 items.
  pub pump_events-IsTrimmed :
      (es : List EngineEvent) (r : Running) → IsTrimmed r → IsTrimmed (pump_events show es r)
  unfolding pump_events
  pump_events-IsTrimmed [] r t = t
  pump_events-IsTrimmed (e ∷ es) r t =
      pump_events-IsTrimmed es (on_event show e r) (on_event-IsTrimmed e r t)
