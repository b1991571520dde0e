-- ===== src/Front.antt =====
-- desktop/src/app.rs: what the front-end keeps of what the engine tells it. The widgets, and the
-- fields that only they use, are left out; `Display` and the clock are the parameter `Show`.
pub mod Bounds
pub mod Shown
pub mod Unlock
use antarloka.Prelude.{
  ℕ, ◌-◌, Bool, true, false, not, List, [], ◌∷◌, ◌++◌, Option, none, some, ltb, ◌==◌, nat_eq,
  list_eq, if◌then◌else◌, length, drop,
}
use antarloka.Prelude.Map.{Map, lookup, insert, remove, contains}
use antarloka.Text.{Str, codes}
use antarloka.Fs.{FilePath}
use antarloka.Proto.Message.{TransferId}
use antarloka.Security.Fingerprint.{DeviceId}
use antarloka.Engine.State.{SocketAddr, PeerInfo, ConnInfo, EngineEvent}

pub record ChatItem : Type 0 where
  pub stamp : Str
  pub mine : Bool
  pub text : Str
  pub system : Bool

pub record TransferRow : Type 0 where
  pub name : Str
  pub size : ℕ
  pub done : ℕ
  pub incoming : Bool
  pub peer : DeviceId
  pub finished : Bool
  pub error : Option Str
  pub path : Option FilePath

pub record PairPrompt : Type 0 where
  pub device : DeviceId
  pub name : Str
  pub fingerprint : Str
  pub sas : Str
  pub addr : SocketAddr
  pub remote_initiated : Bool

pub record OfferPrompt : Type 0 where
  pub transfer : TransferId
  pub from : DeviceId
  pub name : Str
  pub size : ℕ

pub data Color : Type 0 where
  dim green amber red : Color

pub record Running : Type 0 where
  pub selected : Option DeviceId
  pub chats : Map DeviceId (List ChatItem)
  pub names : Map DeviceId Str
  pub connected : Map DeviceId Bool
  pub pairing : Option PairPrompt
  pub offers : List OfferPrompt
  pub transfers : Map TransferId TransferRow
  pub log : List (Str × Color)

pub record Show : Type 0 where
  pub stamp_now : Str
  pub stamp : ℕ → Str
  pub device : DeviceId → Str
  pub addr : SocketAddr → Str
  pub path : FilePath → Str

-- `Running::start`, once the engine runs.
abbrev pub new_running : Running
new_running = record {
  selected = none;
  chats = [];
  names = [];
  connected = [];
  pairing = none;
  offers = [];
  transfers = [];
  log = [];
}

abbrev pub max_log : ℕ
max_log = 300

abbrev pub max_chat : ℕ
max_chat = 1000

-- `while self.log.len() > 300 { self.log.pop_front() }`
unfoldable pub trim_log : List (Str × Color) → List (Str × Color)
trim_log [] = []
trim_log (x ∷ xs) = let rest = trim_log xs in if ltb max_log (length (x ∷ xs)) then rest else x ∷ xs

unfoldable pub trim_chat : List ChatItem → List ChatItem
trim_chat v = if ltb max_chat (length v) then drop (length v - max_chat) v else v

abbrev pub or_default {ℓ} : {A : Type ℓ} → Option A → A → A
or_default none a = a
or_default (some b) a = b

-- `DeviceId::parse("0000000000000000")`
abbrev pub no_device : DeviceId
no_device = 0 ∷ 0 ∷ 0 ∷ 0 ∷ 0 ∷ 0 ∷ 0 ∷ 0 ∷ []

unfoldable pub push_chat : DeviceId → ChatItem → Running → Running
push_chat device item r =
    let v = or_default (lookup device r.chats) [] ++ item ∷ [] in
    record r { chats = insert device (trim_chat v) r.chats }

-- `if !name.is_empty() { self.names.insert(device, name) }`
unfoldable pub learn_name : DeviceId → Str → Running → Running
learn_name device name r = if name == [] then r else record r { names = insert device name r.names }

unfoldable pub on_progress : TransferId → ℕ → ℕ → Bool → Running → Running
on_progress transfer done total incoming r =
    let row : TransferRow = or_default (lookup transfer r.transfers) (record {
      name = [];
      size = total;
      done = 0;
      incoming = incoming;
      peer = or_default r.selected no_device;
      finished = false;
      error = none;
      path = none;
    }) in
    record r { transfers = insert transfer (record row { done = done; size = total }) r.transfers }

-- The device in whose chat the end of a transfer is told.
unfoldable pub peer_of : TransferId → Running → DeviceId
peer_of transfer r = elim (lookup transfer r.transfers) [
  | some row ↦ row.peer
  | none ↦ or_default r.selected no_device
]

module _ (show : Show) where
  unfoldable pub note : Str → Color → Running → Running
  note text color r =
      let line = show.stamp_now ++ (codes "  " ++ text) in
      record r { log = trim_log (r.log ++ (line, color) ∷ []) }

  unfoldable pub name_of : Running → DeviceId → Str
  name_of r id = elim (lookup id r.names) [
    | none ↦ show.device id
    | some name ↦ if name == [] then show.device id else name
  ]

  abbrev pub welcome : Running → DeviceId → Str
  welcome r device = codes "Установлено защищённое соединение с " ++ name_of r device

  unfoldable pub on_connected : ConnInfo → Running → Running
  on_connected c r =
      let r1 = learn_name c.device c.name r in
      let r2 : Running = record r1 { connected = insert c.device c.paired r1.connected } in
      if not c.paired
      then r2
      else let r3 = note (welcome r2 c.device) green r2 in
        record r3 { selected = some (or_default r3.selected c.device) }

  unfoldable pub on_pairing_finished : DeviceId → Bool → Running → Running
  on_pairing_finished device accepted r =
      let answered : Bool = elim r.pairing [ none ↦ false | some p ↦ p.device == device ] in
      let r1 : Running = if answered then record r { pairing = none } else r in
      let who = name_of r1 device in
      if accepted
      then record (note (codes "Устройство " ++ (who ++ codes " сопряжено")) green r1) {
        selected = some device;
      }
      else note (codes "Сопряжение с " ++ (who ++ codes " отклонено")) amber r1

  unfoldable pub finished_text : Str → Option FilePath → Option Str → Str
  finished_text name path error = elim error [
    | some e ↦ codes "✖ Файл «" ++ (name ++ (codes "» не передан: " ++ e))
    | none ↦ elim path [
      | some p ↦ codes "✔ Файл «" ++ (name ++ (codes "» сохранён: " ++ show.path p))
      | none ↦ codes "✔ Файл «" ++ (name ++ codes "» отправлен")
    ]
  ]

  unfoldable pub on_finished :
      TransferId → Bool → Str → Option FilePath → Option Str → Running → Running
  on_finished transfer incoming name path error r =
      let peer = peer_of transfer r in
      let row : TransferRow = record {
        name = name;
        size = 0;
        done = 0;
        incoming = incoming;
        peer = peer;
        finished = true;
        error = error;
        path = path;
      } in
      let text = finished_text name path error in
      let color : Color = elim error [ some _ ↦ red | none ↦ green ] in
      let r1 = note text color (record r { transfers = insert transfer row r.transfers }) in
      push_chat peer
        (record { stamp = show.stamp_now; mine = not incoming; text = text; system = true }) r1

  -- One event of `pump_events`.
  unfoldable pub on_event : EngineEvent → Running → Running
  on_event (EngineEvent.peer_discovered p) r =
      note
        (codes "Найдено устройство: "
          ++ (p.name ++ (codes " (" ++ (show.addr p.addr ++ codes ")"))))
        dim (record r { names = insert p.device p.name r.names })
  on_event (EngineEvent.peer_lost id) r =
      note (codes "Устройство " ++ (name_of r id ++ codes " пропало из сети")) dim r
  on_event (EngineEvent.connected c) r = on_connected c r
  on_event (EngineEvent.disconnected device reason) r =
      let r1 : Running = record r { connected = remove device r.connected } in
      note (codes "Соединение с " ++ (name_of r1 device ++ (codes " закрыто: " ++ reason))) dim r1
  on_event (EngineEvent.pairing_required device name fingerprint sas addr remote_initiated) r =
      let r1 = learn_name device name r in
      record r1 {
        pairing = some (record {
          device = device;
          name = name_of r1 device;
          fingerprint = fingerprint;
          sas = sas;
          addr = addr;
          remote_initiated = remote_initiated;
        });
      }
  on_event (EngineEvent.pairing_finished device accepted) r = on_pairing_finished device accepted r
  on_event (EngineEvent.text_received from text ts) r =
      push_chat from (record { stamp = show.stamp ts; mine = false; text = text; system = false }) r
  on_event (EngineEvent.text_sent to text ts) r =
      push_chat to (record { stamp = show.stamp ts; mine = true; text = text; system = false }) r
  on_event (EngineEvent.offer_received from transfer name size) r = record r {
    offers =
        r.offers ++ (record { transfer = transfer; from = from; name = name; size = size }) ∷ [];
  }
  on_event (EngineEvent.transfer_progress transfer done total incoming) r =
      on_progress transfer done total incoming r
  on_event (EngineEvent.transfer_finished transfer incoming name path error) r =
      on_finished transfer incoming name path error r
  on_event EngineEvent.trust_changed r = r
  on_event (EngineEvent.notice m) r = note m dim r
  on_event (EngineEvent.error m) r = note m red r

  unfoldable pub pump_events : List EngineEvent → Running → Running
  pump_events [] r = r
  pump_events (e ∷ es) r = pump_events es (on_event e r)
