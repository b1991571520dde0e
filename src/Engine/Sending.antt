-- ===== src/Engine/Sending.antt =====
-- desktop/src/engine/mod.rs: `send_file_blocking` in the parts between which other threads may
-- run: the offer, the answer, each round of its loop, and the end.
pub mod Rounds
pub mod Kept
use antarloka.Prelude.{
  ℕ, ◌+◌, ◌%◌, ◌^◌, Bool, true, false, not, ◌&&◌, List, [], ◌∷◌, Option, none, some, if◌then◌else◌,
  Result, ok, err, length, ◌==◌, list_eq, nat_eq,
}
use antarloka.Prelude.Map.{lookup, insert, remove, adjust}
use antarloka.Text.{Str, Bytes}
use antarloka.Fs.{FilePath}
use antarloka.Proto.Message.{Message, TransferId}
use antarloka.Security.Fingerprint.{DeviceId}
use antarloka.Engine.State.{Inner, Params, Env, Outgoing, OutSignal, EngineEvent, emit, send_to}
use antarloka.Engine.Texts.{
  unreadable, declined, no_answer, interrupted, file_changed, cancelled_reason,
}

-- The local variables of the loop.
pub record Sender : Type 0 where
  pub to : DeviceId
  pub id : TransferId
  pub name : Str
  pub path : FilePath
  pub size : ℕ
  pub offset : ℕ
  pub chunk_no : ℕ

-- What one read of the file returns.
pub data ReadIo : Type 0 where
  at_end : ReadIo
  bytes_read : Bytes → ReadIo
  read_error : Str → ReadIo

-- How a round of the loop ends.
pub data Round : Type 0 where
  next : Sender → Round
  all_read : Round
  stopped : Round

unfoldable pub finish_outgoing : Inner → TransferId → Str → Option FilePath → Option Str → Inner
finish_outgoing s id name path error =
    emit (record s { outgoing = remove id s.outgoing })
      (EngineEvent.transfer_finished id false name path error)

unfoldable pub give_up : Inner → Sender → Str → Inner
give_up s x error = finish_outgoing s x.id x.name none (some error)

-- Up to the answer; `hashed` is what `hash_file` returns, none if the file cannot be read.
unfoldable pub offer_file :
    Params
    → Env
    → Inner
    → DeviceId
    → TransferId
    → Str
    → FilePath
    → Option (Str × ℕ)
    → Option Sender × Inner
offer_file px env s to id name path none =
    (none, emit s (EngineEvent.error (unreadable name px.io_error)))
offer_file px env s to id name path (some (sha, size)) =
    let o : Outgoing = record {
      to = to;
      name = name;
      size = size;
      signals = [];
      cancelled = false;
    } in
    let x : Sender = record {
      to = to;
      id = id;
      name = name;
      path = path;
      size = size;
      offset = 0;
      chunk_no = 0;
    } in
    let (r, s1) =
      send_to px env (record s { outgoing = insert id o s.outgoing }) to
        (Message.file_offer
          (record { id = id; name = name; size = size; sha256 = sha; mime = [] })) in
    elim r [ ok _ ↦ (some x, s1) | err e ↦ (none, give_up s1 x e) ]

-- The oldest signal of the channel, taken out of it.
unfoldable pub pop_signal : List OutSignal → Option OutSignal × List OutSignal
pop_signal [] = (none, [])
pop_signal (sig ∷ sigs) = (some sig, sigs)

unfoldable pub take_signal : TransferId → Inner → Option OutSignal × Inner
take_signal id s = elim (lookup id s.outgoing) [
  | none ↦ (none, s)
  | some o ↦
      let (sig, sigs) = pop_signal o.signals in
      (sig, record s { outgoing = insert id (record o { signals = sigs }) s.outgoing })
]

-- When a signal has come or `OFFER_TIMEOUT` is over; `opened` is what `File::open` returns.
unfoldable pub take_answer : Inner → Sender → Result (Unit {0}) Str → Bool × Inner
take_answer s x opened =
    let (sig, s1) = take_signal x.id s in
    elim sig [
      | some OutSignal.accepted ↦ elim opened [
        | ok _ ↦ (true, s1)
        | err e ↦ (false, give_up s1 x e)
      ]
      | some (OutSignal.rejected r) ↦ (false, give_up s1 x (declined r))
      | some OutSignal.cancel ↦ (false, give_up s1 x cancelled_reason)
      | none ↦ (false, give_up s1 x no_answer)
    ]

unfoldable pub is_cancelled : TransferId → Inner → Bool
is_cancelled id s = elim (lookup id s.outgoing) [ none ↦ false | some o ↦ o.cancelled ]

unfoldable pub interrupts : Option OutSignal → Bool
interrupts none = false
interrupts (some OutSignal.accepted) = false
interrupts (some (OutSignal.rejected r)) = true
interrupts (some OutSignal.cancel) = true

-- `offset` is a `u64`.
abbrev pub advance : ℕ → Sender → Sender
advance n x = record x { offset = (x.offset + n) % 2 ^ 64; chunk_no = x.chunk_no + 1 }

unfoldable pub report_progress : Sender → Inner → Inner
report_progress x s =
    if x.chunk_no % 64 == 0
    then emit s (EngineEvent.transfer_progress x.id x.offset x.size false)
    else s

unfoldable pub send_read : Params → Env → Inner → Sender → ReadIo → Round × Inner
send_read px env s x at_end = (all_read, s)
send_read px env s x (read_error e) = (
  stopped,
  give_up (send_to px env s x.to (Message.file_error (record { id = x.id; reason = e }))).1 x e,
)
send_read px env s x (bytes_read bytes) =
    let (r, s1) = send_to px env s x.to (Message.file_chunk x.id x.offset bytes) in
    elim r [
      | ok _ ↦ (next (advance (length bytes) x), report_progress (advance (length bytes) x) s1)
      | err e ↦ (stopped, give_up s1 x e)
    ]

unfoldable pub send_round : Params → Env → Inner → Sender → ReadIo → Round × Inner
send_round px env s x read =
    if is_cancelled x.id s
    then (stopped, give_up s x cancelled_reason)
    else let (sig, s1) = take_signal x.id s in
      if interrupts sig then (stopped, give_up s1 x interrupted) else send_read px env s1 x read

unfoldable pub end_send : Params → Env → Inner → Sender → Inner
end_send px env s x =
    if not (x.offset == x.size)
    then give_up
        (send_to px env s x.to (Message.file_error (record { id = x.id; reason = file_changed }))).1
        x file_changed
    else finish_outgoing
        (send_to px env s x.to (Message.file_done (record { id = x.id; sha256 = [] }))).1 x.id
        x.name (some x.path) none
