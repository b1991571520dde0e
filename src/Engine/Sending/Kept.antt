-- ===== src/Engine/Sending/Kept.antt =====
-- desktop/src/engine/mod.rs: what the sender leaves alone.
use antarloka.Prelude.{ℕ, Option, none, some, Result, arith, list_eq, nat_eq}
use antarloka.Text.{Str}
use antarloka.Fs.{FilePath}
use antarloka.Proto.Message.{TransferId}
use antarloka.Security.Fingerprint.{DeviceId}
use antarloka.Engine.State.{Inner, Params, Env, emit, send, send_to}
use antarloka.Engine.Sending.{
  Sender, ReadIo, at_end, bytes_read, read_error, finish_outgoing, give_up, offer_file, take_signal,
  take_answer, report_progress, send_read, send_round, end_send,
}
use antarloka.Engine.Kept.{SameTables}

pub take_answer-SameTables :
    (s : Inner) (x : Sender) (opened : Result (Unit {0}) Str)
    → SameTables s (take_answer s x opened).1
unfolding take_answer take_signal give_up finish_outgoing emit
take_answer-SameTables s x opened = ground arith

take_signal-SameTables : (s : Inner) (id : TransferId) → SameTables s (take_signal id s).1
unfolding take_signal
take_signal-SameTables s id = ground arith

module _ (px : Params) (env : Env) where
  pub offer_file-SameTables :
      (s : Inner) (to : DeviceId) (id : TransferId) (name : Str) (path : FilePath)
      (hashed : Option (Str × ℕ))
      → SameTables s (offer_file px env s to id name path hashed).1
  unfolding offer_file send_to send give_up finish_outgoing emit
  offer_file-SameTables s to id name path none = ground arith
  offer_file-SameTables s to id name path (some (sha, size)) = ground arith

  send_read-SameTables :
      (s : Inner) (x : Sender) (read : ReadIo) → SameTables s (send_read px env s x read).1
  unfolding send_read send_to send give_up finish_outgoing report_progress emit
  send_read-SameTables s x at_end = ground arith
  send_read-SameTables s x (bytes_read b) = ground arith
  send_read-SameTables s x (read_error e) = ground arith

  pub send_round-SameTables :
      (s : Inner) (x : Sender) (read : ReadIo) → SameTables s (send_round px env s x read).1
  unfolding send_round give_up finish_outgoing emit
  send_round-SameTables s x read =
      ground
        (arith, take_signal-SameTables s x.id, send_read-SameTables (take_signal x.id s).1 x read)

  pub end_send-SameTables : (s : Inner) (x : Sender) → SameTables s (end_send px env s x)
  unfolding end_send send_to send give_up finish_outgoing emit
  end_send-SameTables s x = ground arith
