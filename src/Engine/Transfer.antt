-- ===== src/Engine/Transfer.antt =====
-- desktop/src/engine/transfer.rs: receiving a file into quarantine. SHA-256 and hex are parameters;
-- what the calls of the operating system return is an argument of each operation.
pub mod Hashing
pub mod Chunks
pub mod Finish
pub mod Stream
use antarloka.Prelude.{
  ℕ, zero, suc, ◌+◌, ◌^◌, ◌≤◌, ◌<◌, ◌≡◌, refl, Bool, true, false, not, ◌&&◌, List, [], ◌∷◌, ◌++◌,
  map, Option, none, some, ltb, leb, ◌==◌, nat_eq, list_eq, if◌then◌else◌, is_some, Result, ok, err,
  ◌>>=◌, ◌>>◌, ensure, length, take, drop,
}
use antarloka.Prelude.Map.{Map, lookup, insert, remove, contains}
use antarloka.Text.{Str, Bytes, codes, to_ascii_lowercase}
use antarloka.Fs.{FilePath, Entry, regular, directory, Disk, join, parent, exists}
use antarloka.Util.Sanitize.{sanitize_filename}
use antarloka.Util.Unique.{unique_path}
use antarloka.Proto.Message.{TransferId}
use antarloka.Security.Fingerprint.{DeviceId}

-- `Sha256::digest` and `hex::encode`.
pub record Digests : Type 0 where
  pub sha256 : Bytes → Bytes
  pub hex_encode : Bytes → Str

pub data TransferError : Type 0 where
  not_accepted : TransferError
  bad_offset : ℕ → ℕ → TransferError
  too_large : TransferError
  incomplete : ℕ → ℕ → TransferError
  hash_mismatch : TransferError
  io : TransferError

-- `file` is the path of the open handle, `buffered` what its `BufWriter` has not handed on yet, and
-- `hasher` the bytes that the hasher has been fed.
pub record IncomingTransfer : Type 0 where
  pub id : TransferId
  pub from : DeviceId
  pub from_key : Bytes
  pub name : Str
  pub size : ℕ
  pub expected_sha : Str
  pub received : ℕ
  pub accepted : Bool
  pub started : ℕ
  pub part_path : FilePath
  pub file : Option FilePath
  pub buffered : Bytes
  pub hasher : Bytes

unfoldable pub new_transfer : TransferId → DeviceId → Bytes → Str → ℕ → Str → ℕ → IncomingTransfer
new_transfer id from from_key raw_name size expected_sha now = record {
  id = id;
  from = from;
  from_key = from_key;
  name = sanitize_filename raw_name;
  size = size;
  expected_sha = map to_ascii_lowercase expected_sha;
  received = 0;
  accepted = false;
  started = now;
  part_path = [];
  file = none;
  buffered = [];
  hasher = [];
}

-- The bytes of a file; none of what is no regular file.
unfoldable pub contents : FilePath → Disk → Option Bytes
contents p disk = elim (lookup p disk) [
  | some (regular bytes) ↦ some bytes
  | some directory ↦ none
  | none ↦ none
]

-- A call that changes the transfer and the disk, and may fail.
abbrev pub Outcome : Type 0
Outcome = Result (Unit {0}) TransferError × IncomingTransfer × Disk

-- Whether `create_dir_all` and `File::create` succeed.
pub record AcceptIo : Type 0 where
  pub dir_made : Bool
  pub file_made : Bool

unfoldable pub part_name : Digests → TransferId → Str
part_name dg id = dg.hex_encode id ++ codes ".part"

-- A writer that is open already is not flushed here.
unfoldable pub accept : Digests → AcceptIo → FilePath → IncomingTransfer → Disk → Outcome
accept dg os incoming_dir t disk =
    if not os.dir_made
    then (err io, t, disk)
    else let part = join incoming_dir (part_name dg t.id) in
      if not os.file_made then (err io, record t { part_path = part }, disk) else (
        ok tt,
        record t { part_path = part; file = some part; buffered = []; accepted = true },
        insert part (regular []) disk,
      )

-- `write_all`: the whole of it, or an error after some bytes have reached the file.
pub data WriteIo : Type 0 where
  written : WriteIo
  failed_after : ℕ → WriteIo

unfoldable pub append_file : FilePath → Bytes → Disk → Disk
append_file p bytes disk = elim (contents p disk) [
  | some old ↦ insert p (regular (old ++ bytes)) disk
  | none ↦ disk
]

-- What has reached the file, and whether that is all.
abbrev pub reached : WriteIo → Bytes → Bytes
reached written bytes = bytes
reached (failed_after n) bytes = take n bytes

abbrev pub is_written : WriteIo → Bool
is_written written = true
is_written (failed_after n) = false

-- The capacity of the `BufWriter`.
abbrev pub capacity : ℕ
capacity = 262_144

-- `BufWriter::write_all`: what is handed on to the file, and what stays in the buffer.
unfoldable pub split_write : Bytes → Bytes → Bytes × Bytes
split_write buffered bytes =
    if ltb (length buffered + length bytes) capacity
    then ([], buffered ++ bytes)
    else if leb capacity (length bytes)
    then (buffered ++ bytes, [])
    else if ltb capacity (length buffered + length bytes)
    then (buffered, bytes)
    else ([], buffered ++ bytes)

-- A write to the file happens, and may fail, only if something is handed on.
hand_on : WriteIo → Bytes → Bytes → Bytes → ℕ → FilePath → IncomingTransfer → Disk → Outcome
hand_on os [] kept bytes end p t disk =
    (ok tt, record t { received = end; hasher = t.hasher ++ bytes; buffered = kept }, disk)
hand_on written (b ∷ out) kept bytes end p t disk = (
  ok tt,
  record t { received = end; hasher = t.hasher ++ bytes; buffered = kept },
  append_file p (b ∷ out) disk,
)
hand_on (failed_after n) (b ∷ out) kept bytes end p t disk =
    (err io, record t { buffered = drop n t.buffered }, append_file p (take n (b ∷ out)) disk)

write_to : WriteIo → Bytes → ℕ → FilePath → IncomingTransfer → Disk → Outcome
unfolding hand_on
write_to os bytes end p t disk =
    let (out, kept) = split_write t.buffered bytes in hand_on os out kept bytes end p t disk

unfoldable pub write_chunk : WriteIo → ℕ → Bytes → IncomingTransfer → Disk → Outcome
unfolding write_to
write_chunk os offset bytes t disk =
    if not t.accepted
    then (err not_accepted, t, disk)
    else if not (offset == t.received)
    then (err (bad_offset t.received offset), t, disk)
    else if leb (2 ^ 64) (t.received + length bytes)
    then (err too_large, t, disk)
    else if ltb t.size (t.received + length bytes)
    then (err too_large, t, disk)
    else elim t.file [
      | none ↦ (err not_accepted, t, disk)
      | some p ↦ write_to os bytes (t.received + length bytes) p t disk
    ]

unfoldable pub is_complete : IncomingTransfer → Bool
is_complete t = t.received == t.size

-- What the calls in `finish` return; `copied` is how much was copied before an error, if any, and
-- `flushed` how much of the buffer reached the file, what is tried again when the writer is dropped
-- included.
pub record FinishIo : Type 0 where
  pub flushed : WriteIo
  pub synced : Bool
  pub dir_made : Bool
  pub renamed : Bool
  pub copied : WriteIo
  pub removed : Bool

-- `let _ = remove_file(p)`, which may fail.
unfoldable pub remove_file : Bool → FilePath → Disk → Disk
remove_file removed p disk = if removed then remove p disk else disk

copy_file :
    WriteIo → Bool → FilePath → FilePath → Bytes → Disk → Result FilePath TransferError × Disk
copy_file written removed part dest bytes disk =
    (ok dest, remove_file removed part (insert dest (regular bytes) disk))
copy_file (failed_after n) removed part dest bytes disk =
    (err io, insert dest (regular (take n bytes)) disk)

unfoldable pub publish :
    FinishIo → FilePath → FilePath → Disk → Result FilePath TransferError × Disk
unfolding copy_file
publish os part dest disk = elim (contents part disk) [
  | none ↦ (err io, disk)
  | some bytes ↦
      if os.renamed
      then (ok dest, insert dest (regular bytes) (remove part disk))
      else copy_file os.copied os.removed part dest bytes disk
]

-- The flush of the writer, in `finish_inner` or when it is dropped.
unfoldable pub flush_writer : WriteIo → IncomingTransfer → Disk → Disk
flush_writer os t disk = elim t.file [
  | none ↦ disk
  | some p ↦ append_file p (reached os t.buffered) disk
]

unfoldable pub finish_inner :
    Digests
    → FinishIo
    → ℕ
    → FilePath
    → IncomingTransfer
    → Disk
    → Result FilePath TransferError × Disk
finish_inner dg os pid download_dir t disk0 =
    let disk = flush_writer os.flushed t disk0 in
    if is_some t.file && not (is_written os.flushed && os.synced)
    then (err io, disk)
    else if not (t.received == t.size)
    then (err (incomplete t.received t.size), disk)
    else if not (dg.hex_encode (dg.sha256 t.hasher) == t.expected_sha)
    then (err hash_mismatch, disk)
    else if not os.dir_made
    then (err io, disk)
    else let dest = unique_path download_dir t.name disk pid in
      elim (parent dest) [
        | none ↦ (err io, disk)
        | some dir ↦
            if dir == download_dir then publish os t.part_path dest disk else (err io, disk)
      ]

-- After an error the quarantine file is removed.
clean_up :
    Bool → FilePath → Result FilePath TransferError × Disk → Result FilePath TransferError × Disk
clean_up removed part (ok p, disk) = (ok p, disk)
clean_up removed part (err e, disk) = (err e, remove_file removed part disk)

unfoldable pub finish :
    Digests
    → FinishIo
    → ℕ
    → FilePath
    → IncomingTransfer
    → Disk
    → Result FilePath TransferError × Disk
unfolding clean_up
finish dg os pid download_dir t disk =
    clean_up os.removed t.part_path (finish_inner dg os pid download_dir t disk)

-- Dropping the writer flushes it, as far as the disk lets it.
unfoldable pub abort : WriteIo → Bool → IncomingTransfer → Disk → Disk
abort dropped removed t disk0 =
    let disk = flush_writer dropped t disk0 in
    if t.part_path == [] then disk else remove_file removed t.part_path disk
