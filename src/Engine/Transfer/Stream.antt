-- ===== src/Engine/Transfer/Stream.antt =====
-- desktop/src/engine/transfer.rs: a file that arrives in pieces.
use antarloka.Prelude.{
  ℕ, ◌+◌, ◌^◌, ◌≤◌, ◌<◌, ◌≡◌, refl, true, List, [], ◌∷◌, ◌++◌, some, ok, err, Result, length,
  length-append, arith, append_assoc, append-nil, nat_eq, list_eq, list_beq_iff, ◌∙◌, ap, subst,
}
use antarloka.Prelude.Map.{lookup-insert}
use antarloka.Text.{Str, Bytes}
use antarloka.Fs.{FilePath, Disk, regular, join}
use antarloka.Proto.Message.{TransferId}
use antarloka.Security.Fingerprint.{DeviceId}
use antarloka.Engine.Transfer.{
  IncomingTransfer, Outcome, TransferError, Digests, AcceptIo, written, contents, write_chunk,
  is_complete, new_transfer, accept, part_name, flush_writer,
}
use antarloka.Engine.Transfer.Chunks.{Tracks, grown, write_chunk_next, flush_writer-stored}

unfoldable pub concat : List Bytes → Bytes
concat [] = []
concat (b ∷ bs) = b ++ concat bs

-- The pieces of a file in their order, each at the place where the file ends, until one is refused.
unfoldable pub receive_all : List Bytes → IncomingTransfer → Disk → Outcome
receive_all [] t disk = (ok tt, t, disk)
receive_all (b ∷ bs) t disk =
    let (r, t', disk') = write_chunk written t.received b t disk in
    let rest = receive_all bs t' disk' in elim r [ ok _ ↦ rest | err e ↦ (err e, t', disk') ]

abbrev pub Received : Bytes → IncomingTransfer → Outcome → Type 0
Received bytes t (r, t', disk') = (r ≡ ok tt) × (t' ≡ grown bytes t'.buffered t) × Tracks t' disk'

grown-nil : (t : IncomingTransfer) → t ≡ grown [] t.buffered t
grown-nil t = ground (arith, append-nil t.hasher)

grown-grown :
    (b c kept more : Bytes) (t : IncomingTransfer)
    → grown c more (grown b kept t) ≡ grown (b ++ c) more t
grown-grown b c kept more t = ground (arith, append_assoc t.hasher b c, length-append b c)

-- A piece that was taken, before those that follow.
receive_all-cons :
    (b : Bytes) (bs : List Bytes) (t : IncomingTransfer) (disk : Disk)
    → let (r, t1, disk1) = write_chunk written t.received b t disk in
      r ≡ ok tt → receive_all (b ∷ bs) t disk ≡ receive_all bs t1 disk1
unfolding receive_all
receive_all-cons b bs t disk h =
    let (_, t1, disk1) = write_chunk written t.received b t disk in
    ap
      (λ (r : Result (Unit {0}) TransferError). elim r as (λ x. Outcome) [
        | ok u ↦ receive_all bs t1 disk1
        | err e ↦ (err e, t1, disk1)
      ])
      h

-- All pieces of a file are taken if they fit the size that was offered and the disk does not fail,
-- and what is then in the quarantine file and the buffer, in the hasher and in the count is the whole
-- of them.
pub receive_all-Received :
    (bs : List Bytes) (t : IncomingTransfer) (disk : Disk)
    → Tracks t disk
    → t.accepted ≡ true
    → t.received + length (concat bs) ≤ t.size
    → t.size < 2 ^ 64
    → Received (concat bs) t (receive_all bs t disk)
unfolding receive_all concat
receive_all-Received [] t disk v a h k = (refl, grown-nil t, v)
receive_all-Received (b ∷ bs) t disk v a h k =
    let fits : t.received + length b ≤ t.size = omega (arith, length-append b (concat bs), h) in
    let (r, t1, disk1) = write_chunk written t.received b t disk in
    let (took, _, shape1, tracked1) = write_chunk_next b t disk v a fits k in
    let room : t1.received + length (concat bs) ≤ t1.size =
      ground (arith, shape1, length-append b (concat bs), h) in
    let (good, shape, tracked) =
      receive_all-Received bs t1 disk1 tracked1 (ground (arith, shape1, a)) room
        (ground (arith, shape1, k)) in
    let t2 = (receive_all bs t1 disk1).1 in
    rw (receive_all-cons b bs t disk took) (
      good,
      shape
          ∙ ap (λ x. grown (concat bs) t2.buffered x) shape1
          ∙ grown-grown b (concat bs) t1.buffered t2.buffered t,
      tracked,
    )

accept-Tracks :
    (dg : Digests) (os : AcceptIo) (dir : FilePath) (t : IncomingTransfer) (disk : Disk)
    → t.hasher ≡ []
    → t.received ≡ 0
    → t.buffered ≡ []
    → os.dir_made ≡ true
    → os.file_made ≡ true
    → Tracks (accept dg os dir t disk).1 (accept dg os dir t disk).2
unfolding accept contents
accept-Tracks dg os dir t disk h z b d f =
    let part = join dir (part_name dg t.id) in
    simp (d, f)
      (record {
        open_file = refl;
        on_disk = [];
        stored = ground (
          arith,
          lookup-insert part part (regular []) disk,
          list_beq_iff (list_eq {A = ℕ}) part part,
        );
        fed = ground arith;
        counted = ground arith;
        bounded = ground arith;
      })

-- A file below 2^64 bytes that was offered and accepted, all pieces of which came in their order
-- while the disk did not fail: the transfer is complete, the hasher was fed the bytes that were sent,
-- and the quarantine file holds them as soon as the writer is flushed.
pub receive_all-accepted :
    (dg : Digests) (os : AcceptIo) (dir : FilePath) (id : TransferId) (from : DeviceId)
    (key : Bytes) (name sha : Str) (now : ℕ) (bs : List Bytes) (disk : Disk)
    → os.dir_made ≡ true
    → os.file_made ≡ true
    → length (concat bs) < 2 ^ 64
    → let t = new_transfer id from key name (length (concat bs)) sha now in
      let (r, t1, disk1) = accept dg os dir t disk in
      let (r2, t2, disk2) = receive_all bs t1 disk1 in
      (r2 ≡ ok tt)
      × (is_complete t2 ≡ true)
      × (contents (join dir (part_name dg id)) (flush_writer written t2 disk2) ≡ some (concat bs))
      × (t2.hasher ≡ concat bs)
unfolding new_transfer is_complete accept
receive_all-accepted dg os dir id from key name sha now bs disk d f k =
    let t = new_transfer id from key name (length (concat bs)) sha now in
    let (r, t1, disk1) = accept dg os dir t disk in
    let (good, shape, tracked) =
      receive_all-Received bs t1 disk1 (accept-Tracks dg os dir t disk refl refl refl d f)
        (ground arith) (ground arith) (ground arith) in
    let (_, t2, disk2) = receive_all bs t1 disk1 in
    let whole : t2.hasher ≡ concat bs = ground (arith, shape) in
    let place : t2.part_path ≡ join dir (part_name dg id) = ground (arith, shape) in
    (
      good,
      ground (arith, shape),
      subst (λ p. contents p (flush_writer written t2 disk2) ≡ some (concat bs)) place
          (flush_writer-stored t2 disk2 tracked ∙ ap some whole),
      whole,
    )
