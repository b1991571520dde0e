-- ===== src/Engine/Transfer/Chunks.antt =====
-- What a stream of chunks leaves in the quarantine file.
use antarloka.Prelude.{
  ℕ, ◌+◌, ◌^◌, ◌≤◌, ◌<◌, ◌≡◌, ◌≢◌, ◌⊎◌, ltb_false→le, subst, refl, true, ◌++◌, some, ltb, leb, ◌==◌,
  nat_eq, list_eq, list_beq_iff, ok, err, length, length-append, arith, append_assoc, append-nil,
  ap, sym, ◌∙◌, [], ◌∷◌, Option-cases, Bool-cases, inl, inr,
}
use antarloka.Prelude.Map.{insert, lookup-insert}
use antarloka.Text.{Bytes}
use antarloka.Fs.{FilePath, regular, Disk}
use antarloka.Engine.Transfer.{
  IncomingTransfer, TransferError, io, Outcome, WriteIo, written, failed_after, contents,
  append_file, write_chunk, write_to, hand_on, split_write, flush_writer,
}

-- An accepted transfer: the quarantine file and the buffer hold what the hasher was fed, and the
-- count agrees.
pub record Tracks (t : IncomingTransfer) (disk : Disk) : Type 0 where
  pub open_file : t.file ≡ some t.part_path
  pub on_disk : Bytes
  pub stored : contents t.part_path disk ≡ some on_disk
  pub fed : on_disk ++ t.buffered ≡ t.hasher
  pub counted : length t.hasher ≡ t.received
  pub bounded : t.received ≤ t.size

contents-insert :
    (p : FilePath) (bytes : Bytes) (disk : Disk)
    → contents p (insert p (regular bytes) disk) ≡ some bytes
unfolding contents
contents-insert p bytes disk =
    ground (arith, lookup-insert p p (regular bytes) disk, list_beq_iff (list_eq {A = ℕ}) p p)

-- The transfer after more bytes, of which it keeps some in the buffer.
abbrev pub grown : Bytes → Bytes → IncomingTransfer → IncomingTransfer
grown bytes kept t = record t {
  received = t.received + length bytes;
  hasher = t.hasher ++ bytes;
  buffered = kept;
}

-- Once the writer is flushed, the quarantine file holds all that the hasher was fed.
pub flush_writer-stored :
    (t : IncomingTransfer) (disk : Disk)
    → Tracks t disk
    → contents t.part_path (flush_writer written t disk) ≡ some t.hasher
unfolding flush_writer append_file
flush_writer-stored t disk v = ground (
  arith,
  v.open_file,
  v.stored,
  v.fed,
  contents-insert t.part_path (v.on_disk ++ t.buffered) disk,
)

-- What a chunk does: it is taken, or refused with nothing changed, or the disk fails in the middle.
abbrev pub Taken : ℕ → Bytes → IncomingTransfer → Disk → Outcome → Type 0
Taken offset bytes t disk (r, t', disk') =
    (r ≡ ok tt) × (offset ≡ t.received) × (t' ≡ grown bytes t'.buffered t) × Tracks t' disk'

abbrev pub Refused : IncomingTransfer → Disk → Outcome → Type 0
Refused t disk (r, t', disk') =
    (r ≢ ok tt)
    × (t' ≡ record t { buffered = t'.buffered })
    × ((t' ≡ t) × (disk' ≡ disk) ⊎ (r ≡ err io))

split_write-append :
    (buffered bytes : Bytes)
    → (split_write buffered bytes).0 ++ (split_write buffered bytes).1 ≡ buffered ++ bytes
unfolding split_write
split_write-append buffered bytes = ground (arith, append-nil (buffered ++ bytes))

module _ (t : IncomingTransfer) (disk : Disk) (v : Tracks t disk) where
  -- The bytes move on: some from the buffer to the file, the rest into the buffer.
  append_file-Tracks :
      (out kept bytes : Bytes)
      → out ++ kept ≡ t.buffered ++ bytes
      → t.received + length bytes ≤ t.size
      → Tracks (grown bytes kept t) (append_file t.part_path out disk)
  unfolding append_file
  append_file-Tracks out kept bytes moved fits = record {
    open_file = v.open_file;
    on_disk = v.on_disk ++ out;
    stored = ground (arith, contents-insert t.part_path (v.on_disk ++ out) disk, v.stored);
    fed =
        append_assoc v.on_disk out kept
        ∙ ap (λ x. v.on_disk ++ x) moved
        ∙ sym (append_assoc v.on_disk t.buffered bytes)
        ∙ ap (λ x. x ++ bytes) v.fed;
    counted = omega (arith, length-append t.hasher bytes, v.counted);
    bounded = fits;
  }

  buffered-Tracks :
      (kept bytes : Bytes)
      → kept ≡ t.buffered ++ bytes
      → t.received + length bytes ≤ t.size
      → Tracks (grown bytes kept t) disk
  buffered-Tracks kept bytes moved fits = record {
    open_file = v.open_file;
    on_disk = v.on_disk;
    stored = v.stored;
    fed =
        ap (λ x. v.on_disk ++ x) moved
        ∙ sym (append_assoc v.on_disk t.buffered bytes)
        ∙ ap (λ x. x ++ bytes) v.fed;
    counted = omega (arith, length-append t.hasher bytes, v.counted);
    bounded = fits;
  }

  hand_on-cases :
      (os : WriteIo) (out kept : Bytes) (offset : ℕ) (bytes : Bytes)
      → out ++ kept ≡ t.buffered ++ bytes
      → offset ≡ t.received
      → t.received + length bytes ≤ t.size
      → let o = hand_on os out kept bytes (t.received + length bytes) t.part_path t disk in
        Taken offset bytes t disk o ⊎ ((os ≢ written) × Refused t disk o)
  unfolding hand_on
  hand_on-cases os [] kept offset bytes moved e h =
      inl (refl, e, refl, buffered-Tracks kept bytes moved h)
  hand_on-cases written (b ∷ out) kept offset bytes moved e h =
      inl (refl, e, refl, append_file-Tracks (b ∷ out) kept bytes moved h)
  hand_on-cases (failed_after n) (b ∷ out) kept offset bytes moved e h =
      inr (λ q. cc, (λ q. cc, refl, inr refl))

  write_to-cases :
      (os : WriteIo) (offset : ℕ) (bytes : Bytes)
      → offset ≡ t.received
      → t.received + length bytes ≤ t.size
      → let o = write_to os bytes (t.received + length bytes) t.part_path t disk in
        Taken offset bytes t disk o ⊎ ((os ≢ written) × Refused t disk o)
  unfolding write_to
  write_to-cases os offset bytes e h =
      let (out, kept) = split_write t.buffered bytes in
      hand_on-cases os out kept offset bytes (split_write-append t.buffered bytes) e h

-- The guards of `write_chunk`, one by one.
module _ (P : Outcome → Type 0) (os : WriteIo) (offset : ℕ) (bytes : Bytes) (t : IncomingTransfer)
    (disk : Disk) where
  write_chunk-guards :
      ((e : TransferError) → P (err e, t, disk))
      → (offset ≡ t.received
          → t.received + length bytes ≤ t.size
          → (p : FilePath) → t.file ≡ some p
          → P (write_to os bytes (t.received + length bytes) p t disk))
      → P (write_chunk os offset bytes t disk)
  unfolding write_chunk
  write_chunk-guards refused go = elim (Bool-cases t.accepted) [
    | inr closed ↦ simp closed (refused _)
    | inl opened ↦ simp opened (elim (Bool-cases (offset == t.received)) [
      | inr gap ↦ simp gap (refused _)
      | inl next ↦ simp next (elim (Bool-cases (leb (2 ^ 64) (t.received + length bytes))) [
        | inl overflow ↦ simp overflow (refused _)
        | inr word ↦ simp word (elim (Bool-cases (ltb t.size (t.received + length bytes))) [
          | inl big ↦ simp big (refused _)
          | inr fits ↦ simp fits (elim (Option-cases t.file) [
            | inl shut ↦ simp shut (refused _)
            | inr (p, handle) ↦ simp handle (go (ground arith) (ltb_false→le _ _ fits) p handle)
          ])
        ])
      ])
    ])
  ]

-- On an accepted transfer every chunk is taken whole, at the place where the file ends and within
-- the size that was offered, or refused: then nothing changed, unless the disk failed, which changes
-- only the buffer and the disk.
pub write_chunk-cases :
    (os : WriteIo) (offset : ℕ) (bytes : Bytes) (t : IncomingTransfer) (disk : Disk)
    → Tracks t disk
    → Taken offset bytes t disk (write_chunk os offset bytes t disk)
      ⊎ Refused t disk (write_chunk os offset bytes t disk)
write_chunk-cases os offset bytes t disk v =
    write_chunk-guards (λ o. Taken offset bytes t disk o ⊎ Refused t disk o) os offset bytes t disk
      (λ e. inr (λ q. cc, refl, inl (refl, refl)))
      λ next fits p handle.
        subst
          (λ q.
            Taken offset bytes t disk (write_to os bytes (t.received + length bytes) q t disk)
            ⊎ Refused t disk (write_to os bytes (t.received + length bytes) q t disk))
          (ground (arith, v.open_file))
          (elim (write_to-cases t disk v os offset bytes next fits) [
            | inl taken ↦ inl taken
            | inr (_, refused) ↦ inr refused
          ])

-- The next chunk is taken if it fits and the disk does not fail.
pub write_chunk_next :
    (bytes : Bytes) (t : IncomingTransfer) (disk : Disk)
    → Tracks t disk
    → t.accepted ≡ true
    → t.received + length bytes ≤ t.size
    → t.size < 2 ^ 64
    → Taken t.received bytes t disk (write_chunk written t.received bytes t disk)
write_chunk_next bytes t disk v a h k =
    let same : write_chunk written t.received bytes t disk
        ≡ write_to written bytes (t.received + length bytes) t.part_path t disk =
      unfold write_chunk in ground (arith, v.open_file) in
    rw same (elim (write_to-cases t disk v written t.received bytes refl h) [
      | inl taken ↦ taken
      | inr (never, _) ↦ absurd (never refl)
    ])
