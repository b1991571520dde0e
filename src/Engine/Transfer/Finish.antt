-- ===== src/Engine/Transfer/Finish.antt =====
-- What `finish` publishes, and what it leaves behind when it fails.
use antarloka.Prelude.{
  ℕ, ◌≡◌, ◌≢◌, ◌↔◌, refl, Bool, true, false, not, ◌&&◌, ◌++◌, Option, some, ◌==◌, nat_eq, list_eq,
  list_beq_iff, is_some, Result, ok, err, length, arith, Option-cases, Bool-cases, inl, inr, subst,
  sym, ◌∙◌, ap,
}
use antarloka.Prelude.Map.{lookup, insert, remove, lookup-insert, lookup-remove}
use antarloka.Text.{Bytes}
use antarloka.Fs.{FilePath, regular, Disk, parent, exists}
use antarloka.Util.Unique.{unique_path, unique_path_same}
use antarloka.Engine.Transfer.{
  IncomingTransfer, TransferError, WriteIo, written, failed_after, FinishIo, Digests, contents,
  finish, finish_inner, publish, copy_file, clean_up, remove_file, flush_writer, append_file,
  reached, is_written,
}
use antarloka.Engine.Transfer.Chunks.{Tracks, flush_writer-stored}

contents-lookup :
    (p : FilePath) (d e : Disk) → lookup p d ≡ lookup p e → contents p d ≡ contents p e
unfolding contents
contents-lookup p d e h = rw (h, contents)

path_beq_iff : (p q : FilePath) → ((p == q) ≡ true) ↔ (p ≡ q)
path_beq_iff p q = list_beq_iff (list_eq {A = ℕ}) p q

-- `dest` holds the bytes, and nothing changed but `dest` and `part`.
pub record Published (part dest : FilePath) (bytes : Bytes) (disk disk' : Disk) : Type 0 where
  pub stored : contents dest disk' ≡ some bytes
  pub others : (q : FilePath) → q ≢ dest → q ≢ part → lookup q disk' ≡ lookup q disk

abbrev PublishedBy :
    FilePath → FilePath → Bytes → Disk → Result FilePath TransferError × Disk → Type 0
PublishedBy part dest bytes disk (ok p, disk') = (p ≡ dest) × Published part dest bytes disk disk'
PublishedBy part dest bytes disk (err e, disk') = Unit {0}

module _ (part dest : FilePath) (bytes : Bytes) (disk : Disk) (apart : part ≢ dest) where
  renamed-Published :
      Published part dest bytes disk (insert dest (regular bytes) (remove part disk))
  unfolding contents
  renamed-Published = record {
    stored =
        ground (
          arith,
          lookup-insert dest dest (regular bytes) (remove part disk),
          path_beq_iff dest dest,
        );
    others = λ q a b. ground (
      arith,
      lookup-insert dest q (regular bytes) (remove part disk),
      lookup-remove part q disk,
      path_beq_iff dest q,
      path_beq_iff part q,
    );
  }

  copied-Published :
      (removed : Bool)
      → Published part dest bytes disk (remove_file removed part (insert dest (regular bytes) disk))
  unfolding contents remove_file
  copied-Published removed = record {
    stored = ground (
      arith,
      lookup-insert dest dest (regular bytes) disk,
      lookup-remove part dest (insert dest (regular bytes) disk),
      path_beq_iff dest dest,
      path_beq_iff part dest,
    );
    others = λ q a b. ground (
      arith,
      lookup-insert dest q (regular bytes) disk,
      lookup-remove part q (insert dest (regular bytes) disk),
      path_beq_iff dest q,
      path_beq_iff part q,
    );
  }

  publish-PublishedBy :
      (os : FinishIo)
      → contents part disk ≡ some bytes
      → PublishedBy part dest bytes disk (publish os part dest disk)
  unfolding publish
  publish-PublishedBy os e =
      rw (e, publish)
        (elim (Bool-cases os.renamed) [
          | inl moved ↦ rw moved (refl, renamed-Published)
          | inr blocked ↦ rw blocked (copy os.copied)
        ])
    where
      copy :
          (c : WriteIo)
          → PublishedBy part dest bytes disk (copy_file c os.removed part dest bytes disk)
      copy written = (refl, copied-Published os.removed)
      copy (failed_after n) = tt

-- What a successful `finish` has checked and done.
pub record Finished (dg : Digests) (pid : ℕ) (dir : FilePath) (t : IncomingTransfer) (disk : Disk)
    (p : FilePath) (disk' : Disk) : Type 0 where
  pub complete : length t.hasher ≡ t.size
  pub verified : dg.hex_encode (dg.sha256 t.hasher) ≡ t.expected_sha
  pub chosen : p ≡ unique_path dir t.name disk pid
  pub inside : parent p ≡ some dir
  pub published : Published t.part_path p t.hasher disk disk'

-- The flush changes no file but the quarantine file.
module _ (os : WriteIo) (t : IncomingTransfer) (disk : Disk) (v : Tracks t disk) where
  flush_writer-others :
      (q : FilePath) → q ≢ t.part_path → lookup q (flush_writer os t disk) ≡ lookup q disk
  unfolding flush_writer append_file
  flush_writer-others q n = ground (
    arith,
    v.open_file,
    v.stored,
    lookup-insert t.part_path q (regular (v.on_disk ++ reached os t.buffered)) disk,
    path_beq_iff t.part_path q,
  )

  flush_writer-exists : (q : FilePath) → exists q (flush_writer os t disk) ≡ exists q disk
  unfolding flush_writer append_file contents
  flush_writer-exists q = ground (
    arith,
    v.open_file,
    v.stored,
    lookup-insert t.part_path q (regular (v.on_disk ++ reached os t.buffered)) disk,
    path_beq_iff t.part_path q,
  )

-- The checks of `finish_inner`, one by one.
module _ (P : Result FilePath TransferError × Disk → Type 0) (dg : Digests) (os : FinishIo)
    (pid : ℕ) (dir : FilePath) (t : IncomingTransfer) (disk0 : Disk) where
  finish_inner-guards :
      let disk = flush_writer os.flushed t disk0 in
      ((e : TransferError) → P (err e, disk))
      → ((is_some t.file && not (is_written os.flushed && os.synced)) ≡ false
          → t.received ≡ t.size
          → dg.hex_encode (dg.sha256 t.hasher) ≡ t.expected_sha
          → parent (unique_path dir t.name disk pid) ≡ some dir
          → P (publish os t.part_path (unique_path dir t.name disk pid) disk))
      → P (finish_inner dg os pid dir t disk0)
  unfolding finish_inner
  finish_inner-guards failed go =
      let disk = flush_writer os.flushed t disk0 in
      let dest : FilePath = unique_path dir t.name disk pid in
      elim (Bool-cases (is_some t.file && not (is_written os.flushed && os.synced))) [
        | inl unsynced ↦ simp unsynced (failed _)
        | inr synced ↦ simp synced (elim (Bool-cases (t.received == t.size)) [
          | inr short ↦ simp short (failed _)
          | inl whole ↦
              simp whole (elim (Bool-cases (dg.hex_encode (dg.sha256 t.hasher) == t.expected_sha)) [
                | inr wrong ↦ simp wrong (failed _)
                | inl right ↦ simp right (elim (Bool-cases os.dir_made) [
                  | inr no_dir ↦ simp no_dir (failed _)
                  | inl made ↦ simp made (elim (Option-cases (parent dest)) [
                    | inl root ↦ simp root (failed _)
                    | inr (up, e) ↦ simp e (elim (Bool-cases (up == dir)) [
                      | inr outside ↦ simp outside (failed _)
                      | inl child ↦ simp child (
                          go synced (ground arith) ((list_beq_iff nat_eq _ _).0 right)
                            (e ∙ ap {B = Option FilePath} some ((path_beq_iff up dir).0 child)))
                    ])
                  ])
                ])
              ])
        ])
      ]

clean_up-ok :
    (removed : Bool) (part dest : FilePath) (bytes : Bytes) (disk : Disk)
    (o : Result FilePath TransferError × Disk) (p : FilePath) (disk' : Disk)
    → PublishedBy part dest bytes disk o
    → clean_up removed part o ≡ (ok p, disk')
    → (p ≡ dest) × Published part dest bytes disk disk'
unfolding clean_up
clean_up-ok removed part dest bytes disk (ok q, d) p disk' (e, done) h =
    let same : d ≡ disk' = ground arith in
    (ground arith, subst (λ x. Published part dest bytes disk x) same done)
clean_up-ok removed part dest bytes disk (err e, d) p disk' done h = cc

flushed_whole : (w : WriteIo) (synced : Bool) → (is_written w && synced) ≡ true → w ≡ written
flushed_whole written synced h = refl
flushed_whole (failed_after n) synced h = ground (arith, h)

-- Of a transfer whose file and buffer hold what was counted and hashed, and whose quarantine file lies
-- outside the download directory, a file is published only if it is complete and its SHA-256 is the
-- one that was offered; then it lies directly in the download directory with exactly the bytes
-- received, under the path that `unique_path` chose, and no other file but the quarantine file is
-- touched.
pub finish-Finished :
    (dg : Digests) (os : FinishIo) (pid : ℕ) (dir : FilePath) (t : IncomingTransfer) (disk : Disk)
    (p : FilePath) (disk' : Disk)
    → Tracks t disk
    → parent t.part_path ≢ some dir
    → finish dg os pid dir t disk ≡ (ok p, disk')
    → Finished dg pid dir t disk p disk'
unfolding finish
finish-Finished dg os pid dir t disk p disk' v apart =
    finish_inner-guards
      (λ o. clean_up os.removed t.part_path o ≡ (ok p, disk') → Finished dg pid dir t disk p disk')
      dg os pid dir t disk (unfold clean_up in λ e h. cc)
      λ synced whole right child h.
        let disk1 = flush_writer os.flushed t disk in
        let dest : FilePath = unique_path dir t.name disk1 pid in
        let flushed : os.flushed ≡ written =
          flushed_whole os.flushed os.synced (ground (arith, synced, v.open_file)) in
        let stored : contents t.part_path disk1 ≡ some t.hasher =
          ap (λ w. contents t.part_path (flush_writer w t disk)) flushed
          ∙ flush_writer-stored t disk v in
        let (e, done) =
          clean_up-ok os.removed t.part_path dest t.hasher disk1 (publish os t.part_path dest disk1)
            p disk'
            (publish-PublishedBy t.part_path dest t.hasher disk1
              (λ same. apart (ap parent same ∙ child)) os stored)
            h in
        record {
          complete = v.counted ∙ whole;
          verified = right;
          chosen =
              e
              ∙ unique_path_same dir disk1 disk (flush_writer-exists os.flushed t disk v) t.name
                  pid;
          inside = ap parent e ∙ child;
          published = record {
            stored = subst (λ q. contents q disk' ≡ some t.hasher) (sym e) done.stored;
            others = λ q a b.
                done.others q (λ same. a (same ∙ sym e)) b
                ∙ flush_writer-others os.flushed t disk v q b;
          };
        }

-- A `finish` that fails leaves no quarantine file, if the system lets it be removed.
pub finish_failed :
    (dg : Digests) (os : FinishIo) (pid : ℕ) (dir : FilePath) (t : IncomingTransfer) (disk : Disk)
    (e : TransferError) (disk' : Disk)
    → os.removed ≡ true
    → finish dg os pid dir t disk ≡ (err e, disk')
    → exists t.part_path disk' ≡ false
unfolding finish clean_up remove_file
finish_failed dg os pid dir t disk e disk' able h = failed (finish_inner dg os pid dir t disk) h
  where
    failed :
        (o : Result FilePath TransferError × Disk)
        → clean_up os.removed t.part_path o ≡ (err e, disk')
        → exists t.part_path disk' ≡ false
    failed (ok p, d) q = cc
    failed (err x, d) q =
        ground
          (arith, lookup-remove t.part_path t.part_path d, path_beq_iff t.part_path t.part_path)
