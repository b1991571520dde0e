-- ===== src/Security/PrivateFile.antt =====
-- `write_private_file` of desktop/src/security/keystore.rs: a file is replaced whole or not at all.
-- The permissions of the new file are left out.
use antarloka.Prelude.{
  ℕ, ◌≡◌, ◌≢◌, Bool, true, false, not, ◌&&◌, [], ◌∷◌, ◌++◌, Option, none, some, ◌==◌, nat_eq,
  list_eq, if◌then◌else◌, take, arith, inl, inr, Option-cases, list_beq_iff,
}
use antarloka.Prelude.Map.{lookup, insert, remove, lookup-insert, lookup-remove}
use antarloka.Text.{Str, Bytes, codes}
use antarloka.Fs.{FilePath, Disk, regular}
use antarloka.Util.Unique.{split_stem}

-- `Path::with_extension`, on the last component of a path that is not `..`.
unfoldable pub with_extension : Str → FilePath → FilePath
with_extension ext [] = []
with_extension ext (name ∷ []) =
    if name == codes ".." then name ∷ [] else ((split_stem name).0 ++ (b'.' ∷ ext)) ∷ []
with_extension ext (dir ∷ name ∷ path) = dir ∷ with_extension ext (name ∷ path)

-- Which of the steps succeed, and how much of the data a failing write leaves.
pub record WriteSteps : Type 0 where
  pub dirs_made : Bool
  pub opened : Bool
  pub failed_write : Option ℕ
  pub synced : Bool
  pub renamed : Bool

-- Whether the write succeeded, and the disk after it.
unfoldable pub write_private_file : WriteSteps → FilePath → Bytes → Disk → Bool × Disk
write_private_file os path bytes disk =
    let tmp = with_extension (codes "tmp") path in
    if not (os.dirs_made && os.opened) then (false, disk) else elim os.failed_write [
      | some n ↦ (false, insert tmp (regular (take n bytes)) disk)
      | none ↦
          if not (os.synced && os.renamed)
          then (false, insert tmp (regular bytes) disk)
          else (true, insert path (regular bytes) (remove tmp disk))
    ]

-- Whichever step fails, the file that was there is still there, when its name does not end in
-- `.tmp`; when none does, it holds the new bytes.
pub lookup-write_private_file :
    (os : WriteSteps) (path : FilePath) (bytes : Bytes) (disk : Disk)
    → with_extension (codes "tmp") path ≢ path
    → lookup path (write_private_file os path bytes disk).1 ≡ (
        if (write_private_file os path bytes disk).0
        then some (regular bytes)
        else lookup path disk)
unfolding write_private_file
lookup-write_private_file os path bytes disk other =
    let tmp : FilePath = with_extension (codes "tmp") path in
    let apart = list_beq_iff list_eq tmp path in
    let here = list_beq_iff list_eq path path in
    let whole = lookup-insert tmp path (regular bytes) disk in
    let moved = lookup-insert path path (regular bytes) (remove tmp disk) in
    elim (Option-cases os.failed_write) [
      | inl e ↦ ground (arith, e, other, apart, here, whole, moved)
      | inr (n, e) ↦
          ground (arith, e, other, apart, lookup-insert tmp path (regular (take n bytes)) disk)
    ]

pub lookup-write_private_file_whole :
    (os : WriteSteps) (path : FilePath) (bytes : Bytes) (disk : Disk)
    → (write_private_file os path bytes disk).0 ≡ true
    → lookup path (write_private_file os path bytes disk).1 ≡ some (regular bytes)
unfolding write_private_file
lookup-write_private_file_whole os path bytes disk whole = ground (
  arith,
  list_beq_iff list_eq path path,
  lookup-insert path path (regular bytes) (remove (with_extension (codes "tmp") path) disk),
)

-- Of the other files, only the temporary one is touched.
pub lookup-write_private_file_apart :
    (os : WriteSteps) (path other : FilePath) (bytes : Bytes) (disk : Disk)
    → path ≢ other
    → with_extension (codes "tmp") path ≢ other
    → lookup other (write_private_file os path bytes disk).1 ≡ lookup other disk
unfolding write_private_file
lookup-write_private_file_apart os path other bytes disk apart apart_tmp =
    let tmp : FilePath = with_extension (codes "tmp") path in
    let elsewhere = list_beq_iff list_eq tmp other in
    elim (Option-cases os.failed_write) [
      | inl e ↦ ground (
        arith,
        e,
        apart,
        apart_tmp,
        elsewhere,
        list_beq_iff list_eq path other,
        lookup-insert tmp other (regular bytes) disk,
        lookup-insert path other (regular bytes) (remove tmp disk),
        lookup-remove tmp other disk,
      )
      | inr (n, e) ↦
          ground
            (arith, e, apart_tmp, elsewhere, lookup-insert tmp other (regular (take n bytes)) disk)
    ]
