-- ===== src/Tests/UtilRuns.antt =====
-- Runs of desktop/src/util.rs.
use antarloka.Prelude.{
  ◌≢◌, ◌++◌, ℕ, ◌≤◌, ◌<◌, ◌≡◌, ◌⊎◌, refl, true, false, nat_eq, list_eq, [], ◌∷◌, all, some,
}
use antarloka.Text.{Str, codes}
use antarloka.Fs.{Disk, join, parent, regular, exists}
use antarloka.Fs.Laws.{IsName}
use antarloka.Util.Clamp.{is_one_line}
use antarloka.Util.Sanitize.{sanitize_filename}
use antarloka.Util.Sanitize.Safe.{parent-join-sanitize_filename}
use antarloka.Util.Unique.{unique_path, unique_path_lem, Taken}
use antarloka.Tests.Samples.{downloads}

abbrev hostile : Str
hostile = codes "../../etc/passwd"

parent-join-sanitize_filename_example :
    IsName (sanitize_filename hostile)
    × (sanitize_filename hostile ≢ codes "..")
    × (join downloads (sanitize_filename hostile) ≡ downloads ++ sanitize_filename hostile ∷ [])
    × (parent (join downloads (sanitize_filename hostile)) ≡ some downloads)
parent-join-sanitize_filename_example = parent-join-sanitize_filename downloads hostile

word-is_one_line : all is_one_line (codes "hello") ≡ true
unfolding all
word-is_one_line = refl

abbrev photo : Str
photo = codes "photo.jpg"

photo-IsName : IsName photo
unfolding all
photo-IsName = (λ e. cc, λ e. cc, refl)

-- The name is in use already.
abbrev full_disk : Disk
full_disk = (join downloads photo, regular []) ∷ []

unique_path_lem_example :
    (parent (unique_path downloads photo full_disk 7) ≡ some downloads)
    × ((exists (unique_path downloads photo full_disk 7) full_disk ≡ false)
        ⊎ ((k : ℕ) → 1 ≤ k → k < 10000 → Taken photo photo-IsName downloads full_disk k))
unique_path_lem_example = unique_path_lem photo photo-IsName downloads full_disk 7
