-- ===== src/Fs.antt =====
-- What desktop/src uses of `std::path` and `std::fs`. A path is the list of its components; the
-- disk maps paths to entries. Which calls fail is decided by the caller, as an argument.
pub mod Laws
use antarloka.Prelude.{
  ◌≡◌, refl, Bool, true, false, not, ◌&&◌, ◌||◌, List, [], ◌∷◌, ◌++◌, Option, none, some, ◌==◌,
  nat_eq, list_eq, if◌then◌else◌, ℕ, keep,
}
use antarloka.Prelude.Map.{Map, lookup, insert, remove, contains}
use antarloka.Text.{Str, Bytes, codes}

abbrev pub FilePath : Type 0
FilePath = List Str

pub data Entry : Type 0 where
  regular : Bytes → Entry
  directory : Entry

abbrev pub Disk : Type 0
Disk = Map FilePath Entry

-- The separators of Windows, the target of the desktop build; `/` is the one of Unix too.
abbrev pub is_separator : ℕ → Bool
is_separator c = c == b'/' || c == 0x5c

push_head : ℕ → List Str → List Str
push_head c [] = (c ∷ []) ∷ []
push_head c (p ∷ ps) = (c ∷ p) ∷ ps

unfoldable pub pieces : Str → List Str
unfolding push_head
pieces [] = [] ∷ []
pieces (c ∷ s) = if is_separator c then [] ∷ pieces s else push_head c (pieces s)

abbrev pub is_normal : Str → Bool
is_normal p = not (p == []) && not (p == codes ".")

-- `Path::components`: neither empty components nor `.`.
unfoldable pub components : Str → FilePath
components s = keep is_normal (pieces s)

starts_with_separator : Str → Bool
starts_with_separator [] = false
starts_with_separator (c ∷ s) = is_separator c

-- `Path::join`: an absolute path replaces what it is joined to.
unfoldable pub join : FilePath → Str → FilePath
unfolding components starts_with_separator
join dir name = if starts_with_separator name then components name else dir ++ components name

init : Str → FilePath → FilePath
init x [] = []
init x (y ∷ ys) = x ∷ init y ys

-- `Path::parent`
unfoldable pub parent : FilePath → Option FilePath
unfolding init
parent [] = none
parent (x ∷ xs) = some (init x xs)

-- `Path::exists`
abbrev pub exists : FilePath → Disk → Bool
exists p disk = contains p disk
