-- ===== src/Config/Layout.antt =====
-- The files of a profile and their temporary files do not get in each other's way.
use antarloka.Prelude.{
  ◌≡◌, ◌≢◌, refl, [], ◌∷◌, ◌++◌, ap, sym, ◌∙◌, arith, Option, none, some, true, false, all, ◌==◌,
  nat_eq, list_eq, list_beq, list_beq_iff,
}
use antarloka.Text.{Str, codes, split_last, byte_len, utf8_len}
use antarloka.Util.Unique.{split_stem}
use antarloka.Fs.{FilePath, join}
use antarloka.Fs.Laws.{join-IsName, IsName, is_plain}
use antarloka.Security.PrivateFile.{with_extension}
use antarloka.Config.{identity_path, trust_path, config_path}

-- The last name of a path.
last_name : FilePath → Option Str
last_name [] = none
last_name (x ∷ []) = some x
last_name (x ∷ y ∷ p) = last_name (y ∷ p)

last_name-append : (root : FilePath) (x : Str) → last_name (root ++ x ∷ []) ≡ some x
unfolding last_name
last_name-append [] x = refl
last_name-append (y ∷ []) x = refl
last_name-append (y ∷ z ∷ p) x = last_name-append (z ∷ p) x

with_extension-append :
    (ext : Str) (root : FilePath) (x : Str)
    → with_extension ext (root ++ x ∷ []) ≡ root ++ with_extension ext (x ∷ [])
unfolding with_extension
with_extension-append ext [] x = refl
with_extension-append ext (y ∷ []) x = refl
with_extension-append ext (y ∷ z ∷ p) x = ap (λ t. y ∷ t) (with_extension-append ext (z ∷ p) x)

append_one-injective : (root : FilePath) (x y : Str) → root ++ x ∷ [] ≡ root ++ y ∷ [] → x ≡ y
append_one-injective root x y e =
    ground (arith, e, last_name-append root x, last_name-append root y)

differ : (x y : Str) → (x == y) ≡ false → x ≢ y
differ x y h e = ground (arith, h, e, list_beq_iff nat_eq x y)

-- Neither the file nor its temporary file is the other.
abbrev pub Apart : FilePath → FilePath → Type 0
Apart p q = (p ≢ q) × (with_extension (codes "tmp") p ≢ q)

joined-Apart :
    (root : FilePath) (x tmp y : Str)
    → IsName x
    → IsName y
    → with_extension (codes "tmp") (x ∷ []) ≡ tmp ∷ []
    → (x == y) ≡ false
    → (tmp == y) ≡ false
    → Apart (join root x) (join root y)
joined-Apart root x tmp y name_x name_y ext other other_tmp =
    let here = join-IsName root x name_x in
    let there = join-IsName root y name_y in
    let beside : with_extension (codes "tmp") (root ++ x ∷ []) ≡ root ++ tmp ∷ [] =
      with_extension-append (codes "tmp") root x ∙ ap (λ t. root ++ t) ext in
    rw (here, there)
      (
        λ e. differ x y other (append_one-injective root x y e),
        λ e. differ tmp y other_tmp (append_one-injective root tmp y (sym beside ∙ e)),
      )

is_name :
    (x : Str) → (x == []) ≡ false → (x == codes ".") ≡ false → all is_plain x ≡ true → IsName x
is_name x a b c = (differ x [] a, differ x (codes ".") b, c)

-- The three files of a profile: none is another's temporary file.
pub files-Apart :
    (root : FilePath)
    → Apart (identity_path root) (trust_path root)
      × Apart (identity_path root) (config_path root)
      × Apart (trust_path root) (identity_path root)
      × Apart (trust_path root) (config_path root)
      × Apart (config_path root) (identity_path root)
      × Apart (config_path root) (trust_path root)
unfolding identity_path trust_path config_path list_beq with_extension split_stem split_last all
    byte_len utf8_len
files-Apart root =
    let i : IsName (codes "identity.json") = is_name (codes "identity.json") refl refl refl in
    let t : IsName (codes "trust.json") = is_name (codes "trust.json") refl refl refl in
    let c : IsName (codes "config.json") = is_name (codes "config.json") refl refl refl in
    let it : Str = codes "identity.tmp" in
    let tt' : Str = codes "trust.tmp" in
    let ct : Str = codes "config.tmp" in
    (
      joined-Apart root _ it _ i t refl refl refl,
      joined-Apart root _ it _ i c refl refl refl,
      joined-Apart root _ tt' _ t i refl refl refl,
      joined-Apart root _ tt' _ t c refl refl refl,
      joined-Apart root _ ct _ c i refl refl refl,
      joined-Apart root _ ct _ c t refl refl refl,
    )
