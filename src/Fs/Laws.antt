-- ===== src/Fs/Laws.antt =====
-- A name with no separator names a direct child of the directory that it is joined to.
use antarloka.Prelude.{
  ◌≡◌, refl, ◌≢◌, Bool, true, not, [], ◌∷◌, ◌++◌, Option, some, nat_eq, list_eq, ℕ, keep, all,
  arith, ap, list_beq_iff,
}
use antarloka.Text.{Str, codes}
use antarloka.Fs.{
  FilePath, is_separator, push_head, pieces, components, starts_with_separator, join, init, parent,
}

abbrev pub is_plain : ℕ → Bool
is_plain c = not (is_separator c)

-- A file name that stands for itself: not empty, not `.`, and with no separator.
abbrev pub IsName : Str → Type 0
IsName s = (s ≢ []) × (s ≢ codes ".") × (all is_plain s ≡ true)

pieces-plain : (s : Str) → all is_plain s ≡ true → pieces s ≡ s ∷ []
unfolding pieces all push_head
pieces-plain [] h = refl
pieces-plain (c ∷ s) h = ground (arith, pieces-plain s)

components-IsName : (s : Str) → IsName s → components s ≡ s ∷ []
unfolding components keep
components-IsName s (h, k, a) =
    ground (arith, pieces-plain s a, list_beq_iff nat_eq s [], list_beq_iff nat_eq s (codes "."))

pub join-IsName : (dir : FilePath) (s : Str) → IsName s → join dir s ≡ dir ++ s ∷ []
unfolding join starts_with_separator all
join-IsName dir [] h = absurd (h.0 refl)
join-IsName dir (c ∷ s) h = ground (arith, components-IsName (c ∷ s) h)

init-append : (x : Str) (xs : FilePath) (s : Str) → init x (xs ++ s ∷ []) ≡ x ∷ xs
unfolding init
init-append x [] s = refl
init-append x (y ∷ ys) s = ap (λ t. x ∷ t) (init-append y ys s)

pub parent-append : (dir : FilePath) (s : Str) → parent (dir ++ s ∷ []) ≡ some dir
unfolding parent init
parent-append [] s = refl
parent-append (x ∷ xs) s = ap {B = Option FilePath} some (init-append x xs s)

pub parent-join : (dir : FilePath) (s : Str) → IsName s → parent (join dir s) ≡ some dir
parent-join dir s h = rw (join-IsName dir s h) (parent-append dir s)
