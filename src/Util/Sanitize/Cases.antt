-- ===== src/Util/Sanitize/Cases.antt =====
-- The cases of `escape` and `truncate_keeping_extension`, each with what it knows.
use antarloka.Prelude.{
  ℕ, zero, suc, ◌+◌, ◌-◌, ◌≤◌, ◌<◌, ◌≡◌, ◌≢◌, refl, inl, inr, true, false, ◌||◌, [], ◌∷◌, ◌++◌, min,
  arith, leb, ◌==◌, nat_eq, list_eq, list_beq_iff, sym, append-nil, leb→le, leb_false→lt, ap,
  Bool-cases, Option-cases,
}
use antarloka.Text.{Str, codes, byte_len, split_last, is_char_boundary, slice_to}
use antarloka.Text.Laws.{
  byte_len-slice_at, byte_len-append, slice_to_prefix, split_last-append, boundary_below,
}
use antarloka.Util.Sanitize.{
  max_name_len, received_file, is_reserved, split_extension, cut_back, cut_to,
  truncate_keeping_extension, escape,
}

-- The parts of `split_extension` make up the name again, and the extension is short.
split_extension-append :
    (n : ℕ) (name : Str)
    → let (stem, ext) = split_extension n name in (name ≡ stem ++ ext) × (byte_len ext ≤ n)
unfolding split_extension byte_len
split_extension-append n name = elim (Option-cases (split_last b'.' name)) [
  | inl e ↦ rw (e, split_extension) (sym (append-nil name), omega arith)
  | inr (r, e) ↦ ground (arith, split_last-append b'.' name r.0 r.1, append-nil name)
]

cut_back-boundary :
    (s : Str) (n m : ℕ)
    → m ≤ n
    → is_char_boundary s m ≡ true
    → (m ≤ cut_back s n) × (cut_back s n ≤ n) × (is_char_boundary s (cut_back s n) ≡ true)
unfolding cut_back
cut_back-boundary s zero m h b = ground arith
cut_back-boundary s (suc n) m h b = ground (arith, cut_back-boundary s n m)

-- `cut_back` gives up three bytes at most.
cut_back_bounds :
    (s : Str) (n : ℕ)
    → n ≤ byte_len s
    → (n < cut_back s n + 4) × (cut_back s n ≤ n) × (is_char_boundary s (cut_back s n) ≡ true)
cut_back_bounds s n h =
    let (m, a, b, e) = boundary_below s n h in
    let (x, y, z) = cut_back-boundary s n m a e in (omega arith, y, z)

-- A name that was cut: what stands before the extension is a prefix of the stem.
pub record IsCut (name : Str) (max : ℕ) (cut : Str) : Type 0 where
  pub front : Str
  pub lost : Str
  pub ext : Str
  pub name_parts : name ≡ (front ++ lost) ++ ext
  pub cut_parts : cut ≡ front ++ ext
  pub short_ext : byte_len ext ≤ 16
  pub fits : byte_len front + byte_len ext ≤ max
  pub nearly : max < byte_len front + byte_len ext + 4

module _ (P : Str → Type 0) (name : Str) (max : ℕ) (wide : 16 ≤ max) where
  pub truncate_cases :
      P received_file
      → (byte_len name ≤ max → P name)
      → ((cut : Str) → IsCut name max cut → P cut)
      → P (truncate_keeping_extension name max)
  unfolding truncate_keeping_extension cut_to
  truncate_cases fallback whole cut = elim (Bool-cases (leb (byte_len name) max)) [
    | inl short ↦ rw (short, truncate_keeping_extension) (whole (leb→le _ _ short))
    | inr long ↦
        let stem : Str = (split_extension 16 name).0 in
        let ext : Str = (split_extension 16 name).1 in
        let n : ℕ = min (max - byte_len ext) (byte_len stem) in
        let parts = split_extension-append 16 name in
        let (near, below, edge) = cut_back_bounds stem n (omega arith) in
        let (lost, whole_stem) = slice_to_prefix stem (cut_back stem n) in
        let size = byte_len-slice_at stem (cut_back stem n) edge in
        let total = byte_len-append stem ext in
        rw (long, truncate_keeping_extension)
          (elim (Bool-cases (cut_back stem n == 0)) [
            | inl nothing ↦ rw (nothing, cut_to) fallback
            | inr some_left ↦
                rw (some_left, cut_to)
                  (cut _ (record {
                    front = slice_to stem (cut_back stem n);
                    lost = lost;
                    ext = ext;
                    name_parts = rw (← whole_stem) parts.0;
                    cut_parts = refl;
                    short_ext = parts.1;
                    fits = omega arith;
                    nearly = omega (arith, ap byte_len parts.0, leb_false→lt _ _ long);
                  }))
          ])
  ]

module _ (P : Str → Type 0) (cleaned : Str) where
  pub escape_cases :
      P received_file
      → (cleaned ≢ [] → is_reserved cleaned ≡ true → P (b'_' ∷ cleaned))
      → (cleaned ≢ []
          → cleaned ≢ codes "."
          → cleaned ≢ codes ".."
          → is_reserved cleaned ≡ false
          → P (truncate_keeping_extension cleaned max_name_len))
      → P (escape cleaned)
  unfolding escape
  escape_cases fallback marked kept =
      elim (Bool-cases (cleaned == [] || cleaned == codes "." || cleaned == codes "..")) [
        | inl special ↦ rw (special, escape) fallback
        | inr plain ↦
            let no_nil : cleaned ≢ [] = ground (arith, list_beq_iff nat_eq cleaned []) in
            let no_dot : cleaned ≢ codes "." =
              ground (arith, list_beq_iff nat_eq cleaned (codes ".")) in
            let no_up : cleaned ≢ codes ".." =
              ground (arith, list_beq_iff nat_eq cleaned (codes "..")) in
            rw (plain, escape)
              (elim (Bool-cases (is_reserved cleaned)) [
                | inl device ↦ rw (device, escape) (marked no_nil device)
                | inr free ↦ rw (free, escape) (kept no_nil no_dot no_up free)
              ])
      ]
