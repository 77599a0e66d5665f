-- ===== src/IwyuTool/Paths/Lineage.antt =====
-- `is_subpath_of` is the lineage of paths by whole components.
use for_montee.Base.{
  ℕ, ◌==◌, ◌≡◌, ◌↔◌, ◌⊎◌, inl, inr, refl, ap, ◌∙◌, true, [], ◌∷◌, ◌++◌, append_assoc, Text, text_eq,
  text_eq_iff, starts_with, starts_with-append, starts_with_rest, rstrip, length, drop,
  drop-length-append, arith, if◌then◌else◌, Bool-cases, ==_iff,
}
use for_montee.IwyuTool.Paths.{Platform, sep, normcase, is_subpath, is_subpath_of}

-- The path is the parent, or stands below it: behind the parent without the separators at its end
-- come a separator and more.
abbrev pub Lineage : ℕ → Text → Text → Type 0
Lineage c path parent = (path ≡ parent) ⊎ ((rest : Text) × (path ≡ rstrip c parent ++ (c ∷ rest)))

-- A parent with no separator at its end, or the root.
abbrev pub IsCanonical : ℕ → Text → Type 0
IsCanonical c parent = (rstrip c parent ≡ parent) ⊎ (parent ≡ c ∷ [])

rstrip-prefix : (c : ℕ) (s : Text) → (t : Text) × (s ≡ rstrip c s ++ t)
unfolding rstrip
rstrip-prefix c [] = ([], refl)
rstrip-prefix c (d ∷ s) = by_rest (rstrip c s) (rstrip-prefix c s).0 (rstrip-prefix c s).1
  where
    by_rest :
        (r t : Text)
        → s ≡ r ++ t
        → (u : Text) × (d ∷ s
            ≡ elim r [ [] ↦ if d == c then [] else d ∷ [] | e ∷ r' ↦ d ∷ e ∷ r' ] ++ u)
    by_rest [] t h = elim (Bool-cases (d == c)) [
      | inl cut ↦ (d ∷ t, rw (cut, h))
      | inr kept ↦ (t, rw (kept, h))
    ]
    by_rest (e ∷ r') t h = (t, rw h)

rstrip_root : (c : ℕ) → rstrip c (c ∷ []) ≡ []
unfolding rstrip
rstrip_root c = rw ((==_iff c c).1 refl)

suffix_below :
    (c : ℕ) (path parent : Text)
    → starts_with path parent ≡ true
    → starts_with (drop (length (rstrip c parent)) path) (c ∷ []) ≡ true
    → (rest : Text) × (path ≡ rstrip c parent ++ (c ∷ rest))
suffix_below c path parent prefix tail =
    let stem = rstrip c parent in
    let (t, whole) = starts_with_rest path parent prefix in
    let (u, cut) = rstrip-prefix c parent in
    let split : path ≡ stem ++ (u ++ t) = whole ∙ ap (λ s. s ++ t) cut ∙ append_assoc stem u t in
    let behind : drop (length stem) path ≡ u ++ t =
      ap (drop (length stem)) split ∙ drop-length-append stem (u ++ t) in
    let (rest, e) = starts_with_rest (u ++ t) (c ∷ []) (rw behind at tail) in
    (rest, split ∙ ap (◌++◌ stem) e)

-- What stands below a canonical parent begins with it.
begins_below :
    (c : ℕ) (parent rest : Text)
    → IsCanonical c parent
    → starts_with (rstrip c parent ++ (c ∷ rest)) parent ≡ true
begins_below c parent rest (inl bare) = rw bare (starts_with-append parent (c ∷ rest))
begins_below c parent rest (inr root) = rw (root, rstrip_root c) (starts_with-append (c ∷ []) rest)

is_subpath_sound :
    (c : ℕ) (path parent : Text) → is_subpath c path parent ≡ true → Lineage c path parent
unfolding is_subpath
is_subpath_sound c path parent h = elim (Bool-cases (text_eq path parent)) [
  | inl same ↦ inl ((text_eq_iff path parent).0 same)
  | inr other ↦ elim (Bool-cases (starts_with path parent)) [
    | inr no_prefix ↦ absurd (ground arith)
    | inl prefix ↦ inr (suffix_below c path parent prefix (rw (other, prefix) at h))
  ]
]

is_subpath_complete :
    (c : ℕ) (path parent : Text)
    → IsCanonical c parent
    → Lineage c path parent
    → is_subpath c path parent ≡ true
unfolding is_subpath
is_subpath_complete c path parent canonical (inl same) = rw ((text_eq_iff path parent).1 same)
is_subpath_complete c path parent canonical (inr (rest, below)) =
    elim (Bool-cases (text_eq path parent)) [
      | inl same ↦ rw same
      | inr other ↦
          rw (other, below, begins_below c parent rest canonical, drop-length-append)
            (starts_with-append (c ∷ []) rest)
    ]

-- For a canonical parent `is_subpath_of` holds exactly when the path is the parent or stands below
-- it by whole components, both as `normcase` gives them.
pub is_subpath_of_iff :
    (p : Platform) (path parent : Text)
    → IsCanonical (sep p) (normcase p parent)
    → (is_subpath_of p path parent ≡ true) ↔ Lineage (sep p) (normcase p path) (normcase p parent)
unfolding is_subpath_of
is_subpath_of_iff p path parent canonical = (
  is_subpath_sound (sep p) (normcase p path) (normcase p parent),
  is_subpath_complete (sep p) (normcase p path) (normcase p parent) canonical,
)
