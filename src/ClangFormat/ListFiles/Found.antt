-- ===== src/ClangFormat/ListFiles/Found.antt =====
-- Which files `list_files` lists.
use for_montee.Base.{
  ◌≡◌, ◌↔◌, ◌⊎◌, inl, inr, refl, ap, sym, ◌∙◌, Bool, true, false, not, List, [], ◌∷◌, ◌++◌, map,
  Option, none, some, Text, keep, In, In-append, In-keep, path_join, Bool-cases, if◌then◌else◌,
  arith,
}
use for_montee.ClangFormat.Fnmatch.{fnmatch}
use for_montee.ClangFormat.ListFiles.{
  Dir, dir, Subdirs, end, subdir, link, survives, exclude_all, has_extension, own_files, walk,
  walk_subdirs, list_dir, list_files,
}

In-map :
    (g : Text → Text) (f : Text) (xs : List Text)
    → In f (map g xs) ↔ ((x : Text) × In x xs × (f ≡ g x))
In-map g f [] = (λ m. absurd m, λ x. absurd (x.1))
In-map g f (x ∷ xs) =
    let (split, glue) = In-map g f xs in
    (
      elim [ inl e ↦ (x, inl refl, sym e) | inr m ↦ let (y, l, e) = split m in (y, inr l, e) ],
      λ (y, m, e). elim m [ inl same ↦ inl (ap g same ∙ sym e) | inr l ↦ inr (glue (y, l, e)) ],
    )

-- Filtering by one pattern after the other keeps what all of them let through.
exclude_all-In :
    (patterns : List Text) (f : Text) (xs : List Text)
    → In f (exclude_all patterns xs) ↔ (In f xs × (survives patterns f ≡ true))
unfolding exclude_all survives
exclude_all-In [] f xs = (λ m. (m, refl), λ x. x.0)
exclude_all-In (p ∷ ps) f xs =
    let (split, glue) = exclude_all-In ps f (keep (λ x. not (fnmatch x p)) xs) in
    let (cut, keep_it) = In-keep (λ x. not (fnmatch x p)) f xs in
    (
      λ m. let (k, s) = split m in let (l, q) = cut k in (l, rw q s),
      λ (l, s). glue (keep_it (l, ground arith), ground arith),
    )

module _ (extensions exclude : List Text) where
  -- The file is one of these names in the directory, no pattern matches it, and its extension is
  -- one of the extensions.
  abbrev pub Own : Text → List Text → Text → Type 0
  Own dirpath fnames f =
      (name : Text) × In name fnames
      × (f ≡ path_join dirpath name)
      × (survives exclude f ≡ true)
      × (has_extension extensions f ≡ true)

  -- The file stands in the directory, or below directories whose paths no pattern matches.
  abbrev mutual
    pub Found : Dir → Text → Text → Type 0
    Found (dir fnames subdirs) dirpath f = Own dirpath fnames f ⊎ FoundBelow subdirs dirpath f

    pub FoundBelow : Subdirs → Text → Text → Type 0
    FoundBelow end dirpath f = ⊥
    FoundBelow (link name subdirs) dirpath f = FoundBelow subdirs dirpath f
    FoundBelow (subdir name d subdirs) dirpath f =
        ((survives exclude (path_join dirpath name) ≡ true) × Found d (path_join dirpath name) f)
        ⊎ FoundBelow subdirs dirpath f

  own_files-In :
      (dirpath : Text) (fnames : List Text) (f : Text)
      → In f (own_files extensions exclude dirpath fnames) ↔ Own dirpath fnames f
  unfolding own_files
  own_files-In dirpath fnames f =
      let (cut, keep_it) =
        In-keep (has_extension extensions) f
          (exclude_all exclude (map (path_join dirpath) fnames)) in
      let (split, glue) = exclude_all-In exclude f (map (path_join dirpath) fnames) in
      let (there, back) = In-map (path_join dirpath) f fnames in
      (
        λ m.
            let (k, ext) = cut m in
            let (l, s) = split k in let (name, n, e) = there l in (name, n, e, s, ext),
        λ (name, n, e, s, ext). keep_it (glue (back (name, n, e), s), ext),
      )

  -- A directory that is walked, and the rest.
  In-if-append :
      (b : Bool) (f : Text) (xs ys : List Text)
      → In f ((if b then xs else []) ++ ys) ↔ (((b ≡ true) × In f xs) ⊎ In f ys)
  In-if-append true f xs ys =
      let (split, glue) = In-append f xs ys in
      (
        λ m. elim (split m) [ inl l ↦ inl (refl, l) | inr r ↦ inr r ],
        elim [ inl x ↦ glue (inl (x.1)) | inr r ↦ glue (inr r) ],
      )
  In-if-append false f xs ys = (inr, elim [ inl x ↦ cc (x.0) | inr r ↦ r ])

  mutual
    unfolding walk

    walk-Found :
        (d : Dir) (dirpath f : Text) → In f (walk extensions exclude d dirpath) ↔ Found d dirpath f
    walk-Found (dir fnames subdirs) dirpath f =
        let own = own_files-In dirpath fnames f in
        let below = walk_subdirs-FoundBelow subdirs dirpath f in
        let joined =
          In-append f (own_files extensions exclude dirpath fnames)
            (walk_subdirs extensions exclude subdirs dirpath) in
        (
          λ m. elim (joined.0 m) [ inl l ↦ inl (own.0 l) | inr r ↦ inr (below.0 r) ],
          elim [ inl l ↦ joined.1 (inl (own.1 l)) | inr r ↦ joined.1 (inr (below.1 r)) ],
        )

    walk_subdirs-FoundBelow :
        (s : Subdirs) (dirpath f : Text)
        → In f (walk_subdirs extensions exclude s dirpath) ↔ FoundBelow s dirpath f
    walk_subdirs-FoundBelow end dirpath f = (λ m. m, λ m. m)
    walk_subdirs-FoundBelow (link name subdirs) dirpath f =
        walk_subdirs-FoundBelow subdirs dirpath f
    walk_subdirs-FoundBelow (subdir name d subdirs) dirpath f =
        let path = path_join dirpath name in
        let inside = walk-Found d path f in
        let rest = walk_subdirs-FoundBelow subdirs dirpath f in
        let joined =
          In-if-append (survives exclude path) f (walk extensions exclude d path)
            (walk_subdirs extensions exclude subdirs dirpath) in
        (
          λ m. elim (joined.0 m) [
            | inl (kept, l) ↦ inl (kept, inside.0 l)
            | inr r ↦ inr (rest.0 r)
          ],
          elim [
            | inl (kept, l) ↦ joined.1 (inl (kept, inside.1 l))
            | inr r ↦ joined.1 (inr (rest.1 r))
          ],
        )

  module _ (recursive : Bool) (read_dir : Text → Option Dir) where
    -- The file is an argument that is not walked, or it is found in a directory that is.
    abbrev pub Listed : Text → Text → Option Dir → Type 0
    Listed f file none = file ≡ f
    Listed f file (some d) = if recursive then Found d file f else (file ≡ f)

    list_dir-Listed :
        (file f : Text) (o : Option Dir)
        → In f (list_dir extensions exclude recursive read_dir file o) ↔ Listed f file o
    list_dir-Listed file f none = (elim [ inl e ↦ e | inr m ↦ absurd m ], inl)
    list_dir-Listed file f (some d) = elim (Bool-cases recursive) [
      | inl deep ↦ rw deep (walk-Found d file f)
      | inr flat ↦ rw flat (elim [ inl e ↦ e | inr m ↦ absurd m ], inl)
    ]

    -- A file is listed exactly when it is an argument that is no directory or is not walked, with
    -- no test of its name, or when it is found below an argument that is walked: its extension is
    -- one of the extensions, and no pattern matches its path or that of a directory on the way to
    -- it.
    pub list_files-Listed :
        (files : List Text) (f : Text)
        → In f (list_files extensions exclude recursive read_dir files)
          ↔ ((file : Text) × In file files × Listed f file (read_dir file))
    unfolding list_files
    list_files-Listed [] f = (λ m. absurd m, λ x. absurd (x.1))
    list_files-Listed (file ∷ files) f =
        let here = list_dir-Listed file f (read_dir file) in
        let later = list_files-Listed files f in
        let joined =
          In-append f (list_dir extensions exclude recursive read_dir file (read_dir file))
            (list_files extensions exclude recursive read_dir files) in
        (
          λ m. elim (joined.0 m) [
            | inl l ↦ (file, inl refl, here.0 l)
            | inr r ↦ let (g, n, x) = later.0 r in (g, inr n, x)
          ],
          λ (g, n, x). elim n [
            | inl same ↦ joined.1 (inl (here.1 (rw same x)))
            | inr l ↦ joined.1 (inr (later.1 (g, l, x)))
          ],
        )
