-- ===== src/IwyuTool/Database/Slice.antt =====
-- What `slice_compilation_db` selects, and when it warns.
use for_montee.Base.{
  ◌≡◌, ◌↔◌, ◌⊎◌, inl, inr, refl, sym, true, false, List, [], ◌∷◌, ◌++◌, map, Text, is_empty, keep,
  In, In-append, In-keep, Bool-cases, if◌then◌else◌, append-nil,
}
use for_montee.IwyuTool.Database.{
  System, Entry, Sliced, is_selected, not_in_db, slice_path, slice_paths, slice_compilation_db,
}

module _ (sys : System) (db : List Entry) where
  -- The entry stands below one of the paths, which exists.
  abbrev pub Selected : Entry → List Text → Type 0
  Selected e paths =
      (path : Text) × In path paths
      × (sys.exists_on_disk path ≡ true)
      × In e db
      × (is_selected sys path e ≡ true)

  -- What one path adds.
  added : Text → List Entry
  added path = if sys.exists_on_disk path then keep (is_selected sys path) db else []

  slice_path-added :
      (s : Sliced) (path : Text) → (slice_path sys db s path).new_db ≡ s.new_db ++ added path
  unfolding slice_path added
  slice_path-added s path = elim (Bool-cases (sys.exists_on_disk path)) [
    | inr missing ↦ rw missing (sym (append-nil s.new_db))
    | inl there ↦ rw there (by_found (keep (is_selected sys path) db))
  ]
    where
      by_found :
          (found : List Entry)
          → (if is_empty found
              then record s { warnings = s.warnings ++ (not_in_db path ∷ []) }
              else record s { new_db = s.new_db ++ found }).new_db
            ≡ s.new_db ++ found
      by_found [] = sym (append-nil s.new_db)
      by_found (e ∷ es) = refl

  added-In :
      (e : Entry) (path : Text)
      → In e (added path)
        ↔ ((sys.exists_on_disk path ≡ true) × In e db × (is_selected sys path e ≡ true))
  unfolding added
  added-In e path = elim (Bool-cases (sys.exists_on_disk path)) [
    | inr missing ↦ rw missing (λ m. absurd m, λ x. cc (x.0))
    | inl there ↦ rw there (
        let (split, glue) = In-keep (is_selected sys path) e db in
        (λ m. let (l, q) = split m in (refl, l, q), λ x. glue (x.1, x.2)))
  ]

  Selected-cons :
      (e : Entry) (path : Text) (paths : List Text)
      → Selected e (path ∷ paths) ↔ (In e (added path) ⊎ Selected e paths)
  Selected-cons e path paths = (
    λ (p, m, there, x, q). elim m [
      | inl same ↦ inl ((added-In e path).1 (rw (← same) at there, x, rw (← same) at q))
      | inr later ↦ inr (p, later, there, x, q)
    ],
    elim [
      | inl l ↦ let (there, x, q) = (added-In e path).0 l in (path, inl refl, there, x, q)
      | inr (p, later, there, x, q) ↦ (p, inr later, there, x, q)
    ],
  )

  slice_paths-In :
      (e : Entry) (paths : List Text) (s : Sliced)
      → In e (slice_paths sys db s paths).new_db ↔ (In e s.new_db ⊎ Selected e paths)
  unfolding slice_paths
  slice_paths-In e [] s = (inl, elim [ inl m ↦ m | inr x ↦ absurd (x.1) ])
  slice_paths-In e (path ∷ paths) s =
      let later = slice_paths-In e paths (slice_path sys db s path) in
      let (split, glue) = In-append e s.new_db (added path) in
      let step = slice_path-added s path in
      let (cut, join) = Selected-cons e path paths in
      (
        λ m. elim (later.0 m) [
          | inl old ↦ elim (split (rw step at old)) [ inl l ↦ inl l | inr a ↦ inr (join (inl a)) ]
          | inr x ↦ inr (join (inr x))
        ],
        elim [
          | inl l ↦ later.1 (inl (rw step (glue (inl l))))
          | inr x ↦ elim (cut x) [
            | inl a ↦ later.1 (inl (rw step (glue (inr a))))
            | inr y ↦ later.1 (inr y)
          ]
        ],
      )

  -- For a selection that is not empty, the sliced database holds exactly the entries of the
  -- database whose file is, or stands below, the canonical form of a selected path that exists.
  pub slice_compilation_db-In :
      (e : Entry) (selection : List Text)
      → is_empty selection ≡ false
      → In e (slice_compilation_db sys db selection).new_db
        ↔ Selected e (map sys.realpath selection)
  unfolding slice_compilation_db
  slice_compilation_db-In e selection some_path =
      let (split, glue) =
        slice_paths-In e (map sys.realpath selection) (record { new_db = []; warnings = [] }) in
      rw some_path (λ m. elim (split m) [ inl l ↦ absurd l | inr x ↦ x ], λ x. glue (inr x))
