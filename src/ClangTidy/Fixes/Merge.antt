-- ===== src/ClangTidy/Fixes/Merge.antt =====
-- What `merge_replacement_files` writes.
use for_montee.Base.{
  ◌≡◌, ◌⊎◌, inl, inr, refl, ap, ◌∙◌, List, [], ◌∷◌, ◌++◌, map, flatten, ◌≢◌, Option-cases, Option,
  some, none, In,
}
use for_montee.ClangTidy.Fixes.{
  Content, empty_content, diagnostics, without_key, broken, Merged, dumped, raised, merge_from,
  merge_replacement_files, written,
}

module _ {D : Type 0} where
  abbrev pub found : Content D → List D
  found (diagnostics ds) = ds
  found _ = []

  -- The fixes that the file of all fixes holds.
  abbrev pub fixes : Merged D → List D
  fixes (dumped ds) = ds
  fixes _ = []

  -- The list of files holds a broken one and the loop raises, or it holds none.
  Outcome : List (Content D) → Type 0
  Outcome files =
      (In broken files × (merge_from files ≡ none))
      ⊎ ((¬ In broken files) × (merge_from files ≡ some (flatten (map found files))))

  -- A file that is not broken puts its fixes before the others.
  abbrev before : List D → Option (List D) → Option (List D)
  before ds none = none
  before ds (some merged) = some (ds ++ merged)

  Outcome-cons :
      (c : Content D) (files : List (Content D))
      → c ≢ broken
      → merge_from (c ∷ files) ≡ before (found c) (merge_from files)
      → Outcome files
      → Outcome (c ∷ files)
  unfolding Outcome flatten
  Outcome-cons c files fine step (inl (m, e)) = inl (inr m, step ∙ ap (before (found c)) e)
  Outcome-cons c files fine step (inr (none_broken, e)) =
      inr (elim [ inl clash ↦ fine clash | inr m ↦ none_broken m ], step ∙ ap (before (found c)) e)

  merge_from-skip : (files : List (Content D)) → merge_from files ≡ before [] (merge_from files)
  merge_from-skip files = elim (Option-cases (merge_from files)) [
    | inl e ↦ rw e refl
    | inr (ds, e) ↦ rw e refl
  ]

  merge_from-before :
      (ds : List D) (files : List (Content D))
      → merge_from (diagnostics ds ∷ files) ≡ before ds (merge_from files)
  unfolding merge_from
  merge_from-before ds files = elim (Option-cases (merge_from files)) [
    | inl e ↦ rw e refl
    | inr (merged, e) ↦ rw e refl
  ]

  merge_from-Outcome : (files : List (Content D)) → Outcome files
  unfolding merge_from Outcome flatten
  merge_from-Outcome [] = inr (λ m. absurd m, refl)
  merge_from-Outcome (empty_content ∷ files) =
      Outcome-cons empty_content files (λ e. cc) (merge_from-skip files) (merge_from-Outcome files)
  merge_from-Outcome (diagnostics ds ∷ files) =
      Outcome-cons (diagnostics ds) files (λ e. cc) (merge_from-before ds files)
        (merge_from-Outcome files)
  merge_from-Outcome (without_key ∷ files) =
      Outcome-cons without_key files (λ e. cc) (merge_from-before [] files)
        (merge_from-Outcome files)
  merge_from-Outcome (broken ∷ files) = inl (inl refl, refl)

  fixes-written : (ds : List D) → (written (some ds) ≢ raised) × (fixes (written (some ds)) ≡ ds)
  fixes-written [] = (cc, refl)
  fixes-written (d ∷ ds) = (cc, refl)

  -- Either some file is broken and merging raises an exception, or none is and what is written
  -- holds exactly the diagnostics of all files, in the order of the files.
  pub merge_replacement_files-found :
      (files : List (Content D))
      → (In broken files × (merge_replacement_files files ≡ raised))
        ⊎ ((¬ In broken files)
            × (merge_replacement_files files ≢ raised)
            × (fixes (merge_replacement_files files) ≡ flatten (map found files)))
  unfolding merge_replacement_files Outcome
  merge_replacement_files-found files = elim (merge_from-Outcome files) [
    | inl (m, e) ↦ inl (m, ap written e)
    | inr (none_broken, e) ↦
        let (fine, same) = fixes-written (flatten (map found files)) in
        inr (none_broken, rw e fine, ap (λ o. fixes (written o)) e ∙ same)
  ]
