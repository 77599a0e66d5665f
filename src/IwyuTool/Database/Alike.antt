-- ===== src/IwyuTool/Database/Alike.antt =====
-- What the tool reads of an entry of the database: its file, its directory, and its command, in
-- whichever form.
use for_montee.Base.{
  ◌≡◌, refl, ap, ◌∙◌, sym, List, [], ◌∷◌, ◌++◌, map, Option, none, some, Text, is_empty, keep,
  Bool-cases, inl, inr,
}
use for_montee.IwyuTool.Database.{
  System, Entry, Result, ok, err, ◌>>=◌, command_of, from_compile_command, absolute_file,
  fixup_entry, fixup_compilation_db, is_selected, Sliced, slice_path, slice_paths,
  slice_compilation_db, invocations_of,
}

-- Both are values that are related, or the same exception.
abbrev pub Both : {A : Type 0} → (A → A → Type 0) → Result A → Result A → Type 0
Both R (ok a) (ok b) = R a b
Both R (err e) (err f) = e ≡ f
Both R _ _ = ⊥

bind-Both :
    {A B : Type 0} (R : A → A → Type 0) (S : B → B → Type 0) (m n : Result A) (f g : A → Result B)
    → Both R m n
    → ((a b : A) → R a b → Both S (f a) (g b))
    → Both S (m >>= f) (n >>= g)
bind-Both R S (ok a) (ok b) f g r h = h a b r
bind-Both R S (err e) (err e') f g r h = r
bind-Both R S (ok a) (err e) f g r h = absurd r
bind-Both R S (err e) (ok a) f g r h = absurd r

module _ (sys : System) where
  pub record Alike (e e' : Entry) : Type 0 where
    pub files : e.file ≡ e'.file
    pub directories : e.directory ≡ e'.directory
    pub commands : command_of sys e ≡ command_of sys e'

  abbrev pub Alikes : List Entry → List Entry → Type 0
  Alikes [] [] = Unit
  Alikes (e ∷ es) (e' ∷ es') = Alike e e' × Alikes es es'
  Alikes _ _ = ⊥

  absolute_file-Alike :
      (e e' : Entry) (file : Text) → Alike e e' → absolute_file e file ≡ absolute_file e' file
  unfolding absolute_file
  absolute_file-Alike e e' file a = rw (a.directories) refl

  command_of-file :
      (e : Entry) (file : Option Text)
      → command_of sys (record e { file = file }) ≡ command_of sys e
  unfolding command_of
  command_of-file e file = refl

  fixup_entry-Alike :
      (e e' : Entry) (file : Option Text)
      → Alike e e'
      → e'.file ≡ file
      → Both Alike (fixup_entry sys e) (fixup_entry sys e')
  unfolding fixup_entry
  fixup_entry-Alike e e' none a h = rw (a.files, h) refl
  fixup_entry-Alike e e' (some file) a h =
      rw (a.files, h)
        (record {
          files = ap (λ f. some (sys.realpath f)) (absolute_file-Alike e e' file a);
          directories = a.directories;
          commands = command_of-file e _ ∙ a.commands ∙ sym (command_of-file e' _);
        })

  pub fixup_compilation_db-Alikes :
      (es es' : List Entry)
      → Alikes es es'
      → Both Alikes (fixup_compilation_db sys es) (fixup_compilation_db sys es')
  unfolding fixup_compilation_db
  fixup_compilation_db-Alikes [] [] a = tt
  fixup_compilation_db-Alikes [] (e ∷ es) a = absurd a
  fixup_compilation_db-Alikes (e ∷ es) [] a = absurd a
  fixup_compilation_db-Alikes (e ∷ es) (e' ∷ es') (a, ds) =
      bind-Both Alike Alikes _ _ _ _ (fixup_entry-Alike e e' e'.file a refl) (λ x x' r.
        bind-Both Alikes Alikes _ _ _ _ (fixup_compilation_db-Alikes es es' ds)
          (λ xs xs' rs. (r, rs)))

  is_selected-Alike :
      (path : Text) (e e' : Entry) → Alike e e' → is_selected sys path e ≡ is_selected sys path e'
  unfolding is_selected
  is_selected-Alike path e e' a = rw (a.files) refl

  keep-Alikes :
      (path : Text) (es es' : List Entry)
      → Alikes es es'
      → Alikes (keep (is_selected sys path) es) (keep (is_selected sys path) es')
  keep-Alikes path [] [] a = tt
  keep-Alikes path [] (e ∷ es) a = absurd a
  keep-Alikes path (e ∷ es) [] a = absurd a
  keep-Alikes path (e ∷ es) (e' ∷ es') (a, ds) =
      let same = is_selected-Alike path e e' a in
      let rest = keep-Alikes path es es' ds in
      elim (Bool-cases (is_selected sys path e')) [
        | inl kept ↦ rw (same, kept) (a, rest)
        | inr cut ↦ rw (same, cut) rest
      ]

  append-Alikes :
      (ds ds' bs bs' : List Entry) → Alikes ds ds' → Alikes bs bs' → Alikes (ds ++ bs) (ds' ++ bs')
  append-Alikes [] [] bs bs' a b = b
  append-Alikes [] (e ∷ es) bs bs' a b = absurd a
  append-Alikes (e ∷ es) [] bs bs' a b = absurd a
  append-Alikes (e ∷ es) (e' ∷ es') bs bs' a b = (a.0, append-Alikes es es' bs bs' a.1 b)

  empty-Alikes : (es es' : List Entry) → Alikes es es' → is_empty es ≡ is_empty es'
  empty-Alikes [] [] a = refl
  empty-Alikes [] (e ∷ es) a = absurd a
  empty-Alikes (e ∷ es) [] a = absurd a
  empty-Alikes (e ∷ es) (e' ∷ es') a = refl

  slice_path-Alikes :
      (es es' : List Entry) (s s' : Sliced) (path : Text)
      → Alikes es es'
      → Alikes s.new_db s'.new_db
      → Alikes (slice_path sys es s path).new_db (slice_path sys es' s' path).new_db
  unfolding slice_path
  slice_path-Alikes es es' s s' path a b =
      let found = keep-Alikes path es es' a in
      let empty = empty-Alikes _ _ found in
      elim (Bool-cases (sys.exists_on_disk path)) [
        | inr missing ↦ rw missing b
        | inl there ↦ elim (Bool-cases (is_empty (keep (is_selected sys path) es'))) [
          | inl none_found ↦ rw (there, empty, none_found) b
          | inr some_found ↦ rw (there, empty, some_found) (append-Alikes _ _ _ _ b found)
        ]
      ]

  slice_paths-Alikes :
      (es es' : List Entry) (s s' : Sliced) (paths : List Text)
      → Alikes es es'
      → Alikes s.new_db s'.new_db
      → Alikes (slice_paths sys es s paths).new_db (slice_paths sys es' s' paths).new_db
  unfolding slice_paths
  slice_paths-Alikes es es' s s' [] a b = b
  slice_paths-Alikes es es' s s' (path ∷ paths) a b =
      slice_paths-Alikes es es' (slice_path sys es s path) (slice_path sys es' s' path) paths a
        (slice_path-Alikes es es' s s' path a b)

  pub slice_compilation_db-Alikes :
      (es es' : List Entry) (selection : List Text)
      → Alikes es es'
      → Alikes
          (slice_compilation_db sys es selection).new_db
          (slice_compilation_db sys es' selection).new_db
  unfolding slice_compilation_db
  slice_compilation_db-Alikes es es' [] a = a
  slice_compilation_db-Alikes es es' (path ∷ paths) a =
      let none_yet : Sliced = record { new_db = []; warnings = [] } in
      slice_paths-Alikes es es' none_yet none_yet (map sys.realpath (path ∷ paths)) a tt

  from_compile_command-Alike :
      (executable : Text) (extra_args : List Text) (e e' : Entry)
      → Alike e e'
      → from_compile_command sys executable e extra_args
        ≡ from_compile_command sys executable e' extra_args
  unfolding from_compile_command
  from_compile_command-Alike executable extra_args e e' a = rw (a.commands, a.directories) refl

  pub invocations_of-Alikes :
      (executable : Text) (extra_args : List Text) (es es' : List Entry)
      → Alikes es es'
      → invocations_of sys executable extra_args es ≡ invocations_of sys executable extra_args es'
  unfolding invocations_of
  invocations_of-Alikes executable extra_args [] [] a = refl
  invocations_of-Alikes executable extra_args [] (e ∷ es) a = absurd a
  invocations_of-Alikes executable extra_args (e ∷ es) [] a = absurd a
  invocations_of-Alikes executable extra_args (e ∷ es) (e' ∷ es') (a, b) =
      rw
        (
          from_compile_command-Alike executable extra_args e e' a,
          invocations_of-Alikes executable extra_args es es' b,
        )
        refl
