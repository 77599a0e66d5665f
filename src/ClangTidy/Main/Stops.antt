-- ===== src/ClangTidy/Main/Stops.antt =====
-- Where `main` of tools/run-clang-tidy.py ends before it starts its threads.
use for_montee.Base.{
  suc, ◌≡◌, refl, ◌||◌, [], ◌∷◌, ◌++◌, Option, none, some, Text, codes, path_join, join, length,
  Bool-cases, inl, inr, arith,
}
use for_montee.ClangTidy.Command.{get_tidy_invocation, Binary, binary, system_exit}
use for_montee.ClangTidy.Locate.{Located, located, exited, find_compilation_database}
use for_montee.ClangTidy.Locate.Nearest.{find_compilation_database-Nearest}
use for_montee.ClangTidy.Host.{
  Options, Host, Stage, reached, ended, out_of_fuel, ◌>>=◌, or_fail, tmpdir_of, tmpdir_of,
}
use for_montee.ClangTidy.Main.{
  from_located, from_binary, db_path, exports, find_build_path, make_temporary, try_clang_tidy,
  load_files, prepare, entry_paths,
}

-- A part of `main` that ends the program does so with status 1, and has fuel enough.
abbrev pub Fails : {A : Type 0} → Stage A → Type 0
Fails (reached a) = Unit
Fails (ended e) = e.status ≡ 1
Fails out_of_fuel = ⊥

bind-Fails :
    {A B : Type 0} (m : Stage A) (f : A → Stage B)
    → Fails m
    → ((a : A) → Fails (f a))
    → Fails (m >>= f)
bind-Fails (reached a) f h k = k a
bind-Fails (ended e) f h k = h
bind-Fails out_of_fuel f h k = absurd h

or_fail-Fails : {A : Type 0} (left : Option Text) (a : Option A) → Fails (or_fail left a)
or_fail-Fails left none = refl
or_fail-Fails left (some a) = tt

from_located-Fails : (l : Located) → Fails (from_located (some l))
from_located-Fails (located d) = tt
from_located-Fails exited = refl

from_binary-Fails : (b : Binary) → Fails (from_binary b)
from_binary-Fails (binary path) = tt
from_binary-Fails system_exit = refl

module _ {D : Type 0} (h : Host D) (o : Options) where
  -- The search for the database has fuel enough.
  search-Fails : Fails (
      from_located (
        find_compilation_database h.isfile h.realpath
          (suc (length (h.realpath (codes "./"))))
          db_path))
  search-Fails =
      let (l, e, nearest) =
        find_compilation_database-Nearest h.isfile h.realpath
          (suc (length (h.realpath (codes "./")))) db_path (omega arith) in
      rw e (from_located-Fails l)

  find_build_path-Fails : (given : Option Text) → o.build_path ≡ given → Fails (find_build_path h o)
  unfolding find_build_path
  find_build_path-Fails none e = rw e search-Fails
  find_build_path-Fails (some path) e = rw e tt

  make_temporary-Fails : (b : Text) → Fails (make_temporary h o b)
  unfolding make_temporary
  make_temporary-Fails b = elim (Bool-cases (o.fix || exports h o)) [
    | inl wanted ↦ rw wanted (
        bind-Fails _ _ (from_binary-Fails _)
          (λ path. bind-Fails _ _ (or_fail-Fails none h.mkdtemp) (λ tmpdir. tt)))
    | inr unwanted ↦ rw unwanted tt
  ]

  try_clang_tidy-Fails :
      (b path : Text) (left : Option Text) → Fails (try_clang_tidy h o b path left)
  unfolding try_clang_tidy
  try_clang_tidy-Fails b path left =
      elim (Bool-cases (
        h.check_call
          (get_tidy_invocation [] path o.tidy none b ++ (codes "-list-checks" ∷ codes "-" ∷ [])))) [
            | inl works ↦ rw works tt
            | inr broken ↦ rw broken refl
          ]

  load_files-Fails : (b : Text) (left : Option Text) → Fails (load_files h o b left)
  unfolding load_files
  load_files-Fails b left =
      bind-Fails (or_fail left (h.load (path_join b db_path)))
        (λ database. or_fail left (entry_paths database)) (or_fail-Fails left _)
        (λ database. or_fail-Fails left (entry_paths database))

  pub prepare-Fails : Fails (prepare h o)
  unfolding prepare
  prepare-Fails = bind-Fails _ _ (find_build_path-Fails o.build_path refl) (λ b.
      bind-Fails _ _ (from_binary-Fails _) (λ path. bind-Fails _ _ (make_temporary-Fails b) (λ t.
        bind-Fails _ _ (try_clang_tidy-Fails b path _) (λ u.
          bind-Fails _ _ (load_files-Fails b _) (λ fs.
            bind-Fails (or_fail (tmpdir_of t) (h.compile (join (codes "|") o.files))) _
              (or_fail-Fails (tmpdir_of t) (h.compile (join (codes "|") o.files))) (λ re. tt))))))
