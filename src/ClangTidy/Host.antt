-- ===== src/ClangTidy/Host.antt =====
-- The command line, the system and the end of tools/run-clang-tidy.py, as its `main` sees them.
use for_montee.Base.{ℕ, ℤ, Bool, List, Option, none, some, Text}
use for_montee.ClangTidy.Command.{TidyArgs}
use for_montee.ClangTidy.Workers.{Ran}
use for_montee.ClangTidy.Fixes.{Content, Merged}

-- An entry of the database; none is a key that it lacks.
pub record Entry : Type 0 where
  pub file : Option Text
  pub directory : Option Text

-- The command line. An option that is not given is the empty text, where the code tests it so.
pub record Options : Type 0 where
  pub build_path : Option Text
  pub clang_tidy_binary : Text
  pub clang_apply_replacements_binary : Text
  pub tidy : TidyArgs
  pub export_fixes : Text
  pub fix : Bool
  pub format : Bool
  pub style : Text
  pub j : ℤ
  pub files : List Text

-- The system and the libraries; none and false stand for an exception. `order` is the order in
-- which Python goes through a set, and `replacements` is what is in the directory for the fixes
-- when the threads are done.
pub record Host (D : Type 0) : Type 0 where
  pub which : Text → Option Text
  pub isfile : Text → Bool
  pub realpath : Text → Text
  pub has_yaml : Bool
  pub mkdtemp : Option Text
  pub mkstemp : (directory file : Text) → Text
  pub check_call : List Text → Bool
  pub load : Text → Option (List Entry)
  pub order : List Text → List Text
  pub cpu_count : ℕ
  pub compile : Text → Option (Text → Bool)
  pub clang_tidy : List Text → Ran
  pub replacements : Text → List (Content D)
  pub write_file : Text → Merged D → Bool
  pub call : List Text → Bool
  pub rmtree : Text → Bool

-- The status of the process, and the temporary directory that is left behind.
pub record Ending : Type 0 where
  pub status : ℕ
  pub left : Option Text

-- A part of `main` gives a value, or it ends the program; `out_of_fuel` is the model's own.
pub data Stage (A : Type 0) : Type 0 where
  reached : A → Stage A
  ended : Ending → Stage A
  out_of_fuel : Stage A

infixl 5 ◌>>=◌
abbrev pub ◌>>=◌ : {A B : Type 0} → Stage A → (A → Stage B) → Stage B
reached a >>= f = f a
ended e >>= f = ended e
out_of_fuel >>= f = out_of_fuel

-- An exception, `sys.exit(1)` or a `SystemExit` with a message: the status is 1.
abbrev pub fail_with : {A : Type 0} → Option Text → Stage A
fail_with left = ended (record { status = 1; left = left })

abbrev pub or_fail : {A : Type 0} → Option Text → Option A → Stage A
or_fail left none = fail_with left
or_fail left (some a) = reached a

-- The directory for the fixes, and the program that applies them.
pub record Temporary : Type 0 where
  pub tmpdir : Text
  pub clang_apply_replacements_binary : Text

abbrev pub tmpdir_of : Option Temporary → Option Text
tmpdir_of none = none
tmpdir_of (some t) = some t.tmpdir
