-- ===== src/Tests/Database.antt =====
-- The compilation database of tools/iwyu_tool.py on concrete entries.
use for_montee.Base.{◌≡◌, ◌↔◌, refl, false, true, List, [], ◌∷◌, map, In, none, some, codes}
use for_montee.IwyuTool.Database.{System, Entry, ok, fixup_compilation_db, slice_compilation_db}
use for_montee.Base.{text_eq}
use for_montee.IwyuTool.Database.{find_include_what_you_use}
use for_montee.IwyuTool.Database.Search.{
  First, program, search_path, find_include_what_you_use-First,
}
use for_montee.IwyuTool.Database.Slice.{Selected, slice_compilation_db-In}

-- A system whose only path is a file.
abbrev pub system : System
system = record {
  platform = record { windows = false; lower = λ s. s };
  realpath = λ p. codes "/p/a.cc";
  exists_on_disk = λ p. true;
  isfile = λ p. true;
  shlex_split = λ s. none;
}

abbrev pub entry : Entry
entry = record {
  file = some (codes "a.cc");
  directory = some (codes "/p");
  arguments = some (codes "c++" ∷ codes "a.cc" ∷ []);
  command = none;
}

abbrev pub database : List Entry
database = record entry { file = some (codes "/p/a.cc") } ∷ []

fixup_runs : fixup_compilation_db system (entry ∷ []) ≡ ok database
unfolding fixup_compilation_db
fixup_runs = refl

slice_compilation_db-In_example :
    In entry (slice_compilation_db system (entry ∷ []) (codes "a.cc" ∷ [])).new_db
    ↔ Selected system (entry ∷ []) entry (map system.realpath (codes "a.cc" ∷ []))
slice_compilation_db-In_example =
    slice_compilation_db-In system (entry ∷ []) entry (codes "a.cc" ∷ []) refl

abbrev on_path : System
on_path = record system { isfile = λ p. text_eq p (codes "/usr/bin/include-what-you-use") }

find_runs :
    find_include_what_you_use on_path none (some (codes "/bin:/usr/bin")) (codes "/s")
    ≡ some (codes "/p/a.cc")
unfolding find_include_what_you_use text_eq
find_runs = refl

find_include_what_you_use-First_example :
    First on_path
      (program on_path)
      (search_path on_path (some (codes "/bin:/usr/bin")) (codes "/s"))
      (find_include_what_you_use on_path none (some (codes "/bin:/usr/bin")) (codes "/s"))
find_include_what_you_use-First_example =
    find_include_what_you_use-First on_path (some (codes "/bin:/usr/bin")) (codes "/s")
