-- ===== src/IwyuTool/Database/Quoted.antt =====
-- The two forms of an entry of the database on Windows: a list of arguments, or a command line.
use for_montee.Base.{
  ◌≡◌, refl, ap, ◌∙◌, true, false, List, [], ◌∷◌, none, some, Text, All, is_empty,
}
use for_montee.IwyuTool.WinSplit.Quote.{command_line, present, win_split-command_line}
use for_montee.IwyuTool.Database.{System, Entry, ok, split_command, command_of}

-- Arguments of which none is empty.
abbrev pub NonEmpty : List Text → Type 0
NonEmpty = All (λ a. is_empty a ≡ false)

present-NonEmpty : (args : List Text) → NonEmpty args → present args ≡ args
present-NonEmpty [] h = refl
present-NonEmpty ([] ∷ args) h = cc
present-NonEmpty ((c ∷ a) ∷ args) h = ap (◌∷◌ (c ∷ a)) (present-NonEmpty args h.1)

-- The entry with its arguments as a list.
abbrev pub listed : Entry → List Text → Entry
listed e args = record e { arguments = some args; command = none }

-- The entry with its arguments quoted and joined to a command line.
abbrev pub quoted : Entry → List Text → Entry
quoted e args = record e { arguments = none; command = some (command_line args) }

pub command_of-quoted :
    (sys : System) (e : Entry) (args : List Text)
    → sys.platform.windows ≡ true
    → NonEmpty args
    → command_of sys (quoted e args) ≡ command_of sys (listed e args)
unfolding command_of split_command
command_of-quoted sys e args windows h =
    rw windows (ap ok (win_split-command_line args ∙ present-NonEmpty args h))
