-- ===== src/ClangFormat/Trouble/Plain.antt =====
-- The line of `print_trouble` has the same text with colours and without.
use for_montee.Base.{◌≡◌, refl, ◌∙◌, sym, Bool, true, false, Text}
use for_montee.ClangFormat.Colors.{bold_red}
use for_montee.ClangFormat.Colors.Plain.{plain_from, plain, NoEscape, plain_from-NoEscape}
use for_montee.ClangFormat.Trouble.{print_trouble}

pub plain-print_trouble :
    (prog message : Text) (use_colors : Bool)
    → NoEscape prog
    → plain (print_trouble prog message use_colors) ≡ plain (print_trouble prog message false)
unfolding plain print_trouble bold_red plain_from
plain-print_trouble prog message false h = refl
plain-print_trouble prog message true h =
    plain_from-NoEscape prog _ h ∙ sym (plain_from-NoEscape prog _ h)
