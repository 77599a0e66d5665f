-- ===== src/IwyuTool/Formatter/Report.antt =====
-- Whole reports under `clang_formatter`: readable ones, and one that raises an exception.
use for_montee.Base.{
  ◌≡◌, refl, ap, sym, ◌∙◌, fun_ext, is_blank_line, List, [], ◌∷◌, ◌++◌, append_assoc, append-nil,
  Option, none, some, Option-cases, ◌⊎◌, inl, inr, Text, codes, All, map, flatten,
}
use for_montee.IwyuTool.Regex.{match}
use for_montee.IwyuTool.Regex.Suffix.{NoNewline}
use for_montee.IwyuTool.Formatter.{
  lines_re, State, general, adding, removing, listing, other, blank, classify, add_message,
  remove_message, correct_message, superfluous, Formatting, bind_formatting, format_kind,
  format_lines,
}
use for_montee.IwyuTool.Formatter.Headers.{
  correct_line, add_header, remove_header, classify-correct, classify-should_add,
  classify-should_remove,
}
use for_montee.IwyuTool.Formatter.Blocks.{
  Removal, Block, note, additions, removals, full, full_header, render, messages, IsPlain,
  IsRemoval, IsReadable, at_state, state_after, states_after,
}

bind_formatting_assoc :
    (o : Option Formatting) (k l : Formatting → Option Formatting)
    → bind_formatting o (λ f. bind_formatting (k f) l) ≡ bind_formatting (bind_formatting o k) l
bind_formatting_assoc none k l = refl
bind_formatting_assoc (some f) k l = refl

pub format_lines-append :
    (xs ys : List Text) (f : Formatting)
    → format_lines f (xs ++ ys) ≡ bind_formatting (format_lines f xs) (λ g. format_lines g ys)
unfolding format_lines
format_lines-append [] ys f = refl
format_lines-append (x ∷ xs) ys f =
    ap (bind_formatting (format_kind (classify x) f x)) (fun_ext (λ g. format_lines-append xs ys g))
    ∙ bind_formatting_assoc (format_kind (classify x) f x) _ _

-- One line, of which it is known what the formatter makes of it.
pub format_lines-cons :
    (line : Text) (lines : List Text) (f g : Formatting)
    → format_kind (classify line) f line ≡ some g
    → format_lines f (line ∷ lines) ≡ format_lines g lines
unfolding format_lines
format_lines-cons line lines f g e = ap (λ o. bind_formatting o (λ f'. format_lines f' lines)) e

format_additions :
    (path : Text) (lines : List Text) (out : List Text)
    → All IsPlain lines
    → format_lines (at_state (adding path) out) lines
      ≡ some (at_state (adding path) (out ++ map (add_message path) lines))
format_additions path [] out h = rw append-nil (unfold format_lines in refl)
format_additions path (line ∷ lines) out (plain, h) =
    format_lines-cons line lines _ _ (rw plain (unfold format_kind in refl))
    ∙ format_additions path lines (out ++ (add_message path line ∷ [])) h
    ∙ ap (λ t. some (at_state (adding path) t)) (append_assoc out _ _)

remove_message-found :
    (path : Text) (r : Removal)
    → match lines_re r.line ≡ some (r.include ∷ r.line_no ∷ [])
    → remove_message path r.line ≡ some (superfluous path r.line_no r.include)
unfolding remove_message match
remove_message-found path r e = rw e

remove_message-missed :
    (path line : Text) → match lines_re line ≡ none → remove_message path line ≡ none
unfolding remove_message match
remove_message-missed path line e = rw e

format_kind-blank : (f : Formatting) → format_kind (classify []) f [] ≡ some f
unfolding format_kind classify match is_blank_line
format_kind-blank f = refl

format_kind-end :
    (f : Formatting)
    → format_kind (classify (codes "---")) f (codes "---") ≡ some (at_state general f.formatted)
unfolding format_kind classify match
format_kind-end f = refl

format_removals :
    (path : Text) (rs : List Removal) (out : List Text)
    → All IsRemoval rs
    → format_lines (at_state (removing path) out) (map (λ r. r.line) rs)
      ≡ some (at_state (removing path) (out ++ map (λ r. superfluous path r.line_no r.include) rs))
format_removals path [] out h = rw append-nil (unfold format_lines in refl)
format_removals path (r ∷ rs) out ((plain, found), h) =
    format_lines-cons r.line (map (λ r. r.line) rs) _ _
      (rw plain (unfold format_kind in rw (remove_message-found path r found)))
    ∙ format_removals path rs (out ++ (superfluous path r.line_no r.include ∷ [])) h
    ∙ ap (λ t. some (at_state (removing path) t)) (append_assoc out _ _)

format_listing :
    (path : Text) (lines : List Text) (out : List Text)
    → All IsPlain lines
    → format_lines (at_state (listing path) out) lines ≡ some (at_state (listing path) out)
format_listing path [] out h = unfold format_lines in refl
format_listing path (line ∷ lines) out (plain, h) =
    format_lines-cons line lines _ _ (rw plain (unfold format_kind in refl))
    ∙ format_listing path lines out h

-- A body and the line that ends it.
format_body :
    (body : List Text) (last : Text) (f g h : Formatting)
    → format_lines f body ≡ some g
    → format_kind (classify last) g last ≡ some h
    → format_lines f (body ++ (last ∷ [])) ≡ some h
format_body body last f g h e k =
    format_lines-append body (last ∷ []) f
    ∙ ap (λ o. bind_formatting o (λ f'. format_lines f' (last ∷ []))) e
    ∙ format_lines-cons last [] g h k
    ∙ unfold format_lines in refl

format_block :
    (b : Block) (s : State) (out : List Text)
    → IsReadable b
    → format_lines (at_state s out) (render b)
      ≡ some (at_state (state_after s b) (out ++ messages b))
unfolding format_lines
format_block (note path) s out h =
    format_lines-cons (correct_line path) [] (at_state s out)
      (at_state s (out ++ (correct_message path ∷ [])))
      (rw (classify-correct path h) (unfold format_kind in refl))
format_block (additions path lines) s out (h, plain) =
    format_lines-cons (add_header path) _ _ (at_state (adding path) out)
      (rw (classify-should_add path h) (unfold format_kind in refl))
    ∙ format_body lines [] _ _ _ (format_additions path lines out plain) (format_kind-blank _)
format_block (removals path rs) s out (h, plain) =
    format_lines-cons (remove_header path) _ _ (at_state (removing path) out)
      (rw (classify-should_remove path h) (unfold format_kind in refl))
    ∙ format_body (map (λ r. r.line) rs) [] _ _ _ (format_removals path rs out plain)
        (format_kind-blank _)
format_block (full path lines) s out (h, plain) =
    format_lines-cons (full_header path) _ _ (at_state (listing path) out)
      (rw h (unfold format_kind in refl))
    ∙ format_body lines (codes "---") _ _ (at_state general out)
        (format_listing path lines out plain) (format_kind-end _)
    ∙ ap (λ t. some (at_state general t)) (sym (append-nil out))

-- A report of any readable blocks in any order, read from any state, gives exactly the messages of
-- its blocks in their order, raises no exception, and leaves the formatter in the state that the
-- last blocks set.
pub format_lines-render :
    (bs : List Block) (s : State) (out : List Text)
    → All IsReadable bs
    → format_lines (at_state s out) (flatten (map render bs))
      ≡ some (at_state (states_after s bs) (out ++ flatten (map messages bs)))
unfolding flatten
format_lines-render [] s out h = unfold format_lines in rw append-nil
format_lines-render (b ∷ bs) s out (readable, h) =
    format_lines-append (render b) (flatten (map render bs)) (at_state s out)
    ∙ ap (λ o. bind_formatting o (λ f. format_lines f (flatten (map render bs))))
        (format_block b s out readable)
    ∙ format_lines-render bs (state_after s b) (out ++ messages b) h
    ∙ ap (λ t. some (at_state (states_after (state_after s b) bs) t)) (append_assoc out _ _)

bind_formatting-none : (o : Option Formatting) → bind_formatting o (λ _. none) ≡ none
bind_formatting-none none = refl
bind_formatting-none (some f) = refl

-- A line behind which the mode is the same: it is empty, or none of the headers matches it.
abbrev pub HasNoHeader : Text → Type 0
HasNoHeader line = (classify line ≡ blank) ⊎ (classify line ≡ other)

format_lines-removing :
    (between post : List Text) (path line : Text) (out : List Text)
    → All HasNoHeader between
    → classify line ≡ other
    → match lines_re line ≡ none
    → format_lines (at_state (removing path) out) (between ++ (line ∷ post)) ≡ none
unfolding format_lines
format_lines-removing [] post path line out keep plain missed =
    rw (plain, remove_message-missed path line missed) refl
format_lines-removing (l ∷ between) post path line out (inl e, keep) plain missed =
    rw e (format_lines-removing between post path line out keep plain missed)
format_lines-removing (l ∷ between) post path line out (inr e, keep) plain missed =
    rw e (elim (Option-cases (remove_message path l)) [
      | inl stops ↦ rw stops refl
      | inr (message, goes_on) ↦
          rw goes_on
            (format_lines-removing between post path line (out ++ (message ∷ [])) keep plain missed)
    ])

-- Behind the header of the lines to remove, with no other header between, a line that is not empty
-- and does not end in ` // lines FIRST-LAST` raises an exception, whatever stands before and behind
-- it.
pub format_lines_no_match :
    (pre between post : List Text) (path line : Text) (f : Formatting)
    → NoNewline path
    → All HasNoHeader between
    → classify line ≡ other
    → match lines_re line ≡ none
    → format_lines f (pre ++ (remove_header path ∷ (between ++ (line ∷ post)))) ≡ none
format_lines_no_match pre between post path line f h keep plain missed =
    format_lines-append pre _ f
    ∙ ap (bind_formatting (format_lines f pre)) (fun_ext fails)
    ∙ bind_formatting-none (format_lines f pre)
  where
    fails :
        (g : Formatting) → format_lines g (remove_header path ∷ (between ++ (line ∷ post))) ≡ none
    fails g =
        format_lines-cons (remove_header path) _ g (at_state (removing path) g.formatted)
          (rw (classify-should_remove path h) (unfold format_kind in refl))
        ∙ format_lines-removing between post path line g.formatted keep plain missed
