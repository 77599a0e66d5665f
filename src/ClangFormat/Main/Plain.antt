-- ===== src/ClangFormat/Main/Plain.antt =====
-- The loop of `main` writes the same texts with colours and without.
use for_montee.Base.{
  ◌≡◌, refl, ap, ◌∙◌, sym, false, List, [], ◌∷◌, ◌++◌, map, map-append, Text, All, Bool-cases, inl,
  inr,
}
use for_montee.ClangFormat.Colors.Plain.{plain, NoEscape, map-plain-print_diff}
use for_montee.ClangFormat.Diff.{Outcome, done, diff_error, unexpected_error}
use for_montee.ClangFormat.Trouble.{Printing, message_text, unexpected_text}
use for_montee.ClangFormat.Trouble.Plain.{plain-print_trouble}
use for_montee.ClangFormat.Main.{Loop, raise_diff, on_done, on_result, consume}

abbrev pub uncolored : Printing → Printing
uncolored p = record p { colored_stdout = false; colored_stderr = false }

-- The diff has no escape character of its own.
abbrev pub IsClear : Outcome → Type 0
IsClear (done outs errs) = All NoEscape outs
IsClear _ = Unit

-- The same, but for escape sequences in what is written.
pub record Alike (s t : Loop) : Type 0 where
  pub stdouts : map plain s.stdout ≡ map plain t.stdout
  pub stderrs : map plain s.stderr ≡ map plain t.stderr
  pub retcodes : s.retcode ≡ t.retcode
  pub ends : s.terminated ≡ t.terminated

append-plain :
    (a b c d : List Text)
    → map plain a ≡ map plain b
    → map plain c ≡ map plain d
    → map plain (a ++ c) ≡ map plain (b ++ d)
append-plain a b c d e f = simp map-append (rw (e, f) refl)

module _ (p : Printing) (clear_name : NoEscape p.prog) where
  on_done-Alike :
      (s t : Loop) (outs errs : List Text)
      → All NoEscape outs
      → Alike s t
      → Alike (on_done p s outs errs) (on_done (uncolored p) t outs errs)
  unfolding on_done
  on_done-Alike s t [] errs clear a = record {
    stdouts = a.stdouts;
    stderrs = append-plain s.stderr t.stderr errs errs a.stderrs refl;
    retcodes = a.retcodes;
    ends = a.ends;
  }
  on_done-Alike s t (l ∷ ls) errs clear a =
      let shown = append-plain s.stdout t.stdout _ _ a.stdouts (
        map-plain-print_diff (l ∷ ls) p.colored_stdout clear
        ∙ sym (map-plain-print_diff (l ∷ ls) false clear)) in
      record {
        stdouts = elim (Bool-cases p.quiet) [
          | inl quiet ↦ rw quiet (a.stdouts)
          | inr loud ↦ rw loud shown
        ];
        stderrs = append-plain s.stderr t.stderr errs errs a.stderrs refl;
        retcodes = ap raise_diff a.retcodes;
        ends = a.ends;
      }

  on_result-Alike :
      (s t : Loop) (o : Outcome)
      → IsClear o
      → Alike s t
      → Alike (on_result p s o) (on_result (uncolored p) t o)
  unfolding on_result
  on_result-Alike s t (done outs errs) clear a = on_done-Alike s t outs errs clear a
  on_result-Alike s t (diff_error message errs) clear a =
      let line = plain-print_trouble p.prog (message_text p message) p.colored_stderr clear_name in
      record {
        stdouts = a.stdouts;
        stderrs = append-plain s.stderr t.stderr _ _ a.stderrs (ap (λ l. l ∷ map plain errs) line);
        retcodes = refl;
        ends = a.ends;
      }
  on_result-Alike s t (unexpected_error file message) clear a =
      let line =
        plain-print_trouble p.prog (unexpected_text file message) p.colored_stderr clear_name in
      record {
        stdouts = a.stdouts;
        stderrs =
            append-plain s.stderr t.stderr _ _ a.stderrs
              (ap (λ l. l ∷ plain (p.formatted_traceback file message) ∷ []) line);
        retcodes = refl;
        ends = refl;
      }

  pub consume-Alike :
      (os : List Outcome) (s t : Loop)
      → All IsClear os
      → Alike s t
      → Alike (consume p s os) (consume (uncolored p) t os)
  unfolding consume
  consume-Alike [] s t clear a = a
  consume-Alike (o ∷ os) s t (clear, more) a =
      let b = on_result-Alike s t o clear a in
      elim (Bool-cases (on_result (uncolored p) t o).terminated) [
        | inl broken ↦ rw (b.ends, broken) b
        | inr goes_on ↦ rw (b.ends, goes_on) (consume-Alike os _ _ more b)
      ]
