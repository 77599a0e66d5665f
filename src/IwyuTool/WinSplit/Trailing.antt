-- ===== src/IwyuTool/WinSplit/Trailing.antt =====
-- Backslashes at the end of a command line.
use for_montee.Base.{ℕ, ◌+◌, ◌≡◌, refl, ap, ◌∙◌, sym, false, [], ◌∷◌, ◌++◌, Text, append-nil, arith}
use for_montee.IwyuTool.WinSplit.{
  SplitState, initial, slashes, flush, split_char, split_chars, split_end, win_split,
}
use for_montee.IwyuTool.WinSplit.Quote.{split_chars-slashes}

split_chars-append :
    (cs ds : Text) (s : SplitState) → split_chars s (cs ++ ds) ≡ split_chars (split_chars s cs) ds
unfolding split_chars
split_chars-append [] ds s = refl
split_chars-append (c ∷ cs) ds s = split_chars-append cs ds _

flush-closes : (a : Text) (s : SplitState) → s.arg ≡ a → (flush s).arg ≡ []
flush-closes [] s e = rw e
flush-closes (c ∷ a) s e = rw e

-- A space outside quotation marks leaves no argument open.
blank-closes : (s : SplitState) → s.in_quotes ≡ false → (split_char s b' ').arg ≡ []
unfolding split_char
blank-closes s h =
    ground (arith, flush-closes _ (record s { arg = s.arg ++ slashes s.backslashes }) refl)

split_end-closed :
    (n : ℕ) (s : SplitState)
    → s.arg ≡ []
    → split_end (record s { backslashes = s.backslashes + n }) ≡ split_end s
unfolding split_end
split_end-closed n s h = rw h

-- An argument that is backslashes alone is lost where it stands last: behind a space outside
-- quotation marks, backslashes at the end of the line change nothing.
pub win_split_trailing :
    (cs : Text) (n : ℕ)
    → (split_chars initial cs).in_quotes ≡ false
    → win_split (cs ++ (b' ' ∷ slashes n)) ≡ win_split (cs ++ (b' ' ∷ []))
unfolding win_split split_chars
win_split_trailing cs n outside =
    let s = split_char (split_chars initial cs) b' ' in
    ap split_end (
      split_chars-append cs (b' ' ∷ slashes n) initial
      ∙ ap (split_chars s) (sym (append-nil (slashes n)))
      ∙ split_chars-slashes n s [])
    ∙ split_end-closed n s (blank-closes _ outside)
    ∙ ap split_end (sym (split_chars-append cs (b' ' ∷ []) initial))
