-- ===== src/Shell/Lines.antt =====
-- The words of a line that was put together from words.
use transaction_manager.Shared.{
  ℕ, suc, ◌++◌, false, List, [], ◌∷◌, Bytes, ◌≡◌, ◌≢◌, refl, ap, ◌∙◌, All, arith,
}
use mathlib.Core.List.{append_assoc, append-nil}
use transaction_manager.Shared.Text.{
  codes, str_eq, ℤ, pos, negsuc, print_int, print_nat, is_space, read_sign,
}
use transaction_manager.Shared.Decimal.{
  IsDigit, sign-print_nat, read-print_nat, print_nat-IsDigit, print_int-ne-nil,
}
use transaction_manager.Shell.State.{Command}
use transaction_manager.Shell.Input.{words, word, extract_int, parse_line}
use transaction_manager.Shell.Values.{FitsInt32}

abbrev IsInk : ℕ → Type 0
IsInk c = is_space c ≡ false

-- A text without white space that is not empty.
pub record IsWord (s : Bytes) : Type 0 where
  pub there : s ≢ []
  pub ink : All IsInk s

-- The words with a space between each two.
unfoldable pub spell : List Bytes → Bytes
spell [] = []
spell (w ∷ []) = w
spell (w ∷ v ∷ ws) = w ++ b' ' ∷ spell (v ∷ ws)

-- The rest of a word is taken up to the end of the text, or up to a space.
words-rest : (a : ℕ) (part s : Bytes) → All IsInk s → words (a ∷ part) s ≡ ((a ∷ part) ++ s) ∷ []
unfolding words
words-rest a part [] h = rw (append-nil part)
words-rest a part (c ∷ s) h = rw h.0 (
    words-rest a (part ++ c ∷ []) s h.1
    ∙ ap (λ (x : Bytes). (a ∷ x) ∷ []) (append_assoc part (c ∷ []) s))

words-word :
    (a : ℕ) (part s rest : Bytes)
    → All IsInk s
    → words (a ∷ part) (s ++ b' ' ∷ rest) ≡ ((a ∷ part) ++ s) ∷ words [] rest
unfolding words
words-word a part [] rest h = rw (append-nil part)
words-word a part (c ∷ s) rest h = rw h.0 (
    words-word a (part ++ c ∷ []) s rest h.1
    ∙ ap (λ (x : Bytes). (a ∷ x) ∷ words [] rest) (append_assoc part (c ∷ []) s))

one_word : (w : Bytes) → IsWord w → words [] w ≡ w ∷ []
unfolding words
one_word [] h = absurd (h.there refl)
one_word (c ∷ s) h = rw h.ink.0 (words-rest c [] s h.ink.1)

first_word : (w rest : Bytes) → IsWord w → words [] (w ++ b' ' ∷ rest) ≡ w ∷ words [] rest
unfolding words
first_word [] rest h = absurd (h.there refl)
first_word (c ∷ s) rest h = rw h.ink.0 (words-word c [] s rest h.ink.1)

pub words-spell : (ws : List Bytes) → All IsWord ws → words [] (spell ws) ≡ ws
unfolding spell
words-spell [] h = unfold words in refl
words-spell (w ∷ []) h = one_word w h.0
words-spell (w ∷ v ∷ ws) h =
    first_word w (spell (v ∷ ws)) h.0 ∙ ap (λ us. w ∷ us) (words-spell (v ∷ ws) h.1)

-- What was printed is what `>> cmd.value` reads.
pub extract_int-print_int : (v : ℤ) → FitsInt32 v → extract_int (print_int v) ≡ v
unfolding extract_int print_int
extract_int-print_int (pos n) h = rw (sign-print_nat n) (rw (read-print_nat n) (ground arith))
extract_int-print_int (negsuc n) h = unfold read_sign in rw (read-print_nat (suc n)) (ground arith)

digits-IsInk : (s : Bytes) → All IsDigit s → All IsInk s
digits-IsInk [] h = tt
digits-IsInk (c ∷ s) h = (ground (arith, h.0), digits-IsInk s h.1)

print_int-IsWord : (v : ℤ) → IsWord (print_int v)
unfolding print_int
print_int-IsWord (pos n) = record {
  there = print_int-ne-nil (pos n);
  ink = digits-IsInk (print_nat n) (print_nat-IsDigit n);
}
print_int-IsWord (negsuc n) = record {
  there = print_int-ne-nil (negsuc n);
  ink = (refl, digits-IsInk (print_nat (suc n)) (print_nat-IsDigit (suc n)));
}

-- A line of the input language with its arguments.
pub data Line : Type 0 where
  begin_line commit_line abort_line show_line : Bytes → Line
  read_line : Bytes → Bytes → Line
  write_line : Bytes → Bytes → ℤ → Line

-- The arguments are words, and the value one of 32 bits.
abbrev pub IsLegal : Line → Type 0
IsLegal (begin_line label) = IsWord label
IsLegal (commit_line label) = IsWord label
IsLegal (abort_line label) = IsWord label
IsLegal (show_line name) = IsWord name
IsLegal (read_line label name) = IsWord label × IsWord name
IsLegal (write_line label name v) = IsWord label × IsWord name × FitsInt32 v

abbrev pub spelled : Line → List Bytes
spelled (begin_line label) = codes "BEGIN" ∷ label ∷ []
spelled (commit_line label) = codes "COMMIT" ∷ label ∷ []
spelled (abort_line label) = codes "ABORT" ∷ label ∷ []
spelled (show_line name) = codes "SHOW" ∷ name ∷ []
spelled (read_line label name) = codes "READ" ∷ label ∷ name ∷ []
spelled (write_line label name v) = codes "WRITE" ∷ label ∷ name ∷ print_int v ∷ []

abbrev pub meant : Line → Command
meant (begin_line label) = record {
  op = codes "BEGIN";
  txn_label = label;
  resource_name = [];
  value = pos 0;
}
meant (commit_line label) = record {
  op = codes "COMMIT";
  txn_label = label;
  resource_name = [];
  value = pos 0;
}
meant (abort_line label) = record {
  op = codes "ABORT";
  txn_label = label;
  resource_name = [];
  value = pos 0;
}
meant (show_line name) = record {
  op = codes "SHOW";
  txn_label = [];
  resource_name = name;
  value = pos 0;
}
meant (read_line label name) = record {
  op = codes "READ";
  txn_label = label;
  resource_name = name;
  value = pos 0;
}
meant (write_line label name v) = record {
  op = codes "WRITE";
  txn_label = label;
  resource_name = name;
  value = v;
}

command-IsWord : (s : Bytes) → s ≢ [] → All IsInk s → IsWord s
command-IsWord s there ink = record { there = there; ink = ink }

spelled-IsWord : (l : Line) → IsLegal l → All IsWord (spelled l)
spelled-IsWord (begin_line label) h =
    (command-IsWord (codes "BEGIN") (λ e. cc) (refl, (refl, (refl, (refl, (refl, tt))))), (h, tt))
spelled-IsWord (commit_line label) h = (
  command-IsWord (codes "COMMIT") (λ e. cc) (refl, (refl, (refl, (refl, (refl, (refl, tt)))))),
  (h, tt),
)
spelled-IsWord (abort_line label) h =
    (command-IsWord (codes "ABORT") (λ e. cc) (refl, (refl, (refl, (refl, (refl, tt))))), (h, tt))
spelled-IsWord (show_line name) h =
    (command-IsWord (codes "SHOW") (λ e. cc) (refl, (refl, (refl, (refl, tt)))), (h, tt))
spelled-IsWord (read_line label name) h =
    (command-IsWord (codes "READ") (λ e. cc) (refl, (refl, (refl, (refl, tt)))), (h.0, (h.1, tt)))
spelled-IsWord (write_line label name v) h = (
  command-IsWord (codes "WRITE") (λ e. cc) (refl, (refl, (refl, (refl, (refl, tt))))),
  (h.0, (h.1, (print_int-IsWord v, tt))),
)

-- A line that spells a command, with one space between each two words, is read as that command, if
-- its label and its name are not empty and without white space, and its value is one of 32 bits.
pub parse_line-spelled : (l : Line) → IsLegal l → parse_line (spell (spelled l)) ≡ meant l
unfolding parse_line word str_eq
parse_line-spelled (begin_line label) h =
    rw (words-spell _ (spelled-IsWord (begin_line label) h)) refl
parse_line-spelled (commit_line label) h =
    rw (words-spell _ (spelled-IsWord (commit_line label) h)) refl
parse_line-spelled (abort_line label) h =
    rw (words-spell _ (spelled-IsWord (abort_line label) h)) refl
parse_line-spelled (show_line name) h = rw (words-spell _ (spelled-IsWord (show_line name) h)) refl
parse_line-spelled (read_line label name) h =
    rw (words-spell _ (spelled-IsWord (read_line label name) h)) refl
parse_line-spelled (write_line label name v) h =
    rw (words-spell _ (spelled-IsWord (write_line label name v) h))
      (rw (extract_int-print_int v h.2) refl)
