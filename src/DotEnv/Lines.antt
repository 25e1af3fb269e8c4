-- ===== src/DotEnv/Lines.antt =====
-- How single lines of a `.env` file are read.
use remote_pc_controller.Prelude.{
  ℕ, suc, Bool, true, false, none, [], ◌∷◌, ◌++◌, ◌≡◌, ◌≢◌, refl, ap, ◌∙◌, ◌==◌, if◌then◌else◌,
  length-append, All, All-append, arith,
}
use remote_pc_controller.Prelude.Dict.{Dict, insert}
use remote_pc_controller.Prelude.Text.{
  Text, is_space, trim_right, trim_onto, trim_space, trim_suffix, ends_with, has_prefix,
}
use remote_pc_controller.Prelude.Trim.{
  trim_right_of_trimmed, trim_right-append, trim_space-append, ends_with-append, ends_with-trimmed,
  drop_last-append, split_once-append,
}
use remote_pc_controller.Errors.{Result, ok}
use remote_pc_controller.DotEnv.{
  ConfigError, newline, carriage_return, double_quote, single_quote, split_lines, before_pair,
  unescape, unescape_in, plain_value, entry, assignment, outside, Parser, parse_line, parse_lines,
}

-- A value that needs no quotes: it is trimmed, and starts with no quotation mark, holds no end of a
-- line, and no comment.
pub record IsPlain (v : Text) : Type 0 where
  pub ne_nil : v ≢ []
  pub trimmed : trim_space v ≡ v
  pub no_quote : (c : ℕ) (rest : Text) → v ≡ c ∷ rest → (c ≢ double_quote) × (c ≢ single_quote)
  pub no_newline : All (λ c. c ≢ newline) v
  pub no_comment : before_pair b' ' b'#' v ≡ none

-- A key: it starts with a character that is no white space and no `#`, is trimmed, and holds
-- neither `=` nor an end of a line.
pub record IsKey (c : ℕ) (k : Text) : Type 0 where
  pub solid : is_space c ≡ false
  pub no_hash : c ≢ b'#'
  pub trimmed : trim_space (c ∷ k) ≡ c ∷ k
  pub no_equals : All (λ d. d ≢ b'=') (c ∷ k)

-- The lines of a text that starts with a whole line.
pub split_lines-line :
    (l rest : Text)
    → All (λ c. c ≢ newline) l
    → split_lines (l ++ newline ∷ rest) ≡ l ∷ split_lines rest
unfolding split_lines
split_lines-line [] rest h = refl
split_lines-line (c ∷ l) rest (p, h) = ground (arith, split_lines-line l rest h)

-- Such a line has nothing to trim.
trimmed-assignment :
    (c : ℕ) (k v : Text)
    → is_space c ≡ false
    → trim_space v ≡ v
    → v ≢ []
    → trim_space (trim_suffix (c ∷ (k ++ b'=' ∷ v)) carriage_return) ≡ c ∷ (k ++ b'=' ∷ v)
unfolding trim_suffix
trimmed-assignment c k v solid trimmed n =
    let tail = trim_right-append (b'=' ∷ []) v (trim_right_of_trimmed v trimmed) n in
    let whole = trim_right-append (c ∷ k) (b'=' ∷ v) tail (λ e. cc) in
    rw (ends_with-trimmed (c ∷ (k ++ b'=' ∷ v)) carriage_return (unfold is_space in refl) whole)
      (trim_space-append c k (b'=' ∷ v) solid tail (λ e. cc))

outside-assignment :
    (i c : ℕ) (k v : Text) (m : Dict Text)
    → IsKey c k
    → trim_space v ≡ v
    → v ≢ []
    → outside i (c ∷ (k ++ b'=' ∷ v)) m ≡ ok (entry (c ∷ k) v m)
unfolding outside assignment has_prefix
outside-assignment i c k v m key trimmed n =
    rw
      (
        trimmed-assignment c k v key.solid trimmed n,
        split_once-append b'=' (c ∷ k) v key.no_equals,
        key.trimmed,
        trimmed,
      )
      (ground (arith, key.no_hash))

entry-plain :
    (k v : Text) (m : Dict Text)
    → IsPlain v
    → entry k v m ≡ record { values = insert k v m; quoted = none }
unfolding entry plain_value
entry-plain k [] m p = absurd (p.ne_nil refl)
entry-plain k (c ∷ v) m p = ground (arith, p.no_quote c v refl, p.no_comment)

entry-quoted :
    (k v : Text) (m : Dict Text)
    → entry k (double_quote ∷ (v ++ double_quote ∷ [])) m
      ≡ record { values = insert k (unescape v) m; quoted = none }
unfolding entry unescape_in ends_with
entry-quoted k v m = rw (drop_last-append v double_quote) (
    ground (
      arith,
      length-append v (double_quote ∷ []),
      ends_with-append (double_quote ∷ v) (double_quote ∷ []) double_quote (λ e. cc),
    ))

-- Whether a text is on one line.
abbrev pub is_one_line : Text → Bool
is_one_line [] = true
is_one_line (c ∷ s) = if c == newline then false else is_one_line s

one_line_chars : (s : Text) → is_one_line s ≡ true → All (λ c. c ≢ newline) s
one_line_chars [] h = tt
one_line_chars (c ∷ s) h = (ground arith, one_line_chars s (ground arith))

-- A text that stands for itself, by its tests.
pub plain_text :
    (c : ℕ) (v : Text)
    → c ≢ double_quote
    → c ≢ single_quote
    → trim_space (c ∷ v) ≡ c ∷ v
    → is_one_line (c ∷ v) ≡ true
    → before_pair b' ' b'#' (c ∷ v) ≡ none
    → IsPlain (c ∷ v)
plain_text c v no_double no_single trimmed one_line no_comment = record {
  ne_nil = λ e. cc;
  trimmed = trimmed;
  no_quote = λ d rest e. (λ q. no_double (ground arith), λ q. no_single (ground arith));
  no_newline = one_line_chars (c ∷ v) one_line;
  no_comment = no_comment;
}

-- The state outside quotes.
abbrev pub parser : Dict Text → Parser
parser m = record { values = m; quoted = none }

-- Reading goes on behind a whole line.
read_line :
    (i : ℕ) (l rest : Text) (m m' : Dict Text)
    → All (λ c. c ≢ newline) l
    → outside i l m ≡ ok (parser m')
    → parse_lines i (split_lines (l ++ newline ∷ rest)) (parser m)
      ≡ parse_lines (suc i) (split_lines rest) (parser m')
unfolding parse_lines parse_line
read_line i l rest m m' one read = rw (split_lines-line l rest one, read) refl

-- A comment or an empty line.
pub skip :
    (l : Text) (rest : Text) (i : ℕ) (m : Dict Text) {r : Result ConfigError Parser}
    → is_one_line l ≡ true
    → outside i l m ≡ ok (parser m)
    → parse_lines (suc i) (split_lines rest) (parser m) ≡ r
    → parse_lines i (split_lines (l ++ newline ∷ rest)) (parser m) ≡ r
skip l rest i m one read behind = read_line i l rest m m (one_line_chars l one) read ∙ behind

-- An assignment without quotes.
pub set :
    (c : ℕ) (k v : Text) (rest : Text) (i : ℕ) (m : Dict Text) {r : Result ConfigError Parser}
    → is_one_line (c ∷ k) ≡ true
    → IsKey c k
    → IsPlain v
    → parse_lines (suc i) (split_lines rest) (parser (insert (c ∷ k) v m)) ≡ r
    → parse_lines i (split_lines ((c ∷ (k ++ b'=' ∷ v)) ++ newline ∷ rest)) (parser m) ≡ r
set c k v rest i m one key plain behind =
    read_line i (c ∷ (k ++ b'=' ∷ v)) rest m (insert (c ∷ k) v m)
      (All-append (λ d. d ≢ newline) (c ∷ k) (b'=' ∷ v) (one_line_chars (c ∷ k) one)
        (ground arith, plain.no_newline))
      (outside-assignment i c k v m key plain.trimmed plain.ne_nil
        ∙ ap ok (entry-plain (c ∷ k) v m plain))
    ∙ behind

-- An assignment in double quotes, on one line.
pub set_quoted :
    (c : ℕ) (k v : Text) (rest : Text) (i : ℕ) (m : Dict Text) {r : Result ConfigError Parser}
    → is_one_line (c ∷ k) ≡ true
    → IsKey c k
    → All (λ d. d ≢ newline) v
    → parse_lines (suc i) (split_lines rest) (parser (insert (c ∷ k) (unescape v) m)) ≡ r
    → parse_lines i
        (split_lines
          ((c ∷ (k ++ b'=' ∷ double_quote ∷ (v ++ double_quote ∷ []))) ++ newline ∷ rest))
        (parser m)
      ≡ r
set_quoted c k v rest i m one key line behind =
    let val = double_quote ∷ (v ++ double_quote ∷ []) in
    read_line i (c ∷ (k ++ b'=' ∷ val)) rest m (insert (c ∷ k) (unescape v) m)
      (All-append (λ d. d ≢ newline) (c ∷ k) (b'=' ∷ val) (one_line_chars (c ∷ k) one)
        (
          ground arith,
          (
            ground arith,
            All-append (λ d. d ≢ newline) v (double_quote ∷ []) line (ground arith, tt),
          ),
        ))
      (outside-assignment i c k val m key
          (trim_space-append double_quote v (double_quote ∷ []) (unfold is_space in refl)
            (unfold trim_right trim_onto is_space in refl) (λ e. cc))
          (λ e. cc)
        ∙ ap ok (entry-quoted (c ∷ k) v m))
    ∙ behind

-- Behind the last line.
pub read_nothing :
    (i : ℕ) (m : Dict Text) → parse_lines i (split_lines []) (parser m) ≡ ok (parser m)
unfolding parse_lines parse_line split_lines outside trim_suffix trim_space ends_with
read_nothing i m = refl
