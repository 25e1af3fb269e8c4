-- ===== src/DotEnv.antt =====
-- The reader of `.env` files: `parseDotEnv` and `readDotEnv` of sentinel/src/config/config.go, which
-- relay/src/config/config.go has line for line.
pub mod Lines
use remote_pc_controller.Prelude.{
  ℕ, suc, ◌+◌, true, false, ◌&&◌, ◌||◌, Option, none, some, List, [], ◌∷◌, ◌++◌, leb, ◌==◌,
  if◌then◌else◌, length,
}
use remote_pc_controller.Prelude.Decimal.{show}
use remote_pc_controller.Prelude.Dict.{Dict, lookup, insert}
use remote_pc_controller.Prelude.Int.{pos}
use remote_pc_controller.Prelude.Text.{
  Text, codes, is_empty, trim_space, trim_suffix, ends_with, drop_last, has_prefix, split_once,
}
use remote_pc_controller.Errors.{Result, ok, err, foreign, and_then, with_prefix}

-- What the callers tell apart: a file that does not exist, and a panic, which ends the program.
pub data ConfigError : Type 0 where
  not_exist panic : ConfigError

abbrev pub newline : ℕ
newline = 10

abbrev pub carriage_return : ℕ
carriage_return = 13

abbrev pub double_quote : ℕ
double_quote = 34

abbrev pub single_quote : ℕ
single_quote = 39

abbrev pub backslash : ℕ
backslash = 92

-- values[key], which is empty for a missing key.
unfoldable pub get : Text → Dict Text → Text
unfolding lookup
get key m = elim (lookup key m) [ some v ↦ v | none ↦ [] ]

-- strings.Split(s, "\n")
unfoldable pub split_lines : Text → List Text
split_lines [] = [] ∷ []
split_lines (c ∷ s) = elim (c == newline) [
  | true ↦ [] ∷ split_lines s
  | false ↦ elim (split_lines s) [ [] ↦ (c ∷ []) ∷ [] | l ∷ ls ↦ (c ∷ l) ∷ ls ]
]

-- strings.ReplaceAll with two characters `a` and `b` for the text, and one for what replaces it.
unfoldable pub replace_pair : ℕ → ℕ → ℕ → Text → Text
replace_pair a b to [] = []
replace_pair a b to (x ∷ []) = x ∷ []
replace_pair a b to (x ∷ y ∷ s) = elim (x == a && y == b) [
  | true ↦ to ∷ replace_pair a b to s
  | false ↦ x ∷ replace_pair a b to (y ∷ s)
]

-- The text before the first `ab`, if there is one: what `strings.Index` finds.
unfoldable pub before_pair : ℕ → ℕ → Text → Option Text
before_pair a b [] = none
before_pair a b (x ∷ []) = none
before_pair a b (x ∷ y ∷ s) = elim (x == a && y == b) [
  | true ↦ some []
  | false ↦ elim (before_pair a b (y ∷ s)) [ some t ↦ some (x ∷ t) | none ↦ none ]
]

-- The two replacements of `\n` and `\r`.
unfoldable pub unescape : Text → Text
unfolding replace_pair
unescape s = replace_pair backslash b'r' carriage_return (replace_pair backslash b'n' newline s)

-- The escapes are read in double quotes only.
unfoldable pub unescape_in : ℕ → Text → Text
unfolding unescape
unescape_in quote s = if quote == double_quote then unescape s else s

-- A value whose closing quote has not come yet: currentKey, currentValue and quoteChar.
pub record Quoted : Type 0 where
  pub key : Text
  pub value : Text
  pub quote : ℕ

-- The variables of the loop; `quoted` is inQuotes with its value.
pub record Parser : Type 0 where
  pub values : Dict Text
  pub quoted : Option Quoted

-- A value without quotes, without the comment behind it.
unfoldable pub plain_value : Text → Text
unfolding before_pair trim_space
plain_value val = elim (before_pair b' ' b'#' val) [ some t ↦ trim_space t | none ↦ val ]

-- The end of the first branch, on the two parts of the line.
unfoldable pub entry : Text → Text → Dict Text → Parser
unfolding plain_value insert ends_with drop_last unescape_in
entry key [] m = record { values = insert key (plain_value []) m; quoted = none }
entry key (c ∷ rest) m =
    if c == double_quote || c == single_quote
    then if leb 2 (length (c ∷ rest)) && ends_with (c ∷ rest) c
      then record { values = insert key (unescape_in c (drop_last rest)) m; quoted = none }
      else record { values = m; quoted = some (record { key = key; value = rest; quote = c }) }
    else record { values = insert key (plain_value (c ∷ rest)) m; quoted = none }

-- The first branch, behind the test for empty lines and comments; `i` is the line's index.
unfoldable pub assignment : ℕ → Option (Text × Text) → Dict Text → Result ConfigError Parser
unfolding entry show trim_space
assignment i none m = err (foreign (codes "invalid .env line " ++ show (pos (i + 1))))
assignment i (some (key, val)) m = ok (entry (trim_space key) (trim_space val) m)

-- The branch outside quotes.
unfoldable pub outside : ℕ → Text → Dict Text → Result ConfigError Parser
unfolding assignment split_once has_prefix trim_suffix trim_space
outside i line m =
    let trimmed = trim_space (trim_suffix line carriage_return) in
    if is_empty trimmed || has_prefix trimmed (codes "#")
    then ok (record { values = m; quoted = none })
    else assignment i (split_once b'=' trimmed) m

-- The branch inside quotes.
unfoldable pub inside : Quoted → Text → Dict Text → Parser
unfolding trim_suffix trim_space ends_with drop_last insert unescape_in
inside q line m =
    let trimmed = trim_suffix line carriage_return in
    let clean = trim_space trimmed in
    if ends_with clean q.quote
    then record {
      values = insert q.key (unescape_in q.quote (q.value ++ newline ∷ drop_last clean)) m;
      quoted = none;
    }
    else record { values = m; quoted = some (record q { value = q.value ++ newline ∷ trimmed }) }

unfoldable pub parse_line : ℕ → Text → Parser → Result ConfigError Parser
unfolding outside inside
parse_line i line s = elim s.quoted [
  | none ↦ outside i line s.values
  | some q ↦ ok (inside q line s.values)
]

-- The loop, from the line with index `i` on.
unfoldable pub parse_lines : ℕ → List Text → Parser → Result ConfigError Parser
unfolding parse_line
parse_lines i [] s = ok s
parse_lines i (l ∷ ls) s = and_then (parse_line i l s) λ t. parse_lines (suc i) ls t

-- The end of `parseDotEnv`.
unfoldable pub finish : Parser → Result ConfigError (Dict Text)
finish s = elim s.quoted [
  | none ↦ ok s.values
  | some q ↦ err (foreign (codes "unclosed quote for key " ++ q.key))
]

-- parseDotEnv
unfoldable pub parse_dot_env : Text → Result ConfigError (Dict Text)
unfolding parse_lines finish split_lines
parse_dot_env content =
    and_then (parse_lines 0 (split_lines content) (record { values = []; quoted = none })) finish

-- readDotEnv, on what `os.ReadFile` returns.
unfoldable pub read_dot_env : Text → Result ConfigError Text → Result ConfigError (Dict Text)
unfolding parse_dot_env
read_dot_env path file = and_then (with_prefix (codes "read " ++ path) file) parse_dot_env
