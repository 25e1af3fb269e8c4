-- ===== src/Sentinel/Saving/Keeping.antt =====
-- What `LoadWithDefaults` gives for each key.
use remote_pc_controller.Prelude.{
  ℕ, suc, Bool, true, false, Option, none, some, List, [], ◌∷◌, ◌++◌, ◌≡◌, refl, ◌==◌, ◌||◌, ◌&&◌,
  leb, length, if◌then◌else◌, arith,
}
use remote_pc_controller.Prelude.Dict.{Dict, lookup, insert, lookup-insert}
use remote_pc_controller.Prelude.Distinct.{IsDistinct, insert-IsDistinct}
use remote_pc_controller.Prelude.Text.{
  Text, codes, is_empty, equal_iff, trim_space, trim_suffix, ends_with, drop_last, has_prefix,
  split_once,
}
use remote_pc_controller.Errors.{ok, and_then-ok, ok-injective}
use remote_pc_controller.DotEnv.{
  newline, carriage_return, double_quote, single_quote, unescape_in, plain_value, entry, assignment,
  outside, inside, Parser, Quoted, parse_line, parse_lines, finish, split_lines, parse_dot_env,
  read_dot_env,
}
use remote_pc_controller.Sentinel.Saving.{merge, default_values, with_defaults, load_with_defaults}

-- The value of a file, or the one that stands in for it.
abbrev pub chosen : Option Text → Option Text → Option Text
chosen none default = default
chosen (some []) default = default
chosen (some (c ∷ v)) default = some (c ∷ v)

lookup-merge :
    (j : Text) (defaults values : Dict Text)
    → IsDistinct values
    → lookup j (merge defaults values) ≡ chosen (lookup j values) (lookup j defaults)
unfolding lookup merge
lookup-merge j defaults [] d = refl
lookup-merge j defaults ((k, []) ∷ values) (fresh, d) =
    ground (arith, lookup-merge j defaults values d, equal_iff k j)
lookup-merge j defaults ((k, c ∷ v) ∷ values) (fresh, d) = ground (
  arith,
  lookup-merge j (insert k (c ∷ v) defaults) values d,
  lookup-insert k j (c ∷ v) defaults,
  equal_iff k j,
)

branch-IsDistinct :
    (test : Bool) (s t : Parser)
    → IsDistinct s.values
    → IsDistinct t.values
    → IsDistinct (if test then s else t).values
branch-IsDistinct true s t hs ht = hs
branch-IsDistinct false s t hs ht = ht

entry-IsDistinct : (k v : Text) (m : Dict Text) → IsDistinct m → IsDistinct (entry k v m).values
unfolding entry
entry-IsDistinct k [] m d = insert-IsDistinct k (plain_value []) m d
entry-IsDistinct k (c ∷ v) m d =
    branch-IsDistinct (c == double_quote || c == single_quote) _ _
      (branch-IsDistinct (leb 2 (length (c ∷ v)) && ends_with (c ∷ v) c) _ _
        (insert-IsDistinct k (unescape_in c (drop_last v)) m d) d)
      (insert-IsDistinct k (plain_value (c ∷ v)) m d)

assignment-IsDistinct :
    (i : ℕ) (parts : Option (Text × Text)) (m : Dict Text) {t : Parser}
    → IsDistinct m
    → assignment i parts m ≡ ok t
    → IsDistinct t.values
unfolding assignment
assignment-IsDistinct i none m d h = cc
assignment-IsDistinct i (some (k, v)) m d h =
    rw (← ok-injective h) (entry-IsDistinct (trim_space k) (trim_space v) m d)

outside-IsDistinct :
    (i : ℕ) (l : Text) (m : Dict Text) {t : Parser}
    → IsDistinct m
    → outside i l m ≡ ok t
    → IsDistinct t.values
unfolding outside
outside-IsDistinct i l m {t} d h = go (is_empty trimmed || has_prefix trimmed (codes "#")) h
  where
    trimmed : Text
    trimmed = trim_space (trim_suffix l carriage_return)

    go :
        (skipped : Bool)
        → (if skipped
            then ok (record { values = m; quoted = none })
            else assignment i (split_once b'=' trimmed) m)
          ≡ ok t
        → IsDistinct t.values
    go true q = rw (← ok-injective q) d
    go false q = assignment-IsDistinct i (split_once b'=' trimmed) m d q

inside-IsDistinct :
    (q : Quoted) (l : Text) (m : Dict Text) → IsDistinct m → IsDistinct (inside q l m).values
unfolding inside
inside-IsDistinct q l m d =
    branch-IsDistinct (ends_with (trim_space (trim_suffix l carriage_return)) q.quote) _ _
      (insert-IsDistinct q.key
        (unescape_in q.quote
          (q.value ++ newline ∷ drop_last (trim_space (trim_suffix l carriage_return))))
        m d)
      d

parse_line-IsDistinct :
    (i : ℕ) (l : Text) (m : Dict Text) (q : Option Quoted) {t : Parser}
    → IsDistinct m
    → parse_line i l (record { values = m; quoted = q }) ≡ ok t
    → IsDistinct t.values
unfolding parse_line
parse_line-IsDistinct i l m none d h = outside-IsDistinct i l m d h
parse_line-IsDistinct i l m (some q) d h = rw (← ok-injective h) (inside-IsDistinct q l m d)

parse_lines-IsDistinct :
    (i : ℕ) (ls : List Text) (s : Parser) {t : Parser}
    → IsDistinct s.values
    → parse_lines i ls s ≡ ok t
    → IsDistinct t.values
unfolding parse_lines
parse_lines-IsDistinct i [] s d h = rw (← ok-injective h) d
parse_lines-IsDistinct i (l ∷ ls) s d h =
    let (t, first, rest) = and_then-ok (parse_line i l s) _ h in
    parse_lines-IsDistinct (suc i) ls t (parse_line-IsDistinct i l s.values s.quoted d first) rest

-- The values of a file are a map: no key stands twice.
parse_dot_env-IsDistinct :
    (content : Text) {m : Dict Text} → parse_dot_env content ≡ ok m → IsDistinct m
unfolding parse_dot_env finish
parse_dot_env-IsDistinct content h =
    let (s, read, closed) = and_then-ok (parse_lines 0 (split_lines content) _) finish h in
    finished s.quoted s.values
      (parse_lines-IsDistinct 0 (split_lines content) (record { values = []; quoted = none }) tt
        read)
      closed
  where
    finished :
        (q : Option Quoted) (v : Dict Text) {m : Dict Text}
        → IsDistinct v
        → finish (record { values = v; quoted = q }) ≡ ok m
        → IsDistinct m
    finished none v d e = rw (← ok-injective e) d
    finished (some q) v d e = cc

-- For a file that can be parsed, `LoadWithDefaults` returns for each key the file's value, if it
-- is there and not empty, and else the default one.
pub load_with_defaults-chosen :
    (host : Option Text) (path content : Text) (values : Dict Text)
    → parse_dot_env content ≡ ok values
    → (m : Dict Text) × (load_with_defaults host path (ok content) ≡ ok m)
      × ((j : Text) → lookup j m ≡ chosen (lookup j values) (lookup j (default_values host)))
unfolding load_with_defaults with_defaults read_dot_env
load_with_defaults-chosen host path content values h = (
  merge (default_values host) values,
  rw h refl,
  λ j. lookup-merge j (default_values host) values (parse_dot_env-IsDistinct content h),
)
