-- ===== src/Indexer/Dotenv.antt =====
-- How the file `.env` of a workspace is read and written: indexer/src/secrets.rs.
pub mod RoundTrip
use kubimo.Common.{
  ℕ, Bool, true, false, ◌&&◌, ◌||◌, Option, none, some, List, [], ◌∷◌, ◌++◌, any, unwrap_or,
  and_then, map, ◌==◌, number_partial_eq, if◌then◌else◌,
}
use kubimo.Common.Text.{
  Text, codes, same_text, strip_prefix, split_once, trim, trim_start, is_whitespace,
}
use kubimo.Common.Text.Lines.{lines}

abbrev pub quote : ℕ
quote = b'"'

abbrev pub backslash : ℕ
backslash = 92

-- `replace("\\\"", "\"")`
unfoldable pub unescape : Text → Text
unescape [] = []
unescape (c ∷ []) = c ∷ []
unescape (c ∷ d ∷ s) =
    let escaped = d ∷ unescape s in
    let plain = c ∷ unescape (d ∷ s) in if (d == quote) && (c == backslash) then escaped else plain

-- `replace('"', "\\\"")`
unfoldable pub escape : Text → Text
escape [] = []
escape (c ∷ s) = let rest = escape s in if c == quote then backslash ∷ quote ∷ rest else c ∷ rest

-- The text before its last character, and that.
unfoldable pub split_last : ℕ → Text → Text × ℕ
split_last c [] = ([], c)
split_last c (d ∷ s) = let (before, last) = split_last d s in (c ∷ before, last)

-- A text of at least two characters loses a pair of outer quotes.
inner : ℕ → Text → ℕ → Text → Text
unfolding unescape
inner c before last value =
    if (c == quote) && (last == quote)
    then unescape before
    else if (c == b'\'') && (last == b'\'')
    then before
    else value

unfoldable pub unquote : Text → Text
unfolding inner split_last
unquote [] = []
unquote (c ∷ []) = c ∷ []
unquote (c ∷ d ∷ s) = let (before, last) = split_last d s in inner c before last (c ∷ d ∷ s)

starts_comment : Text → Bool
starts_comment [] = true
starts_comment (c ∷ s) = c == b'#'

is_blank : Text → Bool
is_blank [] = true
is_blank (c ∷ s) = false

pair_of : Text × Text → Option (Text × Text)
unfolding is_blank unquote
pair_of (key, value) =
    if is_blank (trim key) || any is_whitespace (trim key)
    then none
    else some (trim key, unquote (trim value))

-- The pair on a line, if there is one; `line` is trimmed.
unfoldable pub entry_of : Text → Option (Text × Text)
unfolding starts_comment pair_of
entry_of line =
    if starts_comment line
    then none
    else and_then
        (split_once b'=' (trim_start (unwrap_or (strip_prefix (codes "export ") line) line)))
        pair_of

-- The last value of a key wins, at the place of the first.
unfoldable pub put : Text → Text → List (Text × Text) → List (Text × Text)
put key value [] = (key, value) ∷ []
put key value ((other, v) ∷ entries) =
    let rest = put key value entries in
    if same_text other key then (key, value) ∷ entries else (other, v) ∷ rest

add_line : List (Text × Text) → Option (Text × Text) → List (Text × Text)
unfolding put
add_line entries none = entries
add_line entries (some (key, value)) = put key value entries

unfoldable pub add_lines : List (Text × Text) → List Text → List (Text × Text)
unfolding add_line entry_of
add_lines entries [] = entries
add_lines entries (line ∷ rest) = add_lines (add_line entries (entry_of (trim line))) rest

unfoldable pub parse_dotenv : Text → List (Text × Text)
unfolding add_lines
parse_dotenv content = add_lines [] (lines content)

unfoldable pub rendered_line : Text → Text → Text
unfolding escape
rendered_line key value = key ++ (b'=' ∷ quote ∷ (escape value ++ (quote ∷ [])))

unfoldable pub render_dotenv : List (Text × Text) → Text
unfolding rendered_line
render_dotenv [] = []
render_dotenv ((key, value) ∷ entries) = rendered_line key value ++ (b'\n' ∷ render_dotenv entries)

unfoldable pub render_placeholders : List Text → Text
unfolding render_dotenv
render_placeholders keys = render_dotenv (map (λ key. (key, [])) keys)
