-- ===== src/Contracts/Paths.antt =====
-- core/task_contract.py: _normalize_text, _coerce_text_list, _normalize_repo_relative_path.
use Prim.Native.Char.{Char, code}
use Prim.Native.String.{[] as empty, ◌∷◌ as char}
use tandem_agents.Prelude.{
  String, Bool, true, false, not, ◌&&◌, ◌||◌, Option, none, some, List, [], ◌∷◌, str_eq, leb, ◌==◌,
  if◌then◌else◌, strip, contains, strip_by,
}
use tandem_agents.Verification.Json.{
  Json, Items, Fields, null, boolean, number, text, array, object, nil, cons, end, field, truthy,
  str,
}

-- The characters of `[A-Za-z0-9._@+-]`.
is_path_char : Char → Bool
is_path_char c =
    (leb b'0' (code c) && leb (code c) b'9')
    || (leb b'a' (code c) && leb (code c) b'z')
    || (leb b'A' (code c) && leb (code c) b'Z')
    || code c == b'.'
    || code c == b'_'
    || code c == b'@'
    || code c == b'+'
    || code c == b'-'

-- What a match goes on with behind a character of a path; `slash` says that a "/" was seen, which
-- belongs to the match only with a character behind it.
path_rest : (slash : Bool) → String → String
unfolding is_path_char
path_rest slash empty = empty
path_rest slash (char c s) =
    let inner = char c (path_rest false s) in
    let behind_slash = path_rest true s in
    if is_path_char c
    then (if slash then char "/" inner else inner)
    else if slash || not (code c == b'/')
    then empty
    else behind_slash

-- The first match of `name(/name)+`, if any.
unfoldable pub path_in : String → Option String
unfolding path_rest is_path_char contains
path_in empty = none
path_in (char c s) =
    let rest = path_in s in
    let match = char c (path_rest false s) in
    if is_path_char c && contains "/" match then some match else rest

up_to_backtick : String → Option String
up_to_backtick empty = none
up_to_backtick (char c s) =
    let rest : Option String = elim (up_to_backtick s) [ none ↦ none | some t ↦ some (char c t) ] in
    if code c == 96 then some empty else rest

-- The first text between backticks that is not empty, if any.
unfoldable pub quoted_in : String → Option String
unfolding up_to_backtick
quoted_in empty = none
quoted_in (char c s) =
    let rest = quoted_in s in
    let match : Option String = elim (up_to_backtick s) [
      | none ↦ rest
      | some t ↦ if str_eq t "" then rest else some t
    ] in
    if code c == 96 then match else rest

slashed : String → String
slashed empty = empty
slashed (char c s) = let rest = slashed s in if code c == 92 then char "/" rest else char c rest

is_quote : Char → Bool
is_quote c = code c == 96 || code c == 39 || code c == 34

-- while text.startswith("./"): text = text[2:]
without_dots : String → String
without_dots empty = empty
without_dots (char c empty) = char c empty
without_dots (char c (char d s)) =
    let rest = without_dots s in
    if code c == b'.' && code d == b'/' then rest else char c (char d s)

unfoldable pub normalize_repo_relative_path : String → String
unfolding slashed strip quoted_in path_in strip_by is_quote without_dots
normalize_repo_relative_path value =
    let s = slashed (strip value) in
    let found : String = elim (quoted_in s) [
      | some t ↦ t
      | none ↦ elim (path_in s) [ some t ↦ t | none ↦ s ]
    ] in
    without_dots (strip_by is_quote (strip found))

module _ (show : Json → String) where
  -- str(value or "").strip()
  unfoldable pub normalize_text : Json → String
  unfolding truthy str strip
  normalize_text v = if truthy v then strip (str show v) else ""

  keep_text : String → List String → List String
  keep_text s rest = if str_eq s "" then rest else s ∷ rest

  texts_of_items : Items → List String
  unfolding normalize_text keep_text
  texts_of_items nil = []
  texts_of_items (cons x xs) = keep_text (normalize_text x) (texts_of_items xs)

  texts_of_values : Fields → List String
  unfolding normalize_text keep_text
  texts_of_values end = []
  texts_of_values (field k v d) = keep_text (normalize_text v) (texts_of_values d)

  unfoldable pub coerce_text_list : Json → List String
  unfolding texts_of_items texts_of_values keep_text normalize_text strip
  coerce_text_list null = []
  coerce_text_list (text s) = keep_text (strip s) []
  coerce_text_list (array xs) = texts_of_items xs
  coerce_text_list (object d) = texts_of_values d
  coerce_text_list (boolean b) = keep_text (normalize_text (boolean b)) []
  coerce_text_list (number z s) = keep_text (normalize_text (number z s)) []
