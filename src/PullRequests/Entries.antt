-- ===== src/PullRequests/Entries.antt =====
-- core/integrations/github_mcp.py: normalize_status_key and the entries of a list of checks at any
-- depth, and what the states of a pull request read of a JSON value.
use Prim.Native.Char.{Char, code}
use Prim.Native.String.{[] as empty, ◌∷◌ as char}
use tandem_agents.Prelude.{
  String, Bool, true, false, not, ◌&&◌, ◌||◌, List, [], ◌∷◌, str_eq, leb, ◌==◌, if◌then◌else◌, any,
  strip, lower, strip_by,
}
use tandem_agents.Verification.Json.{
  Json, Items, Fields, null, boolean, number, text, array, object, nil, cons, end, field,
  append_items,
}

is_key_char : Char → Bool
is_key_char c = (leb b'0' (code c) && leb (code c) b'9') || (leb b'a' (code c) && leb (code c) b'z')

-- re.sub(r"[^a-z0-9]+", "_", s); the flag says that the last character was replaced
underscores : Bool → String → String
unfolding is_key_char
underscores run empty = empty
underscores run (char c s) =
    let kept = char c (underscores false s) in
    let replaced = if run then underscores true s else char "_" (underscores true s) in
    if is_key_char c then kept else replaced

is_underscore : Char → Bool
is_underscore c = code c == b'_'

unfoldable pub normalize_status_key : String → String
unfolding underscores strip lower strip_by is_underscore
normalize_status_key s = strip_by is_underscore (underscores false (lower (strip s)))

unfoldable pub one_of : List String → String → Bool
unfolding any
one_of words s = any (str_eq s) words

dicts_of : Items → Items
dicts_of nil = nil
dicts_of (cons (object d) xs) = cons (object d) (dicts_of xs)
dicts_of (cons null xs) = dicts_of xs
dicts_of (cons (boolean b) xs) = dicts_of xs
dicts_of (cons (number z s) xs) = dicts_of xs
dicts_of (cons (text s) xs) = dicts_of xs
dicts_of (cons (array ys) xs) = dicts_of xs

abbrev pub check_keys : List String
check_keys =
    "checks" ∷ "check_runs" ∷ "checkRuns" ∷ "checkSuites" ∷ "statusCheckRollup"
    ∷ "status_check_rollup" ∷ "nodes" ∷ "items" ∷ []

-- The entries under a key, of a dictionary whose values were flattened.
entries_at : String → List (String × Items) → Items
entries_at k [] = nil
entries_at k ((j, xs) ∷ d) = let rest = entries_at k d in if str_eq k j then xs else rest

entries_at_all : List String → List (String × Items) → Items
unfolding entries_at append_items
entries_at_all [] d = nil
entries_at_all (k ∷ ks) d = append_items (entries_at k d) (entries_at_all ks d)

-- _flatten_check_entries: the entries of a list, or of the lists under the known keys, at any depth.
unfoldable mutual
  unfolding dicts_of entries_at_all

  pub flatten_check_entries : Json → Items
  flatten_check_entries (array xs) = dicts_of xs
  flatten_check_entries (object d) = entries_at_all check_keys (flatten_values d)
  flatten_check_entries null = nil
  flatten_check_entries (boolean b) = nil
  flatten_check_entries (number z s) = nil
  flatten_check_entries (text s) = nil

  pub flatten_values : Fields → List (String × Items)
  flatten_values end = []
  flatten_values (field k v d) = (k, flatten_check_entries v) ∷ flatten_values d

unfoldable pub fields_of : Json → Fields
fields_of (object d) = d
fields_of null = end
fields_of (boolean b) = end
fields_of (number z s) = end
fields_of (text s) = end
fields_of (array xs) = end

unfoldable pub is_dict : Json → Bool
is_dict (object d) = true
is_dict null = false
is_dict (boolean b) = false
is_dict (number z s) = false
is_dict (text s) = false
is_dict (array xs) = false

unfoldable pub is_false : Json → Bool
is_false (boolean b) = not b
is_false null = false
is_false (number z s) = false
is_false (text s) = false
is_false (array xs) = false
is_false (object d) = false

unfoldable pub items_of : Json → Items
items_of (array xs) = xs
items_of null = nil
items_of (boolean b) = nil
items_of (number z s) = nil
items_of (text s) = nil
items_of (object d) = nil

abbrev pub failure_words : List String
failure_words = "failure" ∷ "failed" ∷ "error" ∷ "cancelled" ∷ "canceled" ∷ "timed_out" ∷ []

abbrev pub success_words : List String
success_words = "success" ∷ "successful" ∷ "passed" ∷ "pass" ∷ []

abbrev pub pending_words : List String
pending_words = "pending" ∷ "queued" ∷ "in_progress" ∷ "running" ∷ "waiting" ∷ []
