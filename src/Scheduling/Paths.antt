-- ===== src/Scheduling/Paths.antt =====
-- Relative paths as core/scheduling/scheduler.py reads them: _normalize_repo_relative_path, and the
-- components that PurePosixPath gives of its result.
use Prim.Native.Char.{code}
use Prim.Native.String.{String, [], ◌∷◌}
use mathlib.Core.List.{List, [] as nil, ◌∷◌ as cons}
use tandem_agents.Prelude.{◌&&◌, ◌||◌, ◌==◌, str_eq, if◌then◌else◌, strip}

-- s.replace("\\", "/")
backslashes_to_slashes : String → String
backslashes_to_slashes [] = []
backslashes_to_slashes (c ∷ s) =
    let rest = backslashes_to_slashes s in if code c == 92 then "/" ∷ rest else c ∷ rest

-- while text.startswith("./"): text = text[2:]
drop_dots : String → String
drop_dots [] = []
drop_dots (c ∷ []) = c ∷ []
drop_dots (c ∷ d ∷ s) =
    let rest = drop_dots s in if code c == b'.' && code d == b'/' then rest else c ∷ d ∷ s

-- while text.startswith("/"): text = text[1:]
drop_slashes : String → String
drop_slashes [] = []
drop_slashes (c ∷ s) = let rest = drop_slashes s in if code c == b'/' then rest else c ∷ s

unfoldable pub normalize_repo_relative_path : String → String
unfolding backslashes_to_slashes drop_dots drop_slashes
normalize_repo_relative_path value = drop_slashes (drop_dots (backslashes_to_slashes (strip value)))

-- s.split("/"), the characters before the first separator in front.
split_slashes : String → String × List String
split_slashes [] = ("", nil)
split_slashes (c ∷ s) =
    let (first, rest) = split_slashes s in
    if code c == b'/' then ("", cons first rest) else (c ∷ first, rest)

-- "" and "." are no components.
proper : List String → List String
proper nil = nil
proper (cons p ps) =
    let rest = proper ps in if str_eq p "" || str_eq p "." then rest else cons p rest

-- PurePosixPath(text).parts of a text that does not start with a slash.
unfoldable pub parts : String → List String
unfolding split_slashes proper
parts text = let (first, rest) = split_slashes text in proper (cons first rest)
