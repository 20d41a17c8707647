-- ===== src/Prelude/Words.antt =====
-- Python's `in`, `split`, `join`, `len` and `sorted` on the native texts.
use Prim.Native.Nat.{ℕ, suc, Ordering}
use Prim.Native.Char.{code}
use Prim.Native.String as NativeString
use Prim.Native.String.{String, [], ◌∷◌, ◌++◌}
use mathlib.Core.Bool.{Bool, true, false, ◌&&◌}
use mathlib.Core.List.{List, [] as nil, ◌∷◌ as cons}
use tandem_agents.Prelude.Tests.{◌==◌, if◌then◌else◌}

-- s.startswith(m)
unfoldable pub starts_with : String → String → Bool
starts_with [] s = true
starts_with (c ∷ m) [] = false
starts_with (c ∷ m) (d ∷ s) = code c == code d && starts_with m s

-- contains m s is `m in s`.
unfoldable pub contains : String → String → Bool
unfolding starts_with
contains m [] = starts_with m []
contains m (c ∷ s) = let rest = contains m s in if starts_with m (c ∷ s) then true else rest

unfoldable pub text_length : String → ℕ
text_length [] = 0
text_length (c ∷ s) = suc (text_length s)

-- The part before the first separator, and the parts after it.
split_first : ℕ → String → String × List String
split_first sep [] = ("", nil)
split_first sep (c ∷ s) =
    let (first, rest) = split_first sep s in
    if code c == sep then ("", cons first rest) else (c ∷ first, rest)

-- s.split(sep), of a separator of one character.
unfoldable pub split_on : ℕ → String → List String
unfolding split_first
split_on sep s = let (first, rest) = split_first sep s in cons first rest

-- sep.join(parts)
unfoldable pub join_with : String → List String → String
join_with sep nil = ""
join_with sep (cons x nil) = x
join_with sep (cons x (cons y xs)) = x ++ sep ++ join_with sep (cons y xs)

insert_text : String → List String → List String
insert_text x nil = cons x nil
insert_text x (cons y ys) =
    let rest = insert_text x ys in
    elim (NativeString.compare x y) [
      | Ordering.lt ↦ cons x (cons y ys)
      | Ordering.eq ↦ cons y ys
      | Ordering.gt ↦ cons y rest
    ]

-- sorted(set(texts))
unfoldable pub sorted_set : List String → List String
unfolding insert_text
sorted_set nil = nil
sorted_set (cons x xs) = insert_text x (sorted_set xs)
