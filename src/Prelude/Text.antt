-- ===== src/Prelude/Text.antt =====
-- Python's `str` methods on the native texts: strip, lower, replace and lstrip of one character.
use Prim.Native.Nat.{ℕ, zero, suc}
use Prim.Native.Char.{Char, code}
use Prim.Native.String.{String, [], ◌∷◌}
use mathlib.Core.Bool.{Bool, true, false, ◌&&◌, ◌||◌}
use tandem_agents.Prelude.Tests.{◌==◌, leb, if◌then◌else◌}

-- `str.isspace` of one character.
unfoldable pub is_space : Char → Bool
is_space ch =
    let c = code ch in
    (leb 9 c && leb c 13)
    || (leb 28 c && leb c 32)
    || c == 133
    || c == 160
    || c == 5760
    || (leb 8192 c && leb c 8202)
    || c == 8232
    || c == 8233
    || c == 8239
    || c == 8287
    || c == 12288

-- s.lstrip, s.rstrip and s.strip, of the characters that the test accepts.
unfoldable pub lstrip_by : (Char → Bool) → String → String
lstrip_by p [] = []
lstrip_by p (c ∷ s) = let rest = lstrip_by p s in if p c then rest else c ∷ s

is_empty : String → Bool
is_empty [] = true
is_empty (c ∷ s) = false

unfoldable pub rstrip_by : (Char → Bool) → String → String
unfolding is_empty
rstrip_by p [] = []
rstrip_by p (c ∷ s) = let rest = rstrip_by p s in if is_empty rest && p c then [] else c ∷ rest

unfoldable pub strip_by : (Char → Bool) → String → String
unfolding lstrip_by rstrip_by
strip_by p s = rstrip_by p (lstrip_by p s)

unfoldable pub strip : String → String
unfolding is_space strip_by
strip = strip_by is_space

-- Each character of the first text becomes the one at its place in the second.
translate : String → String → Char → Char
translate [] to c = c
translate (a ∷ from) [] c = c
translate (a ∷ from) (b ∷ to) c = if code a == code c then b else translate from to c

-- `str.lower` on the ASCII letters; other characters are kept.
unfoldable pub lower : String → String
unfolding translate
lower [] = []
lower (c ∷ s) = translate "ABCDEFGHIJKLMNOPQRSTUVWXYZ" "abcdefghijklmnopqrstuvwxyz" c ∷ lower s

-- s.replace(":", "/")
unfoldable pub colons_to_slashes : String → String
unfolding translate
colons_to_slashes [] = []
colons_to_slashes (c ∷ s) = translate ":" "/" c ∷ colons_to_slashes s

-- `a or b` on texts: "" is false.
unfoldable pub str_or : String → String → String
str_or [] b = b
str_or (c ∷ a) b = c ∷ a

is_char : ℕ → Char → Bool
is_char n c = code c == n

-- s.lstrip("#")
unfoldable pub lstrip_hash : String → String
unfolding lstrip_by is_char
lstrip_hash = lstrip_by (is_char b'#')

is_alnum : Char → Bool
is_alnum ch =
    let c = code ch in (leb 48 c && leb c 57) || (leb 65 c && leb c 90) || (leb 97 c && leb c 122)

-- re.sub(r"[^A-Za-z0-9]+", "-", s); the flag says that the last character was replaced
squeeze : Bool → String → String
unfolding is_alnum
squeeze run [] = []
squeeze run (c ∷ s) =
    let after_letter = c ∷ squeeze false s in
    let after_other = if run then squeeze true s else "-" ∷ squeeze true s in
    if is_alnum c then after_letter else after_other

-- s[:n]
unfoldable pub prefix : ℕ → String → String
prefix zero s = []
prefix (suc n) [] = []
prefix (suc n) (c ∷ s) = c ∷ prefix n s

-- core `utils.slugify`
unfoldable pub slugify : String → String
unfolding squeeze strip_by is_char lower prefix str_or
slugify value =
    let slug = lower (strip_by (is_char b'-') (squeeze false value)) in
    str_or (strip_by (is_char b'-') (prefix 48 (str_or slug "task"))) "task"
