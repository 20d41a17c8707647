-- ===== src/ExternalActions/Numbers.antt =====
-- core/external_actions/github_pr.py: extract_pr_numbers, with Python's `int` and `str` of a number.
use Prim.Native.Char.{Char, code}
use Prim.Native.String.{◌++◌}
use Prim.Native.String.{[] as empty, ◌∷◌ as char}
use mathlib.Core.List.{◌++◌ as append}
use mathlib.Core.Path.{subst}
use tandem_agents.Prelude.{
  ℕ, zero, suc, ◌+◌, ◌-◌, ◌*◌, ◌/◌, ◌≤◌, String, ◌≡◌, inl, inr, Bool, false, ◌&&◌, Option, none,
  some, List, [], ◌∷◌, arith, ltb, leb, ◌==◌, if◌then◌else◌, Bool-cases, count, any,
  count-append_one, count-zero_of_any, join_with,
}

is_digit : Char → Bool
is_digit c = leb b'0' (code c) && leb (code c) b'9'

-- The state of the scan for `#(\d+)`: outside, after "#", or in a number with its value so far.
pub data Scan : Type 0 where
  outside : Scan
  after_hash : Scan
  in_number : ℕ → Scan

after_char : Char → Scan
after_char c = if code c == b'#' then after_hash else outside

-- The state after a character, and the number that it ends, if any.
scan_char : Scan → Char → Scan × Option ℕ
unfolding is_digit after_char
scan_char outside c = (after_char c, none)
scan_char after_hash c =
    if is_digit c then (in_number (code c - b'0'), none) else (after_char c, none)
scan_char (in_number n) c =
    if is_digit c then (in_number (n * 10 + (code c - b'0')), none) else (after_char c, some n)

scan_end : Scan → List ℕ
scan_end outside = []
scan_end after_hash = []
scan_end (in_number n) = n ∷ []

unfoldable pub numbers_of : Scan → String → List ℕ
unfolding scan_char scan_end
numbers_of s empty = scan_end s
numbers_of s (char c cs) =
    let (s', found) = scan_char s c in
    let rest = numbers_of s' cs in elim found [ none ↦ rest | some n ↦ n ∷ rest ]

-- The loop with `seen`: the numbers in the order of their first mention.
unfoldable pub first_mentions : List ℕ → List ℕ → List ℕ
unfolding any
first_mentions [] found = found
first_mentions (n ∷ ns) found =
    first_mentions ns (if any (λ m. m == n) found then found else append found (n ∷ []))

-- What a task says in text.
pub record TaskText : Type 0 where
  pub title : String
  pub description : String
  pub acceptance_criteria : List String
  pub raw_issue_body : String

unfoldable pub extract_pr_numbers : TaskText → List ℕ
unfolding numbers_of first_mentions join_with
extract_pr_numbers t =
    let all =
      join_with "\n"
        (t.title ∷ t.description ∷ join_with "\n" t.acceptance_criteria ∷ t.raw_issue_body ∷ []) in
    first_mentions (numbers_of outside all) []

digit : ℕ → String
digit n =
    if n == 0
    then "0"
    else if n == 1
    then "1"
    else if n == 2
    then "2"
    else if n == 3
    then "3"
    else if n == 4
    then "4"
    else if n == 5
    then "5"
    else if n == 6
    then "6"
    else if n == 7
    then "7"
    else if n == 8
    then "8"
    else "9"

-- Each round takes a digit off, so that n + 1 rounds are enough.
digits : ℕ → ℕ → String
unfolding digit
digits zero n = ""
digits (suc f) n =
    let high = digits f (n / 10) in if ltb n 10 then digit n else high ++ digit (n - n / 10 * 10)

-- str(n)
unfoldable pub decimal : ℕ → String
unfolding digits
decimal n = digits (suc n) n

once_more :
    (k n : ℕ) (found : List ℕ)
    → count (λ m. m == n) found ≤ 1
    → any (λ m. m == k) found ≡ false
    → count (λ m. m == n) (append found (k ∷ [])) ≤ 1
once_more k n found h e = elim (Bool-cases (k == n)) [
  | inl q ↦
      let same : k ≡ n = ground arith in
      let fresh =
        subst (λ (z : ℕ). count (λ m. m == z) found ≡ 0) same
          (count-zero_of_any (λ m. m == k) found e) in
      ground (arith, count-append_one (λ m. m == n) found k, fresh)
  | inr q ↦ ground (arith, count-append_one (λ m. m == n) found k)
]

-- At most one entry is this number.
first_mentions-once :
    (ns found : List ℕ) (n : ℕ)
    → count (λ m. m == n) found ≤ 1
    → count (λ m. m == n) (first_mentions ns found) ≤ 1
unfolding first_mentions
first_mentions-once [] found n h = h
first_mentions-once (k ∷ ns) found n h = elim (Bool-cases (any (λ m. m == k) found)) [
  | inl e ↦ rw (e, first_mentions) (first_mentions-once ns found n h)
  | inr e ↦
      rw (e, first_mentions)
        (first_mentions-once ns (append found (k ∷ [])) n (once_more k n found h e))
]

-- No pull request is named twice.
pub numbers_once : (t : TaskText) (n : ℕ) → count (λ m. m == n) (extract_pr_numbers t) ≤ 1
unfolding extract_pr_numbers count
numbers_once t n =
    first_mentions-once
      (numbers_of outside (
        join_with "\n"
          (t.title ∷ t.description ∷ join_with "\n" t.acceptance_criteria ∷ t.raw_issue_body ∷ [])))
      [] n (omega arith)
