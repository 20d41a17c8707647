-- ===== src/Prelude/Ordering.antt =====
-- Lengths and predicates of the rows that SELECT and ORDER BY return.
use Prim.Native.Nat.{ℕ, ◌+◌}
use mathlib.Core.Path.{◌≡◌, refl, ◌∙◌}
use mathlib.Core.Bool.{Bool}
use mathlib.Core.List.{List, [], ◌∷◌}
use native.Mathlib.Omega.{arith}
use tandem_agents.Prelude.Tests.{Bool-cases, leb}
use tandem_agents.Prelude.Lists.{All, length}
use tandem_agents.Prelude.Table.{insert_asc, order_asc, insert_desc, order_desc, select, count, any}
use mathlib.Core.Logic.{inl, inr}

module _ {ℓ} {A : Type ℓ} (key : A → ℕ) where
  length-insert_asc : (x : A) (ys : List A) → length (insert_asc key x ys) ≡ length ys + 1
  unfolding insert_asc
  length-insert_asc x [] = omega arith
  length-insert_asc x (y ∷ ys) = ground (arith, length-insert_asc x ys)

  pub length-order_asc : (xs : List A) → length (order_asc key xs) ≡ length xs
  unfolding order_asc
  length-order_asc [] = refl
  length-order_asc (x ∷ xs) =
      omega (arith, length-insert_asc x (order_asc key xs), length-order_asc xs)

  module _ {κ} (P : A → Type κ) where
    All-insert_asc : (x : A) (ys : List A) → P x → All P ys → All P (insert_asc key x ys)
    unfolding insert_asc
    All-insert_asc x [] p h = (p, tt)
    All-insert_asc x (y ∷ ys) p h = elim (Bool-cases (leb (key x) (key y))) [
      | inl e ↦ rw e (p, h)
      | inr e ↦ rw e (h.0, All-insert_asc x ys p h.1)
    ]

    pub All-order_asc : (xs : List A) → All P xs → All P (order_asc key xs)
    unfolding order_asc
    All-order_asc [] h = tt
    All-order_asc (x ∷ xs) h = All-insert_asc x (order_asc key xs) h.0 (All-order_asc xs h.1)

module _ {ℓ} {A : Type ℓ} where
  pub length-select : (p : A → Bool) (xs : List A) → length (select p xs) ≡ count p xs
  unfolding select count
  length-select p [] = refl
  length-select p (x ∷ xs) = ground (arith, length-select p xs)

module _ {ℓ} {A : Type ℓ} (key : A → ℕ) where
  any-insert_asc :
      (p : A → Bool) (x : A) (ys : List A) → any p (insert_asc key x ys) ≡ any p (x ∷ ys)
  unfolding insert_asc any
  any-insert_asc p x [] = refl
  any-insert_asc p x (y ∷ ys) = ground (arith, any-insert_asc p x ys)

  any_cons :
      (p : A → Bool) (x : A) (ys zs : List A)
      → any p ys ≡ any p zs
      → any p (x ∷ ys) ≡ any p (x ∷ zs)
  unfolding any
  any_cons p x ys zs h = rw h refl

  pub any-order_asc : (p : A → Bool) (xs : List A) → any p (order_asc key xs) ≡ any p xs
  unfolding order_asc
  any-order_asc p [] = refl
  any-order_asc p (x ∷ xs) =
      any-insert_asc p x (order_asc key xs)
      ∙ any_cons p x (order_asc key xs) xs (any-order_asc p xs)

  module _ {κ} (P : A → Type κ) where
    All-insert_desc : (x : A) (ys : List A) → P x → All P ys → All P (insert_desc key x ys)
    unfolding insert_desc
    All-insert_desc x [] p h = (p, tt)
    All-insert_desc x (y ∷ ys) p h = elim (Bool-cases (leb (key y) (key x))) [
      | inl e ↦ rw e (p, h)
      | inr e ↦ rw e (h.0, All-insert_desc x ys p h.1)
    ]

    pub All-order_desc : (xs : List A) → All P xs → All P (order_desc key xs)
    unfolding order_desc
    All-order_desc [] h = tt
    All-order_desc (x ∷ xs) h = All-insert_desc x (order_desc key xs) h.0 (All-order_desc xs h.1)
