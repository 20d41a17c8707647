-- ===== src/Prelude/TableLaws.antt =====
-- How the statements on a table change counts and predicates of its rows.
use Prim.Native.Nat.{ℕ, ◌+◌, ◌≤◌, ◌<◌}
use mathlib.Core.Path.{◌≡◌, refl, sym, ap, ◌∙◌}
use mathlib.Core.Logic.{◌≢◌, ◌⊎◌, inl, inr}
use mathlib.Core.Bool.{Bool, true, false, ◌&&◌, false≢true}
use mathlib.Core.Option
use mathlib.Core.Option.{none, some, none-ne-some}
use mathlib.Core.List.{List, [], ◌∷◌, ◌++◌}
use native.Mathlib.Omega.{arith}
use tandem_agents.Prelude.Tests.{if◌then◌else◌, Bool-cases}
use tandem_agents.Prelude.Lists.{All, All-map}
use tandem_agents.Prelude.Table.{
  select, fetch_one, count, any, update_where, upsert, insert_desc, order_desc,
}

module _ {ℓ} {A : Type ℓ} where
  -- Rows outside `p` stay outside `p` under the update.
  pub count-update_le :
      (p q : A → Bool) (f : A → A) (xs : List A)
      → ((x : A) → q x ≡ true → p (f x) ≡ true → p x ≡ true)
      → count p (update_where q f xs) ≤ count p xs
  unfolding count update_where
  count-update_le p q f [] h = omega arith
  count-update_le p q f (x ∷ xs) h = ground (arith, h x, count-update_le p q f xs h)

  pub count-update_keep :
      (p q : A → Bool) (f : A → A) (xs : List A)
      → ((x : A) → q x ≡ true → p (f x) ≡ p x)
      → count p (update_where q f xs) ≡ count p xs
  unfolding count update_where
  count-update_keep p q f [] h = refl
  count-update_keep p q f (x ∷ xs) h = ground (arith, h x, count-update_keep p q f xs h)

  -- An update adds at most the rows that it writes.
  pub count-update_add :
      (p q : A → Bool) (f : A → A) (xs : List A)
      → count p (update_where q f xs) ≤ count p xs + count q xs
  unfolding count update_where
  count-update_add p q f [] = omega arith
  count-update_add p q f (x ∷ xs) = ground (arith, count-update_add p q f xs)

  pub count-append_one :
      (p : A → Bool) (xs : List A) (x : A)
      → count p (xs ++ x ∷ []) ≡ count p xs + (if p x then 1 else 0)
  unfolding count
  count-append_one p [] x = ground arith
  count-append_one p (y ∷ ys) x = ground (arith, count-append_one p ys x)

  pub count-zero_of_any : (p : A → Bool) (xs : List A) → any p xs ≡ false → count p xs ≡ 0
  unfolding count any
  count-zero_of_any p [] h = refl
  count-zero_of_any p (x ∷ xs) h = ground (arith, count-zero_of_any p xs)

  pub count-zero_of_fetch : (p : A → Bool) (xs : List A) → fetch_one p xs ≡ none → count p xs ≡ 0
  unfolding count fetch_one
  count-zero_of_fetch p [] h = refl
  count-zero_of_fetch p (x ∷ xs) h = ground (arith, count-zero_of_fetch p xs)

  pub fetch_one-holds : (p : A → Bool) (xs : List A) (x : A) → fetch_one p xs ≡ some x → p x ≡ true
  unfolding fetch_one
  fetch_one-holds p [] x h = ground arith
  fetch_one-holds p (y ∷ ys) x h = ground (arith, fetch_one-holds p ys x)

  pub count_mono :
      (p q : A → Bool) (xs : List A)
      → All (λ x. p x ≡ true → q x ≡ true) xs
      → count p xs ≤ count q xs
  unfolding count
  count_mono p q [] h = omega arith
  count_mono p q (x ∷ xs) h = ground (arith, h.0, count_mono p q xs h.1)

  pub All-update {κ} :
      (P : A → Type κ) (q : A → Bool) (f : A → A) (xs : List A)
      → ((x : A) → q x ≡ true → P x → P (f x))
      → All P xs
      → All P (update_where q f xs)
  unfolding update_where
  All-update P q f [] keep h = tt
  All-update P q f (x ∷ xs) keep h = elim (Bool-cases (q x)) [
    | inl e ↦ rw e (keep x e h.0, All-update P q f xs keep h.1)
    | inr e ↦ rw e (h.0, All-update P q f xs keep h.1)
  ]

  -- A statement that matches no row changes nothing.
  pub update-none :
      (q : A → Bool) (f : A → A) (xs : List A) → count q xs ≡ 0 → update_where q f xs ≡ xs
  unfolding count update_where
  update-none q f [] h = refl
  update-none q f (x ∷ xs) h = ground (arith, update-none q f xs)

  pub All-select {κ} :
      (P : A → Type κ) (q : A → Bool) (xs : List A) → All P xs → All P (select q xs)
  unfolding select
  All-select P q [] h = tt
  All-select P q (x ∷ xs) h = elim (Bool-cases (q x)) [
    | inl e ↦ rw e (h.0, All-select P q xs h.1)
    | inr e ↦ rw e (All-select P q xs h.1)
  ]

  pub select-holds : (q : A → Bool) (xs : List A) → All (λ x. q x ≡ true) (select q xs)
  unfolding select
  select-holds q [] = tt
  select-holds q (x ∷ xs) = elim (Bool-cases (q x)) [
    | inl e ↦ rw e (e, select-holds q xs)
    | inr e ↦ rw e (select-holds q xs)
  ]

  pub All-update_to {κ μ} :
      (P : A → Type κ) (Q : A → Type μ) (q : A → Bool) (f : A → A) (xs : List A)
      → ((x : A) → q x ≡ true → P x → Q (f x))
      → ((x : A) → q x ≡ false → P x → Q x)
      → All P xs
      → All Q (update_where q f xs)
  unfolding update_where
  All-update_to P Q q f [] hit miss h = tt
  All-update_to P Q q f (x ∷ xs) hit miss h = elim (Bool-cases (q x)) [
    | inl e ↦ rw e (hit x e h.0, All-update_to P Q q f xs hit miss h.1)
    | inr e ↦ rw e (miss x e h.0, All-update_to P Q q f xs hit miss h.1)
  ]

  any-select_cons :
      (p q : A → Bool) (x : A) (xs : List A)
      → any q (select p xs) ≡ true
      → any q (select p (x ∷ xs)) ≡ true
  unfolding any select
  any-select_cons p q x xs h = ground arith

  any-select_head :
      (p q : A → Bool) (x : A) (xs : List A)
      → q x ≡ true
      → p x ≡ true
      → any q (select p (x ∷ xs)) ≡ true
  unfolding any select
  any-select_head p q x xs hq hp = ground arith

  -- Every row that the test selects is among the selected ones.
  pub select-covers :
      (p : A → Bool) (same : A → A → Bool)
      → ((x : A) → same x x ≡ true)
      → (xs : List A) → All (λ x. p x ≡ true → any (λ r. same r x) (select p xs) ≡ true) xs
  select-covers p same same_refl [] = tt
  select-covers p same same_refl (x ∷ xs) = (
    any-select_head p (λ r. same r x) x xs (same_refl x),
    All-map _ _ xs (λ y f h. any-select_cons p (λ r. same r y) x xs (f h))
        (select-covers p same same_refl xs),
  )

  pub count-zero_of_select : (p : A → Bool) (xs : List A) → select p xs ≡ [] → count p xs ≡ 0
  unfolding select count
  count-zero_of_select p [] h = refl
  count-zero_of_select p (x ∷ xs) h = ground (arith, count-zero_of_select p xs)

  insert_desc-ne-nil : (key : A → ℕ) (x : A) (ys : List A) → insert_desc key x ys ≢ []
  unfolding insert_desc
  insert_desc-ne-nil key x [] h = cc
  insert_desc-ne-nil key x (y ∷ ys) h = ground arith

  pub nil_of_order_desc : (key : A → ℕ) (xs : List A) → order_desc key xs ≡ [] → xs ≡ []
  unfolding order_desc
  nil_of_order_desc key [] h = refl
  nil_of_order_desc key (x ∷ xs) h = absurd (insert_desc-ne-nil key x (order_desc key xs) h)

  -- The first row of `p`, after an update of the rows of `p` that keeps them in it.
  pub fetch_one-update :
      (p : A → Bool) (f : A → A) (xs : List A)
      → ((x : A) → p x ≡ true → p (f x) ≡ true)
      → fetch_one p (update_where p f xs) ≡ Option.map f (fetch_one p xs)
  unfolding fetch_one update_where
  fetch_one-update p f [] h = refl
  fetch_one-update p f (x ∷ xs) h = ground (arith, h x, fetch_one-update p f xs h)

  fetch_one-append :
      (p : A → Bool) (xs : List A) (x : A)
      → any p xs ≡ false
      → p x ≡ true
      → fetch_one p (xs ++ x ∷ []) ≡ some x
  unfolding fetch_one any
  fetch_one-append p [] x n h = ground arith
  fetch_one-append p (y ∷ ys) x n h = ground (arith, fetch_one-append p ys x)

  fetch_one_of_any :
      (p : A → Bool) (xs : List A) → any p xs ≡ true → (x : A) × (fetch_one p xs ≡ some x)
  unfolding fetch_one any
  fetch_one_of_any p [] h = absurd (false≢true h)
  fetch_one_of_any p (x ∷ xs) h = elim (Bool-cases (p x)) [
    | inl e ↦ (x, rw e)
    | inr e ↦ let (y, f) = fetch_one_of_any p xs (rw e at h) in (y, rw e f)
  ]

  -- An upsert leaves the new row to be found, or the row that was there, updated.
  pub fetch_one-upsert :
      (p : A → Bool) (f : A → A) (row : A) (xs : List A)
      → p row ≡ true
      → ((x : A) → p x ≡ true → p (f x) ≡ true)
      → (fetch_one p (upsert p f row xs) ≡ some row)
        ⊎ ((x : A) × (fetch_one p (upsert p f row xs) ≡ some (f x)))
  unfolding upsert
  fetch_one-upsert p f row xs hr hf = elim (Bool-cases (any p xs)) [
    | inl e ↦
        let (x, g) = fetch_one_of_any p xs e in
        inr (x, rw e (fetch_one-update p f xs hf ∙ ap (Option.map f) g))
    | inr e ↦ inl (rw e (fetch_one-append p xs row e hr))
  ]

  -- A row that is found is counted by every test that it passes.
  pub count-pos_of_fetch :
      (p q : A → Bool) (xs : List A) (x : A) → fetch_one p xs ≡ some x → q x ≡ true → 1 ≤ count q xs
  unfolding fetch_one count
  count-pos_of_fetch p q [] x h t = absurd (cc)
  count-pos_of_fetch p q (y ∷ ys) x h t = elim (Bool-cases (p y)) [
    | inl e ↦ ground arith
    | inr e ↦ omega (arith, count-pos_of_fetch p q ys x (rw e at h) t)
  ]

  -- An update that takes its rows out of the test leaves none.
  pub count-update_none :
      (q : A → Bool) (f : A → A) (xs : List A)
      → ((x : A) → q x ≡ true → q (f x) ≡ false)
      → count q (update_where q f xs) ≡ 0
  unfolding count update_where
  count-update_none q f [] h = refl
  count-update_none q f (x ∷ xs) h = ground (arith, h x, count-update_none q f xs h)

  pub count-and_le : (p q : A → Bool) (xs : List A) → count (λ x. p x && q x) xs ≤ count p xs
  unfolding count
  count-and_le p q [] = omega arith
  count-and_le p q (x ∷ xs) = ground (arith, count-and_le p q xs)

  -- Where `p` is a key, the row that it finds is the one that an update of `p` and `q` wrote.
  pub fetch_one-update_key :
      (p q : A → Bool) (f : A → A) (xs : List A)
      → ((x : A) → p x ≡ true → p (f x) ≡ true)
      → count p xs ≤ 1
      → 0 < count (λ x. p x && q x) xs
      → fetch_one p (update_where (λ x. p x && q x) f xs) ≡ Option.map f (fetch_one p xs)
  unfolding fetch_one update_where count
  fetch_one-update_key p q f [] h u n = refl
  fetch_one-update_key p q f (x ∷ xs) h u n =
      ground (arith, h x, count-and_le p q xs, fetch_one-update_key p q f xs h)

  pub All-update_set {κ} :
      (Q : A → Type κ) (q : A → Bool) (f : A → A) (xs : List A)
      → ((x : A) → q x ≡ true → Q (f x))
      → ((x : A) → q x ≡ false → Q x)
      → All Q (update_where q f xs)
  unfolding update_where
  All-update_set Q q f [] hit miss = tt
  All-update_set Q q f (x ∷ xs) hit miss = elim (Bool-cases (q x)) [
    | inl e ↦ rw e (hit x e, All-update_set Q q f xs hit miss)
    | inr e ↦ rw e (miss x e, All-update_set Q q f xs hit miss)
  ]

  pub All-select_to {κ μ} :
      (P : A → Type κ) (Q : A → Type μ) (q : A → Bool) (xs : List A)
      → ((x : A) → q x ≡ true → P x → Q x)
      → All P xs
      → All Q (select q xs)
  unfolding select
  All-select_to P Q q [] f h = tt
  All-select_to P Q q (x ∷ xs) f h = elim (Bool-cases (q x)) [
    | inl e ↦ rw e (f x e h.0, All-select_to P Q q xs f h.1)
    | inr e ↦ rw e (All-select_to P Q q xs f h.1)
  ]

  pub All-of_fetch_none :
      (p : A → Bool) (xs : List A) → fetch_one p xs ≡ none → All (λ x. p x ≡ false) xs
  unfolding fetch_one
  All-of_fetch_none p [] h = tt
  All-of_fetch_none p (x ∷ xs) h = elim (Bool-cases (p x)) [
    | inl e ↦ absurd (none-ne-some x (sym (rw e at h)))
    | inr e ↦ (e, All-of_fetch_none p xs (rw e at h))
  ]

  -- Each row that passes the test is found by it.
  pub All-any : (p : A → A → Bool) (xs : List A) → All (λ x. p x x ≡ true → any (p x) xs ≡ true) xs
  unfolding any
  All-any p [] = tt
  All-any p (x ∷ xs) =
      (λ h. rw h refl, All-map _ _ xs (λ y f h. ground (arith, f h)) (All-any p xs))

  -- Where `p` is a key, the row of `p` has what any row of `p` has.
  pub All-of_key :
      (p q : A → Bool) (xs : List A)
      → count p xs ≤ 1
      → any (λ x. p x && q x) xs ≡ true
      → All (λ x. p x ≡ true → q x ≡ true) xs
  unfolding any count
  All-of_key p q [] u h = tt
  All-of_key p q (x ∷ xs) u h = elim (Bool-cases (p x)) [
    | inl e ↦ elim (Bool-cases (q x)) [
      | inl f ↦ (λ _. f, none_left p q xs (ground arith))
      | inr f ↦ absurd (no_any p q xs (ground arith) (ground arith))
    ]
    | inr e ↦ (λ n. ground arith, All-of_key p q xs (ground arith) (ground arith))
  ]
    where
      none_left :
          (p q : A → Bool) (ys : List A) → count p ys ≡ 0 → All (λ y. p y ≡ true → q y ≡ true) ys
      none_left p q [] z = tt
      none_left p q (y ∷ ys) z = (λ n. ground arith, none_left p q ys (ground arith))

      no_any : (p q : A → Bool) (ys : List A) → count p ys ≡ 0 → any (λ y. p y && q y) ys ≢ true
      no_any p q [] z h = ground arith
      no_any p q (y ∷ ys) z h = ground (arith, no_any p q ys)

  -- No row passes both tests, where the first excludes the second.
  pub count-none :
      (p q : A → Bool) (xs : List A)
      → All (λ x. p x ≡ true → q x ≡ false) xs
      → count (λ x. p x && q x) xs ≡ 0
  unfolding count
  count-none p q [] h = refl
  count-none p q (x ∷ xs) h = elim (Bool-cases (p x)) [
    | inl e ↦ ground (arith, h.0 e, count-none p q xs h.1)
    | inr e ↦ ground (arith, count-none p q xs h.1)
  ]
