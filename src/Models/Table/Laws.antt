-- ===== src/Models/Table/Laws.antt =====
-- What the statements on a table keep, and what they find.
use sprinter_oss.Prelude.{
  ltb, ◌≡◌, refl, subst, Bool, true, false, not, ◌&&◌, none, some, List, [], ◌∷◌, ◌++◌, arith,
  if◌then◌else◌, All, All-append, Bool-cases, inl, inr,
}
use mathlib.Core.Option
use mathlib.Core.Option.{some_inj}
use sprinter_oss.Models.Table.{
  select, find, update_where, update_found, count_where, delete_where, insert, exists, first,
}

module _ {ℓ} {A : Type ℓ} (q : A → Bool) where
  pub find_holds : (xs : List A) (x : A) → find q xs ≡ some x → q x ≡ true
  unfolding find
  find_holds [] x e = cc
  find_holds (y ∷ ys) x e = ground (arith, find_holds ys x)

  -- An update that does not change what `q` looks at, seen by `find q`.
  pub find-update_where :
      (p : A → Bool) (f : A → A) (keep : (x : A) → q (f x) ≡ q x) (xs : List A)
      → find q (update_where p f xs) ≡ Option.map (λ x. if p x then f x else x) (find q xs)
  unfolding find update_where
  find-update_where p f keep [] = refl
  find-update_where p f keep (x ∷ xs) = ground (arith, keep x, find-update_where p f keep xs)

  pub find-insert :
      (y : A) (xs : List A)
      → find q (insert y xs)
        ≡ elim (find q xs) [ none ↦ if q y then some y else none | some x ↦ some x ]
  unfolding find insert
  find-insert y [] = refl
  find-insert y (x ∷ xs) = ground (arith, find-insert y xs)

  pub find-append :
      (xs ys : List A) → find q (xs ++ ys) ≡ elim (find q xs) [ none ↦ find q ys | some x ↦ some x ]
  unfolding find
  find-append [] ys = refl
  find-append (x ∷ xs) ys = ground (arith, find-append xs ys)

  pub find-none_iff_exists : (xs : List A) → find q xs ≡ none → exists q xs ≡ false
  unfolding find exists
  find-none_iff_exists [] e = refl
  find-none_iff_exists (x ∷ xs) e = ground (arith, find-none_iff_exists xs)

  pub exists-find : (xs : List A) → exists q xs ≡ false → find q xs ≡ none
  unfolding find exists
  exists-find [] e = refl
  exists-find (x ∷ xs) e = ground (arith, exists-find xs)

  pub find-exists : (xs : List A) (x : A) → find q xs ≡ some x → exists q xs ≡ true
  unfolding find exists
  find-exists [] x e = cc
  find-exists (y ∷ ys) x e = ground (arith, find-exists ys x)

  pub exists_find-some : (xs : List A) → exists q xs ≡ true → (x : A) × (find q xs ≡ some x)
  unfolding find exists
  exists_find-some [] e = absurd (ground arith)
  exists_find-some (x ∷ xs) e = elim (Bool-cases (q x)) [
    | inl h ↦ (x, rw h)
    | inr h ↦ rw h (exists_find-some xs (ground arith))
  ]

  pub exists-insert :
      (y : A) (xs : List A) → exists q (insert y xs) ≡ (if q y then true else exists q xs)
  unfolding exists insert
  exists-insert y [] = refl
  exists-insert y (x ∷ xs) = ground (arith, exists-insert y xs)

  pub exists-insert_old : (y : A) (xs : List A) → exists q xs ≡ true → exists q (insert y xs) ≡ true
  exists-insert_old y xs e = ground (arith, exists-insert y xs)

  pub exists-insert_new : (y : A) (xs : List A) → q y ≡ true → exists q (insert y xs) ≡ true
  exists-insert_new y xs e = ground (arith, exists-insert y xs)

  pub exists-append :
      (xs ys : List A) → exists q (xs ++ ys) ≡ (if exists q xs then true else exists q ys)
  unfolding exists
  exists-append [] ys = refl
  exists-append (x ∷ xs) ys = ground (arith, exists-append xs ys)

  pub exists-update_where :
      (p : A → Bool) (f : A → A) (keep : (x : A) → q (f x) ≡ q x) (xs : List A)
      → exists q (update_where p f xs) ≡ exists q xs
  unfolding exists update_where
  exists-update_where p f keep [] = refl
  exists-update_where p f keep (x ∷ xs) = ground (arith, keep x, exists-update_where p f keep xs)

  -- An update that makes no new row fit.
  pub exists_of_update_where :
      (p : A → Bool) (f : A → A) (back : (x : A) → q (f x) ≡ true → q x ≡ true) (xs : List A)
      → exists q (update_where p f xs) ≡ true
      → exists q xs ≡ true
  unfolding exists update_where
  exists_of_update_where p f back [] e = e
  exists_of_update_where p f back (x ∷ xs) e =
      ground (arith, back x, exists_of_update_where p f back xs)

  pub exists_of_update_found :
      (p : A → Bool) (f : A → A) (back : (x : A) → p x ≡ true → q (f x) ≡ true → q x ≡ true)
      (xs : List A)
      → exists q (update_found p f xs) ≡ true
      → exists q xs ≡ true
  unfolding exists update_found
  exists_of_update_found p f back [] e = e
  exists_of_update_found p f back (x ∷ xs) e =
      ground (arith, back x, exists_of_update_found p f back xs)

  pub exists_of_select :
      (p : A → Bool) (xs : List A) → exists q (select p xs) ≡ true → exists q xs ≡ true
  unfolding exists select
  exists_of_select p [] e = e
  exists_of_select p (x ∷ xs) e = ground (arith, exists_of_select p xs)

  pub exists_of_insert :
      (y : A) (xs : List A) → exists q (insert y xs) ≡ true → q y ≡ false → exists q xs ≡ true
  exists_of_insert y xs e f = ground (arith, exists-insert y xs)

  pub count_where_none : (xs : List A) → exists q xs ≡ false → count_where q xs ≡ 0
  unfolding exists count_where
  count_where_none [] e = refl
  count_where_none (x ∷ xs) e = ground (arith, count_where_none xs)

  -- There is a row exactly if the count is above 0.
  pub ltb-count_where : (xs : List A) → ltb 0 (count_where q xs) ≡ exists q xs
  unfolding exists count_where
  ltb-count_where [] = ground arith
  ltb-count_where (x ∷ xs) = ground (arith, ltb-count_where xs)

  -- No row is left for which an update was made that ends what it looks for.
  pub count_where-update_where :
      (f : A → A) (ends : (x : A) → q (f x) ≡ false) (xs : List A)
      → count_where q (update_where q f xs) ≡ 0
  unfolding update_where count_where
  count_where-update_where f ends [] = refl
  count_where-update_where f ends (x ∷ xs) =
      ground (arith, ends x, count_where-update_where f ends xs)

module _ {ℓ κ} {A : Type ℓ} (P : A → Type κ) where
  pub All-find : (q : A → Bool) (xs : List A) (x : A) → All P xs → find q xs ≡ some x → P x
  unfolding find
  All-find q [] x a e = absurd (ground arith)
  All-find q (y ∷ ys) x a e = elim (Bool-cases (q y)) [
    | inl h ↦ subst P (ground arith) a.0
    | inr h ↦ All-find q ys x a.1 (ground arith)
  ]

  pub All-update_where :
      (p : A → Bool) (f : A → A) (step : (x : A) → P x → p x ≡ true → P (f x)) (xs : List A)
      → All P xs
      → All P (update_where p f xs)
  unfolding update_where
  All-update_where p f step [] a = tt
  All-update_where p f step (x ∷ xs) a = elim (Bool-cases (p x)) [
    | inl h ↦ rw h (step x a.0 h, All-update_where p f step xs a.1)
    | inr h ↦ rw h (a.0, All-update_where p f step xs a.1)
  ]

  pub All-update_found :
      (p : A → Bool) (f : A → A) (xs : List A)
      → ((x : A) → find p xs ≡ some x → P x → P (f x))
      → All P xs
      → All P (update_found p f xs)
  unfolding update_found find
  All-update_found p f [] step a = tt
  All-update_found p f (x ∷ xs) step a = elim (Bool-cases (p x)) [
    | inl h ↦ rw h (step x (rw h) a.0, a.1)
    | inr h ↦ rw h (a.0, All-update_found p f xs (λ y e. step y (rw h e)) a.1)
  ]

  pub All-insert : (y : A) (xs : List A) → P y → All P xs → All P (insert y xs)
  unfolding insert
  All-insert y xs h a = All-append P xs (y ∷ []) a (h, tt)

  pub All-select : (p : A → Bool) (xs : List A) → All P xs → All P (select p xs)
  unfolding select
  All-select p [] a = tt
  All-select p (x ∷ xs) a = elim (Bool-cases (p x)) [
    | inl h ↦ rw h (a.0, All-select p xs a.1)
    | inr h ↦ rw h (All-select p xs a.1)
  ]

module _ {ℓ} {A : Type ℓ} where
  pub select_holds : (p : A → Bool) (xs : List A) → All (λ x. p x ≡ true) (select p xs)
  unfolding select
  select_holds p [] = tt
  select_holds p (x ∷ xs) = elim (Bool-cases (p x)) [
    | inl h ↦ rw h (h, select_holds p xs)
    | inr h ↦ rw h (select_holds p xs)
  ]

  -- A row that is there and is not among the deleted ones is there after the delete.
  pub exists-delete_where :
      (p q : A → Bool) (xs : List A)
      → exists q xs ≡ true
      → exists (λ x. p x && q x) xs ≡ false
      → exists q (delete_where p xs) ≡ true
  unfolding exists delete_where select
  exists-delete_where p q [] e f = e
  exists-delete_where p q (x ∷ xs) e f = ground (arith, exists-delete_where p q xs)

  pub delete_where_holds : (p : A → Bool) (xs : List A) → All (λ x. p x ≡ false) (delete_where p xs)
  unfolding delete_where select
  delete_where_holds p [] = tt
  delete_where_holds p (x ∷ xs) = elim (Bool-cases (p x)) [
    | inl h ↦ rw h (delete_where_holds p xs)
    | inr h ↦ rw h (h, delete_where_holds p xs)
  ]

  pub select_nonempty :
      (p : A → Bool) (xs : List A)
      → exists p xs ≡ true
      → (y : A) × (ys : List A) × (select p xs ≡ y ∷ ys)
  unfolding select exists
  select_nonempty p [] e = absurd (ground arith)
  select_nonempty p (x ∷ xs) e = elim (Bool-cases (p x)) [
    | inl h ↦ (x, select p xs, rw h)
    | inr h ↦ rw h (select_nonempty p xs (ground arith))
  ]

module _ {ℓ κ} {A : Type ℓ} (P : A → Type κ) where
  -- What holds of the selected rows, as a statement on the table.
  pub All-of_select :
      (p : A → Bool) (xs : List A) → All P (select p xs) → All (λ x. p x ≡ true → P x) xs
  unfolding select
  All-of_select p [] a = tt
  All-of_select p (x ∷ xs) a = elim (Bool-cases (p x)) [
    | inl h ↦ let b : All P (x ∷ select p xs) = (rw h at a) in (λ _. b.0, All-of_select p xs b.1)
    | inr h ↦ (λ e. absurd (ground arith), All-of_select p xs (rw h at a))
  ]

  pub All-first : (xs : List A) (x : A) → All P xs → first xs ≡ some x → P x
  All-first [] x a e = absurd (ground arith)
  All-first (y ∷ ys) x a e = subst P (some_inj.0 e) a.0

  pub All-delete_where : (p : A → Bool) (xs : List A) → All P xs → All P (delete_where p xs)
  unfolding delete_where
  All-delete_where p xs a = All-select P (λ x. not (p x)) xs a

module _ {ℓ κ μ} {A : Type ℓ} {P : A → Type κ} {Q : A → Type μ} {R : A → Type κ} where
  pub All-both : ((x : A) → P x → Q x → R x) → (xs : List A) → All P xs → All Q xs → All R xs
  All-both h [] a b = tt
  All-both h (x ∷ xs) a b = (h x a.0 b.0, All-both h xs a.1 b.1)
