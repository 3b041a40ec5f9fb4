-- ===== src/Models/Table.antt =====
-- A table as the list of its rows: what the SQL statements of src/sprinter/db.py do to one table.
pub mod Laws
pub mod Keys
use sprinter_oss.Prelude.{
  ℕ, ◌+◌, Bool, true, false, not, Option, none, some, List, [], ◌∷◌, ◌++◌, leb, if◌then◌else◌,
}

module _ {ℓ} {A : Type ℓ} where
  -- `select ... where p`.
  unfoldable pub select : (A → Bool) → List A → List A
  select p [] = []
  select p (x ∷ xs) = let rest = select p xs in if p x then x ∷ rest else rest

  -- The first row of `select ... where p`.
  unfoldable pub find : (A → Bool) → List A → Option A
  find p [] = none
  find p (x ∷ xs) = if p x then some x else find p xs

  -- `update ... where p`.
  unfoldable pub update_where : (A → Bool) → (A → A) → List A → List A
  update_where p f [] = []
  update_where p f (x ∷ xs) = (if p x then f x else x) ∷ update_where p f xs

  -- The assignments to the attributes of the object that `find` gave: its row changes.
  unfoldable pub update_found : (A → Bool) → (A → A) → List A → List A
  update_found p f [] = []
  update_found p f (x ∷ xs) = if p x then f x ∷ xs else x ∷ update_found p f xs

  -- The row count of an update or a delete.
  unfoldable pub count_where : (A → Bool) → List A → ℕ
  count_where p [] = 0
  count_where p (x ∷ xs) = (if p x then 1 else 0) + count_where p xs

  -- `delete ... where p`.
  unfoldable pub delete_where : (A → Bool) → List A → List A
  unfolding select
  delete_where p xs = select (λ x. not (p x)) xs

  -- `insert`: the new row goes to the end.
  unfoldable pub insert : A → List A → List A
  insert x xs = xs ++ x ∷ []

  -- Is there a row with p?
  unfoldable pub exists : (A → Bool) → List A → Bool
  exists p [] = false
  exists p (x ∷ xs) = if p x then true else exists p xs

  insert_by : (A → ℕ) → A → List A → List A
  insert_by key x [] = x ∷ []
  insert_by key x (y ∷ ys) = if leb (key x) (key y) then x ∷ y ∷ ys else y ∷ insert_by key x ys

  -- `order by key`; rows with one key keep the order of insertion.
  unfoldable pub order_by : (A → ℕ) → List A → List A
  unfolding insert_by
  order_by key [] = []
  order_by key (x ∷ xs) = insert_by key x (order_by key xs)

  -- The first row, `limit(1)`.
  abbrev pub first : List A → Option A
  first [] = none
  first (x ∷ xs) = some x
