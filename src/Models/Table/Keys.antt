-- ===== src/Models/Table/Keys.antt =====
-- Rows with distinct keys, and the rows in order.
use mathlib.Core.Bool.{false≢true}
use mathlib.Core.Option.{some_inj}
use native.Mathlib.Nat.{le_trans}
use sprinter_oss.Prelude.{
  ℕ, ◌≤◌, ◌≡◌, refl, ap, subst, String, Bool, true, false, ◌&&◌, none, some, List, [], ◌∷◌, arith,
  leb, if◌then◌else◌, All, All-map, Bool-cases, inl, inr, sym, ◌∙◌, ◌==◌, string_eq, eq_iff,
  eq_refl,
}
use sprinter_oss.Models.Table.{
  select, find, update_where, count_where, insert, exists, insert_by, order_by, first,
}
use sprinter_oss.Models.Table.Laws.{
  exists-insert, exists-update_where, count_where_none, exists-find, find-exists,
}

module _ {ℓ} {A : Type ℓ} (key : A → String) where
  abbrev pub at_key : String → A → Bool
  at_key k x = key x == k

  -- No two rows have one key.
  abbrev pub Distinct : List A → Type 0
  Distinct [] = Unit {0}
  Distinct (x ∷ xs) = (exists (at_key (key x)) xs ≡ false) × Distinct xs

  pub Distinct-update_where :
      (p : A → Bool) (f : A → A) (keep : (x : A) → key (f x) ≡ key x) (xs : List A)
      → Distinct xs
      → Distinct (update_where p f xs)
  unfolding update_where
  Distinct-update_where p f keep [] d = tt
  Distinct-update_where p f keep (x ∷ xs) d = elim (Bool-cases (p x)) [
    | inl h ↦ rw h (
      rw (keep x) (
          exists-update_where (at_key (key x)) p f (λ y. ap (λ (s : String). s == key x) (keep y))
            xs
          ∙ d.0),
      Distinct-update_where p f keep xs d.1,
    )
    | inr h ↦ rw h (
      exists-update_where (at_key (key x)) p f (λ y. ap (λ (s : String). s == key x) (keep y)) xs
          ∙ d.0,
      Distinct-update_where p f keep xs d.1,
    )
  ]

  pub Distinct-insert :
      (y : A) (xs : List A)
      → Distinct xs
      → exists (at_key (key y)) xs ≡ false
      → Distinct (insert y xs)
  unfolding insert exists
  Distinct-insert y [] d e = (refl, tt)
  Distinct-insert y (x ∷ xs) d e = (
    ground (
      arith,
      exists-insert (at_key (key x)) y xs,
      eq_iff (key y) (key x),
      eq_iff (key x) (key y),
    ),
    Distinct-insert y xs d.1 (ground arith),
  )

  exists-select :
      (q p : A → Bool) (xs : List A) → exists q xs ≡ false → exists q (select p xs) ≡ false
  unfolding exists select
  exists-select q p [] e = refl
  exists-select q p (x ∷ xs) e = ground (arith, exists-select q p xs)

  pub Distinct-select : (p : A → Bool) (xs : List A) → Distinct xs → Distinct (select p xs)
  unfolding select
  Distinct-select p [] d = tt
  Distinct-select p (x ∷ xs) d = elim (Bool-cases (p x)) [
    | inl h ↦ rw h (exists-select (at_key (key x)) p xs d.0, Distinct-select p xs d.1)
    | inr h ↦ rw h (Distinct-select p xs d.1)
  ]

  exists-and :
      (k : String) (p : A → Bool) (xs : List A)
      → exists (at_key k) xs ≡ false
      → exists (λ x. at_key k x && p x) xs ≡ false
  unfolding exists
  exists-and k p [] e = refl
  exists-and k p (x ∷ xs) e = ground (arith, exists-and k p xs)

  -- Among distinct keys the row of a key is the only one that an update of it can reach.
  pub count_where-at_key :
      (k : String) (p : A → Bool) (xs : List A) (x : A)
      → Distinct xs
      → find (at_key k) xs ≡ some x
      → count_where (λ y. at_key k y && p y) xs ≡ (if p x then 1 else 0)
  unfolding count_where find
  count_where-at_key k p [] x d e = absurd (ground arith)
  count_where-at_key k p (y ∷ ys) x d e = elim (Bool-cases (at_key k y)) [
    | inl h ↦
        let same : key y ≡ k = (eq_iff (key y) k).0 h in
        let rest : exists (at_key k) ys ≡ false =
          subst (λ j. exists (at_key j) ys ≡ false) same d.0 in
        ground (arith, count_where_none (λ z. at_key k z && p z) ys (exists-and k p ys rest))
    | inr h ↦ ground (arith, count_where-at_key k p ys x d.1)
  ]

  -- Where no row has a key, an update of it reaches none.
  pub count_where-no_key :
      (k : String) (p : A → Bool) (xs : List A)
      → find (at_key k) xs ≡ none
      → count_where (λ y. at_key k y && p y) xs ≡ 0
  unfolding count_where find
  count_where-no_key k p [] e = refl
  count_where-no_key k p (y ∷ ys) e = ground (arith, count_where-no_key k p ys)

  -- A select that keeps the row of a key leaves it to be found, and one that drops it does not.
  pub find-select :
      (k : String) (p : A → Bool) (xs : List A)
      → Distinct xs
      → find (at_key k) (select p xs)
        ≡ elim (find (at_key k) xs) [ none ↦ none | some x ↦ if p x then some x else none ]
  unfolding find select
  find-select k p [] d = refl
  find-select k p (y ∷ ys) d = elim (Bool-cases (at_key k y)) [
    | inl h ↦
        let same : key y ≡ k = (eq_iff (key y) k).0 h in
        let gone : exists (at_key k) (select p ys) ≡ false =
          exists-select (at_key k) p ys (subst (λ j. exists (at_key j) ys ≡ false) same d.0) in
        ground (arith, exists-find (at_key k) (select p ys) gone)
    | inr h ↦ ground (arith, find-select k p ys d.1)
  ]

  other_key :
      (x y : A) (xs : List A)
      → exists (at_key (key x)) xs ≡ false
      → exists (at_key (key y)) xs ≡ true
      → (key x == key y) ≡ false
  other_key x y xs gone there = elim (Bool-cases (key x == key y)) [
    | inl e ↦ absurd (
        false≢true (
          sym gone
          ∙ subst (λ k. exists (at_key k) xs ≡ true) (sym ((eq_iff (key x) (key y)).0 e)) there))
    | inr e ↦ e
  ]

  -- Among distinct keys every row is the one that its key finds.
  pub find_self : (xs : List A) → Distinct xs → All (λ x. find (at_key (key x)) xs ≡ some x) xs
  unfolding find
  find_self [] d = tt
  find_self (x ∷ xs) d = (
    ground (arith, eq_refl (key x)),
    All-map _
        (λ y (e : find (at_key (key y)) xs ≡ some y). ground (
          arith,
          find-exists (at_key (key y)) xs y e,
          other_key x y xs d.0 (find-exists (at_key (key y)) xs y e),
        ))
        xs (find_self xs d.1),
  )

module _ {ℓ κ} {A : Type ℓ} (key : A → ℕ) (P : A → Type κ) where
  All-insert_by : (x : A) (xs : List A) → P x → All P xs → All P (insert_by key x xs)
  unfolding insert_by
  All-insert_by x [] h a = (h, tt)
  All-insert_by x (y ∷ ys) h a = elim (Bool-cases (leb (key x) (key y))) [
    | inl e ↦ rw e (h, a)
    | inr e ↦ rw e (a.0, All-insert_by x ys h a.1)
  ]

  pub All-order_by : (xs : List A) → All P xs → All P (order_by key xs)
  unfolding order_by
  All-order_by [] a = tt
  All-order_by (x ∷ xs) a = All-insert_by x (order_by key xs) a.0 (All-order_by xs a.1)

module _ {ℓ} {A : Type ℓ} (key : A → ℕ) where
  first-insert_by :
      (x : A) (xs : List A)
      → (y : A) × (first (insert_by key x xs) ≡ some y)
        × (key y ≤ key x)
        × ((m : A) → first xs ≡ some m → key y ≤ key m)
  unfolding insert_by
  first-insert_by x [] = (x, refl, omega arith, λ m e. absurd (ground arith))
  first-insert_by x (y ∷ ys) = elim (Bool-cases (leb (key x) (key y))) [
    | inl e ↦ rw e (x, refl, omega arith, λ m f. ground arith)
    | inr e ↦ rw e (y, refl, ground arith, λ m f. ground arith)
  ]

  pub first-order_by-some :
      (x : A) (xs : List A) → (y : A) × (first (order_by key (x ∷ xs)) ≡ some y)
  unfolding order_by
  first-order_by-some x xs = let r = first-insert_by x (order_by key xs) in (r.0, r.1)

  -- The first row in order has the least key.
  pub first-order_by :
      (xs : List A) (x : A) → first (order_by key xs) ≡ some x → All (λ y. key x ≤ key y) xs
  unfolding order_by
  first-order_by [] x e = tt
  first-order_by (y ∷ []) x e =
      let r = first-insert_by y [] in
      let same : x ≡ r.0 = some_inj.0 (sym e ∙ r.1) in
      subst (λ t. All (λ w. key t ≤ key w) (y ∷ [])) (sym same) (r.2, tt)
  first-order_by (y ∷ z ∷ zs) x e =
      let r = first-insert_by y (order_by key (z ∷ zs)) in
      let m = first-order_by-some z zs in
      let same : x ≡ r.0 = some_inj.0 (sym e ∙ r.1) in
      let low : key r.0 ≤ key m.0 = r.3 m.0 m.1 in
      subst (λ t. All (λ w. key t ≤ key w) (y ∷ z ∷ zs)) (sym same)
        (
          r.2,
          All-map _ (λ w (h : key m.0 ≤ key w). le_trans low h) (z ∷ zs)
              (first-order_by (z ∷ zs) m.0 m.1),
        )
