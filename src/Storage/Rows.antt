-- ===== src/Storage/Rows.antt =====
-- The clauses of SQL that the repositories use, on lists of rows in the order of their row ids.
use mail_server_client.Base.{
  ℕ, ◌≡◌, Bool, true, false, ◌||◌, ◌&&◌, Option, none, some, List, [], ◌∷◌, Bytes, ltb, ◌==◌,
  if◌then◌else◌, inl, inr, Bool-cases,
}

module _ {A : Type 0} where
  -- SELECT … WHERE
  unfoldable pub select : (A → Bool) → List A → List A
  select p [] = []
  select p (x ∷ xs) = let rest = select p xs in if p x then x ∷ rest else rest

  -- UPDATE … SET … WHERE
  unfoldable pub update_where : (A → Bool) → (A → A) → List A → List A
  update_where p f [] = []
  update_where p f (x ∷ xs) = (if p x then f x else x) ∷ update_where p f xs

  -- EXISTS (SELECT … WHERE), and ChangedRowCount() > 0 behind an UPDATE
  unfoldable pub exists_where : (A → Bool) → List A → Bool
  exists_where p [] = false
  exists_where p (x ∷ xs) = p x || exists_where p xs

  -- LIMIT 1
  unfoldable pub first_row : List A → Option A
  first_row [] = none
  first_row (x ∷ xs) = some x

  unfoldable pub insert_by : (A → A → Bool) → A → List A → List A
  insert_by le x [] = x ∷ []
  insert_by le x (y ∷ ys) = if le x y then x ∷ y ∷ ys else y ∷ insert_by le x ys

  -- ORDER BY; rows of equal rank keep their order
  unfoldable pub sort_by : (A → A → Bool) → List A → List A
  unfolding insert_by
  sort_by le [] = []
  sort_by le (x ∷ xs) = insert_by le x (sort_by le xs)

  -- Row by row, the relation holds of what was there and what is there now.
  abbrev pub RowByRow : (A → A → Type 0) → List A → List A → Type 0
  RowByRow R [] [] = Unit
  RowByRow R [] (y ∷ ys) = ⊥
  RowByRow R (x ∷ xs) [] = ⊥
  RowByRow R (x ∷ xs) (y ∷ ys) = R x y × RowByRow R xs ys

-- Texts are compared byte by byte (collation BINARY).
unfoldable pub text_le : Bytes → Bytes → Bool
text_le [] ys = true
text_le (x ∷ xs) [] = false
text_le (x ∷ xs) (y ∷ ys) = ltb x y || (x == y && text_le xs ys)

-- id IN (SELECT …)
unfoldable pub in_ids : ℕ → List ℕ → Bool
in_ids n [] = false
in_ids n (i ∷ ids) = n == i || in_ids n ids

module _ {A : Type 0} (R : A → A → Type 0) (same : (a : A) → R a a) where
  -- An UPDATE that moves each row it selects along `R`, moves the table along it.
  pub update_where-RowByRow :
      (p : A → Bool) (f : A → A)
      → ((a : A) → p a ≡ true → R a (f a))
      → (xs : List A) → RowByRow R xs (update_where p f xs)
  unfolding update_where
  update_where-RowByRow p f h [] = tt
  update_where-RowByRow p f h (x ∷ xs) = elim (Bool-cases (p x)) [
    | inl e ↦ (rw e (h x e), update_where-RowByRow p f h xs)
    | inr e ↦ (rw e (same x), update_where-RowByRow p f h xs)
  ]

  pub RowByRow-refl : (xs : List A) → RowByRow R xs xs
  RowByRow-refl [] = tt
  RowByRow-refl (x ∷ xs) = (same x, RowByRow-refl xs)

pub RowByRow-map :
    {A : Type 0} (R S : A → A → Type 0)
    → ((a b : A) → R a b → S a b)
    → (xs ys : List A) → RowByRow R xs ys
    → RowByRow S xs ys
RowByRow-map R S f [] [] r = tt
RowByRow-map R S f [] (y ∷ ys) r = absurd r
RowByRow-map R S f (x ∷ xs) [] r = absurd r
RowByRow-map R S f (x ∷ xs) (y ∷ ys) r = (f x y r.0, RowByRow-map R S f xs ys r.1)

pub RowByRow-trans :
    {A : Type 0} (R : A → A → Type 0)
    → ((a b c : A) → R a b → R b c → R a c)
    → (xs ys zs : List A) → RowByRow R xs ys
    → RowByRow R ys zs
    → RowByRow R xs zs
RowByRow-trans R f [] [] zs r q = q
RowByRow-trans R f [] (y ∷ ys) zs r q = absurd r
RowByRow-trans R f (x ∷ xs) [] zs r q = absurd r
RowByRow-trans R f (x ∷ xs) (y ∷ ys) [] r q = absurd q
RowByRow-trans R f (x ∷ xs) (y ∷ ys) (z ∷ zs) r q =
    (f x y z r.0 q.0, RowByRow-trans R f xs ys zs r.1 q.1)
