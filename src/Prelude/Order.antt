-- ===== src/Prelude/Order.antt =====
-- order_by and limit of a query. Rows that the order does not tell apart keep the order of the table.
use Prim.Native.Nat.{ℕ, zero, suc, ◌≤◌}
use mathlib.Core.Path.{◌≡◌, refl, sym, ap, ◌∙◌}
use mathlib.Core.Logic.{◌⊎◌, inl, inr}
use mathlib.Core.Bool.{Bool, true, false, ◌&&◌}
use mathlib.Core.List.{List, [], ◌∷◌, ◌++◌, Perm}
use mathlib.Core.List.Perm
use native.Mathlib.Omega.{arith}
use mytenancyplus.Prelude.Tests.{if◌then◌else◌, Bool-cases}
use mytenancyplus.Prelude.Tables.{select, count_where, take, length, All, All-map}

module _ {A : Type 0} (before : A → A → Bool) where
  insert : A → List A → List A
  insert x [] = x ∷ []
  insert x (y ∷ ys) = let later = y ∷ insert x ys in if before x y then x ∷ y ∷ ys else later

  -- .order_by(...)
  unfoldable pub order_by : List A → List A
  unfolding insert
  order_by [] = []
  order_by (x ∷ xs) = insert x (order_by xs)

  -- Each row is before all that come after it.
  abbrev pub IsOrdered : List A → Type 0
  IsOrdered [] = Unit
  IsOrdered (x ∷ xs) = All (λ y. before x y ≡ true) xs × IsOrdered xs

  -- The order is total and transitive.
  pub record IsOrder : Type 0 where
    pub total : (x y : A) → before x y ≡ false → before y x ≡ true
    pub trans : (x y z : A) → before x y ≡ true → before y z ≡ true → before x z ≡ true

  insert-perm : (x : A) (ys : List A) → Perm (insert x ys) (x ∷ ys)
  unfolding insert
  insert-perm x [] = Perm.rfl
  insert-perm x (y ∷ ys) = elim (Bool-cases (before x y)) [
    | inl e ↦ rw e Perm.rfl
    | inr e ↦ rw e (Perm.trans (Perm.cons y (insert-perm x ys)) (Perm.swap x y ys))
  ]

  -- An ordered table has the rows of the table.
  pub order_by-perm : (xs : List A) → Perm (order_by xs) xs
  unfolding order_by
  order_by-perm [] = Perm.rfl
  order_by-perm (x ∷ xs) = Perm.trans (insert-perm x (order_by xs)) (Perm.cons x (order_by-perm xs))

  count_where-insert :
      (q : A → Bool) (x : A) (ys : List A) → count_where q (insert x ys) ≡ count_where q (x ∷ ys)
  unfolding insert
  count_where-insert q x [] = refl
  count_where-insert q x (y ∷ ys) = elim (Bool-cases (before x y)) [
    | inl e ↦ rw e refl
    | inr e ↦ rw e (ground (arith, count_where-insert q x ys))
  ]

  pub count_where-order_by :
      (q : A → Bool) (xs : List A) → count_where q (order_by xs) ≡ count_where q xs
  unfolding order_by
  count_where-order_by q [] = refl
  count_where-order_by q (x ∷ xs) =
      count_where-insert q x (order_by xs)
      ∙ ap (λ n. if q x then suc n else n) (count_where-order_by q xs)

  pub length-order_by : (xs : List A) → length (order_by xs) ≡ length xs
  length-order_by xs =
      sym (count_where-all (order_by xs))
      ∙ (count_where-order_by (λ _. true) xs ∙ count_where-all xs)
    where
      count_where-all : (ys : List A) → count_where (λ _. true) ys ≡ length ys
      count_where-all [] = refl
      count_where-all (y ∷ ys) = ap suc (count_where-all ys)

  All-insert : (P : A → Type 0) (x : A) (ys : List A) → P x → All P ys → All P (insert x ys)
  unfolding insert
  All-insert P x [] p h = (p, tt)
  All-insert P x (y ∷ ys) p (q, h) = elim (Bool-cases (before x y)) [
    | inl e ↦ rw e (p, (q, h))
    | inr e ↦ rw e (q, All-insert P x ys p h)
  ]

  insert-IsOrdered : IsOrder → (x : A) (ys : List A) → IsOrdered ys → IsOrdered (insert x ys)
  unfolding insert
  insert-IsOrdered o x [] h = (tt, tt)
  insert-IsOrdered o x (y ∷ ys) (below, h) = elim (Bool-cases (before x y)) [
    | inl e ↦ rw e ((e, All-map ys below (λ z b. o.trans x y z e b)), (below, h))
    | inr e ↦
        rw e (
          All-insert (λ z. before y z ≡ true) x ys (o.total x y e) below,
          insert-IsOrdered o x ys h,
        )
  ]

  pub All-order_by : (P : A → Type 0) (xs : List A) → All P xs → All P (order_by xs)
  unfolding order_by
  All-order_by P [] h = tt
  All-order_by P (x ∷ xs) h = All-insert P x (order_by xs) h.0 (All-order_by P xs h.1)

  pub order_by-IsOrdered : IsOrder → (xs : List A) → IsOrdered (order_by xs)
  unfolding order_by
  order_by-IsOrdered o [] = tt
  order_by-IsOrdered o (x ∷ xs) = insert-IsOrdered o x (order_by xs) (order_by-IsOrdered o xs)

  -- A page of a table: with the rest of it, in order, it makes up the rows, and there is a rest only
  -- if the page is full.
  pub record IsPage (limit : ℕ) (rows page : List A) : Type 0 where
    pub rest : List A
    pub same_rows : Perm (page ++ rest) rows
    pub ordered : IsOrdered (page ++ rest)
    pub bounded : length page ≤ limit
    pub full : (rest ≡ []) ⊎ (length page ≡ limit)

  -- A list of a table: its rows, in order.
  pub record IsListing (rows listing : List A) : Type 0 where
    pub same_rows : Perm listing rows
    pub ordered : IsOrdered listing

  pub order_by-IsListing : IsOrder → (rows : List A) → IsListing rows (order_by rows)
  order_by-IsListing o rows = record {
    same_rows = order_by-perm rows;
    ordered = order_by-IsOrdered o rows;
  }

-- What a limit leaves out.
drop {ℓ} : {A : Type ℓ} → ℕ → List A → List A
drop zero xs = xs
drop (suc n) [] = []
drop (suc n) (x ∷ xs) = drop n xs

module _ {A : Type 0} where
  take-append-drop : (n : ℕ) (xs : List A) → take n xs ++ drop n xs ≡ xs
  unfolding drop
  take-append-drop zero xs = refl
  take-append-drop (suc n) [] = refl
  take-append-drop (suc n) (x ∷ xs) = ap (◌∷◌ x) (take-append-drop n xs)

  pub length-take_le : (n : ℕ) (xs : List A) → length (take n xs) ≤ n
  length-take_le zero xs = omega arith
  length-take_le (suc n) [] = omega arith
  length-take_le (suc n) (x ∷ xs) = omega (arith, length-take_le n xs)

  take_full : (n : ℕ) (xs : List A) → (drop n xs ≡ []) ⊎ (length (take n xs) ≡ n)
  unfolding drop
  take_full zero xs = inr refl
  take_full (suc n) [] = inl refl
  take_full (suc n) (x ∷ xs) = elim (take_full n xs) [ inl e ↦ inl e | inr e ↦ inr (ap suc e) ]

  pub All-take : (P : A → Type 0) (n : ℕ) (xs : List A) → All P xs → All P (take n xs)
  All-take P zero xs h = tt
  All-take P (suc n) [] h = tt
  All-take P (suc n) (x ∷ xs) h = (h.0, All-take P n xs h.1)

  pub count_where-take_le :
      (q : A → Bool) (n : ℕ) (xs : List A) → count_where q (take n xs) ≤ count_where q xs
  count_where-take_le q zero xs = omega arith
  count_where-take_le q (suc n) [] = omega arith
  count_where-take_le q (suc n) (x ∷ xs) = ground (arith, count_where-take_le q n xs)

  -- .order_by(...).limit(n)
  pub take-IsPage :
      (before : A → A → Bool) (limit : ℕ) (rows : List A)
      → IsOrder before
      → IsPage before limit rows (take limit (order_by before rows))
  take-IsPage before limit rows o = record {
    rest = drop limit (order_by before rows);
    same_rows = rw take-append-drop (order_by-perm before rows);
    ordered = rw take-append-drop (order_by-IsOrdered before o rows);
    bounded = length-take_le limit _;
    full = take_full limit _;
  }

  -- A query with one condition more is a query of the rows of the first.
  pub select-select :
      (p q : A → Bool) (xs : List A) → select (λ x. p x && q x) xs ≡ select q (select p xs)
  select-select p q [] = refl
  select-select p q (x ∷ xs) = ground (arith, select-select p q xs)
