-- ===== src/Isolation/Rows.antt =====
-- Queries of the rows of one organization.
use mytenancyplus.Prelude.{
  ◌++◌, ◌∙◌, sym, Bool, true, false, ◌≡◌, refl, ap, Bool-cases, inl, inr, some, List, [], ◌∷◌, suc,
  if◌then◌else◌,
}
use mytenancyplus.Prelude.Tables.{pair_up, join, All, select, scalar, count_where, delete_where}

module _ {A : Type 0} (own query : A → Bool)
    (implied : (x : A) → query x ≡ true → own x ≡ true) where
  not_own : (x : A) → own x ≡ false → query x ≡ false
  not_own x h = elim (Bool-cases (query x)) [ inl e ↦ absurd (cc (h, implied x e)) | inr e ↦ e ]

  -- A query that asks for own rows has the same result of the own rows alone.
  pub select-own : (xs : List A) → select query (select own xs) ≡ select query xs
  select-own [] = refl
  select-own (x ∷ xs) = elim (Bool-cases (own x)) [
    | inl e ↦ rw e (ap (λ rest. if query x then x ∷ rest else rest) (select-own xs))
    | inr e ↦ rw (e, not_own x e) (select-own xs)
  ]

  pub scalar-own : (xs : List A) → scalar query (select own xs) ≡ scalar query xs
  scalar-own [] = refl
  scalar-own (x ∷ xs) = elim (Bool-cases (own x)) [
    | inl e ↦ rw e (ap (λ rest. if query x then some x else rest) (scalar-own xs))
    | inr e ↦ rw (e, not_own x e) (scalar-own xs)
  ]

  pub count_where-own : (xs : List A) → count_where query (select own xs) ≡ count_where query xs
  count_where-own [] = refl
  count_where-own (x ∷ xs) = elim (Bool-cases (own x)) [
    | inl e ↦ rw e (ap (λ rest. if query x then suc rest else rest) (count_where-own xs))
    | inr e ↦ rw (e, not_own x e) (count_where-own xs)
  ]

-- Rows that a query does not see can be deleted.
pub select-delete_where :
    {A : Type 0} (q p : A → Bool) (xs : List A)
    → All (λ x. p x ≡ true → q x ≡ false) xs
    → select q (delete_where p xs) ≡ select q xs
select-delete_where q p [] h = refl
select-delete_where q p (x ∷ xs) h = elim (Bool-cases (p x)) [
  | inl e ↦ rw (e, h.0 e) (select-delete_where q p xs h.1)
  | inr e ↦ rw e (ap (λ rest. if q x then x ∷ rest else rest) (select-delete_where q p xs h.1))
]

select-append :
    {A : Type 0} (q : A → Bool) (xs ys : List A) → select q (xs ++ ys) ≡ select q xs ++ select q ys
select-append q [] ys = refl
select-append q (x ∷ xs) ys = elim (Bool-cases (q x)) [
  | inl e ↦ rw e (ap (λ rest. x ∷ rest) (select-append q xs ys))
  | inr e ↦ rw e (select-append q xs ys)
]

module _ {A B : Type 0} (own : A → Bool) (query : A × B → Bool)
    (implied : (x : A) (y : B) → query (x, y) ≡ true → own x ≡ true) where
  select-pair_up : (x : A) (ys : List B) → own x ≡ false → select query (pair_up x ys) ≡ []
  select-pair_up x [] h = refl
  select-pair_up x (y ∷ ys) h =
      rw (not_own own (λ a. query (a, y)) (λ a. implied a y) x h) (select-pair_up x ys h)

  -- A query of a join that asks for own rows has the same result of the own rows alone.
  pub select-join :
      (xs : List A) (ys : List B)
      → select query (join (select own xs) ys) ≡ select query (join xs ys)
  select-join [] ys = refl
  select-join (x ∷ xs) ys = elim (Bool-cases (own x)) [
    | inl e ↦ rw e (
        select-append query (pair_up x ys) (join (select own xs) ys)
        ∙ (ap (λ rest. select query (pair_up x ys) ++ rest) (select-join xs ys)
            ∙ sym (select-append query (pair_up x ys) (join xs ys))))
    | inr e ↦ rw e (
        select-join xs ys
        ∙ sym (
            select-append query (pair_up x ys) (join xs ys)
            ∙ ap (λ first. first ++ select query (join xs ys)) (select-pair_up x ys e)))
  ]
