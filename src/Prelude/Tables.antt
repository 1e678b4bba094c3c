-- ===== src/Prelude/Tables.antt =====
-- A table of the database as a list of rows, the newest first, with the queries that the program
-- makes of it: `where` as a Boolean test, `scalar` and `get` as the first row that passes, a change
-- of the rows that pass, and `count`.
use Prim.Native.Nat.{ℕ, zero, suc}
use mathlib.Core.Path.{◌≡◌, refl, sym, ap, subst}
use mathlib.Core.Logic.{◌⊎◌, inl, inr}
use mathlib.Core.Bool.{Bool, true, false}
use mathlib.Core.Option.{Option, none, some}
use mathlib.Core.List.{List, [], ◌∷◌, ◌++◌}
use native.Mathlib.Omega.{arith}
use mytenancyplus.Prelude.Tests.{◌==◌, ==_self, if◌then◌else◌, Bool-cases}

module _ {ℓ} {A : Type ℓ} where
  -- select(Row).where(p)
  abbrev pub select : (A → Bool) → List A → List A
  select p [] = []
  select p (x ∷ xs) = if p x then x ∷ select p xs else select p xs

  -- session.scalar(select(Row).where(p))
  abbrev pub scalar : (A → Bool) → List A → Option A
  scalar p [] = none
  scalar p (x ∷ xs) = if p x then some x else scalar p xs

  -- update(Row).where(p).values(...), and the write of a changed object back to its row
  abbrev pub update_where : (A → Bool) → (A → A) → List A → List A
  update_where p f [] = []
  update_where p f (x ∷ xs) = (if p x then f x else x) ∷ update_where p f xs

  -- session.delete(row): the rows that do not pass stay.
  abbrev pub delete_where : (A → Bool) → List A → List A
  delete_where p [] = []
  delete_where p (x ∷ xs) = if p x then delete_where p xs else x ∷ delete_where p xs

  -- select(func.count()).where(p)
  abbrev pub count_where : (A → Bool) → List A → ℕ
  count_where p [] = 0
  count_where p (x ∷ xs) = if p x then suc (count_where p xs) else count_where p xs

  abbrev pub length : List A → ℕ
  length [] = 0
  length (x ∷ xs) = suc (length xs)

  abbrev pub take : ℕ → List A → List A
  take zero xs = []
  take (suc n) [] = []
  take (suc n) (x ∷ xs) = x ∷ take n xs

  -- .join(...): the pairs of rows, of which the condition of the join selects some.
  abbrev pub pair_up {κ} : {B : Type κ} → A → List B → List (A × B)
  pair_up x [] = []
  pair_up x (y ∷ ys) = (x, y) ∷ pair_up x ys

  abbrev pub join {κ} : {B : Type κ} → List A → List B → List (A × B)
  join [] ys = []
  join (x ∷ xs) ys = pair_up x ys ++ join xs ys

  -- Every row has the property.
  abbrev pub All {κ} : (A → Type κ) → List A → Type κ
  All P [] = Unit
  All P (x ∷ xs) = P x × All P xs

module _ {A : Type 0} where
  -- Some row is the given one.
  abbrev pub Has : A → List A → Type 0
  Has a [] = ⊥
  Has a (x ∷ xs) = (a ≡ x) ⊎ Has a xs

  -- The two ways in which the query of a longer table finds a row.
  pub some_cases :
      (b : Bool) {x a : A} {o : Option A}
      → (if b then some x else o) ≡ some a
      → ((b ≡ true) × (x ≡ a)) ⊎ ((b ≡ false) × (o ≡ some a))
  some_cases true h = inl (refl, cc)
  some_cases false h = inr (refl, h)

  pub scalar_passes :
      (p : A → Bool) (xs : List A) {a : A} → scalar p xs ≡ some a → (p a ≡ true) × Has a xs
  scalar_passes p [] h = cc
  scalar_passes p (x ∷ xs) {a} h = elim (some_cases (p x) h) [
    | inl (e, same) ↦ (subst (λ y. p y ≡ true) same e, inl (sym same))
    | inr (e, later) ↦ let rest = scalar_passes p xs later in (rest.0, inr rest.1)
  ]

  pub nothing_found : (p : A → Bool) (xs : List A) → scalar p xs ≡ none → All (λ x. p x ≡ false) xs
  nothing_found p [] h = tt
  nothing_found p (x ∷ xs) h = ground (arith, nothing_found p xs)

  pub All-Has : (P : A → Type 0) {a : A} (xs : List A) → All P xs → Has a xs → P a
  All-Has P [] h m = absurd m
  All-Has P (x ∷ xs) h (inl e) = subst P (sym e) h.0
  All-Has P (x ∷ xs) h (inr m) = All-Has P xs h.1 m

  pub Has-All : (P : A → Type 0) (xs : List A) → ((a : A) → Has a xs → P a) → All P xs
  Has-All P [] h = tt
  Has-All P (x ∷ xs) h = (h x (inl refl), Has-All P xs (λ a m. h a (inr m)))

  pub All-map : {P Q : A → Type 0} (xs : List A) → All P xs → ((x : A) → P x → Q x) → All Q xs
  All-map [] h f = tt
  All-map (x ∷ xs) h f = (f x h.0, All-map xs h.1 f)

  pub All-update_where :
      (P : A → Type 0) (p : A → Bool) (f : A → A) (xs : List A)
      → ((x : A) → P x → p x ≡ true → P (f x))
      → All P xs
      → All P (update_where p f xs)
  All-update_where P p f [] keep h = tt
  All-update_where P p f (x ∷ xs) keep h = (
    elim (Bool-cases (p x)) [ inl e ↦ rw e (keep x h.0 e) | inr e ↦ rw e h.0 ],
    All-update_where P p f xs keep h.1,
  )

  pub Has-select :
      (p : A → Bool) (xs : List A) {a : A} → Has a (select p xs) → (p a ≡ true) × Has a xs
  Has-select p [] m = absurd m
  Has-select p (x ∷ xs) {a} m = elim (Bool-cases (p x)) [
    | inl e ↦ elim (let m' : Has a (x ∷ select p xs) = rw e at m in m') [
      | inl q ↦ (rw q e, inl q)
      | inr n ↦ let rest = Has-select p xs n in (rest.0, inr rest.1)
    ]
    | inr e ↦ let rest = Has-select p xs {a = a} (rw e at m) in (rest.0, inr rest.1)
  ]

  -- A change of rows that a query does not see, before or after, leaves its result alone.
  pub select-update_where :
      (q p : A → Bool) (f : A → A) (xs : List A)
      → All (λ x. p x ≡ true → (q x ≡ false) × (q (f x) ≡ false)) xs
      → select q (update_where p f xs) ≡ select q xs
  select-update_where q p f [] apart = refl
  select-update_where q p f (x ∷ xs) apart = elim (Bool-cases (p x)) [
    | inl e ↦ let (old, new) = apart.0 e in rw (e, old, new) (select-update_where q p f xs apart.1)
    | inr e ↦
        rw e (ap (λ rest. if q x then x ∷ rest else rest) (select-update_where q p f xs apart.1))
  ]

  -- Of two writes to the same rows the second stays.
  pub update_where-update_where :
      (p : A → Bool) (f g : A → A) (xs : List A)
      → ((x : A) → p x ≡ true → p (f x) ≡ true)
      → update_where p g (update_where p f xs) ≡ update_where p (λ x. g (f x)) xs
  update_where-update_where p f g [] keep = refl
  update_where-update_where p f g (x ∷ xs) keep = elim (Bool-cases (p x)) [
    | inl e ↦
        rw (e, keep x e) (ap (λ rest. g (f x) ∷ rest) (update_where-update_where p f g xs keep))
    | inr e ↦ rw (e, e) (ap (λ rest. x ∷ rest) (update_where-update_where p f g xs keep))
  ]

  pub length-select : (p : A → Bool) (xs : List A) → length (select p xs) ≡ count_where p xs
  length-select p [] = refl
  length-select p (x ∷ xs) = elim (Bool-cases (p x)) [
    | inl e ↦ rw e (ap suc (length-select p xs))
    | inr e ↦ rw e (length-select p xs)
  ]

  -- A change of rows that all fail the test counts as none.
  pub count_where-untouched :
      (q p : A → Bool) (f : A → A) (xs : List A)
      → All (λ x. p x ≡ false) xs
      → count_where q (update_where p f xs) ≡ count_where q xs
  count_where-untouched q p f [] h = refl
  count_where-untouched q p f (x ∷ xs) h =
      rw h.0 (ap (λ n. if q x then suc n else n) (count_where-untouched q p f xs h.1))

  pub All-delete_where :
      {P Q : A → Type 0} (p : A → Bool) (xs : List A)
      → All P xs
      → ((x : A) → P x → p x ≡ false → Q x)
      → All Q (delete_where p xs)
  All-delete_where p [] h f = tt
  All-delete_where p (x ∷ xs) h f = elim (Bool-cases (p x)) [
    | inl e ↦ rw e (All-delete_where p xs h.1 f)
    | inr e ↦ rw e (f x h.0 e, All-delete_where p xs h.1 f)
  ]

  -- A row that does not pass is still there.
  pub Has-delete_where :
      (p : A → Bool) (xs : List A) {a : A} → Has a xs → p a ≡ false → Has a (delete_where p xs)
  Has-delete_where p [] m h = absurd m
  Has-delete_where p (x ∷ xs) {a} (inl same) h =
      let kept : p x ≡ false = subst (λ y. p y ≡ false) same h in rw kept (inl same)
  Has-delete_where p (x ∷ xs) {a} (inr m) h = elim (Bool-cases (p x)) [
    | inl e ↦ rw e (Has-delete_where p xs m h)
    | inr e ↦ rw e (inr (Has-delete_where p xs m h))
  ]

  -- After a change, the first row that passes `q` is the changed first row, where the change
  -- keeps the outcome of `q`.
  pub scalar-update_where :
      (q : A → Bool) (f : A → A) (xs : List A) {a : A}
      → scalar q xs ≡ some a
      → q (f a) ≡ true
      → scalar q (update_where q f xs) ≡ some (f a)
  scalar-update_where q f [] h k = cc
  scalar-update_where q f (x ∷ xs) {a} h k = elim (some_cases (q x) h) [
    | inl (e, same) ↦ rw (e, same, k)
    | inr (e, later) ↦ rw (e, e) (scalar-update_where q f xs later k)
  ]

-- Where the row that a query finds is replaced by one that another query accepts, and the other
-- query accepts no more rows, the other query finds the new row.
pub scalar-replaced :
    {A : Type 0} (key : A → ℕ) (p q : A → Bool) (w m : A) (rows : List A)
    → scalar p rows ≡ some m
    → q w ≡ true
    → ((x : A) → p x ≡ false → q x ≡ false)
    → scalar q (update_where (λ x. key x == key m) (λ _. w) rows) ≡ some w
scalar-replaced key p q w m [] found accepts fewer = cc
scalar-replaced key p q w m (x ∷ rows) found accepts fewer = elim (Bool-cases (key x == key m)) [
  | inl e ↦ rw (e, accepts) refl
  | inr e ↦ elim (some_cases (p x) found) [
    | inl (_, same) ↦ let taken : (key x == key m) ≡ true = rw same (==_self (key m)) in cc
    | inr (miss, later) ↦
        rw (e, fewer x miss) (scalar-replaced key p q w m rows later accepts fewer)
  ]
]
