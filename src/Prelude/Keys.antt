-- ===== src/Prelude/Keys.antt =====
-- Primary keys and unique columns of a table.
use Prim.Native.Nat.{suc}
use mathlib.Core.Path.{◌≡◌, sym, ap, subst, ◌∙◌}
use mathlib.Core.Logic.{◌≢◌, inl, inr}
use mathlib.Core.Bool.{Bool, true, false}
use mathlib.Core.List.{List, [], ◌∷◌}
use mytenancyplus.Prelude.Tests.{Bool-cases}
use mytenancyplus.Prelude.Tables.{
  update_where, delete_where, count_where, All, All-map, All-Has, Has, All-update_where,
  All-delete_where, count_where-untouched,
}

-- A column with no value twice: the primary keys and the unique columns.
module _ {A : Type 0} {K : Type 0} (key : A → K) where
  abbrev pub IsKey : List A → Type 0
  IsKey [] = Unit
  IsKey (x ∷ xs) = All (λ y. key y ≢ key x) xs × IsKey xs

  pub IsKey-delete_where : (p : A → Bool) (xs : List A) → IsKey xs → IsKey (delete_where p xs)
  IsKey-delete_where p [] h = tt
  IsKey-delete_where p (x ∷ xs) h = elim (Bool-cases (p x)) [
    | inl e ↦ rw e (IsKey-delete_where p xs h.1)
    | inr e ↦ rw e (All-delete_where p xs h.0 (λ y n _. n), IsKey-delete_where p xs h.1)
  ]

  pub IsKey-update_where :
      (p : A → Bool) (f : A → A) (xs : List A)
      → ((x : A) → p x ≡ true → key (f x) ≡ key x)
      → IsKey xs
      → IsKey (update_where p f xs)
  IsKey-update_where p f [] same h = tt
  IsKey-update_where p f (x ∷ xs) same h = (
    elim (Bool-cases (p x)) [ inl e ↦ rw (e, same x e) (others x h) | inr e ↦ rw e (others x h) ],
    IsKey-update_where p f xs same h.1,
  )
    where
      others : (x : A) → IsKey (x ∷ xs) → All (λ y. key y ≢ key x) (update_where p f xs)
      others x h =
          All-update_where (λ y. key y ≢ key x) p f xs (λ y n e c. n (sym (same y e) ∙ c)) h.0

  pub key_unique : (xs : List A) {a b : A} → IsKey xs → Has a xs → Has b xs → key a ≡ key b → a ≡ b
  key_unique [] h m n e = absurd m
  key_unique (x ∷ xs) h (inl p) (inl q) e = p ∙ sym q
  key_unique (x ∷ xs) {a} {b} h (inl p) (inr n) e = absurd (All-Has _ xs h.0 n (sym e ∙ ap key p))
  key_unique (x ∷ xs) {a} {b} h (inr m) (inl q) e = absurd (All-Has _ xs h.0 m (e ∙ ap key q))
  key_unique (x ∷ xs) h (inr m) (inr n) e = key_unique xs h.1 m n e

  -- A change of the one row of a key, which then no longer passes.
  pub count_where-update :
      (q p : A → Bool) (f : A → A) (xs : List A) {a : A}
      → IsKey xs
      → Has a xs
      → ((x : A) → p x ≡ true → key x ≡ key a)
      → p a ≡ true
      → q a ≡ true
      → q (f a) ≡ false
      → suc (count_where q (update_where p f xs)) ≡ count_where q xs
  count_where-update q p f [] h m same hit old new = absurd m
  count_where-update q p f (x ∷ xs) {a} h (inl e) same hit old new =
      let others : All (λ y. p y ≡ false) xs =
        All-map xs h.0
          λ y n. elim (Bool-cases (p y)) [ inl r ↦ absurd (n (same y r ∙ ap key e)) | inr r ↦ r ] in
      let x_hit : p x ≡ true = subst (λ y. p y ≡ true) e hit in
      let x_old : q x ≡ true = subst (λ y. q y ≡ true) e old in
      let x_new : q (f x) ≡ false = subst (λ y. q (f y) ≡ false) e new in
      rw (x_hit, x_old, x_new) (ap suc (count_where-untouched q p f xs others))
  count_where-update q p f (x ∷ xs) {a} h (inr m) same hit old new =
      let miss : p x ≡ false = elim (Bool-cases (p x)) [
        | inl r ↦ absurd (All-Has _ xs h.0 m (sym (same x r)))
        | inr r ↦ r
      ] in
      rw miss (elim (Bool-cases (q x)) [
        | inl r ↦ rw r (ap suc (count_where-update q p f xs h.1 m same hit old new))
        | inr r ↦ rw r (count_where-update q p f xs h.1 m same hit old new)
      ])
