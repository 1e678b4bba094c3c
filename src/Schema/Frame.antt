-- ===== src/Schema/Frame.antt =====
-- Migrations beside tables that they have nothing to do with.
use mytenancyplus.Prelude.{
  str_eq, Bool, true, false, not, ◌&&◌, ◌||◌, ◌≡◌, refl, ap, Option, none, some, List, [], ◌∷◌,
  ◌++◌, if◌then◌else◌, Bool-cases, Option-cases, arith, inl, inr,
}
use mytenancyplus.Prelude.Tables.{update_where, delete_where}
use mytenancyplus.Schema.{
  ForeignKey, Catalog, Operation, create_table, create_index, execute, drop_table, any, every,
  is_named, taken, index_taken, has_column, has_columns, resolves, refers_to, referenced, new_table,
  columns_of, constraints_of, add_index, secure, when, apply, run,
}

-- The tables of the catalog have none of the names of the operation and no reference to them.
abbrev pub apart : Operation → Catalog → Bool
apart (create_table name es) b = not (taken name b)
apart (create_index name i) b = not (taken name b) && not (index_taken i.name b)
apart (execute name s) b = not (taken name b)
apart (drop_table name) b = not (taken name b) && not (referenced name b)

abbrev pub AreApart : List Operation → Catalog → Type 0
AreApart ops b = every (λ op. apart op b) ops ≡ true

or_false : (a b : Bool) → (a || b) ≡ false → (a ≡ false) × (b ≡ false)
or_false a b h = ground arith

and_true : {a b : Bool} → (a && b) ≡ true → (a ≡ true) × (b ≡ true)
and_true h = ground arith

refuted : {a : Bool} → not a ≡ true → a ≡ false
refuted h = ground arith

module _ {A : Type 0} (p : A → Bool) where
  any-append : (xs ys : List A) → any p ys ≡ false → any p (xs ++ ys) ≡ any p xs
  any-append [] ys h = h
  any-append (x ∷ xs) ys h = ap (λ b. p x || b) (any-append xs ys h)

  any_append_true : (xs ys : List A) → any p xs ≡ true → any p (xs ++ ys) ≡ true
  any_append_true [] ys h = cc
  any_append_true (x ∷ xs) ys h = ground (arith, any_append_true xs ys)

  every_map :
      (q : A → Bool) (xs : List A)
      → ((x : A) → p x ≡ true → q x ≡ true)
      → every p xs ≡ true
      → every q xs ≡ true
  every_map q [] f h = refl
  every_map q (x ∷ xs) f h = ground (arith, f x, every_map q xs f)

  update_none : (f : A → A) (xs : List A) → any p xs ≡ false → update_where p f xs ≡ xs
  update_none f [] h = refl
  update_none f (x ∷ xs) h =
      let (first, rest) = or_false (p x) (any p xs) h in
      rw first (ap (λ ys. x ∷ ys) (update_none f xs rest))

  delete_none : (xs : List A) → any p xs ≡ false → delete_where p xs ≡ xs
  delete_none [] h = refl
  delete_none (x ∷ xs) h =
      let (first, rest) = or_false (p x) (any p xs) h in
      rw first (ap (λ ys. x ∷ ys) (delete_none xs rest))

  update-append :
      (f : A → A) (xs ys : List A)
      → any p ys ≡ false
      → update_where p f (xs ++ ys) ≡ update_where p f xs ++ ys
  update-append f [] ys h = update_none f ys h
  update-append f (x ∷ xs) ys h =
      ap (λ rest. (if p x then f x else x) ∷ rest) (update-append f xs ys h)

  delete-append :
      (xs ys : List A) → any p ys ≡ false → delete_where p (xs ++ ys) ≡ delete_where p xs ++ ys
  delete-append [] ys h = delete_none ys h
  delete-append (x ∷ xs) ys h = elim (Bool-cases (p x)) [
    | inl e ↦ rw e (delete-append xs ys h)
    | inr e ↦ rw e (ap (λ rest. x ∷ rest) (delete-append xs ys h))
  ]

-- What refers to a table of the catalog refers to one of the longer catalog.
resolves-append :
    (c b : Catalog) (k : Option ForeignKey) → resolves c k ≡ true → resolves (c ++ b) k ≡ true
resolves-append c b none h = refl
resolves-append c b (some k) h =
    any_append_true (λ t. is_named k.table t && every (has_column t) (k.target ∷ [])) c b h

when_cases : {t : Bool} {c d : Catalog} → when t c ≡ some d → (t ≡ true) × (c ≡ d)
when_cases {t = true} h = (refl, cc)
when_cases {t = false} h = cc

apply-append :
    (op : Operation) (c b : Catalog) {d : Catalog}
    → apart op b ≡ true
    → apply op c ≡ some d
    → apply op (c ++ b) ≡ some (d ++ b)
unfolding apply
apply-append (create_table name es) c b {d} h r =
    let (ok, same) = when_cases r in
    let refs? = every (λ col. resolves (new_table name es ∷ c) col.foreign_key) (columns_of es) in
    let unique? = every (every (has_column (new_table name es))) (constraints_of es) in
    let (both, constraints) = and_true {a = not (taken name c) && refs?} {b = unique?} ok in
    let (fresh, refs) = and_true {a = not (taken name c)} {b = refs?} both in
    rw
      (
        any-append (is_named name) c b (refuted h),
        fresh,
        every_map (λ col. resolves (new_table name es ∷ c) col.foreign_key)
            (λ col. resolves (new_table name es ∷ c ++ b) col.foreign_key)
            (new_table name es).columns
            (λ col. resolves-append (new_table name es ∷ c) b col.foreign_key) refs,
        constraints,
        ← same,
      )
      refl
apply-append (create_index name i) c b {d} h r =
    let (ok, same) = when_cases r in
    let (found, free) =
      and_true {a = has_columns name i.columns c} {b = not (index_taken i.name c)} ok in
    let (elsewhere, unindexed) =
      and_true {a = not (taken name b)} {b = not (index_taken i.name b)} h in
    rw
      (
        any_append_true (λ t. is_named name t && every (has_column t) i.columns) c b found,
        any-append (λ t. any (λ j. str_eq j.name i.name) t.indexes) c b (refuted unindexed),
        free,
        update-append (is_named name) (add_index i) c b (refuted elsewhere),
        ← same,
      )
      refl
apply-append (execute name s) c b {d} h r =
    let (found, same) = when_cases r in
    rw
      (
        any_append_true (λ t. is_named name t && every (has_column t) ("organization_id" ∷ [])) c b
            found,
        update-append (is_named name) (secure s) c b (refuted h),
        ← same,
      )
      refl
apply-append (drop_table name) c b {d} h r =
    let (ok, same) = when_cases r in
    let (there, unused) =
      and_true {a = taken name c} {b = not (referenced name (delete_where (is_named name) c))} ok in
    let (elsewhere, unrelated) =
      and_true {a = not (taken name b)} {b = not (referenced name b)} h in
    rw
      (
        any_append_true (is_named name) c b there,
        delete-append (is_named name) c b (refuted elsewhere),
        any-append (λ t. any (λ col. refers_to name col.foreign_key) t.columns)
            (delete_where (is_named name) c) b (refuted unrelated),
        unused,
        ← same,
      )
      refl

pub AreApart-prefix :
    (ops others : List Operation) (b : Catalog) → AreApart (ops ++ others) b → AreApart ops b
AreApart-prefix [] others b h = refl
AreApart-prefix (op ∷ ops) others b h = ground (arith, AreApart-prefix ops others b)

-- A run leaves tables as they are that it has nothing to do with.
pub run-append :
    (ops : List Operation) (c b : Catalog) {d : Catalog}
    → AreApart ops b
    → run ops c ≡ some d
    → run ops (c ++ b) ≡ some (d ++ b)
unfolding run
run-append [] c b h r = ground arith
run-append (op ∷ ops) c b {d} h r =
    let (first, rest) = and_true {a = apart op b} {b = every (λ o. apart o b) ops} h in
    elim (Option-cases (apply op c)) [
      | inl e ↦ let bad : Option.none ≡ some d = rw e at r in cc
      | inr (next, e) ↦ rw (apply-append op c b first e) (run-append ops next b rest (rw e at r))
    ]
