-- ===== src/Listings/Queries.antt =====
-- Queries choose the rows that are asked for, and put them in order.
use mytenancyplus.Prelude.{◌≡◌, Bool, Bool-cases, true, inl, inr, List, [], ◌∷◌, ℕ}
use mytenancyplus.Prelude.Tables.{All-map, select, take}
use mytenancyplus.Prelude.Order.{IsOrder, IsOrdered, order_by, order_by-IsListing, take-IsPage}
use mytenancyplus.Transaction.{Database, Action, ok, request}
use mytenancyplus.Listings.{Chosen, done, kept, left_out, IsSorted, Lists, Pages}

-- A test that decides what is asked for chooses it.
pub select-Chosen :
    {A : Type 0} (Asked : A → Type 0) (test : A → Bool)
    → ((x : A) → test x ≡ true → Asked x)
    → ((x : A) → Asked x → test x ≡ true)
    → (xs : List A) → Chosen Asked xs (select test xs)
select-Chosen Asked test sound exact [] = done
select-Chosen Asked test sound exact (x ∷ xs) = elim (Bool-cases (test x)) [
  | inl e ↦ rw e (kept (sound x e) (select-Chosen Asked test sound exact xs))
  | inr e ↦ rw e (left_out (λ a. let h = exact x a in cc) (select-Chosen Asked test sound exact xs))
]

module _ {A : Type 0} (Asked : A → Type 0) (Before : A → A → Type 0) (test : A → Bool)
    (before : A → A → Bool) where
  -- The test of a query decides what is asked for, and its order has the meaning that it is to have.
  pub record IsQuery : Type 0 where
    pub sound : (x : A) → test x ≡ true → Asked x
    pub exact : (x : A) → Asked x → test x ≡ true
    pub order : IsOrder before
    pub meaning : (x y : A) → before x y ≡ true → Before x y

  module _ (q : IsQuery) where
    ordered-IsSorted : (xs : List A) → IsOrdered before xs → IsSorted Before xs
    ordered-IsSorted [] h = tt
    ordered-IsSorted (x ∷ xs) h = (All-map xs h.0 (λ y e. q.meaning x y e), ordered-IsSorted xs h.1)

    pub query-Lists :
        (table : List A) (action : Action (List A)) (db : Database)
        → (request action db).0 ≡ ok (order_by before (select test table))
        → Lists Asked Before table action db
    query-Lists table action db answer =
        let whole = order_by-IsListing before q.order (select test table) in
        record {
          rows = select test table;
          chosen = select-Chosen Asked test q.sound q.exact table;
          listing = order_by before (select test table);
          answer = answer;
          same_rows = whole.same_rows;
          sorted = ordered-IsSorted _ whole.ordered;
        }

    pub query-Pages :
        (limit : ℕ) (table : List A) (action : Action (List A)) (db : Database)
        → (request action db).0 ≡ ok (take limit (order_by before (select test table)))
        → Pages Asked Before limit table action db
    query-Pages limit table action db answer =
        let part = take-IsPage before limit (select test table) q.order in
        record {
          rows = select test table;
          chosen = select-Chosen Asked test q.sound q.exact table;
          page = take limit (order_by before (select test table));
          rest = part.rest;
          answer = answer;
          same_rows = part.same_rows;
          sorted = ordered-IsSorted _ part.ordered;
          bounded = part.bounded;
          full = part.full;
        }
