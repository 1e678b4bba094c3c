-- ===== src/Storage/Chunks.antt =====
-- The loop of store_upload, beside the body that it reads.
use mathlib.Core.List.{append_assoc, append-nil}
use mytenancyplus.Prelude.{
  ℕ, true, ◌+◌, ◌≤◌, ◌≡◌, refl, ap, ◌∙◌, subst, arith, ltb, leb, Bool-cases, Option-cases, inl, inr,
  Option, none, some, List, [], ◌∷◌, ◌++◌, if◌then◌else◌,
}
use mytenancyplus.Prelude.Tables.{length}
use mytenancyplus.Transaction.{Result, ok, err, Exception, document_too_large}
use mytenancyplus.Storage.{store_chunks}

-- What the client sends before the end, unless a read raises before.
unfoldable pub body : List (Option (List ℕ)) → Option (List ℕ)
body [] = some []
body (none ∷ reads) = none
body (some [] ∷ reads) = some []
body (some (b ∷ chunk) ∷ reads) = elim (body reads) [
  | none ↦ none
  | some rest ↦ some ((b ∷ chunk) ++ rest)
]

length-append : (s t : List ℕ) → length (s ++ t) ≡ length s + length t
length-append [] t = omega arith
length-append (x ∷ s) t = omega (arith, length-append s t)

-- What becomes of a content after others: it is stored whole if there is room, or refused.
abbrev pub room_for : ℕ → ℕ → List ℕ → List ℕ → Result (ℕ × List ℕ)
room_for max_bytes size stored content =
    if leb (size + length content) max_bytes
    then ok (size + length content, stored ++ content)
    else err (document_too_large max_bytes)

room_for_nothing :
    (max_bytes size : ℕ) (stored content : List ℕ)
    → some [] ≡ some content
    → size ≤ max_bytes
    → ok (size, stored) ≡ room_for max_bytes size stored content
room_for_nothing max_bytes size stored content h room =
    let same : [] ≡ content = cc in
    subst (λ c. ok (size, stored) ≡ room_for max_bytes size stored c) same
      (ground (arith, append-nil stored))

room_for-append :
    (max_bytes size : ℕ) (stored chunk rest : List ℕ)
    → room_for max_bytes (size + length chunk) (stored ++ chunk) rest
      ≡ room_for max_bytes size stored (chunk ++ rest)
room_for-append max_bytes size stored chunk rest =
    let same : (size + length chunk) + length rest ≡ size + length (chunk ++ rest) =
      omega (arith, length-append chunk rest) in
    rw (same, append_assoc stored chunk rest) refl

no_room :
    (max_bytes size : ℕ) (stored chunk rest : List ℕ)
    → ltb max_bytes (size + length chunk) ≡ true
    → err (document_too_large max_bytes) ≡ room_for max_bytes size stored (chunk ++ rest)
no_room max_bytes size stored chunk rest h = ground (arith, length-append chunk rest)

pub store_chunks-body :
    (max_bytes : ℕ) (reads : List (Option (List ℕ))) (size : ℕ) (stored content : List ℕ)
    → body reads ≡ some content
    → size ≤ max_bytes
    → store_chunks max_bytes reads size stored ≡ room_for max_bytes size stored content
unfolding store_chunks body
store_chunks-body max_bytes [] size stored content h room =
    room_for_nothing max_bytes size stored content h room
store_chunks-body max_bytes (none ∷ reads) size stored content h room = cc
store_chunks-body max_bytes (some [] ∷ reads) size stored content h room =
    room_for_nothing max_bytes size stored content h room
store_chunks-body max_bytes (some (b ∷ chunk) ∷ reads) size stored content h room =
    elim (Option-cases (body reads)) [
      | inl e ↦ cc (let p : none ≡ some content = rw e at h in p)
      | inr (rest, e) ↦
          let same : (b ∷ chunk) ++ rest ≡ content =
            (let p : some ((b ∷ chunk) ++ rest) ≡ some content = rw e at h in cc) in
          elim (Bool-cases (ltb max_bytes (size + length (b ∷ chunk)))) [
            | inl over ↦ rw over (
                no_room max_bytes size stored (b ∷ chunk) rest over
                ∙ ap (room_for max_bytes size stored) same)
            | inr fits ↦ rw fits (
                store_chunks-body max_bytes reads (size + length (b ∷ chunk))
                  (stored ++ (b ∷ chunk)) rest e (ground arith)
                ∙ (room_for-append max_bytes size stored (b ∷ chunk) rest
                    ∙ ap (room_for max_bytes size stored) same))
          ]
    ]

-- An upload that breaks off is an error.
pub store_chunks_broken :
    (max_bytes : ℕ) (reads : List (Option (List ℕ))) (size : ℕ) (stored : List ℕ)
    → body reads ≡ none
    → (e : Exception) × (store_chunks max_bytes reads size stored ≡ err e)
unfolding store_chunks body
store_chunks_broken max_bytes [] size stored h = cc
store_chunks_broken max_bytes (none ∷ reads) size stored h = (_, refl)
store_chunks_broken max_bytes (some [] ∷ reads) size stored h = cc
store_chunks_broken max_bytes (some (b ∷ chunk) ∷ reads) size stored h =
    elim (Option-cases (body reads)) [
      | inl e ↦ elim (Bool-cases (ltb max_bytes (size + length (b ∷ chunk)))) [
        | inl over ↦ (document_too_large max_bytes, rw over refl)
        | inr fits ↦
            let (x, broken) =
              store_chunks_broken max_bytes reads (size + length (b ∷ chunk))
                (stored ++ (b ∷ chunk)) e in
            (x, rw fits broken)
      ]
      | inr (rest, e) ↦ cc (let p : some ((b ∷ chunk) ++ rest) ≡ none = rw e at h in p)
    ]
