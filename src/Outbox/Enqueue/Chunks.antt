-- ===== src/Outbox/Enqueue/Chunks.antt =====
-- The chunks of a bulk move, and their size.
use beautiful_aerc.Prelude.{
  ℕ, zero, suc, List, [], ◌∷◌, ◌++◌, ◌≡◌, refl, ap, ◌≤◌, ◌<◌, All, arith, length, take, drop,
  length-take-le,
}
use beautiful_aerc.Outbox.Plan.{wire_batch_limit}
use beautiful_aerc.Outbox.Enqueue.{chunks_loop, chunks, move_chunk_size, move_chunk_messages}

abbrev pub flatten : List (List ℕ) → List ℕ
flatten [] = []
flatten (c ∷ cs) = c ++ flatten cs

take_append_drop : (n : ℕ) (xs : List ℕ) → take n xs ++ drop n xs ≡ xs
take_append_drop zero xs = refl
take_append_drop (suc n) [] = refl
take_append_drop (suc n) (x ∷ xs) = ap (λ t. x ∷ t) (take_append_drop n xs)

length-drop_cons : (n : ℕ) (x : ℕ) (xs : List ℕ) → length (drop (suc n) (x ∷ xs)) ≤ length xs
length-drop_cons zero x xs = omega arith
length-drop_cons (suc n) x [] = omega arith
length-drop_cons (suc n) x (y ∷ ys) = omega (arith, length-drop_cons n y ys)

flatten-chunks_loop :
    (fuel size : ℕ) (ids : List ℕ)
    → length ids ≤ fuel
    → flatten (chunks_loop fuel (suc size) ids) ≡ ids
unfolding chunks_loop
flatten-chunks_loop fuel size [] h = refl
flatten-chunks_loop zero size (x ∷ xs) h = absurd (omega (arith, h))
flatten-chunks_loop (suc fuel) size (x ∷ xs) h =
    rw
      (flatten-chunks_loop fuel size (drop (suc size) (x ∷ xs))
        (omega (arith, h, length-drop_cons size x xs)))
      (take_append_drop (suc size) (x ∷ xs))

sized-chunks_loop :
    (fuel size : ℕ) (ids : List ℕ)
    → All (λ c. (0 < length c) × (length c ≤ suc size)) (chunks_loop fuel (suc size) ids)
unfolding chunks_loop
sized-chunks_loop fuel size [] = tt
sized-chunks_loop zero size (x ∷ xs) = tt
sized-chunks_loop (suc fuel) size (x ∷ xs) = (
  (omega arith, length-take-le (suc size) (x ∷ xs)),
  sized-chunks_loop fuel size (drop (suc size) (x ∷ xs)),
)

move_chunk_size_bounds :
    (n : ℕ)
    → (0 < move_chunk_size n)
      × (move_chunk_size n ≤ move_chunk_messages)
      × (move_chunk_size n ≤ wire_batch_limit n)
unfolding move_chunk_size wire_batch_limit
move_chunk_size_bounds n = ground arith

chunked :
    (size : ℕ) (ids : List ℕ)
    → 0 < size
    → (flatten (chunks ids size) ≡ ids)
      × All (λ c. (0 < length c) × (length c ≤ size)) (chunks ids size)
unfolding chunks
chunked zero ids h = absurd (omega (arith, h))
chunked (suc size) ids h = (
  flatten-chunks_loop (length ids) size ids (omega arith),
  sized-chunks_loop (length ids) size ids,
)

-- A bulk move's chunks are its messages, each once and in order; a chunk is not empty, and it fits
-- both the size of a chunk and the limit of one call to the backend, whatever the backend reports.
pub chunks-move_chunk_size :
    (n : ℕ) (ids : List ℕ)
    → (flatten (chunks ids (move_chunk_size n)) ≡ ids)
      × All
          (λ c. (0 < length c) × (length c ≤ move_chunk_messages) × (length c ≤ wire_batch_limit n))
          (chunks ids (move_chunk_size n))
chunks-move_chunk_size n ids =
    let (some_size, small, fits) = move_chunk_size_bounds n in
    let (same, sized) = chunked (move_chunk_size n) ids some_size in
    (same, within some_size small fits _ sized)
  where
    within :
        {m a b : ℕ}
        → 0 < m
        → m ≤ a
        → m ≤ b
        → (cs : List (List ℕ)) → All (λ c. (0 < length c) × (length c ≤ m)) cs
        → All (λ c. (0 < length c) × (length c ≤ a) × (length c ≤ b)) cs
    within p q r [] h = tt
    within p q r (c ∷ cs) h = (ground (arith, h.0), within p q r cs h.1)
