-- ===== src/Stream/Batches/Complete.antt =====
-- The producers of src/core/chunk_stream.cpp push every chunk that was asked for, in order,
-- whatever the size of the batches.
use water_structure_cpp.Common.{
  ℕ, zero, suc, ◌+◌, ◌≤◌, ◌<◌, max, ◌≡◌, refl, sym, ap, ◌∙◌, true, List, [], ◌∷◌, ◌++◌, map, some,
  length, take, drop, take-append-drop, length-drop, append_assoc, arith, ltb, Bool-cases, Option,
  none, inl, inr,
}
use Prim.Native.String.{String}
use mathlib.Core.List.{map-append}
use water_structure_cpp.Common.Int.{pos, pos_part}
use water_structure_cpp.Coordinates.{ChunkPos, Size, chunk_eq, chunk_x_count, chunk_z_count}
use water_structure_cpp.Result.{success, failure, Status, done}
use water_structure_cpp.Stream.{Producer, returns, throws, throws_unknown, pushes}
use water_structure_cpp.Stream.Batches.{
  Structure, StreamChunk, find, take_entities, visit_chunks, produce_structure_batch,
  from_positions_loop, from_structure, grid_row, grid_rows, reserved, from_structure_grid,
}

chunk_eq_refl : (p : ChunkPos) → chunk_eq p p ≡ true
unfolding chunk_eq
chunk_eq_refl p = ground arith

find_self {ℓ} : {V : Type ℓ} (p : ChunkPos) (v : V) → find p ((p, v) ∷ []) ≡ some v
unfolding find
find_self p v = rw (chunk_eq_refl p)

-- The columns of a row, and the rows of a grid, row by row.
abbrev pub columns : ℕ → ℕ → ℕ → List ChunkPos
columns z x zero = []
columns z x (suc left) = record { x = pos x; z = pos z } ∷ columns z (x + 1) left

abbrev pub grid : ℕ → ℕ → ℕ → List ChunkPos
grid x_count z zero = []
grid x_count z (suc left) = columns z 0 x_count ++ grid x_count (z + 1) left

abbrev prepend : {B : Type 0} → List B → List B × Status → List B × Status
prepend xs (ys, r) = (xs ++ ys, r)

-- What is pushed and returned where an allocation may have thrown before.
abbrev pub unless_thrown :
    {Blocks : Type 0}
    → Option String
    → List (ChunkPos × Blocks) × Status
    → List (ChunkPos × Blocks) × Status
unless_thrown none done_by = done_by
unless_thrown (some e) done_by = ([], failure e)

module _ {Blocks Entity : Type 0} where
  -- What a producer pushes, and returns, where every push succeeds.
  abbrev pub yields : Producer (StreamChunk Blocks Entity) → List (ChunkPos × Blocks) × Status
  yields (returns r) = ([], r)
  yields (throws e) = ([], failure e)
  yields throws_unknown = ([], failure "")
  yields (pushes c k) = prepend ((c.position, c.blocks) ∷ []) (yields (k done))

  -- A reader that has every chunk and no error.
  pub record Serves (st : Structure Blocks Entity) (at : ChunkPos → Blocks) : Type 0 where
    pub chunks : (p : ChunkPos) → st.get_chunks (p ∷ []) ≡ success ((p, at p) ∷ [])
    pub entities :
        (ps : List ChunkPos)
        → (m : List (ChunkPos × List Entity)) × (st.get_chunk_nbt ps ≡ success m)

module _ {Blocks Entity : Type 0} (st : Structure Blocks Entity) (at : ChunkPos → Blocks)
    (serves : Serves st at) where
  abbrev placed : List ChunkPos → List (ChunkPos × Blocks)
  placed = map (λ p. (p, at p))

  yields-visit_chunks :
      (entities : List (ChunkPos × List Entity)) (ps : List ChunkPos)
      (k : Status → Producer (StreamChunk Blocks Entity))
      → yields (visit_chunks st entities ps k) ≡ prepend (placed ps) (yields (k done))
  unfolding visit_chunks
  yields-visit_chunks entities [] k = refl
  yields-visit_chunks entities (p ∷ ps) k =
      rw (serves.chunks p, visit_chunks, find_self)
        (ap (prepend ((p, at p) ∷ [])) (yields-visit_chunks (take_entities p entities).1 ps k))

  yields-batch :
      (ps : List ChunkPos) (k : Status → Producer (StreamChunk Blocks Entity))
      → yields (produce_structure_batch st ps k) ≡ prepend (placed ps) (yields (k done))
  unfolding produce_structure_batch
  yields-batch ps k =
      let (entities, e) = serves.entities ps in
      rw (e, produce_structure_batch) (yields-visit_chunks entities ps k)

  -- A batch and the batches after it.
  prepend_split :
      (ps qs rs : List ChunkPos) (r : Status)
      → ps ++ qs ≡ rs
      → prepend (placed ps) (placed qs, r) ≡ (placed rs, r)
  prepend_split ps qs rs r e = ap (λ l. (l, r)) (sym (map-append _ ps qs) ∙ ap placed e)

  yields-loop :
      (fuel size : ℕ) (ps : List ChunkPos)
      → 0 < size
      → length ps ≤ fuel
      → yields (from_positions_loop fuel st size ps) ≡ (placed ps, done)
  unfolding from_positions_loop
  yields-loop fuel size [] h hf = refl
  yields-loop zero size (p ∷ ps) h hf = absurd (omega arith)
  yields-loop (suc fuel) size (p ∷ ps) h hf =
      yields-batch (take size (p ∷ ps)) _
      ∙ ap (prepend (placed (take size (p ∷ ps))))
          (yields-loop fuel size (drop size (p ∷ ps)) h (omega (arith, length-drop size (p ∷ ps))))
      ∙ prepend_split (take size (p ∷ ps)) (drop size (p ∷ ps)) (p ∷ ps) done
          (take-append-drop size (p ∷ ps))

  -- From a reader that has every chunk, `from_structure` pushes exactly the chunks of the positions
  -- given, in their order, and ends with success, whatever the batch size.
  pub from_structure_complete :
      (positions : List ChunkPos) (source_batch_size : ℕ)
      → yields (from_structure st positions source_batch_size)
        ≡ (map (λ p. (p, at p)) positions, done)
  unfolding from_structure
  from_structure_complete positions n =
      yields-loop (length positions) (max n 1) positions (omega arith) (omega arith)

  -- What follows a row pushes the batch that it is handed, then `tail`.
  abbrev Resumes : (List ChunkPos → Producer (StreamChunk Blocks Entity)) → List ChunkPos → Type 0
  Resumes k tail = (rest : List ChunkPos) → yields (k rest) ≡ (placed (rest ++ tail), done)

  yields-grid_row :
      (size z x left : ℕ) (batch tail : List ChunkPos)
      (k : List ChunkPos → Producer (StreamChunk Blocks Entity))
      → Resumes k tail
      → yields (grid_row st size z x left batch k)
        ≡ (placed (batch ++ (columns z x left ++ tail)), done)
  unfolding grid_row
  yields-grid_row size z x zero batch tail k h = h batch
  yields-grid_row size z x (suc left) batch tail k h =
      let cell : ChunkPos = record { x = pos x; z = pos z } in
      let batch' : List ChunkPos = batch ++ cell ∷ [] in
      let after : List ChunkPos = columns z (x + 1) left ++ tail in
      let regroup : batch' ++ after ≡ batch ++ cell ∷ after =
        append_assoc batch (cell ∷ []) after in
      elim (Bool-cases (ltb (length batch') size)) [
        | inl more ↦ rw more (
            yields-grid_row size z (x + 1) left batch' tail k h
            ∙ ap (λ l. (placed l, done)) regroup)
        | inr full ↦ rw full (
            yields-batch batch' _
            ∙ ap (prepend (placed batch')) (yields-grid_row size z (x + 1) left [] tail k h)
            ∙ prepend_split batch' after _ done regroup)
      ]

  yields-grid_rows :
      (size x_count z left : ℕ)
      → Resumes (λ batch. grid_rows st size x_count z left batch) (grid x_count z left)
  unfolding grid_rows
  yields-grid_rows size x_count z zero [] = refl
  yields-grid_rows size x_count z zero (p ∷ batch) =
      yields-batch (p ∷ batch) _ ∙ prepend_split (p ∷ batch) [] (p ∷ batch ++ []) done refl
  yields-grid_rows size x_count z (suc left) batch =
      yields-grid_row size z 0 x_count batch (grid x_count (z + 1) left) _
        (yields-grid_rows size x_count (z + 1) left)

  yields-reserved :
      (o : Option String) (p : Producer (StreamChunk Blocks Entity))
      → yields (reserved o p) ≡ unless_thrown o (yields p)
  yields-reserved none p = refl
  yields-reserved (some e) p = refl

  -- From a reader that has every chunk, `from_structure_grid` fails without a chunk where there is no
  -- room for a batch, with the text of what is thrown; else it pushes the same chunks as
  -- `from_structure` with the list of all chunk positions, row by row, whatever the batch sizes of the
  -- two: no column is skipped, repeated or out of order where a batch ends inside a row.
  pub from_structure_grid_complete :
      (reserve : ℕ → Option String) (size : Size) (source_batch_size other_batch_size : ℕ)
      → yields (from_structure_grid reserve st size source_batch_size)
        ≡ unless_thrown (reserve (max source_batch_size 1)) (
            yields (
              from_structure st
                (grid (pos_part (chunk_x_count size)) 0 (pos_part (chunk_z_count size)))
                other_batch_size))
  unfolding from_structure_grid
  from_structure_grid_complete reserve size n m =
      let x_count = pos_part (chunk_x_count size) in
      let z_count = pos_part (chunk_z_count size) in
      yields-reserved (reserve (max n 1)) (grid_rows st (max n 1) x_count 0 z_count [])
      ∙ ap (unless_thrown (reserve (max n 1)))
          (yields-grid_rows (max n 1) x_count 0 z_count [] ∙ sym (from_structure_complete _ m))
