-- ===== src/Store/Chunks/Effects.antt =====
-- What the loop bodies of `get_chunks_impl` in src/core/decoded_structure.cpp do to one position.
use water_structure_cpp.Common.{
  ℕ, ◌≡◌, refl, sym, ap, ◌∙◌, Bool, false, [], ◌∷◌, if◌then◌else◌, arith, Bool-cases, inl, inr, All,
}
use water_structure_cpp.Common.Int.{pos, ◌≤ℤ◌, ◌<ℤ◌, eqb_ℤ_iff}
use water_structure_cpp.Coordinates.{BlockPos, Size, block_eq}
use water_structure_cpp.Chunk.{SubChunks}
use water_structure_cpp.Store.{Store, is_outside}
use water_structure_cpp.Store.Map.{Entries}
use water_structure_cpp.Store.Chunks.{for_each, write_block, place_block, place_outside}
use water_structure_cpp.Store.Chunks.Place.{
  read, read-write_block, Fits, chunk_of, sub_of, index_of, place_block_lem, place_outside_lem,
  place_unique, same_chunk, place_outside_skips, same_position_chunk,
}
use water_structure_cpp.Store.Chunks.Window.{last_value}
use water_structure_cpp.Store.Chunks.Loops.{Does, Does-then}

pub inside_bounds :
    (size : Size) (p : BlockPos)
    → is_outside size p ≡ false
    → (pos 0 ≤ℤ p.x)
      × (p.x <ℤ size.width)
      × (pos 0 ≤ℤ p.y)
      × (p.y <ℤ size.height)
      × (pos 0 ≤ℤ p.z)
      × (p.z <ℤ size.length)
unfolding is_outside
inside_bounds size p h = ground arith

module _ (s : Store) (l1 : Bool) (p : BlockPos) (fits : Fits s.offset p) where
  abbrev pub stands : SubChunks → ℕ
  stands subs = read s.air subs (sub_of s.offset p) (index_of s.offset p)

  -- The entry lies in the chunk of `p`, and nothing overflows.
  abbrev pub Near : BlockPos × ℕ → Type 0
  Near e = Fits s.offset e.0 × (chunk_of s.offset e.0 ≡ chunk_of s.offset p)

  write-Does :
      (q : BlockPos) (id : ℕ)
      → Near (q, id)
      → (subs : SubChunks)
      → stands (write_block s.air l1 (sub_of s.offset q) (index_of s.offset q) id subs)
        ≡ (if block_eq q p then id else stands subs)
  write-Does q id (fq, c) subs =
      read-write_block s.air l1 (sub_of s.offset q) (index_of s.offset q) id subs
        (sub_of s.offset p) (index_of s.offset p)
      ∙ ap (λ b. if b then id else stands subs) (place_unique s.offset p q fits fq (sym c))

  place_block-Does :
      (q : BlockPos) (id : ℕ)
      → Near (q, id)
      → Does stands
          (place_block s l1 (chunk_of s.offset p) (q, id))
          (λ d. if block_eq q p then id else d)
  place_block-Does q id (fq, c) subs = (
    write_block s.air l1 (sub_of s.offset q) (index_of s.offset q) id subs,
    ap (λ k. place_block s l1 k (q, id) subs) (sym c) ∙ place_block_lem s l1 q id subs fq,
    write-Does q id (fq, c) subs,
  )

  pub entries-Does :
      (m : Entries ℕ)
      → All Near m
      → Does stands (for_each m (place_block s l1 (chunk_of s.offset p))) (last_value p m)
  unfolding for_each
  entries-Does [] near = λ subs. (subs, refl, refl)
  entries-Does ((q, id) ∷ m) (near, others) =
      Does-then stands (place_block s l1 (chunk_of s.offset p) (q, id))
        (for_each m (place_block s l1 (chunk_of s.offset p))) (λ d. if block_eq q p then id else d)
        (last_value p m) (place_block-Does q id near) (entries-Does m others)

  -- A block that is looked for among those outside changes what stands at its own position alone.
  place_outside-Does :
      (q : BlockPos) (id : ℕ)
      → Fits s.offset q
      → Does stands
          (place_outside s l1 (chunk_of s.offset p) (q, id))
          (λ d. if block_eq q p then id else d)
  place_outside-Does q id fq subs =
      elim (Bool-cases (same_chunk (chunk_of s.offset q) (chunk_of s.offset p))) [
        | inl same ↦
            let hx = (eqb_ℤ_iff (chunk_of s.offset q).x (chunk_of s.offset p).x).0 (ground arith) in
            let hz = (eqb_ℤ_iff (chunk_of s.offset q).z (chunk_of s.offset p).z).0 (ground arith) in
            let c : chunk_of s.offset q ≡ chunk_of s.offset p =
              λ i. record { x = hx i; z = hz i } in
            (
              write_block s.air l1 (sub_of s.offset q) (index_of s.offset q) id subs,
              ap (λ k. place_outside s l1 k (q, id) subs) (sym c)
                  ∙ place_outside_lem s l1 q id subs fq,
              write-Does q id (fq, c) subs,
            )
        | inr other ↦ (
          subs,
          place_outside_skips s l1 (chunk_of s.offset p) q id subs fq other,
          ground (arith, same_position_chunk s.offset p q),
        )
      ]

  pub outside-Does :
      (m : Entries ℕ)
      → All (λ e. Fits s.offset e.0) m
      → Does stands (for_each m (place_outside s l1 (chunk_of s.offset p))) (last_value p m)
  unfolding for_each
  outside-Does [] f = λ subs. (subs, refl, refl)
  outside-Does ((q, id) ∷ m) (f, others) =
      Does-then stands (place_outside s l1 (chunk_of s.offset p) (q, id))
        (for_each m (place_outside s l1 (chunk_of s.offset p)))
        (λ d. if block_eq q p then id else d) (last_value p m) (place_outside-Does q id f)
        (outside-Does m others)
