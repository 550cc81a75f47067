-- ===== src/ChunkIndex/Finds.antt =====
-- What the index of include/WaterStructure/chunk_index.hpp holds.
use native.Mathlib.Nat.{mod-eq_of_lt}
use water_structure_cpp.Common.{
  ℕ, ◌+◌, ◌-◌, ◌%◌, ◌^◌, ◌≤◌, ◌<◌, ◌≡◌, refl, sym, ap, ◌∙◌, true, false, List, [], ◌∷◌, ◌++◌,
  append_assoc, append-nil, Option, none, some, length, ltb, Bool-cases, inl, inr, arith,
  if◌then◌else◌,
}
use water_structure_cpp.Coordinates.{BlockPos, ChunkPos, chunk_eq, block_to_chunk}
use water_structure_cpp.Chunk.{find_chunk}
use water_structure_cpp.Store.Chunks.{world_of}
use water_structure_cpp.Store.Entities.{chunk_eq_facts}
use water_structure_cpp.ChunkIndex.{
  Buckets, ChunkBlockIndex, push_index, index_blocks, ensure, find_bucket, clear,
}

-- The indices, from `i` on, of the blocks that stand in a chunk.
abbrev pub indices_in : BlockPos → ChunkPos → ℕ → List BlockPos → List ℕ
indices_in offset c i [] = []
indices_in offset c i (p ∷ ps) =
    let others = indices_in offset c (i + 1) ps in
    if chunk_eq c (block_to_chunk (world_of offset p)) then i ∷ others else others

-- A chunk without a block has no bucket.
abbrev pub if_any : List ℕ → Option (List ℕ)
if_any [] = none
if_any (i ∷ is) = some (i ∷ is)

abbrev extend : Option (List ℕ) → List ℕ → Option (List ℕ)
extend none more = if_any more
extend (some is) more = some (is ++ more)

find-push_index :
    (c p : ChunkPos) (i : ℕ) (m : Buckets)
    → find_chunk c (push_index p i m)
      ≡ (if chunk_eq c p then extend (find_chunk c m) (i ∷ []) else find_chunk c m)
unfolding find_chunk push_index
find-push_index c p i [] = ground (arith, chunk_eq_facts c p c)
find-push_index c p i ((q, is) ∷ m) = ground (
  arith,
  find-push_index c p i m,
  chunk_eq_facts q c p,
  chunk_eq_facts q p c,
  chunk_eq_facts p c p,
)

extend_twice :
    (o : Option (List ℕ)) (i : ℕ) (more : List ℕ)
    → extend (extend o (i ∷ [])) more ≡ extend o (i ∷ more)
extend_twice none i more = refl
extend_twice (some is) i more = ap some (append_assoc is (i ∷ []) more)

extend_nothing : (o : Option (List ℕ)) → o ≡ extend o []
extend_nothing none = refl
extend_nothing (some is) = ap some (sym (append-nil is))

find-index_blocks :
    (offset : BlockPos) (c : ChunkPos) (i : ℕ) (ps : List BlockPos) (m : Buckets)
    → i + length ps ≤ 2 ^ 32
    → find_chunk c (index_blocks offset i ps m) ≡ extend (find_chunk c m) (indices_in offset c i ps)
unfolding index_blocks
find-index_blocks offset c i [] m h = extend_nothing (find_chunk c m)
find-index_blocks offset c i (p ∷ ps) m h =
    let b = block_to_chunk (world_of offset p) in
    let small : i % 2 ^ 32 ≡ i = mod-eq_of_lt (omega arith) in
    find-index_blocks offset c (i + 1) ps (push_index b (i % 2 ^ 32) m) (omega arith)
    ∙ ap (λ o. extend o (indices_in offset c (i + 1) ps))
        (find-push_index c b (i % 2 ^ 32) m
          ∙ ap
              (λ (n : ℕ). if chunk_eq c b then extend (find_chunk c m) (n ∷ []) else find_chunk c m)
              small)
    ∙ elim (Bool-cases (chunk_eq c b)) [
      | inl mine ↦ rw mine (extend_twice (find_chunk c m) i (indices_in offset c (i + 1) ps))
      | inr other ↦ rw other refl
    ]

-- A cleared index, once ensured, has for each chunk exactly the indices of the blocks that stand in
-- it, in ascending order, and no bucket for a chunk without a block; it is refused only where there
-- are more blocks than a uint32_t can count.
pub ensure_finds :
    (index : ChunkBlockIndex) (blocks : List BlockPos) (offset : BlockPos) (c : ChunkPos)
    → length blocks < 2 ^ 32
    → ((ensure (clear index) blocks offset).0 ≡ true)
      × (find_bucket (ensure (clear index) blocks offset).1 c
          ≡ if_any (indices_in offset c 0 blocks))
unfolding ensure find_bucket find_chunk
ensure_finds index blocks offset c h =
    let fits : ltb (2 ^ 32 - 1) (length blocks) ≡ false = ground arith in
    (rw fits refl, rw fits (find-index_blocks offset c 0 blocks [] (omega arith)))

-- `ensure` keeps an index that is ready, makes one as `ensure_finds` says, or leaves it alone.
pub ensure_keeps :
    (index : ChunkBlockIndex) (blocks : List BlockPos) (offset : BlockPos)
    → (index.ready ≡ true
        → (c : ChunkPos) → find_bucket index c ≡ if_any (indices_in offset c 0 blocks))
    → (ensure index blocks offset).1.ready ≡ true
    → (c : ChunkPos)
    → find_bucket (ensure index blocks offset).1 c ≡ if_any (indices_in offset c 0 blocks)
unfolding ensure find_bucket find_chunk
ensure_keeps index blocks offset fresh now c = elim (Bool-cases index.ready) [
  | inl ready ↦ rw ready (fresh ready c)
  | inr stale ↦ elim (Bool-cases (ltb (2 ^ 32 - 1) (length blocks))) [
    | inl many ↦ absurd (ground (arith, now, stale, many))
    | inr few ↦ rw (stale, few) (find-index_blocks offset c 0 blocks [] (ground (arith, few)))
  ]
]
