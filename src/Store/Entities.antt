-- ===== src/Store/Entities.antt =====
-- `get_chunk_nbt` of src/core/decoded_structure.cpp.
use water_structure_cpp.Common.{
  ◌≡◌, refl, sym, ap, ◌∙◌, Bool, true, false, ◌||◌, List, [], ◌∷◌, ◌++◌, map, append-nil,
  append_assoc, Option, none, some, Bool-cases, inl, inr, arith, if◌then◌else◌,
}
use water_structure_cpp.Common.Int.{pos, ◌-ℤ◌, ◌*ℤ◌, ◌≤ℤ◌, ◌<ℤ◌, eqb_ℤ_iff, wrap32, wrap32-IsInt32}
use water_structure_cpp.Coordinates.{
  BlockPos, ChunkPos, chunk_eq, block_to_chunk, structure_y_to_chunk_local, floor_mod,
}
use water_structure_cpp.Coordinates.Floor.{floor_mod_bounds}
use water_structure_cpp.Result.{Result, success}
use water_structure_cpp.Chunk.{find_chunk}
use water_structure_cpp.Store.{Store, NbtPayload}
use water_structure_cpp.Store.Map.{Entries}
use water_structure_cpp.Store.Chunks.{world_of, keys, without}

-- include/WaterStructure/types.hpp.
pub record BlockEntity : Type 0 where
  pub position : BlockPos
  pub payload : NbtPayload

-- include/WaterStructure/structure.hpp.
abbrev pub NbtChunkMap : Type 0
NbtChunkMap = List (ChunkPos × List BlockEntity)

-- The entity of the chunk's list, by the chunk's own coordinates.
unfoldable pub entity_in : ChunkPos → BlockPos → NbtPayload → BlockEntity
entity_in chunk w payload = record {
  position = record {
    x = wrap32 (w.x -ℤ wrap32 (chunk.x *ℤ pos 16));
    y = structure_y_to_chunk_local w.y;
    z = wrap32 (w.z -ℤ wrap32 (chunk.z *ℤ pos 16));
  };
  payload = payload;
}

-- `find`, and `push_back` where it found something.
unfoldable pub push_entity : ChunkPos → BlockEntity → NbtChunkMap → NbtChunkMap
push_entity p e [] = []
push_entity p e ((q, es) ∷ m) =
    if chunk_eq q p then (q, es ++ e ∷ []) ∷ m else (q, es) ∷ push_entity p e m

collect_entities : BlockPos → Entries NbtPayload → NbtChunkMap → NbtChunkMap
unfolding push_entity
collect_entities offset [] result = result
collect_entities offset ((local, payload) ∷ rest) result =
    let w = world_of offset local in
    let chunk = block_to_chunk w in
    collect_entities offset rest (push_entity chunk (entity_in chunk w payload) result)

pub get_chunk_nbt : Store → List ChunkPos → Result NbtChunkMap
unfolding collect_entities keys
get_chunk_nbt s positions =
    success (collect_entities s.offset s.entities (map (λ p. (p, [])) (keys positions)))

-- The entities that stand in a chunk, in the order of the store.
abbrev pub entities_of : BlockPos → ChunkPos → Entries NbtPayload → List BlockEntity
entities_of offset p [] = []
entities_of offset p ((local, payload) ∷ rest) =
    let w = world_of offset local in
    let others = entities_of offset p rest in
    if chunk_eq p (block_to_chunk w) then entity_in p w payload ∷ others else others

abbrev pub is_asked : ChunkPos → List ChunkPos → Bool
is_asked p [] = false
is_asked p (q ∷ qs) = chunk_eq q p || is_asked p qs

chunk_eq→eq : (p q : ChunkPos) → chunk_eq p q ≡ true → p ≡ q
unfolding chunk_eq
chunk_eq→eq p q h =
    let hx = (eqb_ℤ_iff p.x q.x).0 (ground arith) in
    let hz = (eqb_ℤ_iff p.z q.z).0 (ground arith) in λ i. record { x = hx i; z = hz i }

pub chunk_eq_facts :
    (p q r : ChunkPos)
    → (chunk_eq p p ≡ true)
      × (chunk_eq p q ≡ chunk_eq q p)
      × (chunk_eq p q ≡ true → chunk_eq p r ≡ chunk_eq q r)
unfolding chunk_eq
chunk_eq_facts p q r = (ground arith, ground arith, λ h. ap (λ w. chunk_eq w r) (chunk_eq→eq p q h))

abbrev add_to : Option (List BlockEntity) → List BlockEntity → Option (List BlockEntity)
add_to none more = none
add_to (some es) more = some (es ++ more)

find-push_entity :
    (p c : ChunkPos) (e : BlockEntity) (m : NbtChunkMap)
    → find_chunk p (push_entity c e m)
      ≡ (if chunk_eq p c then add_to (find_chunk p m) (e ∷ []) else find_chunk p m)
unfolding find_chunk push_entity
find-push_entity p c e [] = ground arith
find-push_entity p c e ((q, es) ∷ m) = ground (
  arith,
  find-push_entity p c e m,
  chunk_eq_facts q p c,
  chunk_eq_facts q c p,
  chunk_eq_facts c p c,
)

add_to_twice :
    (o : Option (List BlockEntity)) (e : BlockEntity) (more : List BlockEntity)
    → add_to (add_to o (e ∷ [])) more ≡ add_to o (e ∷ more)
add_to_twice none e more = refl
add_to_twice (some es) e more = ap some (append_assoc es (e ∷ []) more)

add_nothing : (o : Option (List BlockEntity)) → o ≡ add_to o []
add_nothing none = refl
add_nothing (some es) = ap some (sym (append-nil es))

find-collect_entities :
    (offset : BlockPos) (p : ChunkPos) (es : Entries NbtPayload) (m : NbtChunkMap)
    → find_chunk p (collect_entities offset es m)
      ≡ add_to (find_chunk p m) (entities_of offset p es)
unfolding collect_entities
find-collect_entities offset p [] m = add_nothing (find_chunk p m)
find-collect_entities offset p ((local, payload) ∷ rest) m =
    let w = world_of offset local in
    let c = block_to_chunk w in
    find-collect_entities offset p rest (push_entity c (entity_in c w payload) m)
    ∙ elim (Bool-cases (chunk_eq p c)) [
      | inl mine ↦
          ap (λ o. add_to o (entities_of offset p rest))
            (find-push_entity p c (entity_in c w payload) m)
          ∙ rw (mine) (
              add_to_twice (find_chunk p m) (entity_in c w payload) (entities_of offset p rest)
              ∙ ap
                  (λ q. add_to (find_chunk p m) (entity_in q w payload ∷ entities_of offset p rest))
                  (sym (chunk_eq→eq p c mine)))
      | inr other ↦
          ap (λ o. add_to o (entities_of offset p rest))
            (find-push_entity p c (entity_in c w payload) m)
          ∙ rw (other) refl
    ]

find-without :
    (p q : ChunkPos) (qs : List ChunkPos)
    → chunk_eq q p ≡ false
    → is_asked p (without q qs) ≡ is_asked p qs
find-without p q [] h = refl
find-without p q (r ∷ qs) h = ground (arith, find-without p q qs h, chunk_eq_facts r q p)

is_asked-keys : (p : ChunkPos) (ps : List ChunkPos) → is_asked p (keys ps) ≡ is_asked p ps
unfolding keys
is_asked-keys p [] = refl
is_asked-keys p (q ∷ ps) = ground (arith, is_asked-keys p ps, find-without p q (keys ps))

find-empty :
    (p : ChunkPos) (ps : List ChunkPos)
    → find_chunk {V = List BlockEntity} p (map (λ q. (q, [])) ps)
      ≡ (if is_asked p ps then some [] else none)
unfolding find_chunk
find-empty p [] = refl
find-empty p (q ∷ ps) = ground (arith, find-empty p ps)

-- For each chunk that was asked for, once or more often, the answer holds exactly the entities that
-- stand in it, in the store's order; for every other chunk it holds nothing. It does not fail.
pub get_chunk_nbt_finds :
    (s : Store) (positions : List ChunkPos) (p : ChunkPos)
    → (m : NbtChunkMap) × (get_chunk_nbt s positions ≡ success m)
      × (find_chunk p m
          ≡ (if is_asked p positions then some (entities_of s.offset p s.entities) else none))
unfolding get_chunk_nbt
get_chunk_nbt_finds s positions p = (
  collect_entities s.offset s.entities (map (λ q. (q, [])) (keys positions)),
  refl,
  find-collect_entities s.offset p s.entities (map (λ q. (q, [])) (keys positions))
      ∙ ground (arith, find-empty p (keys positions), is_asked-keys p positions),
)

abbrev pub entity_at : BlockPos → BlockPos → NbtPayload → BlockEntity
entity_at offset local = entity_in (block_to_chunk (world_of offset local)) (world_of offset local)

-- An entity's position in its chunk is from 0 to 15 along both horizontal axes, whatever its world
-- position, also where the sum with the offset wraps.
pub entity_in_bounds :
    (offset local : BlockPos) (payload : NbtPayload)
    → (pos 0 ≤ℤ (entity_at offset local payload).position.x)
      × ((entity_at offset local payload).position.x <ℤ pos 16)
      × (pos 0 ≤ℤ (entity_at offset local payload).position.z)
      × ((entity_at offset local payload).position.z <ℤ pos 16)
unfolding entity_in block_to_chunk world_of floor_mod
entity_in_bounds offset local payload =
    let w = world_of offset local in
    let (ex, x0, x1) = floor_mod_bounds w.x 16 (wrap32-IsInt32 _) (omega arith) (omega arith) in
    let (ez, z0, z1) = floor_mod_bounds w.z 16 (wrap32-IsInt32 _) (omega arith) (omega arith) in
    (x0, x1, z0, z1)
