-- ===== src/Store/Runs.antt =====
-- A run of src/core/decoded_structure.cpp: blocks on both sides of the declared size.
use water_structure_cpp.Common.{◌≡◌, List, true, [], ◌∷◌, none, some, if◌then◌else◌, arith, refl}
use water_structure_cpp.Common.Int.{ℤ, pos, negsuc, +ℤ_parts, ◌+ℤ◌, ◌-ℤ◌, ◌*ℤ◌}
use water_structure_cpp.Coordinates.{BlockPos, ChunkPos, block_eq, block_lt}
use water_structure_cpp.Result.{success}
use water_structure_cpp.Chunk.{ChunkMap, empty_chunk, block_at, find_chunk}
use water_structure_cpp.Store.{
  put_entity, Store, make_store, put, set_size, set_offset, set_include_out_of_bounds, is_outside,
}
use water_structure_cpp.Store.Map.{lookup, insert, erase}
use water_structure_cpp.Store.Count.{
  IsValid, Call, sets_size, sets_offset, includes, puts, perform_all, calls-IsValid,
}
use water_structure_cpp.Store.View.{view, calls-View}
use water_structure_cpp.Store.Chunks.{get_chunks_impl}
use water_structure_cpp.Store.Chunks.Place.{Fits, chunk_of}
use water_structure_cpp.Store.Chunks.Window.{value_or}
use water_structure_cpp.Store.Entities.{
  NbtChunkMap, get_chunk_nbt, entities_of, is_asked, get_chunk_nbt_finds,
}
use water_structure_cpp.Store.Chunks.RoundTrip.{
  IsReady, Meets, get_chunks_reads, outside_chunk_empty,
}

abbrev inner : BlockPos
inner = record { x = pos 1; y = pos 2; z = pos 3 }

abbrev outer : BlockPos
outer = record { x = pos 100; y = pos 2; z = pos 3 }

abbrev calls : List Call
calls =
    sets_size (record { width = pos 4; height = pos 5; length = pos 6 })
    ∷ sets_offset (record { x = negsuc 2; y = pos 0; z = pos 40 })
    ∷ includes true
    ∷ puts inner 9
    ∷ puts outer 8
    ∷ []

abbrev filled : Store
filled = perform_all (make_store 0) calls

calls-IsValid_example : IsValid filled
calls-IsValid_example = calls-IsValid 0 calls

calls-View_example :
    (lookup outer filled.blocks ≡ (view outer calls).block)
    × (lookup outer filled.out_of_bounds_blocks ≡ (view outer calls).kept_outside)
    × (lookup outer filled.entities ≡ (view outer calls).entity)
calls-View_example = calls-View 0 calls outer

inner-Fits : Fits filled.offset inner
unfolding ◌+ℤ◌ ◌-ℤ◌ make_store set_size set_offset set_include_out_of_bounds put
inner-Fits = ground arith

outer-Fits : Fits filled.offset outer
unfolding ◌+ℤ◌ ◌-ℤ◌ make_store set_size set_offset set_include_out_of_bounds put
outer-Fits = ground arith

filled-IsReady : IsReady filled
unfolding make_store set_size set_offset set_include_out_of_bounds put insert erase block_lt
    block_eq is_outside
filled-IsReady = record {
  width32 = omega arith;
  height32 = omega arith;
  length32 = omega arith;
  sorted = (refl, tt);
  all_fit = (inner-Fits, (outer-Fits, tt));
  outside_fit = (outer-Fits, tt);
  outside = (refl, tt);
}

get_chunks_reads_example :
    (chunks : ChunkMap) × (get_chunks_impl filled (chunk_of filled.offset inner ∷ []) true
      ≡ success chunks)
    × (block_at filled.air chunks
          (inner.x +ℤ filled.offset.x)
          (inner.y +ℤ filled.offset.y)
          (inner.z +ℤ filled.offset.z)
        ≡ value_or (lookup inner filled.blocks) filled.air)
unfolding make_store set_size set_offset set_include_out_of_bounds put is_outside
get_chunks_reads_example = get_chunks_reads filled true inner filled-IsReady inner-Fits refl

abbrev home : ChunkPos
home = record { x = negsuc 0; z = pos 2 }

abbrev far : ChunkPos
far = record { x = pos 6; z = pos 2 }

far_apart : (x z : ℤ) → ¬ Meets filled far x z
unfolding make_store set_size set_offset set_include_out_of_bounds put ◌*ℤ◌
far_apart x z m = omega (arith, m.to_x, m.west, +ℤ_parts x filled.offset.x)

outside_chunk_empty_example :
    get_chunks_impl filled (far ∷ []) true ≡ success ((far, empty_chunk) ∷ [])
outside_chunk_empty_example = outside_chunk_empty filled true far far_apart

abbrev with_chest : Store
with_chest = put_entity filled inner (10 ∷ 0 ∷ [])

get_chunk_nbt_finds_example :
    (m : NbtChunkMap) × (get_chunk_nbt with_chest (far ∷ home ∷ far ∷ []) ≡ success m)
    × (find_chunk home m ≡ (
        if is_asked home (far ∷ home ∷ far ∷ [])
        then some (entities_of with_chest.offset home with_chest.entities)
        else none))
get_chunk_nbt_finds_example = get_chunk_nbt_finds with_chest (far ∷ home ∷ far ∷ []) home
