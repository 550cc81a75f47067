-- ===== src/RunAway.antt =====
-- src/formats/runaway.cpp: from the entries of the file, each a position with a runtime id, to the
-- normalized blocks, and the chunks made of these. The JSON library reads the entries, in the order
-- of the file. A stable sort by the position has one result, so which one it is does not matter.
pub mod Placement
pub mod Index
mod Runs
use water_structure_cpp.Common.{
  ℕ, zero, suc, ◌+◌, ◌-◌, ◌%◌, ◌^◌, Bool, true, false, not, ◌||◌, List, [], ◌∷◌, map, Option, none,
  some, get_elem?, ◌==◌, if◌then◌else◌,
}
use water_structure_cpp.Common.Int.{ℤ, pos, negsuc, ◌+ℤ◌, ◌-ℤ◌, ◌*ℤ◌, neg_ℤ, ltb_ℤ, wrap32}
use water_structure_cpp.Coordinates.{BlockPos, ChunkPos, Size, block_lt, block_eq, floor_div}
use water_structure_cpp.Result.{Result, success, failure, ◌>>=◌}
use water_structure_cpp.Chunk.{ChunkMap, ChunkData, SubChunks, empty_chunk, layer_index}
use water_structure_cpp.Store.Map.{Entries}
use water_structure_cpp.Store.Chunks.{write_block, keys, world_of}
use water_structure_cpp.ChunkIndex.{ChunkBlockIndex, clear, ensure, find_bucket}

pub record RunAwayStructure : Type 0 where
  pub original_size : Size
  pub size : Size
  pub offset : BlockPos
  pub blocks : Entries ℕ
  pub index : ChunkBlockIndex
  pub non_air_blocks : ℕ

-- `std::stable_sort` by the position: a block stays before those that follow it at its position.
insert_stable : BlockPos × ℕ → Entries ℕ → Entries ℕ
insert_stable b [] = b ∷ []
insert_stable b (c ∷ l) = if block_lt c.0 b.0 then c ∷ insert_stable b l else b ∷ c ∷ l

pub stable_sort : Entries ℕ → Entries ℕ
unfolding insert_stable
stable_sort [] = []
stable_sort (b ∷ l) = insert_stable b (stable_sort l)

-- The loop over the runs of one position, from `begin` on; `selected` is the last of the run so far.
last_of_runs : BlockPos × ℕ → BlockPos × ℕ → Entries ℕ → Entries ℕ
last_of_runs begin selected [] = selected ∷ []
last_of_runs begin selected (b ∷ l) =
    let same = last_of_runs begin b l in
    let next = selected ∷ last_of_runs b b l in if block_eq b.0 begin.0 then same else next

pub distinct : Entries ℕ → Entries ℕ
unfolding last_of_runs
distinct [] = []
distinct (b ∷ l) = last_of_runs b b l

-- The least and the greatest coordinate of the blocks.
abbrev int32_max : ℤ
int32_max = pos (2 ^ 31 - 1)

abbrev int32_min : ℤ
int32_min = negsuc (2 ^ 31 - 1)

least : (BlockPos → ℤ) → Entries ℕ → ℤ → ℤ
least axis [] so_far = so_far
least axis (b ∷ l) so_far = least axis l (if ltb_ℤ (axis b.0) so_far then axis b.0 else so_far)

greatest : (BlockPos → ℤ) → Entries ℕ → ℤ → ℤ
greatest axis [] so_far = so_far
greatest axis (b ∷ l) so_far =
    greatest axis l (if ltb_ℤ so_far (axis b.0) then axis b.0 else so_far)

abbrev corner : (axis : (BlockPos → ℤ) → Entries ℕ → ℤ → ℤ) → ℤ → Entries ℕ → BlockPos
corner end start l = record {
  x = end (λ p. p.x) l start;
  y = end (λ p. p.y) l start;
  z = end (λ p. p.z) l start;
}

-- Each block is moved by the least coordinates.
abbrev shift : BlockPos → BlockPos × ℕ → BlockPos × ℕ
shift min (p, id) =
    (record { x = wrap32 (p.x -ℤ min.x); y = wrap32 (p.y -ℤ min.y); z = wrap32 (p.z -ℤ min.z) }, id)

count_solid : ℕ → Entries ℕ → ℕ
count_solid air [] = 0
count_solid air (b ∷ l) =
    let rest = count_solid air l in if b.1 == air then rest else (rest + 1) % 2 ^ 64

-- `std::abs`.
magnitude : ℤ → ℤ
magnitude z = if ltb_ℤ z (pos 0) then wrap32 (neg_ℤ z) else z

pub set_offset : RunAwayStructure → BlockPos → RunAwayStructure
unfolding magnitude
set_offset r offset = record r {
  offset = offset;
  index = clear r.index;
  size = record {
    width = wrap32 (r.original_size.width +ℤ magnitude offset.x);
    height = wrap32 (r.original_size.height +ℤ magnitude offset.y);
    length = wrap32 (r.original_size.length +ℤ magnitude offset.z);
  };
}

-- The dimensions, as the int64_t that they are computed in.
extent : Entries ℕ → Size
unfolding least greatest
extent blocks =
    let min = corner least int32_max blocks in
    let max = corner greatest int32_min blocks in
    record {
      width = max.x -ℤ min.x +ℤ pos 1;
      height = max.y -ℤ min.y +ℤ pos 1;
      length = max.z -ℤ min.z +ℤ pos 1;
    }

abbrev overflows : Size → Bool
overflows s = ltb_ℤ int32_max s.width || (ltb_ℤ int32_max s.height || ltb_ℤ int32_max s.length)

normalized : ℕ → RunAwayStructure → Entries ℕ → RunAwayStructure
unfolding least count_solid extent
normalized air r blocks =
    let moved = map (shift (corner least int32_max blocks)) blocks in
    let s = extent blocks in
    record r {
      non_air_blocks = count_solid air moved;
      blocks = moved;
      original_size = record {
        width = wrap32 s.width;
        height = wrap32 s.height;
        length = wrap32 s.length;
      };
    }

abbrev origin : BlockPos
origin = record { x = pos 0; y = pos 0; z = pos 0 }

-- `read`, from the entries that the file holds.
pub read : ℕ → RunAwayStructure → Entries ℕ → Result RunAwayStructure
unfolding distinct stable_sort extent normalized set_offset
read air r [] = failure "RunAway 根节点不是非空数组"
read air r (b ∷ entries) =
    let blocks = distinct (stable_sort (b ∷ entries)) in
    if overflows (extent blocks)
    then failure "RunAway 归一化尺寸溢出 int32"
    else success (set_offset (normalized air r blocks) origin)

-- The body of the loop over the indices of a chunk.
place_block : ℕ → BlockPos → ChunkPos → BlockPos × ℕ → SubChunks → SubChunks
place_block air offset chunk_pos (local, id) subs =
    let w = world_of offset local in
    let sub_y = floor_div (wrap32 (w.y -ℤ pos 64)) (pos 16) in
    let lx = wrap32 (w.x -ℤ wrap32 (chunk_pos.x *ℤ pos 16)) in
    let ly = wrap32 (w.y -ℤ wrap32 (wrap32 (sub_y *ℤ pos 16) +ℤ pos 64)) in
    let lz = wrap32 (w.z -ℤ wrap32 (chunk_pos.z *ℤ pos 16)) in
    write_block air true sub_y (layer_index ly lz lx) id subs

-- An index that is out of range, which the index never has, places nothing here.
place_indexed : ℕ → RunAwayStructure → ChunkPos → List ℕ → SubChunks → SubChunks
unfolding place_block
place_indexed air r chunk_pos [] subs = subs
place_indexed air r chunk_pos (i ∷ is) subs = elim (get_elem? r.blocks i) [
  | none ↦ place_indexed air r chunk_pos is subs
  | some block ↦ place_indexed air r chunk_pos is (place_block air r.offset chunk_pos block subs)
]

fill_chunk : ℕ → RunAwayStructure → ChunkPos → ChunkData
unfolding place_indexed find_bucket
fill_chunk air r chunk_pos = elim (find_bucket r.index chunk_pos) [
  | none ↦ empty_chunk
  | some indexed ↦ record empty_chunk { sub_chunks = place_indexed air r chunk_pos indexed [] }
]

-- The answer, and the structure with its index filled.
pub get_chunks : ℕ → RunAwayStructure → List ChunkPos → Result ChunkMap × RunAwayStructure
unfolding fill_chunk ensure keys
get_chunks air r positions =
    let (ok, index) = ensure r.index (map (λ b. b.0) r.blocks) r.offset in
    let r' = record r { index = index } in
    (
      if ok
          then success (map (λ p. (p, fill_chunk air r' p)) (keys positions))
          else failure "RunAway chunk index 超过 uint32 容量",
      r',
    )
