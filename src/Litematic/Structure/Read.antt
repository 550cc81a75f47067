-- ===== src/Litematic/Structure/Read.antt =====
-- `get_chunks_impl` of src/formats/litematic.cpp against the palette and the packed block states.
use water_structure_cpp.Common.{
  ℕ, ◌≡◌, refl, ap, subst, ◌∙◌, Bool, true, false, [], ◌∷◌, ◌&&◌, ◌||◌, arith, Option, none, some,
  if◌then◌else◌,
}
use water_structure_cpp.Common.Int.{
  ℤ, pos, ◌+ℤ◌, ◌≤ℤ◌, ◌<ℤ◌, ltb_ℤ, eqb_ℤ, pos_part, +ℤ_parts, parts_apart,
}
use water_structure_cpp.Coordinates.{BlockPos, ChunkPos, Size, block_eq}
use water_structure_cpp.Result.{Result, success}
use water_structure_cpp.Chunk.{
  SubChunks, ChunkData, ChunkMap, find_sub_chunk, empty_chunk, block_at,
}
use water_structure_cpp.Store.{is_outside}
use water_structure_cpp.Store.Chunks.{span, source_min, source_max}
use water_structure_cpp.Store.Chunks.Local.{floor_div16_unique}
use water_structure_cpp.Store.Chunks.Place.{Fits, chunk_of}
use water_structure_cpp.Store.Chunks.Window.{source_min_lem, source_max_lem, own_chunk, value_or}
use water_structure_cpp.Store.Chunks.Loops.{Does, keep, Between, span_iff, loop_keeps, loop_hits}
use water_structure_cpp.Store.Chunks.Effects.{inside_bounds}
use water_structure_cpp.Store.Chunks.RoundTrip.{block_at-read}
use water_structure_cpp.Litematic.Structure.{
  LitematicStructure, place_cell, place_row, place_layer, fill_chunk, get_chunks_impl,
}
use water_structure_cpp.Litematic.Structure.Cells.{over, block_here, stands, cell-Does}

over_air : (air : ℕ) (b : Option ℕ) → over air b air ≡ value_or b air
over_air air none = refl
over_air air (some id) = ground arith

bounds_inside :
    (size : Size) (p : BlockPos)
    → pos 0 ≤ℤ p.x
    → p.x <ℤ size.width
    → pos 0 ≤ℤ p.y
    → p.y <ℤ size.height
    → pos 0 ≤ℤ p.z
    → p.z <ℤ size.length
    → is_outside size p ≡ false
unfolding is_outside
bounds_inside size p x0 x1 y0 y1 z0 z1 = ground arith

other_position :
    (p q : BlockPos)
    → (eqb_ℤ q.x p.x && (eqb_ℤ q.y p.y && eqb_ℤ q.z p.z)) ≡ false
    → block_eq q p ≡ false
unfolding block_eq
other_position p q h = h

same_position : (p : BlockPos) → block_eq p p ≡ true
unfolding block_eq
same_position p = ground arith

module _ (air : ℕ) (l1 : Bool) (s : LitematicStructure) (p : BlockPos)
    (all_fit : (q : BlockPos) → is_outside s.original_size q ≡ false → Fits s.offset q)
    (inside : is_outside s.original_size p ≡ false) where
  fits : Fits s.offset p
  fits = all_fit p inside

  abbrev at : SubChunks → ℕ
  at = stands air l1 s p (all_fit p inside)

  abbrev home : ChunkPos
  home = chunk_of s.offset p

  abbrev min_x : ℤ
  min_x = source_min home.x s.offset.x

  abbrev max_x : ℤ
  max_x = source_max home.x s.offset.x s.original_size.width

  abbrev min_z : ℤ
  min_z = source_min home.z s.offset.z

  abbrev max_z : ℤ
  max_z = source_max home.z s.offset.z s.original_size.length

  -- The window holds the column of `p`.
  window : (min_x ≤ℤ p.x) × (p.x ≤ℤ max_x) × (min_z ≤ℤ p.z) × (p.z ≤ℤ max_z)
  window =
      let (x0, x1, y0, y1, z0, z1) = inside_bounds s.original_size p inside in
      let (lo, hi) = own_chunk (p.x +ℤ s.offset.x) fits.fits_x in
      let (lo', hi') = own_chunk (p.z +ℤ s.offset.z) fits.fits_z in
      (
        (source_min_lem home.x s.offset.x p.x).1 x0 lo,
        (source_max_lem home.x s.offset.x s.original_size.width p.x).1 x1 hi,
        (source_min_lem home.z s.offset.z p.z).1 z0 lo',
        (source_max_lem home.z s.offset.z s.original_size.length p.z).1 z1 hi',
      )

  abbrev cell : ℤ → ℤ → ℤ → BlockPos
  cell x y z = record { x = x; y = y; z = z }

  abbrev InWindow : ℤ → ℤ → ℤ → Type 0
  InWindow x y z =
      (min_x ≤ℤ x)
      × (x ≤ℤ max_x)
      × (min_z ≤ℤ z)
      × (z ≤ℤ max_z)
      × Between (pos 0) (pos_part s.original_size.height) y

  -- A block of the window lies in the structure and in the chunk.
  cell_near :
      (x y z : ℤ)
      → InWindow x y z
      → Fits s.offset (cell x y z) × (chunk_of s.offset (cell x y z) ≡ home)
  cell_near x y z (x0, x1, z0, z1, b) =
      let (xa, xl) = (source_min_lem home.x s.offset.x x).0 x0 in
      let (xb, xh) = (source_max_lem home.x s.offset.x s.original_size.width x).0 x1 in
      let (za, zl) = (source_min_lem home.z s.offset.z z).0 z0 in
      let (zb, zh) = (source_max_lem home.z s.offset.z s.original_size.length z).0 z1 in
      let high : y <ℤ s.original_size.height = omega (
        arith,
        b,
        parts_apart y,
        parts_apart s.original_size.height,
        +ℤ_parts (pos 0) (pos (pos_part s.original_size.height)),
      ) in
      let f =
        all_fit (cell x y z) (bounds_inside s.original_size (cell x y z) xa xb b.0 high za zb) in
      let hx = floor_div16_unique (x +ℤ s.offset.x) home.x f.fits_x xl xh in
      let hz = floor_div16_unique (z +ℤ s.offset.z) home.z f.fits_z zl zh in
      (f, λ i. record { x = hx i; z = hz i })

  abbrev body : ℤ → ℤ → ℤ → SubChunks → Result SubChunks
  body y z x subs = success (place_cell air l1 s home y z x subs)

  cell-keeps :
      (x y z : ℤ)
      → InWindow x y z
      → (eqb_ℤ x p.x && (eqb_ℤ y p.y && eqb_ℤ z p.z)) ≡ false
      → Does at (body y z x) keep
  cell-keeps x y z w other =
      let (f, c) = cell_near x y z w in
      subst
        (λ b. Does at (body y z x) (λ d. if b then over air (block_here s (cell x y z)) d else d))
        (other_position p (cell x y z) other)
        (cell-Does air l1 s p (all_fit p inside) (cell x y z) f c)

  cell_hits :
      Between (pos 0) (pos_part s.original_size.height) p.y
      → Does at (body p.y p.z p.x) (over air (block_here s p))
  cell_hits b =
      let (x0, x1, z0, z1) = window in
      let (f, c) = cell_near p.x p.y p.z (x0, x1, z0, z1, b) in
      subst (λ b. Does at (body p.y p.z p.x) (λ d. if b then over air (block_here s p) d else d))
        (same_position p) (cell-Does air l1 s p (all_fit p inside) p f c)

  in_x : (x : ℤ) → Between min_x (span min_x max_x) x → x ≤ℤ max_x
  in_x x b = (span_iff min_x max_x x (omega (arith, window))).0 b.1

  in_z : (z : ℤ) → Between min_z (span min_z max_z) z → z ≤ℤ max_z
  in_z z b = (span_iff min_z max_z z (omega (arith, window))).0 b.1

  row-keeps :
      (y z : ℤ)
      → min_z ≤ℤ z
      → z ≤ℤ max_z
      → Between (pos 0) (pos_part s.original_size.height) y
      → (eqb_ℤ y p.y && eqb_ℤ z p.z) ≡ false
      → Does at (place_row air l1 s home y z) keep
  unfolding place_row
  row-keeps y z z0 z1 b other =
      loop_keeps at (span min_x max_x) min_x (body y z)
        λ x bx. cell-keeps x y z (bx.0, in_x x bx, z0, z1, b) (ground (arith, other))

  row_hits :
      Between (pos 0) (pos_part s.original_size.height) p.y
      → Does at (place_row air l1 s home p.y p.z) (over air (block_here s p))
  unfolding place_row
  row_hits b =
      let (x0, x1, z0, z1) = window in
      loop_hits at (span min_x max_x) min_x p.x (body p.y p.z) (over air (block_here s p))
        (x0, (span_iff min_x max_x p.x (omega (arith, window))).1 x1) (cell_hits b)
        λ x bx other. cell-keeps x p.y p.z (bx.0, in_x x bx, z0, z1, b) (ground (arith, other))

  layer-keeps :
      (y : ℤ)
      → Between (pos 0) (pos_part s.original_size.height) y
      → eqb_ℤ y p.y ≡ false
      → Does at (place_layer air l1 s home y) keep
  unfolding place_layer
  layer-keeps y b other =
      loop_keeps at (span min_z max_z) min_z (place_row air l1 s home y)
        λ z bz. row-keeps y z bz.0 (in_z z bz) b (ground (arith, other))

  layer_hits :
      Between (pos 0) (pos_part s.original_size.height) p.y
      → Does at (place_layer air l1 s home p.y) (over air (block_here s p))
  unfolding place_layer
  layer_hits b =
      let (x0, x1, z0, z1) = window in
      loop_hits at (span min_z max_z) min_z p.z (place_row air l1 s home p.y)
        (over air (block_here s p)) (z0, (span_iff min_z max_z p.z (omega (arith, window))).1 z1)
        (row_hits b) λ z bz other. row-keeps p.y z bz.0 (in_z z bz) b (ground (arith, other))

  in_height : Between (pos 0) (pos_part s.original_size.height) p.y
  in_height =
      let (x0, x1, y0, y1, z0, z1) = inside_bounds s.original_size p inside in
      omega (arith, +ℤ_parts (pos 0) (pos (pos_part s.original_size.height)))

  window_open : (ltb_ℤ max_x min_x || ltb_ℤ max_z min_z) ≡ false
  window_open = ground (arith, window)

  untouched : at [] ≡ air
  unfolding find_sub_chunk
  untouched = refl

  pub fill_chunk_reads :
      (chunk : ChunkData) × (fill_chunk air l1 s home ≡ success chunk)
      × (at chunk.sub_chunks ≡ over air (block_here s p) air)
  unfolding fill_chunk
  fill_chunk_reads =
      let (subs, e, v) =
        loop_hits at (pos_part s.original_size.height) (pos 0) p.y (place_layer air l1 s home)
          (over air (block_here s p)) in_height (layer_hits in_height)
          (λ y b other. layer-keeps y b other) [] in
      (
        record empty_chunk { sub_chunks = subs },
        simp (window_open, e),
        v ∙ ap (over air (block_here s p)) untouched,
      )

-- Where no block of the declared size overflows on its way to its chunk, a request for the chunk of a
-- block of that size succeeds, with one layer or two, and what a writer reads there at the block's
-- position moved by the offset is the palette's entry for the block's index in the packed states, or
-- air where the palette has no such entry.
pub litematic_reads :
    (air : ℕ) (include_layer1 : Bool) (s : LitematicStructure) (p : BlockPos)
    → ((q : BlockPos) → is_outside s.original_size q ≡ false → Fits s.offset q)
    → is_outside s.original_size p ≡ false
    → (chunks : ChunkMap) × (get_chunks_impl air s (chunk_of s.offset p ∷ []) include_layer1
        ≡ success chunks)
      × (block_at air chunks (p.x +ℤ s.offset.x) (p.y +ℤ s.offset.y) (p.z +ℤ s.offset.z)
          ≡ value_or (block_here s p) air)
unfolding get_chunks_impl
litematic_reads air l1 s p all_fit inside =
    let (chunk, made, found) = fill_chunk_reads air l1 s p all_fit inside in
    (
      (chunk_of s.offset p, chunk) ∷ [],
      simp made,
      block_at-read air s.offset p chunk (all_fit p inside) ∙ found ∙ over_air air (block_here s p),
    )
