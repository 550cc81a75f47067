-- ===== src/Store/Chunks/Read.antt =====
-- `get_chunks_impl` of src/core/decoded_structure.cpp against the map of blocks.
use water_structure_cpp.Common.{
  ℕ, ◌≡◌, refl, ap, ◌∙◌, Bool, true, false, [], ◌∷◌, ◌&&◌, ◌||◌, arith, Bool-cases, inl, inr, All,
}
use water_structure_cpp.Common.Int.{
  ℤ, pos, ◌+ℤ◌, ◌≤ℤ◌, ◌<ℤ◌, ltb_ℤ, eqb_ℤ, pos_part, IsInt32, wrap32_of_IsInt32, +ℤ_parts,
  parts_apart,
}
use water_structure_cpp.Coordinates.{BlockPos, ChunkPos, floor_div, block_eq, block_lt}
use water_structure_cpp.Result.{Result, success}
use water_structure_cpp.Chunk.{SubChunks, find_sub_chunk, ChunkData, empty_chunk}
use water_structure_cpp.Store.{Store, is_outside}
use water_structure_cpp.Store.Map.{Entries, lookup, range, IsSorted, block_eq→eq, block_eq→EqualZ}
use water_structure_cpp.Store.Chunks.{
  for_each, int_range, place_column, fill_chunk, source_min, source_max, span,
}
use water_structure_cpp.Store.Chunks.Local.{floor_div16_unique}
use water_structure_cpp.Store.Chunks.Place.{Fits, chunk_of}
use water_structure_cpp.Store.Chunks.Window.{
  last_value, value_or, last_absent, All-range, last_range, between_keys, source_min_lem,
  source_max_lem, own_chunk,
}
use water_structure_cpp.Store.Chunks.Loops.{Does, keep, Between, span_iff, loop_keeps, loop_hits}
use water_structure_cpp.Store.Chunks.Effects.{
  inside_bounds, stands, Near, entries-Does, outside-Does,
}

module _ (s : Store) (l1 : Bool) (p : BlockPos) (fits : Fits s.offset p)
    (all_fit : All (λ e. Fits s.offset e.0) s.blocks) (sorted : IsSorted s.blocks)
    (width32 : IsInt32 s.original_size.width) (height32 : IsInt32 s.original_size.height)
    (length32 : IsInt32 s.original_size.length)
    (inside : is_outside s.original_size p ≡ false) where
  abbrev home : ChunkPos
  home = chunk_of s.offset p

  abbrev min_x : ℤ
  min_x = source_min home.x s.offset.x

  abbrev max_x : ℤ
  max_x = source_max home.x s.offset.x s.original_size.width

  abbrev min_z : ℤ
  min_z = source_min home.z s.offset.z

  abbrev max_z : ℤ
  max_z = source_max home.z s.offset.z s.original_size.length

  -- The window holds the column of `p`, and lies inside the declared size.
  window_x : (min_x ≤ℤ p.x) × (p.x ≤ℤ max_x)
  window_x =
      let (x0, x1, y0, y1, z0, z1) = inside_bounds s.original_size p inside in
      let (lo, hi) = own_chunk (p.x +ℤ s.offset.x) fits.fits_x in
      (
        (source_min_lem home.x s.offset.x p.x).1 x0 lo,
        (source_max_lem home.x s.offset.x s.original_size.width p.x).1 x1 hi,
      )

  window_z : (min_z ≤ℤ p.z) × (p.z ≤ℤ max_z)
  window_z =
      let (x0, x1, y0, y1, z0, z1) = inside_bounds s.original_size p inside in
      let (lo, hi) = own_chunk (p.z +ℤ s.offset.z) fits.fits_z in
      (
        (source_min_lem home.z s.offset.z p.z).1 z0 lo,
        (source_max_lem home.z s.offset.z s.original_size.length p.z).1 z1 hi,
      )

  ends32 : IsInt32 min_z × IsInt32 max_z
  ends32 =
      let (lo, hi) = window_z in
      let (x0, x1, y0, y1, z0, z1) = inside_bounds s.original_size p inside in
      let (m0, m1) = (source_min_lem home.z s.offset.z min_z).0 (omega arith) in
      let (n0, n1) =
        (source_max_lem home.z s.offset.z s.original_size.length max_z).0 (omega arith) in
      omega (arith, parts_apart p.z, parts_apart min_z, parts_apart max_z)

  Near-of :
      (e : BlockPos × ℕ)
      → Fits s.offset e.0
      → min_x ≤ℤ e.0.x
      → e.0.x ≤ℤ max_x
      → min_z ≤ℤ e.0.z
      → e.0.z ≤ℤ max_z
      → Near s l1 p fits e
  Near-of (q, id) f x0 x1 z0 z1 =
      let hx : floor_div (q.x +ℤ s.offset.x) (pos 16) ≡ home.x =
        floor_div16_unique (q.x +ℤ s.offset.x) home.x f.fits_x
          ((source_min_lem home.x s.offset.x q.x).0 x0).1
          ((source_max_lem home.x s.offset.x s.original_size.width q.x).0 x1).1 in
      let hz : floor_div (q.z +ℤ s.offset.z) (pos 16) ≡ home.z =
        floor_div16_unique (q.z +ℤ s.offset.z) home.z f.fits_z
          ((source_min_lem home.z s.offset.z q.z).0 z0).1
          ((source_max_lem home.z s.offset.z s.original_size.length q.z).0 z1).1 in
      (f, λ i. record { x = hx i; z = hz i })

  abbrev column : ℤ → ℤ → Entries ℕ
  column x y =
      range (record { x = x; y = y; z = min_z }) (record { x = x; y = y; z = max_z }) s.blocks

  column-Near : (x y : ℤ) → min_x ≤ℤ x → x ≤ℤ max_x → All (Near s l1 p fits) (column x y)
  column-Near x y x0 x1 =
      All-range (λ e. Fits s.offset e.0) (Near s l1 p fits) (record { x = x; y = y; z = min_z })
        (record { x = x; y = y; z = max_z }) s.blocks
        (λ e f above below.
          let (ex, ey, z0, z1) =
            between_keys e.0 (record { x = x; y = y; z = min_z })
              (record { x = x; y = y; z = max_z }) refl refl above below in
          Near-of e f (omega arith) (omega arith) z0 z1)
        all_fit

  inside32 : (n : ℤ) (extent : ℤ) → IsInt32 extent → pos 0 ≤ℤ n → n <ℤ extent → IsInt32 n
  inside32 n extent h lo hi = omega (arith, parts_apart n)

  column-Does :
      (x y : ℤ)
      → min_x ≤ℤ x
      → x ≤ℤ max_x
      → IsInt32 y
      → Does
          (stands s l1 p fits)
          (place_column s l1 home min_z max_z x y)
          (last_value p (column x y))
  unfolding place_column
  column-Does x y x0 x1 y32 =
      let x32 =
        inside32 x s.original_size.width width32 ((source_min_lem home.x s.offset.x x).0 x0).0
          ((source_max_lem home.x s.offset.x s.original_size.width x).0 x1).0 in
      rw
        (
          wrap32_of_IsInt32 x x32,
          wrap32_of_IsInt32 y y32,
          wrap32_of_IsInt32 min_z ends32.0,
          wrap32_of_IsInt32 max_z ends32.1,
        )
        (entries-Does s l1 p fits (column x y) (column-Near x y x0 x1))

  -- Another column holds no entry for `p`.
  other_column :
      (x y : ℤ) (d : ℕ) → (eqb_ℤ x p.x && eqb_ℤ y p.y) ≡ false → last_value p (column x y) d ≡ d
  other_column x y d h = last_absent p (column x y) d (
      All-range (λ e. Fits s.offset e.0) (λ e. block_eq e.0 p ≡ false)
        (record { x = x; y = y; z = min_z }) (record { x = x; y = y; z = max_z }) s.blocks
        (λ e f above below. ground (
          arith,
          h,
          between_keys e.0 (record { x = x; y = y; z = min_z }) (record { x = x; y = y; z = max_z })
              refl refl above below,
          block_eq→EqualZ e.0 p,
        ))
        all_fit)

  own_column : (d : ℕ) → last_value p (column p.x p.y) d ≡ value_or (lookup p s.blocks) d
  unfolding block_lt
  own_column d =
      last_range p (record { x = p.x; y = p.y; z = min_z }) (record { x = p.x; y = p.y; z = max_z })
        s.blocks d sorted (ground (arith, window_z)) (ground (arith, window_z))

  Does-as :
      (body : SubChunks → Result SubChunks) (f g : ℕ → ℕ)
      → ((d : ℕ) → f d ≡ g d)
      → Does (stands s l1 p fits) body f
      → Does (stands s l1 p fits) body g
  Does-as body f g h does subs = let (subs', e, v) = does subs in (subs', e, v ∙ h _)

  abbrev rows : ℤ → SubChunks → Result SubChunks
  rows x =
      for_each (int_range (pos 0) (pos_part s.original_size.height))
        (λ y. place_column s l1 home min_z max_z x y)

  row32 : (y : ℤ) → Between (pos 0) (pos_part s.original_size.height) y → IsInt32 y
  row32 y b =
      omega (arith, b, parts_apart y, +ℤ_parts (pos 0) (pos (pos_part s.original_size.height)))

  rows_hit : Does (stands s l1 p fits) (rows p.x) (value_or (lookup p s.blocks))
  rows_hit =
      let (x0, x1, y0, y1, z0, z1) = inside_bounds s.original_size p inside in
      let in_rows : Between (pos 0) (pos_part s.original_size.height) p.y =
        omega (arith, +ℤ_parts (pos 0) (pos (pos_part s.original_size.height))) in
      loop_hits (stands s l1 p fits) (pos_part s.original_size.height) (pos 0) p.y
        (λ y. place_column s l1 home min_z max_z p.x y) (value_or (lookup p s.blocks)) in_rows
        (Does-as _ (last_value p (column p.x p.y)) (value_or (lookup p s.blocks)) own_column
          (column-Does p.x p.y window_x.0 window_x.1 (row32 p.y in_rows)))
        (λ y b other.
          Does-as _ (last_value p (column p.x y)) keep
            (λ d. other_column p.x y d (ground (arith, other)))
            (column-Does p.x y window_x.0 window_x.1 (row32 y b)))

  rows-keep :
      (x : ℤ)
      → min_x ≤ℤ x
      → x ≤ℤ max_x
      → eqb_ℤ x p.x ≡ false
      → Does (stands s l1 p fits) (rows x) keep
  rows-keep x x0 x1 other =
      loop_keeps (stands s l1 p fits) (pos_part s.original_size.height) (pos 0)
        (λ y. place_column s l1 home min_z max_z x y)
        (λ y b.
          Does-as _ (last_value p (column x y)) keep
            (λ d. other_column x y d (ground (arith, other))) (column-Does x y x0 x1 (row32 y b)))

  in_span : (x : ℤ) → Between min_x (span min_x max_x) x → x ≤ℤ max_x
  in_span x b = (span_iff min_x max_x x (omega (arith, window_x))).0 b.1

  columns_hit :
      Does
        (stands s l1 p fits)
        (for_each (int_range min_x (span min_x max_x)) rows)
        (value_or (lookup p s.blocks))
  columns_hit =
      loop_hits (stands s l1 p fits) (span min_x max_x) min_x p.x rows
        (value_or (lookup p s.blocks))
        (window_x.0, (span_iff min_x max_x p.x (omega (arith, window_x))).1 window_x.1) rows_hit
        (λ x b other. rows-keep x b.0 (in_span x b) other)

  window_open : (ltb_ℤ max_x min_x || ltb_ℤ max_z min_z) ≡ false
  window_open = ground (arith, window_x, window_z)

  outside_absent :
      (m : Entries ℕ)
      → All (λ e. is_outside s.original_size e.0 ≡ true) m
      → All (λ e. block_eq e.0 p ≡ false) m
  outside_absent [] h = tt
  outside_absent ((q, id) ∷ m) (h, others) = (
    elim (Bool-cases (block_eq q p)) [
      | inl same ↦ cc (h, inside, ap (is_outside s.original_size) (block_eq→eq q p same))
      | inr other ↦ other
    ],
    outside_absent m others,
  )

  untouched : stands s l1 p fits [] ≡ s.air
  unfolding find_sub_chunk
  untouched = refl

  -- The chunk of a block inside the declared size is made, and holds the block's entry, or air.
  pub fill_chunk_reads :
      All (λ e. Fits s.offset e.0) s.out_of_bounds_blocks
      → All (λ e. is_outside s.original_size e.0 ≡ true) s.out_of_bounds_blocks
      → (chunk : ChunkData) × (fill_chunk s l1 home ≡ success chunk)
        × (stands s l1 p fits chunk.sub_chunks ≡ value_or (lookup p s.blocks) s.air)
  unfolding fill_chunk
  fill_chunk_reads outside_fit outside =
      let (subs, e, v) = columns_hit [] in
      let (all, e', v') = outside-Does s l1 p fits s.out_of_bounds_blocks outside_fit subs in
      let found = v ∙ ap (value_or (lookup p s.blocks)) untouched in
      elim (Bool-cases s.include_out_of_bounds) [
        | inl kept ↦ (
          record empty_chunk { sub_chunks = all },
          simp (window_open, e, kept, e'),
          v'
              ∙ last_absent p s.out_of_bounds_blocks _
                  (outside_absent s.out_of_bounds_blocks outside)
              ∙ found,
        )
        | inr not_kept ↦
            (record empty_chunk { sub_chunks = subs }, simp (window_open, e, not_kept), found)
      ]
