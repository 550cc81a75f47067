-- ===== src/RunAway/Index.antt =====
-- The index that src/formats/runaway.cpp keeps between its calls is never stale.
use Prim.Native.String.{String}
use water_structure_cpp.Common.{ℕ, ◌≡◌, Bool, true, false, List, [], ◌∷◌, map, if◌then◌else◌}
use water_structure_cpp.Coordinates.{BlockPos, ChunkPos}
use water_structure_cpp.Result.{Result, success, failure}
use water_structure_cpp.Store.Map.{Entries}
use water_structure_cpp.ChunkIndex.{find_bucket}
use water_structure_cpp.ChunkIndex.Finds.{indices_in, if_any, ensure_keeps}
use water_structure_cpp.RunAway.{
  RunAwayStructure, read, set_offset, get_chunks, distinct, stable_sort, overflows, extent,
  normalized, origin,
}

-- Where the index is ready, it is the one of the blocks and the offset that the structure has now.
pub record IsFresh (r : RunAwayStructure) : Type 0 where
  pub finds :
      r.index.ready ≡ true
      → (c : ChunkPos)
      → find_bucket r.index c ≡ if_any (indices_in r.offset c 0 (map (λ b. b.0) r.blocks))

set_offset-IsFresh : (r : RunAwayStructure) (offset : BlockPos) → IsFresh (set_offset r offset)
unfolding set_offset
set_offset-IsFresh r offset = record { finds = λ h c. cc }

pub data Call : Type 0 where
  reads : Entries ℕ → Call
  moves : BlockPos → Call
  asks : List ChunkPos → Call

-- A call that fails leaves what it left.
after_read : RunAwayStructure → Result RunAwayStructure → RunAwayStructure
after_read r (success r') = r'
after_read r (failure e) = r

pub perform : ℕ → RunAwayStructure → Call → RunAwayStructure
unfolding after_read
perform air r (reads entries) = after_read r (read air r entries)
perform air r (moves offset) = set_offset r offset
perform air r (asks positions) = (get_chunks air r positions).1

pub perform_all : ℕ → RunAwayStructure → List Call → RunAwayStructure
unfolding perform
perform_all air r [] = r
perform_all air r (c ∷ cs) = perform_all air (perform air r c) cs

get_chunks-IsFresh :
    (air : ℕ) (r : RunAwayStructure) (positions : List ChunkPos)
    → IsFresh r
    → IsFresh (get_chunks air r positions).1
unfolding get_chunks
get_chunks-IsFresh air r positions fresh = record {
  finds = ensure_keeps r.index (map (λ b. b.0) r.blocks) r.offset fresh.finds;
}

refused_or_moved :
    (r : RunAwayStructure) (refused : Bool) (e : String) (r' : RunAwayStructure) (offset : BlockPos)
    → IsFresh r
    → IsFresh (after_read r (if refused then failure e else success (set_offset r' offset)))
unfolding after_read
refused_or_moved r true e r' offset fresh = fresh
refused_or_moved r false e r' offset fresh = set_offset-IsFresh r' offset

read-IsFresh :
    (air : ℕ) (r : RunAwayStructure) (entries : Entries ℕ)
    → IsFresh r
    → IsFresh (after_read r (read air r entries))
unfolding read after_read
read-IsFresh air r [] fresh = fresh
read-IsFresh air r (b ∷ entries) fresh =
    let blocks = distinct (stable_sort (b ∷ entries)) in
    refused_or_moved r (overflows (extent blocks)) "RunAway 归一化尺寸溢出 int32" (normalized air r blocks)
      origin fresh

perform-IsFresh :
    (air : ℕ) (r : RunAwayStructure) (c : Call) → IsFresh r → IsFresh (perform air r c)
unfolding perform
perform-IsFresh air r (reads entries) fresh = read-IsFresh air r entries fresh
perform-IsFresh air r (moves offset) fresh = set_offset-IsFresh r offset
perform-IsFresh air r (asks positions) fresh = get_chunks-IsFresh air r positions fresh

perform_all-IsFresh :
    (air : ℕ) (r : RunAwayStructure) (cs : List Call) → IsFresh r → IsFresh (perform_all air r cs)
unfolding perform_all
perform_all-IsFresh air r [] fresh = fresh
perform_all-IsFresh air r (c ∷ cs) fresh =
    perform_all-IsFresh air (perform air r c) cs (perform-IsFresh air r c fresh)

-- After any reads, whether they fail or not, changes of the offset and requests for chunks, from a
-- structure that has no index yet, the index, where it is ready, is the one of the blocks and the
-- offset that the structure has now: no request is answered from a stale index.
pub calls-IsFresh :
    (air : ℕ) (r : RunAwayStructure) (cs : List Call)
    → r.index.ready ≡ false
    → IsFresh (perform_all air r cs)
calls-IsFresh air r cs h = perform_all-IsFresh air r cs (record { finds = λ ready c. cc })
