-- ===== src/Bdx/Leads.antt =====
-- How src/formats/bdx.cpp reads one short move that src/formats/bdx_writer.cpp writes.
use Prim.Native.String.{String}
use water_structure_cpp.Common.{
  ℕ, suc, ◌+◌, ◌*◌, ◌/◌, ◌%◌, ◌^◌, ◌≤◌, ◌<◌, ◌≡◌, refl, sym, ap, ◌∙◌, ◌&&◌, List, [], ◌∷◌, ◌++◌,
  length, length-append, append_assoc, arith, Bool-cases, inl, inr,
}
use water_structure_cpp.Common.Int.{
  ℤ, pos, negsuc, pos_part, neg_part, ◌+ℤ◌, eq_of_parts, parts_apart, leb_ℤ, eqb_ℤ, to_unsigned,
  to_signed, IsInt32,
}
use water_structure_cpp.Coordinates.{BlockPos}
use water_structure_cpp.Result.{success, ◌>>=◌}
use water_structure_cpp.Bdx.{
  append_u16, append_u32, Commands, append_short_move, add_coordinate, signed_be16, Axis, x_axis,
  y_axis, z_axis, Step, by_one, by_minus_one, by_int8, by_int16, by_int32, command, move_along,
  delta_of, read_moves,
}

-- The payloads say the difference.
int8_back :
    (z : ℤ)
    → pos_part z < 2 ^ 7
    → neg_part z ≤ 2 ^ 7
    → to_signed (2 ^ 8) (to_unsigned (2 ^ 8) z) ≡ z
int8_back (pos n) h k = ground arith
int8_back (negsuc n) h k = ground arith

int16_back :
    (z : ℤ)
    → pos_part z < 2 ^ 15
    → neg_part z ≤ 2 ^ 15
    → signed_be16 (to_unsigned (2 ^ 16) z / 2 ^ 8 % 256) (to_unsigned (2 ^ 16) z % 256) ≡ z
int16_back (pos n) h k = ground arith
int16_back (negsuc n) h k = ground arith

u32_split :
    (u : ℕ)
    → u < 2 ^ 32
    → u / 2 ^ 24 % 256 * 2 ^ 24 + u / 2 ^ 16 % 256 * 2 ^ 16 + u / 2 ^ 8 % 256 * 2 ^ 8 + u % 256 ≡ u
u32_split u h = omega arith

int32_back : (z : ℤ) → IsInt32 z → to_signed (2 ^ 32) (to_unsigned (2 ^ 32) z) ≡ z
int32_back (pos n) h = ground arith
int32_back (negsuc n) h = ground arith

unsigned_small : (z : ℤ) → to_unsigned (2 ^ 32) z < 2 ^ 32
unsigned_small (pos n) = omega arith
unsigned_small (negsuc n) = omega arith

add_fits :
    (z d : ℤ)
    → IsInt32 (z +ℤ d)
    → (overflow : String) → add_coordinate overflow z d ≡ success (z +ℤ d)
unfolding add_coordinate
add_fits z d h overflow = ground (arith, h, parts_apart (z +ℤ d))

abbrev pub coordinate : Axis → BlockPos → ℤ
coordinate x_axis p = p.x
coordinate y_axis p = p.y
coordinate z_axis p = p.z

abbrev pub moved_to : Axis → ℤ → BlockPos → BlockPos
moved_to x_axis v p = record p { x = v }
moved_to y_axis v p = record p { y = v }
moved_to z_axis v p = record p { z = v }

-- The reader, handed these bytes, goes from `p` to `q`, in a step for each byte at most.
pub record Leads (p : BlockPos) (bytes : List ℕ) (q : BlockPos) : Type 0 where
  pub steps : ℕ
  pub few : steps ≤ length bytes
  pub runs :
      (n : ℕ) (rest : List ℕ) → read_moves (steps + n) p (bytes ++ rest) ≡ read_moves n q rest

pub Leads-nothing : (p : BlockPos) → Leads p [] p
Leads-nothing p = record {
  steps = 0;
  few = omega arith;
  runs = λ n rest. ap (λ (k : ℕ). read_moves k p rest) (omega arith);
}

pub Leads-then : (p q r : BlockPos) (a b : List ℕ) → Leads p a q → Leads q b r → Leads p (a ++ b) r
Leads-then p q r a b f g = record {
  steps = f.steps + g.steps;
  few = omega (arith, f.few, g.few, length-append a b);
  runs = λ n rest.
      ap (λ (k : ℕ). read_moves k p ((a ++ b) ++ rest)) (omega arith)
      ∙ ap (read_moves (f.steps + (g.steps + n)) p) (append_assoc a b rest)
      ∙ f.runs (g.steps + n) (b ++ rest)
      ∙ g.runs n rest;
}

move_along-lem :
    (axis : Axis) (d : ℤ) (p : BlockPos)
    → IsInt32 (coordinate axis p +ℤ d)
    → move_along axis d p ≡ success (moved_to axis (coordinate axis p +ℤ d) p)
unfolding move_along
move_along-lem x_axis d p h = rw (add_fits p.x d h "BDX X 游标超出 int32 范围") refl
move_along-lem y_axis d p h = rw (add_fits p.y d h "BDX Y 游标超出 int32 范围") refl
move_along-lem z_axis d p h = rw (add_fits p.z d h "BDX Z 游标超出 int32 范围") refl

one_step :
    (axis : Axis) (p : BlockPos) (id : ℕ) (s : Step) (d : ℤ) (bytes rest : List ℕ) (n : ℕ)
    → command id ≡ (axis, s)
    → delta_of s bytes ≡ success (d, rest)
    → IsInt32 (coordinate axis p +ℤ d)
    → read_moves (suc n) p (id ∷ bytes)
      ≡ read_moves n (moved_to axis (coordinate axis p +ℤ d) p) rest
unfolding read_moves
one_step axis p id s d bytes rest n e k h =
    ap
      (λ c.
        delta_of c.1 bytes >>= λ found. move_along c.0 found.0 p >>= λ q. read_moves n q found.1)
      e
    ∙ ap (λ r. r >>= λ found. move_along axis found.0 p >>= λ q. read_moves n q found.1) k
    ∙ ap (λ r. r >>= λ q. read_moves n q rest) (move_along-lem axis d p h)

pub one_command :
    (axis : Axis) (p : BlockPos) (id : ℕ) (s : Step) (d : ℤ) (payload : List ℕ)
    → command id ≡ (axis, s)
    → ((rest : List ℕ) → delta_of s (payload ++ rest) ≡ success (d, rest))
    → IsInt32 (coordinate axis p +ℤ d)
    → Leads p (id ∷ payload) (moved_to axis (coordinate axis p +ℤ d) p)
one_command axis p id s d payload e k h = record {
  steps = 1;
  few = omega arith;
  runs = λ n rest.
      ap (λ (m : ℕ). read_moves m p ((id ∷ payload) ++ rest)) (omega arith)
      ∙ one_step axis p id s d (payload ++ rest) rest n e (k rest) h;
}

-- The commands of an axis are read as moves along it.
pub record ReadAs (axis : Axis) (c : Commands) : Type 0 where
  pub increments : command c.increment ≡ (axis, by_one)
  pub decrements : command c.decrement ≡ (axis, by_minus_one)
  pub moves_int8 : command c.int8_command ≡ (axis, by_int8)
  pub moves_int16 : command c.int16_command ≡ (axis, by_int16)
  pub moves_int32 : command c.int32_command ≡ (axis, by_int32)

pub int32_payload :
    (z : ℤ) (rest : List ℕ)
    → IsInt32 z
    → delta_of by_int32 (append_u32 (to_unsigned (2 ^ 32) z) ++ rest) ≡ success (z, rest)
unfolding delta_of append_u32
int32_payload z rest h =
    ap (λ (u : ℕ). success (to_signed (2 ^ 32) u, rest))
      (u32_split (to_unsigned (2 ^ 32) z) (unsigned_small z))
    ∙ ap (λ (w : ℤ). success (w, rest)) (int32_back z h)

pub short_move-Leads :
    (axis : Axis) (c : Commands) (p : BlockPos) (d : ℤ)
    → ReadAs axis c
    → IsInt32 d
    → IsInt32 (coordinate axis p +ℤ d)
    → Leads p (append_short_move c d) (moved_to axis (coordinate axis p +ℤ d) p)
unfolding append_short_move append_u16 delta_of
short_move-Leads axis c p d r h fits = elim (Bool-cases (eqb_ℤ d (pos 1))) [
  | inl one ↦
      let e : d ≡ pos 1 = eq_of_parts d (pos 1) (ground (arith, one)) in
      rw one (
        one_command axis p c.increment by_one d [] r.increments
          (λ rest. ap (λ (w : ℤ). success (w, rest)) (sym e)) fits)
  | inr a ↦ elim (Bool-cases (eqb_ℤ d (negsuc 0))) [
    | inl minus ↦
        let e : d ≡ negsuc 0 = eq_of_parts d (negsuc 0) (ground (arith, minus)) in
        rw (a, minus)
          (one_command axis p c.decrement by_minus_one d [] r.decrements
            (λ rest. ap (λ (w : ℤ). success (w, rest)) (sym e)) fits)
    | inr b ↦ elim (Bool-cases (leb_ℤ (negsuc 127) d && leb_ℤ d (pos 127))) [
      | inl small ↦
          rw (a, b, small)
            (one_command axis p c.int8_command by_int8 d (to_unsigned (2 ^ 8) d ∷ []) r.moves_int8
              (λ rest.
                ap (λ (w : ℤ). success (w, rest))
                  (int8_back d (ground (arith, small, parts_apart d))
                    (ground (arith, small, parts_apart d))))
              fits)
      | inr e ↦ elim (Bool-cases (leb_ℤ (negsuc 32767) d && leb_ℤ d (pos 32767))) [
        | inl middle ↦
            rw (a, b, e, middle)
              (one_command axis p c.int16_command by_int16 d (append_u16 (to_unsigned (2 ^ 16) d))
                r.moves_int16
                (λ rest.
                  ap (λ (w : ℤ). success (w, rest))
                    (int16_back d (ground (arith, middle, parts_apart d))
                      (ground (arith, middle, parts_apart d))))
                fits)
        | inr f ↦
            rw (a, b, e, f)
              (one_command axis p c.int32_command by_int32 d (append_u32 (to_unsigned (2 ^ 32) d))
                r.moves_int32 (λ rest. int32_payload d rest h) fits)
      ]
    ]
  ]
]
