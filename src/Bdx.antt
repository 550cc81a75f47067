-- ===== src/Bdx.antt =====
-- The moves of the brush in BDX files: `append_move` of src/formats/bdx_writer.cpp, and the commands
-- that src/formats/bdx.cpp reads them by. The commands here are those of the moves; the others stop
-- this reader. What is appended is a list of bytes.
pub mod Leads
pub mod Moves
mod Runs
use Prim.Native.String.{String}
use water_structure_cpp.Common.{
  ℕ, zero, suc, ◌+◌, ◌-◌, ◌*◌, ◌/◌, ◌%◌, ◌^◌, Bool, true, false, ◌&&◌, ◌||◌, List, [], ◌∷◌, ◌++◌,
  ltb, ◌==◌, if◌then◌else◌,
}
use water_structure_cpp.Common.Int.{
  ℤ, pos, negsuc, ◌+ℤ◌, ◌-ℤ◌, ltb_ℤ, leb_ℤ, eqb_ℤ, to_unsigned, to_signed,
}
use water_structure_cpp.Coordinates.{BlockPos}
use water_structure_cpp.Result.{Result, success, failure, ◌>>=◌}

append_u16 : ℕ → List ℕ
append_u16 value = value / 2 ^ 8 % 256 ∷ value % 256 ∷ []

pub append_u32 : ℕ → List ℕ
append_u32 value =
    value / 2 ^ 24 % 256 ∷ value / 2 ^ 16 % 256 ∷ value / 2 ^ 8 % 256 ∷ value % 256 ∷ []

-- The commands of an axis.
pub record Commands : Type 0 where
  pub increment : ℕ
  pub decrement : ℕ
  pub int8_command : ℕ
  pub int16_command : ℕ
  pub int32_command : ℕ

abbrev int32_max : ℤ
int32_max = pos (2 ^ 31 - 1)

abbrev int32_min : ℤ
int32_min = negsuc (2 ^ 31 - 1)

-- The choice of the command for what is left.
pub append_short_move : Commands → ℤ → List ℕ
unfolding append_u16 append_u32
append_short_move c difference =
    if eqb_ℤ difference (pos 1)
    then c.increment ∷ []
    else if eqb_ℤ difference (negsuc 0)
    then c.decrement ∷ []
    else if leb_ℤ (negsuc 127) difference && leb_ℤ difference (pos 127)
    then c.int8_command ∷ to_unsigned (2 ^ 8) difference ∷ []
    else if leb_ℤ (negsuc 32767) difference && leb_ℤ difference (pos 32767)
    then c.int16_command ∷ append_u16 (to_unsigned (2 ^ 16) difference)
    else c.int32_command ∷ append_u32 (to_unsigned (2 ^ 32) difference)

-- The two loops. The difference of two int32_t passes at most twice through one of them.
far_moves : ℕ → Commands → ℤ → List ℕ
unfolding append_u32 append_short_move
far_moves zero c difference = append_short_move c difference
far_moves (suc fuel) c difference =
    let down = c.int32_command ∷ append_u32 (2 ^ 31 - 1) in
    let up = c.int32_command ∷ append_u32 (2 ^ 31) in
    let after_down = far_moves fuel c (difference -ℤ int32_max) in
    let after_up = far_moves fuel c (difference -ℤ int32_min) in
    if ltb_ℤ int32_max difference
    then down ++ after_down
    else if ltb_ℤ difference int32_min
    then up ++ after_up
    else append_short_move c difference

append_move_axis : Commands → ℤ → List ℕ
unfolding far_moves
append_move_axis c difference = if eqb_ℤ difference (pos 0) then [] else far_moves 2 c difference

abbrev x_commands : Commands
x_commands = record {
  increment = 14;
  decrement = 15;
  int8_command = 28;
  int16_command = 20;
  int32_command = 21;
}

abbrev y_commands : Commands
y_commands = record {
  increment = 16;
  decrement = 17;
  int8_command = 29;
  int16_command = 22;
  int32_command = 23;
}

abbrev z_commands : Commands
z_commands = record {
  increment = 18;
  decrement = 19;
  int8_command = 30;
  int16_command = 24;
  int32_command = 25;
}

-- `append_move`, which sets the cursor to the target.
pub append_move : BlockPos → BlockPos → List ℕ
unfolding append_move_axis
append_move cursor target =
    append_move_axis x_commands (target.x -ℤ cursor.x)
    ++ (append_move_axis y_commands (target.y -ℤ cursor.y)
        ++ append_move_axis z_commands (target.z -ℤ cursor.z))

-- `add_coordinate`: the text of the exception is that of the axis.
add_coordinate : String → ℤ → ℤ → Result ℤ
add_coordinate overflow coordinate delta =
    let value = coordinate +ℤ delta in
    if ltb_ℤ value int32_min || ltb_ℤ int32_max value then failure overflow else success value

abbrev signed_be16 : ℕ → ℕ → ℤ
signed_be16 a b = to_signed (2 ^ 16) (a * 2 ^ 8 + b)

abbrev signed_be32 : ℕ → ℕ → ℕ → ℕ → ℤ
signed_be32 a b c d = to_signed (2 ^ 32) (a * 2 ^ 24 + b * 2 ^ 16 + c * 2 ^ 8 + d)

-- Which axis a command moves along, and by how many bytes it says how far, or which way by one.
pub data Axis : Type 0 where
  x_axis y_axis z_axis : Axis

pub data Step : Type 0 where
  by_one by_minus_one by_int8 by_int16 by_int32 unknown : Step

abbrev command : ℕ → Axis × Step
command id =
    if id == 6
    then (z_axis, by_int16)
    else if id == 8
    then (z_axis, by_one)
    else if id == 12
    then (z_axis, by_int32)
    else if id == 14
    then (x_axis, by_one)
    else if id == 15
    then (x_axis, by_minus_one)
    else if id == 16
    then (y_axis, by_one)
    else if id == 17
    then (y_axis, by_minus_one)
    else if id == 18
    then (z_axis, by_one)
    else if id == 19
    then (z_axis, by_minus_one)
    else if id == 20
    then (x_axis, by_int16)
    else if id == 21
    then (x_axis, by_int32)
    else if id == 22
    then (y_axis, by_int16)
    else if id == 23
    then (y_axis, by_int32)
    else if id == 24
    then (z_axis, by_int16)
    else if id == 25
    then (z_axis, by_int32)
    else if id == 28
    then (x_axis, by_int8)
    else if id == 29
    then (y_axis, by_int8)
    else if id == 30
    then (z_axis, by_int8)
    else (x_axis, unknown)

move_along : Axis → ℤ → BlockPos → Result BlockPos
unfolding add_coordinate
move_along x_axis delta p =
    add_coordinate "BDX X 游标超出 int32 范围" p.x delta >>= λ v. success (record p { x = v })
move_along y_axis delta p =
    add_coordinate "BDX Y 游标超出 int32 范围" p.y delta >>= λ v. success (record p { y = v })
move_along z_axis delta p =
    add_coordinate "BDX Z 游标超出 int32 范围" p.z delta >>= λ v. success (record p { z = v })

-- The distance that the command's payload says, and the bytes after it.
pub delta_of : Step → List ℕ → Result (ℤ × List ℕ)
delta_of by_one bytes = success (pos 1, bytes)
delta_of by_minus_one bytes = success (negsuc 0, bytes)
delta_of by_int8 (a ∷ rest) = success (to_signed (2 ^ 8) a, rest)
delta_of by_int16 (a ∷ b ∷ rest) = success (signed_be16 a b, rest)
delta_of by_int32 (a ∷ b ∷ c ∷ d ∷ rest) = success (signed_be32 a b c d, rest)
delta_of unknown bytes = failure "not a move"
delta_of other bytes = failure "truncated"

-- The loop over the commands; each takes a byte at least, so their number is fuel enough.
pub read_moves : ℕ → BlockPos → List ℕ → Result BlockPos
unfolding move_along delta_of
read_moves fuel p [] = success p
read_moves zero p (id ∷ bytes) = failure "out of fuel"
read_moves (suc fuel) p (id ∷ bytes) = delta_of (command id).1 bytes >>= λ found.
    move_along (command id).0 found.0 p >>= λ q. read_moves fuel q found.1
