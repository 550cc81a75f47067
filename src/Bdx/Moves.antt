-- ===== src/Bdx/Moves.antt =====
-- What src/formats/bdx_writer.cpp writes to move the brush, src/formats/bdx.cpp reads as that move.
use water_structure_cpp.Common.{
  ℕ, zero, suc, ◌+◌, ◌-◌, ◌*◌, ◌^◌, ◌≤◌, ◌≡◌, refl, sym, ap, subst, ◌∙◌, List, [], ◌∷◌, ◌++◌,
  length, append-nil, arith, Bool-cases, inl, inr,
}
use water_structure_cpp.Common.Int.{
  ℤ, pos, pos_part, neg_part, ◌+ℤ◌, ◌-ℤ◌, +ℤ_parts, -ℤ_parts, eq_of_parts, parts_apart, ltb_ℤ,
  eqb_ℤ, to_unsigned, IsInt32,
}
use water_structure_cpp.Coordinates.{BlockPos}
use water_structure_cpp.Result.{success}
use water_structure_cpp.Bdx.{
  append_u32, Commands, far_moves, append_move_axis, x_commands, y_commands, z_commands,
  append_move, Axis, x_axis, y_axis, z_axis, by_int32, read_moves, int32_max, int32_min,
}
use water_structure_cpp.Bdx.Leads.{
  coordinate, moved_to, Leads, Leads-nothing, Leads-then, one_command, ReadAs, int32_payload,
  short_move-Leads,
}

moved_to_again :
    (axis : Axis) (v w : ℤ) (p : BlockPos)
    → (moved_to axis w (moved_to axis v p) ≡ moved_to axis w p)
      × (coordinate axis (moved_to axis v p) ≡ v)
moved_to_again x_axis v w p = (refl, refl)
moved_to_again y_axis v w p = (refl, refl)
moved_to_again z_axis v w p = (refl, refl)

moved_twice :
    (axis : Axis) (p : BlockPos) (d e f : ℤ)
    → d +ℤ e ≡ f
    → coordinate axis (moved_to axis (coordinate axis p +ℤ d) p) +ℤ e ≡ coordinate axis p +ℤ f
moved_twice axis p d e f s =
    let v = coordinate axis p +ℤ d in
    ap (λ w. w +ℤ e) (moved_to_again axis v v p).1
    ∙ eq_of_parts (v +ℤ e) (coordinate axis p +ℤ f) (
        omega (
          arith,
          ap pos_part s,
          ap neg_part s,
          +ℤ_parts v e,
          +ℤ_parts (coordinate axis p) d,
          +ℤ_parts d e,
          +ℤ_parts (coordinate axis p) f,
        ))

-- A move in two parts.
in_two :
    (axis : Axis) (p : BlockPos) (d e f : ℤ) (a b : List ℕ)
    → d +ℤ e ≡ f
    → Leads p a (moved_to axis (coordinate axis p +ℤ d) p)
    → Leads (moved_to axis (coordinate axis p +ℤ d) p) b (
        moved_to axis
          (coordinate axis (moved_to axis (coordinate axis p +ℤ d) p) +ℤ e)
          (moved_to axis (coordinate axis p +ℤ d) p))
    → Leads p (a ++ b) (moved_to axis (coordinate axis p +ℤ f) p)
in_two axis p d e f a b s x y =
    let v = coordinate axis p +ℤ d in
    let end : moved_to axis (coordinate axis (moved_to axis v p) +ℤ e) (moved_to axis v p)
        ≡ moved_to axis (coordinate axis p +ℤ f) p =
      (moved_to_again axis v (coordinate axis (moved_to axis v p) +ℤ e) p).0
      ∙ ap (λ w. moved_to axis w p) (moved_twice axis p d e f s) in
    Leads-then p (moved_to axis v p) (moved_to axis (coordinate axis p +ℤ f) p) a b x
      (subst (λ q. Leads (moved_to axis v p) b q) end y)

difference_back : (d e : ℤ) → e +ℤ (d -ℤ e) ≡ d
difference_back d e =
    eq_of_parts (e +ℤ (d -ℤ e)) d (omega (arith, +ℤ_parts e (d -ℤ e), -ℤ_parts d e))

-- Not farther than `fuel` moves of 2 ^ 31 - 1, and one more.
abbrev Reaches : ℕ → ℤ → Type 0
Reaches fuel d =
    (pos_part d ≤ (fuel + 1) * (2 ^ 31 - 1)) × (neg_part d ≤ fuel * (2 ^ 31 - 1) + 2 ^ 31)

-- A move by `e`, the greatest or the least that one command can say, and the rest.
part-Leads :
    (fuel : ℕ) (axis : Axis) (c : Commands) (p : BlockPos) (d e : ℤ)
    → ReadAs axis c
    → IsInt32 e
    → IsInt32 (coordinate axis p +ℤ e)
    → IsInt32 (coordinate axis p +ℤ d)
    → ((q : BlockPos)
        → IsInt32 (coordinate axis q)
        → IsInt32 (coordinate axis q +ℤ (d -ℤ e))
        → Leads q (far_moves fuel c (d -ℤ e)) (moved_to axis (coordinate axis q +ℤ (d -ℤ e)) q))
    → Leads p
        ((c.int32_command ∷ append_u32 (to_unsigned (2 ^ 32) e)) ++ far_moves fuel c (d -ℤ e))
        (moved_to axis (coordinate axis p +ℤ d) p)
part-Leads fuel axis c p d e r he mid fits on =
    in_two axis p e (d -ℤ e) d (c.int32_command ∷ append_u32 (to_unsigned (2 ^ 32) e))
      (far_moves fuel c (d -ℤ e)) (difference_back d e)
      (one_command axis p c.int32_command by_int32 e (append_u32 (to_unsigned (2 ^ 32) e))
        r.moves_int32 (λ rest. int32_payload e rest he) mid)
      (on (moved_to axis (coordinate axis p +ℤ e) p)
        (subst IsInt32
          (sym (moved_to_again axis (coordinate axis p +ℤ e) (coordinate axis p +ℤ e) p).1) mid)
        (subst IsInt32 (sym (moved_twice axis p e (d -ℤ e) d (difference_back d e))) fits))

far_moves-Leads :
    (fuel : ℕ) (axis : Axis) (c : Commands) (p : BlockPos) (d : ℤ)
    → ReadAs axis c
    → Reaches fuel d
    → IsInt32 (coordinate axis p)
    → IsInt32 (coordinate axis p +ℤ d)
    → Leads p (far_moves fuel c d) (moved_to axis (coordinate axis p +ℤ d) p)
unfolding far_moves
far_moves-Leads zero axis c p d r h here fits =
    short_move-Leads axis c p d r (omega (arith, h)) fits
far_moves-Leads (suc fuel) axis c p d r h here fits = elim (Bool-cases (ltb_ℤ int32_max d)) [
  | inl far ↦ rw far (
      part-Leads fuel axis c p d int32_max r (omega arith)
        (ground (
          arith,
          far,
          here,
          fits,
          +ℤ_parts (coordinate axis p) d,
          +ℤ_parts (coordinate axis p) int32_max,
          parts_apart (coordinate axis p),
          parts_apart (coordinate axis p +ℤ int32_max),
          parts_apart (coordinate axis p +ℤ d),
          parts_apart d,
        ))
        fits
        (λ q. far_moves-Leads fuel axis c q (d -ℤ int32_max) r (
          ground
            (arith, h, far, -ℤ_parts d int32_max, parts_apart d, parts_apart (d -ℤ int32_max)))))
  | inr near ↦ elim (Bool-cases (ltb_ℤ d int32_min)) [
    | inl below ↦
        rw (near, below)
          (part-Leads fuel axis c p d int32_min r (omega arith)
            (ground (
              arith,
              below,
              here,
              fits,
              +ℤ_parts (coordinate axis p) d,
              +ℤ_parts (coordinate axis p) int32_min,
              parts_apart (coordinate axis p),
              parts_apart (coordinate axis p +ℤ int32_min),
              parts_apart (coordinate axis p +ℤ d),
              parts_apart d,
            ))
            fits
            (λ q. far_moves-Leads fuel axis c q (d -ℤ int32_min) r (
              ground (
                arith,
                h,
                below,
                -ℤ_parts d int32_min,
                parts_apart d,
                parts_apart (d -ℤ int32_min),
              ))))
    | inr above ↦
        rw (near, above)
          (short_move-Leads axis c p d r (ground (arith, near, above, parts_apart d)) fits)
  ]
]

moved_to_self : (axis : Axis) (p : BlockPos) → p ≡ moved_to axis (coordinate axis p) p
moved_to_self x_axis p = refl
moved_to_self y_axis p = refl
moved_to_self z_axis p = refl

axis-Leads :
    (axis : Axis) (c : Commands) (p : BlockPos) (to : ℤ)
    → ReadAs axis c
    → IsInt32 (coordinate axis p)
    → IsInt32 to
    → Leads p (append_move_axis c (to -ℤ coordinate axis p)) (moved_to axis to p)
unfolding append_move_axis
axis-Leads axis c p to r here there =
    let d = to -ℤ coordinate axis p in
    let back : coordinate axis p +ℤ d ≡ to = difference_back to (coordinate axis p) in
    elim (Bool-cases (eqb_ℤ d (pos 0))) [
      | inl still ↦ rw still (
          subst (Leads p [])
            (moved_to_self axis p
              ∙ ap (λ v. moved_to axis v p)
                  (ground (arith, still, -ℤ_parts to (coordinate axis p))))
            (Leads-nothing p))
      | inr moves ↦ rw moves (
          subst (λ v. Leads p (far_moves 2 c d) (moved_to axis v p)) back
            (far_moves-Leads 2 axis c p d r
              (ground (
                arith,
                here,
                there,
                -ℤ_parts to (coordinate axis p),
                parts_apart d,
                parts_apart to,
                parts_apart (coordinate axis p),
              ))
              here (subst IsInt32 (sym back) there)))
    ]

abbrev pub IsPosition : BlockPos → Type 0
IsPosition p = IsInt32 p.x × IsInt32 p.y × IsInt32 p.z

move-Leads : (p q : BlockPos) → IsPosition p → IsPosition q → Leads p (append_move p q) q
unfolding append_move
move-Leads p q (px, py, pz) (qx, qy, qz) =
    let p1 = record p { x = q.x } in
    let p2 = record p1 { y = q.y } in
    Leads-then p p1 q _ _
      (axis-Leads x_axis x_commands p q.x
        (record {
          increments = refl;
          decrements = refl;
          moves_int8 = refl;
          moves_int16 = refl;
          moves_int32 = refl;
        })
        px qx)
      (Leads-then p1 p2 q _ _
        (axis-Leads y_axis y_commands p1 q.y
          (record {
            increments = refl;
            decrements = refl;
            moves_int8 = refl;
            moves_int16 = refl;
            moves_int32 = refl;
          })
          py qy)
        (axis-Leads z_axis z_commands p2 q.z
          (record {
            increments = refl;
            decrements = refl;
            moves_int8 = refl;
            moves_int16 = refl;
            moves_int32 = refl;
          })
          pz qz))

-- Between any two positions of int32_t coordinates, the commands that the writer appends bring the
-- reader's brush from the one to the other: no coordinate overflows on the way, also where the
-- distance along an axis does not fit an int32_t, and no byte is left over.
pub append_move_reads_back :
    (cursor target : BlockPos)
    → IsPosition cursor
    → IsPosition target
    → read_moves (length (append_move cursor target)) cursor (append_move cursor target)
      ≡ success target
unfolding read_moves
append_move_reads_back cursor target h k =
    let moves = append_move cursor target in
    let leads = move-Leads cursor target h k in
    let spare = length moves - leads.steps in
    ap (λ (n : ℕ). read_moves n cursor moves) (omega (arith, leads.few))
    ∙ ap (read_moves (leads.steps + spare) cursor) (sym (append-nil moves))
    ∙ leads.runs spare []
