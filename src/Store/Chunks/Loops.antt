-- ===== src/Store/Chunks/Loops.antt =====
-- Loops that are left by the first failure, followed at one place of what they write.
use water_structure_cpp.Common.{
  ℕ, zero, suc, ◌≡◌, ◌↔◌, refl, sym, ap, subst, ◌∙◌, false, arith, Bool-cases, inl, inr,
}
use water_structure_cpp.Common.Int.{
  ℤ, pos, ◌+ℤ◌, ◌-ℤ◌, ◌≤ℤ◌, ◌<ℤ◌, eqb_ℤ, eqb_ℤ_iff, +ℤ_parts, -ℤ_parts, parts_apart,
}
use water_structure_cpp.Result.{Result, success, ◌>>=◌}
use water_structure_cpp.Store.Chunks.{for_each, int_range, span}

abbrev pub keep : ℕ → ℕ
keep d = d

abbrev pub Between : ℤ → ℕ → ℤ → Type 0
Between lo n x = (lo ≤ℤ x) × (x <ℤ lo +ℤ pos n)

Between-first : (lo : ℤ) (n : ℕ) → Between lo (suc n) lo
Between-first lo n = omega (arith, +ℤ_parts lo (pos (suc n)))

Between-rest : (lo : ℤ) (n : ℕ) (x : ℤ) → Between (lo +ℤ pos 1) n x → Between lo (suc n) x
Between-rest lo n x b =
    omega (arith, b, +ℤ_parts lo (pos (suc n)), +ℤ_parts lo (pos 1), +ℤ_parts (lo +ℤ pos 1) (pos n))

Between-later :
    (lo : ℤ) (n : ℕ) (x : ℤ) → Between lo (suc n) x → eqb_ℤ lo x ≡ false → Between (lo +ℤ pos 1) n x
Between-later lo n x b h =
    ground
      (arith, b, +ℤ_parts lo (pos (suc n)), +ℤ_parts lo (pos 1), +ℤ_parts (lo +ℤ pos 1) (pos n))

-- The integers from `lo` to `hi` are those of a range that is as long.
pub span_iff : (lo hi x : ℤ) → lo ≤ℤ hi → (x <ℤ lo +ℤ pos (span lo hi)) ↔ (x ≤ℤ hi)
span_iff lo hi x h =
    let size = +ℤ_parts lo (pos (span lo hi)) in
    let last = +ℤ_parts (hi -ℤ lo) (pos 1) in
    let gap = -ℤ_parts hi lo in
    let one_part = parts_apart (hi -ℤ lo +ℤ pos 1) in ((λ b. omega arith), (λ b. omega arith))

module _ {S : Type 0} (at : S → ℕ) where
  -- The body succeeds, and turns what stands at the place by `f`.
  abbrev pub Does : (S → Result S) → (ℕ → ℕ) → Type 0
  Does body f = (s : S) → (s' : S) × (body s ≡ success s') × (at s' ≡ f (at s))

  pub Does-then :
      (first then_body : S → Result S) (f g : ℕ → ℕ)
      → Does first f
      → Does then_body g
      → Does (λ s. first s >>= then_body) (λ d. g (f d))
  Does-then first then_body f g h k s =
      let (s', e, v) = h s in
      let (s'', e', v') = k s' in (s'', ap (λ r. r >>= then_body) e ∙ e', v' ∙ ap g v)

  pub loop_keeps :
      (n : ℕ) (lo : ℤ) (body : ℤ → S → Result S)
      → ((x : ℤ) → Between lo n x → Does (body x) keep)
      → Does (for_each (int_range lo n) body) keep
  unfolding for_each int_range
  loop_keeps zero lo body h = λ s. (s, refl, refl)
  loop_keeps (suc n) lo body h =
      Does-then (body lo) (for_each (int_range (lo +ℤ pos 1) n) body) keep keep
        (h lo (Between-first lo n))
        (loop_keeps n (lo +ℤ pos 1) body λ x b. h x (Between-rest lo n x b))

  -- A loop over a range of integers of which one body does something, and the others nothing.
  pub loop_hits :
      (n : ℕ) (lo k : ℤ) (body : ℤ → S → Result S) (f : ℕ → ℕ)
      → Between lo n k
      → Does (body k) f
      → ((x : ℤ) → Between lo n x → eqb_ℤ x k ≡ false → Does (body x) keep)
      → Does (for_each (int_range lo n) body) f
  unfolding for_each int_range
  loop_hits zero lo k body f b h others = absurd (omega (arith, b, +ℤ_parts lo (pos 0)))
  loop_hits (suc n) lo k body f b h others = elim (Bool-cases (eqb_ℤ lo k)) [
    | inl first ↦
        Does-then (body lo) (for_each (int_range (lo +ℤ pos 1) n) body) f keep
          (subst (λ x. Does (body x) f) (sym ((eqb_ℤ_iff lo k).0 first)) h)
          (loop_keeps n (lo +ℤ pos 1) body
            λ x c. others x (Between-rest lo n x c) (ground (arith, c, first, +ℤ_parts lo (pos 1))))
    | inr later ↦
        Does-then (body lo) (for_each (int_range (lo +ℤ pos 1) n) body) keep f
          (others lo (Between-first lo n) later)
          (loop_hits n (lo +ℤ pos 1) k body f (Between-later lo n k b later) h
            λ x c. others x (Between-rest lo n x c))
  ]
