-- ===== src/Canonical/States/Sorted.antt =====
-- A sort by a strict order whose incomparable elements are equal gives one list for all orders of
-- its input.
use mathlib.Core.List.{Permᴰ}
use water_structure_cpp.Common.{
  suc, length, ◌≡◌, refl, sym, ap, ◌∙◌, Bool, true, false, List, [], ◌∷◌, Bool-cases, inl, inr,
  arith,
}
use water_structure_cpp.Canonical.States.{insert_by, sort_by}

-- The laws that std::sort asks of a comparison, and that ties are equal.
pub record StrictOrder {A : Type 0} (lt : A → A → Bool) : Type 0 where
  pub asym : (a b : A) → lt a b ≡ true → lt b a ≡ false
  pub transitive : (a b c : A) → lt a b ≡ true → lt b c ≡ true → lt a c ≡ true
  pub connected : (a b : A) → lt a b ≡ false → lt b a ≡ false → a ≡ b

module _ {A : Type 0} {lt : A → A → Bool} (o : StrictOrder lt) where
  insert_less :
      (a b : A) (l : List A)
      → lt a b ≡ true
      → insert_by lt a (insert_by lt b l) ≡ insert_by lt b (insert_by lt a l)
  unfolding insert_by
  insert_less a b [] h = ground (arith, o.asym a b)
  insert_less a b (c ∷ l) h = ground (arith, o.asym a b, o.transitive a b c, insert_less a b l h)

  insert_commutes :
      (a b : A) (l : List A) → insert_by lt a (insert_by lt b l) ≡ insert_by lt b (insert_by lt a l)
  insert_commutes a b l = elim (Bool-cases (lt a b)) [
    | inl less ↦ insert_less a b l less
    | inr not_less ↦ elim (Bool-cases (lt b a)) [
      | inl greater ↦ sym (insert_less b a l greater)
      | inr tie ↦
          let same = o.connected a b not_less tie in
          ap (λ c. insert_by lt c (insert_by lt b l)) same
          ∙ sym (ap (λ c. insert_by lt b (insert_by lt c l)) same)
    ]
  ]

  pub sort_by-Perm : {l m : List A} → Permᴰ l m → sort_by lt l ≡ sort_by lt m
  unfolding sort_by
  sort_by-Perm Permᴰ.nil = refl
  sort_by-Perm (Permᴰ.cons {a = a} {b = b} {l₁ = l} {l₂ = m} e p) =
      ap (λ c. insert_by lt c (sort_by lt l)) e ∙ ap (insert_by lt b) (sort_by-Perm p)
  sort_by-Perm (Permᴰ.swap {a = a} {b = b} {a' = c} {b' = d} {l = l} e f) =
      ap (λ x. insert_by lt x (insert_by lt b (sort_by lt l))) e
      ∙ ap (λ x. insert_by lt d (insert_by lt x (sort_by lt l))) f
      ∙ insert_commutes d c (sort_by lt l)
  sort_by-Perm (Permᴰ.trans p q) = sort_by-Perm p ∙ sort_by-Perm q

pub Perm-length : {A : Type 0} {l m : List A} → Permᴰ l m → length l ≡ length m
Perm-length Permᴰ.nil = refl
Perm-length (Permᴰ.cons e p) = ap suc (Perm-length p)
Perm-length (Permᴰ.swap e f) = refl
Perm-length (Permᴰ.trans p q) = Perm-length p ∙ Perm-length q
