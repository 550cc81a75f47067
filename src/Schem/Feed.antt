-- ===== src/Schem/Feed.antt =====
-- What the readers of src/formats/schem.cpp expect of a refill, and that both of them have it.
use water_structure_cpp.Common.{
  ℕ, zero, suc, ◌-◌, ◌≤◌, ◌<◌, ◌≡◌, refl, sym, ap, ◌∙◌, min, false, List, [], ◌∷◌, ◌++◌, Option,
  none, some, length, take, drop, ltb, ◌==◌, arith, Bool-cases, inl, inr, if◌then◌else◌,
  take-append-drop, length-take, length-drop,
}
use water_structure_cpp.Schem.{Tail, Refill, buffer_size, refill_file, refill_limited}

length_zero : (bytes : List ℕ) → length bytes ≡ 0 → bytes ≡ []
length_zero [] h = refl
length_zero (b ∷ bytes) h = absurd (omega arith)

-- A refill gives bytes from the front of what is behind the buffer, and only fails at its end.
abbrev pub Serves : (Tail → List ℕ) → (Tail → Type 0) → Tail → Option (List ℕ × Tail) → Type 0
Serves behind Good t none = behind t ≡ []
Serves behind Good t (some (bytes, t')) =
    (0 < length bytes) × (behind t ≡ bytes ++ behind t') × Good t'

pub record Feeds (refill : Refill) : Type 1 where
  pub behind : Tail → List ℕ
  pub Good : Tail → Type 0
  pub serves : (t : Tail) → Good t → Serves behind Good t (refill t)

take_nil : (k : ℕ) → take {A = ℕ} k [] ≡ []
take_nil zero = refl
take_nil (suc k) = refl

pub take-take :
    (n m : ℕ) (bytes : List ℕ) → n ≤ m → take m bytes ≡ take n bytes ++ take (m - n) (drop n bytes)
take-take zero m bytes h = ap (λ (k : ℕ). take k bytes) {x = m} {y = m - 0} (omega arith)
take-take (suc n) zero bytes h = absurd (omega arith)
take-take (suc n) (suc m) [] h = sym (take_nil (suc m - suc n))
take-take (suc n) (suc m) (b ∷ bytes) h =
    ap (λ (r : List ℕ). b ∷ r) (take-take n m bytes (omega arith))
    ∙ ap (λ (k : ℕ). b ∷ take n bytes ++ take k (drop n bytes)) {x = m - n} {y = suc m - suc n}
        (omega arith)

abbrev pub Always : Tail → Type 0
Always t = 0 ≤ 0

pub Serves-file :
    (n : ℕ) (t : Tail)
    → 0 < n
    → Serves
        (λ t. t.input)
        Always
        t
        (if length t.input == 0
          then none
          else some (take n t.input, record t { input = drop n t.input }))
Serves-file n t h = elim (Bool-cases (length t.input == 0)) [
  | inl empty ↦ rw empty (length_zero t.input (ground (arith, empty)))
  | inr more ↦
      rw more
        (ground (arith, more, length-take n t.input), sym (take-append-drop n t.input), omega arith)
]

-- `EncodedReader` reads the rest of the file.
unfoldable pub feeds_file : Feeds refill_file
unfolding refill_file
feeds_file = record {
  behind = λ t. t.input;
  Good = Always;
  serves = λ t g. Serves-file buffer_size t (omega arith);
}

abbrev pub Enough : Tail → Type 0
Enough t = t.remaining ≤ length t.input

pub Serves-limited :
    (n : ℕ) (t : Tail)
    → 0 < n
    → Enough t
    → Serves
        (λ t. take t.remaining t.input)
        Enough
        t
        (let amount = min t.remaining n in
          if t.remaining == 0
          then none
          else if ltb (length t.input) amount
          then none
          else some (
            take amount t.input,
            record t { input = drop amount t.input; remaining = t.remaining - amount },
          ))
Serves-limited n t h g = elim (Bool-cases (t.remaining == 0)) [
  | inl empty ↦
      rw empty (ap (λ (k : ℕ). take k t.input) {x = t.remaining} {y = 0} (ground (arith, empty)))
  | inr more ↦
      let some_left : ltb (length t.input) (min t.remaining n) ≡ false = ground (arith, g) in
      rw (more, some_left)
        (
          ground (arith, more, length-take (min t.remaining n) t.input),
          take-take (min t.remaining n) t.remaining t.input (omega arith),
          omega (arith, length-drop (min t.remaining n) t.input),
        )
]

-- `LimitedEncodedReader` reads what it may, where the stream has as much.
unfoldable pub feeds_limited : Feeds refill_limited
unfolding refill_limited
feeds_limited = record {
  behind = λ t. take t.remaining t.input;
  Good = Enough;
  serves = λ t g. Serves-limited buffer_size t (omega arith) g;
}
