-- ===== src/Schem/Values.antt =====
-- `read_varints_u16` of src/formats/schem.cpp reads one number behind the other.
use water_structure_cpp.Common.{
  ℕ, zero, suc, ◌-◌, ◌/◌, ◌^◌, min, ◌≤◌, ◌≡◌, refl, sym, ap, subst, false, List, [], ◌∷◌, ◌++◌,
  Option, none, some, length, drop, ltb, ◌==◌, All, arith, Bool-cases, inl, inr,
}
use water_structure_cpp.Schem.{
  Tail, Reader, Refill, and_then, fitting, bulk, filled, prepend, scalar, round, read_values,
  read_varint_u32, read_varints_u16,
}
use water_structure_cpp.Schem.Feed.{Serves, Feeds}
use water_structure_cpp.Schem.Varint.{IsByte, number_at, with_digit, decode, All-front}
use water_structure_cpp.Schem.Read.{unread, Agrees, read_varint_u32-decode}
use water_structure_cpp.Schem.Bulk.{pre, decode_all, after, bulk_lem}

-- What is left behind a result.
abbrev Left : {A : Type 0} → (List ℕ → Type 0) → Option (A × List ℕ) → Type 0
Left P none = Unit
Left P (some (v, rest)) = P rest

number_at-Left : (n : ℕ) (bytes : List ℕ) → All IsByte bytes → Left (All IsByte) (number_at n bytes)
unfolding number_at
number_at-Left zero bytes all = tt
number_at-Left (suc n) [] all = tt
number_at-Left (suc n) (b ∷ bytes) (h, all) = elim (Bool-cases (ltb b 128)) [
  | inl last ↦ rw last all
  | inr more ↦ rw more (go (number_at n bytes) (number_at-Left n bytes all))
]
  where
    go : (o : Option (ℕ × List ℕ)) → Left (All IsByte) o → Left (All IsByte) (with_digit b o)
    go none l = tt
    go (some (v, rest)) l = l

decode-Left : (bytes : List ℕ) → All IsByte bytes → Left (All IsByte) (decode bytes)
unfolding decode
decode-Left bytes all = go (number_at 5 bytes) (number_at-Left 5 bytes all)
  where
    go :
        (o : Option (ℕ × List ℕ))
        → Left (All IsByte) o
        → Left (All IsByte) (and_then o (λ (v, rest). fitting v rest))
    go none l = tt
    go (some (v, rest)) l = elim (Bool-cases (ltb (2 ^ 32 - 1) v)) [
      | inl over ↦ rw over tt
      | inr fits ↦ rw fits l
    ]

All-drop :
    (n : ℕ) (bytes more : List ℕ) → All IsByte (bytes ++ more) → All IsByte (drop n bytes ++ more)
All-drop zero bytes more all = all
All-drop (suc n) [] more all = all
All-drop (suc n) (b ∷ bytes) more (h, all) = All-drop n bytes more all

decode_all-empty : (max_value n : ℕ) → decode_all max_value (suc n) [] ≡ none
unfolding decode_all decode number_at
decode_all-empty max_value n = refl

decode_all-zero : (max_value : ℕ) (bytes : List ℕ) → decode_all max_value 0 bytes ≡ some ([], bytes)
unfolding decode_all
decode_all-zero max_value bytes = refl

module _ (refill : Refill) (feeds : Feeds refill) (max_value : ℕ) where
  -- What the loop promises for `n` places.
  abbrev Promises : ℕ → (ℕ → Reader → Option (List ℕ × Reader)) → Type 0
  Promises rounds more =
      (n : ℕ) (r : Reader)
      → n ≤ rounds
      → All IsByte (unread refill feeds r)
      → feeds.Good r.tail
      → Agrees refill feeds (more n r) (decode_all max_value n (unread refill feeds r))

  prepend-Agrees :
      (vs : List ℕ) (o : Option (List ℕ × Reader)) (d : Option (List ℕ × List ℕ))
      → Agrees refill feeds o d
      → Agrees refill feeds (prepend vs o) (pre vs d)
  prepend-Agrees vs none d a = ap (pre vs) a
  prepend-Agrees vs (some (ws, r)) d (a, good) = (ap (pre vs) a, good)

  scalar_lem :
      (rounds n : ℕ) (bytes : List ℕ) (more : ℕ → Reader → Option (List ℕ × Reader))
      (o : Option (ℕ × Reader))
      → Promises rounds more
      → n ≤ rounds
      → All IsByte bytes
      → Agrees refill feeds o (decode bytes)
      → Agrees refill feeds (scalar max_value o (more n)) (decode_all max_value (suc n) bytes)
  unfolding decode_all
  scalar_lem rounds n bytes more none promises fits all a = rw a refl
  scalar_lem rounds n bytes more (some (v, r)) promises fits all (a, good) =
      let all' : All IsByte (unread refill feeds r) =
        subst (Left (All IsByte)) a (decode-Left bytes all) in
      rw a (elim (Bool-cases (ltb max_value v)) [
        | inl over ↦ rw over refl
        | inr under ↦ rw under (
            prepend-Agrees (v ∷ []) (more n r) (decode_all max_value n (unread refill feeds r))
              (promises n r fits all' good))
      ])

  -- The refill gives the same bytes, or there are none.
  abbrev Refilled : List ℕ → Option Reader → Type 0
  Refilled bytes none = bytes ≡ []
  Refilled bytes (some r) = (bytes ≡ unread refill feeds r) × feeds.Good r.tail

  refilled_lem :
      (t : Tail) (o : Option (List ℕ × Tail))
      → Serves feeds.behind feeds.Good t o
      → Refilled
          (feeds.behind t)
          (and_then o (λ (bytes, t'). some (record { buffered = bytes; tail = t' })))
  refilled_lem t none s = s
  refilled_lem t (some (bytes, t')) (h, s, good) = (s, good)

  filled_lem :
      (bytes : List ℕ) (t : Tail)
      → feeds.Good t
      → Refilled (bytes ++ feeds.behind t) (filled refill bytes t)
  filled_lem [] t good = refilled_lem t (refill t) (feeds.serves t good)
  filled_lem (b ∷ bytes) t good = (refl, good)

  round_lem :
      (rounds n : ℕ) (more : ℕ → Reader → Option (List ℕ × Reader)) (r : Reader)
      (o : Option (List ℕ))
      → Promises rounds more
      → n ≤ rounds
      → All IsByte (unread refill feeds r)
      → feeds.Good r.tail
      → decode_all max_value (suc n) (unread refill feeds r)
        ≡ after max_value (suc n) r.buffered (feeds.behind r.tail) o
      → Agrees refill feeds
          (round refill max_value (suc n) more r o)
          (decode_all max_value (suc n) (unread refill feeds r))
  round_lem rounds n more r none promises fits all good e = e
  round_lem rounds n more r (some []) promises fits all good e =
      subst
        (λ k.
          Agrees refill feeds (scalar max_value (read_varint_u32 refill r) (more k))
            (decode_all max_value (suc n) (unread refill feeds r)))
        {x = n} {y = suc n - 1} (omega arith)
        (scalar_lem rounds n (unread refill feeds r) more (read_varint_u32 refill r) promises fits
          all (read_varint_u32-decode refill feeds r all good))
  round_lem rounds n more r (some (v ∷ vs)) promises fits all good e =
      let count = length (v ∷ vs) in
      let r' : Reader = record r { buffered = drop count r.buffered } in
      subst (Agrees refill feeds (prepend (v ∷ vs) (more (suc n - count) r'))) (sym e) (
        prepend-Agrees (v ∷ vs) (more (suc n - count) r')
          (decode_all max_value (suc n - count) (unread refill feeds r'))
          (promises (suc n - count) r' (omega arith)
            (All-drop count r.buffered (feeds.behind r.tail) all) good))

  loop_lem :
      (rounds n : ℕ) (more : ℕ → Reader → Option (List ℕ × Reader)) (bytes : List ℕ)
      (o : Option Reader)
      → Promises rounds more
      → n ≤ rounds
      → All IsByte bytes
      → Refilled bytes o
      → Agrees refill feeds
          (and_then o λ r.
            let available = min (length r.buffered) (suc n) in
            round refill max_value
              (suc n)
              more
              r
              (bulk (available / 8) max_value available r.buffered))
          (decode_all max_value (suc n) bytes)
  loop_lem rounds n more bytes none promises fits all e = rw e (decode_all-empty max_value n)
  loop_lem rounds n more bytes (some r) promises fits all (e, good) =
      let available = min (length r.buffered) (suc n) in
      let all' = subst (All IsByte) e all in
      let given = bulk (available / 8) max_value available r.buffered in
      rw e (
        round_lem rounds n more r given promises fits all' good (
          bulk_lem (available / 8) max_value (suc n) available r.buffered (feeds.behind r.tail)
            (All-front r.buffered (feeds.behind r.tail) all') (omega arith) (omega arith)))

  read_values_lem : (rounds : ℕ) → Promises rounds (read_values refill rounds max_value)
  unfolding read_values
  read_values_lem zero zero r fits all good =
      (decode_all-zero max_value (unread refill feeds r), good)
  read_values_lem zero (suc n) r fits all good = absurd (omega arith)
  read_values_lem (suc rounds) zero r fits all good =
      (decode_all-zero max_value (unread refill feeds r), good)
  read_values_lem (suc rounds) (suc n) r fits all good =
      let some_left : (suc n == 0) ≡ false = ground arith in
      rw some_left (
        loop_lem rounds n (read_values refill rounds max_value) (unread refill feeds r)
          (filled refill r.buffered r.tail) (read_values_lem rounds) (omega arith) all
          (filled_lem r.buffered r.tail good))

  -- A reader that is fed from the front of what is left fills an output with the numbers that the next
  -- bytes write one behind the other, and leaves the bytes behind them; it fails where one of them is
  -- missing, is too long or exceeds the greatest value allowed.
  pub read_varints_u16-decode_all :
      (n : ℕ) (r : Reader)
      → All IsByte (unread refill feeds r)
      → feeds.Good r.tail
      → Agrees refill feeds
          (read_varints_u16 refill max_value n r)
          (decode_all max_value n (unread refill feeds r))
  unfolding read_varints_u16
  read_varints_u16-decode_all n r all good = read_values_lem n n r (omega arith) all good
