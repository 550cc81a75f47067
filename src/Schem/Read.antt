-- ===== src/Schem/Read.antt =====
-- `read_varint_u32` of src/formats/schem.cpp decodes what is left, wherever the buffer ends.
use Prim.Native.Nat.{bit_and}
use water_structure_cpp.Common.{
  ℕ, zero, suc, ◌+◌, ◌-◌, ◌*◌, ◌%◌, ◌^◌, ◌≤◌, ◌<◌, ◌≡◌, refl, sym, ap, ◌∙◌, subst, false, List, [],
  ◌∷◌, ◌++◌, Option, none, some, length, ltb, leb, All, arith, Bool-cases, Option-cases, inl, inr,
  not_ltb→le,
}
use water_structure_cpp.Litematic.Packed.Arith.{and_mask}
use water_structure_cpp.Schem.{
  Tail, Reader, Refill, first_of, next_of, next_byte, and_then, fitting, slow_varint, in_buffer,
  varint_of, read_varint_u32,
}
use water_structure_cpp.Schem.Feed.{Serves, Feeds}
use water_structure_cpp.Schem.Varint.{
  IsByte, number_at, decode, onto, with_digit, continues, add_digits_lem, onto-digit, last_digit,
  decode_last, All-front, fast_varint_lem,
}

module _ (refill : Refill) (feeds : Feeds refill) where
  -- What the reader has still to give.
  abbrev pub unread : Reader → List ℕ
  unread r = r.buffered ++ feeds.behind r.tail

  -- A result of the reader is that of a function of the bytes, with the same bytes left.
  abbrev pub Agrees : {A : Type 0} → Option (A × Reader) → Option (A × List ℕ) → Type 0
  Agrees none d = d ≡ none
  Agrees (some (v, r)) d = (d ≡ some (v, unread r)) × feeds.Good r.tail

  abbrev Next : List ℕ → Option (ℕ × Reader) → Type 0
  Next bytes none = bytes ≡ []
  Next bytes (some (b, r)) = (bytes ≡ b ∷ unread r) × feeds.Good r.tail

  first_of_lem :
      (t : Tail) (o : Option (List ℕ × Tail))
      → Serves feeds.behind feeds.Good t o
      → Next (feeds.behind t) (first_of o)
  first_of_lem t none s = s
  first_of_lem t (some ([], t')) (h, s, g) = absurd (omega arith)
  first_of_lem t (some (b ∷ bs, t')) (h, s, g) = (s, g)

  next_of_lem :
      (bytes : List ℕ) (t : Tail)
      → feeds.Good t
      → Next (bytes ++ feeds.behind t) (next_of refill bytes t)
  next_of_lem [] t good = first_of_lem t (refill t) (feeds.serves t good)
  next_of_lem (b ∷ bs) t good = (refl, good)

  next_byte_lem : (r : Reader) → feeds.Good r.tail → Next (unread r) (next_byte refill r)
  unfolding next_byte
  next_byte_lem r good = next_of_lem r.buffered r.tail good

  fitting-Agrees :
      (v : ℕ) (r : Reader) → feeds.Good r.tail → Agrees (fitting v r) (fitting v (unread r))
  fitting-Agrees v r good = elim (Bool-cases (ltb (2 ^ 32 - 1) v)) [
    | inl over ↦ rw over refl
    | inr fits ↦ rw fits (refl, good)
  ]

  slow_varint_lem :
      (rounds value shift : ℕ) (r : Reader)
      → All IsByte (unread r)
      → feeds.Good r.tail
      → value < 2 ^ shift
      → shift + 7 * rounds ≡ 35
      → Agrees
          (slow_varint refill rounds value shift r)
          (onto value shift (number_at rounds (unread r)))
  unfolding slow_varint number_at
  slow_varint_lem zero value shift r all good v fits = refl
  slow_varint_lem (suc rounds) value shift r all good v fits =
      elim (Option-cases (next_byte refill r)) [
        | inl e ↦ rw (e, subst (Next (unread r)) e (next_byte_lem r good)) refl
        | inr ((b, r'), e) ↦
            let (bytes, good') = subst (Next (unread r)) e (next_byte_lem r good) in
            let (h, all') = subst (All IsByte) bytes all in
            let (sum, below) = add_digits_lem value b shift v h (omega arith) in
            rw (e, bytes)
              (elim (Bool-cases (ltb b 128)) [
                | inl last ↦
                    rw (continues b h, last, last_digit value b shift v h (omega arith) last)
                      (fitting-Agrees (value + b * 2 ^ shift) r' good')
                | inr more ↦
                    rw (continues b h, more, sum)
                      (elim (Bool-cases (leb 35 (shift + 7))) [
                        | inl end ↦ rw (end) (
                            ap
                              (λ (k : ℕ). onto value shift (with_digit b (number_at k (unread r'))))
                              {x = rounds} {y = 0} (ground (arith, end)))
                        | inr on ↦
                            rw
                              (
                                on,
                                sym (
                                    onto-digit value b shift (number_at rounds (unread r'))
                                      (not_ltb→le b 128 more) h),
                              )
                              (slow_varint_lem rounds (value + b % 128 * 2 ^ shift) (shift + 7) r'
                                all' good' below (omega arith))
                      ])
              ])
      ]

  onto-zero : (o : Option (ℕ × List ℕ)) → onto 0 0 o ≡ and_then o (λ (v, rest). fitting v rest)
  onto-zero none = refl
  onto-zero (some (v, rest)) =
      ap (λ (n : ℕ). fitting n rest) {x = 0 + v * 2 ^ 0} {y = v} (omega arith)

  slow_varint-decode :
      (r : Reader)
      → All IsByte (unread r)
      → feeds.Good r.tail
      → Agrees (slow_varint refill 5 0 0 r) (decode (unread r))
  unfolding decode
  slow_varint-decode r all good =
      subst (Agrees (slow_varint refill 5 0 0 r)) (onto-zero (number_at 5 (unread r)))
        (slow_varint_lem 5 0 0 r all good (omega arith) refl)

  -- What a decoding in the buffer leaves, with what is behind it.
  abbrev with_behind : List ℕ → Option (ℕ × List ℕ) → Option (ℕ × List ℕ)
  with_behind more none = none
  with_behind more (some (v, rest)) = some (v, rest ++ more)

  with_behind-digit :
      (b : ℕ) (more : List ℕ) (o : Option (ℕ × List ℕ))
      → with_digit b (with_behind more o) ≡ with_behind more (with_digit b o)
  with_behind-digit b more none = refl
  with_behind-digit b more (some (v, rest)) = refl

  number_at-append :
      (n : ℕ) (bytes more : List ℕ)
      → n ≤ length bytes
      → number_at n (bytes ++ more) ≡ with_behind more (number_at n bytes)
  unfolding number_at
  number_at-append zero bytes more h = refl
  number_at-append (suc n) [] more h = absurd (omega arith)
  number_at-append (suc n) (b ∷ bytes) more h = elim (Bool-cases (ltb b 128)) [
    | inl last ↦ rw last refl
    | inr on ↦
        rw
          (
            on,
            number_at-append n bytes more (omega arith),
            with_behind-digit b more (number_at n bytes),
          )
          refl
  ]

  onto-Agrees :
      (value shift : ℕ) (t : Tail) (o : Option (ℕ × List ℕ))
      → feeds.Good t
      → Agrees
          (in_buffer t (onto value shift o))
          (onto value shift (with_behind (feeds.behind t) o))
  onto-Agrees value shift t none good = refl
  onto-Agrees value shift t (some (v, rest)) good =
      elim (Bool-cases (ltb (2 ^ 32 - 1) (value + v * 2 ^ shift))) [
        | inl over ↦ rw over refl
        | inr fits ↦ rw fits (refl, good)
      ]

  -- Where the first byte continues.
  decode_more :
      (b : ℕ) (bytes more : List ℕ)
      → b < 256
      → ltb b 128 ≡ false
      → 4 ≤ length bytes
      → decode (b ∷ (bytes ++ more)) ≡ onto (bit_and b 127) 7 (with_behind more (number_at 4 bytes))
  unfolding decode number_at
  decode_more b bytes more h on enough =
      let first : 0 + b % 128 * 2 ^ 0 ≡ bit_and b 127 = omega (arith, and_mask 7 b) in
      rw on (
        sym (onto-zero (with_digit b (number_at 4 (bytes ++ more))))
        ∙ sym (onto-digit 0 b 0 (number_at 4 (bytes ++ more)) (not_ltb→le b 128 on) h)
        ∙ ap (λ (n : ℕ). onto n 7 (number_at 4 (bytes ++ more))) first
        ∙ ap (onto (bit_and b 127) 7) (number_at-append 4 bytes more enough))

  varint_of_lem :
      (bytes : List ℕ) (t : Tail)
      → All IsByte (bytes ++ feeds.behind t)
      → feeds.Good t
      → Agrees (varint_of refill bytes t) (decode (bytes ++ feeds.behind t))
  varint_of_lem [] t all good = slow_varint-decode (record { buffered = []; tail = t }) all good
  varint_of_lem (b ∷ bytes) t (h, all) good = elim (Bool-cases (ltb b 128)) [
    | inl last ↦
        rw (continues b h, last, decode_last b (bytes ++ feeds.behind t) h last) (refl, good)
    | inr more ↦
        rw (continues b h, more)
          (elim (Bool-cases (leb 5 (length (b ∷ bytes)))) [
            | inl enough ↦
                rw
                  (
                    enough,
                    fast_varint_lem 4 (bit_and b 127) 7 bytes (All-front bytes (feeds.behind t) all)
                        (omega (arith, and_mask 7 b)) (omega arith),
                    decode_more b bytes (feeds.behind t) h more (ground (arith, enough)),
                  )
                  (onto-Agrees (bit_and b 127) 7 t (number_at 4 bytes) good)
            | inr few ↦
                rw few
                  (slow_varint-decode (record { buffered = b ∷ bytes; tail = t }) (h, all) good)
          ])
  ]

  -- A reader that is fed from the front of what is left gives the number that the next bytes write to
  -- the base 128 in at most five of them, if it is an uint32_t, and leaves the bytes behind it; it
  -- fails where they write none.
  pub read_varint_u32-decode :
      (r : Reader)
      → All IsByte (unread r)
      → feeds.Good r.tail
      → Agrees (read_varint_u32 refill r) (decode (unread r))
  unfolding read_varint_u32
  read_varint_u32-decode r all good = varint_of_lem r.buffered r.tail all good
