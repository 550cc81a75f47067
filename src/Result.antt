-- ===== src/Result.antt =====
-- include/WaterStructure/result.hpp: a value or an error text. `value()` of a failure is a
-- default-constructed value that no caller reads, so a failure carries the text alone.
use Prim.Native.String.{String}
use water_structure_cpp.Common.{Bool, true, false, ◌≡◌, refl, ◌⊎◌, inl, inr}

pub data Result {ℓ} (A : Type ℓ) : Type ℓ where
  success : A → Result A
  failure : String → Result A

-- `Result<void>`.
abbrev pub Status : Type 0
Status = Result (Unit {0})

abbrev pub done : Status
done = success tt

abbrev pub is_ok {ℓ} : {A : Type ℓ} → Result A → Bool
is_ok (success a) = true
is_ok (failure e) = false

-- The early return that follows each call: `if (!r) return failure(r.error())`.
infixl 5 ◌>>=◌ ◌>>◌
abbrev pub ◌>>=◌ {ℓ κ} : {A : Type ℓ} {B : Type κ} → Result A → (A → Result B) → Result B
success a >>= f = f a
failure e >>= f = failure e

abbrev pub ◌>>◌ {ℓ} : {B : Type ℓ} → Status → Result B → Result B
m >> k = m >>= λ _. k

abbrev pub guard : Bool → String → Status
guard true e = done
guard false e = failure e

pub Result-cases {ℓ} :
    {A : Type ℓ} (r : Result A) → ((a : A) × (r ≡ success a)) ⊎ ((e : String) × (r ≡ failure e))
Result-cases (success a) = inl (a, refl)
Result-cases (failure e) = inr (e, refl)
