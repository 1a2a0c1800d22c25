-- ===== src/Copilot/Models/Numbers.antt =====
-- internal/copilot/models.go: `leadingNumber` reads the decimal number that stands in front.
use cpa_github_copilot.Common.{
  ℕ, ◌+◌, ◌-◌, ◌*◌, ◌≤◌, ◌≡◌, refl, inl, inr, true, false, none, some, [], ◌∷◌, ◌++◌, arith, ltb,
  leb, if◌then◌else◌, All, Bool-cases, Bytes, Bytes_eq, bytes_eq, is_digit,
}
use cpa_github_copilot.Copilot.Models.{span_digits, accumulate, leading_number, starts_with_digit}

abbrev pub Digits : Bytes → Type 0
Digits ds = All (λ c. is_digit c ≡ true) ds

-- The number that decimal digits stand for, behind the digits of `high`.
abbrev pub value_from : ℕ → Bytes → ℕ
value_from high [] = high
value_from high (d ∷ ds) = value_from (high * 10 + (d - 48)) ds

abbrev pub value : Bytes → ℕ
value ds = value_from 0 ds

value_from-ge : (high : ℕ) (ds : Bytes) → high ≤ value_from high ds
value_from-ge high [] = omega arith
value_from-ge high (d ∷ ds) = omega (arith, value_from-ge (high * 10 + (d - 48)) ds)

accumulate_lem :
    (high : ℕ) (ds : Bytes)
    → high ≤ 1000000
    → accumulate high ds
      ≡ (if leb (value_from high ds) 1000000 then some (value_from high ds) else none)
unfolding accumulate
accumulate_lem high [] h = ground arith
accumulate_lem high (d ∷ ds) h =
    let next = high * 10 + (d - 48) in
    elim (Bool-cases (ltb 1000000 next)) [
      | inl big ↦ rw big (ground (arith, value_from-ge next ds))
      | inr small ↦ rw small (accumulate_lem next ds (ground arith))
    ]

span_digits_lem :
    (ds rest : Bytes)
    → Digits ds
    → starts_with_digit rest ≡ false
    → span_digits (ds ++ rest) ≡ (ds, rest)
unfolding span_digits starts_with_digit
span_digits_lem [] [] h k = refl
span_digits_lem [] (c ∷ rest) h k = ground arith
span_digits_lem (d ∷ ds) rest h k = ground (arith, span_digits_lem ds rest h.1 k)

-- Of digits and a rest that begins with no digit, the number is read with the rest, if it is at
-- most a million; above, nothing is.
pub leading_number_lem :
    (d : ℕ) (ds rest : Bytes)
    → Digits (d ∷ ds)
    → starts_with_digit rest ≡ false
    → leading_number (d ∷ ds ++ rest)
      ≡ (if leb (value (d ∷ ds)) 1000000 then some (value (d ∷ ds), rest) else none)
unfolding leading_number bytes_eq
leading_number_lem d ds rest h k =
    let read = accumulate_lem 0 (d ∷ ds) (omega arith) in
    let parts = span_digits_lem (d ∷ ds) rest h k in
    elim (Bool-cases (leb (value (d ∷ ds)) 1000000)) [
      | inl small ↦ ground (arith, parts, rw small at read)
      | inr big ↦ ground (arith, parts, rw big at read)
    ]
