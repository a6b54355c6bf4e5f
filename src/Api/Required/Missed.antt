-- ===== src/Api/Required/Missed.antt =====
-- Which fields the check for required fields reports.
use l0_wb_tech_school.Base.{
  ℕ, zero, suc, ◌+◌, ◌*◌, ◌≡◌, refl, ap, ◌∙◌, arith, Bool, true, false, List, [], ◌∷◌,
  if◌then◌else◌,
}
use l0_wb_tech_school.Base.Text.{Text}
use l0_wb_tech_school.Api.Required.{
  Byte, ones_count, trailing_zeros, reset_bit, field_name, missed_bits,
}

-- The names of the fields from number `n` on whose bit is set.
abbrev pub set_names : List Text → ℕ → List Bool → List Text
set_names names n [] = []
set_names names n (b ∷ bits) =
    let rest = set_names names (suc n) bits in if b then field_name names n ∷ rest else rest

-- The loop with a bit of 0 in front of the byte counts one further.
module _ (names : List Text) where
  loop_at : ℕ → ℕ → Byte → List Text
  loop_at n zero result = []
  loop_at n (suc missed) result =
      field_name names (n + trailing_zeros result)
      ∷ loop_at n missed (reset_bit (trailing_zeros result) result)

  missed_bits-eq-loop_at :
      (i k : ℕ) (result : Byte) → missed_bits names i k result ≡ loop_at (i * 8) k result
  unfolding missed_bits loop_at
  missed_bits-eq-loop_at i zero result = refl
  missed_bits-eq-loop_at i (suc k) result =
      ap (◌∷◌ (field_name names (i * 8 + trailing_zeros result)))
        (missed_bits-eq-loop_at i k (reset_bit (trailing_zeros result) result))

  loop_at-false : (n k : ℕ) (bits : Byte) → loop_at n k (false ∷ bits) ≡ loop_at (suc n) k bits
  unfolding loop_at trailing_zeros reset_bit
  loop_at-false n zero bits = refl
  loop_at-false n (suc k) bits = rw (loop_at-false n k (reset_bit (trailing_zeros bits) bits)) (
      ap (λ (m : ℕ). field_name names m ∷ loop_at (suc n) k (reset_bit (trailing_zeros bits) bits))
        (omega arith))

  loop_at-set_names :
      (n : ℕ) (bits : Byte) → loop_at n (ones_count bits) bits ≡ set_names names n bits
  unfolding loop_at ones_count trailing_zeros reset_bit
  loop_at-set_names n [] = refl
  loop_at-set_names n (false ∷ bits) =
      loop_at-false n (ones_count bits) bits ∙ loop_at-set_names (suc n) bits
  loop_at-set_names n (true ∷ bits) =
      rw (loop_at-false n (ones_count bits) bits ∙ loop_at-set_names (suc n) bits)
        (ap (λ (m : ℕ). field_name names m ∷ set_names names (suc n) bits) (omega arith))

  -- The loop that counts the bits of a byte, then takes the lowest and resets it as often as it
  -- counted, reports the fields whose bits are set, in order and each once.
  pub missed_bits-eq-set_names :
      (i : ℕ) (result : Byte)
      → missed_bits names i (ones_count result) result ≡ set_names names (i * 8) result
  missed_bits-eq-set_names i result =
      missed_bits-eq-loop_at i (ones_count result) result ∙ loop_at-set_names (i * 8) result
