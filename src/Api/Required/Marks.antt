-- ===== src/Api/Required/Marks.antt =====
-- The bits of several bytes in a row, and what marking a field changes of them.

use l0_wb_tech_school.Base.{
  ℕ, zero, suc, ◌+◌, ◌*◌, ◌/◌, ◌%◌, ◌<◌, ◌≡◌, refl, ap, sym, ◌∙◌, arith, Bool, true, false, not,
  ◌&&◌, List, [], ◌∷◌, ◌++◌, length, length-append,
}
use l0_wb_tech_school.Base.Text.{Text}
use l0_wb_tech_school.Api.Required.{
  Byte, byte, no_bits, set_bit, field_name, set_in, mark, unseen, missed_fields,
}
use l0_wb_tech_school.Api.Required.Missed.{set_names, missed_bits-eq-set_names}

abbrev pub flat : List Byte → List Bool
flat [] = []
flat (b ∷ bytes) = b ++ flat bytes

abbrev pub zeros : ℕ → List Bool
zeros zero = []
zeros (suc n) = false ∷ zeros n

-- As many bytes of eight bits on either side.
abbrev pub SameShape : List Byte → List Byte → Type 0
SameShape [] [] = Unit
SameShape [] (b ∷ seen) = ⊥
SameShape (m ∷ masks) [] = ⊥
SameShape (m ∷ masks) (b ∷ seen) = (length m ≡ 8) × (length b ≡ 8) × SameShape masks seen

length-set_bit : (j : ℕ) (b : Byte) → length (set_bit j b) ≡ length b
length-set_bit zero [] = refl
length-set_bit (suc j) [] = refl
length-set_bit zero (x ∷ b) = refl
length-set_bit (suc j) (x ∷ b) = ap suc (length-set_bit j b)

SameShape-set_in :
    (i j : ℕ) (masks seen : List Byte) → SameShape masks seen → SameShape masks (set_in i j seen)
SameShape-set_in i j [] [] h = h
SameShape-set_in i j [] (b ∷ seen) h = absurd h
SameShape-set_in i j (m ∷ masks) [] h = absurd h
SameShape-set_in zero j (m ∷ masks) (b ∷ seen) (p, q, h) = (p, length-set_bit j b ∙ q, h)
SameShape-set_in (suc i) j (m ∷ masks) (b ∷ seen) (p, q, h) =
    (p, q, SameShape-set_in i j masks seen h)

pub SameShape-mark :
    (n : ℕ) (masks seen : List Byte) → SameShape masks seen → SameShape masks (mark n seen)
unfolding mark
SameShape-mark n masks seen h = SameShape-set_in (n / 8) (n % 8) masks seen h

set_bit-append : (j : ℕ) (b r : Byte) → j < length b → set_bit j (b ++ r) ≡ set_bit j b ++ r
set_bit-append j [] r h = absurd (omega arith)
set_bit-append zero (x ∷ b) r h = refl
set_bit-append (suc j) (x ∷ b) r h = ap (◌∷◌ x) (set_bit-append j b r (omega arith))

pub set_bit_past : (j : ℕ) (b r : Byte) → set_bit (length b + j) (b ++ r) ≡ b ++ set_bit j r
set_bit_past j [] r = rw (zero_add j)
  where
    zero_add : (k : ℕ) → 0 + k ≡ k
    zero_add k = omega arith
set_bit_past j (x ∷ b) r =
    let e : suc (length b) + j ≡ suc (length b + j) = omega arith in
    rw e (ap (◌∷◌ x) (set_bit_past j b r))

flat-set_in :
    (i j : ℕ) (masks seen : List Byte)
    → SameShape masks seen
    → j < 8
    → flat (set_in i j seen) ≡ set_bit (i * 8 + j) (flat seen)
flat-set_in i j [] [] h lt = refl
flat-set_in i j [] (b ∷ seen) h lt = absurd h
flat-set_in i j (m ∷ masks) [] h lt = absurd h
flat-set_in zero j (m ∷ masks) (b ∷ seen) (p, q, h) lt =
    let e : 0 * 8 + j ≡ j = omega arith in rw e (sym (set_bit-append j b (flat seen) (omega arith)))
flat-set_in (suc i) j (m ∷ masks) (b ∷ seen) (p, q, h) lt =
    let e : suc i * 8 + j ≡ length b + (i * 8 + j) = omega arith in
    rw e
      (ap (◌++◌ b) (flat-set_in i j masks seen h lt) ∙ sym (set_bit_past (i * 8 + j) b (flat seen)))

pub flat-mark :
    (n : ℕ) (masks seen : List Byte)
    → SameShape masks seen
    → flat (mark n seen) ≡ set_bit n (flat seen)
unfolding mark
flat-mark n masks seen h =
    flat-set_in (n / 8) (n % 8) masks seen h (omega arith)
    ∙ ap (λ (m : ℕ). set_bit m (flat seen)) (omega arith)

unseen-append :
    (m s n t : Byte) → length m ≡ length s → unseen (m ++ n) (s ++ t) ≡ unseen m s ++ unseen n t
unfolding unseen
unseen-append [] [] n t e = refl
unseen-append [] (y ∷ s) n t e = absurd (omega arith)
unseen-append (x ∷ m) [] n t e = absurd (omega arith)
unseen-append (x ∷ m) (y ∷ s) n t e = ap (◌∷◌ (x && not y)) (unseen-append m s n t (omega arith))

pub length-unseen : (m s : Byte) → length (unseen m s) ≡ length m
unfolding unseen
length-unseen [] s = refl
length-unseen (x ∷ m) [] = ap suc (length-unseen m [])
length-unseen (x ∷ m) (y ∷ s) = ap suc (length-unseen m s)

pub set_names-append :
    (names : List Text) (n : ℕ) (a b : List Bool)
    → set_names names n (a ++ b) ≡ set_names names n a ++ set_names names (n + length a) b
set_names-append names n [] b = ap (λ (m : ℕ). set_names names m b) (omega arith)
set_names-append names n (true ∷ a) b =
    let e : n + suc (length a) ≡ suc n + length a = omega arith in
    rw e (ap (◌∷◌ (field_name names n)) (set_names-append names (suc n) a b))
set_names-append names n (false ∷ a) b =
    let e : n + suc (length a) ≡ suc n + length a = omega arith in
    rw e (set_names-append names (suc n) a b)

-- The check over all bytes reports the fields whose bits are set in the masks and not in `seen`.
pub missed_fields-eq-set_names :
    (names : List Text) (i : ℕ) (masks seen : List Byte)
    → SameShape masks seen
    → missed_fields names i masks seen ≡ set_names names (i * 8) (unseen (flat masks) (flat seen))
unfolding missed_fields
missed_fields-eq-set_names names i [] [] h = unfold unseen in refl
missed_fields-eq-set_names names i [] (b ∷ seen) h = absurd h
missed_fields-eq-set_names names i (m ∷ masks) [] h = absurd h
missed_fields-eq-set_names names i (m ∷ masks) (b ∷ seen) (p, q, h) =
    let next : suc i * 8 ≡ i * 8 + length (unseen m b) = omega (arith, length-unseen m b) in
    rw (unseen-append m b (flat masks) (flat seen) (omega arith)) (
      rw (set_names-append names (i * 8) (unseen m b) (unseen (flat masks) (flat seen))) (
        rw (missed_bits-eq-set_names names i (unseen m b)) (
          ap (◌++◌ (set_names names (i * 8) (unseen m b))) (
            missed_fields-eq-set_names names (suc i) masks seen h
            ∙ ap (λ (k : ℕ). set_names names k (unseen (flat masks) (flat seen))) next))))

pub SameShape-no_bits :
    (masks seen : List Byte) → SameShape masks seen → SameShape masks (no_bits masks)
unfolding no_bits
SameShape-no_bits [] seen h = tt
SameShape-no_bits (m ∷ masks) [] h = absurd h
SameShape-no_bits (m ∷ masks) (b ∷ seen) (p, q, h) = (p, refl, SameShape-no_bits masks seen h)

zeros-append : (a b : ℕ) → zeros (a + b) ≡ zeros a ++ zeros b
zeros-append zero b = ap zeros (omega arith)
zeros-append (suc a) b =
    let e : suc a + b ≡ suc (a + b) = omega arith in rw e (ap (◌∷◌ false) (zeros-append a b))

pub flat-no_bits :
    (masks seen : List Byte)
    → SameShape masks seen
    → flat (no_bits masks) ≡ zeros (length (flat masks))
unfolding no_bits
flat-no_bits [] seen h = refl
flat-no_bits (m ∷ masks) [] h = absurd h
flat-no_bits (m ∷ masks) (b ∷ seen) (p, q, h) =
    rw (flat-no_bits masks seen h)
      (eight ∙ ap zeros (omega (arith, p, length-append m (flat masks))))
  where
    eight : byte 0 ++ zeros (length (flat masks)) ≡ zeros (8 + length (flat masks))
    eight = sym (zeros-append 8 (length (flat masks)))
