-- ===== src/Lru/Evict.antt =====
-- The eviction at the end of `Set`.
use l0_wb_tech_school.Base.{
  ℕ, suc, ◌-◌, ◌≤◌, ◌<◌, ◌≡◌, refl, sym, ap, subst, ◌∙◌, false, true, some, List, [], ◌∷◌, arith,
  Eq, length, take, get_elem?, remove_at, Refines, both_ok, and_then-refines, ok, length-map, ltb,
  take_of_length-le, get_elem?_of_lt, ◌>>=◌, length-take-le,
}
use native.Mathlib.Decide.{dec_lt}
use l0_wb_tech_school.Base.Int.{ℤ, pos, negsuc, ltb_ℤ, pred_ℤ}
use l0_wb_tech_school.LinkedList
use l0_wb_tech_school.LinkedList.Spec
use l0_wb_tech_school.LinkedList.Chain.{Represents}
use l0_wb_tech_school.LinkedList.Refinement.{remove_last-Represents, get_last-Represents}
use l0_wb_tech_school.Lru.{Cache, call, check, make_room, evict}
use l0_wb_tech_school.Lru.Items.{room, keys, lookup, Distinct}
use l0_wb_tech_school.Lru.Places.{Distinct-take, lookup-take, keys-take}
use l0_wb_tech_school.Lru.Calls.{Holds, answer-ok}

-- What the specification of the list does at its end.
module _ {ℓ} {V : Type ℓ} where
  get_last-eq :
      (n : ℕ) (vs : List V) {v : V}
      → length vs ≡ suc n
      → get_elem? vs n ≡ some v
      → Spec.get_last vs ≡ ok v vs
  unfolding Spec.get_last
  get_last-eq n vs size e = let at : length vs - 1 ≡ n = omega arith in rw at (rw e)

  remove_last-eq :
      (n : ℕ) (vs : List V)
      → length vs ≡ suc n
      → Spec.remove_at (pred_ℤ (pos (length vs))) vs ≡ ok tt (remove_at n vs)
  unfolding Spec.remove_at
  remove_last-eq n [] size = absurd (omega arith)
  remove_last-eq n (v ∷ vs) size =
      let inside : ltb (length vs) (suc (length vs)) ≡ true = ground arith in
      let at : length vs ≡ n = omega arith in rw inside (ap (λ i. ok tt (remove_at i (v ∷ vs))) at)

over_test : (cap : ℤ) (n : ℕ) → room cap < n → ltb_ℤ cap (pos n) ≡ true
over_test (pos m) n h = ground arith
over_test (negsuc m) n h = refl

under_test : (cap : ℤ) (n : ℕ) → 0 < n → n ≤ room cap → ltb_ℤ cap (pos n) ≡ false
under_test (pos m) n nonempty h = ground arith
under_test (negsuc m) n nonempty h = absurd (omega arith)

module _ {ℓ} {K V : Type ℓ} ⦃eq : Eq K⦄ (c : Cache K V) (items : List (K × V))
    (listed : Represents c.keys_list (keys items)) (distinct : Distinct items)
    (stored : (k : K) → c.stored k ≡ lookup k items) {cap : ℤ} (capacity : c.cap ≡ cap) where
  keys_length : c.keys_list.length ≡ length items
  keys_length =
      listed.1.count
      ∙ sym (length-map (λ e. e.1) listed.0)
      ∙ ap length listed.2
      ∙ length-map (λ e. e.0) items

  evicted :
      (n : ℕ)
      → length items ≡ suc n
      → n ≤ room cap
      → Refines (Holds cap) ((call LinkedList.get_last >>= evict) c) (ok tt (take n items))
  unfolding evict call check
  evicted n size le =
      let ksize : length (keys items) ≡ suc n = length-map (λ e. e.0) items ∙ size in
      let (last, e) = get_elem?_of_lt n (keys items) (omega arith) in
      and_then-refines _
        (answer-ok {c₀ = c} (record { listed = listed; stored = refl; cap = refl })
          (subst (Refines Represents _) (get_last-eq n (keys items) ksize e)
            (get_last-Represents c.keys_list _ listed)))
        λ s l.
          and_then-refines _
            (answer-ok l (
              subst (Refines Represents _) (remove_last-eq n (keys items) ksize)
                (remove_last-Represents s.keys_list _ l.listed)))
            λ s' l'. both_ok (record {
              listed = rw (keys-take n items size) l'.listed;
              distinct = Distinct-take n items distinct;
              stored =
                  λ k. rw l'.stored (rw (stored k) (sym (lookup-take k n items size distinct e)));
              fits = omega (arith, length-take-le n items);
              capacity = l'.cap ∙ capacity;
            })

  pub make_room-Holds :
      0 < length items
      → length items ≤ suc (room cap)
      → Refines (Holds cap) (make_room c) (ok tt (take (room cap) items))
  unfolding make_room
  make_room-Holds nonempty few =
      let same : room c.cap ≡ room cap = ap room capacity in
      elim (dec_lt (room cap) (length items)) [
        | yes over ↦
            rw (over_test c.cap c.keys_list.length (omega (arith, keys_length)))
              (evicted (room cap) (omega arith) (omega arith))
        | no under ↦
            rw
              (under_test c.cap c.keys_list.length (omega (arith, keys_length))
                (omega (arith, keys_length)))
              (rw (take_of_length-le (room cap) items (omega arith)) (
                both_ok (record {
                  listed = listed;
                  distinct = distinct;
                  stored = stored;
                  fits = omega arith;
                  capacity = capacity;
                })))
      ]
