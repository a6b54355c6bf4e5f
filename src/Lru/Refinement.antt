-- ===== src/Lru/Refinement.antt =====
-- `Get` and `Set` of order_service/pkg/pkgports/adapters/cache/lru/in_memory.go against the entries in
-- order of use.
use l0_wb_tech_school.Base.{
  sym, ◌∙◌, some, List, arith, Eq, ==_sym, inl, inr, Option-cases, Refines, both_ok,
  and_then-refines, ok,
}
use l0_wb_tech_school.Base.Int.{ℤ}
use l0_wb_tech_school.Lru.{Cache, get_stored, get, update, set}
use l0_wb_tech_school.Lru.Items.{
  room, lookup, touch, after_get, after_set, after_get_hit, after_get_miss, touch-Distinct,
  lookup-touch, lookup-touch_hit, length-remove, length-remove-le,
}
use l0_wb_tech_school.Lru.Calls.{Holds, touch_key-Listed, drop_key-Listed, insert_key-Listed}
use l0_wb_tech_school.Lru.Evict.{make_room-Holds}

module _ {ℓ} {K V : Type ℓ} ⦃eq : Eq K⦄ (key : K) (c : Cache K V) where
  -- On a cache that holds the entries `items`, `Get` answers with the entry of the key and makes it the most recently used; a key with no
  -- entry is a miss that changes nothing. No error of `Get` is ever returned.
  pub get-Holds :
      {cap : ℤ} (items : List (K × V))
      → Holds cap c items
      → Refines (Holds cap) (get key c) (ok (lookup key items) (after_get key items))
  unfolding get get_stored
  get-Holds items h = elim (Option-cases (lookup key items)) [
    | inl miss ↦ rw (h.stored key) (rw miss (rw (after_get_miss key items miss) (both_ok h)))
    | inr (v, hit) ↦ rw (h.stored key) (
        rw hit (
          rw (after_get_hit key items hit) (
            and_then-refines _ (touch_key-Listed key c items h.listed hit) λ s l. both_ok (record {
              listed = l.listed;
              distinct = touch-Distinct key v items h.distinct;
              stored =
                  λ k. rw l.stored (h.stored k ∙ sym (lookup-touch_hit key items hit h.distinct k));
              fits = omega (arith, h.fits, length-remove key items hit);
              capacity = l.cap ∙ h.capacity;
            }))))
  ]

  -- On a cache that holds the entries `items`, `Set` stores the entry as the most recently used, in place of an older entry of the key, and
  -- when that is one entry too many drops the least recently used. It returns no error.
  pub set-Holds :
      {cap : ℤ} (value : V) (items : List (K × V))
      → Holds cap c items
      → Refines (Holds cap) (set key value c) (ok tt (after_set (room cap) key value items))
  unfolding set after_set
  set-Holds value items h = and_then-refines _ (drop_key-Listed key c items h.listed) λ s l.
      and_then-refines _ (insert_key-Listed key s _ l) λ s' l'.
        make_room-Holds (record s' { stored = update key (some value) s'.stored })
          (touch key value items) l'.listed (touch-Distinct key value items h.distinct)
          (λ k.
            rw l'.stored (
              rw (h.stored k)
                (rw (==_sym k key) (sym (lookup-touch key value items k h.distinct)))))
          (l'.cap ∙ h.capacity) (omega arith) (omega (arith, h.fits, length-remove-le key items))
