-- ===== src/Lru/History.antt =====
-- The eviction order of in_memory.go, against a memory that forgets nothing.
use l0_wb_tech_school.Base.{
  ℕ, zero, suc, ◌≡◌, refl, sym, ap, subst, ◌∙◌, Option, none, some, List, [], ◌∷◌, arith, Eq, ◌==◌,
  take, inl, inr, Bool-cases, Option-cases, Refines, both_ok, and_then-refines, bind-refines, Cmd,
  ok, ◌>>=◌, ◌>>◌, pure, take_of_length-le, length-take-le,
}
use l0_wb_tech_school.Base.Int.{ℤ}
use l0_wb_tech_school.Lru
use l0_wb_tech_school.Lru.{CacheError, Cache, new_cache}
use l0_wb_tech_school.Heap.Seg.{nil}
use l0_wb_tech_school.LinkedList.{new_linked_list}
use l0_wb_tech_school.Lru.Items.{
  room, lookup, remove, touch, after_get, after_set, after_get_hit, after_get_miss, length-remove,
}
use l0_wb_tech_school.Lru.Calls.{Holds}
use l0_wb_tech_school.Lru.Refinement.{get-Holds, set-Holds}

pub data Call {ℓ} (K V : Type ℓ) : Type ℓ where
  get : K → Call K V
  set : K → V → Call K V

module _ {ℓ} {K V : Type ℓ} ⦃eq : Eq K⦄ where
  -- A run of calls, with the answers of the `Get`s.
  unfoldable pub run : List (Call K V) → Cmd CacheError (Cache K V) (List (Option V))
  run [] = pure []
  run (get k ∷ calls) = do a ← Lru.get k; rest ← run calls; pure (a ∷ rest)
  run (set k v ∷ calls) = do Lru.set k v; run calls

  -- The history holds every entry ever stored, the most recently used first. A `Get` is a use if
  -- the key is among the first `n` entries.
  unfoldable pub use_key : ℕ → K → List (K × V) → List (K × V)
  use_key n k h = elim (lookup k (take n h)) [ none ↦ h | some v ↦ touch k v h ]

  unfoldable pub ideal : ℕ → List (Call K V) → Cmd CacheError (List (K × V)) (List (Option V))
  ideal n [] h = ok [] h
  ideal n (get k ∷ calls) h =
      (ideal n calls >>= λ rest. pure (lookup k (take n h) ∷ rest)) (use_key n k h)
  ideal n (set k v ∷ calls) h = ideal n calls (touch k v h)

  take-take : (n : ℕ) (h : List (K × V)) → take n (take n h) ≡ take n h
  take-take n h = take_of_length-le n (take n h) (length-take-le n h)

  take-remove-take :
      (k : K) (n : ℕ) (h : List (K × V)) → take n (remove k (take (suc n) h)) ≡ take n (remove k h)
  unfolding remove
  take-remove-take k n [] = refl
  take-remove-take k zero (x ∷ h) = refl
  take-remove-take k (suc n) ((i, v) ∷ h) = elim (Bool-cases (i == k)) [
    | inl hit ↦ rw hit (take-take (suc n) h)
    | inr miss ↦ rw miss (ap (◌∷◌ (i, v)) (take-remove-take k n h))
  ]

  take-touch-take :
      (k : K) (v : V) (n : ℕ) (h : List (K × V))
      → take n (touch k v (take n h)) ≡ take n (touch k v h)
  take-touch-take k v zero h = refl
  take-touch-take k v (suc n) h = ap (◌∷◌ (k, v)) (take-remove-take k n h)

  use_key_hit :
      (n : ℕ) (k : K) (h : List (K × V)) {v : V}
      → lookup k (take n h) ≡ some v
      → use_key n k h ≡ touch k v h
  unfolding use_key
  use_key_hit n k h e = rw (e, use_key)

  use_key_miss : (n : ℕ) (k : K) (h : List (K × V)) → lookup k (take n h) ≡ none → use_key n k h ≡ h
  unfolding use_key
  use_key_miss n k h e = rw (e, use_key)

  get-window : (n : ℕ) (k : K) (h : List (K × V)) → after_get k (take n h) ≡ take n (use_key n k h)
  get-window n k h = elim (Option-cases (lookup k (take n h))) [
    | inl miss ↦ after_get_miss k (take n h) miss ∙ ap (take n) (sym (use_key_miss n k h miss))
    | inr (v, hit) ↦
        after_get_hit k (take n h) hit
        ∙ sym (
            take_of_length-le n (touch k v (take n h))
              (omega (arith, length-remove k (take n h) hit, length-take-le n h)))
        ∙ take-touch-take k v n h
        ∙ ap (take n) (sym (use_key_hit n k h hit))
  ]

  set-window :
      (n : ℕ) (k : K) (v : V) (h : List (K × V)) → after_set n k v (take n h) ≡ take n (touch k v h)
  unfolding after_set
  set-window n k v h = take-touch-take k v n h

  module _ (cap : ℤ) where
    -- The cache is the window of the first entries of the history that fit.
    abbrev pub Window : Cache K V → List (K × V) → Type ℓ
    Window c h = Holds cap c (take (room cap) h)

    pub run-Window :
        (calls : List (Call K V)) (c : Cache K V) (h : List (K × V))
        → Window c h
        → Refines Window (run calls c) (ideal (room cap) calls h)
    unfolding run ideal
    run-Window [] c h w = both_ok w
    run-Window (get k ∷ calls) c h w =
        and_then-refines _ (get-Holds k c (take (room cap) h) w) λ s r.
          bind-refines _ _
            (run-Window calls s (use_key (room cap) k h)
              (subst (Holds cap s) (get-window (room cap) k h) r))
            λ a s' h' w'. both_ok w'
    run-Window (set k v ∷ calls) c h w =
        and_then-refines _ (set-Holds k c v (take (room cap) h) w) λ s r.
          run-Window calls s (touch k v h) (subst (Holds cap s) (set-window (room cap) k v h) r)

    pub new_cache-Holds : Holds {K = K} {V = V} cap (new_cache cap) []
    unfolding new_cache lookup new_linked_list
    new_cache-Holds = record {
      listed = ([], record { chain = nil; last = refl; count = refl; bound = λ a h. refl }, refl);
      distinct = tt;
      stored = λ k. refl;
      fits = omega arith;
      capacity = refl;
    }

    new_cache-Window : Window (new_cache cap) []
    new_cache-Window =
        subst (Holds cap (new_cache cap)) (sym (take_of_length-le (room cap) [] (omega arith)))
          new_cache-Holds

    -- From a new cache of any capacity, every run of `Get` and `Set` returns no error and answers as the
    -- use history does: a `Get` finds a key exactly if it is among the `cap` most recently used ones,
    -- with the value last set, and after the run the cache holds exactly these entries.
    pub run-new_cache :
        (calls : List (Call K V))
        → Refines Window (run calls (new_cache cap)) (ideal (room cap) calls [])
    run-new_cache calls = run-Window calls (new_cache cap) [] new_cache-Window
