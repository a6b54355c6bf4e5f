-- ===== src/Tests/Lists.antt =====
-- The list of order_service/pkg/linkedlist/list.go and the cache of
-- order_service/pkg/pkgports/adapters/cache/lru/in_memory.go at work.
use l0_wb_tech_school.Base.{
  ℕ, ◌≡◌, refl, none, some, List, [], ◌∷◌, arith, ◌==◌, nat_eq, if◌then◌else◌, ok, Refines,
}
use l0_wb_tech_school.Base.Int.{pos}
use l0_wb_tech_school.Heap.{load, Memory, Nodes, node, null}
use l0_wb_tech_school.Heap.Seg.{nil, cons}
use l0_wb_tech_school.LinkedList.{insert, remove_at, get_all}
use l0_wb_tech_school.LinkedList.Spec
use l0_wb_tech_school.LinkedList.Chain.{Represents}
use l0_wb_tech_school.LinkedList.Refinement.{insert-Represents, remove_at-Represents}
use l0_wb_tech_school.Lru.{Cache, new_cache}
use l0_wb_tech_school.Lru
use l0_wb_tech_school.Lru.Items.{lookup, remove, after_get}
use l0_wb_tech_school.Lru.Calls.{Holds}
use l0_wb_tech_school.Lru.Refinement.{get-Holds}
use l0_wb_tech_school.Lru.History.{Call, get, set, run, ideal, use_key, Window, run-new_cache}

-- 5 at the address 1, then 7 at the address 2.
abbrev pub two_nodes : Nodes ℕ
two_nodes a = if a == 1 then some (node 5 2) else if a == 2 then some (node 7 null) else none

abbrev pub two : Memory ℕ
two = record { nodes = two_nodes; used = 2; list = record { head = 1; tail = 2; length = 2 } }

pub two-Represents : Represents two (5 ∷ 7 ∷ [])
two-Represents = (
  (1, 5) ∷ (2, 7) ∷ [],
  record {
    chain =
        cons (record { ne_null = omega arith; holds = refl }) refl
          (cons (record { ne_null = omega arith; holds = refl }) refl nil);
    last = refl;
    count = refl;
    bound = λ a lt. ground arith;
  },
  refl,
)

insert-Represents_example :
    Refines Represents (insert 6 (pos 1) two) (Spec.insert 6 (pos 1) (5 ∷ 7 ∷ []))
insert-Represents_example = insert-Represents two (5 ∷ 7 ∷ []) two-Represents 6 (pos 1)

remove_at-Represents_example :
    Refines Represents (remove_at (pos 1) two) (Spec.remove_at (pos 1) (5 ∷ 7 ∷ []))
remove_at-Represents_example = remove_at-Represents two (5 ∷ 7 ∷ []) two-Represents (pos 1)

one_key : Cache ℕ ℕ
one_key = record {
  stored = λ k. if 5 == k then some 50 else none;
  keys_list = record {
    nodes = λ a. if a == 1 then some (node 5 null) else none;
    used = 1;
    list = record { head = 1; tail = 1; length = 1 };
  };
  cap = pos 1;
}

one_key-Holds : Holds (pos 1) one_key ((5, 50) ∷ [])
unfolding one_key lookup
one_key-Holds = record {
  listed = (
    (1, 5) ∷ [],
    record {
      chain = cons (record { ne_null = omega arith; holds = refl }) refl nil;
      last = refl;
      count = refl;
      bound = λ a lt. ground arith;
    },
    refl,
  );
  distinct = (refl, tt);
  stored = λ k. refl;
  fits = omega arith;
  capacity = refl;
}

get-Holds_example :
    Refines
      (Holds (pos 1))
      (Lru.get 5 one_key)
      (ok (lookup {K = ℕ} 5 ((5, 50) ∷ [])) (after_get 5 ((5, 50) ∷ [])))
get-Holds_example = get-Holds 5 one_key ((5, 50) ∷ []) one_key-Holds

abbrev some_calls : List (Call ℕ ℕ)
some_calls = set 5 50 ∷ set 6 60 ∷ get 5 ∷ set 7 70 ∷ get 6 ∷ get 5 ∷ []

run-new_cache_example :
    Refines (Window (pos 2)) (run some_calls (new_cache (pos 2))) (ideal 2 some_calls [])
run-new_cache_example = run-new_cache (pos 2) some_calls

-- 6 was used before 5, so 7 takes its place.
ideal_test :
    ideal 2 some_calls [] ≡ ok (some 50 ∷ none ∷ some 50 ∷ []) ((5, 50) ∷ (7, 70) ∷ (6, 60) ∷ [])
unfolding ideal lookup use_key remove
ideal_test = refl

get_all_test : get_all two ≡ ok (5 ∷ 7 ∷ []) two
unfolding get_all load
get_all_test = refl
