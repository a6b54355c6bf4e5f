-- ===== src/Lru.antt =====
-- `CacheLRUInMemory` in order_service/pkg/pkgports/adapters/cache/lru/in_memory.go, over the pointer
-- model of its key list. The Go map is a function from keys; a call of a list method that returns an
-- `error` is looked at by the caller, so it enters as a value. `Set` holds the write lock and is one
-- step, and so is `Get`, though it holds a read lock only.
pub mod Calls
pub mod Evict
pub mod History
pub mod Items
pub mod Places
pub mod Refinement
use l0_wb_tech_school.Base.{
  ℕ, ◌+◌, Bool, not, Option, none, some, List, Eq, ◌==◌, if◌then◌else◌, Outcome, ok, err, panic,
  Cmd, ◌>>=◌, ◌>>◌, pure, raise, get_state, modify,
}
use l0_wb_tech_school.Base.Int.{ℤ, pos, negsuc, ltb_ℤ, eq_ℤ}
use l0_wb_tech_school.Heap.{ListError, invalid_index, empty_list, Memory, ListCmd}
use l0_wb_tech_school.LinkedList
use l0_wb_tech_school.LinkedList.{new_linked_list}

-- The errors of `Get` and `Set`, by the text that wraps them.
pub data CacheError : Type 0 where
  stored_but_list_empty stored_but_not_listed : CacheError
  getting_index putting_to_top removing_existing inserting getting_last removing_last :
      ListError → CacheError

pub record Cache {ℓ} (K V : Type ℓ) : Type ℓ where
  pub stored : K → Option V
  pub keys_list : Memory K
  pub cap : ℤ

-- What a caller sees of a method that returns a value and an `error`.
pub data Answer {ℓ} (A : Type ℓ) : Type ℓ where
  returned : A → Answer A
  failed : ListError → Answer A

module _ {ℓ} {K V : Type ℓ} where
  -- `NewCacheLRUInMemory`
  unfoldable pub new_cache : ℤ → Cache K V
  unfolding new_linked_list
  new_cache capacity = record {
    stored = λ _. none;
    keys_list = record { nodes = λ _. none; used = 0; list = new_linked_list };
    cap = capacity;
  }

  -- `GetCapacity` and `GetKeysAmount`
  unfoldable pub get_capacity : Cache K V → ℤ
  get_capacity c = c.cap

  unfoldable pub get_keys_amount : Cache K V → ℕ
  get_keys_amount c = c.keys_list.length

  pub answer {κ} :
      {A : Type κ} → Outcome ListError (Memory K) A → Cmd CacheError (Cache K V) (Answer A)
  answer (ok a s) c = ok (returned a) (record c { keys_list = s })
  answer (err e s) c = ok (failed e) (record c { keys_list = s })
  answer panic c = panic

  pub call {κ} : {A : Type κ} → ListCmd K A → Cmd CacheError (Cache K V) (Answer A)
  unfolding answer
  call m c = answer (m c.keys_list) c

  -- `if err != nil { return wrap(err) }`
  check {κ} : {A : Type κ} → (ListError → CacheError) → Answer A → Cmd CacheError (Cache K V) A
  check wrap (returned a) = pure a
  check wrap (failed e) = raise (wrap e)

module _ {ℓ} {K V : Type ℓ} ⦃e : Eq K⦄ where
  abbrev update : K → Option V → (K → Option V) → K → Option V
  update k o f j = if j == k then o else f j

  pub put_first : Answer ℤ → Cmd CacheError (Cache K V) (Unit {0})
  unfolding call check
  put_first (failed empty_list) = raise stored_but_list_empty
  put_first (failed invalid_index) = raise (getting_index invalid_index)
  put_first (returned index) =
      if not (eq_ℤ index (negsuc 0))
      then (do moved ← call (LinkedList.move_to_first index); check putting_to_top moved)
      else raise stored_but_not_listed

  pub touch_key : K → Cmd CacheError (Cache K V) (Unit {0})
  unfolding put_first
  touch_key key = do index ← call (LinkedList.get_index ◌==◌ key); put_first index

  -- The lookup of `Get`, and the rest of it for a key that is stored.
  get_stored : K → Option V → Cmd CacheError (Cache K V) (Option V)
  unfolding touch_key
  get_stored key none = pure none
  get_stored key (some value) = do touch_key key; pure (some value)

  -- `none` is the answer `ok == false`.
  unfoldable pub get : K → Cmd CacheError (Cache K V) (Option V)
  unfolding get_stored
  get key = do c ← get_state; get_stored key (c.stored key)

  -- The index that `Set` acts on: -1 when the list is empty or has no such key.
  drop_existing : Answer ℤ → Cmd CacheError (Cache K V) (Unit {0})
  unfolding call check
  drop_existing (failed empty_list) = pure tt
  drop_existing (failed invalid_index) = raise (getting_index invalid_index)
  drop_existing (returned index) =
      if not (eq_ℤ index (negsuc 0))
      then (do removed ← call (LinkedList.remove_at index); check removing_existing removed)
      else pure tt

  pub drop_key : K → Cmd CacheError (Cache K V) (Unit {0})
  unfolding drop_existing
  drop_key key = do index ← call (LinkedList.get_index ◌==◌ key); drop_existing index

  pub insert_key : K → Cmd CacheError (Cache K V) (Unit {0})
  unfolding call check
  insert_key key = do inserted ← call (LinkedList.insert key (pos 0)); check inserting inserted

  pub evict : Answer K → Cmd CacheError (Cache K V) (Unit {0})
  unfolding call check
  evict (failed empty_list) = pure tt
  evict (failed invalid_index) = raise (getting_last invalid_index)
  evict (returned key_to_delete) = do
    removed ← call LinkedList.remove_last
    check removing_last removed
    modify λ c. record c { stored = update key_to_delete none c.stored }

  -- "remove value if we're out of space"
  pub make_room : Cmd CacheError (Cache K V) (Unit {0})
  unfolding evict
  make_room = do
    c ← get_state
    if ltb_ℤ c.cap (pos c.keys_list.length)
        then (do last ← call LinkedList.get_last; evict last)
        else pure tt

  unfoldable pub set : K → V → Cmd CacheError (Cache K V) (Unit {0})
  unfolding drop_key insert_key make_room
  set key value = do
    drop_key key
    insert_key key
    modify λ c. record c { stored = update key (some value) c.stored }
    make_room

  -- `GetKeys`, `MostUsedKey` and `LeastUsedKey` read the key list.
  unfoldable pub get_keys : Cmd CacheError (Cache K V) (Answer (List K))
  unfolding call
  get_keys = call LinkedList.get_all

  unfoldable pub most_used_key : Cmd CacheError (Cache K V) (Answer K)
  unfolding call
  most_used_key = call LinkedList.get_first

  unfoldable pub least_used_key : Cmd CacheError (Cache K V) (Answer K)
  unfolding call
  least_used_key = call LinkedList.get_last
