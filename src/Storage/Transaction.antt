-- ===== src/Storage/Transaction.antt =====
-- The transaction of `SaveOrder` in order_service/internal/ports/adapters/storage/postgres.go.
use Prim.Native.String.{String}
use l0_wb_tech_school.Base.{
  All, ◌≡◌, refl, subst, ◌∙◌, Bool, true, false, Option, none, some, List, [], ◌∷◌, nat_beq,
  Outcome, ok, err, panic, Cmd, and_then, inl, inr, Bool-cases,
}
use l0_wb_tech_school.Base.Text.{Text}
use l0_wb_tech_school.Models.{OrderItem, Order}
use l0_wb_tech_school.Storage.Items.{items_query}
use l0_wb_tech_school.Storage.Unquoted.{IsUnquotedRow}
use l0_wb_tech_school.Storage.{
  the_items, Value, insert, Statement, literal, Executed, rows_affected, exec_failed, Driver, Part,
  StorageError, expect_one, expect_any, exec_one, save_order_row, save_payment, save_delivery,
  save_items, save_parts, deferred, transaction, save_order,
}

-- The `error` that a call returns.
abbrev pub error_of {ℓ κ} : {E : Type 0} {S : Type ℓ} {A : Type κ} → Outcome E S A → Option E
error_of (ok a s) = none
error_of (err e s) = some e
error_of panic = none

-- What holds of the state that a call leaves.
abbrev pub Leaves {ℓ κ ι} :
    {E : Type 0} {S : Type ℓ} {A : Type κ} → (S → Type ι) → Outcome E S A → Type ι
Leaves P (ok a s) = P s
Leaves P (err e s) = P s
Leaves P panic = Unit

module _ {ℓ} {D : Type ℓ} (driver : Driver D) where
  deferred-error :
      (commit : D → Bool × D) (o : Outcome StorageError D (Unit {0}))
      → error_of (deferred (record driver { commit = commit }) o) ≡ error_of (deferred driver o)
  unfolding deferred
  deferred-error commit (ok u d) = refl
  deferred-error commit (err e d) = refl
  deferred-error commit panic = refl

  transaction-error :
      (commit : D → Bool × D) (order : Order) (begun : Bool × D)
      → error_of (transaction (record driver { commit = commit }) order begun)
        ≡ error_of (transaction driver order begun)
  unfolding transaction
  transaction-error commit order (true, d) = deferred-error commit (save_parts driver order d)
  transaction-error commit order (false, d) = refl

  -- What `SaveOrder` returns does not depend on what `Commit` does: with any other `Commit` in its
  -- place it returns the same error or none.
  pub save_order-error-commit :
      (commit : D → Bool × D) (order : Order) (d : D)
      → error_of (save_order (record driver { commit = commit }) order d)
        ≡ error_of (save_order driver order d)
  unfolding save_order
  save_order-error-commit commit order d = transaction-error commit order (driver.begin d)

  -- `Begin` and `Rollback` leave what is committed as it is, and so does a `Commit` of a transaction
  -- that was rolled back (pgx answers it with `ErrTxClosed`). So do an INSERT with its values as
  -- arguments, and the text of `saveItems` where no text of a row has a quote: it is one INSERT. Of
  -- other texts nothing is asked: they may hold a COMMIT.
  pub record IsTransactional {κ} {T : Type κ} (committed : D → T) (closed : D → Bool)
      : Type (ℓ ⊔ κ) where
    pub begin_keeps : (d : D) → committed (driver.begin d).1 ≡ committed d
    pub insert_keeps :
        (table : String) (columns : List String) (values : List Value) (d : D)
        → committed (driver.exec (insert table columns values) d).1 ≡ committed d
    pub items_keep :
        (order_uid : Text) (item : OrderItem) (items : List OrderItem) (d : D)
        → All (IsUnquotedRow order_uid) (item ∷ items)
        → committed (driver.exec (literal (items_query order_uid (item ∷ items))) d).1 ≡ committed d
    pub rollback_keeps : (d : D) → committed (driver.rollback d).1 ≡ committed d
    pub rollback_closes : (d : D) → closed (driver.rollback d).1 ≡ true
    pub commit_closed : (d : D) → closed d ≡ true → committed (driver.commit d).1 ≡ committed d

  module _ {κ} {T : Type κ} {committed : D → T} {closed : D → Bool}
      (laws : IsTransactional committed closed) where
    abbrev Keeps : D → D → Type κ
    Keeps d d' = committed d' ≡ committed d

    expect_one-Leaves :
        (part : Part) (answer : Executed) (d e : D)
        → Keeps d e
        → Leaves (Keeps d) (expect_one driver part answer e)
    unfolding expect_one
    expect_one-Leaves part exec_failed d e k = k
    expect_one-Leaves part (rows_affected n) d e k = elim (Bool-cases (nat_beq n 1)) [
      | inl h ↦ rw h k
      | inr h ↦ rw h k
    ]

    expect_any-Leaves :
        (part : Part) (answer : Executed) (d e : D)
        → Keeps d e
        → Leaves (Keeps d) (expect_any driver part answer e)
    unfolding expect_any
    expect_any-Leaves part exec_failed d e k = k
    expect_any-Leaves part (rows_affected n) d e k = k

    exec_one-Leaves :
        (part : Part) (s : Statement) (d e : D)
        → Keeps e (driver.exec s e).1
        → Keeps d e
        → Leaves (Keeps d) (exec_one driver part s e)
    unfolding exec_one
    exec_one-Leaves part s d e kept k =
        expect_one-Leaves part (driver.exec s e).0 d (driver.exec s e).1 (kept ∙ k)

    save_items-Leaves :
        (order_uid : Text) (items : List OrderItem) (d e : D)
        → All (IsUnquotedRow order_uid) items
        → Keeps d e
        → Leaves (Keeps d) (save_items driver order_uid items e)
    unfolding save_items
    save_items-Leaves order_uid [] d e plain k = k
    save_items-Leaves order_uid (item ∷ items) d e plain k =
        let s = literal (items_query order_uid (item ∷ items)) in
        expect_any-Leaves the_items (driver.exec s e).0 d (driver.exec s e).1
          (laws.items_keep order_uid item items e plain ∙ k)

    save_order_row-Leaves :
        (order : Order) (d e : D) → Keeps d e → Leaves (Keeps d) (save_order_row driver order e)
    unfolding save_order_row
    save_order_row-Leaves order d e k = exec_one-Leaves _ _ d e (laws.insert_keeps _ _ _ e) k

    save_payment-Leaves :
        (order : Order) (d e : D)
        → Keeps d e
        → Leaves (Keeps d) (save_payment driver order.order_uid order.payment e)
    unfolding save_payment
    save_payment-Leaves order d e k = exec_one-Leaves _ _ d e (laws.insert_keeps _ _ _ e) k

    save_delivery-Leaves :
        (order : Order) (d e : D)
        → Keeps d e
        → Leaves (Keeps d) (save_delivery driver order.order_uid order.delivery e)
    unfolding save_delivery
    save_delivery-Leaves order d e k = exec_one-Leaves _ _ d e (laws.insert_keeps _ _ _ e) k

    and_then-Leaves :
        (d : D) (o : Outcome StorageError D (Unit {0})) (rest : Cmd StorageError D (Unit {0}))
        → Leaves (Keeps d) o
        → ((e : D) → Keeps d e → Leaves (Keeps d) (rest e))
        → Leaves (Keeps d) (and_then o (λ _. rest))
    and_then-Leaves d (ok u e) rest k f = f e k
    and_then-Leaves d (err x e) rest k f = k
    and_then-Leaves d panic rest k f = tt

    save_parts-Leaves :
        (order : Order) (d e : D)
        → All (IsUnquotedRow order.order_uid) order.items
        → Keeps d e
        → Leaves (Keeps d) (save_parts driver order e)
    unfolding save_parts
    save_parts-Leaves order d e plain k =
        and_then-Leaves d _ _ (save_order_row-Leaves order d e k) λ d1 k1.
          and_then-Leaves d _ _ (save_payment-Leaves order d d1 k1) λ d2 k2.
            and_then-Leaves d _ _ (save_delivery-Leaves order d d2 k2)
              λ d3 k3. save_items-Leaves order.order_uid order.items d d3 plain k3

    -- What a call leaves committed, if it returns an error.
    abbrev FailsClean : D → Outcome StorageError D (Unit {0}) → Type κ
    FailsClean d (ok u e) = Unit
    FailsClean d (err x e) = Keeps d e
    FailsClean d panic = Unit

    deferred-FailsClean :
        (d : D) (o : Outcome StorageError D (Unit {0}))
        → Leaves (Keeps d) o
        → FailsClean d (deferred driver o)
    unfolding deferred
    deferred-FailsClean d (ok u e) k = tt
    deferred-FailsClean d (err x e) k =
        laws.commit_closed _ (laws.rollback_closes e) ∙ laws.rollback_keeps e ∙ k
    deferred-FailsClean d panic k = tt

    transaction-FailsClean :
        (order : Order) (d : D) (begun : Bool × D)
        → All (IsUnquotedRow order.order_uid) order.items
        → committed begun.1 ≡ committed d
        → FailsClean d (transaction driver order begun)
    unfolding transaction
    transaction-FailsClean order d (true, e) plain k =
        deferred-FailsClean d _ (save_parts-Leaves order d e plain k)
    transaction-FailsClean order d (false, e) plain k = k

    save_order-FailsClean :
        (order : Order) (d : D)
        → All (IsUnquotedRow order.order_uid) order.items
        → FailsClean d (save_order driver order d)
    unfolding save_order
    save_order-FailsClean order d plain =
        transaction-FailsClean order d (driver.begin d) plain (laws.begin_keeps d)

    -- On a database with transactions, a `SaveOrder` that returns an error has saved nothing: what is
    -- committed is as before, whichever statement failed. It holds for an order whose items have texts
    -- with no quote and numbers of at most 20 digits.
    pub save_order-err :
        (order : Order) (d d' : D) {e : StorageError}
        → All (IsUnquotedRow order.order_uid) order.items
        → save_order driver order d ≡ err e d'
        → committed d' ≡ committed d
    save_order-err order d d' plain h = subst (FailsClean d) h (save_order-FailsClean order d plain)
