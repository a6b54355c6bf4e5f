-- ===== src/Storage.antt =====
-- `SaveOrder` of order_service/internal/ports/adapters/storage/postgres.go. The database is a
-- parameter, `Driver`: what a pool and a transaction answer, and the state they leave. The builder of
-- queries (squirrel) gives the statement of its arguments and no error.
pub mod Digits
pub mod Rows
pub mod Unquoted
pub mod Quotes
pub mod Query
pub mod Scan
pub mod Read
pub mod Joins
pub mod Items
pub mod Transaction
pub mod Saved
pub mod RoundTrip
pub mod LastOrders
use Prim.Native.String.{String}
use l0_wb_tech_school.Base.{
  ℕ, Bool, false, true, List, [], ◌∷◌, ◌++◌, map, nat_beq, if◌then◌else◌, Outcome, ok, err, panic,
  Cmd, ◌>>=◌, ◌>>◌, pure, raise,
}
use l0_wb_tech_school.Base.Int.{ℤ}
use l0_wb_tech_school.Base.Text.{Text}
use l0_wb_tech_school.Models.{Time, Delivery, Payment, OrderItem, Order}
use l0_wb_tech_school.Storage.Items.{items_query}

pub data Value : Type 0 where
  text : Text → Value
  int : ℤ → Value
  time : Time → Value

-- An INSERT with its columns and arguments, or a text that is executed as it is.
pub data Statement : Type 0 where
  insert : String → List String → List Value → Statement
  literal : Text → Statement

pub data Executed : Type 0 where
  rows_affected : ℕ → Executed
  exec_failed : Executed

-- The methods of `pgxpool.Pool` and `pgx.Tx` that `SaveOrder` calls, each with whether it succeeds.
pub record Driver {ℓ} (D : Type ℓ) : Type ℓ where
  pub begin : D → Bool × D
  pub exec : Statement → D → Executed × D
  pub commit : D → Bool × D
  pub rollback : D → Bool × D

-- The part of `SaveOrder` that an error comes from.
pub data Part : Type 0 where
  the_order the_payment the_delivery the_items : Part

pub data StorageError : Type 0 where
  not_started : StorageError
  couldnt_exec unexpected_rows : Part → StorageError

abbrev pub orders_insert : Order → Statement
orders_insert order =
    insert "order_service.orders"
      ("order_uid" ∷ "track_number" ∷ "entry" ∷ "locale" ∷ "internal_signature" ∷ "customer_id"
        ∷ "delivery_service" ∷ "shardkey" ∷ "sm_id" ∷ "date_created" ∷ "oof_shard" ∷ [])
      (text order.order_uid
        ∷ text order.track_number
        ∷ text order.entry
        ∷ text order.locale
        ∷ text order.internal_signature
        ∷ text order.customer_id
        ∷ text order.delivery_service
        ∷ text order.shard_key
        ∷ int order.sm_id
        ∷ time order.date_created
        ∷ text order.oof_shard
        ∷ [])

abbrev pub payments_insert : Text → Payment → Statement
payments_insert order_uid payment =
    insert "order_service.payments"
      ("order_id" ∷ "transaction" ∷ "request_id" ∷ "currency" ∷ "provider" ∷ "amount" ∷ "payment_dt"
        ∷ "bank" ∷ "delivery_cost" ∷ "goods_total" ∷ "custom_fee" ∷ [])
      (text order_uid
        ∷ text payment.transaction
        ∷ text payment.request_id
        ∷ text payment.currency
        ∷ text payment.provider
        ∷ int payment.amount
        ∷ int payment.payment_dt
        ∷ text payment.bank
        ∷ int payment.delivery_cost
        ∷ int payment.goods_total
        ∷ int payment.custom_fee
        ∷ [])

abbrev pub deliveries_insert : Text → Delivery → Statement
deliveries_insert order_uid delivery =
    insert "order_service.deliveries"
      ("order_id" ∷ "name" ∷ "phone" ∷ "zip" ∷ "city" ∷ "address" ∷ "region" ∷ "email" ∷ [])
      (text order_uid
        ∷ text delivery.name
        ∷ text delivery.phone
        ∷ text delivery.zip
        ∷ text delivery.city
        ∷ text delivery.address
        ∷ text delivery.region
        ∷ text delivery.email
        ∷ [])

module _ {ℓ} {D : Type ℓ} (driver : Driver D) where
  -- `transaction.Exec` and the tests of its answer.
  unfoldable pub expect_one : Part → Executed → Cmd StorageError D (Unit {0})
  expect_one part exec_failed = raise (couldnt_exec part)
  expect_one part (rows_affected n) = if nat_beq n 1 then pure tt else raise (unexpected_rows part)

  unfoldable pub expect_any : Part → Executed → Cmd StorageError D (Unit {0})
  expect_any part exec_failed = raise (couldnt_exec part)
  expect_any part (rows_affected n) = pure tt

  unfoldable pub exec_one : Part → Statement → Cmd StorageError D (Unit {0})
  unfolding expect_one
  exec_one part statement d =
      let answer = driver.exec statement d in expect_one part answer.0 answer.1

  unfoldable pub save_order_row : Order → Cmd StorageError D (Unit {0})
  unfolding exec_one
  save_order_row order = exec_one the_order (orders_insert order)

  unfoldable pub save_payment : Text → Payment → Cmd StorageError D (Unit {0})
  unfolding exec_one
  save_payment order_uid payment = exec_one the_payment (payments_insert order_uid payment)

  unfoldable pub save_delivery : Text → Delivery → Cmd StorageError D (Unit {0})
  unfolding exec_one
  save_delivery order_uid delivery = exec_one the_delivery (deliveries_insert order_uid delivery)

  unfoldable pub save_items : Text → List OrderItem → Cmd StorageError D (Unit {0})
  unfolding expect_any
  save_items order_uid [] d = ok tt d
  save_items order_uid (item ∷ items) d =
      let answer = driver.exec (literal (items_query order_uid (item ∷ items))) d in
      expect_any the_items answer.0 answer.1

  -- The four saves, one after another.
  unfoldable pub save_parts : Order → Cmd StorageError D (Unit {0})
  unfolding save_order_row save_payment save_delivery save_items
  save_parts order = do
    save_order_row order
    save_payment order.order_uid order.payment
    save_delivery order.order_uid order.delivery
    save_items order.order_uid order.items

  -- The deferred function. What `SaveOrder` returns stands before it runs, and its `err` is not the
  -- result.
  unfoldable pub deferred : Outcome StorageError D (Unit {0}) → Outcome StorageError D (Unit {0})
  deferred (ok u d) = ok u (driver.commit d).1
  deferred (err e d) = err e (driver.commit (driver.rollback d).1).1
  deferred panic = panic

  unfoldable pub transaction : Order → Bool × D → Outcome StorageError D (Unit {0})
  unfolding save_parts deferred
  transaction order (true, d) = deferred (save_parts order d)
  transaction order (false, d) = err not_started d

  unfoldable pub save_order : Order → Cmd StorageError D (Unit {0})
  unfolding transaction
  save_order order d = transaction order (driver.begin d)
