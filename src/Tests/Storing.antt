-- ===== src/Tests/Storing.antt =====
-- The storage of order_service/internal/ports/adapters/storage/postgres.go over a small database.

use l0_wb_tech_school.Base.{
  arith, ◌<◌, ◌≡◌, refl, Bool, true, false, List, [], ◌∷◌, ◌++◌, All, if◌then◌else◌,
}
use l0_wb_tech_school.Base.Text.{Text}
use l0_wb_tech_school.Storage.{
  Statement, insert, literal, Executed, rows_affected, exec_failed, Driver, save_order,
}
use l0_wb_tech_school.Storage.Digits.{IsUnquoted}
use l0_wb_tech_school.Storage.Unquoted.{IsUnquotedRow}
use l0_wb_tech_school.Storage.Transaction.{
  error_of, IsTransactional, save_order-err, save_order-error-commit,
}
use l0_wb_tech_school.Tests.Validating.{an_item, an_order}

-- Committed statements, and those of the transaction.
record Db : Type 0 where
  committed : List Statement
  written : List Statement
  closed : Bool

abbrev empty_db : Db
empty_db = record { committed = []; written = []; closed = false }

-- It refuses a text that is executed as it is.
abbrev run_statement : Statement → Db → Executed × Db
run_statement (insert t cs vs) d =
    (rows_affected 1, record d { written = insert t cs vs ∷ d.written })
run_statement (literal s) d = (exec_failed, d)

abbrev end : Db → Bool × Db
end d =
    if d.closed
    then (false, d)
    else (true, record d { committed = d.written ++ d.committed; closed = true })

abbrev small : Driver Db
small = record {
  begin = λ d. (true, record d { written = []; closed = false });
  exec = run_statement;
  commit = end;
  rollback = λ d. (true, record d { written = []; closed = true });
}

small-IsTransactional : IsTransactional small (λ d. d.committed) (λ d. d.closed)
small-IsTransactional = record {
  begin_keeps = λ d. refl;
  insert_keeps = λ table columns values d. refl;
  items_keep = λ order_uid item items d plain. refl;
  rollback_keeps = λ d. refl;
  rollback_closes = λ d. refl;
  commit_closed = λ d h. rw h;
}

all_above : (s : Text) → All (λ c. 0x27 < c) s → IsUnquoted s
all_above [] h = tt
all_above (c ∷ s) h = (λ e. absurd (let above = h.0 in omega (arith, e, above)), all_above s h.1)

an_item-IsUnquotedRow : IsUnquotedRow an_order.order_uid an_item
an_item-IsUnquotedRow = record {
  uid = all_above an_order.order_uid (omega arith, (omega arith, (omega arith, (omega arith, tt))));
  chrt_id = omega arith;
  track_number =
      all_above an_item.track_number
        (omega arith, (omega arith, (omega arith, (omega arith, (omega arith, tt)))));
  price = omega arith;
  rid = all_above an_item.rid (omega arith, (omega arith, (omega arith, tt)));
  name = all_above an_item.name (
    omega arith,
    (
      omega arith,
      (omega arith, (omega arith, (omega arith, (omega arith, (omega arith, (omega arith, tt)))))),
    ),
  );
  sale = omega arith;
  size = all_above an_item.size (omega arith, tt);
  total_price = omega arith;
  nm_id = omega arith;
  brand = all_above an_item.brand (
    omega arith,
    (
      omega arith,
      (omega arith, (omega arith, (omega arith, (omega arith, (omega arith, (omega arith, tt)))))),
    ),
  );
  status = omega arith;
}

abbrev after_failure : Db
after_failure = record empty_db { closed = true }

save_order-err_example : after_failure.committed ≡ empty_db.committed
unfolding save_order
save_order-err_example =
    save_order-err small small-IsTransactional an_order empty_db after_failure
      (an_item-IsUnquotedRow, tt) refl

save_order-error-commit_example :
    error_of (save_order (record small { commit = λ d. (false, d) }) an_order empty_db)
    ≡ error_of (save_order small an_order empty_db)
save_order-error-commit_example = save_order-error-commit small (λ d. (false, d)) an_order empty_db
