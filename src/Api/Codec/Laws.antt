-- ===== src/Api/Codec/Laws.antt =====
-- The tables of Codec are lawful.
use l0_wb_tech_school.Base.{refl}
use l0_wb_tech_school.Api.Jx.{Jx}
use l0_wb_tech_school.Api.Object.Missing.{IsTable}
use l0_wb_tech_school.Api.Codec.{bad_request_table, not_found_table, error_table}
use l0_wb_tech_school.Api.Codec.Delivery.{delivery_table}
use l0_wb_tech_school.Api.Codec.Item.{item_table}
use l0_wb_tech_school.Api.Codec.Payment.{payment_table}
use l0_wb_tech_school.Api.Codec.Order.{order_table}

module _ {V E Body : Type 0} (jx : Jx V E Body) where
  pub delivery_table-IsTable : IsTable (delivery_table jx)
  delivery_table-IsTable = record {
    pad = 1;
    named = refl;
    masked = refl;
    shaped = (refl, refl, tt);
    told_apart = refl;
  }

  pub item_table-IsTable : IsTable (item_table jx)
  item_table-IsTable = record {
    pad = 5;
    named = refl;
    masked = refl;
    shaped = (refl, refl, (refl, refl, tt));
    told_apart = refl;
  }

  pub payment_table-IsTable : IsTable (payment_table jx)
  payment_table-IsTable = record {
    pad = 6;
    named = refl;
    masked = refl;
    shaped = (refl, refl, (refl, refl, tt));
    told_apart = refl;
  }

  pub order_table-IsTable : IsTable (order_table jx)
  order_table-IsTable = record {
    pad = 2;
    named = refl;
    masked = refl;
    shaped = (refl, refl, (refl, refl, tt));
    told_apart = refl;
  }

  pub bad_request_table-IsTable : IsTable (bad_request_table jx)
  bad_request_table-IsTable = record {
    pad = 7;
    named = refl;
    masked = refl;
    shaped = (refl, refl, tt);
    told_apart = refl;
  }

  pub not_found_table-IsTable : IsTable (not_found_table jx)
  not_found_table-IsTable = record {
    pad = 7;
    named = refl;
    masked = refl;
    shaped = (refl, refl, tt);
    told_apart = refl;
  }

  pub error_table-IsTable : IsTable (error_table jx)
  error_table-IsTable = record {
    pad = 7;
    named = refl;
    masked = refl;
    shaped = (refl, refl, tt);
    told_apart = refl;
  }
