-- ===== src/Api/Config/Defaults.antt =====
-- Whatever options the server of order_service/internal/api/oas_cfg_gen.go is given, it can answer.
use l0_wb_tech_school.Base.{
  ◌≡◌, ◌≢◌, refl, true, List, [], ◌∷◌, Option, none, some, if◌then◌else◌, Bool-cases, inl, inr,
}
use l0_wb_tech_school.Base.Int.{ℤ, pos, ltb_ℤ}
use l0_wb_tech_school.Api.Config.{
  Reply, ServerError, Middleware, ServerConfig, ServerOption, with_not_found,
  with_method_not_allowed, with_error_handler, with_path_prefix, with_middleware,
  with_max_multipart_memory, unless_nil, apply_server, apply_all, new_server_config,
}

-- The three functions that the server calls without a test are not nil, and the limit of memory is positive.
pub record IsReady {L E Body S : Type 0} (cfg : ServerConfig L E Body S) : Type 0 where
  pub finds : cfg.not_found ≢ none
  pub refuses : cfg.method_not_allowed ≢ none
  pub reports : cfg.error_handler ≢ none
  pub has_memory : ltb_ℤ (pos 0) cfg.max_multipart_memory ≡ true

unless_nil-ne-none : {A : Type 0} (new old : Option A) → old ≢ none → unless_nil new old ≢ none
unless_nil-ne-none none old h = h
unless_nil-ne-none (some x) old h = λ e. cc

if_positive :
    (new old : ℤ)
    → ltb_ℤ (pos 0) old ≡ true
    → ltb_ℤ (pos 0) (if ltb_ℤ (pos 0) new then new else old) ≡ true
if_positive new old h = elim (Bool-cases (ltb_ℤ (pos 0) new)) [
  | inl more ↦ rw more more
  | inr less ↦ rw less h
]

module _ {L E Body S : Type 0} (chain : List (Middleware L E S) → Middleware L E S) where
  apply_server-IsReady :
      (opt : ServerOption L E Body S) (cfg : ServerConfig L E Body S)
      → IsReady cfg
      → IsReady (apply_server chain opt cfg)
  unfolding apply_server
  apply_server-IsReady (with_not_found h) cfg ready = record {
    finds = unless_nil-ne-none h cfg.not_found ready.finds;
    refuses = ready.refuses;
    reports = ready.reports;
    has_memory = ready.has_memory;
  }
  apply_server-IsReady (with_method_not_allowed h) cfg ready = record {
    finds = ready.finds;
    refuses = unless_nil-ne-none h cfg.method_not_allowed ready.refuses;
    reports = ready.reports;
    has_memory = ready.has_memory;
  }
  apply_server-IsReady (with_error_handler h) cfg ready = record {
    finds = ready.finds;
    refuses = ready.refuses;
    reports = unless_nil-ne-none h cfg.error_handler ready.reports;
    has_memory = ready.has_memory;
  }
  apply_server-IsReady (with_path_prefix p) cfg ready = record {
    finds = ready.finds;
    refuses = ready.refuses;
    reports = ready.reports;
    has_memory = ready.has_memory;
  }
  apply_server-IsReady (with_middleware ms) cfg ready = record {
    finds = ready.finds;
    refuses = ready.refuses;
    reports = ready.reports;
    has_memory = ready.has_memory;
  }
  apply_server-IsReady (with_max_multipart_memory max) cfg ready = record {
    finds = ready.finds;
    refuses = ready.refuses;
    reports = ready.reports;
    has_memory = if_positive max cfg.max_multipart_memory ready.has_memory;
  }

  apply_all-IsReady :
      (opts : List (ServerOption L E Body S)) (cfg : ServerConfig L E Body S)
      → IsReady cfg
      → IsReady (apply_all chain opts cfg)
  unfolding apply_all
  apply_all-IsReady [] cfg ready = ready
  apply_all-IsReady (opt ∷ opts) cfg ready =
      apply_all-IsReady opts (apply_server chain opt cfg) (apply_server-IsReady opt cfg ready)

  -- Whatever options a server is made with, nil functions and limits of 0 or less among them, its
  -- functions for a path that is not found, for a method that is not allowed and for an error are
  -- not nil, and its limit of memory is positive.
  pub new_server_config-IsReady :
      (default_error_handler : ServerError E → Reply Body) (opts : List (ServerOption L E Body S))
      → IsReady (new_server_config chain default_error_handler opts)
  unfolding new_server_config
  new_server_config-IsReady default_error_handler opts =
      apply_all-IsReady opts _
        (record { finds = λ e. cc; refuses = λ e. cc; reports = λ e. cc; has_memory = refl })
