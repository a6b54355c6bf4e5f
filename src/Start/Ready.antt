-- ===== src/Start/Ready.antt =====
-- What `main` of order_service/cmd/main.go serves once it has started.
use l0_wb_tech_school.Base.Text.{Text, text_eq}
use l0_wb_tech_school.Service.{Service}
use l0_wb_tech_school.Api.Jx.{Jx}
use l0_wb_tech_school.Api.Ogen.{Ogen}
use l0_wb_tech_school.Start.{Answers}
