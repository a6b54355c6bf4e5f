-- ===== src/Tests/Simulating.antt =====
-- A message that simulator_service/handler.go sends.
use l0_wb_tech_school.Base.{inr, ◌≡◌, ◌≢◌, ◌↔◌, refl, List, [], ◌∷◌, Option, none, some}
use l0_wb_tech_school.Base.Text.{Text, lit}
use l0_wb_tech_school.Simulator.{unwritten, create_order, IsSent, create_order-status}

abbrev say : Text → Text
say e = e

-- A topic that takes every message.
abbrev topic : Text → Text → List Text → Option Text × List Text
topic key raw d = (none, raw ∷ d)

create_order-status_example :
    (((create_order say topic (lit "some-key") (lit "POST") (inr (lit "{}")) unwritten []).0.status
        ≡ some 200)
      ↔ IsSent say topic (lit "some-key") (lit "POST") (inr (lit "{}")) [])
    × ((create_order say topic (lit "some-key") (lit "POST") (inr (lit "{}")) unwritten []).0.status
        ≢ some 202)
create_order-status_example =
    create_order-status say topic (lit "some-key") (lit "POST") (inr (lit "{}")) []

sent_test :
    (create_order say topic (lit "some-key") (lit "POST") (inr (lit "{}")) unwritten []).1
    ≡ lit "{}" ∷ []
unfolding create_order
sent_test = refl
