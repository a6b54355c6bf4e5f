-- ===== src/Simulator.antt =====
-- simulator_service/handler.go: the handler that sends an order to Kafka. An `http.ResponseWriter` sends
-- its status once, 200 where nothing else was set before the first write.
use l0_wb_tech_school.Base.{
  ℕ, ◌<◌, ◌≤◌, ◌⊎◌, inl, inr, ◌≡◌, ◌≢◌, ◌↔◌, refl, ap, sym, ◌∙◌, true, false, Bool-cases, List, [],
  ◌∷◌, ◌++◌, Option, none, some, if◌then◌else◌, arith,
}
use l0_wb_tech_school.Base.Text.{Text, lit, text_beq, text_beq_iff}

pub record ResponseWriter : Type 0 where
  pub status : Option ℕ
  pub written : List Text

abbrev pub unwritten : ResponseWriter
unwritten = record { status = none; written = [] }

-- A status that was sent stays.
abbrev pub sent_status : Option ℕ → ℕ → Option ℕ
sent_status none code = some code
sent_status (some code) later = some code

abbrev pub write_header : ℕ → ResponseWriter → ResponseWriter
write_header code w = record w { status = sent_status w.status code }

abbrev pub write : Text → ResponseWriter → ResponseWriter
write s w = record { status = sent_status w.status 200; written = w.written ++ s ∷ [] }

-- `http.Error`, which ends the text with a newline.
abbrev pub http_error : Text → ℕ → ResponseWriter → ResponseWriter
http_error s code w = write (s ++ 0x0a ∷ []) (write_header code w)

code_of : Option ℕ → ℕ
code_of none = 0
code_of (some code) = code

code-ne : (a b : ℕ) → (a < b) ⊎ (b < a) → some a ≢ some b
unfolding code_of
code-ne a b (inl lt) h = let e : a ≡ b = ap code_of h in absurd (omega arith)
code-ne a b (inr lt) h = let e : a ≡ b = ap code_of h in absurd (omega arith)

-- `io.ReadAll` answers with the body or an error, and `WriteMessages` with an error or nil.
module _ {E Raw D : Type 0} (message : E → Text) (write_messages : Text → Raw → D → Option E × D)
    (key : Text) where
  abbrev pub after_write : Option E × D → ResponseWriter → ResponseWriter × D
  after_write (none, d) w = (write_header 202 (write (lit "{\"message\": \"ok\"}") w), d)
  after_write (some e, d) w =
      (http_error (lit "Error sending message to Kafka: " ++ message e) 500 w, d)

  abbrev pub after_read : E ⊎ Raw → ResponseWriter → D → ResponseWriter × D
  after_read (inl e) w d = (http_error (lit "Bad request: " ++ message e) 400 w, d)
  after_read (inr raw) w d = after_write (write_messages key raw d) w

  -- `NewCreateOrderHandler`
  unfoldable pub create_order : Text → E ⊎ Raw → ResponseWriter → D → ResponseWriter × D
  create_order method body w d =
      if text_beq method (lit "POST")
      then after_read body w d
      else (http_error (lit "Method not allowed") 405 w, d)

  -- The message of a request is in Kafka.
  abbrev pub IsSent : Text → E ⊎ Raw → D → Type 0
  IsSent method body d =
      (method ≡ lit "POST") × (raw : Raw) × (body ≡ inr raw) × ((write_messages key raw d).0 ≡ none)

  Answered : Type 0 → ResponseWriter × D → Type 0
  Answered P (w, d) = ((w.status ≡ some 200) ↔ P) × (w.status ≢ some 202)

  refused :
      {P : Type 0} (w : ResponseWriter) (d : D) (code : ℕ)
      → w.status ≡ some code
      → 400 ≤ code
      → (P → ⊥)
      → Answered P (w, d)
  unfolding Answered
  refused w d code at high unsent = (
    (λ h. absurd (code-ne code 200 (inr (omega arith)) (sym at ∙ h)), λ p. absurd (unsent p)),
    λ h. code-ne code 202 (inr (omega arith)) (sym at ∙ h),
  )

  after_write-Answered :
      (method : Text) (raw : Raw) (d : D) (out : Option E × D)
      → method ≡ lit "POST"
      → write_messages key raw d ≡ out
      → Answered (IsSent method (inr raw) d) (after_write out unwritten)
  unfolding Answered
  after_write-Answered method raw d (none, d') post e = (
    (λ h. (post, raw, refl, ap (λ x. x.0) e), λ h. refl),
    λ h. code-ne 200 202 (inl (omega arith)) h,
  )
  after_write-Answered method raw d (some x, d') post e =
      refused (http_error (lit "Error sending message to Kafka: " ++ message x) 500 unwritten) d'
        500 refl (omega arith)
        λ (p, r, same, none_sent).
          let other : raw ≡ r = cc same in
          let failure : some x ≡ none =
            ap (λ y. y.0) (sym e) ∙ ap (λ y. (write_messages key y d).0) other ∙ none_sent in
          cc failure

  after_read-Answered :
      (method : Text) (body : E ⊎ Raw) (d : D)
      → method ≡ lit "POST"
      → Answered (IsSent method body d) (after_read body unwritten d)
  after_read-Answered method (inl x) d post =
      refused (http_error (lit "Bad request: " ++ message x) 400 unwritten) d 400 refl (omega arith)
        λ (p, r, same, none_sent). cc same
  after_read-Answered method (inr raw) d post = after_write-Answered method raw d _ post refl

  -- The handler answers 200 exactly for a POST request whose body is read and sent to Kafka with no
  -- error, and never 202: the write of the body has sent the status before `WriteHeader` is called.
  pub create_order-status :
      (method : Text) (body : E ⊎ Raw) (d : D)
      → (((create_order method body unwritten d).0.status ≡ some 200) ↔ IsSent method body d)
        × ((create_order method body unwritten d).0.status ≢ some 202)
  unfolding create_order Answered
  create_order-status method body d = elim (Bool-cases (text_beq method (lit "POST"))) [
    | inl post ↦
        rw post (after_read-Answered method body d ((text_beq_iff method (lit "POST")).0 post))
    | inr other ↦ rw other (
        refused (http_error (lit "Method not allowed") 405 unwritten) d 405 refl (omega arith)
          λ (p, r, same, none_sent).
            let never : true ≡ false = sym ((text_beq_iff method (lit "POST")).1 p) ∙ other in
            cc never)
  ]
