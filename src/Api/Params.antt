-- ===== src/Api/Params.antt =====
-- order_service/internal/api/oas_parameters_gen.go
use l0_wb_tech_school.Base.{
  ◌≤◌, ◌≡◌, refl, ap, sym, ◌↔◌, ◌⊎◌, inl, inr, arith, Bool, true, false, [], ◌∷◌, Option, none,
  some, length, if◌then◌else◌,
}
use l0_wb_tech_school.Base.Text.{Text}
use l0_wb_tech_school.Api.Ogen.{StringRule, Ogen, IsOgen}

-- `OrderIDGetParams`
pub record OrderIdGetParams : Type 0 where
  pub id : Text

-- `DecodeParamError`, by what it wraps.
pub data ParamError (E : Type 0) : Type 0 where
  unescape_path value_error rule_error : E → ParamError E
  field_required : ParamError E

abbrev pub id_rule : StringRule
id_rule = record {
  min_length = 1;
  min_length_set = true;
  max_length = 50;
  max_length_set = true;
  email = false;
}

abbrev pub Params : Type 0 → Type 0
Params E = OrderIdGetParams ⊎ ParamError E

module _ {E : Type 0} where
  -- The rule behind the assignment `params.ID = c`.
  abbrev pub checked : Text → Option E → Params E
  checked c none = inl (record { id = c })
  checked c (some e) = inr (rule_error e)

module _ {E : Type 0} (ogen : Ogen E) where
  abbrev pub decoded : Text ⊎ E → Params E
  decoded (inl c) = checked c (ogen.check_string id_rule c)
  decoded (inr e) = inr (value_error e)

  -- `if len(param) > 0 { … } else { return validate.ErrFieldRequired }`
  abbrev pub of_param : Text → Params E
  of_param [] = inr field_required
  of_param (c ∷ param) = decoded (ogen.decode_value (c ∷ param))

  abbrev pub of_unescaped : Text ⊎ E → Params E
  of_unescaped (inl param) = of_param param
  of_unescaped (inr e) = inr (unescape_path e)

  -- `decodeOrderIDGetParams`
  unfoldable pub decode_order_id_get_params : Text → Bool → Params E
  decode_order_id_get_params arg args_escaped =
      of_unescaped (if args_escaped then ogen.path_unescape arg else inl arg)

module _ {E : Type 0} where
  checked_iff :
      (c id : Text) (r : Option E)
      → (checked c r ≡ inl (record { id = id })) ↔ ((c ≡ id) × (r ≡ none))
  checked_iff c id none = (λ h. (cc, refl), λ h. cc)
  checked_iff c id (some e) = (λ h. absurd (cc h), λ h. absurd (cc (h.1)))

module _ {E : Type 0} (ogen : Ogen E) (lawful : IsOgen ogen) where
  decoded_iff :
      (param id : Text)
      → (decoded ogen (inl param) ≡ inl (record { id = id }))
        ↔ ((param ≡ id) × (1 ≤ length id) × (length id ≤ 50))
  decoded_iff param id =
      let rule = checked_iff param id (ogen.check_string id_rule param) in
      let bounds = lawful.length_checked 1 50 param in
      (
        λ h.
            let e = (rule.0 h).0 in
            let (lo, hi) = bounds.0 (rule.0 h).1 in (e, rw (sym e) lo, rw (sym e) hi),
        λ h. rule.1 (h.0, bounds.1 (rw (h.0) (h.1), rw (h.0) (h.2))),
      )

  of_param_iff :
      (param id : Text)
      → (of_param ogen param ≡ inl (record { id = id }))
        ↔ ((param ≡ id) × (1 ≤ length id) × (length id ≤ 50))
  of_param_iff [] id = (λ h. absurd (cc h), λ h. absurd (empty id h.0 h.1))
    where
      empty : (t : Text) → [] ≡ t → 1 ≤ length t → ⊥
      empty [] e h = omega arith
      empty (c ∷ t) e h = cc
  of_param_iff (c ∷ param) id = rw (lawful.simple_value (c ∷ param)) (decoded_iff (c ∷ param) id)

  -- The id of a request is accepted exactly if it has from 1 to 50 characters, after the escapes of
  -- an escaped path are undone; then it is the parameter. It holds for the rule of ogen that counts
  -- the characters of a text, and for its path decoder that leaves a simple value as it is.
  pub decode_order_id_get_params_iff :
      (arg id : Text) (args_escaped : Bool)
      → (decode_order_id_get_params ogen arg args_escaped ≡ inl (record { id = id })) ↔ (
          ((if args_escaped then ogen.path_unescape arg else inl arg) ≡ inl id)
          × (1 ≤ length id)
          × (length id ≤ 50))
  unfolding decode_order_id_get_params
  decode_order_id_get_params_iff arg id args_escaped =
      by_unescaped (if args_escaped then ogen.path_unescape arg else inl arg)
    where
      by_unescaped :
          (r : Text ⊎ E)
          → (of_unescaped ogen r ≡ inl (record { id = id }))
            ↔ ((r ≡ inl id) × (1 ≤ length id) × (length id ≤ 50))
      by_unescaped (inl param) =
          let rule = of_param_iff param id in
          (λ h. let (e, lo, hi) = rule.0 h in (ap inl e, lo, hi), λ h. rule.1 (cc (h.0), h.1, h.2))
      by_unescaped (inr e) = (λ h. absurd (cc h), λ h. absurd (cc (h.0)))
