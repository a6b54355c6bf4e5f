-- ===== src/Base/Command.antt =====
-- What a call with a mutable receiver does: it returns, it returns an `error`, or it panics.
-- A command is a function of the state, and the error path keeps the state it leaves behind.
use mathlib.Core.Path.{◌≡◌, refl}

pub data Outcome {ℓ κ} (E : Type 0) (S : Type ℓ) (A : Type κ) : Type (ℓ ⊔ κ) where
  ok : A → S → Outcome E S A
  err : E → S → Outcome E S A
  panic : Outcome E S A

abbrev pub Cmd {ℓ κ} : Type 0 → Type ℓ → Type κ → Type (ℓ ⊔ κ)
Cmd E S A = S → Outcome E S A

module _ {ℓ κ ι} {E : Type 0} {S : Type ℓ} {A : Type κ} {B : Type ι} where
  abbrev pub and_then : Outcome E S A → (A → Cmd E S B) → Outcome E S B
  and_then (ok a s) k = k a s
  and_then (err e s) k = err e s
  and_then panic k = panic

  infixl 5 ◌>>=◌
  abbrev pub ◌>>=◌ : Cmd E S A → (A → Cmd E S B) → Cmd E S B
  m >>= k = λ s. and_then (m s) k

infixl 5 ◌>>◌
abbrev pub ◌>>◌ {ℓ κ} :
    {E : Type 0} {S : Type ℓ} {B : Type κ} → Cmd E S (Unit {0}) → Cmd E S B → Cmd E S B
m >> k = m >>= λ _. k

module _ {ℓ} {E : Type 0} {S : Type ℓ} where
  abbrev pub pure {κ} : {A : Type κ} → A → Cmd E S A
  pure a s = ok a s

  abbrev pub raise {κ} : {A : Type κ} → E → Cmd E S A
  raise e s = err e s

  -- Reads the receiver; `modify` writes it.
  abbrev pub get_state : Cmd E S S
  get_state s = ok s s

  abbrev pub modify : (S → S) → Cmd E S (Unit {0})
  modify f s = ok tt (f s)

-- The same errors and results on both sides, and final states that are related.
pub data Refines {ℓ ι κ} {E : Type 0} {S : Type ℓ} {T : Type ι} {A : Type κ}
    (R : S → T → Type (ℓ ⊔ ι)) : Outcome E S A → Outcome E T A → Type (ℓ ⊔ ι ⊔ κ) where
  both_ok : {a : A} {s : S} {t : T} → R s t → Refines R (ok a s) (ok a t)
  both_err : {e : E} {s : S} {t : T} → R s t → Refines R (err e s) (err e t)

module _ {ℓ ι κ} {E : Type 0} {S : Type ℓ} {T : Type ι} {A : Type κ}
    {R : S → T → Type (ℓ ⊔ ι)} where
  pub refines_ok :
      {o : Outcome E S A} {a : A} {t : T} → Refines R o (ok a t) → (s : S) × (o ≡ ok a s) × R s t
  refines_ok (both_ok {s} r) = (s, refl, r)

  pub refines_err :
      {o : Outcome E S A} {e : E} {t : T} → Refines R o (err e t) → (s : S) × (o ≡ err e s) × R s t
  refines_err (both_err {s} r) = (s, refl, r)

-- A step that succeeds in the specification, and then the rest.
module _ {ℓ ι κ ξ μ} {E : Type 0} {S : Type ℓ} {T : Type ι} {U : Type ξ} {A : Type κ} {B : Type μ}
    {R : S → T → Type (ℓ ⊔ ι)} {Q : S → U → Type (ℓ ⊔ ξ)} where
  pub and_then-refines :
      {x : Outcome E S A} {a : A} {t : T} {spec : Outcome E U B} (k : A → Cmd E S B)
      → Refines R x (ok a t)
      → ((s : S) → R s t → Refines Q (k a s) spec)
      → Refines Q (and_then x k) spec
  and_then-refines k (both_ok r) next = next _ r

module _ {ℓ ι κ μ} {E : Type 0} {S : Type ℓ} {T : Type ι} {A : Type κ} {B : Type μ}
    {R : S → T → Type (ℓ ⊔ ι)} where
  -- The same steps on both sides.
  pub bind-refines :
      {x : Outcome E S A} {y : Outcome E T A} (k : A → Cmd E S B) (l : A → Cmd E T B)
      → Refines R x y
      → ((a : A) (s : S) (t : T) → R s t → Refines R (k a s) (l a t))
      → Refines R (and_then x k) (and_then y l)
  bind-refines k l (both_ok r) next = next _ _ _ r
  bind-refines k l (both_err r) next = both_err r
