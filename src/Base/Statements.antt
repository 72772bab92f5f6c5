-- ===== src/Base/Statements.antt =====
-- Statements that change a state and may raise. The state outlives an exception.
use mathlib.Core.Path.{◌≡◌, refl}
use mathlib.Core.Logic.{◌⊎◌, inl, inr}
use mathlib.Core.Bool.{Bool}
use native.Mathlib.Omega.{arith}
use tiles_processor.Base.Strings.{Text}
use tiles_processor.Base.Tests.{if◌then◌else◌}

-- exceptions.py, and the built-in and library exceptions that the program names.
pub data Kind : Type 0 where
  unprocessable_input invalid_grib_response forecast_not_available : Kind
  transient_download source_file_not_found empty_upload upload_too_large : Kind
  shutdown_requested file_not_found key_error value_error runtime_error amqp_connection : Kind
  timeout rainbow_header_error os_error other : Kind

pub record Exception : Type 0 where
  pub kind : Kind
  pub message : Text

pub data Result (A : Type 0) : Type 0 where
  return : A → Result A
  raise : Exception → Result A

abbrev pub Exec : Type 0 → Type 0 → Type 0
Exec S A = S → Result A × S

module _ {S A : Type 0} where
  abbrev pub pure : A → Exec S A
  pure a s = (return a, s)

  abbrev pub throw : Exception → Exec S A
  throw e s = (raise e, s)

  abbrev pub lift : Result A → Exec S A
  lift r s = (r, s)

  abbrev pub gets : (S → A) → Exec S A
  gets f s = (return (f s), s)

  -- `if test: body` / `else: other`
  abbrev pub branch : Bool → Exec S A → Exec S A → Exec S A
  branch test body alternative s = if test then body s else alternative s

  abbrev pub recover : Result A → (Exception → Exec S A) → Exec S A
  recover (return a) handler s = (return a, s)
  recover (raise e) handler s = handler e s

  -- `try: body` / `except Exception as e: handler`
  abbrev pub try_except : Exec S A → (Exception → Exec S A) → Exec S A
  try_except body handler s = let (r, t) = body s in recover r handler t

  -- `try: body` / `finally: cleanup`, for a cleanup that does not raise.
  abbrev pub try_finally : Exec S A → (S → S) → Exec S A
  try_finally body cleanup s = let (r, t) = body s in (r, cleanup t)

abbrev pub modify : {S : Type 0} → (S → S) → Exec S Unit
modify f s = (return tt, f s)

module _ {S A B : Type 0} where
  abbrev pub and_then : Result A → (A → Exec S B) → Exec S B
  and_then (return a) f s = f a s
  and_then (raise e) f s = (raise e, s)

  infixl 5 ◌>>=◌ ◌>>◌
  abbrev pub ◌>>=◌ : Exec S A → (A → Exec S B) → Exec S B
  ◌>>=◌ m f s = let (r, t) = m s in and_then r f t

  abbrev pub ◌>>◌ : Exec S A → Exec S B → Exec S B
  m >> n = m >>= λ _. n

pub Result-cases :
    {A : Type 0} (r : Result A) → ((a : A) × (r ≡ return a)) ⊎ ((e : Exception) × (r ≡ raise e))
Result-cases (return a) = inl (a, refl)
Result-cases (raise e) = inr (e, refl)

-- A step after a fallible one that keeps no state.
abbrev pub bind : {A B : Type 0} → Result A → (A → Result B) → Result B
bind (return a) f = f a
bind (raise e) f = raise e

pub bind-eq-return :
    {A B : Type 0} (r : Result A) (f : A → Result B) {b : B}
    → bind r f ≡ return b
    → (a : A) × (r ≡ return a) × (f a ≡ return b)
bind-eq-return (return a) f h = (a, refl, h)
bind-eq-return (raise e) f h = absurd (ground arith)

pub return-eq-return : {A : Type 0} {a b : A} → return a ≡ return b → a ≡ b
return-eq-return h = cc
