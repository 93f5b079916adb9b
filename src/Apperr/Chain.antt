-- ===== src/Apperr/Chain.antt =====
-- What `errors.Is` and `errors.AsType` find along a chain, against a relation "is in the chain".
use chuchu.Prelude.{
  ◌≡◌, refl, ◌≢◌, ◌↔◌, inl, inr, Bool, true, false, String, List, none, some, Option-cases, arith,
  ◌==◌, eq_iff, Bool-cases, ◌||◌,
}
use chuchu.Apperr.{
  Code, FieldError, GoError, app, wrapped, foreign, no_rows, invalid_signature, pg_error,
  param_error, ParamKind, Cause, nil, cause, Error, to_go, errors_is, cause_is, as_error,
  cause_as_error,
}

or_true : (b : Bool) {c : Bool} → c ≡ true → (b || c) ≡ true
or_true true h = refl
or_true false h = h

-- `e` is met along `Unwrap` from the second error.
mutual
  pub data IsInChain (e : GoError) : GoError → Type 0 where
    here : {f : GoError} → f ≡ e → IsInChain e f
    in_app :
        {c : Code} {m : String} {d : List FieldError} {k : Cause}
        → IsInCause e k
        → IsInChain e (app c m d k)
    in_wrapped : {m : String} {f : GoError} → IsInChain e f → IsInChain e (wrapped m f)
    in_param :
        {p : ParamKind} {n : String} {k : Cause} → IsInCause e k → IsInChain e (param_error p n k)

  pub data IsInCause (e : GoError) : Cause → Type 0 where
    in_cause : {f : GoError} → IsInChain e f → IsInCause e (cause f)

module _ (t : Error) where
  mutual
    unfolding errors_is

    errors_is_sound :
        (e : GoError)
        → errors_is e (to_go t) ≡ true
        → (f : Error) × IsInChain (to_go f) e × (f.code ≡ t.code)
    errors_is_sound (app c m d k) h = elim (Bool-cases (c == t.code)) [
      | inl same ↦ (
        record { code = c; message = m; details = d; err = k },
        here refl,
        (eq_iff c t.code).0 same,
      )
      | inr other ↦ let (f, w, e) = cause_is_sound k (ground arith) in (f, in_app w, e)
    ]
    errors_is_sound (wrapped m e) h = let (f, w, q) = errors_is_sound e h in (f, in_wrapped w, q)
    errors_is_sound (foreign m) h = cc
    errors_is_sound no_rows h = cc
    errors_is_sound invalid_signature h = cc
    errors_is_sound (pg_error f) h = cc
    errors_is_sound (param_error p n k) h = let (f, w, q) = cause_is_sound k h in (f, in_param w, q)

    cause_is_sound :
        (k : Cause)
        → cause_is k (to_go t) ≡ true
        → (f : Error) × IsInCause (to_go f) k × (f.code ≡ t.code)
    cause_is_sound nil h = cc
    cause_is_sound (cause e) h = let (f, w, q) = errors_is_sound e h in (f, in_cause w, q)

  errors_is_here : (f : Error) → f.code ≡ t.code → errors_is (to_go f) (to_go t) ≡ true
  unfolding errors_is
  errors_is_here f e = ground (arith, eq_iff f.code t.code)

  module _ (f : Error) (same : f.code ≡ t.code) where
    mutual
      unfolding errors_is

      errors_is_complete : {e : GoError} → IsInChain (to_go f) e → errors_is e (to_go t) ≡ true
      errors_is_complete (here p) = rw p (errors_is_here f same)
      errors_is_complete (in_app {c} w) = or_true (c == t.code) (cause_is_complete w)
      errors_is_complete (in_wrapped w) = errors_is_complete w
      errors_is_complete (in_param w) = cause_is_complete w

      cause_is_complete : {k : Cause} → IsInCause (to_go f) k → cause_is k (to_go t) ≡ true
      cause_is_complete (in_cause w) = errors_is_complete w

-- `errors.Is(err, target)`, for a target that is an application error, holds exactly when some
-- application error in the chain of `err` has the code of the target: messages, details and
-- causes play no part.
pub errors_is_iff :
    (e : GoError) (t : Error)
    → (errors_is e (to_go t) ≡ true) ↔ ((f : Error) × IsInChain (to_go f) e × (f.code ≡ t.code))
errors_is_iff e t = (errors_is_sound t e, λ w. errors_is_complete t w.0 w.2 w.1)

mutual
  unfolding as_error

  as_error_sound : (e : GoError) (f : Error) → as_error e ≡ some f → IsInChain (to_go f) e
  as_error_sound (app c m d k) f h = here (cc)
  as_error_sound (wrapped m e) f h = in_wrapped (as_error_sound e f h)
  as_error_sound (foreign m) f h = cc
  as_error_sound no_rows f h = cc
  as_error_sound invalid_signature f h = cc
  as_error_sound (pg_error g) f h = cc
  as_error_sound (param_error p n k) f h = in_param (cause_as_error_sound k f h)

  cause_as_error_sound : (k : Cause) (f : Error) → cause_as_error k ≡ some f → IsInCause (to_go f) k
  cause_as_error_sound nil f h = cc
  cause_as_error_sound (cause e) f h = in_cause (as_error_sound e f h)

module _ (f : Error) where
  mutual
    unfolding as_error

    as_error_complete : {e : GoError} → IsInChain (to_go f) e → as_error e ≢ none
    as_error_complete (here p) = rw p (λ h. cc h)
    as_error_complete (in_app w) = λ h. cc h
    as_error_complete (in_wrapped w) = as_error_complete w
    as_error_complete (in_param w) = cause_as_error_complete w

    cause_as_error_complete : {k : Cause} → IsInCause (to_go f) k → cause_as_error k ≢ none
    cause_as_error_complete (in_cause w) = as_error_complete w

-- `errors.AsType[*apperr.Error]` returns an application error of the chain.
pub as_error-IsInChain : (e : GoError) (f : Error) → as_error e ≡ some f → IsInChain (to_go f) e
as_error-IsInChain = as_error_sound

as_error-none : (e : GoError) → ((f : Error) → ¬ IsInChain (to_go f) e) → as_error e ≡ none
as_error-none e h = elim (Option-cases (as_error e)) [
  | inl missing ↦ missing
  | inr (f, found) ↦ absurd (h f (as_error_sound e f found))
]

-- `errors.AsType[*apperr.Error]` fails exactly if the chain has no application error.
pub as_error-eq_none_iff :
    (e : GoError) → (as_error e ≡ none) ↔ ((f : Error) → ¬ IsInChain (to_go f) e)
as_error-eq_none_iff e = (λ h f w. as_error_complete f w h, as_error-none e)
