-- ===== src/Api/Statuses.antt =====
-- The statuses that the generated server of api/api.gen.go answers an operation by, with the hooks of
-- internal/apihttp and the interface of internal/app.
use chuchu.Prelude.{ℕ, ◌≡◌, refl, true, false, String, List, [], ◌∷◌, none}
use chuchu.Apperr.{GoError, http_status, as_error}
use chuchu.Effect.{Result, ok, err, continue, pure, and_then}
use chuchu.Outside.{Outside}
use chuchu.Httpx.{ErrorBody, write_error, write_json}
use chuchu.Httpx.Guard.{Action, sets, deletes, writes_header, writes}
use chuchu.Httpx.Failures.{error_status, has, Fails}
use chuchu.Apihttp.{param_error_handler, request_error_handler, response_error_handler}
use chuchu.Apihttp.Mount.{error_handlers}
use chuchu.Api.{Json, Handler, visit_json}
use chuchu.Api.Strict.{or_report, respond, with_body}
use chuchu.Api.Wrapper.{
  Bound, bound, not_bound, bind_query, bind_id, Operation, get_healthz, list_properties,
  create_property, get_property, update_property, change_property_status,
}

-- The status that a handler sends: that of its first `WriteHeader`, and 200 without one.
unfoldable pub action_status : List Action → ℕ
action_status [] = 200
action_status (sets key value ∷ as') = action_status as'
action_status (deletes key ∷ as') = action_status as'
action_status (writes_header status ∷ as') = status
action_status (writes p ∷ as') = 200

-- The statuses of the response objects of an operation, and 500.
abbrev pub documented : {o : Outside} → Operation o → List ℕ
documented get_healthz = 200 ∷ 503 ∷ 500 ∷ []
documented (list_properties q) = 200 ∷ 400 ∷ 500 ∷ []
documented (create_property b) = 201 ∷ 400 ∷ 409 ∷ 500 ∷ []
documented (get_property id) = 200 ∷ 400 ∷ 404 ∷ 500 ∷ []
documented (update_property id b) = 200 ∷ 400 ∷ 404 ∷ 500 ∷ []
documented (change_property_status id b) = 200 ∷ 400 ∷ 404 ∷ 409 ∷ 500 ∷ []

-- The handler answers by one of these.
abbrev pub Answers : {S : Type 0} → List ℕ → Handler S → Type 0
Answers {S} codes handler = (s : S) → has codes (action_status (handler s).0) ≡ true

module _ (encode_error : ErrorBody → String) (request_id : String) where
  pub response_status :
      (e : GoError)
      → action_status ((error_handlers encode_error request_id).response_error_handler e)
        ≡ error_status e
  unfolding action_status response_error_handler write_error write_json error_status
  response_status e = refl

  param_status :
      (e : GoError)
      → action_status ((error_handlers encode_error request_id).param_error_handler e) ≡ 400
  unfolding action_status param_error_handler write_error write_json as_error http_status
  param_status e = refl

  request_status :
      (e : GoError)
      → action_status ((error_handlers encode_error request_id).request_error_handler e) ≡ 400
  unfolding action_status request_error_handler write_error write_json as_error http_status
  request_status e = refl

  module _ {S : Type 0} (codes : List ℕ) (bad : has codes 400 ≡ true) where
    pub bind_query-Answers :
        {A : Type 0} (name : String) (b : Bound A) (next : A → Handler S)
        → ((a : A) → Answers codes (next a))
        → Answers codes (bind_query (error_handlers encode_error request_id) name b next)
    bind_query-Answers name (bound a) next h s = h a s
    bind_query-Answers name (not_bound true e) next h s = rw param_status bad
    bind_query-Answers name (not_bound false e) next h s = rw param_status bad

    pub bind_id-Answers :
        {A : Type 0} (id : Result A) (next : A → Handler S)
        → ((a : A) → Answers codes (next a))
        → Answers codes (bind_id (error_handlers encode_error request_id) id next)
    bind_id-Answers (ok a) next h s = h a s
    bind_id-Answers (err e) next h s = rw param_status bad

    pub with_body-Answers :
        {A : Type 0} (decoded : Result A) (next : A → Handler S)
        → ((a : A) → Answers codes (next a))
        → Answers codes (with_body (error_handlers encode_error request_id) decoded next)
    with_body-Answers (ok a) next h s = h a s
    with_body-Answers (err e) next h s = rw request_status bad

  -- The end of an operation, of which the feature returns `r`.
  pub respond-Fails :
      {S A R : Type 0} (codes : List ℕ) (visit : R → Result (List Action)) (object : A → R)
      (r : Result A) (t : S)
      → Fails codes r
      → ((a : A)
          → has codes (
              action_status (or_report (error_handlers encode_error request_id) (visit (object a))))
            ≡ true)
      → has codes (
          action_status (
            respond
              (error_handlers encode_error request_id)
              visit
              (continue r (λ a. pure (object a)) t).0))
        ≡ true
  respond-Fails codes visit object (ok a) t h k = k a
  respond-Fails codes visit object (err e) t h k = rw response_status h

  module _ {o : Outside} (encode : Json o → Result String)
      (foreign : (b : Json o) (e : GoError) → encode b ≡ err e → as_error e ≡ none) where
    encoded :
        (codes : List ℕ) (status : ℕ) (b : Json o) (r : Result String)
        → encode b ≡ r
        → has codes status ≡ true
        → has codes 500 ≡ true
        → has codes (
            action_status (
              or_report (error_handlers encode_error request_id) (
                and_then r λ text. ok (
                  sets "Content-Type" "application/json"
                  ∷ writes_header status
                  ∷ writes text
                  ∷ []))))
          ≡ true
    unfolding action_status error_status http_status
    encoded codes status b (ok text) p h k = h
    encoded codes status b (err e) p h k = rw (response_status e, foreign b e p) k

    pub visit_json-Answers :
        (codes : List ℕ) (status : ℕ) (b : Json o)
        → has codes status ≡ true
        → has codes 500 ≡ true
        → has codes (
            action_status
              (or_report (error_handlers encode_error request_id) (visit_json encode status b)))
          ≡ true
    visit_json-Answers codes status b = encoded codes status b (encode b) refl
