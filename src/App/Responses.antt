-- ===== src/App/Responses.antt =====
-- The responses of internal/app that are one JSON text, from the encoder to the calls on the writer of
-- the server.
use chuchu.Prelude.{arith, ℕ, ◌≡◌, ◌≢◌, refl, ◌∙◌, sym, String, List, [], ◌∷◌}
use chuchu.Apperr.{GoError, Code, http_status}
use chuchu.Effect.{Result, ok, err, continue, pure}
use chuchu.Outside.{Outside}
use chuchu.Httpx.{ErrorBody}
use chuchu.Httpx.Failures.{error_status}
use chuchu.Httpx.Guard.{
  Header, set_header, Action, sets, writes_header, writes, Call, call_write_header, call_write,
}
use chuchu.Httpx.Guard.Transparent.{plain, bodies, protect}
use chuchu.Api.{Json, visit_json}
use chuchu.Api.Strict.{respond, or_report}
use chuchu.Api.Statuses.{action_status, response_status}
use chuchu.Apihttp.Mount.{error_handlers}
use chuchu.Server.{request_id_header}
use chuchu.Server.Chain.{json_passes}

pub http_status-ne_200 : (code : Code) → http_status code ≢ 200
unfolding http_status
http_status-ne_200 code h = ground arith

-- What a `Visit` method does with a text.
abbrev pub answer : ℕ → String → List Action
answer status text =
    sets "Content-Type" "application/json" ∷ writes_header status ∷ writes text ∷ []

-- The same at the writer of the server.
abbrev pub json_response : ℕ → String → Header → String → List Call
json_response status request_id h text =
    call_write_header status
      (set_header "Content-Type" "application/json" (request_id_header request_id h))
    ∷ call_write text
    ∷ []

pub protect-answer :
    (marshal : ErrorBody → Result String) (request_id : String) (h : Header) (status : ℕ)
    (text : String)
    → protect marshal request_id (plain (request_id_header request_id h) (answer status text))
      ≡ json_response status request_id h text
unfolding protect plain bodies
protect-answer marshal request_id h status text = rw (json_passes status) refl

module _ {o : Outside} (encode : Json o → Result String) (encode_error : ErrorBody → String)
    (request_id : String) (status : ℕ) (no_error : (code : Code) → http_status code ≢ status) where
  reported-ne :
      (e : GoError)
      → action_status ((error_handlers encode_error request_id).response_error_handler e) ≢ status
  unfolding error_status
  reported-ne e h = no_error _ (sym (response_status encode_error request_id e) ∙ h)

  -- What is done is to send the text of this value.
  pub record Written (b : Json o) (actions : List Action) : Type 0 where
    pub text : String
    pub encoded : encode b ≡ ok text
    pub written : actions ≡ answer status text

  visited :
      (b : Json o) (r : Result String)
      → encode b ≡ r
      → action_status
          (or_report (error_handlers encode_error request_id) (visit_json encode status b))
        ≡ status
      → Written b (or_report (error_handlers encode_error request_id) (visit_json encode status b))
  visited b (ok text) e h = record { text = text; encoded = e; written = rw e refl }
  visited b (err x) e h = absurd (reported-ne x (rw e at h))

  -- An operation whose answer has the status of its only success has succeeded, and sends that text.
  module _ {A R : Type 0} (visit : R → Result (List Action)) (object : A → R) (json : A → Json o)
      (shape : (a : A) → visit (object a) ≡ visit_json encode status (json a)) where
    pub respond-Written :
        {S : Type 0} (r : Result A) (t : S)
        → let actions =
            respond
              (error_handlers encode_error request_id)
              visit
              (continue r (λ a. pure (object a)) t).0 in
          action_status actions ≡ status → (a : A) × (r ≡ ok a) × Written (json a) actions
    respond-Written (ok a) t h =
        (a, refl, rw (shape a) (visited (json a) (encode (json a)) refl (rw (shape a) at h)))
    respond-Written (err e) t h = absurd (reported-ne e h)

pub continue-state :
    {S A B : Type 0} (r : Result A) (f : A → B) (t : S) → (continue r (λ a. pure (f a)) t).1 ≡ t
continue-state (ok a) f t = refl
continue-state (err e) f t = refl
