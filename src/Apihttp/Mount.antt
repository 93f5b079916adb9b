-- ===== src/Apihttp/Mount.antt =====
-- `Mount` of internal/apihttp/apihttp.go: the generated server with the three hooks. What
-- `json.NewEncoder(w).Encode` writes for an error body is a parameter.
use chuchu.Prelude.{String, List, [], ◌∷◌}
use chuchu.Effect.{Result}
use chuchu.Outside.{Outside}
use chuchu.Httpx.{ErrorBody, Response}
use chuchu.Httpx.Guard.{Action, sets, writes_header, writes}
use chuchu.Apihttp.{param_error_handler, request_error_handler, response_error_handler}
use chuchu.Api.{Json, StrictServerInterface, ErrorHandlers, Handler}
use chuchu.Api.Wrapper.{Operation, handler_with_options}

-- What `httpx.WriteJSON` does to the writer.
abbrev pub response_actions : (ErrorBody → String) → Response ErrorBody → List Action
response_actions encode_error r =
    sets "Content-Type" r.content_type ∷ writes_header r.status ∷ writes (encode_error r.body) ∷ []

module _ (encode_error : ErrorBody → String) (request_id : String) where
  abbrev pub error_handlers : ErrorHandlers
  error_handlers = record {
    request_error_handler = λ e. response_actions encode_error (request_error_handler request_id e);
    response_error_handler =
        λ e. response_actions encode_error (response_error_handler request_id e);
    param_error_handler = λ e. response_actions encode_error (param_error_handler request_id e);
  }

  unfoldable pub mount :
      {o : Outside} {S : Type 0}
      → (Json o → Result String)
      → StrictServerInterface o S
      → Operation o
      → Handler S
  mount encode si = handler_with_options encode si error_handlers
