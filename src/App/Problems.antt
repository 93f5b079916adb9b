-- ===== src/App/Problems.antt =====
-- The errors that internal/app answers, from the error of an operation to the calls on the writer of the
-- server.
use chuchu.Prelude.{◌≡◌, refl, String, List, [], ◌∷◌}
use chuchu.Apperr.{GoError}
use chuchu.Effect.{Result}
use chuchu.Outside.{Outside}
use chuchu.Httpx.{ErrorBody, write_error, write_json}
use chuchu.Httpx.Guard.{Header, set_header, Call, call_write_header, call_write}
use chuchu.Httpx.Guard.Transparent.{plain, bodies, protect}
use chuchu.Httpx.Recoverer.{recoverer}
use chuchu.Property.Pgrepo
use chuchu.Api.Wrapper.{Operation}
use chuchu.Apihttp.{response_error_handler}
use chuchu.Apihttp.Mount.{mount, error_handlers}
use chuchu.Server.{RequestLine, request_id_header}
use chuchu.Server.Chain.{json_passes, new_router_lem}
use chuchu.App.{Moment, api_server, api_route, Deps, Writers, new_handler, route_handler}

-- The response to an error, at the writer of the server
abbrev pub problem_response : (ErrorBody → String) → String → Header → GoError → List Call
problem_response encode_error request_id h e =
    let r = write_error request_id e in
    call_write_header r.status
      (set_header "Content-Type" r.content_type (request_id_header request_id h))
    ∷ call_write (encode_error r.body)
    ∷ []

protect-problem :
    (marshal : ErrorBody → Result String) (encode_error : ErrorBody → String) (request_id : String)
    (h : Header) (e : GoError)
    → protect marshal request_id (
        plain
          (request_id_header request_id h)
          ((error_handlers encode_error request_id).response_error_handler e))
      ≡ problem_response encode_error request_id h e
unfolding protect plain bodies response_error_handler write_error write_json
protect-problem marshal encode_error request_id h e =
    rw (json_passes (response_error_handler request_id e).status) refl

-- An operation that fails is answered by its error, which nothing on the way replaces.
pub sent-problem :
    (o : Outside) {S : Type 0} (d : Deps o S) (w : Writers o) (request_id : String)
    (r : RequestLine) (h : Header) (m : Moment o) (op : Operation o) (s : S) (e : GoError)
    → (mount w.encode_error request_id w.encode (api_server o (Pgrepo.repository o d.db) m) op s).0
      ≡ (error_handlers w.encode_error request_id).response_error_handler e
    → (new_handler o d w request_id r h m (api_route op) s).0.0
      ≡ problem_response w.encode_error request_id h e
unfolding new_handler recoverer
sent-problem o d w request_id r h m op s e failed =
    rw
      (
        new_router_lem w.marshal w.encode_error request_id r h
            (λ id. (route_handler o d w m (api_route op) id s).0),
        failed,
      )
      (protect-problem w.marshal w.encode_error request_id h e)
