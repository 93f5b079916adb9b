-- ===== src/App/Success.antt =====
-- What the status of a success says of an operation of the API, through the whole of internal/app.
use chuchu.Prelude.{ℕ, ◌≡◌, ◌≢◌, ap, ◌∙◌, sym, String, List}
use chuchu.Apperr.{Code, http_status}
use chuchu.Effect.{Result, ok, continue, pure}
use chuchu.Outside.{Outside}
use chuchu.Httpx.Guard.{Header, Action}
use chuchu.Httpx.Recoverer.{recoverer}
use chuchu.Property.Pgrepo
use chuchu.Api.{Json, visit_json}
use chuchu.Api.Strict.{respond}
use chuchu.Api.Wrapper.{Operation}
use chuchu.Api.Statuses.{action_status}
use chuchu.Apihttp.Mount.{mount, error_handlers}
use chuchu.Server.{RequestLine}
use chuchu.Server.Chain.{sent_status, new_router_lem}
use chuchu.App.{Moment, api_server, api_route, Deps, Writers, new_handler, route_handler}
use chuchu.App.Sent.{new_handler-status}
use chuchu.App.Responses.{answer, json_response, protect-answer, respond-Written}

module _ (o : Outside) {S : Type 0} (d : Deps o S) (w : Writers o) (request_id : String)
    (r : RequestLine) (h : Header) (m : Moment o) (op : Operation o) (s : S) where
  -- The calls on the writer of the server, when the generated server does this.
  pub sent-answer :
      (status : ℕ) (text : String)
      → (mount w.encode_error request_id w.encode
          (api_server o (Pgrepo.repository o d.db) m)
          op
          s).0
        ≡ answer status text
      → (new_handler o d w request_id r h m (api_route op) s).0.0
        ≡ json_response status request_id h text
  unfolding new_handler recoverer
  sent-answer status text e =
      rw
        (
          new_router_lem w.marshal w.encode_error request_id r h
              (λ id. (route_handler o d w m (api_route op) id s).0),
          e,
        )
        (protect-answer w.marshal request_id h status text)

  -- An operation that made `a` of the request, and `t` of the databases, and was answered by it.
  pub record Success {A : Type 0} (json : A → Json o) (status : ℕ) (q : Result A) (t : S)
      : Type 0 where
    pub made : A
    pub done : q ≡ ok made
    pub text : String
    pub encoded : w.encode (json made) ≡ ok text
    pub calls :
        (new_handler o d w request_id r h m (api_route op) s).0.0
        ≡ json_response status request_id h text
    pub state : (new_handler o d w request_id r h m (api_route op) s).1 ≡ t

  module _ (status : ℕ) (no_error : (code : Code) → http_status code ≢ status) {A R : Type 0}
      (visit : R → Result (List Action)) (object : A → R) (json : A → Json o)
      (shape : (a : A) → visit (object a) ≡ visit_json w.encode status (json a)) (q : Result A)
      (t : S)
      (mounted : mount w.encode_error request_id w.encode
          (api_server o (Pgrepo.repository o d.db) m)
          op
          s
        ≡ (
          respond
              (error_handlers w.encode_error request_id)
              visit
              (continue q (λ a. pure (object a)) t).0,
          t,
        )) where
    pub sent-Success :
        sent_status (new_handler o d w request_id r h m (api_route op) s).0.0 ≡ status
        → Success json status q t
    sent-Success sent =
        let (same, logged, state) = new_handler-status o d w request_id r h m op s in
        let (a, done, text) =
          respond-Written w.encode w.encode_error request_id status no_error visit object json shape
            q t (sym (ap (λ x. action_status x.0) mounted) ∙ sym same ∙ sent) in
        record {
          made = a;
          done = done;
          text = text.text;
          encoded = text.encoded;
          calls = sent-answer status text.text (ap (λ x. x.0) mounted ∙ text.written);
          state = state ∙ ap (λ x. x.1) mounted;
        }
