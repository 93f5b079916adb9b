-- ===== src/Httpx/Recoverer.antt =====
-- internal/httpx/recoverer.go: a handler is what it does to its writer, and whether it panics after
-- that. `json.NewEncoder(w).Encode` is a parameter, the text that it writes.
use chuchu.Prelude.{
  Bool, true, false, ◌≡◌, refl, ap, ◌∙◌, String, List, [], ◌∷◌, ◌++◌, All, if◌then◌else◌,
}
use chuchu.Apperr.{internal}
use chuchu.Effect.{Result}
use chuchu.Httpx.{ErrorBody}
use chuchu.Httpx.Guard.{
  Header, Action, sets, deletes, writes_header, writes, call_write_header, call_write, set_header,
  del_header, ensure_json_error,
}
use chuchu.Httpx.Guard.Transparent.{IsFinal, plain, bodies, protect, ensure_json_error-plain}

abbrev pub panic_body : String → ErrorBody
panic_body request_id = record {
  code = internal;
  message = "internal server error";
  request_id = request_id;
  details = [];
}

module _ (encode : ErrorBody → String) (request_id : String) where
  -- `WriteJSON(w, http.StatusInternalServerError, …)`
  abbrev pub panic_answer : List Action
  panic_answer =
      sets "Content-Type" "application/json; charset=utf-8"
      ∷ writes_header 500
      ∷ writes (encode (panic_body request_id))
      ∷ []

  unfoldable pub recoverer : List Action → Bool → List Action
  recoverer actions panics = if panics then actions ++ panic_answer else actions

-- The recoverer adds no status 1xx.
pub recoverer-IsFinal :
    (encode : ErrorBody → String) (request_id : String) (actions : List Action) (panics : Bool)
    → All IsFinal actions
    → All IsFinal (recoverer encode request_id actions panics)
unfolding recoverer
recoverer-IsFinal encode request_id actions false q = q
recoverer-IsFinal encode request_id actions true q = go actions q
  where
    go : (as' : List Action) → All IsFinal as' → All IsFinal (as' ++ panic_answer encode request_id)
    go [] q = (tt, (refl, (tt, tt)))
    go (a ∷ as') q = (q.0, go as' q.1)

-- Only the headers are touched.
abbrev pub IsQuiet : Action → Type 0
IsQuiet (sets key value) = Unit
IsQuiet (deletes key) = Unit
IsQuiet (writes_header status) = ⊥
IsQuiet (writes p) = ⊥

abbrev pub header_after : Header → List Action → Header
header_after h [] = h
header_after h (sets key value ∷ as') = header_after (set_header key value h) as'
header_after h (deletes key ∷ as') = header_after (del_header key h) as'
header_after h (_ ∷ as') = header_after h as'

plain-append :
    (h : Header) (quiet rest : List Action)
    → All IsQuiet quiet
    → plain h (quiet ++ rest) ≡ plain (header_after h quiet) rest
unfolding plain
plain-append h [] rest q = refl
plain-append h (sets key value ∷ as') rest q = plain-append (set_header key value h) as' rest q.1
plain-append h (deletes key ∷ as') rest q = plain-append (del_header key h) as' rest q.1
plain-append h (writes_header status ∷ as') rest q = absurd q.0
plain-append h (writes p ∷ as') rest q = absurd q.0

-- A handler that panics before it writes is answered, through the recoverer and the guard around it,
-- by the status 500 and the fixed JSON body, with the headers that it had set.
pub recoverer-ensure_json_error :
    (marshal : ErrorBody → Result String) (encode : ErrorBody → String) (request_id : String)
    (h : Header) (quiet : List Action)
    → All IsQuiet quiet
    → ensure_json_error marshal request_id h (recoverer encode request_id quiet true)
      ≡ call_write_header 500
          (set_header "Content-Type" "application/json; charset=utf-8" (header_after h quiet))
        ∷ call_write (encode (panic_body request_id))
        ∷ []
unfolding recoverer plain bodies protect
recoverer-ensure_json_error marshal encode request_id h quiet q =
    ensure_json_error-plain marshal request_id h (recoverer encode request_id quiet true)
    ∙ ap (protect marshal request_id) (plain-append h quiet (panic_answer encode request_id) q)
