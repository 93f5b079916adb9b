-- ===== src/Httpx/Answers.antt =====
-- What the answer of `WriteError` of internal/httpx/json.go tells a client.
use chuchu.Prelude.{◌≡◌, refl, String, []}
use chuchu.Apperr.{Error, GoError, to_go, http_status}
use chuchu.Apperr.Chain.{IsInChain, as_error-eq_none_iff}
use chuchu.Httpx.{write_json, write_error}

-- An error with no error of this service in its chain is answered by a fixed body: none of its text
-- reaches the client.
pub write_error_hides :
    (request_id : String) (e : GoError)
    → ((f : Error) → ¬ IsInChain (to_go f) e)
    → write_error request_id e
      ≡ write_json 500 (record {
        code = "INTERNAL";
        message = "internal server error";
        request_id = request_id;
        details = [];
      })
unfolding write_error http_status
write_error_hides request_id e h = rw ((as_error-eq_none_iff e).1 h) refl
