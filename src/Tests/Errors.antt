-- ===== src/Tests/Errors.antt =====
-- The errors of internal/apperr and the answers of internal/httpx at small inputs.
use chuchu.Prelude.{◌≡◌, refl, List, [], ◌∷◌, some}
use chuchu.Apperr.{
  FieldError, GoError, wrapped, foreign, nil, Error, to_go, with_error, with_message, with_details,
  as_error, new,
}
use chuchu.Apperr.Chain.{as_error-eq_none_iff}
use chuchu.Apperr.Sharing.{
  Cell, Heap, with_error_at, with_message_at, with_details_at, Derives, with_Derives,
}
use chuchu.Httpx.{write_json, write_error}
use chuchu.Httpx.Answers.{write_error_hides}
use chuchu.Httpx.Guard.{Header, Action, sets, writes_header, writes}

abbrev missing : Error
missing = new "PROPERTY_NOT_FOUND" "找不到這筆物件"

abbrev found_missing : GoError
found_missing = wrapped "查詢物件失敗: " (to_go missing)

abbrev city_blank : FieldError
city_blank = record { field = "city"; reason = "不可為空" }

-- A sentinel with details.
abbrev sentinel : Cell
sentinel = record { code = "VALIDATION_FAILED"; message = "驗證失敗"; details = some 0; err = nil }

abbrev heap : Heap
heap = record { errors = sentinel ∷ []; arrays = (city_blank ∷ []) ∷ [] }

with_Derives_example :
    Derives heap (with_error (foreign "EOF")) 0 (with_error_at (foreign "EOF") 0 heap)
    × Derives heap (with_message "壞掉了") 0 (with_message_at "壞掉了" 0 heap)
    × Derives heap (with_details []) 0 (with_details_at [] 0 heap)
with_Derives_example = with_Derives (foreign "EOF") "壞掉了" [] 0 heap refl

write_error_hides_example :
    write_error "r1" (foreign "dial tcp 10.0.0.7: refused")
    ≡ write_json 500 (record {
      code = "INTERNAL";
      message = "internal server error";
      request_id = "r1";
      details = [];
    })
unfolding as_error
write_error_hides_example =
    write_error_hides "r1" (foreign "dial tcp 10.0.0.7: refused")
      ((as_error-eq_none_iff (foreign "dial tcp 10.0.0.7: refused")).0 refl)

-- `http.Error(w, "pq: no route", 502)`
abbrev leak : List Action
leak = sets "Content-Type" "text/plain" ∷ writes_header 502 ∷ writes "pq: no route" ∷ []

abbrev no_header : Header
no_header k = ""

abbrev quiet : List Action
quiet = sets "X-Page" "3" ∷ []
