-- ===== src/Httpx/Guard/Transparent.antt =====
-- The guard of internal/httpx/safetynet.go against a writer without it, as net/http documents that
-- one: the first `Write` sends the status 200, a `WriteHeader` of a status 1xx other than 101 is sent and
-- the next one counts, and any other `WriteHeader` makes the later ones ignored.
use Prim.Native.String.{len}
use chuchu.Prelude.{
  ℕ, ◌≡◌, refl, ap, All, Bool, leb, eqb, not, ◌&&◌, true, false, Bool-cases, inl, inr, String, List,
  [], ◌∷◌, if◌then◌else◌,
}
use chuchu.Effect.{Result, ok}
use chuchu.Httpx.{ErrorBody}
use chuchu.Httpx.Guard.{
  Header, JsonErrorGuard, write_returns, set_header, del_header, Action, sets, deletes,
  writes_header, writes, Call, call_write_header, call_write, passes, replacement, rewritten,
  write_header, write, step, guarded, ensure_json_error,
}

-- What the handler sends through a plain writer, from the headers, before and after the status.
unfoldable pub bodies : List Action → List Call
bodies [] = []
bodies (writes p ∷ as') = call_write p ∷ bodies as'
bodies (_ ∷ as') = bodies as'

unfoldable pub plain : Header → List Action → List Call
plain h [] = []
plain h (sets key value ∷ as') = plain (set_header key value h) as'
plain h (deletes key ∷ as') = plain (del_header key h) as'
plain h (writes_header status ∷ as') = call_write_header status h ∷ bodies as'
plain h (writes p ∷ as') = call_write_header 200 h ∷ call_write p ∷ bodies as'

-- The statuses after which net/http sends another one.
abbrev pub is_informational : ℕ → Bool
is_informational status = leb 100 status && leb status 199 && not (eqb status 101)

-- What net/http sends for the handler, and `plain` if it writes no such status.
unfoldable pub served : Header → List Action → List Call
served h [] = []
served h (sets key value ∷ as') = served (set_header key value h) as'
served h (deletes key ∷ as') = served (del_header key h) as'
served h (writes_header status ∷ as') =
    let rest = served h as' in
    call_write_header status h ∷ (if is_informational status then rest else bodies as')
served h (writes p ∷ as') = call_write_header 200 h ∷ call_write p ∷ bodies as'

abbrev pub IsFinal : Action → Type 0
IsFinal (sets key value) = Unit
IsFinal (deletes key) = Unit
IsFinal (writes_header status) = is_informational status ≡ false
IsFinal (writes p) = Unit

pub served-plain : (h : Header) (as' : List Action) → All IsFinal as' → served h as' ≡ plain h as'
unfolding served plain
served-plain h [] q = refl
served-plain h (sets key value ∷ as') q = served-plain (set_header key value h) as' q.1
served-plain h (deletes key ∷ as') q = served-plain (del_header key h) as' q.1
served-plain h (writes_header status ∷ as') q = rw q.0 refl
served-plain h (writes p ∷ as') q = refl

module _ (marshal : ErrorBody → Result String) (request_id : String) where
  -- A response that passes is left as it is; another keeps its status, and nothing else.
  unfoldable pub protect : List Call → List Call
  protect [] = []
  protect (call_write p ∷ cs) = call_write p ∷ cs
  protect (call_write_header status h ∷ cs) =
      if passes status h
      then call_write_header status h ∷ cs
      else call_write_header status (rewritten h) ∷ call_write (replacement marshal request_id) ∷ []

  passed :
      (as' : List Action) (h : Header)
      → guarded marshal request_id as'
          (record { header = h; wrote_header = true; intercepted = false })
        ≡ bodies as'
  unfolding guarded step write_header write bodies
  passed [] h = refl
  passed (sets key value ∷ as') h = passed as' (set_header key value h)
  passed (deletes key ∷ as') h = passed as' (del_header key h)
  passed (writes_header status ∷ as') h = passed as' h
  passed (writes p ∷ as') h = ap (λ cs. call_write p ∷ cs) (passed as' h)

  swallowed :
      (as' : List Action) (h : Header)
      → guarded marshal request_id as'
          (record { header = h; wrote_header = true; intercepted = true })
        ≡ []
  unfolding guarded step write_header write
  swallowed [] h = refl
  swallowed (sets key value ∷ as') h = swallowed as' (set_header key value h)
  swallowed (deletes key ∷ as') h = swallowed as' (del_header key h)
  swallowed (writes_header status ∷ as') h = swallowed as' h
  swallowed (writes p ∷ as') h = swallowed as' h

  -- The guard, against the writer for which every `WriteHeader` counts.
  pub ensure_json_error-plain :
      (h : Header) (actions : List Action)
      → ensure_json_error marshal request_id h actions ≡ protect (plain h actions)
  unfolding ensure_json_error guarded step write_header write plain protect
  ensure_json_error-plain h [] = refl
  ensure_json_error-plain h (sets key value ∷ as') =
      ensure_json_error-plain (set_header key value h) as'
  ensure_json_error-plain h (deletes key ∷ as') = ensure_json_error-plain (del_header key h) as'
  ensure_json_error-plain h (writes_header status ∷ as') = elim (Bool-cases (passes status h)) [
    | inl pass ↦ rw pass (ap (λ cs. call_write_header status h ∷ cs) (passed as' h))
    | inr stop ↦ rw stop (
        ap
          (λ cs.
            call_write_header status (rewritten h)
            ∷ call_write (replacement marshal request_id)
            ∷ cs)
          (swallowed as' (rewritten h)))
  ]
  ensure_json_error-plain h (writes p ∷ as') =
      ap (λ cs. call_write_header 200 h ∷ call_write p ∷ cs) (passed as' h)

  -- To a handler every `Write` has taken all of its bytes, if the writer below takes all that it is
  -- given: also where the guard drops them.
  pub write_returns-len :
      (below : String → Result ℕ) (p : String) (g : JsonErrorGuard)
      → ((q : String) → below q ≡ ok (len q))
      → write_returns marshal request_id below p g ≡ ok (len p)
  unfolding write_returns
  write_returns-len below p g all =
      let h = if g.wrote_header then g else (write_header marshal request_id 200 g).1 in
      elim (Bool-cases h.intercepted) [
        | inl dropped ↦ rw dropped refl
        | inr passed_on ↦ rw passed_on (all p)
      ]
