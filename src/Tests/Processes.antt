-- ===== src/Tests/Processes.antt =====
-- The router, the request ids, `Run` and the whole process at small inputs.
use chuchu.Prelude.{
  ℕ, ◌≤◌, pos, ◌≡◌, refl, ap, ◌≢◌, ◌⊎◌, ◌↔◌, Bool, true, inr, List, [], ◌∷◌, All, none, some, arith,
}
use chuchu.Apperr.{GoError, foreign}
use chuchu.Effect.{ok, err}
use chuchu.Httpx.Guard.{writes_header, writes}
use chuchu.Httpx.RequestId.{new_request_id}
use chuchu.Httpx.RequestId.Distinct.{IsByte, new_request_id-distinct}
use chuchu.Config.{Config, loaded, load}
use chuchu.Server.{RequestLine, new_router}
use chuchu.Httpx.Guard.Transparent.{served, protect}
use chuchu.Httpx.Recoverer.{recoverer}
use chuchu.Server.{request_id_header}
use chuchu.Server.Chain.{IsJsonOnError, IsOneResponse, sent_status, new_router-IsJsonOnError}
use chuchu.Server.Run.{
  report, State, initial, Runs, stays, steps, events, listen_closes, sends, sees_done,
  shutdown_succeeds, receives_last, cancels, finished, returned,
}
use chuchu.Server.Run.Ends.{Outcome, IsEnd, IsServing, CanStep, Runs-Outcome, Runs-IsEnd}
use chuchu.Service.{Platform, run}
use chuchu.Service.Exits.{held_after_all, run-Keeps, run-eq_zero}

abbrev log_line : RequestLine
log_line = record { method = "GET"; path = "/properties" }

new_router-IsJsonOnError_example :
    let (calls, entry) =
      new_router
        (λ b. ok "{}")
        (λ b. "{}")
        "r1"
        log_line
        (λ k. "")
        (λ id. (writes_header 500 ∷ writes id ∷ [], true)) in
    (calls
      ≡ protect
          (λ b. ok "{}")
          "r1"
          (served
            (request_id_header "r1" (λ k. ""))
            (recoverer (λ b. "{}") "r1" (writes_header 500 ∷ writes "r1" ∷ []) true)))
    × All IsJsonOnError calls
    × IsOneResponse calls
    × (entry.status ≡ sent_status calls)
    × (entry.request_id ≡ "r1")
new_router-IsJsonOnError_example =
    new_router-IsJsonOnError (λ b. ok "{}") (λ b. "{}") "r1" log_line (λ k. "")
      (λ id. (writes_header 500 ∷ writes id ∷ [], true)) (refl, (tt, tt))

abbrev bytes : List ℕ
bytes = 255 ∷ 0 ∷ []

abbrev other_bytes : List ℕ
other_bytes = 254 ∷ 0 ∷ []

bytes-IsByte : All IsByte bytes
bytes-IsByte = (omega arith, (omega arith, tt))

other_bytes-IsByte : All IsByte other_bytes
other_bytes-IsByte = (omega arith, (omega arith, tt))

abbrev head_of : List ℕ → ℕ
head_of [] = 0
head_of (b ∷ bs) = b

bytes-ne : bytes ≢ other_bytes
bytes-ne h = let same : 255 ≡ 254 = ap (λ bs. head_of bs) h in omega (arith, same)

bytes-ne_nil : bytes ≢ []
bytes-ne_nil h = cc

new_request_id-distinct_example :
    (new_request_id (ok bytes) (pos 1) ≢ new_request_id (ok other_bytes) (pos 2))
    × (new_request_id (ok bytes) (pos 1) ≢ new_request_id (err (foreign "no entropy")) (pos 2))
    × (new_request_id (ok bytes) (pos 1) ≢ "")
new_request_id-distinct_example =
    new_request_id-distinct bytes other_bytes (foreign "no entropy") (pos 1) (pos 2) bytes-IsByte
      other_bytes-IsByte bytes-ne bytes-ne_nil

abbrev server_closed : GoError
server_closed = foreign "http: Server closed"

abbrev always : GoError → Bool
always e = true

abbrev stopped : State
stopped = record {
  server = finished server_closed;
  caller = returned none;
  serve_err_ch = none;
  cancelled = true;
  closing = true;
}

graceful : Runs server_closed always initial 6 stopped
unfolding report
graceful = events cancels (
    steps sees_done (
      steps listen_closes
        (steps (sends server_closed) (steps shutdown_succeeds (steps (receives_last none) stays)))))

Runs-Outcome_example : Outcome server_closed always (finished server_closed) true none
Runs-Outcome_example = Runs-Outcome server_closed always graceful refl

Runs-IsEnd_example :
    (6 ≤ 6) × (IsEnd stopped ⊎ IsServing stopped ⊎ CanStep server_closed always stopped)
Runs-IsEnd_example = Runs-IsEnd server_closed always graceful

abbrev config : Config
config = record {
  server = record { port = pos 8080; debug = true; shutdown_timeout = pos 10 };
  postgres = record { dsn = "postgres://localhost"; max_open_conns = pos 4 };
  redis = record { addr = "localhost:6379"; password = ""; db = pos 0 };
  log = record { level = "info" };
  line = record { channel_secret = "s" };
}

-- Both databases are down, and the port is taken.
abbrev platform : Platform
platform = record {
  settings = record {
    bind_env = λ key. none;
    read_in_config = none;
    is_set = λ key. true;
    unmarshal = inr config;
  };
  lower_trimmed = λ s. s;
  ping_pool = λ p. some (foreign "refused");
  ping_redis = λ c. some (foreign "refused");
  server_run = λ s. some (foreign "address already in use");
}

run-Keeps_example : held_after_all (run platform "config").1 (some []) ≡ some []
run-Keeps_example = run-Keeps platform "config"

run-eq_zero_example : ((run platform "config").0 ≡ 0) ↔ (
    (cfg : Config) × (load platform.settings "config" ≡ loaded cfg)
    × (platform.server_run cfg.server ≡ none))
run-eq_zero_example = run-eq_zero platform "config"
