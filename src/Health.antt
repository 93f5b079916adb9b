-- ===== src/Health.antt =====
-- internal/health/health.go and checkers.go: the readiness report. A checker is its name and what `Check` returned;
-- the goroutines send their results into a channel in some order, which is an argument of `check`.
pub mod Arrivals
pub mod Check
use chuchu.Prelude.{
  ℕ, Bool, true, false, not, String, List, [], ◌∷◌, Option, none, some, ◌==◌, ◌&&◌, if◌then◌else◌,
}
use chuchu.Effect.{Result, ok, err}

pub record Report : Type 0 where
  pub status : String
  pub checks : String → Option String

-- What a goroutine sends: the name, and whether `Check` returned no error.
pub record CheckResult : Type 0 where
  pub name : String
  pub is_ok : Bool

abbrev pub no_error : Result (Unit {0}) → Bool
no_error (ok _) = true
no_error (err e) = false

unfoldable pub send : String × Result (Unit {0}) → CheckResult
send (name, returned) = record { name = name; is_ok = no_error returned }

abbrev pub set_check : String → String → (String → Option String) → String → Option String
set_check name value checks k = if k == name then some value else checks k

abbrev pub mark : Bool → String
mark fine = if fine then "ok" else "down"

-- The two checkers, by what the ping of the client returned within its time limit.
abbrev pub postgres_checker : Result (Unit {0}) → String × Result (Unit {0})
postgres_checker ping = ("postgres", ping)

abbrev pub redis_checker : Result (Unit {0}) → String × Result (Unit {0})
redis_checker ping = ("redis", ping)

-- The loop over the channel, with `checks` and `allOK` so far.
unfoldable pub collect :
    List CheckResult → (String → Option String) → Bool → (String → Option String) × Bool
collect [] checks all_ok = (checks, all_ok)
collect (r ∷ rs) checks all_ok =
    collect rs (set_check r.name (mark r.is_ok) checks) (if r.is_ok then all_ok else false)

-- `Service.Check`, from the results in the order in which they arrive
unfoldable pub check : List CheckResult → Report
check results =
    let (checks, all_ok) = collect results (λ k. none) true in
    record { status = if all_ok then "ok" else "degraded"; checks = checks }

-- The response objects of `GetHealthz` in api/api.gen.go, by the status that they are visited with
pub data GetHealthzResponseObject : Type 0 where
  get_healthz_200 get_healthz_503 : Report → GetHealthzResponseObject

-- `API.GetHealthz`
unfoldable pub get_healthz : List CheckResult → GetHealthzResponseObject
get_healthz results =
    let report = check results in
    if not (report.status == "ok") then get_healthz_503 report else get_healthz_200 report
