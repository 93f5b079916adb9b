-- ===== src/App/History.antt =====
-- Any sequence of requests to the API of the whole service.
use chuchu.Prelude.{◌≡◌, refl, ap, ◌∙◌, sym, String, List, [], ◌∷◌, ◌++◌, Option}
use chuchu.Outside.{Outside, DecimalLaws}
use chuchu.Httpx.Guard.{Header}
use chuchu.Property.Pgrepo
use chuchu.Property.Pgrepo.{PropertyModel}
use chuchu.Property.Pgrepo.Refines.{IsDb, rows, repository-IsRepository}
use chuchu.Property.Service.{Repository}
use chuchu.Property.Service.Runs.{Op, run_op, run_ops, AllSound}
use chuchu.Property.Service.History.{Follows, run_ops-Follows}
use chuchu.Api.Wrapper.{Operation}
use chuchu.Apihttp.Mount.{mount, error_handlers}
use chuchu.Server.{RequestLine}
use chuchu.App.{Moment, api_route, Deps, Writers, new_handler}
use chuchu.App.Calls.{Calls, mount-IsCalls}

-- A request to the API, with what it finds outside.
pub record Request (o : Outside) : Type 0 where
  pub request_id : String
  pub line : RequestLine
  pub header : Header
  pub moment : Moment o
  pub operation : Operation o

-- The state of the databases after requests that follow one another.
unfoldable pub run_requests :
    (o : Outside) {S : Type 0} → Deps o S → Writers o → List (Request o) → S → S
run_requests o d w [] s = s
run_requests o d w (q ∷ qs) s =
    run_requests o d w qs
      (new_handler o d w q.request_id q.line q.header q.moment (api_route q.operation) s).1

module _ (o : Outside) {S : Type 0} (repo : Repository o S) where
  run_ops-append :
      (xs ys : List (Op o)) (s : S)
      → run_ops o repo (xs ++ ys) s ≡ run_ops o repo ys (run_ops o repo xs s)
  unfolding run_ops
  run_ops-append [] ys s = refl
  run_ops-append (x ∷ xs) ys s = run_ops-append xs ys (run_op o repo x s)

module _ (o : Outside) {S : Type 0} (d : Deps o S) (w : Writers o) where
  request-Calls :
      (q : Request o) (s : S)
      → Calls o
          (Pgrepo.repository o d.db)
          s
          (new_handler o d w q.request_id q.line q.header q.moment (api_route q.operation) s).1
  unfolding new_handler mount
  request-Calls q s =
      mount-IsCalls o (Pgrepo.repository o d.db) q.moment w.encode
        (error_handlers w.encode_error q.request_id) q.operation s

  requests-Calls :
      (qs : List (Request o)) (s : S)
      → Calls o (Pgrepo.repository o d.db) s (run_requests o d w qs s)
  unfolding run_requests run_ops
  requests-Calls [] s = record { ops = []; same = refl }
  requests-Calls (q ∷ qs) s =
      let repo = Pgrepo.repository o d.db in
      let first = request-Calls q s in
      let rest =
        requests-Calls qs
          (new_handler o d w q.request_id q.line q.header q.moment (api_route q.operation) s).1 in
      record {
        ops = first.ops ++ rest.ops;
        same =
            rest.same
            ∙ ap (run_ops o repo rest.ops) first.same
            ∙ sym (run_ops-append o repo first.ops rest.ops s);
      }

-- After any sequence of requests to the API, with whatever parameters, bodies and clocks, and with any
-- calls of the database that fail, all properties of the table are sound, with amounts that are not
-- negative, if they were at the start;
-- none is lost or changes its identity, and every status was reached along the edges of the state
-- machine, for a new property from `vacant`. This takes a database and decimals that do what is
-- documented of them.
pub run_requests-Follows :
    (o : Outside) {S : Type 0} (table : S → o.Uuid → Option (PropertyModel o)) (d : Deps o S)
    (w : Writers o)
    → DecimalLaws o
    → IsDb o table d.db
    → (qs : List (Request o)) (s : S) → AllSound o (rows o table) s
    → AllSound o (rows o table) (run_requests o d w qs s)
      × Follows o (rows o table) s (run_requests o d w qs s)
run_requests-Follows o table d w decimals law qs s sound =
    let repo = Pgrepo.repository o d.db in
    let calls = requests-Calls o d w qs s in
    rw calls.same (
      run_ops-Follows o (rows o table) decimals repo (repository-IsRepository o table d.db law)
        calls.ops s sound)
