-- ===== src/Tests/Sequences.antt =====
-- A sequence of requests on the small world.
use chuchu.Prelude.{List, [], ◌∷◌}
use chuchu.Effect.{ok}
use chuchu.Property.Pgrepo.Refines.{rows}
use chuchu.Api.Wrapper
use chuchu.Api.Wrapper.{
  ListQuery, bound, not_bound, handler_with_options, wrap_change_property_status,
}
use chuchu.App.History.{Request, run_requests, run_requests-Follows}
use chuchu.Property.Service.Runs.{AllSound}
use chuchu.Property.Service.History.{Follows}
use chuchu.Tests.World.{world, find, memory-IsDb, world-DecimalLaws}
use chuchu.Tests.Site.{writers, request, moment, deps, new_room, let_out}

empty-AllSound : AllSound world (rows world find) []
unfolding AllSound rows
empty-AllSound j p h = cc

abbrev two_requests : List (Request world)
two_requests =
    record {
      request_id = "r1";
      line = request;
      header = λ k. "";
      moment = moment;
      operation = Wrapper.create_property (ok new_room);
    }
    ∷ record {
      request_id = "r2";
      line = request;
      header = λ k. "";
      moment = moment;
      operation = Wrapper.change_property_status (ok 8) (ok let_out);
    }
    ∷ []

run_requests-Follows_example :
    let t = run_requests world deps writers two_requests [] in
    AllSound world (rows world find) t × Follows world (rows world find) [] t
run_requests-Follows_example =
    run_requests-Follows world find deps writers world-DecimalLaws memory-IsDb two_requests []
      empty-AllSound
