-- ===== src/Tests/Site.antt =====
-- The whole service on the small world, with one room to let, and what a few requests carry.
use chuchu.Prelude.{pos, ◌≡◌, false, String, [], ◌∷◌, none}
use chuchu.Apperr.{GoError, foreign, as_error}
use chuchu.Effect.{Result, ok, err}
use chuchu.Property.{Property}
use chuchu.Property.Httpapi.{CreatePropertyRequest}
use chuchu.Property.Pgrepo.{to_model}
use chuchu.Api.{Json, ChangeStatusRequest}
use chuchu.Server.{RequestLine}
use chuchu.App.{Moment, Deps, Writers}
use chuchu.Tests.World.{world, Table, memory}

abbrev pub room : Property world
room = record {
  id = 7;
  city = "台北市";
  district = "大安區";
  street_address = "和平東路 1 號";
  floor = "3";
  room_no = "A";
  layout = "WHOLE_UNIT";
  area_ping = pos 28;
  monthly_rent = pos 25000;
  management_fee = pos 0;
  deposit_months = pos 2;
  rental_mode = "MANAGED";
  status = "VACANT";
  landlord_name = "";
  landlord_phone = "";
  created_at = 0;
  updated_at = 0;
}

abbrev pub rooms : Table
rooms = to_model world room ∷ []

abbrev pub encode : Json world → Result String
encode b = ok "{}"

pub encode-foreign : (b : Json world) (e : GoError) → encode b ≡ err e → as_error e ≡ none
encode-foreign b e h = cc

abbrev pub writers : Writers world
writers = record {
  encode = encode;
  encode_error = λ b. "{}";
  marshal = λ b. ok "{}";
  not_found = [];
}

abbrev pub request : RequestLine
request = record { method = "POST"; path = "/properties" }

abbrev pub moment : Moment world
moment = record {
  new_id = 8;
  now = 3;
  clock = λ n. n;
  ping_postgres = ok tt;
  ping_redis = err (foreign "refused");
  postgres_first = false;
}

abbrev pub deps : Deps world Table
deps = record {
  db = memory;
  line_db = record { insert_on_conflict = λ statement s. (ok tt, s) };
  debug = false;
}

abbrev pub let_out : ChangeStatusRequest
let_out = record { status = "OCCUPIED" }

abbrev pub new_room : CreatePropertyRequest
new_room = record {
  area_ping = "28.5";
  city = "台北市";
  deposit_months = pos 2;
  district = "大安區";
  floor = "3";
  landlord_name = "";
  landlord_phone = "";
  layout = "WHOLE_UNIT";
  management_fee = none;
  monthly_rent = "25000";
  rental_mode = "MANAGED";
  room_no = "B";
  street_address = "和平東路 1 號";
}
