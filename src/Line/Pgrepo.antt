-- ===== src/Line/Pgrepo.antt =====
-- internal/line/pgrepo/pgrepo.go: the repository of LINE users over Postgres. `Db` has the one
-- statement that the code runs, with the row it proposes and the changes it makes on a conflict.
pub mod Refines
use chuchu.Prelude.{ℤ, leb_ℤ, Bool, String, if◌then◌else◌}
use chuchu.Apperr.{wrapped}
use chuchu.Effect.{Exec, map_err}
use chuchu.Outside.{Outside}
use chuchu.Line.{User, Repository}

pub record LineUserModel (o : Outside) : Type 0 where
  pub user_id : String
  pub status : String
  pub last_event_at_millis : ℤ
  pub created_at : o.Time
  pub updated_at : o.Time

-- `INSERT … ON CONFLICT (line_user_id) DO UPDATE SET … WHERE …`: of the row in the table
-- (`line_users`) and the proposed one (`EXCLUDED`), the test of `WHERE` (`only_if`) and the row that `SET` makes.
pub record Statement (o : Outside) : Type 0 where
  pub proposed : LineUserModel o
  pub only_if : LineUserModel o → LineUserModel o → Bool
  pub set : LineUserModel o → LineUserModel o → LineUserModel o

pub record Db (o : Outside) (S : Type 0) : Type 0 where
  pub insert_on_conflict : Statement o → Exec S (Unit {0})

unfoldable pub to_model : (o : Outside) → User o → LineUserModel o
to_model o u = record {
  user_id = u.user_id;
  status = u.status;
  last_event_at_millis = u.last_event_at_millis;
  created_at = u.created_at;
  updated_at = u.updated_at;
}

-- `Where("line_users.last_event_at <= EXCLUDED.last_event_at")`
unfoldable pub not_older : {o : Outside} → LineUserModel o → LineUserModel o → Bool
not_older line_users excluded = leb_ℤ line_users.last_event_at_millis excluded.last_event_at_millis

-- `Set("status = EXCLUDED.status")` and the two others
unfoldable pub overwrite : {o : Outside} → LineUserModel o → LineUserModel o → LineUserModel o
overwrite line_users excluded = record {
  user_id = line_users.user_id;
  status = excluded.status;
  last_event_at_millis = excluded.last_event_at_millis;
  created_at = line_users.created_at;
  updated_at = excluded.updated_at;
}

abbrev pub upsert_statement : (o : Outside) → User o → Statement o
upsert_statement o u = record { proposed = to_model o u; only_if = not_older; set = overwrite }

module _ (o : Outside) {S : Type 0} (db : Db o S) where
  unfoldable pub upsert : User o → Exec S (Unit {0})
  upsert u s =
      let (r, t) = db.insert_on_conflict (upsert_statement o u) s in
      (map_err (wrapped "寫入 line_users 失敗: ") r, t)

  -- `LineUserRepository`, as the interface that the service takes
  abbrev pub repository : Repository o S
  repository = record { upsert = upsert }
