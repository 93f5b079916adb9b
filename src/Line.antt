-- ===== src/Line.antt =====
-- internal/line: who follows the LINE account. This file has the types of line.go, and the interface
-- and the service of service.go over an explicit state `S`, which stands for the database; the
-- readings of `time.Now().UTC()` are those of a clock, one for each event.
pub mod Readings
pub mod Latest
pub mod Handling
pub mod Pgrepo
pub mod Webhook
use chuchu.Prelude.{ℕ, suc, ℤ, String, List, [], ◌∷◌, ◌==◌, if◌then◌else◌}
use chuchu.Effect.{Exec, pure, ◌>>=◌, ◌>>◌}
use chuchu.Outside.{Outside}

-- `Status` and `EventType` are Go strings.
abbrev pub Status : Type 0
Status = String

abbrev pub following : Status
following = "FOLLOWING"

abbrev pub blocked : Status
blocked = "BLOCKED"

abbrev pub EventType : Type 0
EventType = String

abbrev pub follow : EventType
follow = "FOLLOW"

abbrev pub unfollow : EventType
unfollow = "UNFOLLOW"

pub record Event : Type 0 where
  pub user_id : String
  pub type : EventType
  pub occurred_at_millis : ℤ

-- `Event.Status`
unfoldable pub status : Event → Status
status e = if e.type == follow then following else blocked

pub record User (o : Outside) : Type 0 where
  pub user_id : String
  pub status : Status
  pub last_event_at_millis : ℤ
  pub created_at : o.Time
  pub updated_at : o.Time

pub record Repository (o : Outside) (S : Type 0) : Type 0 where
  pub upsert : User o → Exec S (Unit {0})

-- The user that `Handle` writes for an event.
unfoldable pub user_of : (o : Outside) → Event → o.Time → User o
user_of o e now = record {
  user_id = e.user_id;
  status = status e;
  last_event_at_millis = e.occurred_at_millis;
  created_at = now;
  updated_at = now;
}

module _ (o : Outside) {S : Type 0} (repo : Repository o S) where
  -- `Service.Handle`: in the order of arrival, up to the first error
  unfoldable pub handle : (ℕ → o.Time) → List Event → Exec S (Unit {0})
  handle clock [] = pure tt
  handle clock (e ∷ es) = repo.upsert (user_of o e (clock 0)) >> handle (λ n. clock (suc n)) es
