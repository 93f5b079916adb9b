-- ===== src/Property/Pgrepo/Indexes.antt =====
-- The unique index on the address of internal/property/pgrepo/pgrepo.go's table, and what it gives the
-- service.
use mathlib.Core.Option
use chuchu.Prelude.{List, map, ℕ, ◌≡◌, refl, ap, ◌∙◌, String, Option, none, some, some_injective}
use chuchu.Apperr.{GoError}
use chuchu.Effect.{err, map_err}
use chuchu.Outside.{Outside, DecimalLaws}
use chuchu.Property.{Property}
use chuchu.Property.Service.Runs.{Op, AllSound}
use chuchu.Property.Service.Contract.{Same}
use chuchu.Property.Service.Overlap.{calling, run_schedule}
use chuchu.Property.Service.Overlap.Kept.{address, IsAddressed, IsUnique}
use chuchu.Property.Service.Overlap.Turns.{IsKept}
use chuchu.Property.Service.Overlap.Schedules.{run_schedule-IsKept}
use chuchu.Property.Pgrepo.{
  PropertyModel, Db, to_model, to_domain, translate_insert, create, repository,
}
use chuchu.Property.Pgrepo.Refines.{SameRows, IsDb, rows, repository-IsRepository}

abbrev pub columns : {o : Outside} → PropertyModel o → String × String × String × String × String
columns m = (m.city, m.district, m.street_address, m.floor, m.room_no)

module _ (o : Outside) {S : Type 0} (table : S → o.Uuid → Option (PropertyModel o)) where
  -- What is documented of a unique index: an `INSERT` of a row whose columns are those of another row
  -- fails, and leaves the table as it was.
  pub record IsIndexed (db : Db o S) : Type 0 where
    pub refuses :
        (m n : PropertyModel o) (j : o.Uuid) (s : S)
        → table s j ≡ some n
        → columns n ≡ columns m
        → SameRows o table s (db.insert m s).1 × ((e : GoError) × ((db.insert m s).0 ≡ err e))

  row_of :
      (s : S) (j : o.Uuid) (q : Property o)
      → rows o table s j ≡ some q
      → (n : PropertyModel o) × (table s j ≡ some n) × (columns n ≡ address q)
  unfolding rows to_domain
  row_of s j q h = go (table s j) refl h
    where
      go :
          (r : Option (PropertyModel o))
          → table s j ≡ r
          → Option.map (to_domain o) r ≡ some q
          → (n : PropertyModel o) × (table s j ≡ some n) × (columns n ≡ address q)
      go none e h = cc h
      go (some n) e h = (n, e, ap address (some_injective h))

  module _ (db : Db o S) (index : IsIndexed db) where
    -- On such a table the repository refuses a property under an address that is taken.
    pub refused_create :
        (p q : Property o) (j : o.Uuid) (s : S)
        → rows o table s j ≡ some q
        → address q ≡ address p
        → Same o (rows o table) s (create o db p s).1
          × ((e : GoError) × ((db.insert (to_model o p) s).0 ≡ err e)
              × ((create o db p s).0 ≡ err (translate_insert e)))
    unfolding rows create to_model
    refused_create p q j s taken same =
        let (n, here, columns_same) = row_of s j q taken in
        let (kept, (e, failed)) = index.refuses (to_model o p) n j s here (columns_same ∙ same) in
        (
          λ k. ap (Option.map (to_domain o)) (kept k),
          (e, failed, ap (map_err translate_insert) failed),
        )

    pub repository-IsUnique : IsUnique o (rows o table) (repository o db)
    repository-IsUnique = record { refuses = λ p q j s h same. (refused_create p q j s h same).0 }

    -- On a database with its primary key and its index on the address, and in whatever order any
    -- creations, updates, status changes, readings and listings make their calls of it, of which any may
    -- fail, all properties stay sound, with amounts that are not
    -- negative, and no two share an address, if this held at the start, and none is lost
    -- or changes its identity; with decimals that do what is documented of them.
    pub overlapping-IsKept :
        DecimalLaws o
        → IsDb o table db
        → (ops : List (Op o)) (order : List ℕ) (s : S) → AllSound o (rows o table) s
        → IsAddressed o (rows o table) s
        → IsKept o (rows o table) s (run_schedule o (repository o db) order (map calling ops) s).1
    overlapping-IsKept decimals law =
        run_schedule-IsKept o (rows o table) decimals (repository o db)
          (repository-IsRepository o table db law) repository-IsUnique
