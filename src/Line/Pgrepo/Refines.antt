-- ===== src/Line/Pgrepo/Refines.antt =====
-- The repository of internal/line/pgrepo/pgrepo.go against the promises of the interface of
-- internal/line/service.go, on a database that does what is documented of `ON CONFLICT`.
use mathlib.Core.Option
use chuchu.Prelude.{
  Bool-cases, true, false, leb_ℤ, refl, ◌≡◌, sym, ap, ◌∙◌, ◌≢◌, ◌⊎◌, inl, inr, String, Option, none,
  some, ◌==◌, if◌then◌else◌, eq_iff, eq_refl, arith,
}
use chuchu.Apperr.{wrapped}
use chuchu.Effect.{ok, map_err, map_err-eq_ok}
use chuchu.Outside.{Outside}
use chuchu.Line.{User, Repository}
use chuchu.Line.Readings.{Reading, join, join-none}
use chuchu.Line.Handling.{says, Joined, IsRepository}
use chuchu.Line.Pgrepo.{
  LineUserModel, Statement, Db, to_model, not_older, overwrite, upsert_statement, upsert,
  repository,
}

module _ (o : Outside) where
  -- What the columns `TIMESTAMPTZ` keep of a row.
  abbrev pub fit : LineUserModel o → LineUserModel o
  fit m = record m {
    created_at = o.round_time m.created_at;
    updated_at = o.round_time m.updated_at;
  }

  -- The row that a statement leaves under the key of the one it proposes, which is what the columns
  -- keep of what was sent.
  abbrev pub left_by : Statement o → Option (LineUserModel o) → LineUserModel o
  left_by st none = fit st.proposed
  left_by st (some old) =
      if st.only_if old (fit st.proposed) then st.set old (fit st.proposed) else old

  -- The row of a user, with the instant at which it was made.
  abbrev pub row_of : o.Time → User o → LineUserModel o
  row_of created u = record {
    user_id = u.user_id;
    status = u.status;
    last_event_at_millis = u.last_event_at_millis;
    created_at = created;
    updated_at = o.round_time u.updated_at;
  }

  abbrev pub reading_of : LineUserModel o → Reading
  reading_of m = record { status = m.status; at = m.last_event_at_millis }

module _ (o : Outside) {S : Type 0} (table : S → String → Option (LineUserModel o)) where
  abbrev pub SameRows : S → S → Type 0
  SameRows s t = (j : String) → table t j ≡ table s j

  -- The statement has run: one row has changed, or been added.
  pub record Ran (st : Statement o) (s t : S) : Type 0 where
    pub row : table t st.proposed.user_id ≡ some (left_by o st (table s st.proposed.user_id))
    pub others : (j : String) → j ≢ st.proposed.user_id → table t j ≡ table s j

  -- What is documented of the statement; one that returns an error may still have run. Where Postgres
  -- carries it out (`takes`), a statement is no error for having changed no row.
  pub record IsDb (db : Db o S) : Type 1 where
    pub takes : Statement o → S → Type 0
    pub taken : (st : Statement o) (s : S) → takes st s → (db.insert_on_conflict st s).0 ≡ ok tt
    pub run_ok :
        (st : Statement o) (s : S)
        → (db.insert_on_conflict st s).0 ≡ ok tt
        → Ran st s (db.insert_on_conflict st s).1
    pub run_writes :
        (st : Statement o) (s : S)
        → SameRows s (db.insert_on_conflict st s).1 ⊎ Ran st s (db.insert_on_conflict st s).1

  -- The readings that the table holds.
  pub readings : S → String → Option Reading
  readings s j = Option.map (reading_of o) (table s j)

  left_by-join :
      (u : User o) (old : Option (LineUserModel o))
      → some (reading_of o (left_by o (upsert_statement o u) old))
        ≡ join (Option.map (reading_of o) old) (says u.user_id u)
  unfolding to_model not_older overwrite
  left_by-join u none = ground (arith, eq_refl u.user_id)
  left_by-join u (some old) = ground (arith, eq_refl u.user_id)

  reading_elsewhere :
      (u : User o) (j : String) (x : Option Reading) → j ≢ u.user_id → x ≡ join x (says j u)
  reading_elsewhere u j x ne = ground (arith, eq_iff u.user_id j, join-none x)

  joined_self :
      (u : User o) (s t : S)
      → Ran (upsert_statement o u) s t
      → readings t u.user_id ≡ join (readings s u.user_id) (says u.user_id u)
  unfolding readings to_model
  joined_self u s t ran =
      ap (Option.map (reading_of o)) ran.row ∙ left_by-join u (table s u.user_id)

  joined : (u : User o) (s t : S) → Ran (upsert_statement o u) s t → Joined o readings u s t
  unfolding readings to_model
  joined u s t ran j = elim (Bool-cases (u.user_id == j)) [
    | inl same ↦ rw (sym ((eq_iff u.user_id j).0 same)) (joined_self u s t ran)
    | inr other ↦
        let ne : j ≢ u.user_id = λ e. cc (other, e, eq_refl u.user_id) in
        ap (Option.map (reading_of o)) (ran.others j ne) ∙ reading_elsewhere u j (readings s j) ne
  ]

  -- On such a database the readings are those that the interface promises.
  pub upsert-IsRepository : (db : Db o S) → IsDb db → IsRepository o readings (repository o db)
  unfolding upsert readings
  upsert-IsRepository db law = record {
    upsert_ok = λ u s h.
        joined u s _
          (law.run_ok (upsert_statement o u) s (map_err-eq_ok (wrapped "寫入 line_users 失敗: ") _ h));
    upsert_writes = λ u s. elim (law.run_writes (upsert_statement o u) s) [
      | inl same ↦ inl (λ j. ap (Option.map (reading_of o)) (same j))
      | inr ran ↦ inr (joined u s _ ran)
    ];
  }

  -- The three promises on whole rows, each under its own key. Where the statement is taken, none of them
  -- is an error.
  pub record KeepsRows (takes : User o → S → Type 0) (repo : Repository o S) : Type 0 where
    pub succeeds : (u : User o) (s : S) → takes u s → (repo.upsert u s).0 ≡ ok tt
    pub inserts :
        (u : User o) (s : S)
        → (repo.upsert u s).0 ≡ ok tt
        → table s u.user_id ≡ none
        → table (repo.upsert u s).1 u.user_id ≡ some (row_of o (o.round_time u.created_at) u)
    pub overwrites :
        (u : User o) (old : LineUserModel o) (s : S)
        → (repo.upsert u s).0 ≡ ok tt
        → table s u.user_id ≡ some old
        → old.user_id ≡ u.user_id
        → leb_ℤ old.last_event_at_millis u.last_event_at_millis ≡ true
        → table (repo.upsert u s).1 u.user_id ≡ some (row_of o old.created_at u)
    pub keeps_older :
        (u : User o) (old : LineUserModel o) (s : S)
        → (repo.upsert u s).0 ≡ ok tt
        → table s u.user_id ≡ some old
        → leb_ℤ old.last_event_at_millis u.last_event_at_millis ≡ false
        → table (repo.upsert u s).1 u.user_id ≡ some old
    pub others :
        (u : User o) (j : String) (s : S)
        → (repo.upsert u s).0 ≡ ok tt
        → j ≢ u.user_id
        → table (repo.upsert u s).1 j ≡ table s j

  module _ (db : Db o S) (law : IsDb db) where
    ran :
        (u : User o) (s : S)
        → (upsert o db u s).0 ≡ ok tt
        → Ran (upsert_statement o u) s (upsert o db u s).1
    unfolding upsert
    ran u s h =
        law.run_ok (upsert_statement o u) s (map_err-eq_ok (wrapped "寫入 line_users 失敗: ") _ h)

    -- After an `Upsert` with no error, on a database that does what is documented of `ON CONFLICT`, a new
    -- user has the row that was given; an event as late as that of the row or later replaces its status, its
    -- time and `updated_at`, and leaves `created_at`; for an older event the whole row is as it was, and so are
    -- all other rows in each case. Where the statement is taken there is no error, for an older event neither.
    -- Instants are what the columns keep of them. After an error the readings of status and time are the old
    -- ones or the new ones.
    pub line_users-IsRepository :
        IsRepository o readings (repository o db)
        × KeepsRows (λ u. law.takes (upsert_statement o u)) (repository o db)
    unfolding upsert to_model not_older overwrite
    line_users-IsRepository = (
      upsert-IsRepository db law,
      record {
        succeeds = λ u s up.
            ap (map_err (wrapped "寫入 line_users 失敗: ")) (law.taken (upsert_statement o u) s up);
        inserts = λ u s h fresh. (ran u s h).row ∙ rw fresh refl;
        overwrites = λ u old s h held same late. (ran u s h).row ∙ rw (held, late, same) refl;
        keeps_older = λ u old s h held older. (ran u s h).row ∙ rw (held, older) refl;
        others = λ u j s h ne. (ran u s h).others j ne;
      },
    )
