-- ===== src/Property/Pgrepo/Refines.antt =====
-- The repository of internal/property/pgrepo/pgrepo.go against the promises of the interface of
-- internal/property/service.go, on a database that does what is documented of the table
-- `properties`.
use mathlib.Core.Option
use chuchu.Prelude.{
  zero, suc, ℤ, pos, negsuc, ◌≡◌, refl, sym, ap, ◌∙◌, ◌≢◌, ◌⊎◌, inl, inr, Option, none, some,
  some_injective,
}
use chuchu.Apperr.{wrapped}
use chuchu.Effect.{
  Result, ok, err, and_then, continue-lift, and_then-eq_ok, map_err-eq_ok, map_err, ok_injective,
}
use chuchu.Outside.{Outside}
use chuchu.Property.{Property}
use chuchu.Property.Input.{ListFilter}
use chuchu.Property.Service.Contract.{stored, Same, Wrote, IsRepository}
use chuchu.Property.Pgrepo.{
  PropertyModel, PageQuery, Db, to_model, to_domain, translate_insert, translate_select,
  check_affected, page_query, to_result, create, get_by_id, update, list, repository,
}

-- The conversions of pgrepo lose nothing: `toDomain` undoes `toModel`, and the other way round.
pub to_domain-to_model :
    (o : Outside) (p : Property o) (m : PropertyModel o)
    → (to_domain o (to_model o p) ≡ p) × (to_model o (to_domain o m) ≡ m)
unfolding to_domain to_model
to_domain-to_model o p m = (refl, refl)

-- What the columns `NUMERIC(…, 2)` and `TIMESTAMPTZ` keep of a row.
abbrev pub fit : (o : Outside) → PropertyModel o → PropertyModel o
fit o m = record m {
  area_ping = o.round_amount m.area_ping;
  monthly_rent = o.round_amount m.monthly_rent;
  management_fee = o.round_amount m.management_fee;
  created_at = o.round_time m.created_at;
  updated_at = o.round_time m.updated_at;
}

module _ (o : Outside) {S : Type 0} (table : S → o.Uuid → Option (PropertyModel o)) where
  -- The table holds the same rows.
  abbrev pub SameRows : S → S → Type 0
  SameRows s t = (j : o.Uuid) → table t j ≡ table s j

  -- The row is in the table under its id, and the other rows are as before.
  pub record WroteRow (m : PropertyModel o) (s t : S) : Type 0 where
    pub written : table t m.id ≡ some m
    pub others : (j : o.Uuid) → j ≢ m.id → table t j ≡ table s j

  -- What is documented: a row holds amounts of two places and instants in microseconds; `id` is the primary key, so an `INSERT` adds a row under a new id and a
  -- `SELECT … WHERE id` returns that of its id; `RowsAffected` of an `UPDATE` by the primary key is 0
  -- if it has written nothing. A statement that returns an error may still have run.
  pub record IsDb (db : Db o S) : Type 0 where
    pub keyed : (s : S) (j : o.Uuid) (m : PropertyModel o) → table s j ≡ some m → m.id ≡ j
    pub fitted : (s : S) (j : o.Uuid) (m : PropertyModel o) → table s j ≡ some m → fit o m ≡ m
    pub insert_writes :
        (m : PropertyModel o) (s : S)
        → SameRows s (db.insert m s).1
          ⊎ ((table s m.id ≡ none) × WroteRow (fit o m) s (db.insert m s).1)
    pub insert_ok :
        (m : PropertyModel o) (s : S)
        → (db.insert m s).0 ≡ ok tt
        → WroteRow (fit o m) s (db.insert m s).1
    pub select_same : (j : o.Uuid) (s : S) → SameRows s (db.select_by_id j s).1
    pub select_reads :
        (j : o.Uuid) (s : S) (m : PropertyModel o)
        → (db.select_by_id j s).0 ≡ ok m
        → table s j ≡ some m
    pub page_same : (q : PageQuery) (s : S) → SameRows s (db.select_page q s).1
    pub update_writes :
        (m : PropertyModel o) (s : S)
        → SameRows s (db.update_by_pk m s).1 ⊎ WroteRow (fit o m) s (db.update_by_pk m s).1
    pub update_affects :
        (m : PropertyModel o) (s : S) (n : ℤ)
        → (db.update_by_pk m s).0 ≡ ok (ok n)
        → n ≢ pos 0
        → WroteRow (fit o m) s (db.update_by_pk m s).1

  -- The properties that the table holds.
  unfoldable pub rows : S → o.Uuid → Option (Property o)
  rows s j = Option.map (to_domain o) (table s j)

  module _ (db : Db o S) (law : IsDb db) where
    domain-Same : {s t : S} → SameRows s t → Same o rows s t
    unfolding rows
    domain-Same same j = ap (Option.map (to_domain o)) (same j)

    domain-Wrote :
        {p : Property o} {s t : S}
        → WroteRow (fit o (to_model o p)) s t
        → Wrote o rows (stored o p) s t
    unfolding rows to_model to_domain
    domain-Wrote w = record {
      written = ap (Option.map (to_domain o)) w.written;
      others = λ j ne. ap (Option.map (to_domain o)) (w.others j ne);
    }

    domain_none : (p : Property o) (s : S) → table s (to_model o p).id ≡ none → rows s p.id ≡ none
    unfolding rows to_model
    domain_none p s h = rw h

    keyed_domain :
        (s : S) (j : o.Uuid) (p : Property o) (r : Option (PropertyModel o))
        → table s j ≡ r
        → Option.map (to_domain o) r ≡ some p
        → p.id ≡ j
    unfolding to_domain
    keyed_domain s j p none e h = cc
    keyed_domain s j p (some m) e h =
        ap (λ (x : Property o). x.id) (sym (some_injective h)) ∙ law.keyed s j m e

    fitted_domain :
        (s : S) (j : o.Uuid) (p : Property o) (r : Option (PropertyModel o))
        → table s j ≡ r
        → Option.map (to_domain o) r ≡ some p
        → stored o p ≡ p
    unfolding to_domain
    fitted_domain s j p none e h = cc
    fitted_domain s j p (some m) e h =
        let is_p : to_domain o m ≡ p = some_injective h in
        ap (stored o) (sym is_p) ∙ ap (to_domain o) (law.fitted s j m e) ∙ is_p

    affected_ok : (r : Result ℤ) → check_affected r ≡ ok tt → (n : ℤ) × (r ≡ ok n) × (n ≢ pos 0)
    unfolding check_affected
    affected_ok (err e) h = cc
    affected_ok (ok (pos zero)) h = cc
    affected_ok (ok (pos (suc n))) h = (pos (suc n), refl, λ e. cc e)
    affected_ok (ok (negsuc n)) h = (negsuc n, refl, λ e. cc e)

    get_by_id_lem :
        (j : o.Uuid) (s : S)
        → get_by_id o db j s ≡ (
          and_then (map_err translate_select (db.select_by_id j s).0) (λ m. ok (to_domain o m)),
          (db.select_by_id j s).1,
        )
    unfolding get_by_id
    get_by_id_lem j s = continue-lift _ (λ m. ok (to_domain o m)) _

    list_lem : (f : ListFilter) (s : S) → (list o db f s).1 ≡ (db.select_page (page_query f) s).1
    unfolding list
    list_lem f s = ap (λ x. x.1) (continue-lift _ (λ page. ok (to_result o db page)) _)

    update_lem :
        (p : Property o) (s : S)
        → update o db p s ≡ (
          and_then
              (map_err (wrapped "更新物件失敗: ") (db.update_by_pk (to_model o p) s).0)
              check_affected,
          (db.update_by_pk (to_model o p) s).1,
        )
    unfolding update
    update_lem p s = continue-lift _ check_affected _

    got : (j : o.Uuid) (s : S) (p : Property o) → (get_by_id o db j s).0 ≡ ok p → rows s j ≡ some p
    unfolding rows
    got j s p h =
        let (m, found, e) = and_then-eq_ok _ (λ m. ok (to_domain o m)) (rw get_by_id_lem at h) in
        ap (Option.map (to_domain o))
          (law.select_reads j s m (map_err-eq_ok translate_select _ found))
        ∙ ap some (ok_injective e)

    updated :
        (p : Property o) (s : S)
        → (update o db p s).0 ≡ ok tt
        → WroteRow (fit o (to_model o p)) s (db.update_by_pk (to_model o p) s).1
    updated p s h =
        let (res, done, e) = and_then-eq_ok _ check_affected (rw update_lem at h) in
        let (n, is_n, nonzero) = affected_ok res e in
        law.update_affects (to_model o p) s n
          (map_err-eq_ok (wrapped "更新物件失敗: ") _ (done ∙ ap ok is_n)) nonzero

    -- On such a database the repository of pgrepo keeps every promise of the interface.
    pub repository-IsRepository : IsRepository o rows (repository o db)
    unfolding create rows
    repository-IsRepository = record {
      keyed = λ s j p. keyed_domain s j p (table s j) refl;
      fitted = λ s j p. fitted_domain s j p (table s j) refl;
      create_writes = λ p s. elim (law.insert_writes (to_model o p) s) [
        | inl same ↦ inl (domain-Same same)
        | inr (fresh, w) ↦ inr (domain_none p s fresh, domain-Wrote w)
      ];
      create_ok = λ p s h.
          domain-Wrote (law.insert_ok (to_model o p) s (map_err-eq_ok translate_insert _ h));
      get_same = λ j s. rw get_by_id_lem (domain-Same (law.select_same j s));
      get_reads = got;
      list_same = λ f s. rw list_lem (domain-Same (law.page_same (page_query f) s));
      update_writes = λ p s. rw update_lem (elim (law.update_writes (to_model o p) s) [
        | inl same ↦ inl (domain-Same same)
        | inr w ↦ inr (domain-Wrote w)
      ]);
      update_ok = λ p s h. rw update_lem (domain-Wrote (updated p s h));
    }
