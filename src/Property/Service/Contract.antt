-- ===== src/Property/Service/Contract.antt =====
-- What the property service relies on: the comments on the interface `Repository` of
-- internal/property/service.go as laws over `rows`, the property that the database holds under each
-- id. A call that returns an error may have written or not, as when a connection breaks.
use chuchu.Prelude.{◌≡◌, refl, ◌≢◌, ◌∙◌, ◌⊎◌, inl, inr, Option, none, some}
use chuchu.Effect.{Result, ok, err, Exec, continue, pure, lift, ◌>>=◌, ◌>>◌}
use chuchu.Outside.{Outside}
use chuchu.Property.{Property}
use chuchu.Property.Input.{ListFilter}
use chuchu.Property.Service.{Repository}

-- What the columns of the table keep of a property: its amounts to two places, its instants to
-- microseconds.
abbrev pub stored : (o : Outside) → Property o → Property o
stored o p = record p {
  area_ping = o.round_amount p.area_ping;
  monthly_rent = o.round_amount p.monthly_rent;
  management_fee = o.round_amount p.management_fee;
  created_at = o.round_time p.created_at;
  updated_at = o.round_time p.updated_at;
}

module _ (o : Outside) {S : Type 0} (rows : S → o.Uuid → Option (Property o)) where
  -- The two states hold the same properties.
  abbrev pub Same : S → S → Type 0
  Same s t = (j : o.Uuid) → rows t j ≡ rows s j

  -- `t` holds `p` under its id, and is as `s` elsewhere.
  pub record Wrote (p : Property o) (s t : S) : Type 0 where
    pub written : rows t p.id ≡ some p
    pub others : (j : o.Uuid) → j ≢ p.id → rows t j ≡ rows s j

  pub record IsRepository (repo : Repository o S) : Type 0 where
    pub keyed : (s : S) (j : o.Uuid) (p : Property o) → rows s j ≡ some p → p.id ≡ j
    -- a row holds what its columns can hold
    pub fitted : (s : S) (j : o.Uuid) (p : Property o) → rows s j ≡ some p → stored o p ≡ p
    pub create_writes :
        (p : Property o) (s : S)
        → Same s (repo.create p s).1
          ⊎ ((rows s p.id ≡ none) × Wrote (stored o p) s (repo.create p s).1)
    pub create_ok :
        (p : Property o) (s : S)
        → (repo.create p s).0 ≡ ok tt
        → Wrote (stored o p) s (repo.create p s).1
    pub get_same : (j : o.Uuid) (s : S) → Same s (repo.get_by_id j s).1
    pub get_reads :
        (j : o.Uuid) (s : S) (p : Property o) → (repo.get_by_id j s).0 ≡ ok p → rows s j ≡ some p
    pub list_same : (f : ListFilter) (s : S) → Same s (repo.list f s).1
    pub update_writes :
        (p : Property o) (s : S)
        → Same s (repo.update p s).1 ⊎ Wrote (stored o p) s (repo.update p s).1
    pub update_ok :
        (p : Property o) (s : S)
        → (repo.update p s).0 ≡ ok tt
        → Wrote (stored o p) s (repo.update p s).1

  pub Wrote-after : {p : Property o} {s u t : S} → Same s u → Wrote p u t → Wrote p s t
  Wrote-after same w = record { written = w.written; others = λ j ne. w.others j ne ∙ same j }

  module _ (repo : Repository o S) (law : IsRepository repo) where
    -- `GetByID`, a change of the property, `Update`: the shape of `Update` and `ChangeStatus`.
    abbrev pub modify : o.Uuid → (Property o → Result (Property o)) → Exec S (Property o)
    modify id f = do p ← repo.get_by_id id; p' ← lift (f p); repo.update p'; pure p'

    -- What such a call may have written, whatever it returned.
    pub record Modified (id : o.Uuid) (f : Property o → Result (Property o)) (s t : S)
        : Type 0 where
      pub old : Property o
      pub new : Property o
      pub read : rows s id ≡ some old
      pub changed : f old ≡ ok new
      pub wrote : Wrote (stored o new) s t

    pub state-pure :
        (r : Result (Unit {0})) (p : Property o) (t : S) → (continue r (λ _. pure p) t).1 ≡ t
    state-pure (ok _) p t = refl
    state-pure (err e) p t = refl

    module _ (id : o.Uuid) (f : Property o → Result (Property o)) (s : S) where
      after_change :
          (old : Property o) (u : S)
          → rows s id ≡ some old
          → Same s u
          → (r : Result (Property o)) → f old ≡ r
          → let t = continue r (λ p. repo.update p >> pure p) u in Same s t.1 ⊎ Modified id f s t.1
      after_change old u read same (err e) h = inl same
      after_change old u read same (ok new) h =
          rw (state-pure (repo.update new u).0 new (repo.update new u).1)
            (elim (law.update_writes new u) [
              | inl kept ↦ inl (λ j. kept j ∙ same j)
              | inr w ↦ inr (record {
                old = old;
                new = new;
                read = read;
                changed = h;
                wrote = Wrote-after same w;
              })
            ])

      after_get :
          (r : Result (Property o)) (u : S)
          → ((p : Property o) → r ≡ ok p → rows s id ≡ some p)
          → Same s u
          → let t = continue r (λ p. lift (f p) >>= λ p'. repo.update p' >> pure p') u in
            Same s t.1 ⊎ Modified id f s t.1
      after_get (err e) u reads same = inl same
      after_get (ok p) u reads same = after_change p u (reads p refl) same (f p) refl

      -- Such a call writes nothing, or the change of the property that was there.
      pub modify-Modified : let t = modify id f s in Same s t.1 ⊎ Modified id f s t.1
      modify-Modified =
          after_get (repo.get_by_id id s).0 (repo.get_by_id id s).1 (law.get_reads id s)
            (law.get_same id s)
