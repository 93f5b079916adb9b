-- ===== src/Property/Service/Overlap/Kept.antt =====
-- What overlapping requests to internal/property keep of the stored properties, in every order of their
-- calls of the repository.
use chuchu.Prelude.{◌≡◌, refl, ap, sym, ◌∙◌, ◌≢◌, String, Option, some, some_injective}
use chuchu.Outside.{Outside}
use chuchu.Property.{Property}
use chuchu.Property.Service.{Repository}
use chuchu.Property.Service.Contract.{Same, Wrote}
use chuchu.Property.Service.Keeps.{identity}
use chuchu.Property.Service.Runs.{Steps}

-- The columns of the unique index `properties_address_key`.
abbrev pub address : {o : Outside} → Property o → String × String × String × String × String
address p = (p.city, p.district, p.street_address, p.floor, p.room_no)

module _ (o : Outside) {S : Type 0} (rows : S → o.Uuid → Option (Property o)) where
  -- No two properties have one address.
  pub record IsAddressed (s : S) : Type 0 where
    pub distinct :
        (j k : o.Uuid) (p q : Property o)
        → rows s j ≡ some p
        → rows s k ≡ some q
        → address p ≡ address q
        → j ≡ k

  -- `Create` writes no property under an address that is taken.
  pub record IsUnique (repo : Repository o S) : Type 0 where
    pub refuses :
        (p q : Property o) (j : o.Uuid) (s : S)
        → rows s j ≡ some q
        → address q ≡ address p
        → Same o rows s (repo.create p s).1

  -- Every property is still there, under its id and with its identity.
  pub record Keeps (s t : S) : Type 0 where
    pub kept :
        (j : o.Uuid) (p : Property o)
        → rows s j ≡ some p
        → (q : Property o) × (rows t j ≡ some q) × (identity o q ≡ identity o p)

  -- The properties of `t` stood in `s` with their addresses.
  pub record Traces (s t : S) : Type 0 where
    pub traced :
        (j : o.Uuid) (q : Property o)
        → rows t j ≡ some q
        → (p : Property o) × (rows s j ≡ some p) × (address p ≡ address q)

  pub Keeps-refl : (s : S) → Keeps s s
  Keeps-refl s = record { kept = λ j p e. (p, e, refl) }

  pub Keeps-trans : {s t u : S} → Keeps s t → Keeps t u → Keeps s u
  Keeps-trans h k = record {
    kept = λ j p e.
        let (q, e', same) = h.kept j p e in
        let (r, e'', same') = k.kept j q e' in (r, e'', same' ∙ same);
  }

  pub Same-Keeps : {s t : S} → Same o rows s t → Keeps s t
  Same-Keeps same = record { kept = λ j p e. (p, same j ∙ e, refl) }

  pub Steps-Keeps : {s t : S} → Steps o rows s t → Keeps s t
  Steps-Keeps steps = record {
    kept = λ j p e. let (q, e', ev) = steps.kept j p e in (q, e', ev.identity_kept);
  }

  pub Same-Traces : {s t : S} → Same o rows s t → Traces s t
  Same-Traces same = record { traced = λ j q e. (q, sym (same j) ∙ e, refl) }

  pub Traces-IsAddressed : {s t : S} → Traces s t → IsAddressed s → IsAddressed t
  Traces-IsAddressed h a = record {
    distinct = λ j k p q e f same.
        let (p', e', g) = h.traced j p e in
        let (q', f', g') = h.traced k q f in a.distinct j k p' q' e' f' (g ∙ same ∙ sym g');
  }

  -- A write over a property with the same identity.
  module _ {p q : Property o} {s t : S} (held : rows s q.id ≡ some p)
      (same : identity o q ≡ identity o p) (w : Wrote o rows q s t) where
    pub over-Keeps : Keeps s t
    over-Keeps = record {
      kept = λ j x e. elim (o.uuid_eq j q.id) [
        | yes here ↦ (
          q,
          ap (rows t) here ∙ w.written,
          same ∙ ap (identity o) (some_injective (sym held ∙ ap (rows s) (sym here) ∙ e)),
        )
        | no other ↦ (x, w.others j other ∙ e, refl)
      ];
    }

    pub over-Traces : Traces s t
    over-Traces = record {
      traced = λ j x e. elim (o.uuid_eq j q.id) [
        | yes here ↦
            let is_q : q ≡ x = some_injective (sym w.written ∙ ap (rows t) (sym here) ∙ e) in
            (
              p,
              ap (rows s) here ∙ held,
              ap (λ x. (x.1, x.2, x.3, x.4, x.5)) (sym same) ∙ ap address is_q,
            )
        | no other ↦ (x, sym (w.others j other) ∙ e, refl)
      ];
    }

  -- A write of a property whose address is new.
  pub fresh-IsAddressed :
      {p : Property o} {s t : S}
      → Wrote o rows p s t
      → ((j : o.Uuid) (q : Property o) → rows s j ≡ some q → address q ≢ address p)
      → IsAddressed s
      → IsAddressed t
  fresh-IsAddressed {p} {s} {t} w new a = record {
    distinct = λ j k x y e f same. elim (o.uuid_eq j p.id) [
      | yes here ↦
          let is_p : p ≡ x = some_injective (sym w.written ∙ ap (rows t) (sym here) ∙ e) in
          elim (o.uuid_eq k p.id) [
            | yes there ↦ here ∙ sym there
            | no other ↦
                absurd (new k y (sym (w.others k other) ∙ f) (sym (ap address is_p ∙ same)))
          ]
      | no elsewhere ↦ elim (o.uuid_eq k p.id) [
        | yes there ↦
            let is_p : p ≡ y = some_injective (sym w.written ∙ ap (rows t) (sym there) ∙ f) in
            absurd (new j x (sym (w.others j elsewhere) ∙ e) (same ∙ sym (ap address is_p)))
        | no other ↦
            a.distinct j k x y (sym (w.others j elsewhere) ∙ e) (sym (w.others k other) ∙ f) same
      ]
    ];
  }
