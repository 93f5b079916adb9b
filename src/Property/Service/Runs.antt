-- ===== src/Property/Service/Runs.antt =====
-- Any run of the operations of the property service: a step relation over the state of the
-- repository, the invariant that every stored property is sound, and what becomes of each of them.
use chuchu.Prelude.{
  ◌≡◌, refl, sym, ap, ◌∙◌, ◌⊎◌, inl, inr, false, not, List, [], ◌∷◌, Option, none, some,
  some_injective, Bool-cases, is_empty,
}
use mathlib.Core.Path.{subst}
use chuchu.Effect.{Result, ok, err, continue, pure, ◌>>◌}
use chuchu.Outside.{Outside, DecimalLaws}
use chuchu.Property.{Status, Property, vacant}
use chuchu.Property.Input.{
  CreateInput, UpdateInput, ListFilter, validate, validate_update, normalize,
}
use chuchu.Property.Validation.{validate-eq_nil_iff}
use chuchu.Property.Validation.Update.{IsValidUpdate_of_nil}
use chuchu.Property.Service.{
  Repository, parse_input, apply_update, apply_status, create, update, change_status, get, list,
}
use chuchu.Property.Service.Contract.{
  stored, Same, Wrote, IsRepository, Modified, modify-Modified, state-pure,
}
use chuchu.Property.Service.Keeps.{
  IsSound, Evolves, Evolves-refl, stored-IsSound, stored-Evolves, parse_input-IsSound,
  apply_update-IsSound, apply_status-IsSound,
}

pub data Op (o : Outside) : Type 0 where
  create_op : o.Uuid → o.Time → CreateInput → Op o
  update_op : o.Time → o.Uuid → UpdateInput → Op o
  status_op : o.Time → o.Uuid → Status → Op o
  get_op : o.Uuid → Op o
  list_op : ListFilter → Op o

module _ (o : Outside) {S : Type 0} (repo : Repository o S) where
  -- The state that an operation leaves, whatever it returns.
  unfoldable pub run_op : Op o → S → S
  run_op (create_op id now input) s = (create o repo id now input s).1
  run_op (update_op now id input) s = (update o repo now id input s).1
  run_op (status_op now id target) s = (change_status o repo now id target s).1
  run_op (get_op id) s = (get o repo id s).1
  run_op (list_op f) s = (list o repo f s).1

  unfoldable pub run_ops : List (Op o) → S → S
  run_ops [] s = s
  run_ops (op ∷ ops) s = run_ops ops (run_op op s)

pub is_empty_of : {A : Type 0} (xs : List A) → not (is_empty xs) ≡ false → xs ≡ []
is_empty_of [] h = refl
is_empty_of (x ∷ xs) h = cc

module _ (o : Outside) {S : Type 0} (rows : S → o.Uuid → Option (Property o)) where
  unfoldable pub AllSound : S → Type 0
  AllSound s = (j : o.Uuid) (p : Property o) → rows s j ≡ some p → IsSound o p

  -- Every property of `s` is still there in `t`, and has evolved by at most one edge; every new one
  -- is vacant.
  pub record Steps (s t : S) : Type 0 where
    pub kept :
        (j : o.Uuid) (p : Property o)
        → rows s j ≡ some p
        → (q : Property o) × (rows t j ≡ some q) × Evolves o p q
    pub added :
        (j : o.Uuid) (q : Property o) → rows s j ≡ none → rows t j ≡ some q → q.status ≡ vacant

  module _ (d : DecimalLaws o) (repo : Repository o S) (law : IsRepository o rows repo) where
    pub Wrote-AllSound :
        {p : Property o} {s t : S} → AllSound s → IsSound o p → Wrote o rows p s t → AllSound t
    unfolding AllSound
    Wrote-AllSound {p} {t} h sound w j q e = elim (o.uuid_eq j p.id) [
      | yes same ↦
          subst (IsSound o) (some_injective (sym w.written ∙ ap (rows t) (sym same) ∙ e)) sound
      | no other ↦ h j q (sym (w.others j other) ∙ e)
    ]

    pub Same-AllSound : {s t : S} → AllSound s → Same o rows s t → AllSound t
    unfolding AllSound
    Same-AllSound h same j q e = h j q (sym (same j) ∙ e)

    -- What `Create` may have written.
    pub record Created (id : o.Uuid) (now : o.Time) (input : CreateInput) (s t : S) : Type 0 where
      pub new : Property o
      pub valid : validate o input ≡ []
      pub parsed : parse_input o id now input ≡ ok new
      pub fresh : rows s new.id ≡ none
      pub wrote : Wrote o rows (stored o new) s t

    module _ (id : o.Uuid) (now : o.Time) (input : CreateInput) (s : S) where
      after_parse :
          validate o input ≡ []
          → (r : Result (Property o)) → parse_input o id now input ≡ r
          → let t = continue r (λ p. repo.create p >> pure p) s in
            Same o rows s t.1 ⊎ Created id now input s t.1
      after_parse valid (err e) h = inl (λ j. refl)
      after_parse valid (ok p) h =
          rw (state-pure o rows repo law (repo.create p s).0 p (repo.create p s).1)
            (elim (law.create_writes p s) [
              | inl same ↦ inl same
              | inr (fresh, w) ↦
                  inr (record { new = p; valid = valid; parsed = h; fresh = fresh; wrote = w })
            ])

      pub create-Created :
          let t = create o repo id now input s in Same o rows s t.1 ⊎ Created id now input s t.1
      unfolding create
      create-Created = elim (Bool-cases (not (is_empty (validate o input)))) [
        | inl bad ↦ rw bad (inl (λ j. refl))
        | inr good ↦ rw good (after_parse (is_empty_of _ good) (parse_input o id now input) refl)
      ]

    Same-Steps : {s t : S} → Same o rows s t → Steps s t
    Same-Steps same = record {
      kept = λ j p e. (p, same j ∙ e, Evolves-refl o p);
      added = λ j q e f. cc (same j);
    }

    Created-Steps :
        {id : o.Uuid} {now : o.Time} {input : CreateInput} {s t : S}
        → Created id now input s t
        → Steps s t
    Created-Steps {id} {now} {input} {s} {t} c =
        let (sound, is_vacant, _) =
          parse_input-IsSound o d id now input ((validate-eq_nil_iff o input).0 c.valid) c.parsed in
        record {
          kept = λ j p e. elim (o.uuid_eq j c.new.id) [
            | yes same ↦ cc (sym e ∙ ap (rows s) same ∙ c.fresh)
            | no other ↦ (p, c.wrote.others j other ∙ e, Evolves-refl o p)
          ];
          added = λ j q e f. elim (o.uuid_eq j c.new.id) [
            | yes same ↦
                subst (λ (x : Property o). x.status ≡ vacant)
                  (some_injective (sym c.wrote.written ∙ ap (rows t) (sym same) ∙ f)) is_vacant
            | no other ↦ cc (sym f ∙ c.wrote.others j other ∙ e)
          ];
        }

    module _ {id : o.Uuid} {f : Property o → Result (Property o)} {s t : S}
        (m : Modified o rows repo law id f s t) (changed : Evolves o m.old m.new) where
      ev : Evolves o m.old (stored o m.new)
      ev = stored-Evolves o m.old m.new (law.fitted s id m.old m.read) changed

      same_id : m.new.id ≡ id
      same_id = ap (λ x. x.0) ev.identity_kept ∙ law.keyed s id m.old m.read

      Modified-Steps : Steps s t
      Modified-Steps = record {
        kept = λ j p e. elim (o.uuid_eq j m.new.id) [
          | yes same ↦ (
            stored o m.new,
            ap (rows t) same ∙ m.wrote.written,
            subst (λ x. Evolves o x (stored o m.new))
                (some_injective (sym m.read ∙ ap (rows s) (sym (same ∙ same_id)) ∙ e)) ev,
          )
          | no other ↦ (p, m.wrote.others j other ∙ e, Evolves-refl o p)
        ];
        added = λ j q e g. elim (o.uuid_eq j m.new.id) [
          | yes same ↦ cc (sym e ∙ ap (rows s) (same ∙ same_id) ∙ m.read)
          | no other ↦ cc (sym g ∙ m.wrote.others j other ∙ e)
        ];
      }

    -- One operation of the service, on any input and with any result, leaves a state whose
    -- properties are sound again.
    module _ (s : S) (h : AllSound s) where
      abbrev pub Good : S → Type 0
      Good t = AllSound t × Steps s t

      Same-Good : {t : S} → Same o rows s t → Good t
      Same-Good same = (Same-AllSound h same, Same-Steps same)

      create-Good :
          (id : o.Uuid) (now : o.Time) (input : CreateInput) → Good (create o repo id now input s).1
      create-Good id now input = elim (create-Created id now input s) [
        | inl same ↦ Same-Good same
        | inr c ↦ (
          Wrote-AllSound h
              (stored-IsSound o d c.new
                (parse_input-IsSound o d id now input ((validate-eq_nil_iff o input).0 c.valid)
                  c.parsed).0)
              c.wrote,
          Created-Steps c,
        )
      ]

      update-Good :
          (now : o.Time) (id : o.Uuid) (input : UpdateInput) → Good (update o repo now id input s).1
      unfolding update AllSound
      update-Good now id input = elim (Bool-cases (not (is_empty (validate_update o input)))) [
        | inl bad ↦ rw bad (Same-Good (λ j. refl))
        | inr good ↦
            rw good (elim (modify-Modified o rows repo law id (apply_update o now input) s) [
              | inl same ↦ Same-Good same
              | inr m ↦
                  let (sound, ev) =
                    apply_update-IsSound o d now input m.old
                      (IsValidUpdate_of_nil o input (is_empty_of _ good)) (h id m.old m.read)
                      m.changed in
                  (Wrote-AllSound h (stored-IsSound o d m.new sound) m.wrote, Modified-Steps m ev)
            ])
      ]

      change_status-Good :
          (now : o.Time) (id : o.Uuid) (target : Status)
          → Good (change_status o repo now id target s).1
      unfolding change_status AllSound
      change_status-Good now id target =
          elim (modify-Modified o rows repo law id (apply_status o now target) s) [
            | inl same ↦ Same-Good same
            | inr m ↦
                let (sound, ev, _) =
                  apply_status-IsSound o now target m.old (h id m.old m.read) m.changed in
                (Wrote-AllSound h (stored-IsSound o d m.new sound) m.wrote, Modified-Steps m ev)
          ]

      pub run_op-Good : (op : Op o) → Good (run_op o repo op s)
      unfolding run_op get list
      run_op-Good (create_op id now input) = create-Good id now input
      run_op-Good (update_op now id input) = update-Good now id input
      run_op-Good (status_op now id target) = change_status-Good now id target
      run_op-Good (get_op id) = Same-Good (law.get_same id s)
      run_op-Good (list_op f) = Same-Good (law.list_same (normalize f) s)
