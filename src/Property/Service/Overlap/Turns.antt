-- ===== src/Property/Service/Overlap/Turns.antt =====
-- One goroutine of internal/property that runs to its next call of the repository, and what its turn
-- keeps.
use chuchu.Prelude.{◌≡◌, refl, ap, sym, ◌∙◌, inl, inr, not, Bool-cases, Option, some, is_empty}
use chuchu.Effect.{Result, ok, err, continue, pure, ◌>>◌}
use chuchu.Outside.{Outside, DecimalLaws}
use chuchu.Property.{Property}
use chuchu.Property.Input.{validate_update, normalize, CreateInput}
use chuchu.Property.Validation.Update.{IsValidUpdate, IsValidUpdate_of_nil}
use chuchu.Property.Service.{Repository, create, get, list, apply_update, apply_status}
use chuchu.Property.Service.Contract.{Same, IsRepository, state-pure}
use chuchu.Property.Service.Keeps.{
  IsSound, identity, Evolves, stored-identity, stored-IsSound, apply_update-IsSound,
  apply_status-IsSound,
}
use chuchu.Property.Service.Runs.{
  Created, create-Created, create_op, update_op, status_op, get_op, list_op, run_op, AllSound,
  run_op-Good, is_empty_of, Wrote-AllSound, Same-AllSound,
}
use chuchu.Property.Service.Overlap.{
  Change, update_change, status_change, Request, calling, holding, finished, apply, after_read,
  finish, advance,
}
use chuchu.Property.Service.Overlap.Kept.{
  IsAddressed, IsUnique, Keeps, Same-Keeps, Steps-Keeps, Same-Traces, Traces-IsAddressed,
  over-Keeps, over-Traces, fresh-IsAddressed,
}

module _ (o : Outside) {S : Type 0} (rows : S → o.Uuid → Option (Property o)) where
  -- A change that has passed its validation.
  abbrev pub IsChecked : Change o → Type 0
  IsChecked (update_change now input) = IsValidUpdate o input
  IsChecked (status_change now target) = Unit

  -- The property was read, and stands there still, if with other fields.
  pub record IsHeld (c : Change o) (p : Property o) (s : S) : Type 0 where
    sound : IsSound o p
    checked : IsChecked c
    current : (q : Property o) × (rows s p.id ≡ some q) × (identity o q ≡ identity o p)

  abbrev pub IsReady : S → Request o → Type 0
  IsReady s (calling op) = Unit
  IsReady s (holding c p) = IsHeld c p s
  IsReady s finished = Unit

  pub IsReady-Keeps : {s t : S} (q : Request o) → Keeps o rows s t → IsReady s q → IsReady t q
  IsReady-Keeps (calling op) k h = tt
  IsReady-Keeps finished k h = tt
  IsReady-Keeps (holding c p) k h =
      let (q, e, same) = h.current in
      let (r, e', same') = k.kept p.id q e in
      record { sound = h.sound; checked = h.checked; current = (r, e', same' ∙ same) }

  -- What holds between two calls of the repository.
  pub record IsKept (s t : S) : Type 0 where
    pub sound : AllSound o rows t
    pub addressed : IsAddressed o rows t
    pub keeps : Keeps o rows s t

  module _ (d : DecimalLaws o) (repo : Repository o S) (law : IsRepository o rows repo)
      (unique : IsUnique o rows repo) where
    apply-Evolves :
        (c : Change o) (p : Property o) {q : Property o}
        → IsChecked c
        → IsSound o p
        → apply o c p ≡ ok q
        → IsSound o q × Evolves o p q
    apply-Evolves (update_change now input) p v sound h =
        apply_update-IsSound o d now input p v sound h
    apply-Evolves (status_change now target) p v sound h =
        let (sound', ev, _) = apply_status-IsSound o now target p sound h in (sound', ev)

    module _ (s : S) (h : AllSound o rows s) (a : IsAddressed o rows s) where
      Same-IsKept : {t : S} → Same o rows s t → IsKept s t
      Same-IsKept same = record {
        sound = Same-AllSound o rows d repo law h same;
        addressed = Traces-IsAddressed o rows (Same-Traces o rows same) a;
        keeps = Same-Keeps o rows same;
      }

      written-IsKept :
          (c : Change o) (p : Property o) (r : Result (Property o))
          → IsHeld c p s
          → apply o c p ≡ r
          → IsKept s (continue r (λ q. repo.update q >> pure q) s).1
      written-IsKept c p (err e) held f = Same-IsKept (λ j. refl)
      written-IsKept c p (ok q) held f =
          let (sound, ev) = apply-Evolves c p held.checked held.sound f in
          let (x, e, same) = held.current in
          let fitted = law.fitted s p.id x e in
          let same_id : q.id ≡ p.id = ap (λ x. x.0) ev.identity_kept in
          let here : rows s q.id ≡ some x = ap (rows s) same_id ∙ e in
          let kept = stored-identity o x q fitted (ev.identity_kept ∙ sym same) in
          rw (state-pure o rows repo law (repo.update q s).0 q (repo.update q s).1)
            (elim (law.update_writes q s) [
              | inl none_written ↦ Same-IsKept none_written
              | inr w ↦ record {
                sound = Wrote-AllSound o rows d repo law h (stored-IsSound o d q sound) w;
                addressed = Traces-IsAddressed o rows (over-Traces o rows here kept w) a;
                keeps = over-Keeps o rows here kept w;
              }
            ])

      finish-IsKept :
          (c : Change o) (p : Property o) → IsHeld c p s → IsKept s (finish o repo c p s).1
      finish-IsKept (update_change now input) p held =
          written-IsKept (update_change now input) p (apply_update o now input p) held refl
      finish-IsKept (status_change now target) p held =
          written-IsKept (status_change now target) p (apply_status o now target p) held refl

      create_lem :
          {id : o.Uuid} {now : o.Time} {input : CreateInput} {t : S}
          (c : Created o rows d repo law id now input s t)
          → (create o repo id now input s).1 ≡ (repo.create c.new s).1
      unfolding create
      create_lem c =
          rw (c.valid, c.parsed)
            (state-pure o rows repo law (repo.create c.new s).0 c.new (repo.create c.new s).1)

      create-IsKept :
          (id : o.Uuid) (now : o.Time) (input : CreateInput)
          → IsKept s (create o repo id now input s).1
      unfolding run_op
      create-IsKept id now input =
          let (sound, steps) = run_op-Good o rows d repo law s h (create_op id now input) in
          record {
            sound = sound;
            addressed = elim (create-Created o rows d repo law id now input s) [
              | inl same ↦ Traces-IsAddressed o rows (Same-Traces o rows same) a
              | inr c ↦
                  fresh-IsAddressed o rows c.wrote
                    (λ j q e taken.
                      let same = unique.refuses c.new q j s e taken c.new.id in
                      let held = ap (λ t. rows t c.new.id) (sym (create_lem c)) ∙ c.wrote.written in
                      cc (held, same, c.fresh))
                    a
            ];
            keeps = Steps-Keeps o rows steps;
          }

      read-IsKept :
          (c : Change o) (id : o.Uuid) (r : Result (Property o)) (t : S)
          → IsChecked c
          → ((p : Property o) → r ≡ ok p → rows s id ≡ some p)
          → Same o rows s t
          → let (q', u) = after_read o repo c (r, t) in IsKept s u × IsReady u q'
      unfolding AllSound
      read-IsKept c id (err e) t v reads same = (Same-IsKept same, tt)
      read-IsKept c id (ok p) t v reads same =
          let e = reads p refl in
          let same_id = law.keyed s id p e in
          (
            Same-IsKept same,
            record {
              sound = h id p e;
              checked = v;
              current = (p, same p.id ∙ ap (rows s) same_id ∙ e, refl);
            },
          )

      -- A goroutine that runs to its next call keeps all this, and is ready for it.
      pub advance-IsKept :
          (q : Request o)
          → IsReady s q
          → let (q', t) = advance o repo q s in IsKept s t × IsReady t q'
      unfolding advance run_op get list
      advance-IsKept (calling (create_op id now input)) ready = (create-IsKept id now input, tt)
      advance-IsKept (calling (get_op id)) ready = (Same-IsKept (law.get_same id s), tt)
      advance-IsKept (calling (list_op f)) ready = (Same-IsKept (law.list_same (normalize f) s), tt)
      advance-IsKept (calling (status_op now id target)) ready =
          read-IsKept (status_change now target) id (repo.get_by_id id s).0 (repo.get_by_id id s).1
            tt (law.get_reads id s) (law.get_same id s)
      advance-IsKept (calling (update_op now id input)) ready =
          elim (Bool-cases (not (is_empty (validate_update o input)))) [
            | inl bad ↦ rw bad (Same-IsKept (λ j. refl), tt)
            | inr good ↦
                let v = IsValidUpdate_of_nil o input (is_empty_of _ good) in
                rw good (
                  read-IsKept (update_change now input) id (repo.get_by_id id s).0
                    (repo.get_by_id id s).1 v (law.get_reads id s) (law.get_same id s))
          ]
      advance-IsKept (holding c p) ready = (finish-IsKept c p ready, tt)
      advance-IsKept finished ready = (Same-IsKept (λ j. refl), tt)
