-- ===== src/Line/Handling.antt =====
-- `Service.Handle` of internal/line/service.go, for any repository that keeps the three promises
-- written on the interface. They are stated on the reading that the database holds of each user.
use chuchu.Prelude.{
  ℕ, suc, ◌≡◌, refl, sym, ap, ◌∙◌, ◌⊎◌, inl, inr, String, List, [], ◌∷◌, ◌++◌, Option, none, some,
  ◌==◌, if◌then◌else◌,
}
use chuchu.Effect.{Result, ok, err, Exec, continue}
use chuchu.Outside.{Outside}
use chuchu.Line.{Event, User, Repository, user_of, handle}
use chuchu.Line.Readings.{
  Reading, join, join_assoc, join-none, reading_for, summary, summary_again, Reordered,
  summary-Reordered,
}

-- What a record says of the user `j`.
abbrev pub says : {o : Outside} → String → User o → Option Reading
says j u =
    if u.user_id == j
    then some (record { status = u.status; at = u.last_event_at_millis })
    else none

module _ (o : Outside) {S : Type 0} (view : S → String → Option Reading) where
  -- The two states hold the same readings.
  abbrev pub SameReadings : S → S → Type 0
  SameReadings s t = (j : String) → view t j ≡ view s j

  -- `t` holds what `s` held, joined with what the record says.
  abbrev pub Joined : User o → S → S → Type 0
  Joined u s t = (j : String) → view t j ≡ join (view s j) (says j u)

  -- The three promises, as far as readings go: a new user gets a record, an event as late as the record or later replaces
  -- it, an earlier one leaves it. An `Upsert` that returns an error may have written or not.
  pub record IsRepository (repo : Repository o S) : Type 0 where
    pub upsert_ok :
        (u : User o) (s : S) → (repo.upsert u s).0 ≡ ok tt → Joined u s (repo.upsert u s).1
    pub upsert_writes :
        (u : User o) (s : S) → SameReadings s (repo.upsert u s).1 ⊎ Joined u s (repo.upsert u s).1

  module _ (repo : Repository o S) (law : IsRepository repo) where
    -- A first part of the events has been taken in, and nothing else.
    pub record Took (es : List Event) (s t : S) : Type 0 where
      pub taken : List Event
      pub left : List Event
      pub splits : es ≡ taken ++ left
      pub holds : (j : String) → view t j ≡ join (view s j) (summary j taken)

    Took-nothing : (es : List Event) (s t : S) → SameReadings s t → Took es s t
    unfolding summary
    Took-nothing es s t same = record {
      taken = [];
      left = es;
      splits = refl;
      holds = λ j. same j ∙ sym (join-none (view s j));
    }

    Took-more :
        (e : Event) (now : o.Time) (es : List Event) (s u t : S)
        → Joined (user_of o e now) s u
        → Took es u t
        → Took (e ∷ es) s t
    unfolding summary user_of
    Took-more e now es s u t joined k = record {
      taken = e ∷ k.taken;
      left = k.left;
      splits = ap (λ r. e ∷ r) k.splits;
      holds = λ j.
          k.holds j
          ∙ ap (λ x. join x (summary j k.taken)) (joined j)
          ∙ join_assoc (view s j) (reading_for j e) (summary j k.taken);
    }

    after_upsert :
        (e : Event) (now : o.Time) (es : List Event) (s t : S) (rest : Exec S (Unit {0}))
        → ((u : S) → Took es u (rest u).1)
        → (r : Result (Unit {0})) → (r ≡ ok tt → Joined (user_of o e now) s t)
        → SameReadings s t ⊎ Joined (user_of o e now) s t
        → Took (e ∷ es) s (continue r (λ _. rest) t).1
    after_upsert e now es s t rest more (ok _) done w =
        Took-more e now es s t (rest t).1 (done refl) (more t)
    after_upsert e now es s t rest more (err x) done (inl same) = Took-nothing (e ∷ es) s t same
    after_upsert e now es s t rest more (err x) done (inr joined) =
        Took-more e now es s t t joined (Took-nothing es t t (λ j. refl))

    -- Whatever `Handle` returns, the database has taken in a first part of the batch.
    pub handle-Took :
        (clock : ℕ → o.Time) (es : List Event) (s : S) → Took es s (handle o repo clock es s).1
    unfolding handle
    handle-Took clock [] s = Took-nothing [] s s (λ j. refl)
    handle-Took clock (e ∷ es) s =
        let u = user_of o e (clock 0) in
        let later = λ (n : ℕ). clock (suc n) in
        after_upsert e (clock 0) es s (repo.upsert u s).1 (handle o repo later es)
          (λ t. handle-Took later es t) (repo.upsert u s).0 (law.upsert_ok u s)
          (law.upsert_writes u s)

    upserted_all :
        (e : Event) (now : o.Time) (es : List Event) (s t : S) (rest : Exec S (Unit {0}))
        → ((u : S)
            → (rest u).0 ≡ ok tt
            → (j : String) → view (rest u).1 j ≡ join (view u j) (summary j es))
        → (r : Result (Unit {0})) → (r ≡ ok tt → Joined (user_of o e now) s t)
        → (continue r (λ _. rest) t).0 ≡ ok tt
        → (j : String) → view (continue r (λ _. rest) t).1 j ≡ join (view s j) (summary j (e ∷ es))
    unfolding summary user_of
    upserted_all e now es s t rest more (ok _) done h j =
        more t h j
        ∙ ap (λ x. join x (summary j es)) (done refl j)
        ∙ join_assoc (view s j) (reading_for j e) (summary j es)
    upserted_all e now es s t rest more (err x) done h j = cc

    -- If `Handle` returns no error, the database has taken in the whole batch.
    pub handle_ok :
        (clock : ℕ → o.Time) (es : List Event) (s : S)
        → (handle o repo clock es s).0 ≡ ok tt
        → (j : String) → view (handle o repo clock es s).1 j ≡ join (view s j) (summary j es)
    unfolding handle summary
    handle_ok clock [] s h j = sym (join-none (view s j))
    handle_ok clock (e ∷ es) s h j =
        let u = user_of o e (clock 0) in
        let later = λ (n : ℕ). clock (suc n) in
        upserted_all e (clock 0) es s (repo.upsert u s).1 (handle o repo later es)
          (λ t. handle_ok later es t) (repo.upsert u s).0 (law.upsert_ok u s) h j

    -- LINE sends a batch again after an error. Once the second delivery succeeds, every user has the
    -- reading that a single successful delivery leaves.
    pub handle_again :
        (clock clock' : ℕ → o.Time) (es : List Event) (s : S)
        → let t = (handle o repo clock es s).1 in
          (handle o repo clock' es t).0 ≡ ok tt
          → (j : String)
          → view (handle o repo clock' es (handle o repo clock es s).1).1 j
            ≡ join (view s j) (summary j es)
    handle_again clock clock' es s h j =
        let t = (handle o repo clock es s).1 in
        let k = handle-Took clock es s in
        handle_ok clock' es t h j
        ∙ ap (λ x. join x (summary j es)) (k.holds j)
        ∙ ap (λ l. join (join (view s j) (summary j k.taken)) (summary j l)) k.splits
        ∙ summary_again j (view s j) k.taken k.left
        ∙ sym (ap (λ l. join (view s j) (summary j l)) k.splits)

    -- Two orders of arrival of the same events leave the same readings.
    pub handle-Reordered :
        (clock clock' : ℕ → o.Time) {es es' : List Event} (s : S)
        → Reordered es es'
        → (handle o repo clock es s).0 ≡ ok tt
        → (handle o repo clock' es' s).0 ≡ ok tt
        → (j : String) → view (handle o repo clock es s).1 j ≡ view (handle o repo clock' es' s).1 j
    handle-Reordered clock clock' {es} {es'} s r h h' j =
        handle_ok clock es s h j
        ∙ ap (join (view s j)) (summary-Reordered j r)
        ∙ sym (handle_ok clock' es' s h' j)
