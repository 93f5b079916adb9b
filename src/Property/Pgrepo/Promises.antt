-- ===== src/Property/Pgrepo/Promises.antt =====
-- What the calls of internal/property/pgrepo/pgrepo.go return, on a database that answers as Postgres
-- documents it.
use mathlib.Core.Option
use mathlib.Core.Path.{subst}
use chuchu.Prelude.{
  get_elem?, ◌≡◌, ◌≢◌, ◌↔◌, refl, sym, ap, ◌∙◌, ℕ, zero, suc, pos, ◌*◌, ◌<◌, ◌≤◌, wrap64, ◌-ℤ◌,
  ◌*ℤ◌, Bool, true, Bool-cases, ◌&&◌, ◌==◌, Option, none, some, some_injective, inl, inr, List, map,
  length, filter, take, drop, IsIn, IsIn-map, get_elem?-map_inv, ℤ, map-take, map-drop, length-map,
  map-filter, arith,
}
use chuchu.Apperr.{GoError, no_rows, errors_is, as_error}
use chuchu.Effect.{Result, ok, err, map_err}
use chuchu.Outside.{Outside}
use chuchu.Property.{Property}
use chuchu.Property.Input.{ListFilter, ListResult}
use chuchu.Property.Service.Overlap.Kept.{address}
use chuchu.Property.Service.Contract.{IsRepository}
use chuchu.Property.Service.Promises.{agrees, matches, Terms, KeepsPromises}
use chuchu.Property.Pgrepo.{
  PropertyModel, PageQuery, Db, to_model, to_domain, as_pg_error, is_unique_violation,
  duplicate_error, not_found_error, translate_insert, translate_select, check_affected, page_query,
  create, get_by_id, update, list, repository,
}
use chuchu.Property.Pgrepo.Refines.{IsDb, rows, repository-IsRepository}
use chuchu.Property.Pgrepo.Indexes.{columns}

-- The conditions of `WHERE`
abbrev pub where_matches : {o : Outside} → PageQuery → PropertyModel o → Bool
where_matches q m =
    agrees q.where_status m.status
    && agrees q.where_rental_mode m.rental_mode
    && agrees q.where_city m.city

module _ (o : Outside) {S : Type 0} (table : S → o.Uuid → Option (PropertyModel o)) where
  -- What is documented of the statements. Where a query is carried out (`answers`), it finds the row of the
  -- id or says that there is none, and a page is the rows that match, in the order of the query (`sorted`),
  -- from the offset up to the limit, with the number of all that match. Where a statement is carried out as
  -- far as the keys (`takes`: the connection holds, and no constraint on the values of the row refuses
  -- it), an `INSERT` fails by a violated unique key if a row has its columns, and adds the row if none has
  -- them and its id is new; an `UPDATE` changes the row of the id, if there is one and no other row has its columns.
  pub record IsServing (db : Db o S) : Type 1 where
    pub takes : PropertyModel o → S → Type 0
    pub answers : S → Type 0
    pub sorted : S → List (PropertyModel o)
    pub sorted_rows : (m : PropertyModel o) (s : S) → IsIn m (sorted s) ↔ (table s m.id ≡ some m)
    pub sorted_once :
        (m n : PropertyModel o) (i j : ℕ) (s : S)
        → get_elem? (sorted s) i ≡ some m
        → get_elem? (sorted s) j ≡ some n
        → m.id ≡ n.id
        → i ≡ j
    pub insert_adds :
        (m : PropertyModel o) (s : S)
        → takes m s
        → table s m.id ≡ none
        → ((j : o.Uuid) (n : PropertyModel o) → table s j ≡ some n → columns n ≢ columns m)
        → (db.insert m s).0 ≡ ok tt
    pub insert_violates :
        (m n : PropertyModel o) (j : o.Uuid) (s : S)
        → takes m s
        → table s j ≡ some n
        → columns n ≡ columns m
        → (e : GoError) × ((db.insert m s).0 ≡ err e) × (is_unique_violation (as_pg_error e) ≡ true)
    pub select_finds :
        (j : o.Uuid) (m : PropertyModel o) (s : S)
        → answers s
        → table s j ≡ some m
        → (db.select_by_id j s).0 ≡ ok m
    pub select_misses :
        (j : o.Uuid) (s : S) → answers s → table s j ≡ none → (db.select_by_id j s).0 ≡ err no_rows
    pub update_changes :
        (m old : PropertyModel o) (s : S)
        → takes m s
        → table s m.id ≡ some old
        → ((j : o.Uuid) (n : PropertyModel o)
            → table s j ≡ some n
            → j ≢ m.id
            → columns n ≢ columns m)
        → (db.update_by_pk m s).0 ≡ ok (ok (pos 1))
    pub update_misses :
        (m : PropertyModel o) (s : S)
        → takes m s
        → table s m.id ≡ none
        → (db.update_by_pk m s).0 ≡ ok (ok (pos 0))
    pub page_shows :
        (q : PageQuery) (n k : ℕ) (s : S)
        → answers s
        → q.limit ≡ pos (suc k)
        → q.offset ≡ pos n
        → let matching = filter (where_matches q) (sorted s) in
          (db.select_page q s).0 ≡ ok (take (suc k) (drop n matching), pos (length matching))

  -- The property of a row, and the row of a property
  row_of :
      (s : S) (j : o.Uuid) (p : Property o)
      → rows o table s j ≡ some p
      → (m : PropertyModel o) × (table s j ≡ some m) × (to_domain o m ≡ p)
  unfolding rows
  row_of s j p h = go (table s j) refl h
    where
      go :
          (r : Option (PropertyModel o))
          → table s j ≡ r
          → Option.map (to_domain o) r ≡ some p
          → (m : PropertyModel o) × (table s j ≡ some m) × (to_domain o m ≡ p)
      go none e h = cc h
      go (some m) e h = (m, e, some_injective h)

  no_row : (s : S) (j : o.Uuid) → rows o table s j ≡ none → table s j ≡ none
  unfolding rows
  no_row s j h = go (table s j) refl h
    where
      go :
          (r : Option (PropertyModel o))
          → table s j ≡ r
          → Option.map (to_domain o) r ≡ none
          → table s j ≡ none
      go none e h = e
      go (some m) e h = cc h

  domain_row :
      (s : S) (j : o.Uuid) (m : PropertyModel o)
      → table s j ≡ some m
      → rows o table s j ≡ some (to_domain o m)
  unfolding rows
  domain_row s j m h = rw h refl

-- A page of the filter is not out of range.
wrap64-small : (n : ℕ) → n < 0x8000000000000000 → wrap64 (pos n) ≡ pos n
wrap64-small n h = ground arith

le_mul : (n k : ℕ) → n ≤ n * suc k
le_mul zero k = omega arith
le_mul (suc n) k = omega (arith, le_mul n k)

le-mul_suc : (n k : ℕ) → n * suc k < 0x8000000000000000 → n < 0x8000000000000000
le-mul_suc n k h = omega (arith, le_mul n k)

page_offset :
    (f : ListFilter) (n k : ℕ)
    → f.page ≡ pos (suc n)
    → f.page_size ≡ pos (suc k)
    → n * suc k < 0x8000000000000000
    → (page_query f).offset ≡ pos (n * suc k)
unfolding page_query
page_offset f n k page size h =
    let before : f.page -ℤ pos 1 ≡ pos n = ap (λ p. p -ℤ pos 1) page ∙ ground arith in
    let product : pos n *ℤ f.page_size ≡ pos (n * suc k) =
      ap (λ s. pos n *ℤ s) size ∙ ground arith in
    ap (λ z. wrap64 (wrap64 z *ℤ f.page_size)) before
    ∙ ap (λ z. wrap64 (z *ℤ f.page_size)) (wrap64-small n (le-mul_suc n k h))
    ∙ ap wrap64 product
    ∙ wrap64-small (n * suc k) h

limit_is : (f : ListFilter) (k : ℕ) → f.page_size ≡ pos (suc k) → (page_query f).limit ≡ pos (suc k)
unfolding page_query
limit_is f k h = h

abbrev page_of : (o : Outside) → List (Property o) → ℤ → Result (ListResult o)
page_of o items total = ok (record { items = items; total = total })

where-matches :
    {o : Outside} (f : ListFilter) (m : PropertyModel o)
    → where_matches (page_query f) m ≡ matches f (to_domain o m)
unfolding page_query to_domain
where-matches f m = elim (Bool-cases (f.city == "")) [
  | inl all ↦ rw all refl
  | inr given ↦ rw given refl
]

module _ (o : Outside) {S : Type 0} (table : S → o.Uuid → Option (PropertyModel o)) (db : Db o S)
    (law : IsServing o table db) where
  -- The terms of the database, as the interface sees them
  abbrev pub terms : Terms o S
  terms = record {
    takes = λ p. law.takes (to_model o p);
    answers = law.answers;
    ordered = λ s. map (to_domain o) (law.sorted s);
  }

  other_columns :
      (p : Property o) (s : S) (j : o.Uuid) (n : PropertyModel o)
      → ((q : Property o) → rows o table s j ≡ some q → address q ≢ address p)
      → table s j ≡ some n
      → columns n ≢ columns (to_model o p)
  unfolding to_domain to_model
  other_columns p s j n new held = new (to_domain o n) (domain_row o table s j n held)

  listed :
      (f : ListFilter) (n k : ℕ) (s : S)
      → law.answers s
      → f.page ≡ pos (suc n)
      → f.page_size ≡ pos (suc k)
      → n * suc k < 0x8000000000000000
      → let matching = filter (matches f) (map (to_domain o) (law.sorted s)) in
        (list o db f s).0
        ≡ ok (record {
          items = take (suc k) (drop (n * suc k) matching);
          total = pos (length matching);
        })
  unfolding list
  listed f n k s up page size small =
      let shown =
        law.page_shows (page_query f) (n * suc k) k s up (limit_is f k size)
          (page_offset f n k page size small) in
      let matching = filter (where_matches (page_query f)) (law.sorted s) in
      let kept =
        map-filter (to_domain o) (where_matches (page_query f)) (matches f) (law.sorted s)
          (where-matches f) in
      let all = filter (matches f) (map (to_domain o) (law.sorted s)) in
      let cut = map-take (to_domain o) (suc k) (drop (n * suc k) matching) in
      let skipped = map-drop (to_domain o) (n * suc k) matching in
      let items = cut ∙ ap (take (suc k)) (skipped ∙ ap (drop (n * suc k)) kept) in
      let total = sym (length-map (to_domain o) matching) ∙ ap length kept in
      rw shown (
        ap (λ xs. page_of o xs (pos (length matching))) items
        ∙ ap (λ z. page_of o (take (suc k) (drop (n * suc k) all)) (pos z)) total)

  held_iff :
      (p : Property o) (s : S)
      → IsIn p (map (to_domain o) (law.sorted s)) ↔ (rows o table s p.id ≡ some p)
  unfolding to_domain
  held_iff p s = (
    λ held.
        let (i, there) = held in
        let (m, here, is_p) = get_elem?-map_inv (to_domain o) (law.sorted s) i there in
        subst (λ (x : Property o). rows o table s x.id ≡ some x) is_p
          (domain_row o table s m.id m ((law.sorted_rows m s).0 (i, here))),
    λ held.
        let (m, here, is_p) = row_of o table s p.id p held in
        let same_id : p.id ≡ m.id = ap (λ (x : Property o). x.id) (sym is_p) in
        subst (λ (x : Property o). IsIn x (map (to_domain o) (law.sorted s))) is_p
          (IsIn-map (to_domain o) (law.sorted s)
            ((law.sorted_rows m s).1 (ap (table s) (sym same_id) ∙ here))),
  )

  pub repository-KeepsPromises : KeepsPromises o (rows o table) terms (repository o db)
  unfolding create get_by_id update to_model to_domain translate_insert translate_select errors_is
      as_error check_affected
  repository-KeepsPromises = record {
    create_adds = λ p s up fresh new. ap (map_err translate_insert) (
        law.insert_adds (to_model o p) s up (no_row o table s p.id fresh)
          λ j n. other_columns p s j n (new j));
    create_duplicate = λ p q j s up held same.
        let (n, here, is_q) = row_of o table s j q held in
        let (e, failed, violated) =
          law.insert_violates (to_model o p) n j s up here (ap address is_q ∙ same) in
        (duplicate_error, (_, rw (failed, violated) refl, refl, refl));
    get_found = λ j p s up held.
        let (m, here, is_p) = row_of o table s j p held in
        rw (law.select_finds j m s up here) (ap ok is_p);
    get_missing = λ j s up none_there. (
      not_found_error,
      (_, rw (law.select_misses j s up (no_row o table s j none_there)) refl, refl, refl),
    );
    update_stores = λ p old s up held new.
        let (m, here, _) = row_of o table s p.id old held in
        rw
          (law.update_changes (to_model o p) m s up here
            λ j n there ne. other_columns p s j n (λ q e. new j q e ne) there)
          refl;
    update_missing = λ p s up none_there. (
      not_found_error,
      (
        _,
        rw (law.update_misses (to_model o p) s up (no_row o table s p.id none_there)) refl,
        refl,
        refl,
      ),
    );
    lists_all = held_iff;
    lists_once = λ p q i j s h k same.
        let (m, here, is_p) = get_elem?-map_inv (to_domain o) (law.sorted s) i h in
        let (n, there, is_q) = get_elem?-map_inv (to_domain o) (law.sorted s) j k in
        law.sorted_once m n i j s here there
          (ap (λ (x : Property o). x.id) is_p ∙ same ∙ sym (ap (λ (x : Property o). x.id) is_q));
    list_page = listed;
  }

-- The repository of pgrepo keeps the promises of the interface, on a database that does what is documented
-- of it. Of its writes: `Create` adds the one property and `Update` replaces the one under its id, as the
-- columns keep them, and an error leaves at most that. Of what it returns, where the database carries the
-- statement out: a creation reports a duplicate for an address that is taken, and no error for a new address
-- and id; an update and a reading report a missing property, a reading returns one that is there, and an
-- update of it is no error if no other has its address; a list, of a page and a size from 1 on whose
-- offset fits 64 bits, is the page, in the order of the query, of those that match all filters, with the
-- number of all that match.
pub repository-Refines :
    (o : Outside) {S : Type 0} (table : S → o.Uuid → Option (PropertyModel o)) (db : Db o S)
    → IsDb o table db
    → (law : IsServing o table db)
    → IsRepository o (rows o table) (repository o db)
      × KeepsPromises o (rows o table) (terms o table db law) (repository o db)
repository-Refines o table db writes law =
    (repository-IsRepository o table db writes, repository-KeepsPromises o table db law)
