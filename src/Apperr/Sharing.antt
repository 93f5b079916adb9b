-- ===== src/Apperr/Sharing.antt =====
-- The methods `clone`, `WithError`, `WithMessage` and `WithDetails` of internal/apperr/apperr.go over
-- an explicit heap: a `*Error` is an index into the errors, and a non-nil `Details` is an index into
-- the backing arrays. Two errors share their details when they name one array.
use mathlib.Core.Option
use mathlib.Core.List.{append-nil, append_assoc}
use chuchu.Prelude.{
  ℕ, ◌≤◌, ◌<◌, ◌≡◌, refl, sym, ap, ◌∙◌, String, List, [], ◌∷◌, ◌++◌, Option, none, some, arith,
  length, get_elem?, set, get_elem?-append, get_elem?-concat, set-concat, length-append,
}
use chuchu.Apperr.{
  Code, FieldError, GoError, Cause, cause, Error, with_error, with_message, with_details,
}

pub record Cell : Type 0 where
  pub code : Code
  pub message : String
  pub details : Option ℕ
  pub err : Cause

pub record Heap : Type 0 where
  pub errors : List Cell
  pub arrays : List (List FieldError)

abbrev pub get_array : List (List FieldError) → Option ℕ → List FieldError
get_array arrays none = []
get_array arrays (some a) = Option.get_or (get_elem? arrays a) []

-- `append([]FieldError(nil), xs...)`: a new array, and nil for no elements
copy : List FieldError → Heap → Option ℕ × Heap
copy [] h = (none, h)
copy (x ∷ xs) h = (some (length h.arrays), record h { arrays = h.arrays ++ (x ∷ xs) ∷ [] })

alloc : Cell → Heap → ℕ × Heap
alloc c h = (length h.errors, record h { errors = h.errors ++ c ∷ [] })

-- the branch on `e.Details != nil`
clone_details : Option ℕ → Heap → Option ℕ × Heap
unfolding copy
clone_details none h = (none, h)
clone_details (some a) h = copy (get_array h.arrays (some a)) h

clone_cell : Cell → Heap → ℕ × Heap
unfolding clone_details alloc
clone_cell e h = let (d, h') = clone_details e.details h in alloc (record e { details = d }) h'

-- `none` is the fault of a pointer to no error.
pub clone : ℕ → Heap → Option (ℕ × Heap)
unfolding clone_cell
clone p h = Option.map (λ e. clone_cell e h) (get_elem? h.errors p)

-- An assignment through the pointer `q`.
store : (Cell → Cell) → ℕ → Heap → Heap
store f q h = record h {
  errors = elim (get_elem? h.errors q) [ none ↦ h.errors | some c ↦ set h.errors q (f c) ];
}

abbrev assign : (Cell → Cell) → ℕ × Heap → ℕ × Heap
assign f (q, h) = (q, store f q h)

pub with_error_at : GoError → ℕ → Heap → Option (ℕ × Heap)
unfolding clone store
with_error_at err p h = Option.map (assign (λ c. record c { err = cause err })) (clone p h)

pub with_message_at : String → ℕ → Heap → Option (ℕ × Heap)
unfolding clone store
with_message_at msg p h = Option.map (assign (λ c. record c { message = msg })) (clone p h)

assign_details : List FieldError → ℕ × Heap → ℕ × Heap
unfolding copy
assign_details details (q, h) =
    let (d, h') = copy details h in assign (λ c. record c { details = d }) (q, h')

pub with_details_at : List FieldError → ℕ → Heap → Option (ℕ × Heap)
unfolding clone store assign_details
with_details_at details p h = Option.map (assign_details details) (clone p h)

abbrev to_error : List (List FieldError) → Cell → Error
to_error arrays c = record {
  code = c.code;
  message = c.message;
  details = get_array arrays c.details;
  err = c.err;
}

-- The error that a pointer reads as.
abbrev pub value : Heap → ℕ → Option Error
value h p = Option.map (to_error h.arrays) (get_elem? h.errors p)

-- `xs` has been copied out of `h`: only arrays were added, and the copy is in none of the old ones.
record IsCopy (h : Heap) (xs : List FieldError) (r : Option ℕ × Heap) : Type 0 where
  added : List (List FieldError)
  grows : r.1 ≡ record h { arrays = h.arrays ++ added }
  unshared : (a : ℕ) → r.0 ≡ some a → length h.arrays ≤ a
  reads : get_array (h.arrays ++ added) r.0 ≡ xs

copy-IsCopy : (xs : List FieldError) (h : Heap) → IsCopy h xs (copy xs h)
unfolding copy
copy-IsCopy [] h = record { added = []; grows = rw append-nil; unshared = λ a e. cc; reads = refl }
copy-IsCopy (x ∷ xs) h = record {
  added = (x ∷ xs) ∷ [];
  grows = refl;
  unshared = λ a e. ground arith;
  reads = rw (get_elem?-concat h.arrays (x ∷ xs));
}

clone_details-IsCopy :
    (d : Option ℕ) (h : Heap) → IsCopy h (get_array h.arrays d) (clone_details d h)
unfolding clone_details
clone_details-IsCopy none h = copy-IsCopy [] h
clone_details-IsCopy (some a) h = copy-IsCopy (get_array h.arrays (some a)) h

-- `q` is a new error of `h'` derived by `f` from that at `p`: no error and no array of `h` has
-- changed, the new error shares no array with an old one, and it reads as `f` of the old one.
pub record IsDerived (h : Heap) (f : Error → Error) (p q : ℕ) (h' : Heap) : Type 0 where
  pub fresh : q ≡ length h.errors
  pub errors_kept : (i : ℕ) → i < length h.errors → get_elem? h'.errors i ≡ get_elem? h.errors i
  pub arrays_kept : (a : ℕ) → a < length h.arrays → get_elem? h'.arrays a ≡ get_elem? h.arrays a
  pub unshared :
      (c : Cell) (a : ℕ) → get_elem? h'.errors q ≡ some c → c.details ≡ some a → length h.arrays ≤ a
  pub reads : value h' q ≡ Option.map f (value h p)

-- The call succeeds, with a new error of that kind.
abbrev pub Derives : Heap → (Error → Error) → ℕ → Option (ℕ × Heap) → Type 0
Derives h f p r = (q : ℕ) × (h' : Heap) × (r ≡ some (q, h')) × IsDerived h f p q h'

grown : Heap → Cell → List (List FieldError) → Heap
grown h c added = record { errors = h.errors ++ c ∷ []; arrays = h.arrays ++ added }

clone_cell_lem :
    (e : Cell) (h : Heap) (added : List (List FieldError))
    → (clone_details e.details h).1 ≡ record h { arrays = h.arrays ++ added }
    → clone_cell e h
      ≡ (length h.errors, grown h (record e { details = (clone_details e.details h).0 }) added)
unfolding clone_cell grown
clone_cell_lem e h added grows = rw grows

store-grown :
    (f : Cell → Cell) (h : Heap) (c : Cell) (added : List (List FieldError))
    → store f (length h.errors) (grown h c added) ≡ grown h (f c) added
unfolding store grown
store-grown f h c added = rw (get_elem?-concat h.errors c, set-concat h.errors c (f c))

grown-IsDerived :
    (h : Heap) (f : Error → Error) (p : ℕ) (e c : Cell) (added : List (List FieldError))
    → get_elem? h.errors p ≡ some e
    → ((a : ℕ) → c.details ≡ some a → length h.arrays ≤ a)
    → to_error (h.arrays ++ added) c ≡ f (to_error h.arrays e)
    → IsDerived h f p (length h.errors) (grown h c added)
unfolding grown
grown-IsDerived h f p e c added at_p unshared reads = record {
  fresh = refl;
  errors_kept = λ i. get_elem?-append h.errors (c ∷ []) i;
  arrays_kept = λ a. get_elem?-append h.arrays added a;
  unshared = λ c' a at_q d. unshared a (cc (get_elem?-concat h.errors c));
  reads = rw (get_elem?-concat h.errors c, at_p) (ap some reads);
}

-- An assignment to a field other than `Details`, after `clone`.
module _ (g : Cell → Cell) (f : Error → Error)
    (details_kept : (c : Cell) → (g c).details ≡ c.details)
    (assigns : (arrays : List (List FieldError)) (c : Cell)
      → to_error arrays (g c) ≡ f (to_error arrays c)) where
  assign-IsDerived :
      (p : ℕ) (h : Heap) (e : Cell)
      → get_elem? h.errors p ≡ some e
      → let (q, h') = clone_cell e h in IsDerived h f p q (store g q h')
  assign-IsDerived p h e at_p =
      let k = clone_details-IsCopy e.details h in
      rw (clone_cell_lem e h k.added k.grows, store-grown)
        (grown-IsDerived h f p e _ k.added at_p (λ a d. k.unshared a (sym (details_kept _) ∙ d))
          (assigns _ _ ∙ ap (λ d. f (record (to_error h.arrays e) { details = d })) k.reads))

  assigned :
      (p : ℕ) (h : Heap) (e : Cell)
      → get_elem? h.errors p ≡ some e
      → Derives h f p (Option.map (assign g) (clone p h))
  unfolding clone
  assigned p h e at_p =
      let (q, h') = assign g (clone_cell e h) in (q, h', rw at_p, assign-IsDerived p h e at_p)

arrays-grown :
    (h : Heap) (c : Cell) (xs ys : List (List FieldError))
    → record (grown h c xs) { arrays = (grown h c xs).arrays ++ ys } ≡ grown h c (xs ++ ys)
unfolding grown
arrays-grown h c xs ys = rw append_assoc

IsCopy-grown :
    (h : Heap) (c : Cell) (old : List (List FieldError)) (xs : List FieldError)
    (r : Option ℕ × Heap) (m : IsCopy (grown h c old) xs r)
    → ((a : ℕ) → r.0 ≡ some a → length h.arrays ≤ a)
      × (get_array (h.arrays ++ (old ++ m.added)) r.0 ≡ xs)
unfolding grown
IsCopy-grown h c old xs r m =
    (λ a e. omega (arith, m.unshared a e, length-append h.arrays old), rw (← append_assoc) m.reads)

-- The backing array is allocated after that of the clone, and again is a new one.
details_assigned :
    (xs : List FieldError) (p : ℕ) (h : Heap) (e : Cell)
    → get_elem? h.errors p ≡ some e
    → let (q, h') = assign_details xs (clone_cell e h) in IsDerived h (with_details xs) p q h'
unfolding assign_details
details_assigned xs p h e at_p =
    let k = clone_details-IsCopy e.details h in
    let c : Cell = record e { details = (clone_details e.details h).0 } in
    let m = copy-IsCopy xs (grown h c k.added) in
    let (fresh, reads) = IsCopy-grown h c k.added xs _ m in
    rw (clone_cell_lem e h k.added k.grows, m.grows, arrays-grown h c k.added m.added, store-grown)
      (grown-IsDerived h (with_details xs) p e _ (k.added ++ m.added) at_p fresh
        (ap (λ d. record (to_error h.arrays e) { details = d }) reads))

-- At any pointer to an error `WithError`, `WithMessage` and `WithDetails` return a new error, which
-- reads as the old one with the one field replaced. They change no error and no details array that
-- was there before, and the new error shares no details array with an old one.
pub with_Derives :
    (err : GoError) (msg : String) (xs : List FieldError) (p : ℕ) (h : Heap) {e : Cell}
    → get_elem? h.errors p ≡ some e
    → Derives h (with_error err) p (with_error_at err p h)
      × Derives h (with_message msg) p (with_message_at msg p h)
      × Derives h (with_details xs) p (with_details_at xs p h)
unfolding with_error_at with_message_at with_details_at clone
with_Derives err msg xs p h {e} at_p =
    let (q, h') = assign_details xs (clone_cell e h) in
    (
      assigned (λ c. record c { err = cause err }) (with_error err) (λ c. refl) (λ a c. refl) p h e
          at_p,
      assigned (λ c. record c { message = msg }) (with_message msg) (λ c. refl) (λ a c. refl) p h e
          at_p,
      (q, h', rw at_p, details_assigned xs p h e at_p),
    )
