-- ===== src/Scalar/Laws.antt =====
-- The order and uniqueness of a table's rows, and that exported rows can be restored
-- (src/python/hypervec_scalar_store.py).
use hyper_vector.Common.{
  ℕ, ◌+◌, ◌<◌, ◌≡◌, ◌≢◌, refl, ap, inl, inr, true, false, Option, none, some, List, [], ◌∷◌, ◌++◌,
  map, append-nil, append_assoc, arith, eq_iff, str_eq, length, length-map, All, Bool-cases,
  Option-cases, subst, ltb, sym, ◌∙◌,
}
use hyper_vector.Common.Result.{Result, ok}
use hyper_vector.Scalar.Defs.{
  Doc, Table, Tables, clashes, clashes_any, place, insert_row, insert_rows, count, next_after,
  NewRow, stamp, insert_batch, export_rows,
}
use hyper_vector.Scalar.Import.{restamp, import_rows_to_staging, commit_staging}

-- Row ids go up, and no two rows have one document id.
abbrev pub IsTable : Table → Type 0
IsTable [] = Unit
IsTable (a ∷ t) =
    All (λ b. (a.row_id < b.row_id) × (str_eq a.doc_id b.doc_id ≡ false)) t × IsTable t

clashes-free :
    (a : Doc) (t : Table)
    → clashes_any a t ≡ false
    → All (λ b. (a.row_id ≢ b.row_id) × (str_eq a.doc_id b.doc_id ≡ false)) t
unfolding clashes_any clashes
clashes-free a [] h = tt
clashes-free a (b ∷ t) h = (ground arith, clashes-free a t (ground arith))

All-both :
    {P Q R : Doc → Type 0} (t : Table) → ((x : Doc) → P x → Q x → R x) → All P t → All Q t → All R t
All-both [] f p q = tt
All-both (x ∷ t) f p q = (f x p.0 q.0, All-both t f p.1 q.1)

All-place : (P : Doc → Type 0) (a : Doc) (t : Table) → P a → All P t → All P (place a t)
unfolding place
All-place P a [] h hs = (h, tt)
All-place P a (b ∷ t) h hs = elim (Bool-cases (ltb a.row_id b.row_id)) [
  | inl e ↦ rw e (h, hs)
  | inr e ↦ rw e (hs.0, All-place P a t h hs.1)
]

place-IsTable :
    (a : Doc) (t : Table)
    → All (λ b. (a.row_id ≢ b.row_id) × (str_eq a.doc_id b.doc_id ≡ false)) t
    → IsTable t
    → IsTable (place a t)
unfolding place
place-IsTable a [] h v = (tt, tt)
place-IsTable a (b ∷ t) h v = elim (Bool-cases (ltb a.row_id b.row_id)) [
  | inl e ↦ rw e (((ground arith, h.0.1), All-both t (λ x p q. (ground arith, p.1)) h.1 v.0), v)
  | inr e ↦ rw e (
    All-place _ a t
        (ground arith, ground (arith, h.0, eq_iff a.doc_id b.doc_id, eq_iff b.doc_id a.doc_id)) v.0,
    place-IsTable a t h.1 v.1,
  )
]

insert_row-IsTable : (a : Doc) (t t' : Table) → insert_row a t ≡ some t' → IsTable t → IsTable t'
unfolding insert_row
insert_row-IsTable a t t' h v = elim (Bool-cases (clashes_any a t)) [
  | inl e ↦ absurd (ground arith)
  | inr e ↦ subst IsTable (ground arith) (place-IsTable a t (clashes-free a t e) v)
]

insert_rows-IsTable : (rows : List Doc) (t : Table) → IsTable t → IsTable (insert_rows rows t).0
unfolding insert_rows
insert_rows-IsTable [] t v = v
insert_rows-IsTable (a ∷ rows) t v = elim (Option-cases (insert_row a t)) [
  | inl e ↦ rw (e, insert_rows) v
  | inr (t', e) ↦ rw (e, insert_rows) (insert_rows-IsTable rows t' (insert_row-IsTable a t t' e v))
]

length-place : (a : Doc) (t : Table) → length (place a t) ≡ length t + 1
unfolding place
length-place a [] = refl
length-place a (b ∷ t) = ground (arith, length-place a t)

length-insert_row : (a : Doc) (t t' : Table) → insert_row a t ≡ some t' → length t' ≡ length t + 1
unfolding insert_row
length-insert_row a t t' h = ground (arith, length-place a t)

pub length-insert_rows :
    (rows : List Doc) (t : Table)
    → (insert_rows rows t).1 ≡ true
    → length (insert_rows rows t).0 ≡ length t + length rows
unfolding insert_rows
length-insert_rows [] t h = omega arith
length-insert_rows (a ∷ rows) t h = elim (Option-cases (insert_row a t)) [
  | inl e ↦ absurd (ground arith)
  | inr (t', e) ↦
      rw (e, insert_rows)
        (let h' : (insert_rows rows t').1 ≡ true = ground arith in
          omega (arith, length-insert_rows rows t' h', length-insert_row a t t' e))
]

-- A table, if there is one, is in order and has unique ids.
abbrev pub HasTable : Option Table → Type 0
HasTable none = Unit
HasTable (some t) = IsTable t

-- What a batch of `n` rows may do to the tables.
abbrev pub IsAtomic : ℕ → Tables → Result (Unit {0}) × Tables → Type 0
IsAtomic n s r =
    (r.0 ≡ ok tt → HasTable r.1.live × (count r.1 ≡ count s + n) × (r.1.staging ≡ s.staging))
    × (r.0 ≢ ok tt → r.1 ≡ s)

insert_batch_cases :
    (now : ℕ) (rows : List NewRow) (live staging : Option Table)
    → HasTable live
    → let s : Tables = record { live = live; staging = staging } in
      IsAtomic (length rows) s (insert_batch now rows s)
unfolding insert_batch count
insert_batch_cases now rows none staging v = (λ h. absurd (ground arith), λ h. refl)
insert_batch_cases now rows (some t) staging v =
    elim (Bool-cases (insert_rows (map (stamp now) rows) t).1) [
      | inl e ↦ rw e (
        λ _. (
          insert_rows-IsTable (map (stamp now) rows) t v,
          omega (arith, length-insert_rows (map (stamp now) rows) t e, length-map rows (stamp now)),
          refl,
        ),
        λ h. absurd (h refl),
      )
      | inr e ↦ rw e (λ h. absurd (ground arith), λ h. refl)
    ]

-- A batch goes in whole or not at all. After a success the table is in order with unique ids and has
-- as many rows more as the batch, and the staging table is as it was; after any error both tables
-- are as they were.
pub insert_batch-IsAtomic :
    (now : ℕ) (rows : List NewRow) (s : Tables)
    → HasTable s.live
    → IsAtomic (length rows) s (insert_batch now rows s)
insert_batch-IsAtomic now rows s v = insert_batch_cases now rows s.live s.staging v

-- `next_row_id` is above every row id in use.
next_after-above : (t : Table) → All (λ a. a.row_id < next_after t) t
unfolding next_after
next_after-above [] = tt
next_after-above (a ∷ t) =
    (omega arith, All-both t (λ x p q. omega arith) (next_after-above t) (next_after-above t))

-- Where every row of a table is below a row and shares no document id, the row goes to the end.
abbrev Above : Table → Doc → Type 0
Above t a = All (λ b. (b.row_id < a.row_id) × (str_eq b.doc_id a.doc_id ≡ false)) t

insert_row-Above : (a : Doc) (t : Table) → Above t a → insert_row a t ≡ some (t ++ a ∷ [])
unfolding insert_row clashes_any clashes place
insert_row-Above a [] h = refl
insert_row-Above a (b ∷ t) h =
    ground (arith, insert_row-Above a t h.1, eq_iff a.doc_id b.doc_id, eq_iff b.doc_id a.doc_id)

Above-split : (a : Doc) (rows t : Table) → IsTable (t ++ a ∷ rows) → Above t a
Above-split a rows [] v = tt
Above-split a rows (b ∷ t) v = (head t v.0, Above-split a rows t v.1)
  where
    head :
        (u : Table)
        → All (λ x. (b.row_id < x.row_id) × (str_eq b.doc_id x.doc_id ≡ false)) (u ++ a ∷ rows)
        → (b.row_id < a.row_id) × (str_eq b.doc_id a.doc_id ≡ false)
    head [] w = w.0
    head (x ∷ u) w = head u w.1

insert_rows-above : (rows t : Table) → IsTable (t ++ rows) → insert_rows rows t ≡ (t ++ rows, true)
unfolding insert_rows
insert_rows-above [] t v = rw append-nil
insert_rows-above (a ∷ rows) t v =
    rw (insert_row-Above a t (Above-split a rows t v), insert_rows)
      (insert_rows-above rows (t ++ a ∷ []) (subst IsTable (sym (append_assoc t (a ∷ []) rows)) v)
        ∙ ap (λ (u : Table). (u, true)) (append_assoc t (a ∷ []) rows))

-- Rows carry their times.
abbrev pub IsStamped : Doc → Type 0
IsStamped a = (a.created_at ≢ 0) × (a.updated_at ≢ 0)

map-restamp : (now : ℕ) (t : Table) → All IsStamped t → map (restamp now) t ≡ t
unfolding restamp
map-restamp now [] h = refl
map-restamp now (a ∷ t) h = ground (arith, map-restamp now t h.1)

-- The rows of a table, exported and staged elsewhere, are its table again once committed: export,
-- stage, commit is the identity on the rows, whatever tables the target had. The table is in order
-- with unique ids, and its rows carry their times.
pub export-stage-commit :
    (now : ℕ) (s target : Tables) (t : Table)
    → s.live ≡ some t
    → IsTable t
    → All IsStamped t
    → let staged = import_rows_to_staging now (export_rows s) target in
      (staged.0 ≡ ok (count s))
      × (staged.1.live ≡ target.live)
      × (commit_staging staged.1 ≡ (ok tt, record { live = some t; staging = none }))
unfolding import_rows_to_staging export_rows commit_staging count
export-stage-commit now s target t e v h =
    rw (e, map-restamp now t h, insert_rows-above t [] v) (refl, refl, refl)
