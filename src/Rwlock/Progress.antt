-- ===== src/Rwlock/Progress.antt =====
-- Progress of the lock (src/python/rwlock.py).
use hyper_vector.Common.{
  ℕ, zero, suc, ◌+◌, ◌<◌, ◌≡◌, refl, sym, ap, ◌∙◌, ◌⊎◌, inl, inr, false≢true, Bool, true, false,
  List, [], ◌∷◌, some, arith, get_elem?, set, count, to_ℕ, count-pos,
}
use hyper_vector.Rwlock.Defs.{
  Pc, idle, read_test, read_asleep, reading, write_test, write_asleep, writing, System, Step,
  test_read, test_write, Reach, start, acquire_read, acquire_write, apply, read_blocked,
  write_blocked,
}
use hyper_vector.Rwlock.Safety.{Reach-Inv, Reach-Awake, start-Inv, start-Awake}
use hyper_vector.Rwlock.Safety.Counts.{
  Inv, Awake, reads, writes, queues, sleeps_to_read, sleeps_to_write,
}

-- A thread that passes a test, where there is one.
record Found (p : Pc → Bool) (xs : List Pc) : Type 0 where
  place : ℕ
  pc : Pc
  there : get_elem? xs place ≡ some pc
  passes : p pc ≡ true

find_in :
    (p : Pc → Bool) (x : Pc) (xs : List Pc) (b : Bool)
    → p x ≡ b
    → (0 < count p xs → Found p xs)
    → 0 < to_ℕ b + count p xs
    → Found p (x ∷ xs)
find_in p x xs true e rest h = record { place = 0; pc = x; there = refl; passes = e }
find_in p x xs false e rest h =
    let f = rest (omega (arith, h)) in
    record { place = suc f.place; pc = f.pc; there = f.there; passes = f.passes }

find : (p : Pc → Bool) (xs : List Pc) → 0 < count p xs → Found p xs
find p [] h = absurd (omega arith)
find p (x ∷ xs) h = find_in p x xs (p x) refl (find p xs) h

set_there :
    (xs : List Pc) (i : ℕ) {x : Pc} (y : Pc)
    → get_elem? xs i ≡ some x
    → get_elem? (set xs i y) i ≡ some y
set_there [] i y h = absurd (ground arith)
set_there (x ∷ xs) zero y h = refl
set_there (x ∷ xs) (suc i) y h = set_there xs i y h

-- A thread that holds the lock.
abbrev pub Holds : System → ℕ → Type 0
Holds s j = (get_elem? s.threads j ≡ some reading) ⊎ (get_elem? s.threads j ≡ some writing)

-- A thread inside a call that acquires the lock.
abbrev pub waits : Pc → Bool
waits read_test = true
waits read_asleep = true
waits write_test = true
waits write_asleep = true
waits _ = false

abbrev pub Proceeds : System → Type 0
Proceeds s = ((j : ℕ) × Holds s j) ⊎ ((j : ℕ) × (u : System) × Step s u × Holds u j)

reader_enters :
    (s : System) (j : ℕ)
    → get_elem? s.threads j ≡ some read_test
    → read_blocked s.lock ≡ false
    → Proceeds s
unfolding acquire_read apply
reader_enters s j at free = inr (
  j,
  apply s j (acquire_read s.lock),
  test_read j at refl,
  inl (rw free (set_there s.threads j reading at)),
)

writer_enters :
    (s : System) (j : ℕ)
    → get_elem? s.threads j ≡ some write_test
    → write_blocked s.lock ≡ false
    → Proceeds s
unfolding acquire_write apply
writer_enters s j at free = inr (
  j,
  apply s j (acquire_write s.lock),
  test_write j at refl,
  inr (rw free (set_there s.threads j writing at)),
)

writes-eq : (x : Pc) → writes x ≡ true → x ≡ writing
writes-eq x h = ground arith

reads-eq : (x : Pc) → reads x ≡ true → x ≡ reading
reads-eq x h = ground arith

queues-cases : (x : Pc) → queues x ≡ true → (x ≡ write_test) ⊎ (x ≡ write_asleep)
queues-cases x h = ground arith

module _ (s : System) (v : Inv s) (w : Awake s) where
  held_by_writer : s.lock.writer_active ≡ true → Proceeds s
  held_by_writer e =
      let f = find writes s.threads (ground (arith, v, e)) in
      inl (f.place, inr (f.there ∙ ap some (writes-eq f.pc f.passes)))

  held_by_reader : 0 < s.lock.readers → Proceeds s
  held_by_reader h =
      let f = find reads s.threads (ground (arith, v, h)) in
      inl (f.place, inl (f.there ∙ ap some (reads-eq f.pc f.passes)))

  -- Nobody holds the lock, and a writer waits.
  writer_next : write_blocked s.lock ≡ false → 0 < s.lock.writers_waiting → Proceeds s
  writer_next free h =
      let f = find queues s.threads (ground (arith, v, h)) in
      elim (queues-cases f.pc f.passes) [
        | inl e ↦ writer_enters s f.place (f.there ∙ ap some e) free
        | inr e ↦ absurd (
            false≢true (
              sym free
              ∙ w.write (
                  ground
                    (arith, count-pos sleeps_to_write s.threads f.place (f.there ∙ ap some e)))))
      ]

  -- Nobody holds the lock, and no writer waits.
  reader_next :
      (i : ℕ) (x : Pc)
      → get_elem? s.threads i ≡ some x
      → waits x ≡ true
      → read_blocked s.lock ≡ false
      → s.lock.writers_waiting ≡ 0
      → Proceeds s
  reader_next i read_test at h free none_waits = reader_enters s i at free
  reader_next i read_asleep at h free none_waits =
      absurd
        (false≢true (sym free ∙ w.read (ground (arith, count-pos sleeps_to_read s.threads i at))))
  reader_next i write_test at h free none_waits =
      absurd (ground (arith, v, count-pos queues s.threads i at))
  reader_next i write_asleep at h free none_waits =
      absurd (ground (arith, v, count-pos queues s.threads i at))
  reader_next i idle at h free none_waits = absurd (false≢true h)
  reader_next i reading at h free none_waits = absurd (false≢true h)
  reader_next i writing at h free none_waits = absurd (false≢true h)

  proceeds : (i : ℕ) (x : Pc) → get_elem? s.threads i ≡ some x → waits x ≡ true → Proceeds s
  unfolding read_blocked write_blocked
  proceeds i x at h =
      by_fields s.lock.writer_active s.lock.readers s.lock.writers_waiting refl refl refl
    where
      by_fields :
          (a : Bool) (r q : ℕ)
          → s.lock.writer_active ≡ a
          → s.lock.readers ≡ r
          → s.lock.writers_waiting ≡ q
          → Proceeds s
      by_fields true r q ea er eq = held_by_writer ea
      by_fields false (suc r) q ea er eq = held_by_reader (omega (arith, er))
      by_fields false zero (suc q) ea er eq =
          writer_next (ground (arith, ea, er)) (omega (arith, eq))
      by_fields false zero zero ea er eq = reader_next i x at h (ground (arith, ea, eq)) eq

-- From a new lock, as long as no wait raises: while a thread is inside a call that acquires the lock, there
-- is a thread that holds the lock, or one that gets it by its next step. So the threads never all sleep
-- before a free lock.
pub no_deadlock :
    (n i : ℕ) {t : System} (x : Pc)
    → Reach false (start n) t
    → get_elem? t.threads i ≡ some x
    → waits x ≡ true
    → Proceeds t
no_deadlock n i {t} x r at h =
    proceeds t (Reach-Inv (start-Inv n) r) (Reach-Awake (start-Inv n) (start-Awake n) r) i x at h
