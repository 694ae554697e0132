-- ===== src/Rwlock/Safety/Counts.antt =====
-- The fields of the lock and the threads that they count (src/python/rwlock.py).
use hyper_vector.Common.{
  ℕ, zero, suc, ◌+◌, ◌<◌, ◌≡◌, refl, Bool, true, false, List, [], ◌∷◌, map, some, arith, get_elem?,
  set, count, to_ℕ, count-set, count-map,
}
use hyper_vector.Rwlock.Defs.{
  Pc, read_asleep, reading, write_test, write_asleep, writing, System, wake, read_blocked,
  write_blocked,
}

abbrev pub reads : Pc → Bool
reads reading = true
reads _ = false

abbrev pub writes : Pc → Bool
writes writing = true
writes _ = false

-- A writer that has registered and does not hold the lock.
abbrev pub queues : Pc → Bool
queues write_test = true
queues write_asleep = true
queues _ = false

abbrev pub sleeps_to_read : Pc → Bool
sleeps_to_read read_asleep = true
sleeps_to_read _ = false

abbrev pub sleeps_to_write : Pc → Bool
sleeps_to_write write_asleep = true
sleeps_to_write _ = false

-- The three fields count the threads, and a writer excludes the readers.
pub record Inv (s : System) : Type 0 where
  pub counted : s.lock.readers ≡ count reads s.threads
  pub queued : s.lock.writers_waiting ≡ count queues s.threads
  pub single : to_ℕ s.lock.writer_active ≡ count writes s.threads
  pub exclusive : s.lock.writer_active ≡ true → s.lock.readers ≡ 0

-- Every sleeper sleeps for a reason that still holds.
pub record Awake (s : System) : Type 0 where
  pub read : 0 < count sleeps_to_read s.threads → read_blocked s.lock ≡ true
  pub write : 0 < count sleeps_to_write s.threads → write_blocked s.lock ≡ true

pub none_asleep :
    (p : Pc → Bool) (xs : List Pc) → ((x : Pc) → p (wake x) ≡ false) → count p (map wake xs) ≡ 0
none_asleep p [] h = refl
none_asleep p (x ∷ xs) h = ground (arith, h x, none_asleep p xs h)

pub get_elem?-wake :
    (xs : List Pc) (i : ℕ) {x : Pc}
    → get_elem? xs i ≡ some x
    → get_elem? (map wake xs) i ≡ some (wake x)
get_elem?-wake [] i h = absurd (ground arith)
get_elem?-wake (y ∷ xs) zero h = ground arith
get_elem?-wake (y ∷ xs) (suc i) h = get_elem?-wake xs i h

pub kept-wake :
    (p : Pc → Bool) (xs : List Pc)
    → ((x : Pc) → p (wake x) ≡ p x)
    → count p (map wake xs) ≡ count p xs
kept-wake p xs h = count-map p p wake xs h

-- What a move of one thread, from `x` to `y`, does to a count.
module _ (xs : List Pc) (i : ℕ) {x : Pc} (at : get_elem? xs i ≡ some x) (y : Pc) where
  pub record Moved : Type 0 where
    pub reading_count : count reads (set xs i y) + to_ℕ (reads x) ≡ count reads xs + to_ℕ (reads y)
    pub queue_count :
        count queues (set xs i y) + to_ℕ (queues x) ≡ count queues xs + to_ℕ (queues y)
    pub writing_count :
        count writes (set xs i y) + to_ℕ (writes x) ≡ count writes xs + to_ℕ (writes y)
    pub read_sleep :
        count sleeps_to_read (set xs i y) + to_ℕ (sleeps_to_read x)
        ≡ count sleeps_to_read xs + to_ℕ (sleeps_to_read y)
    pub write_sleep :
        count sleeps_to_write (set xs i y) + to_ℕ (sleeps_to_write x)
        ≡ count sleeps_to_write xs + to_ℕ (sleeps_to_write y)

  pub moved : Moved
  moved = record {
    reading_count = count-set reads xs i y at;
    queue_count = count-set queues xs i y at;
    writing_count = count-set writes xs i y at;
    read_sleep = count-set sleeps_to_read xs i y at;
    write_sleep = count-set sleeps_to_write xs i y at;
  }

-- A notification wakes every sleeper and changes no other count.
pub record Woken (xs : List Pc) : Type 0 where
  pub same_reads : count reads (map wake xs) ≡ count reads xs
  pub same_queue : count queues (map wake xs) ≡ count queues xs
  pub same_writes : count writes (map wake xs) ≡ count writes xs
  pub no_read_sleep : count sleeps_to_read (map wake xs) ≡ 0
  pub no_write_sleep : count sleeps_to_write (map wake xs) ≡ 0

pub woken : (xs : List Pc) → Woken xs
unfolding wake
woken xs = record {
  same_reads = kept-wake reads xs (λ x. ground arith);
  same_queue = kept-wake queues xs (λ x. ground arith);
  same_writes = kept-wake writes xs (λ x. ground arith);
  no_read_sleep = none_asleep sleeps_to_read xs (λ x. ground arith);
  no_write_sleep = none_asleep sleeps_to_write xs (λ x. ground arith);
}
