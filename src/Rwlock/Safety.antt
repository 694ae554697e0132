-- ===== src/Rwlock/Safety.antt =====
-- Mutual exclusion, writer preference and wake-ups of the lock (src/python/rwlock.py).
pub mod Counts
use hyper_vector.Common.{
  ℕ, zero, suc, ◌+◌, ◌≤◌, ◌<◌, ◌≡◌, ◌≢◌, refl, ◌⊎◌, inl, inr, ap, false≢true, Bool, true, false,
  List, [], ◌∷◌, map, some, arith, get_elem?, set, count, to_ℕ, count-set, count-map, count-pos,
}
use hyper_vector.Rwlock.Defs.{
  Pc, idle, read_test, read_asleep, reading, write_test, write_asleep, writing, System, Step,
  call_read, test_read, end_read, call_write, test_write, end_write, wake_read, wake_write, Fault,
  leave_read, leave_write, leave_woken, Reach, here, next, fault, start, wake, acquire_read,
  release_read, enter_write, acquire_write, abort_write, release_write, apply, read_blocked,
  write_blocked,
}
use Counts.{
  reads, writes, queues, sleeps_to_read, sleeps_to_write, Inv, Awake, none_asleep, get_elem?-wake,
  kept-wake, moved, woken,
}

Step-Inv : {s t : System} → Step s t → Inv s → Inv t
unfolding acquire_read release_read enter_write acquire_write release_write apply wake
Step-Inv {s} (call_read i at e) v = ground (arith, moved s.threads i at read_test)
Step-Inv {s} (test_read i at e) v =
    ground (arith, moved s.threads i at read_asleep, moved s.threads i at reading)
Step-Inv {s} (end_read i at e) v = ground (
  arith,
  moved s.threads i at idle,
  woken s.threads,
  moved (map wake s.threads) i (get_elem?-wake s.threads i at) idle,
)
Step-Inv {s} (call_write i at e) v = ground (arith, moved s.threads i at write_test)
Step-Inv {s} (test_write i at e) v = ground (
  arith,
  moved s.threads i at write_asleep,
  moved s.threads i at writing,
  count-pos queues s.threads i at,
)
Step-Inv {s} (end_write i at e) v =
    ground
      (arith, woken s.threads, moved (map wake s.threads) i (get_elem?-wake s.threads i at) idle)
Step-Inv {s} (wake_read i at e) v = ground (arith, moved s.threads i at read_test)
Step-Inv {s} (wake_write i at e) v = ground (arith, moved s.threads i at write_test)

Fault-Inv : {s t : System} → Fault s t → Inv s → Inv t
unfolding abort_write apply
Fault-Inv {s} (leave_read i at e) v = ground (arith, moved s.threads i at idle)
Fault-Inv {s} (leave_write i at e) v = ground (arith, moved s.threads i at idle)
Fault-Inv {s} (leave_woken i at e) v = ground (arith, moved s.threads i at idle)

Step-Awake : {s t : System} → Step s t → Inv s → Awake s → Awake t
unfolding acquire_read release_read enter_write acquire_write release_write apply wake read_blocked
    write_blocked
Step-Awake {s} (call_read i at e) v w = ground (arith, moved s.threads i at read_test)
Step-Awake {s} (test_read i at e) v w =
    ground (arith, moved s.threads i at read_asleep, moved s.threads i at reading)
Step-Awake {s} (end_read i at e) v w = ground (
  arith,
  moved s.threads i at idle,
  woken s.threads,
  moved (map wake s.threads) i (get_elem?-wake s.threads i at) idle,
  count-pos reads s.threads i at,
)
Step-Awake {s} (call_write i at e) v w = ground (arith, moved s.threads i at write_test)
Step-Awake {s} (test_write i at e) v w = ground (
  arith,
  moved s.threads i at write_asleep,
  moved s.threads i at writing,
  count-pos queues s.threads i at,
)
Step-Awake {s} (end_write i at e) v w =
    ground
      (arith, woken s.threads, moved (map wake s.threads) i (get_elem?-wake s.threads i at) idle)
Step-Awake {s} (wake_read i at e) v w = ground (arith, moved s.threads i at read_test)
Step-Awake {s} (wake_write i at e) v w = ground (arith, moved s.threads i at write_test)

outside-count : (p : Pc → Bool) (n : ℕ) → p idle ≡ false → count p (start n).threads ≡ 0
outside-count p zero h = refl
outside-count p (suc n) h = ground (arith, outside-count p n h)

pub start-Inv : (n : ℕ) → Inv (start n)
start-Inv n =
    ground
      (arith, outside-count reads n refl, outside-count queues n refl, outside-count writes n refl)

pub start-Awake : (n : ℕ) → Awake (start n)
start-Awake n =
    ground (arith, outside-count sleeps_to_read n refl, outside-count sleeps_to_write n refl)

-- The fields count the threads in every system that comes about, with faults or without.
pub Reach-Inv : {b : Bool} {s t : System} → Inv s → Reach b s t → Inv t
Reach-Inv v here = v
Reach-Inv v (next r st) = Step-Inv st (Reach-Inv v r)
Reach-Inv v (fault r e f) = Fault-Inv f (Reach-Inv v r)

pub Reach-Awake : {s t : System} → Inv s → Awake s → Reach false s t → Awake t
Reach-Awake v w here = w
Reach-Awake v w (next r st) = Step-Awake st (Reach-Inv v r) (Reach-Awake v w r)
Reach-Awake v w (fault r e f) = absurd (false≢true e)

-- Two items at different places that pass a test are counted twice.
count-two :
    (p : Pc → Bool) (xs : List Pc) (i j : ℕ) {x y : Pc}
    → i ≢ j
    → get_elem? xs i ≡ some x
    → get_elem? xs j ≡ some y
    → to_ℕ (p x) + to_ℕ (p y) ≤ count p xs
count-two p [] i j ne a b = absurd (ground arith)
count-two p (z ∷ xs) zero zero ne a b = absurd (ne refl)
count-two p (z ∷ xs) zero (suc j) ne a b = ground (arith, count-pos p xs j b)
count-two p (z ∷ xs) (suc i) zero ne a b = ground (arith, count-pos p xs i a)
count-two p (z ∷ xs) (suc i) (suc j) ne a b =
    omega (arith, count-two p xs i j (λ e. ne (ap suc e)) a b)

-- From a new lock and any number of threads, in every system that comes about, also when waits
-- raise: while thread `i` holds the write lock, no other thread holds the lock to read or to write.
pub mutual_exclusion :
    (n i j : ℕ) {t : System}
    → Reach true (start n) t
    → i ≢ j
    → get_elem? t.threads i ≡ some writing
    → (get_elem? t.threads j ≢ some reading) × (get_elem? t.threads j ≢ some writing)
mutual_exclusion n i j {t} r ne at = (
  λ h.
      let v = Reach-Inv (start-Inv n) r in
      absurd (ground (arith, v, count-pos writes t.threads i at, count-pos reads t.threads j h)),
  λ h.
      let v = Reach-Inv (start-Inv n) r in
      absurd (ground (arith, v, count-two writes t.threads i j ne at h)),
)

-- From a new lock, as long as no wait raises: a thread asleep in `acquire_read` sleeps while a
-- writer is active or waits, and one asleep in `acquire_write` sleeps while a writer is active or
-- a reader reads. So no wake-up is lost.
pub no_lost_wakeup :
    (n i : ℕ) {t : System}
    → Reach false (start n) t
    → (get_elem? t.threads i ≡ some read_asleep → read_blocked t.lock ≡ true)
      × (get_elem? t.threads i ≡ some write_asleep → write_blocked t.lock ≡ true)
no_lost_wakeup n i {t} r =
    let w = Reach-Awake (start-Inv n) (start-Awake n) r in
    (
      λ h. w.read (ground (arith, count-pos sleeps_to_read t.threads i h)),
      λ h. w.write (ground (arith, count-pos sleeps_to_write t.threads i h)),
    )

-- The lock prefers writers: in every system that comes about, while a thread waits to write, a step
-- lets no new reader in, so the number of readers does not grow.
pub writer_preference :
    (n i : ℕ) {t u : System}
    → Reach true (start n) t
    → (get_elem? t.threads i ≡ some write_asleep) ⊎ (get_elem? t.threads i ≡ some write_test)
    → Step t u
    → u.lock.readers ≤ t.lock.readers
unfolding acquire_read release_read enter_write acquire_write release_write apply read_blocked
writer_preference n i {t} r h st = bounded st
  where
    waiting : 0 < t.lock.writers_waiting
    waiting = elim h [
      | inl a ↦
          let v = Reach-Inv (start-Inv n) r in ground (arith, v, count-pos queues t.threads i a)
      | inr a ↦
          let v = Reach-Inv (start-Inv n) r in ground (arith, v, count-pos queues t.threads i a)
    ]

    bounded : {u : System} → Step t u → u.lock.readers ≤ t.lock.readers
    bounded (call_read k at e) = ground arith
    bounded (test_read k at e) = ground (arith, waiting)
    bounded (end_read k at e) = ground arith
    bounded (call_write k at e) = ground arith
    bounded (test_write k at e) = ground arith
    bounded (end_write k at e) = ground arith
    bounded (wake_read k at e) = ground arith
    bounded (wake_write k at e) = ground arith
