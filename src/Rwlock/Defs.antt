-- ===== src/Rwlock/Defs.antt =====
-- The lock's fields, the threads that call it, and the steps that they make (src/python/rwlock.py).
use hyper_vector.Common.{
  ℕ, zero, suc, [], ◌∷◌, ◌+◌, ◌-◌, ◌≡◌, Bool, true, false, ◌||◌, List, map, some, get_elem?, set,
  ltb, ◌==◌, if◌then◌else◌,
}

-- `RWLock._readers`, `_writers_waiting` and `_writer_active`.
pub record RwLock : Type 0 where
  pub readers : ℕ
  pub writers_waiting : ℕ
  pub writer_active : Bool

abbrev pub init : RwLock
init = record { readers = 0; writers_waiting = 0; writer_active = false }

-- The two `while` tests: the caller has to wait.
unfoldable pub read_blocked : RwLock → Bool
read_blocked l = l.writer_active || ltb 0 l.writers_waiting

unfoldable pub write_blocked : RwLock → Bool
write_blocked l = l.writer_active || ltb 0 l.readers

-- Where a thread stands: outside the lock, about to make the `while` test, asleep in
-- `Condition.wait`, or holding the lock.
pub data Pc : Type 0 where
  idle read_test read_asleep reading write_test write_asleep writing : Pc

-- `Condition.notify_all`: a sleeper goes back to its `while` test.
unfoldable pub wake : Pc → Pc
wake read_asleep = read_test
wake write_asleep = write_test
wake idle = idle
wake read_test = read_test
wake reading = reading
wake write_test = write_test
wake writing = writing

-- One critical section of a thread: the new fields, where the thread goes, and whether it notifies.
pub record Move : Type 0 where
  pub lock : RwLock
  pub pc : Pc
  pub notifies : Bool

-- `acquire_read`, from the `while` test on.
unfoldable pub acquire_read : RwLock → Move
unfolding read_blocked
acquire_read l =
    if read_blocked l
    then record { lock = l; pc = read_asleep; notifies = false }
    else record { lock = record l { readers = l.readers + 1 }; pc = reading; notifies = false }

unfoldable pub release_read : RwLock → Move
release_read l = record {
  lock = record l { readers = l.readers - 1 };
  pc = idle;
  notifies = l.readers - 1 == 0;
}

-- The entry of `acquire_write`: a writer counts as waiting before it makes its test.
unfoldable pub enter_write : RwLock → Move
enter_write l = record {
  lock = record l { writers_waiting = l.writers_waiting + 1 };
  pc = write_test;
  notifies = false;
}

-- `acquire_write`, from the `while` test to the `finally`.
unfoldable pub acquire_write : RwLock → Move
unfolding write_blocked
acquire_write l =
    if write_blocked l then record { lock = l; pc = write_asleep; notifies = false } else record {
      lock = record l { writer_active = true; writers_waiting = l.writers_waiting - 1 };
      pc = writing;
      notifies = false;
    }

-- The `finally` of `acquire_write` when `Condition.wait` raises.
unfoldable pub abort_write : RwLock → Move
abort_write l = record {
  lock = record l { writers_waiting = l.writers_waiting - 1 };
  pc = idle;
  notifies = false;
}

unfoldable pub release_write : RwLock → Move
release_write l = record { lock = record l { writer_active = false }; pc = idle; notifies = true }

pub record System : Type 0 where
  pub lock : RwLock
  pub threads : List Pc

-- Thread `i` makes a move; a notification reaches every sleeper.
unfoldable pub apply : System → ℕ → Move → System
apply s i m =
    let threads = if m.notifies then map wake s.threads else s.threads in
    record { lock = m.lock; threads = set threads i m.pc }

-- What thread `i` may do next, by where it stands. A sleeper may also wake with no notification.
pub data Step (s t : System) : Type 0 where
  call_read :
      (i : ℕ)
      → get_elem? s.threads i ≡ some idle
      → t ≡ record s { threads = set s.threads i read_test }
      → Step s t
  test_read :
      (i : ℕ)
      → get_elem? s.threads i ≡ some read_test
      → t ≡ apply s i (acquire_read s.lock)
      → Step s t
  end_read :
      (i : ℕ)
      → get_elem? s.threads i ≡ some reading
      → t ≡ apply s i (release_read s.lock)
      → Step s t
  call_write :
      (i : ℕ) → get_elem? s.threads i ≡ some idle → t ≡ apply s i (enter_write s.lock) → Step s t
  test_write :
      (i : ℕ)
      → get_elem? s.threads i ≡ some write_test
      → t ≡ apply s i (acquire_write s.lock)
      → Step s t
  end_write :
      (i : ℕ)
      → get_elem? s.threads i ≡ some writing
      → t ≡ apply s i (release_write s.lock)
      → Step s t
  wake_read :
      (i : ℕ)
      → get_elem? s.threads i ≡ some read_asleep
      → t ≡ record s { threads = set s.threads i read_test }
      → Step s t
  wake_write :
      (i : ℕ)
      → get_elem? s.threads i ≡ some write_asleep
      → t ≡ record s { threads = set s.threads i write_test }
      → Step s t

-- `Condition.wait` raises in a waiting thread, asleep or just notified, and the exception leaves
-- the call.
pub data Fault (s t : System) : Type 0 where
  leave_read :
      (i : ℕ)
      → get_elem? s.threads i ≡ some read_asleep
      → t ≡ record s { threads = set s.threads i idle }
      → Fault s t
  leave_write :
      (i : ℕ)
      → get_elem? s.threads i ≡ some write_asleep
      → t ≡ apply s i (abort_write s.lock)
      → Fault s t
  leave_woken :
      (i : ℕ)
      → get_elem? s.threads i ≡ some write_test
      → t ≡ apply s i (abort_write s.lock)
      → Fault s t

-- The systems that can come about, with faults or without.
pub data Reach (faults : Bool) (s : System) : System → Type 0 where
  here : Reach faults s s
  next : {t u : System} → Reach faults s t → Step t u → Reach faults s u
  fault : {t u : System} → Reach faults s t → faults ≡ true → Fault t u → Reach faults s u

-- A new lock, and `n` threads outside it.
abbrev pub start : ℕ → System
start n = record { lock = init; threads = outside n }
  where
    outside : ℕ → List Pc
    outside zero = []
    outside (suc k) = idle ∷ outside k
