-- ===== src/Tests/Locks.antt =====
-- The lock with two threads.
use hyper_vector.Common.{◌≡◌, ◌≢◌, refl, arith, Bool, true, false, [], ◌∷◌, some, get_elem?}
use hyper_vector.Rwlock.{
  reading, writing, idle, read_test, read_asleep, write_asleep, write_test, System, Step,
  call_write, test_write, call_read, test_read, read_blocked, write_blocked, enter_write,
  acquire_write, acquire_read, apply, Reach, here, next, start,
}
use hyper_vector.Rwlock.Progress.{Proceeds, no_deadlock}
use hyper_vector.Rwlock.Safety.{mutual_exclusion, no_lost_wakeup}

-- Thread 0 holds the lock to write, then thread 1 asks to read and goes to sleep.
abbrev entered : System
entered = record {
  lock = record { readers = 0; writers_waiting = 1; writer_active = false };
  threads = write_test ∷ idle ∷ [];
}

abbrev held : System
held = record {
  lock = record { readers = 0; writers_waiting = 0; writer_active = true };
  threads = writing ∷ idle ∷ [];
}

abbrev asked : System
asked = record held { threads = writing ∷ read_test ∷ [] }

abbrev waiting : System
waiting = record held { threads = writing ∷ read_asleep ∷ [] }

enters : Step (start 2) entered
unfolding apply enter_write
enters = call_write 0 refl refl

takes : Step entered held
unfolding apply acquire_write
takes = test_write 0 refl refl

asks : Step held asked
asks = call_read 1 refl refl

sleeps : Step asked waiting
unfolding apply acquire_read
sleeps = test_read 1 refl refl

comes_waiting : (faults : Bool) → Reach faults (start 2) waiting
comes_waiting faults = next (next (next (next here enters) takes) asks) sleeps

mutual_exclusion_example :
    (get_elem? waiting.threads 1 ≢ some reading) × (get_elem? waiting.threads 1 ≢ some writing)
mutual_exclusion_example = mutual_exclusion 2 0 1 (comes_waiting true) (omega arith) refl

no_lost_wakeup_example :
    (get_elem? waiting.threads 1 ≡ some read_asleep → read_blocked waiting.lock ≡ true)
    × (get_elem? waiting.threads 1 ≡ some write_asleep → write_blocked waiting.lock ≡ true)
no_lost_wakeup_example = no_lost_wakeup 2 1 (comes_waiting false)

no_deadlock_example : Proceeds waiting
no_deadlock_example = no_deadlock 2 1 read_asleep (comes_waiting false) refl refl
