-- ===== src/Rwlock.antt =====
-- src/python/rwlock.py: the writer-preferred reader/writer lock. Each critical section under the
-- condition variable is one atomic step of a thread, as the mutex makes it in the code.
mod Defs
pub mod Safety
pub mod Progress
unfoldable pub use Defs.*
