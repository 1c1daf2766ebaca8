-- ===== src/Termination.antt =====
-- display/threads/termination.c: the semaphore at which the threads wait for the end. A call that
-- blocks is `none`; the calls of `sem_post`, `sem_init` and `sem_wait` succeed.
pub mod Wakes
mod Tests
use package.ttds.Prelude.{ℕ, zero, suc, ◌+◌, Option, none, some}

pub record Termination : Type 0 where
  pub num_waiting : ℕ
  pub value : ℕ

-- `sem_post`.
abbrev pub sem_post : Termination → Termination
sem_post t = record t { value = t.value + 1 }

-- The loop of `term`, with `left` rounds to go.
unfoldable pub post_times : ℕ → Termination → Termination
post_times zero t = t
post_times (suc left) t = post_times left (sem_post t)

unfoldable pub term : Termination → Termination
term t = post_times t.num_waiting t

unfoldable pub term_init : ℕ → Termination → Termination
term_init count t = record { num_waiting = count; value = 0 }

abbrev pub sem_wait : Termination → ℕ → Option Termination
sem_wait t zero = none
sem_wait t (suc v) = some (record t { value = v })

unfoldable pub term_block : Termination → Option Termination
term_block t = sem_wait t t.value
