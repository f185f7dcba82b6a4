-- ===== src/ThreadPool.antt =====
-- ThreadPool of iceberg/common/threadpool.h: the state that its mutex guards, and what each call does
-- to it. A task is a number; `none` is an exception of `Ensure`.
use iceberg_cxx.Common.{
  ℕ, zero, suc, ◌+◌, ◌≡◌, Bool, true, false, Option, none, some, List, [], ◌∷◌, ◌++◌, map, arith,
}
pub mod Counts
pub mod Steps
pub mod Sound
pub mod Invariant
pub mod Progress
mod Examples

pub data Status : Type 0 where
  running wait_pending cancel_pending : Status

-- Where a thread is: before `GetTask` locks the mutex, in `has_work_.wait`, in a task, or behind the
-- loop of RunLoop.
pub data Worker : Type 0 where
  ready waiting exited : Worker
  busy : ℕ → Worker

-- The history is what was submitted and what was taken, in order.
pub record Pool : Type 0 where
  pub status : Status
  pub tasks_to_do : List ℕ
  pub threads : List Worker
  pub submitted : List ℕ
  pub taken : List ℕ

abbrev pub replicate : ℕ → List Worker
replicate zero = []
replicate (suc n) = ready ∷ replicate n

-- The constructor.
unfoldable pub make_pool : ℕ → Pool
make_pool threads_count = record {
  status = running;
  tasks_to_do = [];
  threads = replicate threads_count;
  submitted = [];
  taken = [];
}

-- `Submit`, without the notification.
unfoldable pub submit : ℕ → Pool → Option Pool
submit task p = elim p.status [
  | running ↦
      some (record p {
        tasks_to_do = p.tasks_to_do ++ task ∷ [];
        submitted = p.submitted ++ task ∷ [];
      })
  | wait_pending ↦ none
  | cancel_pending ↦ none
]

-- `notify_all`, and the wake-up of one thread.
abbrev pub wake : Worker → Worker
wake waiting = ready
wake w = w

abbrev pub stopped_status : Bool → Status
stopped_status true = wait_pending
stopped_status false = cancel_pending

-- `Stop` up to the threads that it joins.
unfoldable pub stop : Bool → Pool → Pool
stop wait_for_remaining_tasks p = elim p.status [
  | running ↦ record p {
    status = stopped_status wait_for_remaining_tasks;
    threads = map wake p.threads;
  }
  | wait_pending ↦ p
  | cancel_pending ↦ p
]

-- What `GetTask` does once it holds the mutex: it waits, it ends with a status, or it takes a task.
pub data Next : Type 0 where
  waits : Next
  ends : Status → Next
  takes : ℕ → List ℕ → Next

unfoldable pub get_task : Status → List ℕ → Next
get_task running [] = waits
get_task running (task ∷ tasks) = takes task tasks
get_task wait_pending [] = ends cancel_pending
get_task wait_pending (task ∷ tasks) = takes task tasks
get_task cancel_pending tasks = ends cancel_pending
