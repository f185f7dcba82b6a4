-- ===== src/ThreadPool/Steps.antt =====
-- The steps of the threads and of the users of the pool of iceberg/common/threadpool.h. Each step is
-- what happens under one lock of the mutex, or the end of a task.
use iceberg_cxx.Common.{ℕ, ◌≡◌, Bool, some, List, [], ◌∷◌, ◌++◌}
use iceberg_cxx.ThreadPool.{
  Status, Worker, ready, waiting, exited, busy, Pool, make_pool, submit, stop, waits, ends, takes,
  get_task,
}
use iceberg_cxx.ThreadPool.Counts.{Changes, total, is_waiting}

-- `notify_one`: a waiting thread is woken, if there is one.
pub data Notified : List Worker → List Worker → Type 0 where
  woken :
      {threads threads' : List Worker}
      → Changes waiting ready threads threads'
      → Notified threads threads'
  nobody : {threads : List Worker} → total is_waiting threads ≡ 0 → Notified threads threads

-- A step of a thread of the pool in RunLoop.
pub data WorkerStep (p : Pool) : Pool → Type 0 where
  wait :
      {threads : List Worker}
      → get_task p.status p.tasks_to_do ≡ waits
      → Changes ready waiting p.threads threads
      → WorkerStep p (record p { threads = threads })
  end :
      {status : Status} {threads : List Worker}
      → get_task p.status p.tasks_to_do ≡ ends status
      → Changes ready exited p.threads threads
      → WorkerStep p (record p { status = status; threads = threads })
  take :
      {task : ℕ} {tasks : List ℕ} {threads : List Worker}
      → get_task p.status p.tasks_to_do ≡ takes task tasks
      → Changes ready (busy task) p.threads threads
      → WorkerStep p
          (record p { tasks_to_do = tasks; threads = threads; taken = p.taken ++ task ∷ [] })
  finish :
      {task : ℕ} {threads : List Worker}
      → Changes (busy task) ready p.threads threads
      → WorkerStep p (record p { threads = threads })

-- A step of the pool. A thread may also wake up without a notification.
pub data Step (wait_for_remaining_tasks : Bool) (p : Pool) : Pool → Type 0 where
  works : {p' : Pool} → WorkerStep p p' → Step wait_for_remaining_tasks p p'
  wakes :
      {threads : List Worker}
      → Changes waiting ready p.threads threads
      → Step wait_for_remaining_tasks p (record p { threads = threads })
  submits :
      {p' : Pool} {threads : List Worker} (task : ℕ)
      → submit task p ≡ some p'
      → Notified p'.threads threads
      → Step wait_for_remaining_tasks p (record p' { threads = threads })
  stops : Step wait_for_remaining_tasks p (stop wait_for_remaining_tasks p)

-- What a pool can become that is only stopped in one way.
pub data Reach (wait_for_remaining_tasks : Bool) (threads_count : ℕ) : Pool → Type 0 where
  start : Reach wait_for_remaining_tasks threads_count (make_pool threads_count)
  later :
      {p p' : Pool}
      → Reach wait_for_remaining_tasks threads_count p
      → Step wait_for_remaining_tasks p p'
      → Reach wait_for_remaining_tasks threads_count p'
