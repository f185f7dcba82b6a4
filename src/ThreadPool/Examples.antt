-- ===== src/ThreadPool/Examples.antt =====
-- A pool of iceberg/common/threadpool.h with one thread, step by step.
use iceberg_cxx.Common.{◌≤◌, ◌≡◌, refl, ◌⊎◌, true, none, [], ◌∷◌, arith}
use iceberg_cxx.ThreadPool.{
  running, wait_pending, cancel_pending, ready, waiting, exited, Pool, make_pool, submit, stop,
  get_task,
}
use iceberg_cxx.ThreadPool.Counts.{here, there, total, is_exited}
use iceberg_cxx.ThreadPool.Steps.{
  woken, WorkerStep, wait, end, take, finish, works, submits, stops, Reach, start, later,
}
use iceberg_cxx.ThreadPool.Sound.{IsSound}
use iceberg_cxx.ThreadPool.Invariant.{Reach-IsSound, Reach-taken}
use iceberg_cxx.ThreadPool.Progress.{
  Reach-no_lost_wake_up, stopped-ends, work_left, Run, none_yet, then,
}

-- Two threads, of which one waits.
abbrev one_waits : Pool
one_waits = record {
  status = running;
  tasks_to_do = [];
  threads = waiting ∷ ready ∷ [];
  submitted = [];
  taken = [];
}

one_waits-Reach : Reach true 2 one_waits
unfolding make_pool get_task
one_waits-Reach = later start (works (wait refl here))

-- Task 7 is submitted; the waiting thread is woken.
abbrev with_task : Pool
with_task = record {
  status = running;
  tasks_to_do = 7 ∷ [];
  threads = ready ∷ ready ∷ [];
  submitted = 7 ∷ [];
  taken = [];
}

with_task-Reach : Reach true 2 with_task
unfolding submit
with_task-Reach = later one_waits-Reach (submits 7 refl (woken here))

abbrev stopped_with_task : Pool
stopped_with_task = record with_task { status = wait_pending }

stopped-Reach : Reach true 2 stopped_with_task
unfolding stop
stopped-Reach = later with_task-Reach stops

refuses : submit 8 stopped_with_task ≡ none
unfolding submit
refuses = refl

abbrev after_task : Pool
after_task = record {
  status = cancel_pending;
  tasks_to_do = [];
  threads = exited ∷ exited ∷ [];
  submitted = 7 ∷ [];
  taken = 7 ∷ [];
}

-- The first thread runs the task, then both end.
after_task-Run : Run stopped_with_task 4 after_task
unfolding get_task
after_task-Run =
    then (then (then (then none_yet (take refl here)) (finish here)) (end refl here))
      (end refl (there here))

Reach-IsSound_example : IsSound true 2 stopped_with_task
Reach-IsSound_example = Reach-IsSound stopped-Reach

after_task-Reach : Reach true 2 after_task
unfolding get_task
after_task-Reach =
    later
      (later (later (later stopped-Reach (works (take refl here))) (works (finish here)))
        (works (end refl here)))
      (works (end refl (there here)))

Reach-taken_example : after_task.taken ≡ after_task.submitted
Reach-taken_example = Reach-taken after_task-Reach (omega arith)

Reach-no_lost_wake_up_example : (p' : Pool) × WorkerStep with_task p'
Reach-no_lost_wake_up_example =
    Reach-no_lost_wake_up with_task-Reach (omega arith) refl (omega arith)

stopped-ends_example :
    (4 ≤ work_left stopped_with_task)
    × ((total is_exited after_task.threads ≡ 2) ⊎ ((p' : Pool) × WorkerStep after_task p'))
stopped-ends_example = stopped-ends stopped-Reach (λ k. cc) after_task-Run
