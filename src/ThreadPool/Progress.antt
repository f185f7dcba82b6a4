-- ===== src/ThreadPool/Progress.antt =====
-- The pool of iceberg/common/threadpool.h gets its work done, if tasks end: `Stop` can join the
-- threads, and a task in the queue is taken.
use iceberg_cxx.Common.{
  ℕ, suc, ◌+◌, ◌*◌, ◌≤◌, ◌<◌, ◌≡◌, refl, ap, ◌⊎◌, inl, inr, Bool, false, ◌==◌, Bool-cases, List, [],
  ◌∷◌, arith, length,
}
use iceberg_cxx.ThreadPool.{
  Status, running, Worker, ready, waiting, exited, busy, Pool, Next, waits, ends, takes, get_task,
}
use iceberg_cxx.ThreadPool.Counts.{
  total, one, is_waiting, is_ready, is_exited, weight, Changes-total, Awake, find-Awake,
}
use iceberg_cxx.ThreadPool.Steps.{WorkerStep, wait, end, take, finish, works, Reach, later}
use iceberg_cxx.ThreadPool.Sound.{get_task-waits, get_task-takes, get_task-ends}
use iceberg_cxx.ThreadPool.Invariant.{Reach-IsSound}

Next-cases :
    (a : Next)
    → (a ≡ waits)
      ⊎ ((s : Status) × (a ≡ ends s))
      ⊎ ((task : ℕ) × (tasks : List ℕ) × (a ≡ takes task tasks))
Next-cases waits = inl refl
Next-cases (ends s) = inr (inl (s, refl))
Next-cases (takes task tasks) = inr (inr (task, tasks, refl))

-- A thread that is awake has a step.
Awake-works : (p : Pool) → Awake p.threads → (p' : Pool) × WorkerStep p p'
Awake-works p (inr t) = (_, finish (t.1.1 ready))
Awake-works p (inl m) = elim (Next-cases (get_task p.status p.tasks_to_do)) [
  | inl e ↦ (_, wait e (m.1 waiting))
  | inr (inl t) ↦ (_, end t.1 (m.1 exited))
  | inr (inr t) ↦ (_, take t.2 (m.1 (busy t.0)))
]

places :
    (threads : List Worker) → total is_waiting threads + total is_ready threads ≤ total one threads
places [] = omega arith
places (ready ∷ threads) = omega (arith, places threads)
places (waiting ∷ threads) = omega (arith, places threads)
places (exited ∷ threads) = omega (arith, places threads)
places (busy task ∷ threads) = omega (arith, places threads)

-- In a pool that runs, has threads and has a task in the queue, some thread can go on: no wake-up is
-- lost.
pub Reach-no_lost_wake_up :
    {w : Bool} {n : ℕ} {p : Pool}
    → Reach w n p
    → 0 < n
    → p.status ≡ running
    → 0 < length p.tasks_to_do
    → (p' : Pool) × WorkerStep p p'
Reach-no_lost_wake_up {n = n} {p = p} r some_thread run some_task =
    let s = Reach-IsSound r in
    let none_ended : total is_exited p.threads ≡ 0 = elim s.ended [
      | inl k ↦ k
      | inr k ↦ absurd cc
    ] in
    let few : total is_waiting p.threads < n = elim s.prompt [
      | inl k ↦ omega arith
      | inr k ↦ omega (arith, k.1, places p.threads, s.workers)
    ] in
    Awake-works p (find-Awake p.threads (omega (arith, s.workers)))

-- What is left to do in a pool that is stopped.
unfoldable pub work_left : Pool → ℕ
work_left p = 3 * length p.tasks_to_do + total weight p.threads

-- Some number of steps of threads.
pub data Run (p : Pool) : ℕ → Pool → Type 0 where
  none_yet : Run p 0 p
  then : {k : ℕ} {p' p'' : Pool} → Run p k p' → WorkerStep p' p'' → Run p (suc k) p''

step-work_left :
    {p p' : Pool}
    → (p.status ≡ running → ⊥)
    → WorkerStep p p'
    → (work_left p' < work_left p) × (p'.status ≡ running → ⊥)
unfolding work_left
step-work_left {p} stopped (wait e c) = absurd (stopped (get_task-waits p.status p.tasks_to_do e).0)
step-work_left {p} stopped (end {status = status} e c) = (
  omega (arith, Changes-total weight c),
  λ k. let cancel = (get_task-ends p.status status p.tasks_to_do e).0 in cc,
)
step-work_left {p} stopped (take {task = task} {tasks = tasks} e c) = (
  omega (
    arith,
    Changes-total weight c,
    ap length (get_task-takes p.status p.tasks_to_do tasks task e).0,
  ),
  stopped,
)
step-work_left stopped (finish c) = (omega (arith, Changes-total weight c), stopped)

Run-work_left :
    {w : Bool} {n : ℕ} {p : Pool} {k : ℕ} {p' : Pool}
    → Reach w n p
    → (p.status ≡ running → ⊥)
    → Run p k p'
    → (work_left p' + k ≤ work_left p) × (p'.status ≡ running → ⊥) × Reach w n p'
Run-work_left r stopped none_yet = (omega arith, stopped, r)
Run-work_left r stopped (then run step) =
    let (less, stopped', r') = Run-work_left r stopped run in
    let (smaller, stopped'') = step-work_left stopped' step in
    (omega arith, stopped'', later r' (works step))

exits : (threads : List Worker) → total is_exited threads ≤ total one threads
exits [] = omega arith
exits (ready ∷ threads) = omega (arith, exits threads)
exits (waiting ∷ threads) = omega (arith, exits threads)
exits (exited ∷ threads) = omega (arith, exits threads)
exits (busy task ∷ threads) = omega (arith, exits threads)

fewer :
    (threads : List Worker) (n : ℕ)
    → total one threads ≡ n
    → total is_waiting threads ≡ 0
    → (total is_exited threads == n) ≡ false
    → total is_waiting threads + total is_exited threads < total one threads
fewer threads n e k h = ground (arith, exits threads)

stopped-works :
    {w : Bool} {n : ℕ} {p : Pool}
    → Reach w n p
    → (p.status ≡ running → ⊥)
    → (total is_exited p.threads ≡ n) ⊎ ((p' : Pool) × WorkerStep p p')
stopped-works {n = n} {p = p} r stopped =
    let s = Reach-IsSound r in
    let awake : total is_waiting p.threads ≡ 0 = elim s.prompt [
      | inl k ↦ k
      | inr k ↦ absurd (stopped k.0)
    ] in
    elim (Bool-cases (total is_exited p.threads == n)) [
      | inl e ↦ inl (ground arith)
      | inr e ↦ inr (Awake-works p (find-Awake p.threads (fewer p.threads n s.workers awake e)))
    ]

-- Once a pool is stopped, its threads take a bounded number of steps, and after any of them either
-- all threads are at their end, so that `Stop` can join them, or some thread can go on.
pub stopped-ends :
    {w : Bool} {n : ℕ} {p : Pool} {k : ℕ} {p' : Pool}
    → Reach w n p
    → (p.status ≡ running → ⊥)
    → Run p k p'
    → (k ≤ work_left p) × ((total is_exited p'.threads ≡ n) ⊎ ((p'' : Pool) × WorkerStep p' p''))
stopped-ends r stopped run =
    let (less, stopped', r') = Run-work_left r stopped run in
    (omega arith, stopped-works r' stopped')
