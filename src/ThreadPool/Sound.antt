-- ===== src/ThreadPool/Sound.antt =====
-- What holds of every pool of iceberg/common/threadpool.h.
use iceberg_cxx.Common.{
  ℕ, suc, ◌≤◌, ◌≡◌, refl, sym, ap, ◌∙◌, ◌⊎◌, inl, inr, Bool, false, List, [], ◌∷◌, ◌++◌, arith,
  length,
}
use mathlib.Core.Path.{subst}
use mathlib.Core.List.{append_assoc}
use iceberg_cxx.ThreadPool.{
  Status, running, wait_pending, cancel_pending, Worker, ready, waiting, exited, busy, Pool,
  make_pool, waits, ends, takes, get_task,
}
use iceberg_cxx.ThreadPool.Counts.{
  Changes, total, one, is_waiting, is_ready, is_exited, Changes-total, replicate-none,
  replicate-every,
}

pub get_task-waits :
    (s : Status) (tasks : List ℕ) → get_task s tasks ≡ waits → (s ≡ running) × (tasks ≡ [])
unfolding get_task
get_task-waits running [] e = (refl, refl)
get_task-waits running (t ∷ tasks) e = cc
get_task-waits wait_pending [] e = cc
get_task-waits wait_pending (t ∷ tasks) e = cc
get_task-waits cancel_pending tasks e = cc

pub get_task-takes :
    (s : Status) (tasks rest : List ℕ) (task : ℕ)
    → get_task s tasks ≡ takes task rest
    → (tasks ≡ task ∷ rest) × (s ≡ cancel_pending → ⊥)
unfolding get_task
get_task-takes running [] rest task e = cc
get_task-takes running (t ∷ tasks) rest task e = (cc, λ k. cc)
get_task-takes wait_pending [] rest task e = cc
get_task-takes wait_pending (t ∷ tasks) rest task e = (cc, λ k. cc)
get_task-takes cancel_pending tasks rest task e = cc

pub get_task-ends :
    (s s' : Status) (tasks : List ℕ)
    → get_task s tasks ≡ ends s'
    → (s' ≡ cancel_pending) × ((s ≡ wait_pending) × (tasks ≡ []) ⊎ (s ≡ cancel_pending))
unfolding get_task
get_task-ends running s' [] e = cc
get_task-ends running s' (t ∷ tasks) e = cc
get_task-ends wait_pending s' [] e = (cc, inl (refl, refl))
get_task-ends wait_pending s' (t ∷ tasks) e = cc
get_task-ends cancel_pending s' tasks e = (cc, inr refl)

-- Tasks are taken in the order of their submission; a thread waits only in a pool that runs, and
-- then every task in the queue has a thread that is ready for it; a thread ends only when the tasks
-- are cancelled, which with remaining tasks to wait for is when there are none.
pub record IsSound (wait_for_remaining_tasks : Bool) (threads_count : ℕ) (p : Pool) : Type 0 where
  pub fifo : p.taken ++ p.tasks_to_do ≡ p.submitted
  pub workers : total one p.threads ≡ threads_count
  pub prompt :
      (total is_waiting p.threads ≡ 0)
      ⊎ ((p.status ≡ running) × (length p.tasks_to_do ≤ total is_ready p.threads))
  pub ended : (total is_exited p.threads ≡ 0) ⊎ (p.status ≡ cancel_pending)
  pub drained :
      (wait_for_remaining_tasks ≡ false) ⊎ (p.status ≡ cancel_pending → ⊥) ⊎ (p.tasks_to_do ≡ [])

pub start-IsSound : (w : Bool) (n : ℕ) → IsSound w n (make_pool n)
unfolding make_pool
start-IsSound w n = record {
  fifo = refl;
  workers = replicate-every one n refl;
  prompt = inl (replicate-none is_waiting n refl);
  ended = inl (replicate-none is_exited n refl);
  drained = inr (inr refl);
}

-- The status after a step that leaves it alone.
module _ {w : Bool} {n : ℕ} {p : Pool} (s : IsSound w n p) where
  pub wait-IsSound :
      {threads : List Worker}
      → get_task p.status p.tasks_to_do ≡ waits
      → Changes ready waiting p.threads threads
      → IsSound w n (record p { threads = threads })
  wait-IsSound e c =
      let (run, empty) = get_task-waits p.status p.tasks_to_do e in
      record {
        fifo = s.fifo;
        workers = omega (arith, s.workers, Changes-total one c);
        prompt = inr (run, rw empty (omega arith));
        ended = elim s.ended [
          | inl k ↦ inl (omega (arith, Changes-total is_exited c))
          | inr k ↦ inr k
        ];
        drained = s.drained;
      }

  pub end-IsSound :
      {status : Status} {threads : List Worker}
      → get_task p.status p.tasks_to_do ≡ ends status
      → Changes ready exited p.threads threads
      → IsSound w n (record p { status = status; threads = threads })
  end-IsSound {status} e c =
      let (cancel, from) = get_task-ends p.status status p.tasks_to_do e in
      record {
        fifo = s.fifo;
        workers = omega (arith, s.workers, Changes-total one c);
        prompt = elim s.prompt [
          | inl k ↦ inl (omega (arith, Changes-total is_waiting c))
          | inr k ↦ elim from [ inl m ↦ absurd cc | inr m ↦ absurd cc ]
        ];
        ended = inr cancel;
        drained = elim from [
          | inl m ↦ inr (inr m.1)
          | inr m ↦ elim s.drained [
            | inl k ↦ inl k
            | inr (inl k) ↦ absurd (k m)
            | inr (inr k) ↦ inr (inr k)
          ]
        ];
      }

  pub take-IsSound :
      {task : ℕ} {tasks : List ℕ} {threads : List Worker}
      → get_task p.status p.tasks_to_do ≡ takes task tasks
      → Changes ready (busy task) p.threads threads
      → IsSound w n
          (record p { tasks_to_do = tasks; threads = threads; taken = p.taken ++ task ∷ [] })
  take-IsSound {task} {tasks} e c =
      let (front, status) = get_task-takes p.status p.tasks_to_do tasks task e in
      record {
        fifo = append_assoc p.taken (task ∷ []) tasks ∙ ap (λ v. p.taken ++ v) (sym front) ∙ s.fifo;
        workers = omega (arith, s.workers, Changes-total one c);
        prompt = elim s.prompt [
          | inl k ↦ inl (omega (arith, Changes-total is_waiting c))
          | inr (run, few) ↦
              let many : suc (length tasks) ≤ total is_ready p.threads =
                subst (λ v. length v ≤ total is_ready p.threads) front few in
              inr (run, omega (arith, Changes-total is_ready c))
        ];
        ended = elim s.ended [
          | inl k ↦ inl (omega (arith, Changes-total is_exited c))
          | inr k ↦ inr k
        ];
        drained = inr (inl status);
      }

  pub finish-IsSound :
      {task : ℕ} {threads : List Worker}
      → Changes (busy task) ready p.threads threads
      → IsSound w n (record p { threads = threads })
  finish-IsSound c = record {
    fifo = s.fifo;
    workers = omega (arith, s.workers, Changes-total one c);
    prompt = elim s.prompt [
      | inl k ↦ inl (omega (arith, Changes-total is_waiting c))
      | inr k ↦ inr (k.0, omega (arith, Changes-total is_ready c, k.1))
    ];
    ended = elim s.ended [ inl k ↦ inl (omega (arith, Changes-total is_exited c)) | inr k ↦ inr k ];
    drained = s.drained;
  }

  pub wake-IsSound :
      {threads : List Worker}
      → Changes waiting ready p.threads threads
      → IsSound w n (record p { threads = threads })
  wake-IsSound c = record {
    fifo = s.fifo;
    workers = omega (arith, s.workers, Changes-total one c);
    prompt = elim s.prompt [
      | inl k ↦ absurd (omega (arith, Changes-total is_waiting c))
      | inr k ↦ inr (k.0, omega (arith, Changes-total is_ready c, k.1))
    ];
    ended = elim s.ended [ inl k ↦ inl (omega (arith, Changes-total is_exited c)) | inr k ↦ inr k ];
    drained = s.drained;
  }
