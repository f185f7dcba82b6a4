-- ===== src/ThreadPool/Invariant.antt =====
-- What holds of a pool of iceberg/common/threadpool.h at any time.
use iceberg_cxx.Common.{
  ℕ, suc, ◌≡◌, refl, sym, ap, ◌∙◌, ◌⊎◌, inl, inr, Bool, true, false, none, some, List, [], ◌∷◌,
  ◌++◌, arith, length-append, eq_of_some-eq-some,
}
use mathlib.Core.Path.{subst}
use mathlib.Core.List.{append_assoc, append-nil}
use iceberg_cxx.ThreadPool.{
  Status, running, wait_pending, cancel_pending, Worker, Pool, submit, stop, stopped_status,
}
use iceberg_cxx.ThreadPool.Counts.{
  total, one, is_waiting, is_ready, is_exited, Changes-total, wake-waiting, wake-total,
}
use iceberg_cxx.ThreadPool.Steps.{
  Notified, woken, nobody, WorkerStep, wait, end, take, finish, Step, works, wakes, submits, stops,
  Reach, start, later,
}
use iceberg_cxx.ThreadPool.Sound.{
  IsSound, start-IsSound, wait-IsSound, end-IsSound, take-IsSound, finish-IsSound, wake-IsSound,
}

Status-cases : (s : Status) → (s ≡ running) ⊎ (s ≡ wait_pending) ⊎ (s ≡ cancel_pending)
Status-cases running = inl refl
Status-cases wait_pending = inr (inl refl)
Status-cases cancel_pending = inr (inr refl)

none-some {ℓ} : {A : Type ℓ} {a : A} → none ≡ some a → ⊥
none-some h = cc

abbrev submitted_to : ℕ → Pool → Pool
submitted_to task p = record p {
  tasks_to_do = p.tasks_to_do ++ task ∷ [];
  submitted = p.submitted ++ task ∷ [];
}

submit_running :
    (task : ℕ) (p p' : Pool)
    → submit task p ≡ some p'
    → (p.status ≡ running) × (submitted_to task p ≡ p')
unfolding submit
submit_running task p p' e = elim (Status-cases p.status) [
  | inl k ↦ (k, eq_of_some-eq-some (sym (rw k refl) ∙ e))
  | inr (inl k) ↦ absurd (none-some (sym (rw k refl) ∙ e))
  | inr (inr k) ↦ absurd (none-some (sym (rw k refl) ∙ e))
]

stopped_drains :
    (w : Bool) (tasks : List ℕ)
    → (w ≡ false) ⊎ (stopped_status w ≡ cancel_pending → ⊥) ⊎ (tasks ≡ [])
stopped_drains true tasks = inr (inl (λ k. cc))
stopped_drains false tasks = inl refl

module _ {w : Bool} {n : ℕ} {p : Pool} (s : IsSound w n p) where
  works-IsSound : {p' : Pool} → WorkerStep p p' → IsSound w n p'
  works-IsSound (wait e c) = wait-IsSound s e c
  works-IsSound (end e c) = end-IsSound s e c
  works-IsSound (take e c) = take-IsSound s e c
  works-IsSound (finish c) = finish-IsSound s c

  -- A task is put at the end of the queue, and a waiting thread is woken for it.
  submitted-IsSound :
      {threads : List Worker} (task : ℕ)
      → p.status ≡ running
      → Notified p.threads threads
      → IsSound w n (record (submitted_to task p) { threads = threads })
  submitted-IsSound task run (nobody none_waits) = record {
    fifo = sym (append_assoc p.taken p.tasks_to_do (task ∷ [])) ∙ ap (λ v. v ++ task ∷ []) s.fifo;
    workers = s.workers;
    prompt = inl none_waits;
    ended = s.ended;
    drained = inr (inl (λ k. cc));
  }
  submitted-IsSound task run (woken c) = record {
    fifo = sym (append_assoc p.taken p.tasks_to_do (task ∷ [])) ∙ ap (λ v. v ++ task ∷ []) s.fifo;
    workers = omega (arith, s.workers, Changes-total one c);
    prompt = elim s.prompt [
      | inl k ↦ absurd (omega (arith, Changes-total is_waiting c))
      | inr k ↦ inr (
        k.0,
        omega (arith, Changes-total is_ready c, k.1, length-append p.tasks_to_do (task ∷ [])),
      )
    ];
    ended = elim s.ended [ inl k ↦ inl (omega (arith, Changes-total is_exited c)) | inr k ↦ inr k ];
    drained = inr (inl (λ k. cc));
  }

  stop-IsSound : IsSound w n (stop w p)
  unfolding stop
  stop-IsSound = elim (Status-cases p.status) [
    | inl k ↦
        rw (stop, k)
          (record {
            fifo = s.fifo;
            workers = wake-total one p.threads refl ∙ s.workers;
            prompt = inl (wake-waiting p.threads);
            ended = elim s.ended [
              | inl m ↦ inl (wake-total is_exited p.threads refl ∙ m)
              | inr m ↦ absurd cc
            ];
            drained = stopped_drains w p.tasks_to_do;
          })
    | inr (inl k) ↦ rw (stop, k) s
    | inr (inr k) ↦ rw (stop, k) s
  ]

Step-IsSound : {w : Bool} {n : ℕ} {p p' : Pool} → IsSound w n p → Step w p p' → IsSound w n p'
Step-IsSound s (works step) = works-IsSound s step
Step-IsSound s (wakes c) = wake-IsSound s c
Step-IsSound {w} {n} {p} s (submits {p' = p'} {threads = threads} task e notified) =
    let (run, same) = submit_running task p p' e in
    subst (λ v. IsSound w n (record v { threads = threads })) same
      (submitted-IsSound s task run (subst (λ v. Notified v.threads threads) (sym same) notified))
Step-IsSound s stops = stop-IsSound s

-- However a pool came about, tasks are taken in the order of their submission and none is lost; a
-- thread waits only while the pool runs and as many threads as there are tasks are ready to take
-- them; no thread ends before the tasks are cancelled, and in a pool that waits for remaining tasks
-- they are cancelled only when none is left.
pub Reach-IsSound : {w : Bool} {n : ℕ} {p : Pool} → Reach w n p → IsSound w n p
Reach-IsSound {w} {n} start = start-IsSound w n
Reach-IsSound (later r step) = Step-IsSound (Reach-IsSound r) step

-- When all threads of a pool that is only stopped to wait for remaining tasks have ended, and there
-- is at least one, every task that was submitted was taken, in order.
pub Reach-taken :
    {n : ℕ} {p : Pool}
    → Reach true (suc n) p
    → total is_exited p.threads ≡ suc n
    → p.taken ≡ p.submitted
Reach-taken {n} {p} r e =
    let s = Reach-IsSound r in
    elim s.ended [
      | inl k ↦ absurd (omega arith)
      | inr k ↦ elim s.drained [
        | inl f ↦ cc
        | inr (inl f) ↦ absurd (f k)
        | inr (inr f) ↦ sym (append-nil p.taken) ∙ ap (λ v. p.taken ++ v) (sym f) ∙ s.fifo
      ]
    ]
