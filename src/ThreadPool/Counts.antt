-- ===== src/ThreadPool/Counts.antt =====
-- Counting the threads of iceberg/common/threadpool.h by where they are.
use iceberg_cxx.Common.{ℕ, zero, suc, ◌+◌, ◌<◌, ◌≡◌, refl, ◌⊎◌, inl, inr, List, [], ◌∷◌, map, arith}
use iceberg_cxx.ThreadPool.{Worker, ready, waiting, exited, busy, wake, replicate}

-- One thread goes from a place to another.
pub data Changes (from to : Worker) : List Worker → List Worker → Type 0 where
  here : {threads : List Worker} → Changes from to (from ∷ threads) (to ∷ threads)
  there :
      {w : Worker} {threads threads' : List Worker}
      → Changes from to threads threads'
      → Changes from to (w ∷ threads) (w ∷ threads')

abbrev pub total : (Worker → ℕ) → List Worker → ℕ
total f [] = 0
total f (w ∷ threads) = f w + total f threads

abbrev pub one : Worker → ℕ
one w = 1

abbrev pub is_waiting : Worker → ℕ
is_waiting waiting = 1
is_waiting _ = 0

abbrev pub is_ready : Worker → ℕ
is_ready ready = 1
is_ready _ = 0

abbrev pub is_exited : Worker → ℕ
is_exited exited = 1
is_exited _ = 0

-- How many steps a thread is from its end, but for the tasks that it takes.
abbrev pub weight : Worker → ℕ
weight ready = 1
weight waiting = 0
weight exited = 0
weight (busy task) = 2

pub Changes-total :
    (f : Worker → ℕ) {from to : Worker} {threads threads' : List Worker}
    → Changes from to threads threads'
    → total f threads' + f from ≡ total f threads + f to
Changes-total f here = omega arith
Changes-total f (there c) = omega (arith, Changes-total f c)

pub wake-waiting : (threads : List Worker) → total is_waiting (map wake threads) ≡ 0
wake-waiting [] = refl
wake-waiting (ready ∷ threads) = omega (arith, wake-waiting threads)
wake-waiting (waiting ∷ threads) = omega (arith, wake-waiting threads)
wake-waiting (exited ∷ threads) = omega (arith, wake-waiting threads)
wake-waiting (busy task ∷ threads) = omega (arith, wake-waiting threads)

-- Waking keeps what does not tell waiting threads from ready ones.
pub wake-total :
    (f : Worker → ℕ) (threads : List Worker)
    → f ready ≡ f waiting
    → total f (map wake threads) ≡ total f threads
wake-total f [] e = refl
wake-total f (ready ∷ threads) e = omega (arith, wake-total f threads e)
wake-total f (waiting ∷ threads) e = omega (arith, wake-total f threads e)
wake-total f (exited ∷ threads) e = omega (arith, wake-total f threads e)
wake-total f (busy task ∷ threads) e = omega (arith, wake-total f threads e)

pub replicate-none : (f : Worker → ℕ) (n : ℕ) → f ready ≡ 0 → total f (replicate n) ≡ 0
replicate-none f zero e = refl
replicate-none f (suc n) e = omega (arith, replicate-none f n e)

pub replicate-every : (f : Worker → ℕ) (n : ℕ) → f ready ≡ 1 → total f (replicate n) ≡ n
replicate-every f zero e = refl
replicate-every f (suc n) e = omega (arith, replicate-every f n e)

-- A thread that stands at a place, and can go from it.
abbrev pub Movable : Worker → List Worker → Type 0
Movable from threads =
    (threads' : Worker → List Worker) × ((to : Worker) → Changes from to threads (threads' to))

-- A thread that neither waits nor is at its end.
abbrev pub Awake : List Worker → Type 0
Awake threads = Movable ready threads ⊎ ((task : ℕ) × Movable (busy task) threads)

behind : (w : Worker) {threads : List Worker} → Awake threads → Awake (w ∷ threads)
behind w (inl m) = inl ((λ to. w ∷ m.0 to), (λ to. there (m.1 to)))
behind w (inr m) = inr (m.0, ((λ to. w ∷ m.1.0 to), (λ to. there (m.1.1 to))))

pub find-Awake :
    (threads : List Worker)
    → total is_waiting threads + total is_exited threads < total one threads
    → Awake threads
find-Awake [] h = absurd (omega arith)
find-Awake (ready ∷ threads) h = inl ((λ to. to ∷ threads), (λ to. here))
find-Awake (busy task ∷ threads) h = inr (task, ((λ to. to ∷ threads), (λ to. here)))
find-Awake (waiting ∷ threads) h = behind waiting (find-Awake threads (omega arith))
find-Awake (exited ∷ threads) h = behind exited (find-Awake threads (omega arith))
