-- ===== src/Scan/Optimizer/Bounds.antt =====
-- The bounds that `FindBucketLowerBounds` of iceberg/tea_scan.cpp returns: the checks of the sweep
-- hold, and no bound cuts a range.
use iceberg_cxx.Common.{
  ℕ, suc, ◌+◌, ◌-◌, ◌<◌, ◌≡◌, refl, inl, inr, Bool, true, false, ◌&&◌, not, List, [], ◌∷◌, arith,
  All, ◌==◌, if◌then◌else◌, Bool-cases, ok, ◌>>=◌, >>=-eq-ok,
}
use mathlib.Core.Path.{subst}
use iceberg_cxx.Filter.Value.{Bytes}
use iceberg_cxx.Filter.Order.{ltb_bytes}
use iceberg_cxx.Scan.Optimizer.{
  EventType, start_positional_delete, data_file, end_positional_delete, Event, event_lt,
  next_balance, sweep,
}
use iceberg_cxx.Scan.Optimizer.Events.{
  event_lt_irrefl, type_number-eq_of_event_not_lt, count, NoneBefore, IsSorted,
}
use iceberg_cxx.Scan.Optimizer.Sweep
use iceberg_cxx.Scan.Optimizer.Sweep.{is_start, is_end}

-- Up to and including `k`; no range is singled out.
abbrev pub until : Event → Event → Bool
until k e = not (event_lt k e)

abbrev pub Closed : ℕ → List Event → Type 0
Closed = Sweep.Covers until (λ k. Unit) (λ k. 0)

-- Before `k`, with the range from `low` to `high` open in between.
abbrev pub sooner : Event → Event → Bool
sooner k e = event_lt e k

abbrev pub range_start : Bytes → Event
range_start low = record { kind = start_positional_delete; path = low }

abbrev pub range_end : Bytes → Event
range_end high = record { kind = end_positional_delete; path = high }

abbrev pub inside : Bytes → Bytes → Event → ℕ
inside low high k = if event_lt (range_start low) k && event_lt k (range_end high) then 1 else 0

abbrev pub NotEnd : Event → Type 0
NotEnd k = is_end k.kind ≡ false

abbrev pub Open : Bytes → Bytes → ℕ → List Event → Type 0
Open low high = Sweep.Covers sooner NotEnd (inside low high)

until_end :
    (k e : Event) → Unit {0} → event_lt k e ≡ false → is_end e.kind ≡ true → until k e ≡ true
until_end k e allowed reached end = rw reached

sooner_end :
    (k e : Event) → NotEnd k → event_lt k e ≡ false → is_end e.kind ≡ true → sooner k e ≡ true
sooner_end k e allowed reached end = ground (arith, type_number-eq_of_event_not_lt k e)

next_balance-Closed :
    (balance next : ℕ) (e : Event) (events : List Event)
    → IsSorted (e ∷ events)
    → next_balance e.kind balance ≡ ok next
    → Closed balance (e ∷ events)
    → Closed next events
next_balance-Closed = Sweep.next_balance-Covers until (λ k. Unit) (λ k. 0) until_end

next_balance-Open :
    (low high : Bytes) (balance next : ℕ) (e : Event) (events : List Event)
    → IsSorted (e ∷ events)
    → next_balance e.kind balance ≡ ok next
    → Open low high balance (e ∷ events)
    → Open low high next events
next_balance-Open low high = Sweep.next_balance-Covers sooner NotEnd (inside low high) sooner_end

-- Every event has been matched when the sweep ends.
abbrev pub Balanced : ℕ → List Event → Type 0
Balanced balance events =
    count (λ e. is_end e.kind) events ≡ balance + count (λ e. is_start e.kind) events

count-none :
    (test : EventType → Bool) (k : Event) (events : List Event)
    → NoneBefore k events
    → count (λ e. test e.kind && event_lt e k) events ≡ 0
unfolding count
count-none test k [] none_before = refl
count-none test k (e ∷ events) (first, rest) = ground (arith, count-none test k events rest)

count-after_end :
    (e : Event) (events : List Event)
    → is_end e.kind ≡ true
    → NoneBefore e events
    → count (λ f. is_start f.kind && until e f) events ≡ 0
unfolding count
count-after_end e [] end none_before = refl
count-after_end e (f ∷ events) end (first, rest) =
    ground (arith, type_number-eq_of_event_not_lt e f, count-after_end e events end rest)

-- At an event that ends a range the balance is positive.
end-pos :
    (balance : ℕ) (e : Event) (events : List Event)
    → IsSorted (e ∷ events)
    → Closed balance (e ∷ events)
    → is_end e.kind ≡ true
    → 0 < balance
unfolding Sweep.starts Sweep.ends count
end-pos balance e events (first, sorted) closed end =
    ground (arith, closed e tt (event_lt_irrefl e), event_lt_irrefl e, count-after_end e events)

next_balance_total :
    (balance : ℕ) (e : Event) (events : List Event)
    → IsSorted (e ∷ events)
    → Closed balance (e ∷ events)
    → (next : ℕ) × (next_balance e.kind balance ≡ ok next)
unfolding next_balance
next_balance_total balance e events sorted closed =
    by_kind e.kind (λ end. end-pos balance e events sorted closed end)
  where
    by_kind :
        (kind : EventType)
        → (is_end kind ≡ true → 0 < balance)
        → (next : ℕ) × (next_balance kind balance ≡ ok next)
    by_kind start_positional_delete h = (suc balance, refl)
    by_kind data_file h = (balance, refl)
    by_kind end_positional_delete h = (balance - 1, ground (arith, h refl))

next_balance-Balanced :
    (balance next : ℕ) (e : Event) (events : List Event)
    → next_balance e.kind balance ≡ ok next
    → Balanced balance (e ∷ events)
    → Balanced next events
unfolding next_balance count
next_balance-Balanced balance next e events run balanced = ground arith

-- No check of the loop fails.
pub sweep_total :
    (balance : ℕ) (events : List Event)
    → IsSorted events
    → Closed balance events
    → Balanced balance events
    → (bounds : List Bytes) × (sweep balance events ≡ ok bounds)
unfolding sweep
sweep_total balance [] sorted closed balanced = unfold count in ([], ground arith)
sweep_total balance (e ∷ events) sorted closed balanced =
    let (next, step) = next_balance_total balance e events sorted closed in
    let (rest, run) =
      sweep_total next events sorted.1
        (next_balance-Closed balance next e events sorted step closed)
        (next_balance-Balanced balance next e events step balanced) in
    (if balance == 0 then e.path ∷ rest else rest, rw (step, ◌>>=◌, run) refl)

-- A bound outside the range: not above its lower end, or above its upper end.
abbrev pub Clear : Bytes → Bytes → Bytes → Type 0
Clear low high bound = ltb_bytes low bound && not (ltb_bytes high bound) ≡ false

start_balance : (e : Event) {next : ℕ} → next_balance e.kind 0 ≡ ok next → is_end e.kind ≡ false
unfolding next_balance
start_balance e step = ground arith

-- Where the balance is zero the range is not open.
inside_at_zero :
    (low high : Bytes) (e : Event) (events : List Event)
    → NoneBefore e events
    → is_end e.kind ≡ false
    → Open low high 0 (e ∷ events)
    → inside low high e ≡ 0
unfolding Sweep.starts Sweep.ends count
inside_at_zero low high e events first not_end open_ranges = omega (
  arith,
  open_ranges e not_end (event_lt_irrefl e),
  count-none is_start e (e ∷ events) (event_lt_irrefl e, first),
)

Clear-of_inside :
    (low high : Bytes) (e : Event)
    → is_end e.kind ≡ false
    → inside low high e ≡ 0
    → Clear low high e.path
unfolding event_lt
Clear-of_inside low high e not_end outside = ground arith

-- No bound of the sweep cuts a range that is open throughout.
pub sweep-Clear :
    (low high : Bytes) (balance : ℕ) (events : List Event) {bounds : List Bytes}
    → IsSorted events
    → Open low high balance events
    → sweep balance events ≡ ok bounds
    → All (Clear low high) bounds
unfolding sweep
sweep-Clear low high balance [] {bounds} sorted open_ranges run =
    let same : [] ≡ bounds = ground arith in rw (← same) tt
sweep-Clear low high balance (e ∷ events) {bounds} sorted open_ranges run =
    let (next, step, rest_run) = >>=-eq-ok (next_balance e.kind balance) _ run in
    let (rest, later, same) = >>=-eq-ok (sweep next events) _ rest_run in
    let clear_rest : All (Clear low high) rest =
      sweep-Clear low high next events sorted.1
        (next_balance-Open low high balance next e events sorted step open_ranges) later in
    elim (Bool-cases (balance == 0)) [
      | inl at_zero ↦
          let zero_balance : balance ≡ 0 = ground arith in
          let not_end : is_end e.kind ≡ false =
            start_balance e
              (subst (λ (n : ℕ). next_balance e.kind n ≡ ok next) zero_balance step) in
          let opened : Open low high 0 (e ∷ events) =
            subst (λ (n : ℕ). Open low high n (e ∷ events)) zero_balance open_ranges in
          let outside = inside_at_zero low high e events sorted.0 not_end opened in
          let out : e.path ∷ rest ≡ bounds = ground arith in
          rw (← out) (Clear-of_inside low high e not_end outside, clear_rest)
      | inr above ↦ let out : rest ≡ bounds = ground arith in rw (← out) clear_rest
    ]
