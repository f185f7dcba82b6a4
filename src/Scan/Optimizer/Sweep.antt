-- ===== src/Scan/Optimizer/Sweep.antt =====
-- The loop of `FindBucketLowerBounds` of iceberg/tea_scan.cpp: what its balance counts.
use iceberg_cxx.Common.{ℕ, ◌+◌, ◌≤◌, ◌≡◌, Bool, true, false, ◌&&◌, List, [], ◌∷◌, arith, ok}
use iceberg_cxx.Scan.Optimizer.{
  EventType, start_positional_delete, data_file, end_positional_delete, Event, event_lt,
  next_balance,
}
use iceberg_cxx.Scan.Optimizer.Events.{event_not_lt_trans, count, IsSorted}

abbrev pub is_start : EventType → Bool
is_start start_positional_delete = true
is_start data_file = false
is_start end_positional_delete = false

abbrev pub is_end : EventType → Bool
is_end start_positional_delete = false
is_end data_file = false
is_end end_positional_delete = true

-- The event is at the first of the list or after it.
abbrev pub Reaches : List Event → Event → Type 0
Reaches [] k = ⊥
Reaches (e ∷ events) k = event_lt k e ≡ false

-- Ranges that are open at an event `k`, by a reading `met k` of which events count as before it.
-- The balance never falls below their number, `open_at k`.
module _ (met : Event → Event → Bool) (Allowed : Event → Type 0) (open_at : Event → ℕ) where
  unfoldable pub starts : Event → List Event → ℕ
  starts k events = count (λ e. is_start e.kind && met k e) events

  unfoldable pub ends : Event → List Event → ℕ
  ends k events = count (λ e. is_end e.kind && met k e) events

  abbrev pub Covers : ℕ → List Event → Type 0
  Covers balance events =
      (k : Event)
      → Allowed k
      → Reaches events k
      → ends k events + open_at k ≤ balance + starts k events

  pub next_balance-Covers :
      (met_end : (k e : Event)
        → Allowed k
        → event_lt k e ≡ false
        → is_end e.kind ≡ true
        → met k e ≡ true)
      (balance next : ℕ) (e : Event) (events : List Event)
      → IsSorted (e ∷ events)
      → next_balance e.kind balance ≡ ok next
      → Covers balance (e ∷ events)
      → Covers next events
  unfolding next_balance starts ends count
  next_balance-Covers met_end balance next e [] sorted run covers k allowed reaches =
      elim reaches [ ]
  next_balance-Covers met_end balance next e (f ∷ events) ((first, _), _) run covers k allowed
        reaches =
      let reached = event_not_lt_trans e f k first reaches in
      let before = covers k allowed reached in ground (arith, met_end k e allowed reached)
