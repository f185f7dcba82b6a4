-- ===== src/Scan/Optimizer/Events.antt =====
-- Events of iceberg/tea_scan.cpp in the order of `Event::operator<`, and what sorting keeps.
use iceberg_cxx.Common.{
  ℕ, suc, ◌+◌, ◌≡◌, refl, inl, inr, Bool, true, false, List, [], ◌∷◌, ◌++◌, arith, All,
  if◌then◌else◌, Bool-cases,
}
use iceberg_cxx.PositionalDelete.Position.{bytes_lt_irrefl, bytes_lt_asym, bytes_not_lt_trans}
use iceberg_cxx.Scan.Optimizer.{Event, event_lt, type_number, insert_event, sort_events}

pub event_lt_irrefl : (e : Event) → event_lt e e ≡ false
unfolding event_lt
event_lt_irrefl e = ground (arith, bytes_lt_irrefl e.path)

pub event_lt_asym : (e f : Event) → event_lt e f ≡ true → event_lt f e ≡ false
unfolding event_lt
event_lt_asym e f h = ground (arith, bytes_lt_asym e.path f.path, bytes_lt_asym f.path e.path)

pub event_not_lt_trans :
    (e f g : Event) → event_lt f e ≡ false → event_lt g f ≡ false → event_lt g e ≡ false
unfolding event_lt
event_not_lt_trans e f g h k = ground (
  arith,
  bytes_not_lt_trans e.path f.path g.path,
  bytes_not_lt_trans g.path e.path f.path,
  bytes_not_lt_trans f.path g.path e.path,
)

pub type_number-eq_of_event_not_lt :
    (e f : Event)
    → event_lt e f ≡ false
    → event_lt f e ≡ false
    → type_number e.kind ≡ type_number f.kind
unfolding event_lt
type_number-eq_of_event_not_lt e f h k = ground arith

unfoldable pub count : (Event → Bool) → List Event → ℕ
count test [] = 0
count test (e ∷ events) = if test e then suc (count test events) else count test events

pub count-append :
    (test : Event → Bool) (xs ys : List Event)
    → count test (xs ++ ys) ≡ count test xs + count test ys
unfolding count
count-append test [] ys = omega arith
count-append test (x ∷ xs) ys = ground (arith, count-append test xs ys)

count-insert_event :
    (test : Event → Bool) (e : Event) (events : List Event)
    → count test (insert_event e events) ≡ count test (e ∷ events)
unfolding count insert_event
count-insert_event test e [] = refl
count-insert_event test e (f ∷ events) = ground (arith, count-insert_event test e events)

pub count-sort_events :
    (test : Event → Bool) (events : List Event)
    → count test (sort_events events) ≡ count test events
unfolding count sort_events
count-sort_events test [] = refl
count-sort_events test (e ∷ events) =
    ground (arith, count-insert_event test e (sort_events events), count-sort_events test events)

-- No event of the list is before the given one.
abbrev pub NoneBefore : Event → List Event → Type 0
NoneBefore e events = All (λ f. event_lt f e ≡ false) events

abbrev pub IsSorted : List Event → Type 0
IsSorted [] = Unit
IsSorted (e ∷ events) = NoneBefore e events × IsSorted events

pub NoneBefore-weaken :
    (e f : Event) (events : List Event)
    → event_lt f e ≡ false
    → NoneBefore f events
    → NoneBefore e events
NoneBefore-weaken e f [] h none_before = tt
NoneBefore-weaken e f (g ∷ events) h (first, rest) =
    (event_not_lt_trans e f g h first, NoneBefore-weaken e f events h rest)

NoneBefore-insert_event :
    (e f : Event) (events : List Event)
    → event_lt f e ≡ false
    → NoneBefore e events
    → NoneBefore e (insert_event f events)
unfolding insert_event
NoneBefore-insert_event e f [] h none_before = (h, tt)
NoneBefore-insert_event e f (g ∷ events) h (first, rest) = elim (Bool-cases (event_lt g f)) [
  | inl before ↦ rw before (first, NoneBefore-insert_event e f events h rest)
  | inr after ↦ rw after (h, (first, rest))
]

insert_event-IsSorted :
    (e : Event) (events : List Event) → IsSorted events → IsSorted (insert_event e events)
unfolding insert_event
insert_event-IsSorted e [] sorted = (tt, tt)
insert_event-IsSorted e (f ∷ events) (first, rest) = elim (Bool-cases (event_lt f e)) [
  | inl before ↦ rw before (
    NoneBefore-insert_event f e events (event_lt_asym f e before) first,
    insert_event-IsSorted e events rest,
  )
  | inr after ↦ rw after ((after, NoneBefore-weaken e f events after first), (first, rest))
]

pub sort_events-IsSorted : (events : List Event) → IsSorted (sort_events events)
unfolding sort_events
sort_events-IsSorted [] = tt
sort_events-IsSorted (e ∷ events) =
    insert_event-IsSorted e (sort_events events) (sort_events-IsSorted events)
