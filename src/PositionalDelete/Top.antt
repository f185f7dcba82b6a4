-- ===== src/PositionalDelete/Top.antt =====
-- Taking the top of the queue of iceberg/positional_delete/positional_delete.cpp: which reader it is
-- and which readers are left.
use iceberg_cxx.Common.{
  ◌+◌, ◌≡◌, refl, inl, inr, Bool, true, false, ◌||◌, none, some, List, [], ◌∷◌, arith, Bool-cases,
  All,
}
use iceberg_cxx.PositionalDelete.Position.{before, before_asym, not_before_trans}
use iceberg_cxx.PositionalDelete.Reader.{Reader, get_position}
use iceberg_cxx.PositionalDelete.Queue.{pop_top, reader_size, queue_size}

-- `pop_top` as a relation.
pub data Pops : List Reader → Reader → List Reader → Type 0 where
  last : {r : Reader} → Pops (r ∷ []) r []
  passes :
      {r m : Reader} {rs rest : List Reader}
      → before (get_position m) (get_position r) ≡ true
      → Pops rs m rest
      → Pops (r ∷ rs) m (r ∷ rest)
  stays :
      {r m : Reader} {rs rest : List Reader}
      → before (get_position m) (get_position r) ≡ false
      → Pops rs m rest
      → Pops (r ∷ rs) r (m ∷ rest)

pub pop_top-none : (queue : List Reader) → pop_top queue ≡ none → queue ≡ []
unfolding pop_top
pop_top-none [] e = refl
pop_top-none (r ∷ rs) e = ground (arith)

pub pop_top-cons :
    (r : Reader) (rs : List Reader)
    → (m : Reader) × (rest : List Reader) × (pop_top (r ∷ rs) ≡ some (m, rest))
      × Pops (r ∷ rs) m rest
unfolding pop_top
pop_top-cons r [] = (r, [], refl, last)
pop_top-cons r (s ∷ rs) =
    let (m, rest, e, p) = pop_top-cons s rs in
    elim (Bool-cases (before (get_position m) (get_position r))) [
      | inl h ↦ (m, r ∷ rest, rw (e, h) refl, passes h p)
      | inr h ↦ (r, m ∷ rest, rw (e, h) refl, stays h p)
    ]

pub Pops-All :
    (P : Reader → Type 0) {queue : List Reader} {r : Reader} {rest : List Reader}
    → Pops queue r rest
    → All P queue
    → P r × All P rest
Pops-All P last a = a
Pops-All P (passes h p) (a, b) = let (c, d) = Pops-All P p b in (c, (a, d))
Pops-All P (stays h p) (a, b) = (a, Pops-All P p b)

-- A test that some reader passes.
abbrev pub any_reader : (Reader → Bool) → List Reader → Bool
any_reader f [] = false
any_reader f (r ∷ rs) = f r || any_reader f rs

pub Pops-any_reader :
    (f : Reader → Bool) {queue : List Reader} {r : Reader} {rest : List Reader}
    → Pops queue r rest
    → any_reader f queue ≡ (f r || any_reader f rest)
Pops-any_reader f last = refl
Pops-any_reader f (passes h p) = ground (arith, Pops-any_reader f p)
Pops-any_reader f (stays h p) = ground (arith, Pops-any_reader f p)

pub Pops-queue_size :
    {queue : List Reader} {r : Reader} {rest : List Reader}
    → Pops queue r rest
    → queue_size queue ≡ reader_size r + queue_size rest
unfolding queue_size
Pops-queue_size last = refl
Pops-queue_size (passes h p) = ground (arith, Pops-queue_size p)
Pops-queue_size (stays h p) = ground (arith, Pops-queue_size p)

-- No other reader stands before the top.
abbrev pub NotBefore : Reader → Reader → Type 0
NotBefore m r = before (get_position r) (get_position m) ≡ false

NotBefore-All :
    (m r : Reader) (rest : List Reader)
    → NotBefore r m
    → All (NotBefore m) rest
    → All (NotBefore r) rest
NotBefore-All m r [] h a = tt
NotBefore-All m r (s ∷ rest) h (a, b) = (
  not_before_trans (get_position r) (get_position m) (get_position s) h a,
  NotBefore-All m r rest h b,
)

pub Pops-NotBefore :
    {queue : List Reader} {r : Reader} {rest : List Reader}
    → Pops queue r rest
    → All (NotBefore r) rest
Pops-NotBefore last = tt
Pops-NotBefore (passes h p) = (before_asym _ _ h, Pops-NotBefore p)
Pops-NotBefore (stays h p) = (h, NotBefore-All _ _ _ h (Pops-NotBefore p))
