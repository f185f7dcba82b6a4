-- ===== src/DeletionVector/Elements.antt =====
-- The elements of a range: GetElems and Cardinality of iceberg/deletion_vector.cpp.
use iceberg_cxx.Common.{
  ℕ, suc, ◌+◌, ◌%◌, ◌≤◌, ◌<◌, ◌≡◌, refl, sym, ap, ◌∙◌, inl, inr, Bool, true, false, ◌&&◌, List, [],
  ◌∷◌, arith, ltb, leb, if◌then◌else◌, Bool-cases, length,
}
use mathlib.Core.Path.{subst}
use iceberg_cxx.Selection.Filtered.{contains, AtLeast}
use iceberg_cxx.PositionalDelete.Rows.{Rising}
use iceberg_cxx.DeletionVector.{BitmapLibrary, sub_u64, bit, up_to, cardinality_in, get_elems}

-- The elements from l on, and how many are at most x.
abbrev pub from : ℕ → List ℕ → List ℕ
from l [] = []
from l (x ∷ xs) = if ltb x l then from l xs else x ∷ xs

abbrev pub count_up_to : ℕ → List ℕ → ℕ
count_up_to r [] = 0
count_up_to r (x ∷ xs) = bit (leb x r) + count_up_to r xs

-- What CRoaring documents of its operations, for the ascending list of the elements of a bitmap.
pub record BitmapLaws (lib : BitmapLibrary) (elements : lib.Bitmap → List ℕ) : Type 0 where
  pub rising : (b : lib.Bitmap) → Rising (elements b)
  pub contains_law : (b : lib.Bitmap) (x : ℕ) → lib.contains_in b x ≡ contains (elements b) x
  pub rank_law : (b : lib.Bitmap) (x : ℕ) → lib.rank b x ≡ count_up_to x (elements b)
  pub iterate_law : (b : lib.Bitmap) (l : ℕ) → lib.iterate b l ≡ from l (elements b)

contains-behind : (l x : ℕ) (xs : List ℕ) → l < x → AtLeast x xs → contains xs l ≡ false
unfolding contains
contains-behind l x [] h a = refl
contains-behind l x (y ∷ ys) h (a, b) = ground (arith, contains-behind l x ys h b)

count-behind : (l x : ℕ) (xs : List ℕ) → l < x → AtLeast x xs → count_up_to l xs ≡ 0
count-behind l x [] h a = refl
count-behind l x (y ∷ ys) h (a, b) = ground (arith, count-behind l x ys h b)

length-up_to : (r : ℕ) (xs : List ℕ) → Rising xs → length (up_to r xs) ≡ count_up_to r xs
unfolding up_to
length-up_to r [] s = refl
length-up_to r (x ∷ xs) (a, s) = elim (Bool-cases (leb x r)) [
  | inl e ↦ rw e (omega (arith, length-up_to r xs s))
  | inr e ↦ rw e (omega (arith, count-behind r (suc x) xs (ground arith) a))
]

-- A range holds what is up to its end, less what is before its begin.
count-range :
    (l r : ℕ) (xs : List ℕ)
    → l ≤ r
    → Rising xs
    → count_up_to r xs + bit (contains xs l) ≡ count_up_to l xs + length (up_to r (from l xs))
unfolding contains up_to
count-range l r [] h s = refl
count-range l r (x ∷ xs) h (a, s) = elim (Bool-cases (ltb x l)) [
  | inl e ↦ rw e (ground (arith, count-range l r xs h s))
  | inr e ↦ rw e (
      ground (
        arith,
        length-up_to r (x ∷ xs) (a, s),
        contains-behind l (suc x) xs,
        count-behind l (suc x) xs,
      ))
]

count_mono : (l r : ℕ) (xs : List ℕ) → l ≤ r → count_up_to l xs ≤ count_up_to r xs
count_mono l r [] h = omega arith
count_mono l r (x ∷ xs) h = ground (arith, count_mono l r xs h)

count-length : (r : ℕ) (xs : List ℕ) → count_up_to r xs ≤ length xs
count-length r [] = omega arith
count-length r (x ∷ xs) = ground (arith, count-length r xs)

bit_small : (c : Bool) → bit c ≤ 1
bit_small true = omega arith
bit_small false = omega arith

wrap :
    (R L c n : ℕ)
    → R + c ≡ L + n
    → L ≤ R
    → R < 18446744073709551615
    → c ≤ 1
    → (sub_u64 R L + c) % 18446744073709551616 ≡ n
wrap R L c n e h k b = omega arith

up_to-AtLeast : (r x : ℕ) (xs : List ℕ) → AtLeast x xs → AtLeast x (up_to r xs)
unfolding up_to
up_to-AtLeast r x [] a = tt
up_to-AtLeast r x (y ∷ ys) (a, b) = elim (Bool-cases (leb y r)) [
  | inl e ↦ rw (AtLeast, e) (a, up_to-AtLeast r x ys b)
  | inr e ↦ rw (AtLeast, e) tt
]

up_to-Rising : (r : ℕ) (xs : List ℕ) → Rising xs → Rising (up_to r xs)
unfolding up_to
up_to-Rising r [] s = tt
up_to-Rising r (x ∷ xs) (a, s) = elim (Bool-cases (leb x r)) [
  | inl e ↦ rw (Rising, e) (up_to-AtLeast r (suc x) xs a, up_to-Rising r xs s)
  | inr e ↦ rw (Rising, e) tt
]

from-Rising : (l : ℕ) (xs : List ℕ) → Rising xs → Rising (from l xs)
from-Rising l [] s = tt
from-Rising l (x ∷ xs) (a, s) = elim (Bool-cases (ltb x l)) [
  | inl e ↦ rw (Rising, e) (from-Rising l xs s)
  | inr e ↦ rw (Rising, e) (a, s)
]

contains-up_to :
    (r x : ℕ) (xs : List ℕ) → Rising xs → contains (up_to r xs) x ≡ (leb x r && contains xs x)
unfolding contains up_to
contains-up_to r x [] s = ground arith
contains-up_to r x (y ∷ ys) (a, s) = elim (Bool-cases (leb y r)) [
  | inl e ↦ rw e (ground (arith, contains-up_to r x ys s))
  | inr e ↦ rw e (ground (arith, contains-behind x (suc y) ys))
]

contains-range :
    (l r x : ℕ) (xs : List ℕ)
    → Rising xs
    → contains (up_to r (from l xs)) x ≡ (leb l x && leb x r && contains xs x)
unfolding contains up_to
contains-range l r x [] s = ground arith
contains-range l r x (y ∷ ys) (a, s) = elim (Bool-cases (ltb y l)) [
  | inl e ↦ rw e (ground (arith, contains-range l r x ys s))
  | inr e ↦ rw e (ground (arith, contains-up_to r x (y ∷ ys) (a, s), contains-behind x (suc y) ys))
]

module _ (lib : BitmapLibrary) (elements : lib.Bitmap → List ℕ)
    (laws : BitmapLaws lib elements) where
  -- The number that Cardinality gives for a range is the number of elements that GetElems gives, if
  -- it fits in 64 bits and the range is not reversed.
  pub cardinality_in-get_elems :
      (b : lib.Bitmap) (l r : ℕ)
      → l ≤ r
      → length (elements b) < 18446744073709551615
      → cardinality_in lib b l r ≡ length (get_elems lib b l r)
  unfolding cardinality_in get_elems
  cardinality_in-get_elems b l r h small =
      ap (λ v. (sub_u64 v (lib.rank b l) + bit (lib.contains_in b l)) % 18446744073709551616)
        (laws.rank_law b r)
      ∙ ap
          (λ v.
            (sub_u64 (count_up_to r (elements b)) v + bit (lib.contains_in b l))
            % 18446744073709551616)
          (laws.rank_law b l)
      ∙ ap
          (λ v.
            (sub_u64 (count_up_to r (elements b)) (count_up_to l (elements b)) + bit v)
            % 18446744073709551616)
          (laws.contains_law b l)
      ∙ wrap (count_up_to r (elements b)) (count_up_to l (elements b))
          (bit (contains (elements b) l)) (length (up_to r (from l (elements b))))
          (count-range l r (elements b) h (laws.rising b)) (count_mono l r (elements b) h)
          (omega (arith, count-length r (elements b))) (bit_small (contains (elements b) l))
      ∙ ap (λ v. length (up_to r v)) (sym (laws.iterate_law b l))

  -- GetElems gives the elements of the range, each once and in order.
  pub get_elems-contains :
      (b : lib.Bitmap) (l r x : ℕ)
      → contains (get_elems lib b l r) x ≡ (leb l x && leb x r && lib.contains_in b x)
  unfolding get_elems
  get_elems-contains b l r x =
      ap (λ v. contains (up_to r v) x) (laws.iterate_law b l)
      ∙ contains-range l r x (elements b) (laws.rising b)
      ∙ ap (λ v. leb l x && leb x r && v) (sym (laws.contains_law b x))

  pub get_elems-Rising : (b : lib.Bitmap) (l r : ℕ) → Rising (get_elems lib b l r)
  unfolding get_elems
  get_elems-Rising b l r =
      subst (λ v. Rising (up_to r v)) (sym (laws.iterate_law b l))
        (up_to-Rising r (from l (elements b)) (from-Rising l (elements b) (laws.rising b)))
