-- ===== src/Uuid/Text.antt =====
-- Reading the text of a Uuid of iceberg/uuid.cpp.
use iceberg_cxx.Common.{
  ℕ, zero, suc, ◌+◌, ◌*◌, ◌/◌, ◌%◌, ◌<◌, ◌≡◌, refl, ap, ◌∙◌, true, false, some, List, [], ◌∷◌, ◌++◌,
  arith, ltb, leb, length, All,
}
use mathlib.Core.List.{append_assoc}
use mathlib.Core.Path.{subst}
use iceberg_cxx.Common.Options.{◌>>=◌}
use iceberg_cxx.Filter.Value.{Bytes}
use iceberg_cxx.Uuid.{
  Uuid, digit, nibble, set_field, read_node, parse_fields, has_separators, parse, append_hex_8,
  append_hex_16, append_hex_32, append_node, to_string,
}

-- The fields fit in their types, and the node has six bytes.
unfoldable pub IsValid : Uuid → Type 0
IsValid u =
    (u.time_low < 4294967296)
    × (u.time_mid < 65536)
    × (u.time_hi_and_version < 65536)
    × (u.clock_seq < 65536)
    × (length u.node ≡ 6)
    × All (λ n. n < 256) u.node

nibble-digit : (n : ℕ) → n < 16 → nibble (digit n) ≡ some n
unfolding nibble digit
nibble-digit zero h = refl
nibble-digit (suc zero) h = refl
nibble-digit (suc (suc zero)) h = refl
nibble-digit (suc (suc (suc zero))) h = refl
nibble-digit (suc (suc (suc (suc zero)))) h = refl
nibble-digit (suc (suc (suc (suc (suc zero))))) h = refl
nibble-digit (suc (suc (suc (suc (suc (suc zero)))))) h = refl
nibble-digit (suc (suc (suc (suc (suc (suc (suc zero))))))) h = refl
nibble-digit (suc (suc (suc (suc (suc (suc (suc (suc zero)))))))) h = refl
nibble-digit (suc (suc (suc (suc (suc (suc (suc (suc (suc zero))))))))) h = refl
nibble-digit (suc (suc (suc (suc (suc (suc (suc (suc (suc (suc zero)))))))))) h = refl
nibble-digit (suc (suc (suc (suc (suc (suc (suc (suc (suc (suc (suc zero))))))))))) h = refl
nibble-digit (suc (suc (suc (suc (suc (suc (suc (suc (suc (suc (suc (suc zero)))))))))))) h = refl
nibble-digit (suc (suc (suc (suc (suc (suc (suc (suc (suc (suc (suc (suc (suc zero))))))))))))) h =
    refl
nibble-digit
      (suc (suc (suc (suc (suc (suc (suc (suc (suc (suc (suc (suc (suc (suc zero)))))))))))))) h =
    refl
nibble-digit
      (suc (suc (suc (suc (suc (suc (suc (suc (suc (suc (suc (suc (suc (suc (suc zero)))))))))))))))
      h =
    refl
nibble-digit
      (suc
        (suc (suc (suc (suc (suc (suc (suc (suc (suc (suc (suc (suc (suc (suc (suc n))))))))))))))))
      h =
    absurd (omega arith)

set_field-digit :
    (k field n : ℕ) (it : Bytes)
    → n < 16
    → set_field (suc k) field (digit n ∷ it) ≡ set_field k (16 * field + n) it
unfolding set_field
set_field-digit k field n it h =
    ap (λ o. o >>= (λ d. set_field k (16 * field + d) it)) (nibble-digit n h)

join_256 :
    (field n : ℕ) → n < 65536 → 256 * (256 * field + n / 256 % 256) + n % 256 ≡ 65536 * field + n
join_256 field n h = omega arith

join_65536 : (n : ℕ) → n < 4294967296 → 65536 * (65536 * 0 + n / 65536 % 65536) + n % 65536 ≡ n
join_65536 n h = omega arith

from_zero : (k n : ℕ) → k * 0 + n ≡ n
from_zero k n = ground arith

join_16 : (field n : ℕ) → n < 256 → 16 * (16 * field + n / 16 % 16) + n % 16 ≡ 256 * field + n
join_16 field n h = omega arith

set_field-append_hex_8 :
    (k field n : ℕ) (it : Bytes)
    → n < 256
    → set_field (suc (suc k)) field (append_hex_8 n ++ it) ≡ set_field k (256 * field + n) it
unfolding append_hex_8
set_field-append_hex_8 k field n it h =
    set_field-digit (suc k) field (n / 16 % 16) (digit (n % 16) ∷ it) (omega arith)
    ∙ set_field-digit k (16 * field + n / 16 % 16) (n % 16) it (omega arith)
    ∙ ap (λ v. set_field k v it) (join_16 field n h)

set_field-append_hex_16 :
    (k field n : ℕ) (it : Bytes)
    → n < 65536
    → set_field (suc (suc (suc (suc k)))) field (append_hex_16 n ++ it)
      ≡ set_field k (65536 * field + n) it
unfolding append_hex_16
set_field-append_hex_16 k field n it h =
    ap (set_field (suc (suc (suc (suc k)))) field)
      (append_assoc (append_hex_8 (n / 256 % 256)) (append_hex_8 (n % 256)) it)
    ∙ set_field-append_hex_8 (suc (suc k)) field (n / 256 % 256) (append_hex_8 (n % 256) ++ it)
        (omega arith)
    ∙ set_field-append_hex_8 k (256 * field + n / 256 % 256) (n % 256) it (omega arith)
    ∙ ap (λ v. set_field k v it) (join_256 field n h)

read_field_16 :
    (n : ℕ) (it : Bytes) → n < 65536 → set_field 4 0 (append_hex_16 n ++ it) ≡ some (n, it)
unfolding set_field
read_field_16 n it h =
    set_field-append_hex_16 0 0 n it h ∙ ap (λ v. some (v, it)) (from_zero 65536 n)

read_field_32 :
    (n : ℕ) (it : Bytes) → n < 4294967296 → set_field 8 0 (append_hex_32 n ++ it) ≡ some (n, it)
unfolding set_field append_hex_32
read_field_32 n it h =
    ap (set_field 8 0)
      (append_assoc (append_hex_16 (n / 65536 % 65536)) (append_hex_16 (n % 65536)) it)
    ∙ set_field-append_hex_16 4 0 (n / 65536 % 65536) (append_hex_16 (n % 65536) ++ it)
        (omega arith)
    ∙ set_field-append_hex_16 0 (65536 * 0 + n / 65536 % 65536) (n % 65536) it (omega arith)
    ∙ ap (λ v. some (v, it)) (join_65536 n h)

read_byte : (n : ℕ) (it : Bytes) → n < 256 → set_field 2 0 (append_hex_8 n ++ it) ≡ some (n, it)
unfolding set_field
read_byte n it h = set_field-append_hex_8 0 0 n it h ∙ ap (λ v. some (v, it)) (from_zero 256 n)

read_node-append_node :
    (node : List ℕ)
    → All (λ n. n < 256) node
    → read_node (length node) (append_node node) ≡ some node
unfolding read_node append_node
read_node-append_node [] h = refl
read_node-append_node (n ∷ node) (h, hs) =
    rw (read_node, read_byte n (append_node node) h, read_node-append_node node hs) refl

length-append_node : (node : List ℕ) → length (append_node node) ≡ 2 * length node
unfolding append_node append_hex_8
length-append_node [] = refl
length-append_node (n ∷ node) = omega (arith, length-append_node node)

parse_fields-to_string : (u : Uuid) → IsValid u → parse_fields true (to_string u) ≡ some u
unfolding parse_fields to_string IsValid
parse_fields-to_string u (low, mid, high, seq, six, bytes) =
    let t4 = append_node u.node in
    let t3 = append_hex_16 u.clock_seq ++ 45 ∷ t4 in
    let t2 = append_hex_16 u.time_hi_and_version ++ 45 ∷ t3 in
    let t1 = append_hex_16 u.time_mid ++ 45 ∷ t2 in
    let nodes : read_node 6 t4 ≡ some u.node =
      subst (λ k. read_node k t4 ≡ some u.node) six (read_node-append_node u.node bytes) in
    rw
      (
        parse_fields,
        read_field_32 u.time_low (45 ∷ t1) low,
        read_field_16 u.time_mid (45 ∷ t2) mid,
        read_field_16 u.time_hi_and_version (45 ∷ t3) high,
        read_field_16 u.clock_seq (45 ∷ t4) seq,
        nodes,
      )
      refl

to_string-has_separators : (u : Uuid) → has_separators (to_string u) ≡ true
unfolding has_separators to_string
to_string-has_separators u = refl

length-to_string : (u : Uuid) → IsValid u → length (to_string u) ≡ 36
unfolding to_string IsValid
length-to_string u (low, mid, high, seq, six, bytes) = omega (arith, length-append_node u.node)

-- Reading the text of a valid Uuid gives the Uuid.
pub parse-to_string : (u : Uuid) → IsValid u → parse (to_string u) ≡ some u
unfolding parse
parse-to_string u v =
    let exact = length-to_string u v in
    let long : ltb (length (to_string u)) 32 ≡ false = ground arith in
    let full : leb 36 (length (to_string u)) ≡ true = ground arith in
    rw (parse, long, to_string-has_separators u, full) (parse_fields-to_string u v)
