-- ===== src/DeletionVector/RoundTrip.antt =====
-- Reading what GetBlob of iceberg/deletion_vector.cpp writes.
use iceberg_cxx.Common.{
  ℕ, ◌+◌, ◌-◌, ◌≤◌, ◌<◌, ◌≡◌, refl, sym, ap, ◌∙◌, inl, inr, true, false, none, some, ◌++◌, arith,
  ltb, leb, ◌==◌, Bool-cases, length, take, drop, take-append, drop-append, length-append, ok,
  ◌>>=◌, eq_of_some-eq-some,
}
use mathlib.Core.Path.{subst}
use iceberg_cxx.Filter.Value.{Bytes}
use iceberg_cxx.Filter.Order.{eqb_bytes}
use iceberg_cxx.PositionalDelete.Position.{eqb_bytes_self}
use iceberg_cxx.DeletionVector.{BitmapLibrary, cardinality_in}
use iceberg_cxx.DeletionVector.Blob.{
  BlobMetadata, blob_type, referenced_data_file, compression_codec_name, cardinality_name,
  magic_sequence, find_property, has_property, stoull, ui_to_little_endian_bytes, bytes_to_ui,
  substr, get_len, validate_magic_sequence, get_check_sum, uint32_max, uint64_max, check_metadata,
  check_bitmap, make_deletion_vector, blob_of, get_blob, ensure, wrong_length,
}

-- What CRoaring and zlib document of their operations.
pub record BlobLaws (lib : BitmapLibrary) : Type 0 where
  pub read_written : (b : lib.Bitmap) → lib.read_safe (lib.write b) ≡ some b
  pub written_size : (b : lib.Bitmap) → length (lib.write b) ≡ lib.size_in_bytes b
  pub crc32_small : (s : Bytes) → lib.crc32 s < 4294967296

bytes_to_ui-ui_to_little_endian_bytes :
    (v : ℕ) → v < 4294967296 → bytes_to_ui (ui_to_little_endian_bytes v) ≡ v
unfolding bytes_to_ui ui_to_little_endian_bytes
bytes_to_ui-ui_to_little_endian_bytes v h = omega arith

-- Metadata that belongs to a blob and a bitmap.
pub record Describes (lib : BitmapLibrary) (m : BlobMetadata) (blob : Bytes) (b : lib.Bitmap)
    : Type 0 where
  pub is_deletion_vector : m.type ≡ blob_type
  pub refers : has_property (find_property referenced_data_file m.properties) ≡ true
  pub no_codec : has_property (find_property compression_codec_name m.properties) ≡ false
  pub no_metadata_codec : m.compression_codec ≡ none
  pub has_length : m.length ≡ length blob
  pub text : Bytes
  pub counts : find_property cardinality_name m.properties ≡ some text
  pub count : stoull text ≡ some (cardinality_in lib b 0 uint64_max)

get_len-ok :
    (blob : Bytes) (n : ℕ)
    → bytes_to_ui (substr blob 0 4) ≡ n
    → n + 8 ≡ length blob
    → get_len blob ≡ ok n
unfolding get_len
get_len-ok blob n e k =
    ap (λ v. ensure (v + 8 == length blob) wrong_length >>= (λ _. ok v)) e
    ∙ ap (λ t. ensure t wrong_length >>= (λ _. ok n)) {y = true} (ground arith)

minus_four : (n : ℕ) → 4 + n - 4 ≡ n
minus_four n = omega arith

four_more : (w : Bytes) → 4 + length w ≡ length (magic_sequence ++ w)
four_more w = omega arith

eq_self : (n : ℕ) → (n == n) ≡ true
eq_self n = ground arith

-- The parts of a blob with content w and checksum c.
abbrev parts : Bytes → ℕ → Bytes
parts w c =
    ui_to_little_endian_bytes (4 + length w) ++ magic_sequence ++ w ++ ui_to_little_endian_bytes c

module _ (w : Bytes) (c : ℕ) (small : 4 + length w ≤ uint32_max) (fits : c < 4294967296) where
  length-parts : length (parts w c) ≡ length w + 12
  unfolding ui_to_little_endian_bytes
  length-parts = omega (arith, length-append w (ui_to_little_endian_bytes c))

  length-front :
      length (ui_to_little_endian_bytes (4 + length w) ++ magic_sequence ++ w) ≡ length w + 8
  unfolding ui_to_little_endian_bytes
  length-front = omega arith

  parts-get_len : get_len (parts w c) ≡ ok (4 + length w)
  unfolding get_len ui_to_little_endian_bytes
  parts-get_len =
      get_len-ok (parts w c) (4 + length w)
        (bytes_to_ui-ui_to_little_endian_bytes (4 + length w) (omega arith))
        (omega (arith, length-parts))

  parts-validate_magic_sequence : validate_magic_sequence (parts w c) ≡ ok tt
  unfolding validate_magic_sequence ui_to_little_endian_bytes eqb_bytes
  parts-validate_magic_sequence = refl

  parts-content : substr (parts w c) 8 (4 + length w - 4) ≡ w
  unfolding ui_to_little_endian_bytes
  parts-content =
      ap (λ n. take n (w ++ ui_to_little_endian_bytes c)) (minus_four (length w))
      ∙ take-append w (ui_to_little_endian_bytes c)

  parts-checked : substr (parts w c) 4 (4 + length w) ≡ magic_sequence ++ w
  unfolding ui_to_little_endian_bytes
  parts-checked =
      ap (λ n. take n (magic_sequence ++ w ++ ui_to_little_endian_bytes c)) (four_more w)
      ∙ take-append (magic_sequence ++ w) (ui_to_little_endian_bytes c)

  parts-get_check_sum : get_check_sum (parts w c) ≡ c
  unfolding get_check_sum ui_to_little_endian_bytes
  parts-get_check_sum =
      ap (λ n. bytes_to_ui (take 4 (drop n (parts w c))))
        {y = length (ui_to_little_endian_bytes (4 + length w) ++ magic_sequence ++ w)}
        (omega (arith, length-parts, length-front))
      ∙ ap (λ v. bytes_to_ui (take 4 v))
          (drop-append (ui_to_little_endian_bytes (4 + length w) ++ magic_sequence ++ w)
            (ui_to_little_endian_bytes c))
      ∙ bytes_to_ui-ui_to_little_endian_bytes c fits

none-some {ℓ} : {A : Type ℓ} {a : A} → none ≡ some a → ⊥
none-some h = cc

same_blob :
    (lib : BitmapLibrary) (b written : lib.Bitmap) (blob : Bytes)
    → ◌≡◌ {A = lib.Bitmap × Bytes} (b, blob_of lib b) (written, blob)
    → leb (4 + lib.size_in_bytes b) uint32_max ≡ true
    → (blob ≡ blob_of lib written) × (4 + lib.size_in_bytes written ≤ uint32_max)
same_blob lib b written blob e k =
    let first : b ≡ written = ap (λ v. v.0) e in
    (
      sym (ap (λ v. v.1) e) ∙ ap (blob_of lib) first,
      subst (λ v. 4 + lib.size_in_bytes v ≤ uint32_max) first (ground arith),
    )

-- What GetBlob writes is short enough for its length to be written.
get_blob-written :
    (lib : BitmapLibrary) (b written : lib.Bitmap) (blob : Bytes)
    → get_blob lib b ≡ some (written, blob)
    → (blob ≡ blob_of lib written) × (4 + lib.size_in_bytes written ≤ uint32_max)
unfolding get_blob
get_blob-written lib b written blob e =
    elim (Bool-cases (ltb uint32_max (4 + lib.size_in_bytes b))) [
      | inl h ↦ elim (Bool-cases (leb (4 + lib.size_in_bytes (lib.shrink_to_fit b)) uint32_max)) [
        | inl k ↦
            same_blob lib (lib.shrink_to_fit b) written blob
              (eq_of_some-eq-some (sym (rw (get_blob, h, k) refl) ∙ e)) k
        | inr k ↦ absurd (none-some (sym (rw (get_blob, h, k) refl) ∙ e))
      ]
      | inr h ↦
          same_blob lib b written blob (eq_of_some-eq-some (sym (rw (get_blob, h) refl) ∙ e))
            (ground arith)
    ]

module _ (lib : BitmapLibrary) (laws : BlobLaws lib) where
  blob_of-parts :
      (b : lib.Bitmap)
      → blob_of lib b ≡ parts (lib.write b) (lib.crc32 (magic_sequence ++ lib.write b))
  unfolding blob_of
  blob_of-parts b =
      ap
        (λ n.
          ui_to_little_endian_bytes (4 + n)
          ++ magic_sequence
          ++ lib.write b
          ++ ui_to_little_endian_bytes (lib.crc32 (magic_sequence ++ lib.write b)))
        (sym (laws.written_size b))

  check_metadata-Describes :
      (m : BlobMetadata) (blob : Bytes) (b : lib.Bitmap)
      → Describes lib m blob b
      → 12 ≤ length blob
      → check_metadata lib m blob ≡ ok tt
  unfolding check_metadata
  check_metadata-Describes m blob b d long =
      let enough : leb 12 (length blob) ≡ true = ground arith in
      rw
        (
          check_metadata,
          d.is_deletion_vector,
          eqb_bytes_self blob_type,
          d.refers,
          d.no_codec,
          d.no_metadata_codec,
          d.has_length,
          eq_self (length blob),
          enough,
        )
        refl

  check_bitmap-Describes :
      (m : BlobMetadata) (blob : Bytes) (len : ℕ) (b : lib.Bitmap)
      → Describes lib m blob b
      → lib.crc32 (substr blob 4 len) ≡ get_check_sum blob
      → check_bitmap lib m blob len b ≡ ok tt
  unfolding check_bitmap
  check_bitmap-Describes m blob len b d same =
      rw
        (
          check_bitmap,
          d.counts,
          d.count,
          eq_self (cardinality_in lib b 0 uint64_max),
          same,
          eq_self (get_check_sum blob),
        )
        refl

  -- What a bitmap is written to, with metadata that describes it, is read as that bitmap.
  make_deletion_vector-blob_of :
      (m : BlobMetadata) (b : lib.Bitmap)
      → Describes lib m (blob_of lib b) b
      → 4 + lib.size_in_bytes b ≤ uint32_max
      → make_deletion_vector lib m (blob_of lib b) ≡ ok b
  unfolding make_deletion_vector
  make_deletion_vector-blob_of m b d small =
      let w = lib.write b in
      let c = lib.crc32 (magic_sequence ++ w) in
      let short : 4 + length w ≤ uint32_max = omega (arith, laws.written_size b) in
      let fits = laws.crc32_small (magic_sequence ++ w) in
      let d' = subst (λ v. Describes lib m v b) (blob_of-parts b) d in
      let same : lib.crc32 (substr (parts w c) 4 (4 + length w)) ≡ get_check_sum (parts w c) =
        ap lib.crc32 (parts-checked w c short fits) ∙ sym (parts-get_check_sum w c short fits) in
      ap (make_deletion_vector lib m) (blob_of-parts b)
      ∙ rw
          (
            make_deletion_vector,
            check_metadata-Describes m (parts w c) b d'
                (omega (arith, length-parts w c short fits)),
            parts-get_len w c short fits,
            parts-validate_magic_sequence w c short fits,
            parts-content w c short fits,
            laws.read_written b,
            check_bitmap-Describes m (parts w c) (4 + length w) b d' same,
          )
          refl

  -- Whatever GetBlob writes is read back as the bitmap that it wrote, with metadata of a deletion
  -- vector that has no codec, names the data file and states the length of the blob and the number of
  -- the elements, if the library reads the bitmaps that it writes, and writes as many bytes as it
  -- says.
  pub make_deletion_vector-get_blob :
      (m : BlobMetadata) (b written : lib.Bitmap) (blob : Bytes)
      → get_blob lib b ≡ some (written, blob)
      → Describes lib m blob written
      → make_deletion_vector lib m blob ≡ ok written
  make_deletion_vector-get_blob m b written blob e d =
      let (same, small) = get_blob-written lib b written blob e in
      ap (make_deletion_vector lib m) same
      ∙ make_deletion_vector-blob_of m written (subst (λ v. Describes lib m v written) same d) small
