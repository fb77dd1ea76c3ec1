-- ===== src/ArchiveA/Ssz/Agreement/Roots.antt =====
-- The Merkle roots of the two implementations.
use co_net_dle.Common.{
  length-take, length-drop, Value, hexes, hex, number, bigint, decimal, other, FixedRecord,
  value_at, ℕ, zero, suc, ◌-◌, ◌*◌, ◌≡◌, refl, ap, true, List, [], ◌∷◌, ◌++◌, arith, ok, ok-bind,
  ok_injective, length, take, drop, replicate, Bytes, ◌≤◌, length-append, length-replicate,
}
use mathlib.Core.List.{append-nil}
use co_net_dle.ArchiveB.Ssz.RoundTrip.{slices-concat, field_reads}
use co_net_dle.ArchiveA.Ssz
use co_net_dle.ArchiveA.Ssz.Root as A
use co_net_dle.ArchiveA.Ssz.Root.{all_width, next_layer, layers, grow}
use co_net_dle.ArchiveA.Ssz.Agreement.{a_type, a_fields, field_agrees}
use co_net_dle.ArchiveB.Ssz as B
use Prim.Native.String.{String}
use co_net_dle.ArchiveB.Ssz.{FieldKind, concat}
use co_net_dle.ArchiveB.Ssz.Root as R
use co_net_dle.ArchiveB.Ssz.Root.{hash_pairs, hash_levels, widen}

module _ (sha256 : Bytes → Bytes) (digest_size : (b : Bytes) → length (sha256 b) ≡ 32) where
  pairs_agree : (xs : List Bytes) → next_layer sha256 xs ≡ hash_pairs sha256 xs
  pairs_agree [] = refl
  pairs_agree (a ∷ []) = refl
  pairs_agree (a ∷ b ∷ rest) = ap (λ t. sha256 (a ++ b) ∷ t) (pairs_agree rest)

  levels_agree : (n : ℕ) (xs : List Bytes) → layers sha256 n xs ≡ hash_levels sha256 n xs
  levels_agree zero [] = refl
  levels_agree (suc n) [] = refl
  levels_agree zero (a ∷ []) = refl
  levels_agree (suc n) (a ∷ []) = refl
  levels_agree zero (a ∷ b ∷ rest) = refl
  levels_agree (suc n) (a ∷ b ∷ rest) =
      rw (pairs_agree rest) (levels_agree n (sha256 (a ++ b) ∷ hash_pairs sha256 rest))

  grow_agrees : (left width n : ℕ) → grow left width n ≡ widen left width n
  grow_agrees zero width n = refl
  grow_agrees (suc left) width n = rw (grow_agrees left (width * 2) n) refl

  all_width-append :
      (xs ys : List Bytes)
      → all_width 32 xs ≡ true
      → all_width 32 ys ≡ true
      → all_width 32 (xs ++ ys) ≡ true
  all_width-append [] ys h k = k
  all_width-append (x ∷ xs) ys h k = ground (arith, all_width-append xs ys)

  all_width-zeros : (n : ℕ) → all_width 32 (replicate n (replicate 32 0)) ≡ true
  all_width-zeros zero = refl
  all_width-zeros (suc n) = all_width-zeros n

  all_width-pairs :
      (xs : List Bytes) → all_width 32 xs ≡ true → all_width 32 (hash_pairs sha256 xs) ≡ true
  all_width-pairs [] h = h
  all_width-pairs (a ∷ []) h = h
  all_width-pairs (a ∷ b ∷ rest) h = ground (arith, digest_size (a ++ b), all_width-pairs rest)

  length-levels :
      (n : ℕ) (x : Bytes) (xs : List Bytes)
      → all_width 32 (x ∷ xs) ≡ true
      → length (hash_levels sha256 n (x ∷ xs)) ≡ 32
  length-levels zero x [] h = ground arith
  length-levels (suc n) x [] h = ground arith
  length-levels zero x (b ∷ rest) h = ground arith
  length-levels (suc n) x (b ∷ rest) h =
      length-levels n (sha256 (x ++ b)) (hash_pairs sha256 rest) (all_width-pairs (x ∷ b ∷ rest) h)

  -- Chunks of 32 bytes have one root, of 32 bytes.
  merkleize_agrees :
      (chunks : List Bytes)
      → all_width 32 chunks ≡ true
      → (A.merkleize sha256 chunks ≡ ok (R.merkleize sha256 chunks))
        × (length (R.merkleize sha256 chunks) ≡ 32)
  unfolding A.merkleize R.merkleize
  merkleize_agrees [] h = (refl, refl)
  merkleize_agrees (c ∷ cs) h =
      let n = length (c ∷ cs) in
      let zeros = replicate (widen n 1 n - n) (replicate 32 0) in
      let wide : all_width 32 ((c ∷ cs) ++ zeros) ≡ true =
        all_width-append (c ∷ cs) zeros h (all_width-zeros (widen n 1 n - n)) in
      (
        rw (grow_agrees n 1 n, wide, levels_agree n ((c ∷ cs) ++ zeros)) refl,
        length-levels n c (cs ++ zeros) wide,
      )

  padded_full : (b : Bytes) → length b ≡ 32 → A.padded b ≡ b
  padded_full b h = rw (h) (append-nil b)

  length-padded : (b : Bytes) → length b ≤ 32 → length (A.padded b) ≡ 32
  length-padded b h =
      rw (length-append b (replicate (32 - length b) 0), length-replicate {A = ℕ} (32 - length b) 0)
        (omega (arith, h))

  last_byte : (n : ℕ) (b : Bytes) → length b ≡ suc n → drop n b ≡ R.byte_at n b ∷ []
  last_byte zero (x ∷ []) h = refl
  last_byte zero (x ∷ y ∷ b) h = ground arith
  last_byte zero [] h = ground arith
  last_byte (suc n) [] h = ground arith
  last_byte (suc n) (x ∷ b) h = last_byte n b (omega (arith, h))

  signature_agrees :
      (s : Bytes)
      → length s ≡ 65
      → (A.byte_vector_root sha256 s ≡ ok (R.signature_root sha256 s))
        × (length (R.signature_root sha256 s) ≡ 32)
  unfolding A.byte_vector_root
  signature_agrees s h =
      let one = length-take 32 33 s h in
      let middle = length-take 32 1 (drop 32 s) (length-drop 32 33 s h) in
      let end = last_byte 64 s h in
      let chunks = take 32 s ∷ take 32 (drop 32 s) ∷ (R.byte_at 64 s ∷ replicate 31 0) ∷ [] in
      let cut : A.vector_chunks 3 0 s ≡ chunks =
        rw (h, padded_full (take 32 s) one, padded_full (take 32 (drop 32 s)) middle, end) refl in
      rw (cut) (merkleize_agrees chunks (ground (arith, one, middle)))

  signatures_agree :
      (items : List Bytes)
      → B.all_width 65 items ≡ true
      → (A.signature_chunks sha256 items ≡ ok (R.signature_roots sha256 items))
        × (all_width 32 (R.signature_roots sha256 items) ≡ true)
  unfolding A.signature_chunks Ssz.hex_to_bytes
  signatures_agree [] h = (refl, refl)
  signatures_agree (item ∷ items) h =
      let n : length item ≡ 65 = ground arith in
      let m : B.all_width 65 items ≡ true = ground arith in
      let read : Ssz.hex_to_bytes item 65 ≡ ok item = ground arith in
      let (one, size) = signature_agrees item n in
      let (more, sizes) = signatures_agree items m in (rw (read, one, more) refl, rw (size) sizes)

  items_agree :
      (items : List Bytes)
      → B.all_width 32 items ≡ true
      → (A.item_chunks items ≡ ok items) × (all_width 32 items ≡ true)
  unfolding Ssz.hex_to_bytes
  items_agree [] h = (refl, refl)
  items_agree (item ∷ items) h =
      let m : B.all_width 32 items ≡ true = ground arith in
      let read : Ssz.hex_to_bytes item 32 ≡ ok item = ground arith in
      let (more, sizes) = items_agree items m in (rw (read, more) refl, ground arith)

  abbrev RootAgrees : FieldKind → Value → Bytes → Type 0
  RootAgrees k v part =
      (A.field_root sha256 (a_type k) v ≡ ok (R.field_root sha256 k part))
      × (length (R.field_root sha256 k part) ≡ 32)

  ids_root :
      (v : Value) (name : String) (part : Bytes)
      → B.encode_hexes 32 v name ≡ ok part
      → RootAgrees FieldKind.bytes32x5 v part
  unfolding A.field_root A.five_root R.field_root
  ids_root (hexes items) name part h =
      let five : length items ≡ 5 = ground arith in
      let wide : B.all_width 32 items ≡ true = ground arith in
      let same : concat items ≡ part = ground arith in
      let cut : B.slices 32 5 part ≡ items =
        rw (← same) (rw five at (slices-concat 32 items wide)) in
      let (chunks, sizes) = items_agree items wide in
      let root : R.field_root sha256 FieldKind.bytes32x5 part ≡ R.merkleize sha256 items =
        ap (R.merkleize sha256) cut in
      rw (chunks, root) (merkleize_agrees items sizes)
  ids_root (bigint n) name part h = ground arith
  ids_root (number n) name part h = ground arith
  ids_root (decimal n) name part h = ground arith
  ids_root (hex b) name part h = ground arith
  ids_root other name part h = ground arith

  signatures_root :
      (v : Value) (name : String) (part : Bytes)
      → B.encode_hexes 65 v name ≡ ok part
      → RootAgrees FieldKind.bytes65x5 v part
  unfolding A.field_root A.five_root R.field_root
  signatures_root (hexes items) name part h =
      let five : length items ≡ 5 = ground arith in
      let wide : B.all_width 65 items ≡ true = ground arith in
      let same : concat items ≡ part = ground arith in
      let cut : B.slices 65 5 part ≡ items =
        rw (← same) (rw five at (slices-concat 65 items wide)) in
      let (chunks, sizes) = signatures_agree items wide in
      let roots = R.signature_roots sha256 items in
      let root : R.field_root sha256 FieldKind.bytes65x5 part ≡ R.merkleize sha256 roots =
        ap (λ t. R.merkleize sha256 (R.signature_roots sha256 t)) cut in
      rw (chunks, root) (merkleize_agrees roots sizes)
  signatures_root (bigint n) name part h = ground arith
  signatures_root (number n) name part h = ground arith
  signatures_root (decimal n) name part h = ground arith
  signatures_root (hex b) name part h = ground arith
  signatures_root other name part h = ground arith

  field-RootAgrees :
      (k : FieldKind) (v : Value) (name : String) (part : Bytes)
      → B.encode_field k v name ≡ ok part
      → RootAgrees k v part
  unfolding A.field_root R.field_root B.encode_field
  field-RootAgrees FieldKind.bytes32x5 v name part h = ids_root v name part h
  field-RootAgrees FieldKind.bytes65x5 v name part h = signatures_root v name part h
  field-RootAgrees FieldKind.bytes32 v name part h =
      let size = (field_reads FieldKind.bytes32 v name part h).0 in
      (rw (field_agrees FieldKind.bytes32 v name part h, padded_full part size) refl, size)
  field-RootAgrees FieldKind.uint256 v name part h =
      let size = (field_reads FieldKind.uint256 v name part h).0 in
      (rw (field_agrees FieldKind.uint256 v name part h, padded_full part size) refl, size)
  field-RootAgrees FieldKind.uint8 v name part h =
      let size = (field_reads FieldKind.uint8 v name part h).0 in
      (
        rw (field_agrees FieldKind.uint8 v name part h) refl,
        length-padded part (omega (arith, size)),
      )
  field-RootAgrees FieldKind.uint16 v name part h =
      let size = (field_reads FieldKind.uint16 v name part h).0 in
      (
        rw (field_agrees FieldKind.uint16 v name part h) refl,
        length-padded part (omega (arith, size)),
      )
  field-RootAgrees FieldKind.uint32 v name part h =
      let size = (field_reads FieldKind.uint32 v name part h).0 in
      (
        rw (field_agrees FieldKind.uint32 v name part h) refl,
        length-padded part (omega (arith, size)),
      )
  field-RootAgrees FieldKind.uint64 v name part h =
      let size = (field_reads FieldKind.uint64 v name part h).0 in
      (
        rw (field_agrees FieldKind.uint64 v name part h) refl,
        length-padded part (omega (arith, size)),
      )

  roots_agree :
      (value : FixedRecord) (schema : List B.Field) (roots : List Bytes)
      → R.field_roots sha256 value schema ≡ ok roots
      → (A.field_roots sha256 value (a_fields schema) ≡ ok roots) × (all_width 32 roots ≡ true)
  unfolding A.field_roots R.field_roots
  roots_agree value [] roots h =
      let none_left : ◌≡◌ {A = List Bytes} [] roots = ok_injective h in
      (ap ok none_left, rw (← none_left) refl)
  roots_agree value (f ∷ fs) roots h =
      let v = value_at f.name value in
      let (part, x, more) = ok-bind (B.encode_field f.kind v f.name) _ roots h in
      let (rest, y, z) = ok-bind (R.field_roots sha256 value fs) _ roots more in
      let whole : R.field_root sha256 f.kind part ∷ rest ≡ roots = ok_injective z in
      let (one, size) = field-RootAgrees f.kind v f.name part x in
      let (others, sizes) = roots_agree value fs rest y in
      (rw (one, others, whole) refl, rw (← whole, size) sizes)

-- The root, and its 32 bytes.
pub sized_root :
    (sha256 : Bytes → Bytes)
    → ((b : Bytes) → length (sha256 b) ≡ 32)
    → (value : FixedRecord) (schema : List B.Field) (root : Bytes)
    → R.root_container sha256 value schema ≡ ok root
    → (A.hash_tree_root sha256 (a_fields schema) value ≡ ok root) × (length root ≡ 32)
unfolding R.root_container A.hash_tree_root
sized_root sha256 digest_size value schema root h =
    let (u, x, more) = ok-bind (B.assert_exact_keys value schema) _ root h in
    let (roots, y, z) = ok-bind (R.field_roots sha256 value schema) _ root more in
    let whole : R.merkleize sha256 roots ≡ root = ok_injective z in
    let (same, sizes) = roots_agree sha256 digest_size value schema roots y in
    let (merkle, size) = merkleize_agrees sha256 digest_size roots sizes in
    (rw (same, merkle) (ap ok whole), rw (← whole) size)

-- Where the hash gives 32 bytes, a container that has a root for archive-b has the same root for
-- archive-a.
pub container_roots_agree :
    (sha256 : Bytes → Bytes)
    → ((b : Bytes) → length (sha256 b) ≡ 32)
    → (value : FixedRecord) (schema : List B.Field) (root : Bytes)
    → R.root_container sha256 value schema ≡ ok root
    → A.hash_tree_root sha256 (a_fields schema) value ≡ ok root
container_roots_agree sha256 digest_size value schema root h =
    (sized_root sha256 digest_size value schema root h).0
