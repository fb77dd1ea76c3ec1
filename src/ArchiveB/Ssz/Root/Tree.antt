-- ===== src/ArchiveB/Ssz/Root/Tree.antt =====
-- The Merkle root of implementations/archive-b/src/ssz.ts beside the tree that it is the root of.
use co_net_dle.Common.{
  length-take, length-drop, ℕ, zero, suc, ◌+◌, ◌-◌, ◌*◌, ◌^◌, ◌≤◌, ◌<◌, ◌≡◌, refl, ap, sym, ◌∙◌,
  List, [], ◌∷◌, ◌++◌, arith, length, take, drop, replicate, Bytes, ltb, length-append,
  length-replicate, Bool-cases, inl, inr, ltb→lt,
}
use native.Mathlib.Nat.{pow-suc}
use co_net_dle.ArchiveB.Ssz.Root.{widen, hash_pairs, hash_levels, merkleize}

double_suc : (n : ℕ) → suc n * 2 ≡ suc (suc (n * 2))
double_suc n = omega arith

pow_pos : (d : ℕ) → 0 < 2 ^ d
pow_pos zero = omega arith
pow_pos (suc d) = omega (arith, pow-suc 2 d, pow_pos d)

take_nil : (n : ℕ) → take {A = Bytes} n [] ≡ []
take_nil zero = refl
take_nil (suc n) = refl

drop_nil : (n : ℕ) → drop {A = Bytes} n [] ≡ []
drop_nil zero = refl
drop_nil (suc n) = refl

module _ (sha256 : Bytes → Bytes) where
  -- The root of the full binary tree of a depth over its leaves.
  abbrev pub tree : ℕ → List Bytes → Bytes
  tree zero [] = []
  tree zero (a ∷ rest) = a
  tree (suc d) xs = sha256 (tree d (take (2 ^ d) xs) ++ tree d (drop (2 ^ d) xs))

  take-hash_pairs :
      (n : ℕ) (xs : List Bytes)
      → take n (hash_pairs sha256 xs) ≡ hash_pairs sha256 (take (n * 2) xs)
  take-hash_pairs zero xs = refl
  take-hash_pairs (suc n) [] = rw (double_suc n) refl
  take-hash_pairs (suc n) (a ∷ []) = rw (double_suc n, take_nil n) refl
  take-hash_pairs (suc n) (a ∷ b ∷ rest) =
      rw (double_suc n) (ap (λ t. sha256 (a ++ b) ∷ t) (take-hash_pairs n rest))

  drop-hash_pairs :
      (n : ℕ) (xs : List Bytes)
      → drop n (hash_pairs sha256 xs) ≡ hash_pairs sha256 (drop (n * 2) xs)
  drop-hash_pairs zero xs = refl
  drop-hash_pairs (suc n) [] = rw (double_suc n) refl
  drop-hash_pairs (suc n) (a ∷ []) = rw (double_suc n, drop_nil n) refl
  drop-hash_pairs (suc n) (a ∷ b ∷ rest) = rw (double_suc n) (drop-hash_pairs n rest)

  length-hash_pairs :
      (n : ℕ) (xs : List Bytes) → length xs ≡ n * 2 → length (hash_pairs sha256 xs) ≡ n
  length-hash_pairs zero [] h = refl
  length-hash_pairs (suc n) (a ∷ b ∷ rest) h = ap suc (length-hash_pairs n rest (omega (arith, h)))
  length-hash_pairs n xs h = ground arith

  -- One turn of the loop takes the lowest level off the tree.
  tree-hash_pairs :
      (d : ℕ) (xs : List Bytes)
      → length xs ≡ 2 ^ d * 2
      → tree (suc d) xs ≡ tree d (hash_pairs sha256 xs)
  tree-hash_pairs zero (a ∷ b ∷ []) h = refl
  tree-hash_pairs zero [] h = ground arith
  tree-hash_pairs zero (a ∷ []) h = ground arith
  tree-hash_pairs zero (a ∷ b ∷ c ∷ xs) h = ground arith
  tree-hash_pairs (suc d) xs h =
      let n = 2 ^ d * 2 in
      let size : 2 ^ suc d ≡ n = pow-suc 2 d in
      let split : length xs ≡ n + n = omega (arith, h, size) in
      let left = tree-hash_pairs d (take n xs) (length-take n n xs split) in
      let right = tree-hash_pairs d (drop n xs) (length-drop n n xs split) in
      let halves : sha256 (tree (suc d) (take n xs) ++ tree (suc d) (drop n xs))
          ≡ sha256
              (tree d (hash_pairs sha256 (take n xs)) ++ tree d (hash_pairs sha256 (drop n xs))) =
        cc in
      rw (size, take-hash_pairs (2 ^ d) xs, drop-hash_pairs (2 ^ d) xs) halves

  -- With as many turns as the tree has levels, or more, the loop ends at the tree's root.
  hash_levels-tree :
      (left d : ℕ) (xs : List Bytes)
      → d ≤ left
      → length xs ≡ 2 ^ d
      → hash_levels sha256 left xs ≡ tree d xs
  hash_levels-tree left d [] le h = ground (arith, pow_pos d)
  hash_levels-tree zero zero (a ∷ []) le h = refl
  hash_levels-tree (suc left) zero (a ∷ []) le h = refl
  hash_levels-tree left zero (a ∷ b ∷ rest) le h = ground arith
  hash_levels-tree left (suc d) (a ∷ []) le h = ground (arith, pow_pos d, pow-suc 2 d)
  hash_levels-tree zero (suc d) (a ∷ b ∷ rest) le h = ground arith
  hash_levels-tree (suc left) (suc d) (a ∷ b ∷ rest) le h =
      let n : length (a ∷ b ∷ rest) ≡ 2 ^ d * 2 = omega (arith, h, pow-suc 2 d) in
      let pairs = hash_pairs sha256 (a ∷ b ∷ rest) in
      let size = length-hash_pairs (2 ^ d) (a ∷ b ∷ rest) n in
      hash_levels-tree left d pairs (omega (arith, le)) size
      ∙ sym (tree-hash_pairs d (a ∷ b ∷ rest) n)

-- The loop ends at the least power of two that is no less than the number of chunks.
widen-power :
    (left e n : ℕ)
    → n ≤ 2 ^ e + left
    → 2 ^ e < n + n
    → (d : ℕ) × (widen left (2 ^ e) n ≡ 2 ^ d) × (n ≤ 2 ^ d) × (2 ^ d < n + n) × (d ≤ e + left)
widen-power zero e n h k = (e, refl, omega (arith, h), k, omega arith)
widen-power (suc left) e n h k = elim (Bool-cases (ltb (2 ^ e) n)) [
  | inl t ↦
      let double : 2 ^ suc e ≡ 2 ^ e * 2 = pow-suc 2 e in
      let short = ltb→lt (2 ^ e) n t in
      let (d, same, up, low, few) =
        widen-power left (suc e) n (omega (arith, h, double, pow_pos e))
          (omega (arith, double, short)) in
      let wider : widen left (2 ^ e * 2) n ≡ 2 ^ d = rw (← double) same in
      (d, ground (arith, wider, t), up, low, omega (arith, few))
  | inr f ↦ (e, ground (arith, f), ground (arith, f), k, omega arith)
]

abbrev pub zero_chunks : ℕ → List Bytes
zero_chunks n = replicate n (replicate 32 0)

-- The root of one or more chunks is that of the least full binary tree that holds them, its other
-- leaves zero chunks, with the hash of the two children's roots at each inner node.
pub merkleize-tree :
    (sha256 : Bytes → Bytes) (c : Bytes) (cs : List Bytes)
    → (d : ℕ) × (length (c ∷ cs) ≤ 2 ^ d)
      × (2 ^ d < length (c ∷ cs) + length (c ∷ cs))
      × (merkleize sha256 (c ∷ cs)
          ≡ tree sha256 d ((c ∷ cs) ++ zero_chunks (2 ^ d - length (c ∷ cs))))
unfolding merkleize
merkleize-tree sha256 c cs =
    let n = length (c ∷ cs) in
    let (d, width, up, low, few) = widen-power n 0 n (omega arith) (omega arith) in
    let leaves = (c ∷ cs) ++ zero_chunks (2 ^ d - n) in
    let size : length leaves ≡ 2 ^ d =
      rw
        (
          length-append (c ∷ cs) (zero_chunks (2 ^ d - n)),
          length-replicate (2 ^ d - n) (replicate {A = ℕ} 32 0),
        )
        (omega (arith, up)) in
    (d, up, low, rw (width) (hash_levels-tree sha256 n d leaves (omega (arith, few)) size))
