-- ===== src/Merkle/Proofs.antt =====
-- Proofs for the addresses of a tree, and their verification.
use Prim.Native.String.{String}
use mathlib.Core.Path.{subst}
use text.Mathlib.TextEquality.{eq_iff}
use alive_human.Base.{
  Bool, true, false, ◌≡◌, refl, ap, List, [], ◌∷◌, ◌++◌, Option, none, some, map, filter, arith,
  Option-cases, Bool-cases, inl, inr, if◌then◌else◌, str_eq, All, ok, sym,
}
use alive_human.Base.Dict.{has}
use alive_human.Base.Texts.{to_lower, is_in}
use alive_human.Merkle.{
  Library, State, matches_address, is_valid_ethereum_address, hash_all, initialize_merkle_tree,
  number_from, generate_proof, proof_from, verify_proof, add_address, known,
}

-- What the libraries document: `keccak256` hashes an address, in lower case too, and the proof of a
-- leaf of a tree verifies against its root.
pub record Documented (lib : Library) : Type 0 where
  pub hashes_address :
      (a : String) → matches_address a ≡ true → (h : String) × (lib.keccak (to_lower a) ≡ some h)
  pub verifies_leaf :
      (leaves : List String) (leaf : String)
      → is_in leaf leaves ≡ true
      → lib.verify
          (lib.merkle_tree leaves)
          (lib.hex_proof (lib.merkle_tree leaves) leaf)
          leaf
          (lib.hex_root (lib.merkle_tree leaves))
        ≡ true

abbrev pub is_empty : List String → Bool
is_empty [] = true
is_empty (p ∷ ps) = false

module _ (lib : Library) (documented : Documented lib) where
  hash_all-some :
      (xs : List String)
      → All (λ b. matches_address b ≡ true) xs
      → (hs : List String) × (hash_all lib (map to_lower xs) ≡ some hs)
  unfolding hash_all
  hash_all-some [] good = ([], refl)
  hash_all-some (b ∷ xs) good =
      let (h, hashed) = documented.hashes_address b good.0 in
      let (hs, rest) = hash_all-some xs good.1 in (h ∷ hs, ground (arith, hashed, rest))

  hash_all-is_in :
      (xs hs : List String) (a h : String)
      → hash_all lib (map to_lower xs) ≡ some hs
      → is_in a xs ≡ true
      → lib.keccak (to_lower a) ≡ some h
      → is_in h hs ≡ true
  unfolding hash_all
  hash_all-is_in [] hs a h all there hashed = ground arith
  hash_all-is_in (b ∷ xs) hs a h all there hashed = elim (Option-cases (lib.keccak (to_lower b))) [
    | inl thrown ↦ ground arith
    | inr (k, first) ↦ elim (Option-cases (hash_all lib (map to_lower xs))) [
      | inl thrown ↦ ground arith
      | inr (ks, rest) ↦
          let made : hs ≡ k ∷ ks = ground (arith, first, rest) in
          elim (Bool-cases (str_eq b a)) [
            | inl here ↦ rw made (ground (arith, eq_iff b a, eq_iff k h, first, hashed))
            | inr other ↦
                let more = hash_all-is_in xs ks a h rest (ground arith) hashed in
                rw made (ground (arith, more))
          ]
    ]
  ]

  -- An empty proof of the library is none.
  proof_from-lem :
      (tree : lib.Tree) (a leaf : String) (ps : List String)
      → lib.keccak (to_lower a) ≡ some leaf
      → lib.hex_proof tree leaf ≡ ps
      → proof_from lib tree a ≡ (
          if is_empty (lib.hex_proof tree leaf) then none else some (lib.hex_proof tree leaf, leaf))
  unfolding proof_from
  proof_from-lem tree a leaf [] hashed same = ground (arith, hashed, same)
  proof_from-lem tree a leaf (p ∷ ps) hashed same = ground (arith, hashed, same)

  valid-matches :
      (xs : List String)
      → All (λ b. matches_address b ≡ true) (filter (is_valid_ethereum_address lib) xs)
  valid-matches [] = tt
  valid-matches (x ∷ xs) = ground (arith, valid-matches xs)

  is_in-valid :
      (xs : List String) (a : String)
      → is_valid_ethereum_address lib a ≡ true
      → is_in a xs ≡ true
      → is_in a (filter (is_valid_ethereum_address lib) xs) ≡ true
  is_in-valid [] a valid there = ground arith
  is_in-valid (x ∷ xs) a valid there = ground (arith, is_in-valid xs a valid, eq_iff x a)

  -- The state that a tree over some addresses leaves.
  abbrev built : List String → List String → State lib.Tree → State lib.Tree
  built valid hs st = record st {
    tree = some (lib.merkle_tree hs);
    leaves = hs;
    leaf_index = number_from 0 (map to_lower valid) st.leaf_index;
  }

  initialize-built :
      (xs valid hs : List String) (a : String) (st : State lib.Tree)
      → filter (is_valid_ethereum_address lib) xs ≡ valid
      → is_in a valid ≡ true
      → hash_all lib (map to_lower valid) ≡ some hs
      → initialize_merkle_tree lib xs st ≡ ok (built valid hs st)
  unfolding initialize_merkle_tree
  initialize-built xs [] hs a st same there hashes = ground arith
  initialize-built xs (b ∷ valid) hs a st same there hashes = ground (arith, same, hashes)

-- For libraries as documented: let a be a valid address among those that a tree is made of. Then
-- `initialize_merkle_tree` succeeds, whatever state it starts in; `generate_proof` for a then answers
-- with a proof and its leaf, or with nothing, just if the library's proof is empty; and
-- `verify_proof` accepts the library's proof for a, so it accepts the one that `generate_proof` gives.
pub verify_proof-generate_proof :
    (lib : Library)
    → Documented lib
    → (addresses : List String) (a : String) (st : State lib.Tree) (wallets : Option (List String))
    → is_valid_ethereum_address lib a ≡ true
    → is_in a addresses ≡ true
    → (after : State lib.Tree) × (tree : lib.Tree) × (leaf : String) × (initialize_merkle_tree lib
          addresses st
        ≡ ok after)
      × (generate_proof lib wallets a after ≡ (
        after,
        if is_empty (lib.hex_proof tree leaf) then none else some (lib.hex_proof tree leaf, leaf),
      ))
      × (verify_proof lib after a (lib.hex_proof tree leaf) ≡ true)
unfolding generate_proof verify_proof
verify_proof-generate_proof lib documented addresses a st wallets valid there =
    let xs = filter (is_valid_ethereum_address lib) addresses in
    let kept = is_in-valid lib documented addresses a valid there in
    let (hs, hashes) = hash_all-some lib documented xs (valid-matches lib documented addresses) in
    let (leaf, hashed) = documented.hashes_address a (ground arith) in
    let inside = hash_all-is_in lib documented xs hs a leaf hashes kept hashed in
    let tree = lib.merkle_tree hs in
    (
      built lib documented xs hs st,
      tree,
      leaf,
      initialize-built lib documented addresses xs hs a st refl kept hashes,
      ap (λ p. (built lib documented xs hs st, p))
          (proof_from-lem lib documented tree a leaf (lib.hex_proof tree leaf) hashed refl),
      ground (arith, hashed, documented.verifies_leaf hs leaf inside),
    )

-- For libraries as documented: let an address be added whose lower case is not known yet, and let a be a
-- valid address among the known ones and the new one in lower case. Then, in the state that
-- `add_address` leaves, `generate_proof` for a answers with a proof and its leaf, or with nothing if
-- the library's proof is empty, and `verify_proof` accepts the library's proof for a.
pub add_address-proves :
    (lib : Library)
    → Documented lib
    → (address a : String) (st : State lib.Tree) (wallets : Option (List String))
    → str_eq address "" ≡ false
    → has (to_lower address) st.leaf_index ≡ false
    → is_valid_ethereum_address lib a ≡ true
    → is_in a (known lib st ++ to_lower address ∷ []) ≡ true
    → (tree : lib.Tree) × (leaf : String) × (generate_proof lib wallets a
          (add_address lib address st)
        ≡ (
          add_address lib address st,
          if is_empty (lib.hex_proof tree leaf) then none else some (lib.hex_proof tree leaf, leaf),
        ))
      × (verify_proof lib (add_address lib address st) a (lib.hex_proof tree leaf) ≡ true)
unfolding add_address
add_address-proves lib documented address a st wallets full new valid there =
    let (after, tree, leaf, built, proved, verified) =
      verify_proof-generate_proof lib documented (known lib st ++ to_lower address ∷ []) a st
        wallets valid there in
    let added : add_address lib address st ≡ after = ground (arith, built, full, new) in
    let holds : State lib.Tree → Type 0 = λ s.
      (generate_proof lib wallets a s ≡ (
        s,
        if is_empty (lib.hex_proof tree leaf) then none else some (lib.hex_proof tree leaf, leaf),
      ))
      × (verify_proof lib s a (lib.hex_proof tree leaf) ≡ true) in
    let (generates, verifies) = subst holds (sym added) (proved, verified) in
    (tree, leaf, generates, verifies)
