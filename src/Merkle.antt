-- ===== src/Merkle.antt =====
-- packages/backend/src/blockchain/services/merkle.service.ts: the Merkle tree of the wallets that may
-- mint, its proofs and their check.
pub mod Proofs
mod Tests
use Prim.Native.Char.{Char, code}
use Prim.Native.String.{String}
use alive_human.Base.{
  ℕ, zero, suc, ◌+◌, Bool, true, false, ◌&&◌, ◌||◌, List, [], ◌∷◌, ◌++◌, Option, none, some, map,
  filter, leb, str_eq, if◌then◌else◌, Fallible, ok, err,
}
use alive_human.Base.Dict.{Dict, insert, has}
use alive_human.Base.Texts.{to_lower}

-- What the service calls: whether `getAddress` of ethers accepts a text, its `keccak256`, which throws
-- on a text that is not hexadecimal, and the operations of merkletreejs on a tree, where a verification
-- that throws counts as false.
pub record Library : Type 1 where
  pub Tree : Type 0
  pub get_address : String → Bool
  pub keccak : String → Option String
  pub merkle_tree : List String → Tree
  pub hex_root : Tree → String
  pub hex_proof : Tree → String → List String
  pub verify : Tree → List String → String → String → Bool

pub record State (Tree : Type 0) : Type 0 where
  pub tree : Option Tree
  pub leaves : List String
  pub leaf_index : Dict ℕ
  pub initialized : Bool

abbrev pub is_hex : Char → Bool
is_hex c =
    (leb 48 (code c) && leb (code c) 57)
    || (leb 65 (code c) && leb (code c) 70)
    || (leb 97 (code c) && leb (code c) 102)

unfoldable pub hex_digits : ℕ → String → Bool
hex_digits zero String.[] = true
hex_digits zero (String.◌∷◌ c s) = false
hex_digits (suc n) String.[] = false
hex_digits (suc n) (String.◌∷◌ c s) = let rest = hex_digits n s in is_hex c && rest

-- The pattern of an address: 0x and forty hexadecimal digits.
unfoldable pub matches_address : String → Bool
matches_address (String.◌∷◌ c (String.◌∷◌ d s)) =
    str_eq (String.◌∷◌ c (String.◌∷◌ d String.[])) "0x" && hex_digits 40 s
matches_address s = false

unfoldable pub number_from : ℕ → List String → Dict ℕ → Dict ℕ
number_from n [] index = index
number_from n (a ∷ addresses) index = number_from (suc n) addresses (insert a n index)

module _ (lib : Library) where
  abbrev pub is_valid_ethereum_address : String → Bool
  is_valid_ethereum_address a = matches_address a && lib.get_address a

  -- The hash of each, if none throws.
  unfoldable pub hash_all : List String → Option (List String)
  hash_all [] = some []
  hash_all (a ∷ addresses) = elim (lib.keccak a) [
    | none ↦ none
    | some h ↦ elim (hash_all addresses) [ none ↦ none | some hs ↦ some (h ∷ hs) ]
  ]

  -- The error is that of a hash that throws.
  unfoldable pub initialize_merkle_tree :
      List String → State lib.Tree → Fallible (Unit {0}) (State lib.Tree)
  initialize_merkle_tree addresses st = elim (filter is_valid_ethereum_address addresses) [
    | [] ↦ ok st
    | a ∷ valid ↦
        let normalized = map to_lower (a ∷ valid) in
        elim (hash_all normalized) [
          | none ↦ err tt
          | some hashes ↦ ok (record st {
            tree = some (lib.merkle_tree hashes);
            leaves = hashes;
            leaf_index = number_from 0 normalized st.leaf_index;
          })
        ]
  ]

  -- The query for the wallets fails or answers; empty addresses are dropped.
  unfoldable pub initialize_from_database : Option (List String) → State lib.Tree → State lib.Tree
  initialize_from_database none st = st
  initialize_from_database (some wallets) st =
      elim (initialize_merkle_tree (filter (λ a. if str_eq a "" then false else true) wallets) st) [
        | err _ ↦ st
        | ok after ↦ record after { initialized = true }
      ]

  -- `generateProof` once there is a tree; an empty proof counts as none.
  unfoldable pub proof_from : lib.Tree → String → Option (List String × String)
  proof_from tree address = elim (lib.keccak (to_lower address)) [
    | none ↦ none
    | some leaf ↦ elim (lib.hex_proof tree leaf) [ [] ↦ none | p ∷ ps ↦ some (p ∷ ps, leaf) ]
  ]

  abbrev pub ready : Option (List String) → State lib.Tree → State lib.Tree
  ready wallets st = elim st.tree [
    | some tree ↦ st
    | none ↦ if st.initialized then st else initialize_from_database wallets st
  ]

  unfoldable pub generate_proof :
      Option (List String)
      → String
      → State lib.Tree
      → State lib.Tree × Option (List String × String)
  generate_proof wallets address st =
      let now = ready wallets st in
      (now, elim now.tree [ none ↦ none | some tree ↦ proof_from tree address ])

  unfoldable pub verify_proof : State lib.Tree → String → List String → Bool
  verify_proof st address proof = elim st.tree [
    | none ↦ false
    | some tree ↦ elim (lib.keccak (to_lower address)) [
      | none ↦ false
      | some leaf ↦ lib.verify tree proof leaf (lib.hex_root tree)
    ]
  ]

  unfoldable pub get_root : State lib.Tree → Option String
  get_root st = elim st.tree [ none ↦ none | some tree ↦ some (lib.hex_root tree) ]

  abbrev pub is_initialized : State lib.Tree → Bool
  is_initialized st = elim st.tree [ none ↦ false | some tree ↦ true ]

  abbrev pub known : State lib.Tree → List String
  known st = map (λ (e : String × ℕ). e.0) st.leaf_index

  -- An error of the new tree is logged and leaves the state as it was.
  unfoldable pub add_address : String → State lib.Tree → State lib.Tree
  add_address address st =
      let normalized = to_lower address in
      if str_eq address "" || has normalized st.leaf_index
      then st
      else elim (initialize_merkle_tree (known st ++ normalized ∷ []) st) [
        | err _ ↦ st
        | ok after ↦ after
      ]
