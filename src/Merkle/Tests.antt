-- ===== src/Merkle/Tests.antt =====
-- Trees of one and of two wallets, with a library whose hashes are the texts themselves.
use Prim.Native.String.{String}
use alive_human.Base.{◌≡◌, refl, true, false, List, [], ◌∷◌, none, some, if◌then◌else◌, ok, str_eq}
use alive_human.Base.Dict.{insert}
use alive_human.Base.Texts.{is_in, to_lower, char_of}
use alive_human.Merkle.{
  Library, State, initialize_merkle_tree, initialize_from_database, hash_all, number_from,
  proof_from, generate_proof, verify_proof, matches_address, hex_digits,
}
use alive_human.Merkle.Proofs.{Documented, is_empty, verify_proof-generate_proof}

-- A tree is the list of its leaves, and a proof is the list of the others.
abbrev others : String → List String → List String
others leaf [] = []
others leaf (x ∷ xs) = if str_eq x leaf then others leaf xs else x ∷ others leaf xs

abbrev plain : Library
plain = record {
  Tree = List String;
  get_address = λ a. true;
  keccak = λ a. some a;
  merkle_tree = λ leaves. leaves;
  hex_root = λ t. "root";
  hex_proof = λ t leaf. others leaf t;
  verify = λ t proof leaf root. is_in leaf t;
}

plain-Documented : Documented plain
plain-Documented = record {
  hashes_address = λ a good. (to_lower a, refl);
  verifies_leaf = λ leaves leaf inside. inside;
}

abbrev empty : State (List String)
empty = record { tree = none; leaves = []; leaf_index = []; initialized = false }

abbrev ann : String
ann = "0xAAAAAAAAAAAAAAAAAAAAAAAAAAAAAAAAAAAAAAAA"

abbrev bob : String
bob = "0xbbbbbbbbbbbbbbbbbbbbbbbbbbbbbbbbbbbbbbbb"

lower_ann : to_lower ann ≡ "0xaaaaaaaaaaaaaaaaaaaaaaaaaaaaaaaaaaaaaaaa"
unfolding to_lower char_of
lower_ann = refl

ann-matches : matches_address ann ≡ true
unfolding matches_address hex_digits
ann-matches = refl

too_short : matches_address "0xabc" ≡ false
unfolding matches_address hex_digits
too_short = refl

verify_proof-generate_proof_example :
    (after : State (List String)) × (tree : List String) × (leaf : String) × (initialize_merkle_tree
        plain
        (ann ∷ bob ∷ [])
        empty
      ≡ ok after)
    × (generate_proof plain none ann after
        ≡ (after, if is_empty (others leaf tree) then none else some (others leaf tree, leaf)))
    × (verify_proof plain after ann (others leaf tree) ≡ true)
unfolding matches_address hex_digits
verify_proof-generate_proof_example =
    verify_proof-generate_proof plain plain-Documented (ann ∷ bob ∷ []) ann empty none refl refl

abbrev only_ann : State (List String)
only_ann = record {
  tree = some ("0xaaaaaaaaaaaaaaaaaaaaaaaaaaaaaaaaaaaaaaaa" ∷ []);
  leaves = "0xaaaaaaaaaaaaaaaaaaaaaaaaaaaaaaaaaaaaaaaa" ∷ [];
  leaf_index = ("0xaaaaaaaaaaaaaaaaaaaaaaaaaaaaaaaaaaaaaaaa", 0) ∷ [];
  initialized = true;
}

built_for-ann : initialize_from_database plain (some (ann ∷ "" ∷ [])) empty ≡ only_ann
unfolding initialize_from_database initialize_merkle_tree hash_all number_from to_lower char_of
    insert matches_address hex_digits
built_for-ann = refl

-- The only address of a tree has an empty proof, which counts as none.
no_proof-alone : (generate_proof plain none ann only_ann).1 ≡ none
unfolding generate_proof proof_from to_lower char_of
no_proof-alone = refl
