-- ===== src/Wallets/Tests.antt =====
-- Wallets under a cipher that hides the colons of a text.
use Prim.Native.Char.{code}
use text.Mathlib.TextEquality.{Char-path}
use alive_human.Base.{
  Bool, Bool-cases, inl, ap, arith, ◌==◌, ◌≡◌, refl, true, false, String, [], ◌∷◌, none, some,
  str_eq, if◌then◌else◌, ok, inr,
}
use alive_human.Base.Dict.{lookup, insert, delete}
use alive_human.Base.Texts.{no_colon, split_colon, to_upper, char_of}
use alive_human.Wallets.{
  plain_text, object, cipher, decipher, Crypto, Wallet, WalletManager, active_key,
}
use alive_human.Wallets.Manager.{
  by_address, store, add_wallet, find_wallet, get_wallet, remove_wallet, rotate_encryption_key,
  Handlers, import_from_mnemonic,
}
use alive_human.Wallets.Reading.{Documented, get_wallet-add_wallet}
use alive_human.Wallets.Rotation.{get_wallet-rotate}
use alive_human.Wallets.Imports.{get_wallet-import}

-- A text without colons, each character but a colon behind a mark.
hide : String → String
hide String.[] = ""
hide (String.◌∷◌ c s) =
    let rest = hide s in
    if code c == 58 then String.◌∷◌ "b" rest else String.◌∷◌ "a" (String.◌∷◌ c rest)

-- Its inverse; after a mark, the next character.
show : Bool → String → String
show marked String.[] = ""
show true (String.◌∷◌ c s) = String.◌∷◌ c (show false s)
show false (String.◌∷◌ c s) =
    let colon = show false s in
    let next = show true s in if code c == 98 then String.◌∷◌ ":" colon else next

show-hide : (s : String) → show false (hide s) ≡ s
unfolding show hide
show-hide String.[] = refl
show-hide (String.◌∷◌ c s) = elim (Bool-cases (code c == 58)) [
  | inl colon ↦
      let same : code c ≡ 58 = ground (arith, colon) in
      ground (arith, show-hide s, colon, Char-path c ":" same)
  | inr other ↦ ground (arith, show-hide s, other)
]

no_colon-hide : (s : String) → no_colon (hide s) ≡ true
unfolding no_colon hide
no_colon-hide String.[] = refl
no_colon-hide (String.◌∷◌ c s) = ground (arith, no_colon-hide s)

abbrev marking : Crypto
marking = record {
  sha256 = λ key. key;
  to_hex = λ b. hide b;
  from_hex = λ h. show false h;
  aes_encrypt = λ key iv s. hide s;
  aes_decrypt = λ key iv c. some (show false c);
  parse_json = λ s. if str_eq s "{}" then some (object s) else none;
}

marking-Documented : Documented marking
marking-Documented = record {
  hex_no_colon = no_colon-hide;
  aes_no_colon = λ key iv s. no_colon-hide s;
  from_hex-to_hex = show-hide;
  aes_decrypt-aes_encrypt = λ key iv s. ap some (show-hide s);
}

abbrev given : Wallet String
given = record {
  address = "0x1";
  network = "ETH";
  private_key = "0xkey";
  path = none;
  mnemonic = some "abandon ability";
  encrypted = false;
}

abbrev manager : WalletManager
manager = record {
  config = record { encrypt_private_keys = true; encryption_key = some "k" };
  wallets = [];
}

upper : to_upper "ETH" ≡ "ETH"
unfolding to_upper char_of
upper = refl

get_wallet-add_wallet_example :
    (after : WalletManager) × (safe : Wallet String) × (add_wallet marking "ETH"
        (by_address "0x1" (some given))
        "iv"
        manager
      ≡ ok (after, safe))
    × (get_wallet marking "ETH" "0x1" after
        ≡ ok (
            some (record {
              address = "0x1";
              network = "ETH";
              private_key = plain_text "0xkey";
              path = none;
              mnemonic = some "abandon ability";
              encrypted = false;
            })))
get_wallet-add_wallet_example =
    get_wallet-add_wallet marking "ETH" "0x1" given "iv" manager marking-Documented refl upper refl
      refl

abbrev stored : Wallet String
stored = record given { private_key = cipher marking "iv" "k" "0xkey"; encrypted = true }

abbrev holding : WalletManager
holding = record manager { wallets = ("ETH", ("0x1", stored) ∷ []) ∷ [] }

added : add_wallet marking "ETH" (by_address "0x1" (some given)) "iv" manager ≡ ok (holding, stored)
unfolding add_wallet store cipher to_upper char_of lookup insert
added = refl

emptied : remove_wallet "eth" "0x1" holding ≡ (manager, true)
unfolding remove_wallet find_wallet to_upper char_of lookup delete
emptied = refl

abbrev misplaced : WalletManager
misplaced = record manager { wallets = ("eth", ("0x1", stored) ∷ []) ∷ [] }

get_wallet-rotate_example :
    (after : WalletManager) × (rotate_encryption_key marking "k2" (λ n a. "iv") holding
      ≡ (after, true))
    × (active_key after.config ≡ some "k2")
    × (get_wallet marking "ETH" "0x1" after ≡ get_wallet marking "ETH" "0x1" holding)
unfolding cipher decipher split_colon show hide
get_wallet-rotate_example =
    get_wallet-rotate marking "k" "k2" "ETH" "0x1" (λ n a. "iv") holding marking-Documented refl
      refl refl ((inr ("0xkey", refl, refl, refl, refl), tt), tt)

abbrev handlers : Handlers
handlers network = some (λ mnemonic. ok ("0x2", "0xsecret"))

get_wallet-import_example :
    (after : WalletManager) × (w : Wallet String) × (import_from_mnemonic marking handlers
        (λ n. "iv")
        "able about"
        "ETH"
        manager
      ≡ ok (after, w))
    × (get_wallet marking "ETH" "0x2" after
        ≡ ok (
            some (record {
              address = "0x2";
              network = "ETH";
              private_key = plain_text (cipher marking "iv" "k" "0xsecret");
              path = none;
              mnemonic = some "able about";
              encrypted = false;
            })))
unfolding cipher hide
get_wallet-import_example =
    get_wallet-import marking handlers (λ n. "iv") "able about" "ETH" "0x2" "0xsecret" "k"
      (λ mnemonic. ok ("0x2", "0xsecret")) manager marking-Documented refl refl refl refl upper refl
      refl refl
