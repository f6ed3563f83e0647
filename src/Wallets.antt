-- ===== src/Wallets.antt =====
-- packages/backend/src/blockchain/hotwallet/WalletManager.ts and utils/encryption.ts: the wallets that are
-- held by network and address, and their private keys, which may be encrypted.
pub mod Manager
pub mod Reading
pub mod Rotation
pub mod Imports
mod Tests
use alive_human.Base.{
  truthy, ℕ, Bool, true, false, ◌&&◌, String, List, [], ◌∷◌, Option, none, some, str_eq,
  if◌then◌else◌, ◌||◌, Fallible, ok, err,
}
use alive_human.Base.Dict.{Dict, lookup, insert}
use alive_human.Base.Texts.{str_append, split_colon}

-- What JSON makes of a text: a text, an object with what `JSON.stringify` makes of it again (`null` is
-- one too), or a number or a truth value.
pub data Plain : Type 0 where
  plain_text object : String → Plain
  scalar : Plain

-- The crypto library and `JSON.parse`. A Buffer is a text of its bytes: the digest by SHA-256, the hex digits
-- of a Buffer and the Buffer of hex digits, and AES-256-CBC with a key and an initial vector of 16 bytes,
-- from a text to hex digits and back, which fails on what it cannot read.
pub record Crypto : Type 0 where
  pub sha256 : String → String
  pub to_hex : String → String
  pub from_hex : String → String
  pub aes_encrypt : String → String → String → String
  pub aes_decrypt : String → String → String → Option String
  pub parse_json : String → Option Plain

-- The text that `encrypt` makes with the vector that it draws: the vector before a colon and the cipher.
unfoldable pub cipher : Crypto → String → String → String → String
cipher crypto iv key s =
    str_append (crypto.to_hex iv) (str_append ":" (crypto.aes_encrypt (crypto.sha256 key) iv s))

-- The text that `decrypt` reads; there must be two parts.
unfoldable pub decipher : Crypto → String → String → Option String
decipher crypto key encrypted = elim (split_colon encrypted) [
  | [] ↦ none
  | first ∷ rest ↦ elim rest [
    | [] ↦ none
    | second ∷ more ↦ elim more [
      | [] ↦ crypto.aes_decrypt (crypto.sha256 key) (crypto.from_hex first) second
      | third ∷ others ↦ none
    ]
  ]
]

pub data WalletError : Type 0 where
  cannot_encrypt cannot_decrypt no_wallet_data no_key unsupported_network invalid_wallet
        invalid_mnemonic invalid_keys encryption_disabled :
      WalletError
  handler_failed : String → WalletError

-- `encrypt`, with the vector that it draws; a number is no text that a cipher takes.
unfoldable pub encrypt : Crypto → String → Plain → String → Fallible WalletError String
encrypt crypto iv (plain_text s) key = ok (cipher crypto iv key s)
encrypt crypto iv (object s) key = ok (cipher crypto iv key s)
encrypt crypto iv scalar key = err cannot_encrypt

-- `decrypt`, which gives what JSON makes of the text, if it is JSON.
unfoldable pub decrypt : Crypto → String → String → Fallible WalletError Plain
decrypt crypto encrypted key = elim (decipher crypto key encrypted) [
  | none ↦ err cannot_decrypt
  | some s ↦ elim (crypto.parse_json s) [ none ↦ ok (plain_text s) | some p ↦ ok p ]
]

-- A wallet as it is stored has a text for its key; one that is read may have what JSON makes of it.
pub record Wallet (Key : Type 0) : Type 0 where
  pub address : String
  pub network : String
  pub private_key : Key
  pub path : Option String
  pub mnemonic : Option String
  pub encrypted : Bool

pub record Config : Type 0 where
  pub encrypt_private_keys : Bool
  pub encryption_key : Option String

pub record WalletManager : Type 0 where
  pub config : Config
  pub wallets : Dict (Dict (Wallet String))

pub create : Config → WalletManager
create config = record { config = config; wallets = [] }

-- The key that new wallets are encrypted with, if they are.
abbrev pub active_key : Config → Option String
active_key config = if config.encrypt_private_keys then truthy config.encryption_key else none

abbrev pub with_key : {K L : Type 0} → Wallet K → L → Bool → Wallet L
with_key w key encrypted = record {
  address = w.address;
  network = w.network;
  private_key = key;
  path = w.path;
  mnemonic = w.mnemonic;
  encrypted = encrypted;
}
