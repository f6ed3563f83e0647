-- ===== src/Wallets/Reading.antt =====
-- A wallet that was added is read again, if its network was in upper case.
use text.Mathlib.TextEquality.{eq_iff}
use mathlib.Core.Path.{subst}
use alive_human.Base.{
  true, false, ◌&&◌, ◌≡◌, refl, String, [], none, some, arith, str_eq, if◌then◌else◌, get_or,
  truthy, Option-cases, inl, inr, ok,
}
use alive_human.Base.Dict.{lookup, insert, lookup-insert}
use alive_human.Base.Texts.{to_upper, no_colon, split_colon-append}
use alive_human.Wallets.{
  plain_text, cipher, decipher, Crypto, decrypt, Wallet, Config, WalletManager, active_key,
}
use alive_human.Wallets.Manager.{
  by_address, safe_wallet, store, add_wallet, find_wallet, open_wallet, read_wallet, get_wallet,
}

-- What the crypto library documents: hex digits are no colons and give their Buffer back, and AES with the
-- key and the vector of a cipher gives its text back.
pub record Documented (crypto : Crypto) : Type 0 where
  pub hex_no_colon : (b : String) → no_colon (crypto.to_hex b) ≡ true
  pub aes_no_colon : (key iv s : String) → no_colon (crypto.aes_encrypt key iv s) ≡ true
  pub from_hex-to_hex : (b : String) → crypto.from_hex (crypto.to_hex b) ≡ b
  pub aes_decrypt-aes_encrypt :
      (key iv s : String) → crypto.aes_decrypt key iv (crypto.aes_encrypt key iv s) ≡ some s

-- What is encrypted under a key is read again under it.
pub decipher-cipher :
    (crypto : Crypto)
    → Documented crypto
    → (iv key s : String) → decipher crypto key (cipher crypto iv key s) ≡ some s
unfolding decipher cipher
decipher-cipher crypto laws iv key s =
    let secret = crypto.sha256 key in
    ground (
      arith,
      split_colon-append (crypto.to_hex iv) (crypto.aes_encrypt secret iv s) (laws.hex_no_colon iv)
          (laws.aes_no_colon secret iv s),
      laws.from_hex-to_hex iv,
      laws.aes_decrypt-aes_encrypt secret iv s,
    )

pub find_wallet-store :
    (n a n' a' : String) (w : Wallet String) (m : WalletManager)
    → find_wallet n' a' (store n a w m)
      ≡ (if str_eq n (to_upper n') && str_eq a a' then some w else find_wallet n' a' m)
unfolding find_wallet store lookup
find_wallet-store n a n' a' w m = ground (
  arith,
  lookup-insert n (to_upper n') (insert a w (get_or (lookup n m.wallets) [])) m.wallets,
  lookup-insert a a' w (get_or (lookup n m.wallets) []),
  eq_iff n (to_upper n'),
  eq_iff a a',
)

pub store-config :
    (n a : String) (w : Wallet String) (m : WalletManager) → (store n a w m).config ≡ m.config
unfolding store
store-config n a w m = refl

pub active_key-key :
    (config : Config) (key : String)
    → active_key config ≡ some key
    → truthy config.encryption_key ≡ some key
active_key-key config key active = ground arith

-- What is stored opens again under the manager's key.
pub open_wallet-safe :
    (crypto : Crypto) (config : Config) (network address : String) (w : Wallet String) (iv : String)
    → Documented crypto
    → crypto.parse_json w.private_key ≡ none
    → open_wallet crypto
        (truthy config.encryption_key)
        (safe_wallet crypto config network address w iv)
      ≡ ok (record {
        address = address;
        network = to_upper network;
        private_key = plain_text w.private_key;
        path = truthy w.path;
        mnemonic = truthy w.mnemonic;
        encrypted = false;
      })
unfolding open_wallet decrypt
open_wallet-safe crypto config network address w iv inverse no_json =
    elim (Option-cases (active_key config)) [
      | inl plain ↦ ground (arith, plain)
      | inr (key, active) ↦ ground (
        arith,
        active,
        active_key-key config key active,
        decipher-cipher crypto inverse iv key w.private_key,
        no_json,
      )
    ]

-- For a crypto library as `Documented` says: a wallet whose key is no JSON, added under
-- a network in upper case and an address, neither empty, is stored, and read again under both with its
-- own key, path and mnemonic, whether or not keys are encrypted.
pub get_wallet-add_wallet :
    (crypto : Crypto) (network address : String) (w : Wallet String) (iv : String)
    (m : WalletManager)
    → Documented crypto
    → crypto.parse_json w.private_key ≡ none
    → to_upper network ≡ network
    → str_eq network "" ≡ false
    → str_eq address "" ≡ false
    → (after : WalletManager) × (safe : Wallet String) × (add_wallet crypto network
          (by_address address (some w))
          iv
          m
        ≡ ok (after, safe))
      × (get_wallet crypto network address after
          ≡ ok (
              some (record {
                address = address;
                network = network;
                private_key = plain_text w.private_key;
                path = truthy w.path;
                mnemonic = truthy w.mnemonic;
                encrypted = false;
              })))
unfolding add_wallet get_wallet read_wallet
get_wallet-add_wallet crypto network address w iv m inverse no_json upper has_network has_address =
    let safe = safe_wallet crypto m.config network address w iv in
    (
      store network address safe m,
      safe,
      refl,
      ground (
        arith,
        find_wallet-store network address network address safe m,
        store-config network address safe m,
        open_wallet-safe crypto m.config network address w iv inverse no_json,
        eq_iff network (to_upper network),
        eq_iff address address,
        upper,
        has_network,
        has_address,
      ),
    )

-- A wallet that is stored under a network whose name is not in upper case is not found under that name:
-- what is read there is what was read before.
pub get_wallet-lower_case :
    (crypto : Crypto) (network address : String) (w : Wallet String) (iv : String)
    (m after : WalletManager) (safe : Wallet String)
    → add_wallet crypto network (by_address address (some w)) iv m ≡ ok (after, safe)
    → str_eq network (to_upper network) ≡ false
    → get_wallet crypto network address after ≡ get_wallet crypto network address m
unfolding add_wallet get_wallet
get_wallet-lower_case crypto network address w iv m after safe added other =
    let put = safe_wallet crypto m.config network address w iv in
    let same : store network address put m ≡ after = cc in
    subst (λ s. get_wallet crypto network address s ≡ get_wallet crypto network address m) same
      (ground (
        arith,
        find_wallet-store network address network address put m,
        store-config network address put m,
        other,
      ))
