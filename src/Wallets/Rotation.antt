-- ===== src/Wallets/Rotation.antt =====
-- A new encryption key, and what the wallets read as.

use alive_human.Base.{
  true, false, ◌≡◌, ◌⊎◌, refl, String, [], ◌∷◌, Option, none, some, arith, All, str_eq,
  Option-cases, Bool-cases, inl, inr, ok,
}
use alive_human.Base.Dict.{Dict, lookup}
use alive_human.Base.Texts.{to_upper}
use alive_human.Wallets.{
  Crypto, cipher, decipher, encrypt, decrypt, Wallet, WalletManager, active_key,
}
use alive_human.Wallets.Manager.{
  find_wallet, open_wallet, read_wallet, get_wallet, rotate_wallet, rotate_network, rotate_networks,
  rotate_all, rotate_encryption_key,
}
use alive_human.Wallets.Reading.{Documented, decipher-cipher, active_key-key}

-- The wallet is not encrypted, or its key deciphers to a text that is no JSON.
abbrev pub Opens : Crypto → String → Wallet String → Type 0
Opens crypto key w =
    (w.encrypted ≡ false)
    ⊎ ((s : String) × (w.encrypted ≡ true)
        × (str_eq w.private_key "" ≡ false)
        × (decipher crypto key w.private_key ≡ some s)
        × (crypto.parse_json s ≡ none))

-- The wallet of an address among those of a network.
abbrev within : String → Option (Dict (Wallet String)) → Option (Wallet String)
within a none = none
within a (some held) = lookup a held

find_wallet-within :
    (n a : String) (m : WalletManager)
    → find_wallet n a m ≡ within a (lookup (to_upper n) m.wallets)
unfolding find_wallet
find_wallet-within n a m = elim (Option-cases (lookup (to_upper n) m.wallets)) [
  | inl missing ↦ ground (arith, missing)
  | inr (held, found) ↦ ground (arith, found)
]

module _ (crypto : Crypto) (inverse : Documented crypto) (old new : String) where
  rotate_wallet-Opens :
      (iv : String) (w : Wallet String)
      → Opens crypto old w
      → (w' : Wallet String) × (rotate_wallet crypto old new iv w ≡ ok w')
        × (open_wallet crypto (some new) w' ≡ open_wallet crypto (some old) w)
  unfolding rotate_wallet open_wallet decrypt encrypt
  rotate_wallet-Opens iv w (inl plain) = (w, ground (arith, plain), ground (arith, plain))
  rotate_wallet-Opens iv w (inr (s, hidden, full, deciphers, no_json)) = (
    record w { private_key = cipher crypto iv new s },
    ground (arith, hidden, full, deciphers, no_json),
    ground (arith, hidden, deciphers, no_json, decipher-cipher crypto inverse iv new s),
  )

  rotate_network-reads :
      (iv : String → String) (held : Dict (Wallet String))
      → All (λ (e : String × Wallet String). Opens crypto old e.1) held
      → (held' : Dict (Wallet String)) × (rotate_network crypto old new iv held ≡ ok held')
        × ((a : String)
            → read_wallet crypto (some new) (lookup a held')
              ≡ read_wallet crypto (some old) (lookup a held))
  unfolding rotate_network read_wallet lookup
  rotate_network-reads iv [] all = ([], refl, λ a. refl)
  rotate_network-reads iv (e ∷ held) all =
      let (w', one, reads) = rotate_wallet-Opens (iv e.0) e.1 all.0 in
      let (held', rest, others) = rotate_network-reads iv held all.1 in
      (
        (e.0, w') ∷ held',
        ground (arith, one, rest),
        λ a. elim (Bool-cases (str_eq e.0 a)) [
          | inl here ↦ ground (arith, here, reads)
          | inr other ↦ rw other (others a)
        ],
      )

  rotate_networks-reads :
      (iv : String → String → String) (all : Dict (Dict (Wallet String)))
      → All
          (λ (n : String × Dict (Wallet String)).
            All (λ (e : String × Wallet String). Opens crypto old e.1) n.1)
          all
      → (all' : Dict (Dict (Wallet String))) × (rotate_networks crypto old new iv all ≡ ok all')
        × ((n a : String)
            → read_wallet crypto (some new) (within a (lookup n all'))
              ≡ read_wallet crypto (some old) (within a (lookup n all)))
  unfolding rotate_networks lookup read_wallet
  rotate_networks-reads iv [] opens = ([], refl, λ n a. refl)
  rotate_networks-reads iv (e ∷ all) opens =
      let (held', one, reads) = rotate_network-reads (iv e.0) e.1 opens.0 in
      let (all', rest, others) = rotate_networks-reads iv all opens.1 in
      (
        (e.0, held') ∷ all',
        ground (arith, one, rest),
        λ n a. elim (Bool-cases (str_eq e.0 n)) [
          | inl here ↦ rw here (reads a)
          | inr other ↦ rw other (others n a)
        ],
      )

-- For a crypto library as `Documented` says: let keys be encrypted under an old key, and
-- each encrypted wallet decipher under it to a text that is no JSON. Then `rotate_encryption_key` with
-- another key, not empty, succeeds, the manager holds the new key, and every wallet of every network
-- reads as it did before.
pub get_wallet-rotate :
    (crypto : Crypto) (old new network address : String) (iv : String → String → String)
    (m : WalletManager)
    → Documented crypto
    → active_key m.config ≡ some old
    → str_eq new "" ≡ false
    → str_eq old new ≡ false
    → All
        (λ (n : String × Dict (Wallet String)).
          All (λ (e : String × Wallet String). Opens crypto old e.1) n.1)
        m.wallets
    → (after : WalletManager) × (rotate_encryption_key crypto new iv m ≡ (after, true))
      × (active_key after.config ≡ some new)
      × (get_wallet crypto network address after ≡ get_wallet crypto network address m)
unfolding rotate_encryption_key rotate_all get_wallet
get_wallet-rotate crypto old new network address iv m inverse active full other opens =
    let (all', rotated, reads) = rotate_networks-reads crypto inverse old new iv m.wallets opens in
    let key = active_key-key m.config old active in
    let same = reads (to_upper network) address in
    let after : WalletManager = record {
      config = record m.config { encryption_key = some new };
      wallets = all';
    } in
    (
      after,
      ground (arith, active, full, other, rotated, key),
      ground (arith, active, full),
      ground (
        arith,
        find_wallet-within network address after,
        find_wallet-within network address m,
        same,
        key,
        full,
      ),
    )
