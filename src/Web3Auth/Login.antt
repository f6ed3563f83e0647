-- ===== src/Web3Auth/Login.antt =====
-- What a login checks and what it stores.
use text.Mathlib.TextEquality.{eq_iff}
use alive_human.Base.{
  ℕ, ◌+◌, ◌≤◌, ◌≡◌, ◌⊎◌, inl, inr, refl, Bool, true, false, String, some, arith, head?, All-head?,
  Option-cases, Bool-cases, ltb, str_eq, ok, err,
}
use alive_human.Base.Dict.{lookup}
use alive_human.Base.Texts.{same_ignoring_case}
use alive_human.Web3Auth.{
  Users, Sessions, User, Session, Tools, Web3AuthDto, AuthResponse, Payload, Challenge, AuthError,
  challenge_expired, challenge_expiry, is_polygon_network, message_of, verify_wallet_signature,
}
use alive_human.Web3Auth.Service.{
  State, log_in, authenticate_user, user_of, find_user, is_text, new_session,
}

-- The payload of the tokens of a login.
abbrev pub login_payload : Web3AuthDto → String → String → Payload
login_payload dto user_id session_id = record {
  sub = user_id;
  wallet = some dto.wallet_address;
  session_id = session_id;
  chain_id = some dto.chain_id;
}

module _ (users : Users) (sessions : Sessions) (tools : Tools) where
  -- What an accepted signature shows.
  signer_of :
      (address message signature : String)
      → verify_wallet_signature tools address message signature ≡ true
      → (signer : String) × (tools.verify_message message signature ≡ some signer)
        × (same_ignoring_case signer address ≡ true)
  unfolding verify_wallet_signature
  signer_of address message signature accepted =
      elim (Option-cases (tools.verify_message message signature)) [
        | inl unreadable ↦ absurd (ground arith)
        | inr (signer, read) ↦ (signer, read, ground (arith, read))
      ]

  -- A Polygon network is the main one or the Mumbai test network.
  polygon :
      (chain_id : String)
      → is_polygon_network chain_id ≡ true
      → (chain_id ≡ "0x89") ⊎ (chain_id ≡ "0x13881")
  polygon chain_id listed = elim (Bool-cases (str_eq chain_id "0x89")) [
    | inl main ↦ inl (ground (arith, main, eq_iff chain_id "0x89"))
    | inr other ↦ inr (ground (arith, other, eq_iff chain_id "0x13881"))
  ]

  -- A login that succeeds was made from the Polygon main network or its Mumbai test network, with a nonce handed out at most five
  -- minutes before, and with a signature of that nonce's message from which the wallet's address is
  -- recovered, in any case of its letters.
  pub authenticate_user_checks :
      (w : State users sessions) (dto : Web3AuthDto) (user_id session_id : String) (clock : ℕ → ℕ)
      (r : AuthResponse)
      → (authenticate_user users sessions tools w dto user_id session_id clock).1 ≡ ok r
      → ((dto.chain_id ≡ "0x89") ⊎ (dto.chain_id ≡ "0x13881"))
        × ((c : Challenge) × (lookup dto.nonce w.challenges ≡ some c)
            × (clock 0 ≤ c.timestamp + 300000))
        × ((signer : String) × (tools.verify_message (message_of dto.nonce) dto.signature
              ≡ some signer)
            × (same_ignoring_case signer dto.wallet_address ≡ true))
  unfolding authenticate_user log_in
  authenticate_user_checks w dto user_id session_id clock r e =
      elim (Option-cases (lookup dto.nonce w.challenges)) [
        | inl unknown ↦ absurd (ground arith)
        | inr (c, found) ↦ (
          polygon dto.chain_id (ground arith),
          (c, found, ground arith),
          signer_of dto.wallet_address (message_of dto.nonce) dto.signature (ground arith),
        )
      ]

  -- A login that fails leaves the users and the sessions as they are; it also leaves the nonces,
  -- unless it fails because its challenge has expired.
  pub authenticate_user_fails :
      (w : State users sessions) (dto : Web3AuthDto) (user_id session_id : String) (clock : ℕ → ℕ)
      (e : AuthError)
      → (authenticate_user users sessions tools w dto user_id session_id clock).1 ≡ err e
      → let after = (authenticate_user users sessions tools w dto user_id session_id clock).0 in
        (after.users ≡ w.users)
        × (after.sessions ≡ w.sessions)
        × ((e ≡ challenge_expired) ⊎ (after.challenges ≡ w.challenges))
  unfolding authenticate_user log_in
  authenticate_user_fails w dto user_id session_id clock e failed =
      elim (Option-cases (lookup dto.nonce w.challenges)) [
        | inl unknown ↦ (ground arith, ground arith, inr (ground arith))
        | inr (c, found) ↦ (
          ground arith,
          ground arith,
          elim (Bool-cases (ltb (c.timestamp + challenge_expiry) (clock 0))) [
            | inl old ↦ elim (Bool-cases (is_polygon_network dto.chain_id)) [
              | inl polygon ↦ inl (ground arith)
              | inr elsewhere ↦ inr (ground arith)
            ]
            | inr fresh ↦ inr (ground arith)
          ],
        )
      ]

  -- The user that a login saves has the wallet and the chain of the request.
  user_of-wallet :
      (table : users.Table) (dto : Web3AuthDto) (user_id : String) (clock : ℕ → ℕ)
      → ((user_of users sessions table dto user_id clock).wallet_address ≡ some dto.wallet_address)
        × ((user_of users sessions table dto user_id clock).chain_id ≡ some dto.chain_id)
  unfolding user_of find_user
  user_of-wallet table dto user_id clock =
      let test : User → Bool = λ u. is_text u.wallet_address dto.wallet_address in
      let rows = users.find table test (λ a b. true) (some 1) in
      elim (Option-cases (head? rows)) [
        | inl missing ↦ (ground arith, ground arith)
        | inr (u, found) ↦
            let (passes, stored) =
              All-head? _ rows u (users.find-All table test (λ a b. true) (some 1)) found in
            elim (Option-cases u.wallet_address) [
              | inl no_wallet ↦ absurd (ground arith)
              | inr (wallet, has_wallet) ↦
                  (ground (arith, eq_iff wallet dto.wallet_address), ground arith)
            ]
      ]

  -- A login that succeeds stores an active session under its new id, with the device of the request
  -- and the refresh token that it returns, of a stored user with the wallet and the chain of the
  -- request; and every other session is as it was.
  pub authenticate_user_stores :
      (w : State users sessions) (dto : Web3AuthDto) (user_id session_id other : String)
      (clock : ℕ → ℕ) (r : AuthResponse)
      → (authenticate_user users sessions tools w dto user_id session_id clock).1 ≡ ok r
      → let after = (authenticate_user users sessions tools w dto user_id session_id clock).0 in
        (u : User) × (s : Session) × (users.find_one after.users r.user.id ≡ some u)
        × (u.wallet_address ≡ some dto.wallet_address)
        × (u.chain_id ≡ some dto.chain_id)
        × (sessions.find_one after.sessions session_id ≡ some s)
        × (s.user_id ≡ r.user.id)
        × (s.is_active ≡ true)
        × (s.device_fingerprint ≡ dto.device_fingerprint)
        × (s.refresh_token ≡ some r.refresh_token)
        × (str_eq session_id other ≡ false
            → sessions.find_one after.sessions other ≡ sessions.find_one w.sessions other)
  unfolding authenticate_user log_in
  authenticate_user_stores w dto user_id session_id other clock r e =
      let user = user_of users sessions w.users dto user_id clock in
      let session = new_session users sessions dto user session_id clock in
      let signed : Session = record session { refresh_token = some r.refresh_token } in
      let once = sessions.save w.sessions session in
      let (wallet, chain) = user_of-wallet w.users dto user_id clock in
      elim (Option-cases (lookup dto.nonce w.challenges)) [
        | inl unknown ↦ absurd (ground arith)
        | inr (c, found) ↦ (
          user,
          signed,
          ground (arith, users.find_one-save w.users user user.id, eq_iff user.id user.id),
          wallet,
          chain,
          ground
              (arith, sessions.find_one-save once signed session_id, eq_iff session_id session_id),
          ground arith,
          refl,
          refl,
          refl,
          λ distinct. ground (
            arith,
            sessions.find_one-save once signed other,
            sessions.find_one-save w.sessions session other,
          ),
        )
      ]

  -- What the refresh token of a login signs.
  pub authenticate_user-token :
      (w : State users sessions) (dto : Web3AuthDto) (user_id session_id : String) (clock : ℕ → ℕ)
      (r : AuthResponse)
      → (authenticate_user users sessions tools w dto user_id session_id clock).1 ≡ ok r
      → r.refresh_token ≡ tools.sign_refresh (clock 6) (login_payload dto r.user.id session_id)
  unfolding authenticate_user log_in
  authenticate_user-token w dto user_id session_id clock r e =
      elim (Option-cases (lookup dto.nonce w.challenges)) [
        | inl unknown ↦ absurd (ground arith)
        | inr (c, found) ↦ ground arith
      ]
