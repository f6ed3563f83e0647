-- ===== src/Web3Auth/Service.antt =====
-- The operations of `Web3AuthService`. A clock gives the readings of one call, in order.
use alive_human.Base.{
  ℕ, ◌+◌, Bool, true, false, ◌&&◌, not, String, Option, none, some, ltb, str_eq, if◌then◌else◌,
  head?, ok, err,
}
use alive_human.Base.Dict.{lookup, insert, delete}
use alive_human.Web3Auth.{
  Users, Sessions, User, Session, World, Tools, Payload, Web3AuthDto, RefreshTokenDto,
  SessionHeartbeatDto, AuthResponse, Result, wrong_network, invalid_nonce, challenge_expired,
  invalid_signature, invalid_session, device_failed, user_not_found, invalid_token,
  is_polygon_network, challenge_expiry, message_of, verify_wallet_signature,
  verify_device_fingerprint,
}

abbrev pub is_text : Option String → String → Bool
is_text none t = false
is_text (some s) t = str_eq s t

abbrev pub only_if : Bool → Option Session → Option Session
only_if test found = if test then found else none

module _ (users : Users) (sessions : Sessions) where
  abbrev pub State : Type 0
  State = World users.Table sessions.Table

  -- `uuidv4()` gives the nonce.
  unfoldable pub generate_challenge : State → String → ℕ → State × (String × String)
  generate_challenge w nonce now = (
    record w { challenges = insert nonce (record { nonce = nonce; timestamp = now }) w.challenges },
    (message_of nonce, nonce),
  )

  -- `findOne` by wallet address, as the address is spelled.
  unfoldable pub find_user : users.Table → String → Option User
  find_user table wallet =
      head? (users.find table (λ u. is_text u.wallet_address wallet) (λ a b. true) (some 1))

  abbrev pub new_user : String → String → String → ℕ → ℕ → User
  new_user id wallet chain first last = record {
    id = id;
    username = none;
    email = none;
    email_verified = false;
    profile_picture_url = none;
    wallet_address = some wallet;
    chain_id = some chain;
    first_login_at = some first;
    last_login_at = some last;
    is_admin = false;
  }

  -- The user of the wallet as it is saved: a new one, or the one there with its login updated.
  unfoldable pub user_of : users.Table → Web3AuthDto → String → (ℕ → ℕ) → User
  user_of table dto user_id clock = elim (find_user table dto.wallet_address) [
    | none ↦ new_user user_id dto.wallet_address dto.chain_id (clock 1) (clock 2)
    | some u ↦ record u { last_login_at = some (clock 1); chain_id = some dto.chain_id }
  ]

  abbrev pub new_session : Web3AuthDto → User → String → (ℕ → ℕ) → Session
  new_session dto user id clock = record {
    id = id;
    user_id = user.id;
    wallet_address = some dto.wallet_address;
    device_fingerprint = dto.device_fingerprint;
    location_data = dto.location_data;
    start_time = clock 3;
    last_active_time = clock 4;
    end_time = none;
    is_active = true;
    refresh_token = none;
    chain_id = some dto.chain_id;
  }

  abbrev pub respond : String → String → User → Session → AuthResponse
  respond access refresh user session = record {
    access_token = access;
    refresh_token = refresh;
    user = record { id = user.id; wallet_address = user.wallet_address; chain_id = user.chain_id };
    session = record { id = session.id; start_time = session.start_time };
  }

  -- `update` of one row by its id.
  abbrev pub update : sessions.Table → String → (Session → Session) → sessions.Table
  update table id change = elim (sessions.find_one table id) [
    | none ↦ table
    | some s ↦ sessions.save table (change s)
  ]

  -- `findOne` of an active session by id.
  abbrev pub find_active : sessions.Table → String → Option Session
  find_active table id = elim (sessions.find_one table id) [
    | none ↦ none
    | some s ↦ only_if s.is_active (some s)
  ]

  -- `findOne` of an active session by id and refresh token.
  abbrev pub find_refreshable : sessions.Table → String → String → Option Session
  find_refreshable table id token = elim (sessions.find_one table id) [
    | none ↦ none
    | some s ↦ only_if (is_text s.refresh_token token && s.is_active) (some s)
  ]

  unfoldable pub update_session_heartbeat : State → SessionHeartbeatDto → State × Bool
  update_session_heartbeat w dto = elim (find_active w.sessions dto.session_id) [
    | none ↦ (w, false)
    | some s ↦
        let beaten : Session = record s {
          last_active_time = dto.last_active_time;
          location_data = dto.location_data;
        } in
        (record w { sessions = sessions.save w.sessions beaten }, true)
  ]

  unfoldable pub end_session : State → String → ℕ → State × Bool
  end_session w id now = (
    record w {
      sessions = update w.sessions id (λ s. record s { is_active = false; end_time = some now });
    },
    true,
  )

  module _ (tools : Tools) where
    -- The part of `authenticateUser` after the checks: the row of the user is saved, the session is
    -- saved, and saved again with its refresh token.
    unfoldable pub log_in : State → Web3AuthDto → String → String → (ℕ → ℕ) → State × AuthResponse
    log_in w dto user_id session_id clock =
        let user = user_of w.users dto user_id clock in
        let session = new_session dto user session_id clock in
        let payload : Payload = record {
          sub = user.id;
          wallet = some dto.wallet_address;
          session_id = session.id;
          chain_id = some dto.chain_id;
        } in
        let access = tools.sign_access (clock 5) payload in
        let refresh = tools.sign_refresh (clock 6) payload in
        let signed : Session = record session { refresh_token = some refresh } in
        (
          record w {
            challenges = delete dto.nonce w.challenges;
            users = users.save w.users user;
            sessions = sessions.save (sessions.save w.sessions session) signed;
          },
          respond access refresh user signed,
        )

    unfoldable pub authenticate_user :
        State → Web3AuthDto → String → String → (ℕ → ℕ) → State × Result AuthResponse
    authenticate_user w dto user_id session_id clock =
        let (w', response) = log_in w dto user_id session_id clock in
        if not (is_polygon_network dto.chain_id)
        then (w, err wrong_network)
        else elim (lookup dto.nonce w.challenges) [
          | none ↦ (w, err invalid_nonce)
          | some challenge ↦
              if ltb (challenge.timestamp + challenge_expiry) (clock 0)
              then (record w { challenges = delete dto.nonce w.challenges }, err challenge_expired)
              else (if not (
                    verify_wallet_signature tools dto.wallet_address (message_of dto.nonce)
                      dto.signature)
                  then (w, err invalid_signature)
                  else (w', ok response))
        ]

    -- The part of `refreshSession` from a session whose device matches.
    unfoldable pub renew :
        State → RefreshTokenDto → Payload → Session → (ℕ → ℕ) → State × Result AuthResponse
    renew w dto payload session clock =
        let seen : Session = record session {
          last_active_time = clock 1;
          location_data = dto.location_data;
        } in
        let table = sessions.save w.sessions seen in
        elim (users.find_one w.users payload.sub) [
          | none ↦ (record w { sessions = table }, err user_not_found)
          | some user ↦
              let next : Payload = record {
                sub = user.id;
                wallet = user.wallet_address;
                session_id = session.id;
                chain_id = user.chain_id;
              } in
              let refresh = tools.sign_refresh (clock 3) next in
              let signed : Session = record seen { refresh_token = some refresh } in
              (
                record w { sessions = sessions.save table signed },
                ok (respond (tools.sign_access (clock 2) next) refresh user signed),
              )
        ]

    unfoldable pub refresh_session : State → RefreshTokenDto → (ℕ → ℕ) → State × Result AuthResponse
    refresh_session w dto clock = elim (tools.verify_refresh (clock 0) dto.refresh_token) [
      | none ↦ (w, err invalid_token)
      | some payload ↦ elim (find_refreshable w.sessions payload.session_id dto.refresh_token) [
        | none ↦ (w, err invalid_session)
        | some session ↦
            if not (verify_device_fingerprint session.device_fingerprint dto.device_fingerprint)
            then (
              record w {
                sessions = update w.sessions session.id (λ s. record s { is_active = false });
              },
              err device_failed,
            )
            else renew w dto payload session clock
      ]
    ]
