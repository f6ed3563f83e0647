-- ===== src/Web3Auth/Tests.antt =====
-- The theorems of the Web3 login on a small world: one challenge, no user, and one open session.
use alive_human.Base.{
  String, ◌⊎◌, ℕ, ◌+◌, ◌≤◌, ◌≡◌, refl, true, false, [], ◌∷◌, none, some, str_eq, ok, err,
  if◌then◌else◌,
}
use alive_human.Base.Dict.{lookup}
use alive_human.Base.Texts.{same_ignoring_case}
use alive_human.Repository.Table.{table_repository}
use alive_human.Web3Auth.{
  Users, Sessions, User, Session, Tools, Payload, Challenge, DeviceFingerprint, LocationData,
  Web3AuthDto, RefreshTokenDto, SessionHeartbeatDto, AuthResponse, invalid_nonce, invalid_session,
  invalid_signature, message_of, verify_wallet_signature, verify_device_fingerprint,
}
use alive_human.Web3Auth.Service.{
  State, authenticate_user, refresh_session, end_session, update_session_heartbeat, log_in, user_of,
  find_user,
}
use alive_human.Web3Auth.Calls.{heartbeat, end, run}
use alive_human.Web3Auth.Challenges.{used_nonce_is_refused}
use alive_human.Web3Auth.Login.{authenticate_user_checks, authenticate_user_stores}
use alive_human.Web3Auth.Endings.{ended_session_stays_ended}
use alive_human.Web3Auth.Refresh.{login_then_refresh}

abbrev users : Users
users = table_repository (λ u. u.id)

abbrev sessions : Sessions
sessions = table_repository (λ s. s.id)

abbrev laptop : DeviceFingerprint
laptop = record {
  hardware_id = "h1";
  browser_info = record {
    name = "Firefox";
    version = "120";
    language = "en";
    user_agent = "ua";
    platform = "linux";
  };
  screen_resolution = record { width = 1920; height = 1080; color_depth = 24 };
  installed_fonts = [];
  installed_plugins = [];
  timezone = "UTC";
  canvas = "c";
  webgl_fingerprint = "g";
}

abbrev phone : DeviceFingerprint
phone = record laptop { hardware_id = "h2" }

abbrev home : LocationData
home = record {
  ip = "10.0.0.1";
  coordinates = record { latitude = "52.1"; longitude = "4.9"; accuracy = "10" };
  country = "NL";
  region = "ZH";
  city = "Delft";
  isp = "isp";
  timezone = "UTC";
  timestamp = 7;
}

-- Every token is that of the first session of the first user.
abbrev first_payload : Payload
first_payload = record {
  sub = "u1";
  wallet = some "0xab";
  session_id = "s1";
  chain_id = some "0x89";
}

abbrev tools : Tools
tools = record {
  verify_message = λ message signature. if str_eq signature "good" then some "0xAB" else none;
  sign_access = λ now p. "access";
  sign_refresh = λ now p. "refresh";
  verify_refresh = λ now token. some first_payload;
}

abbrev login : Web3AuthDto
login = record {
  wallet_address = "0xab";
  signature = "good";
  nonce = "n1";
  device_fingerprint = laptop;
  location_data = home;
  chain_id = "0x89";
}

abbrev world : State users sessions
unfolding table_repository
world = record {
  challenges = ("n1", record { nonce = "n1"; timestamp = 1000 }) ∷ [];
  users = ([], tt);
  sessions = ([], tt);
}

abbrev clock : ℕ → ℕ
clock n = 2000 + n

abbrev after_login : State users sessions
after_login = (authenticate_user users sessions tools world login "u1" "s1" clock).0

abbrev response : AuthResponse
response = record {
  access_token = "access";
  refresh_token = "refresh";
  user = record { id = "u1"; wallet_address = some "0xab"; chain_id = some "0x89" };
  session = record { id = "s1"; start_time = 2003 };
}

-- The login is a success, though the recovered address is spelled in capitals.
logged_in : (authenticate_user users sessions tools world login "u1" "s1" clock).1 ≡ ok response
unfolding table_repository authenticate_user log_in user_of find_user verify_wallet_signature lookup
    same_ignoring_case world
logged_in = refl

used_nonce_is_refused_example :
    let after = run users sessions tools after_login (end "s1" "s1" 2500 ∷ []) in
    authenticate_user users sessions tools after
      (record login { chain_id = "0x13881" })
      "u2"
      "s2"
      clock
    ≡ (after, err invalid_nonce)
used_nonce_is_refused_example =
    used_nonce_is_refused users sessions tools world login (record login { chain_id = "0x13881" })
      "u1" "s1" "u2" "s2" clock clock response (end "s1" "s1" 2500 ∷ []) logged_in (refl, tt) refl
      refl

authenticate_user_checks_example :
    ((login.chain_id ≡ "0x89") ⊎ (login.chain_id ≡ "0x13881"))
    × ((c : Challenge) × (lookup "n1" world.challenges ≡ some c) × (2000 ≤ c.timestamp + 300000))
    × ((signer : String) × (tools.verify_message (message_of "n1") "good" ≡ some signer)
        × (same_ignoring_case signer "0xab" ≡ true))
authenticate_user_checks_example =
    authenticate_user_checks users sessions tools world login "u1" "s1" clock response logged_in

abbrev forged : Web3AuthDto
forged = record login { signature = "bad" }

abbrev after_forged : State users sessions
after_forged = (authenticate_user users sessions tools world forged "u1" "s1" clock).0

forged_fails :
    (authenticate_user users sessions tools world forged "u1" "s1" clock).1 ≡ err invalid_signature
unfolding authenticate_user verify_wallet_signature lookup world
forged_fails = refl

authenticate_user_stores_example :
    (u : User) × (s : Session) × (users.find_one after_login.users "u1" ≡ some u)
    × (u.wallet_address ≡ some "0xab")
    × (u.chain_id ≡ some "0x89")
    × (sessions.find_one after_login.sessions "s1" ≡ some s)
    × (s.user_id ≡ "u1")
    × (s.is_active ≡ true)
    × (s.device_fingerprint ≡ laptop)
    × (s.refresh_token ≡ some "refresh")
    × (str_eq "s1" "s2" ≡ false
        → sessions.find_one after_login.sessions "s2" ≡ sessions.find_one world.sessions "s2")
authenticate_user_stores_example =
    authenticate_user_stores users sessions tools world login "u1" "s1" "s2" clock response
      logged_in

abbrev renewal : RefreshTokenDto
renewal = record { refresh_token = "refresh"; device_fingerprint = laptop; location_data = home }

login_then_refresh_example :
    (r : AuthResponse) × ((refresh_session users sessions tools after_login renewal clock).1 ≡ ok r)
    × (r.user.id ≡ "u1")
    × (r.session.id ≡ "s1")
unfolding verify_device_fingerprint
login_then_refresh_example =
    login_then_refresh users sessions tools world login renewal "u1" "s1" clock clock response
      logged_in refl refl refl

-- A world with the first user and the first session, as the login leaves them.
abbrev first_user : User
first_user = record {
  id = "u1";
  username = none;
  email = none;
  email_verified = false;
  profile_picture_url = none;
  wallet_address = some "0xab";
  chain_id = some "0x89";
  first_login_at = some 1;
  last_login_at = some 1;
  is_admin = false;
}

abbrev first_session : Session
first_session = record {
  id = "s1";
  user_id = "u1";
  wallet_address = some "0xab";
  device_fingerprint = laptop;
  location_data = home;
  start_time = 3;
  last_active_time = 4;
  end_time = none;
  is_active = true;
  refresh_token = some "old";
  chain_id = some "0x89";
}

abbrev open_world : State users sessions
unfolding table_repository
open_world = record {
  challenges = [];
  users = (first_user ∷ [], (refl, tt));
  sessions = (first_session ∷ [], (refl, tt));
}

abbrev old_token : RefreshTokenDto
old_token = record renewal { refresh_token = "old" }

abbrev beat : SessionHeartbeatDto
beat = record { session_id = "s1"; last_active_time = 99; location_data = home }

ended_session_stays_ended_example :
    let after =
      run users sessions tools
        (end_session users sessions open_world "s1" 50).0
        (heartbeat "s1" beat ∷ []) in
    (refresh_session users sessions tools after old_token clock ≡ (after, err invalid_session))
    × (update_session_heartbeat users sessions after beat ≡ (after, false))
unfolding table_repository open_world
ended_session_stays_ended_example =
    ended_session_stays_ended users sessions tools open_world first_session "s1" 50
      (heartbeat "s1" beat ∷ []) old_token beat first_payload clock refl (refl, tt) refl refl refl

abbrev stolen : RefreshTokenDto
stolen = record old_token { device_fingerprint = phone }
