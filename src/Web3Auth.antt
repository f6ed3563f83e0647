-- ===== src/Web3Auth.antt =====
-- packages/backend/src/auth/services/web3-auth.service.ts with its entities, and the data of
-- packages/shared/src/models/auth/web3-auth.ts that it exchanges: the data, the state and what the
-- service calls. The operations are in `Service`, the controller and sequences of calls in `Calls`.
-- Times are milliseconds. A number that is only stored (a coordinate) is the text of it.
pub mod Service
pub mod Calls
pub mod Challenges
pub mod Login
pub mod Sessions
pub mod Endings
pub mod Refresh
mod Tests
use alive_human.Base.{
  ℕ, Bool, true, false, not, ◌&&◌, ◌||◌, ◌==◌, String, List, Option, none, some, str_eq, Fallible,
  if◌then◌else◌,
}
use alive_human.Base.Dict.{Dict}
use alive_human.Base.Texts.{same_ignoring_case, str_append}
use alive_human.Repository.{Repository}

pub record BrowserInfo : Type 0 where
  pub name : String
  pub version : String
  pub language : String
  pub user_agent : String
  pub platform : String

pub record ScreenResolution : Type 0 where
  pub width : ℕ
  pub height : ℕ
  pub color_depth : ℕ

pub record DeviceFingerprint : Type 0 where
  pub hardware_id : String
  pub browser_info : BrowserInfo
  pub screen_resolution : ScreenResolution
  pub installed_fonts : List String
  pub installed_plugins : List String
  pub timezone : String
  pub canvas : String
  pub webgl_fingerprint : String

pub record Coordinates : Type 0 where
  pub latitude : String
  pub longitude : String
  pub accuracy : String

pub record LocationData : Type 0 where
  pub ip : String
  pub coordinates : Coordinates
  pub country : String
  pub region : String
  pub city : String
  pub isp : String
  pub timezone : String
  pub timestamp : ℕ

pub record User : Type 0 where
  pub id : String
  pub username : Option String
  pub email : Option String
  pub email_verified : Bool
  pub profile_picture_url : Option String
  pub wallet_address : Option String
  pub chain_id : Option String
  pub first_login_at : Option ℕ
  pub last_login_at : Option ℕ
  pub is_admin : Bool

pub record Session : Type 0 where
  pub id : String
  pub user_id : String
  pub wallet_address : Option String
  pub device_fingerprint : DeviceFingerprint
  pub location_data : LocationData
  pub start_time : ℕ
  pub last_active_time : ℕ
  pub end_time : Option ℕ
  pub is_active : Bool
  pub refresh_token : Option String
  pub chain_id : Option String

pub record Web3AuthDto : Type 0 where
  pub wallet_address : String
  pub signature : String
  pub nonce : String
  pub device_fingerprint : DeviceFingerprint
  pub location_data : LocationData
  pub chain_id : String

pub record RefreshTokenDto : Type 0 where
  pub refresh_token : String
  pub device_fingerprint : DeviceFingerprint
  pub location_data : LocationData

pub record SessionHeartbeatDto : Type 0 where
  pub session_id : String
  pub last_active_time : ℕ
  pub location_data : LocationData

pub record UserInfo : Type 0 where
  pub id : String
  pub wallet_address : Option String
  pub chain_id : Option String

pub record SessionInfo : Type 0 where
  pub id : String
  pub start_time : ℕ

pub record AuthResponse : Type 0 where
  pub access_token : String
  pub refresh_token : String
  pub user : UserInfo
  pub session : SessionInfo

pub record Payload : Type 0 where
  pub sub : String
  pub wallet : Option String
  pub session_id : String
  pub chain_id : Option String

pub data AuthError : Type 0 where
  wrong_network invalid_nonce challenge_expired invalid_signature : AuthError
  invalid_session device_failed user_not_found invalid_token : AuthError

abbrev pub Result {ℓ} : Type ℓ → Type ℓ
Result A = Fallible AuthError A

-- The libraries: `verifyMessage` of a message and a signature (`none` where it throws), `sign` with
-- the two secrets and lifetimes at a time, and `verify` of a refresh token at a time.
pub record Tools : Type 0 where
  pub verify_message : String → String → Option String
  pub sign_access : ℕ → Payload → String
  pub sign_refresh : ℕ → Payload → String
  pub verify_refresh : ℕ → String → Option Payload

abbrev pub Users : Type 1
Users = Repository User (λ u. u.id)

abbrev pub Sessions : Type 1
Sessions = Repository Session (λ s. s.id)

pub record Challenge : Type 0 where
  pub nonce : String
  pub timestamp : ℕ

-- `challengeMap`, and the two tables.
pub record World (U S : Type 0) : Type 0 where
  pub challenges : Dict Challenge
  pub users : U
  pub sessions : S

-- packages/shared/src/blockchain/polygon.ts: the main network or the Mumbai test network.
abbrev pub is_polygon_network : String → Bool
is_polygon_network chain_id = str_eq chain_id "0x89" || str_eq chain_id "0x13881"

abbrev pub challenge_expiry : ℕ
challenge_expiry = 300000

abbrev pub message_of : String → String
message_of nonce = str_append "Sign this message to authenticate with AliveHuman: " nonce

-- `verifyWalletSignature`: a recovered address has no letters outside A to Z and a to z.
unfoldable pub verify_wallet_signature : Tools → String → String → String → Bool
verify_wallet_signature tools address message signature =
    elim (tools.verify_message message signature) [
      | none ↦ false
      | some recovered ↦ same_ignoring_case recovered address
    ]

-- `verifyDeviceFingerprint`: hardware, browser and screen size.
unfoldable pub verify_device_fingerprint : DeviceFingerprint → DeviceFingerprint → Bool
verify_device_fingerprint stored current =
    if not (str_eq stored.hardware_id current.hardware_id)
    then false
    else (if not (str_eq stored.browser_info.name current.browser_info.name)
        then false
        else (if not (stored.screen_resolution.width == current.screen_resolution.width)
              || not (stored.screen_resolution.height == current.screen_resolution.height)
            then false
            else true))
