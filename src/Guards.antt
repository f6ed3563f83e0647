-- ===== src/Guards.antt =====
-- packages/backend/src/auth/guards: the decisions of the guards on a request (SessionSecurityGuard, then
-- RolesGuard) and on a socket (WsJwtAuthGuard).
pub mod Admission
mod Tests
use Prim.Native.Char.{code}
use Prim.Native.String.{String}
use alive_human.Base.{
  Bool, true, false, not, ◌&&◌, ◌||◌, List, [], ◌∷◌, Option, none, some, get_or, truthy, str_eq,
  ◌==◌, if◌then◌else◌,
}
use alive_human.Base.Texts.{after_prefix}

-- What a token holds, as far as the guards read it.
pub record Payload : Type 0 where
  pub sub : Option String
  pub id : Option String
  pub session_id : Option String
  pub role : Option String
  pub is_admin : Bool

-- `request.user`.
pub record RequestUser : Type 0 where
  pub id : String
  pub session_id : Option String
  pub role : Option String
  pub is_admin : Bool

-- The marks of a route: public, without a session check, and its roles if it has any list of them.
pub record Route : Type 0 where
  pub is_public : Bool
  pub skip_session_check : Bool
  pub roles : Option (List String)

-- What the guards call: the JWT library's verification of a token, which may throw, and the service
-- that validates the session of a request for a user, which throws if it is not valid.
pub record Auth : Type 0 where
  pub verify : String → Option Payload
  pub validate_session : String → String → Bool

-- A guard lets a request through, with the user that it has set or not, or throws.
pub data Decision : Type 0 where
  allowed : Option RequestUser → Decision
  denied : Option RequestUser → Decision
  thrown : String → Decision

-- The parts of a text at its spaces: the first, and what is after the first space, if there is one.
unfoldable pub first_part : String → String
first_part String.[] = ""
first_part (String.◌∷◌ c s) =
    let rest = first_part s in if code c == 32 then "" else String.◌∷◌ c rest

unfoldable pub after_space : String → Option String
after_space String.[] = none
after_space (String.◌∷◌ c s) = let rest = after_space s in if code c == 32 then some s else rest

-- The second part of the header, if the first is "Bearer".
unfoldable pub extract_token_from_header : Option String → Option String
extract_token_from_header none = none
extract_token_from_header (some header) =
    if str_eq (first_part header) "Bearer"
    then elim (after_space header) [ none ↦ none | some rest ↦ some (first_part rest) ]
    else none

-- An id of the payload's own goes before its subject.
abbrev pub user_of : String → Payload → RequestUser
user_of sub payload = record {
  id = get_or payload.id sub;
  session_id = payload.session_id;
  role = payload.role;
  is_admin = payload.is_admin;
}

-- A payload without a session is let through.
unfoldable pub check_session : Auth → Payload → Decision
check_session auth payload = elim (truthy payload.sub) [
  | none ↦ thrown "Invalid token format - missing user identifier"
  | some sub ↦ elim (truthy payload.session_id) [
    | none ↦ allowed (some (user_of sub payload))
    | some session ↦
        if auth.validate_session sub session
        then allowed (some (user_of sub payload))
        else thrown "Invalid session"
  ]
]

-- `canActivate` of SessionSecurityGuard, with the header of the request.
unfoldable pub session_can_activate : Auth → Route → Option String → Decision
session_can_activate auth route header =
    if route.is_public || route.skip_session_check
    then allowed none
    else elim (truthy (extract_token_from_header header)) [
      | none ↦ thrown "Missing authentication token"
      | some token ↦ elim (auth.verify token) [
        | none ↦ thrown "Invalid session or authentication"
        | some payload ↦ check_session auth payload
      ]
    ]

abbrev pub plays : RequestUser → String → Bool
plays user role =
    (elim user.role [ none ↦ false | some r ↦ str_eq r role ])
    || (str_eq role "admin" && user.is_admin)

abbrev pub some_role : RequestUser → List String → Bool
some_role user [] = false
some_role user (role ∷ roles) = plays user role || some_role user roles

-- `canActivate` of RolesGuard, with the user of the request. An empty list of roles needs no user, and
-- any other fails without one.
unfoldable pub roles_can_activate : Route → Option RequestUser → Decision
roles_can_activate route user = elim route.roles [
  | none ↦ allowed user
  | some [] ↦ denied user
  | some (role ∷ roles) ↦ elim user [
    | none ↦ thrown "Cannot read properties of undefined"
    | some u ↦ if some_role u (role ∷ roles) then allowed (some u) else denied (some u)
  ]
]

-- The places of a socket's handshake where a token may be.
pub record Handshake : Type 0 where
  pub query_token : Option String
  pub auth_token : Option String
  pub authorization : Option String

unfoldable pub extract_token : Handshake → Option String
extract_token h = elim (truthy h.query_token) [
  | some token ↦ some token
  | none ↦ elim (truthy h.auth_token) [
    | some token ↦ some token
    | none ↦ elim h.authorization [ none ↦ none | some header ↦ after_prefix "Bearer " header ]
  ]
]

-- `canActivate` of WsJwtAuthGuard: the user of the socket, or the error. The database may know a user or
-- not.
pub data SocketDecision {ℓ} (User : Type ℓ) : Type ℓ where
  connected : User → SocketDecision User
  rejected : String → SocketDecision User

unfoldable pub socket_can_activate {ℓ} :
    {User : Type ℓ} → Auth → (String → Option User) → Handshake → SocketDecision User
socket_can_activate auth find h = elim (truthy (extract_token h)) [
  | none ↦ rejected "Unauthorized: Missing token"
  | some token ↦ elim (auth.verify token) [
    | none ↦ rejected "Unauthorized: Authentication failed"
    | some payload ↦ elim (truthy payload.sub) [
      | none ↦ rejected "Unauthorized: Invalid token"
      | some sub ↦ elim (find sub) [
        | none ↦ rejected "Unauthorized: User not found"
        | some user ↦ connected user
      ]
    ]
  ]
]
