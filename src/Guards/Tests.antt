-- ===== src/Guards/Tests.antt =====
-- Requests of a user and of an administrator, and sockets.

use alive_human.Base.{◌↔◌, true, false, ◌≡◌, refl, [], ◌∷◌, none, some, str_eq, if◌then◌else◌}
use alive_human.Base.Texts.{after_prefix}
use alive_human.Guards.{
  Auth, Payload, RequestUser, Route, allowed, denied, thrown, extract_token_from_header, first_part,
  after_space, check_session, session_can_activate, roles_can_activate, extract_token,
  socket_can_activate, connected,
}
use alive_human.Guards.Admission.{HasRole, roles_can_activate-HasRole}

abbrev of_ann : Payload
of_ann = record {
  sub = some "ann";
  id = none;
  session_id = some "s1";
  role = some "editor";
  is_admin = true;
}

abbrev auth : Auth
auth = record {
  verify = λ token. if str_eq token "t1" then some of_ann else none;
  validate_session = λ user session. str_eq user "ann";
}

abbrev ann : RequestUser
ann = record { id = "ann"; session_id = some "s1"; role = some "editor"; is_admin = true }

abbrev admins : Route
admins = record { is_public = false; skip_session_check = false; roles = some ("admin" ∷ []) }

abbrev nobody : Route
nobody = record { is_public = false; skip_session_check = false; roles = some [] }

passes : session_can_activate auth admins (some "Bearer t1") ≡ allowed (some ann)
unfolding session_can_activate extract_token_from_header first_part after_space check_session
passes = refl

no_roles : roles_can_activate nobody (some ann) ≡ denied (some ann)
unfolding roles_can_activate
no_roles = refl

basic_scheme :
    session_can_activate auth admins (some "Basic t1") ≡ thrown "Missing authentication token"
unfolding session_can_activate extract_token_from_header first_part after_space
basic_scheme = refl

socket :
    socket_can_activate auth
      (λ sub. some sub)
      (record { query_token = none; auth_token = some ""; authorization = some "Bearer t1" })
    ≡ connected "ann"
unfolding socket_can_activate extract_token after_prefix
socket = refl

roles_can_activate-HasRole_example :
    (roles_can_activate admins (some ann) ≡ allowed (some ann)) ↔ HasRole ann ("admin" ∷ [])
roles_can_activate-HasRole_example = roles_can_activate-HasRole admins ("admin" ∷ []) ann refl
