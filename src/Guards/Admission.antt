-- ===== src/Guards/Admission.antt =====
-- What a request or a socket that is let through has shown.
use mathlib.Core.Path.{subst}
use Prim.Native.String.{String}
use text.Mathlib.TextEquality.{eq_iff}
use alive_human.Base.Texts.{is_in}
use alive_human.Base.{
  ◌↔◌, str_eq, truthy, true, ◌||◌, ◌≡◌, ap, ◌∙◌, ◌⊎◌, inl, inr, List, [], ◌∷◌, Option, none, some,
  arith, Option-cases, Bool-cases,
}
use alive_human.Guards.{
  Auth, Payload, RequestUser, Route, allowed, extract_token_from_header, user_of, check_session,
  session_can_activate, some_role, roles_can_activate, plays,
}

-- A verified token with a subject, whose session, if it names one, is valid.
pub record Shown (auth : Auth) (header : Option String) (user : RequestUser) : Type 0 where
  pub token : String
  pub sub : String
  pub payload : Payload
  pub from_header : truthy (extract_token_from_header header) ≡ some token
  pub verified : auth.verify token ≡ some payload
  pub has_sub : truthy payload.sub ≡ some sub
  pub in_session :
      (truthy payload.session_id ≡ none)
      ⊎ ((s : String) × (truthy payload.session_id ≡ some s) × (auth.validate_session sub s ≡ true))
  pub is_user : user ≡ user_of sub payload

check_session-Shown :
    (auth : Auth) (header : Option String) (token : String) (payload : Payload) (user : RequestUser)
    → truthy (extract_token_from_header header) ≡ some token
    → auth.verify token ≡ some payload
    → check_session auth payload ≡ allowed (some user)
    → Shown auth header user
unfolding check_session
check_session-Shown auth header token payload user here verified passed =
    elim (Option-cases (truthy payload.sub)) [
      | inl missing ↦ absurd (ground arith)
      | inr (sub, named) ↦ elim (Option-cases (truthy payload.session_id)) [
        | inl free ↦ record {
          token = token;
          sub = sub;
          payload = payload;
          from_header = here;
          verified = verified;
          has_sub = named;
          in_session = inl free;
          is_user = ground arith;
        }
        | inr (s, held) ↦ elim (Bool-cases (auth.validate_session sub s)) [
          | inr bad ↦ absurd (ground arith)
          | inl good ↦ record {
            token = token;
            sub = sub;
            payload = payload;
            from_header = here;
            verified = verified;
            has_sub = named;
            in_session = inr (s, held, good);
            is_user = ground arith;
          }
        ]
      ]
    ]

session-Shown :
    (auth : Auth) (route : Route) (header : Option String) (user : RequestUser)
    → session_can_activate auth route header ≡ allowed (some user)
    → Shown auth header user
unfolding session_can_activate
session-Shown auth route header user passed =
    elim (Bool-cases (route.is_public || route.skip_session_check)) [
      | inl free ↦ absurd (ground arith)
      | inr checked ↦ elim (Option-cases (truthy (extract_token_from_header header))) [
        | inl missing ↦ absurd (ground arith)
        | inr (token, here) ↦ elim (Option-cases (auth.verify token)) [
          | inl bad ↦ absurd (ground arith)
          | inr (payload, verified) ↦
              check_session-Shown auth header token payload user here verified (ground arith)
        ]
      ]
    ]

-- A role of the list that the user has, or that is `admin` where the user is an administrator.
pub HasRole : RequestUser → List String → Type 0
HasRole user roles =
    (role : String) × (is_in role roles ≡ true)
    × ((user.role ≡ some role) ⊎ ((role ≡ "admin") × (user.is_admin ≡ true)))

-- One role of the list.
plays-Role :
    (user : RequestUser) (role : String)
    → plays user role ≡ true
    → (user.role ≡ some role) ⊎ ((role ≡ "admin") × (user.is_admin ≡ true))
plays-Role user role h = elim (Option-cases user.role) [
  | inl without ↦ inr (ground (arith, without, eq_iff role "admin"), ground (arith, without))
  | inr (r, has) ↦ elim (Bool-cases (str_eq r role)) [
    | inl same ↦ inl (has ∙ ap some (ground (arith, same, eq_iff r role)))
    | inr other ↦ inr (ground (arith, has, other, eq_iff role "admin"), ground (arith, has, other))
  ]
]

Role-plays :
    (user : RequestUser) (role : String)
    → (user.role ≡ some role) ⊎ ((role ≡ "admin") × (user.is_admin ≡ true))
    → plays user role ≡ true
Role-plays user role (inl has) = ground (arith, has, eq_iff role role)
Role-plays user role (inr (admin, is)) = ground (arith, is, eq_iff role "admin")

some_role-HasRole :
    (user : RequestUser) (roles : List String) → some_role user roles ≡ true → HasRole user roles
unfolding HasRole
some_role-HasRole user [] h = absurd (ground arith)
some_role-HasRole user (r ∷ rs) h = elim (Bool-cases (plays user r)) [
  | inl has ↦ (r, ground (arith, eq_iff r r), plays-Role user r has)
  | inr other ↦
      let (role, listed, how) = some_role-HasRole user rs (ground (arith, other)) in
      (role, ground (arith, listed), how)
]

HasRole-some_role :
    (user : RequestUser) (roles : List String) (role : String)
    → is_in role roles ≡ true
    → plays user role ≡ true
    → some_role user roles ≡ true
HasRole-some_role user [] role listed has = absurd (ground arith)
HasRole-some_role user (r ∷ rs) role listed has = elim (Bool-cases (str_eq r role)) [
  | inl same ↦
      let here : role ≡ r = ground (arith, same, eq_iff r role) in
      ground (arith, subst (λ x. plays user x ≡ true) here has)
  | inr other ↦ ground (arith, HasRole-some_role user rs role (ground (arith, other)) has)
]

-- On a route with a list of roles, the roles guard lets a request with a user through if and only if the
-- user has a role of the list, or `admin` is in the list and the user is an administrator.
pub roles_can_activate-HasRole :
    (route : Route) (roles : List String) (user : RequestUser)
    → route.roles ≡ some roles
    → (roles_can_activate route (some user) ≡ allowed (some user)) ↔ HasRole user roles
unfolding roles_can_activate HasRole
roles_can_activate-HasRole route [] user listed =
    (λ passed. absurd (ground (arith, listed)), λ (role, there, how). absurd (ground arith))
roles_can_activate-HasRole route (r ∷ rs) user listed = (
  λ passed. some_role-HasRole user (r ∷ rs) (ground (arith, listed)),
  λ (role, there, how).
      ground (arith, listed, HasRole-some_role user (r ∷ rs) role there (Role-plays user role how)),
)
