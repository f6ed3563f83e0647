-- ===== src/Web3Auth/Refresh.antt =====
-- What a refresh returns and stores, and that a login can be refreshed.
use text.Mathlib.TextEquality.{eq_iff}
use alive_human.Base.{ℕ, ◌≡◌, ◌≢◌, refl, sym, ap, ◌∙◌, true, String, some, arith, ok, err}
use alive_human.Web3Auth.{
  Users, Sessions, User, Session, Tools, Web3AuthDto, RefreshTokenDto, AuthResponse, Payload,
  invalid_session, verify_device_fingerprint,
}
use alive_human.Web3Auth.Service.{State, authenticate_user, refresh_session, renew, respond}
use alive_human.Web3Auth.Login.{authenticate_user_stores, authenticate_user-token, login_payload}
use alive_human.Web3Auth.Endings.{Refreshable}

module _ (users : Users) (sessions : Sessions) (tools : Tools) where
  other_token_refused :
      (w : State users sessions) (dto : RefreshTokenDto) (payload : Payload) (s : Session)
      (kept : String) (clock : ℕ → ℕ) (id : String)
      → tools.verify_refresh (clock 0) dto.refresh_token ≡ some payload
      → payload.session_id ≡ id
      → sessions.find_one w.sessions id ≡ some s
      → s.refresh_token ≡ some kept
      → dto.refresh_token ≢ kept
      → refresh_session users sessions tools w dto clock ≡ (w, err invalid_session)
  unfolding refresh_session
  other_token_refused w dto payload s kept clock id genuine same found token distinct =
      ground (arith, eq_iff kept dto.refresh_token)

  -- A refresh of an active session with its own token, from a matching device and with its user
  -- stored, succeeds for that session and that user. The stored session stays active with the
  -- refresh token that is returned, and the next refresh with any other genuine token of that
  -- session, the old one too if the new one differs from it, is refused.
  pub refresh_replaces_token :
      (w : State users sessions) (dto again : RefreshTokenDto) (payload payload' : Payload)
      (s : Session) (u : User) (clock clock' : ℕ → ℕ)
      → Refreshable users sessions tools w dto (clock 0) payload s
      → verify_device_fingerprint s.device_fingerprint dto.device_fingerprint ≡ true
      → users.find_one w.users payload.sub ≡ some u
      → tools.verify_refresh (clock' 0) again.refresh_token ≡ some payload'
      → payload'.session_id ≡ s.id
      → let after = (refresh_session users sessions tools w dto clock).0 in
        (r : AuthResponse) × (t : Session) × ((refresh_session users sessions tools w dto clock).1
          ≡ ok r)
        × (r.user.id ≡ u.id)
        × (r.session.id ≡ s.id)
        × (sessions.find_one after.sessions s.id ≡ some t)
        × (t.is_active ≡ true)
        × (t.refresh_token ≡ some r.refresh_token)
        × (again.refresh_token ≢ r.refresh_token
            → refresh_session users sessions tools after again clock'
              ≡ (after, err invalid_session))
  unfolding refresh_session renew
  refresh_replaces_token w dto again payload payload' s u clock clock' (genuine, found, token, on)
        device known genuine' same =
      let seen : Session = record s {
        last_active_time = clock 1;
        location_data = dto.location_data;
      } in
      let next : Payload = record {
        sub = u.id;
        wallet = u.wallet_address;
        session_id = s.id;
        chain_id = u.chain_id;
      } in
      let fresh = tools.sign_refresh (clock 3) next in
      let signed : Session = record seen { refresh_token = some fresh } in
      let saved = sessions.find_one-save (sessions.save w.sessions seen) signed s.id in
      let own = eq_iff dto.refresh_token dto.refresh_token in
      (
        respond users sessions (tools.sign_access (clock 2) next) fresh u signed,
        signed,
        ground (arith, own),
        refl,
        refl,
        ground (arith, own, saved, eq_iff s.id s.id),
        on,
        refl,
        λ old.
            other_token_refused (refresh_session users sessions tools w dto clock).0 again payload'
              signed fresh clock' s.id genuine' same (ground (arith, own, saved, eq_iff s.id s.id))
              refl old,
      )

  -- A login that succeeds can be refreshed with the token that it returns, while that token verifies
  -- as it was signed, from a device with a matching fingerprint: the refresh succeeds, for the same
  -- user and the same session.
  pub login_then_refresh :
      (w : State users sessions) (dto : Web3AuthDto) (again : RefreshTokenDto)
      (user_id session_id : String) (clock clock' : ℕ → ℕ) (r : AuthResponse)
      → (authenticate_user users sessions tools w dto user_id session_id clock).1 ≡ ok r
      → again.refresh_token ≡ r.refresh_token
      → verify_device_fingerprint dto.device_fingerprint again.device_fingerprint ≡ true
      → tools.verify_refresh
          (clock' 0)
          (tools.sign_refresh (clock 6) (login_payload dto r.user.id session_id))
        ≡ some (login_payload dto r.user.id session_id)
      → let after = (authenticate_user users sessions tools w dto user_id session_id clock).0 in
        (r' : AuthResponse) × ((refresh_session users sessions tools after again clock').1 ≡ ok r')
        × (r'.user.id ≡ r.user.id)
        × (r'.session.id ≡ session_id)
  login_then_refresh w dto again user_id session_id clock clock' r success token device jwt =
      let after = (authenticate_user users sessions tools w dto user_id session_id clock).0 in
      let (u, s, known, wallet, chain, found, owner, on, fingerprint, kept, others) =
        authenticate_user_stores users sessions tools w dto user_id session_id session_id clock r
          success in
      let p = login_payload dto r.user.id session_id in
      let signed =
        authenticate_user-token users sessions tools w dto user_id session_id clock r success in
      let genuine : tools.verify_refresh (clock' 0) again.refresh_token ≡ some p =
        ap (tools.verify_refresh (clock' 0)) (token ∙ signed) ∙ jwt in
      let (r', t, renewed, user, session, stored, on', kept', refused) =
        refresh_replaces_token after again again p p s u clock' clock'
          (genuine, found, kept ∙ ap some (sym token), on) (rw fingerprint device) known genuine
          (sym (sessions.find_one-id after.sessions session_id s found)) in
      (
        r',
        renewed,
        user ∙ users.find_one-id after.users r.user.id u known,
        session ∙ sessions.find_one-id after.sessions session_id s found,
      )
