-- ===== src/Web3Auth/Challenges.antt =====
-- A nonce is good for one login.
use text.Mathlib.TextEquality.{eq_iff}
use mathlib.Core.Path.{subst}
use alive_human.Base.{ℕ, ◌≡◌, true, false, String, List, [], ◌∷◌, none, sym, arith, All, ok, err}
use alive_human.Base.Dict.{lookup, lookup-insert, lookup-delete}
use alive_human.Web3Auth.{
  Users, Sessions, Tools, Web3AuthDto, AuthResponse, RefreshTokenDto, invalid_nonce,
  is_polygon_network,
}
use alive_human.Web3Auth.Service.{
  State, generate_challenge, log_in, authenticate_user, refresh_session, renew,
  update_session_heartbeat, end_session,
}
use alive_human.Web3Auth.Calls.{
  Call, get_challenge, authenticate, refresh_token, heartbeat, end, issues, session_heartbeat,
  end_own_session, step, run,
}

module _ (users : Users) (sessions : Sessions) (tools : Tools) where
  refresh_session-challenges :
      (w : State users sessions) (dto : RefreshTokenDto) (clock : ℕ → ℕ)
      → (refresh_session users sessions tools w dto clock).0.challenges ≡ w.challenges
  unfolding refresh_session renew
  refresh_session-challenges w dto clock = ground arith

  step-unissued :
      (w : State users sessions) (nonce : String) (c : Call)
      → issues nonce c ≡ false
      → lookup nonce w.challenges ≡ none
      → lookup nonce (step users sessions tools w c).challenges ≡ none
  unfolding step generate_challenge log_in authenticate_user session_heartbeat
      update_session_heartbeat end_own_session end_session
  step-unissued w nonce (get_challenge new now) other gone =
      ground (arith, lookup-insert new nonce (record { nonce = new; timestamp = now }) w.challenges)
  step-unissued w nonce (authenticate dto u s clock) other gone =
      ground (arith, lookup-delete dto.nonce nonce w.challenges)
  step-unissued w nonce (refresh_token dto clock) other gone =
      ground (arith, refresh_session-challenges w dto clock)
  step-unissued w nonce (heartbeat session_id dto) other gone = ground arith
  step-unissued w nonce (end session_id body_id now) other gone = ground arith

  run-unissued :
      (w : State users sessions) (nonce : String) (calls : List Call)
      → All (λ c. issues nonce c ≡ false) calls
      → lookup nonce w.challenges ≡ none
      → lookup nonce (run users sessions tools w calls).challenges ≡ none
  unfolding run
  run-unissued w nonce [] others gone = gone
  run-unissued w nonce (c ∷ cs) others gone =
      run-unissued (step users sessions tools w c) nonce cs others.1
        (step-unissued w nonce c others.0 gone)

  authenticate_user-spends :
      (w : State users sessions) (dto : Web3AuthDto) (user_id session_id : String) (clock : ℕ → ℕ)
      (r : AuthResponse)
      → (authenticate_user users sessions tools w dto user_id session_id clock).1 ≡ ok r
      → lookup dto.nonce
          (authenticate_user users sessions tools w dto user_id session_id clock).0.challenges
        ≡ none
  unfolding authenticate_user log_in
  authenticate_user-spends w dto user_id session_id clock r e =
      ground (arith, lookup-delete dto.nonce dto.nonce w.challenges, eq_iff dto.nonce dto.nonce)

  unknown_nonce :
      (v : State users sessions) (d : Web3AuthDto) (user_id session_id : String) (clock : ℕ → ℕ)
      → is_polygon_network d.chain_id ≡ true
      → lookup d.nonce v.challenges ≡ none
      → authenticate_user users sessions tools v d user_id session_id clock ≡ (v, err invalid_nonce)
  unfolding authenticate_user
  unknown_nonce v d user_id session_id clock polygon gone = ground arith

  -- A nonce with which a login succeeded is spent: after any further calls that do not hand out that
  -- nonce again, every login with it from a Polygon network is refused as an invalid nonce, whatever
  -- its wallet, signature and device, and changes nothing.
  pub used_nonce_is_refused :
      (w : State users sessions) (dto again : Web3AuthDto) (user_id session_id : String)
      (user_id' session_id' : String) (clock clock' : ℕ → ℕ) (r : AuthResponse) (calls : List Call)
      → (authenticate_user users sessions tools w dto user_id session_id clock).1 ≡ ok r
      → All (λ c. issues dto.nonce c ≡ false) calls
      → again.nonce ≡ dto.nonce
      → is_polygon_network again.chain_id ≡ true
      → let after =
          run users sessions tools
            (authenticate_user users sessions tools w dto user_id session_id clock).0
            calls in
        authenticate_user users sessions tools after again user_id' session_id' clock'
        ≡ (after, err invalid_nonce)
  used_nonce_is_refused w dto again u s u' s' clock clock' r calls success others same polygon =
      let after =
        run users sessions tools (authenticate_user users sessions tools w dto u s clock).0 calls in
      unknown_nonce after again u' s' clock' polygon (
        subst (λ n. lookup n after.challenges ≡ none) (sym same)
          (run-unissued (authenticate_user users sessions tools w dto u s clock).0 dto.nonce calls
            others (authenticate_user-spends w dto u s clock r success)))
