-- ===== src/Web3Auth/Calls.antt =====
-- packages/backend/src/auth/controllers/web3-auth.controller.ts: the five routes. A call is what a
-- client sends, with what the libraries and the clock give during it; the session of the caller's
-- access token is that of its guard.
use alive_human.Base.{ℕ, Bool, false, not, String, List, [], ◌∷◌, str_eq, if◌then◌else◌, ok, err}
use alive_human.Web3Auth.{
  Users, Sessions, Tools, Web3AuthDto, RefreshTokenDto, SessionHeartbeatDto, Result,
  invalid_session,
}
use alive_human.Web3Auth.Service.{
  State, generate_challenge, authenticate_user, refresh_session, update_session_heartbeat,
  end_session,
}

pub data Call : Type 0 where
  get_challenge : String → ℕ → Call
  authenticate : Web3AuthDto → String → String → (ℕ → ℕ) → Call
  refresh_token : RefreshTokenDto → (ℕ → ℕ) → Call
  heartbeat : String → SessionHeartbeatDto → Call
  end : String → String → ℕ → Call

-- Does the call hand out the nonce?
abbrev pub issues : String → Call → Bool
issues nonce (get_challenge new _) = str_eq new nonce
issues nonce _ = false

-- Does the call open a session with that id, if it succeeds?
abbrev pub opens : String → Call → Bool
opens id (authenticate _ _ new _) = str_eq new id
opens id _ = false

module _ (users : Users) (sessions : Sessions) where
  unfoldable pub session_heartbeat :
      State users sessions → String → SessionHeartbeatDto → State users sessions × Result Bool
  session_heartbeat w session_id dto =
      let (w', success) = update_session_heartbeat users sessions w dto in
      if not (str_eq session_id dto.session_id) then (w, err invalid_session) else (w', ok success)

  unfoldable pub end_own_session :
      State users sessions → String → String → ℕ → State users sessions × Result Bool
  end_own_session w session_id body_id now =
      let (w', success) = end_session users sessions w session_id now in
      if not (str_eq session_id body_id) then (w, err invalid_session) else (w', ok success)

  module _ (tools : Tools) where
    -- The state after a call.
    unfoldable pub step : State users sessions → Call → State users sessions
    step w (get_challenge nonce now) = (generate_challenge users sessions w nonce now).0
    step w (authenticate dto user_id session_id clock) =
        (authenticate_user users sessions tools w dto user_id session_id clock).0
    step w (refresh_token dto clock) = (refresh_session users sessions tools w dto clock).0
    step w (heartbeat session_id dto) = (session_heartbeat w session_id dto).0
    step w (end session_id body_id now) = (end_own_session w session_id body_id now).0

    unfoldable pub run : State users sessions → List Call → State users sessions
    run w [] = w
    run w (c ∷ cs) = run (step w c) cs
