-- ===== src/Web3Auth/Endings.antt =====
-- A session that has ended refuses every refresh and heartbeat from then on, and a token used from
-- another device ends its session.
use text.Mathlib.TextEquality.{eq_iff}
use alive_human.Base.{ℕ, ◌≡◌, refl, true, false, String, List, some, arith, All, err}
use alive_human.Web3Auth.{
  Users, Sessions, Session, Tools, RefreshTokenDto, SessionHeartbeatDto, Payload, invalid_session,
  device_failed, verify_device_fingerprint,
}
use alive_human.Web3Auth.Service.{State, refresh_session, update_session_heartbeat, end_session}
use alive_human.Web3Auth.Calls.{Call, opens, run}
use alive_human.Web3Auth.Sessions.{IsEnded, run-IsEnded}

module _ (users : Users) (sessions : Sessions) (tools : Tools) where
  -- What an ended session refuses.
  pub IsEnded-refuses :
      (w : State users sessions) (id : String) (dto : RefreshTokenDto) (beat : SessionHeartbeatDto)
      (payload : Payload) (clock : ℕ → ℕ)
      → IsEnded users sessions tools w.sessions id
      → tools.verify_refresh (clock 0) dto.refresh_token ≡ some payload
      → payload.session_id ≡ id
      → beat.session_id ≡ id
      → (refresh_session users sessions tools w dto clock ≡ (w, err invalid_session))
        × (update_session_heartbeat users sessions w beat ≡ (w, false))
  unfolding refresh_session update_session_heartbeat
  IsEnded-refuses w id dto beat payload clock (e, found, off) genuine same same' =
      (ground arith, ground arith)

  -- After a stored session is ended, and any further calls that open no session with its id, a refresh with
  -- any genuine token of that session and a heartbeat for it are refused and change nothing.
  pub ended_session_stays_ended :
      (w : State users sessions) (s : Session) (id : String) (now : ℕ) (calls : List Call)
      (dto : RefreshTokenDto) (beat : SessionHeartbeatDto) (payload : Payload) (clock : ℕ → ℕ)
      → sessions.find_one w.sessions id ≡ some s
      → All (λ c. opens id c ≡ false) calls
      → tools.verify_refresh (clock 0) dto.refresh_token ≡ some payload
      → payload.session_id ≡ id
      → beat.session_id ≡ id
      → let after = run users sessions tools (end_session users sessions w id now).0 calls in
        (refresh_session users sessions tools after dto clock ≡ (after, err invalid_session))
        × (update_session_heartbeat users sessions after beat ≡ (after, false))
  unfolding end_session
  ended_session_stays_ended w s id now calls dto beat payload clock found others genuine same
        same' =
      let ended : Session = record s { is_active = false; end_time = some now } in
      let after = run users sessions tools (end_session users sessions w id now).0 calls in
      IsEnded-refuses after id dto beat payload clock
        (run-IsEnded users sessions tools (end_session users sessions w id now).0 id calls others (
          ended,
          ground (
            arith,
            sessions.find_one-id w.sessions id s found,
            sessions.find_one-save w.sessions ended id,
            eq_iff s.id id,
          ),
          refl,
        ))
        genuine same same'

  -- The row of a session that is found for a refresh.
  abbrev pub Refreshable : State users sessions → RefreshTokenDto → ℕ → Payload → Session → Type 0
  Refreshable w dto now payload s =
      (tools.verify_refresh now dto.refresh_token ≡ some payload)
      × (sessions.find_one w.sessions payload.session_id ≡ some s)
      × (s.refresh_token ≡ some dto.refresh_token)
      × (s.is_active ≡ true)

  -- A refresh of an active session with its own token, but from a device whose fingerprint does not
  -- match, is refused and ends the session: after any further calls that open no session with that
  -- id, a refresh with a genuine token of the session from any device, the owner's too, is refused.
  pub other_device_ends_session :
      (w : State users sessions) (dto again : RefreshTokenDto) (beat : SessionHeartbeatDto)
      (payload payload' : Payload) (s : Session) (clock clock' : ℕ → ℕ) (calls : List Call)
      → Refreshable w dto (clock 0) payload s
      → verify_device_fingerprint s.device_fingerprint dto.device_fingerprint ≡ false
      → All (λ c. opens s.id c ≡ false) calls
      → tools.verify_refresh (clock' 0) again.refresh_token ≡ some payload'
      → payload'.session_id ≡ s.id
      → beat.session_id ≡ s.id
      → let refused = refresh_session users sessions tools w dto clock in
        let after = run users sessions tools refused.0 calls in
        (refused.1 ≡ err device_failed)
        × (refresh_session users sessions tools after again clock' ≡ (after, err invalid_session))
  unfolding refresh_session
  other_device_ends_session w dto again beat payload payload' s clock clock' calls
        (genuine, found, token, on) mismatch others genuine' same beat_same =
      let ended : Session = record s { is_active = false } in
      let refused = refresh_session users sessions tools w dto clock in
      let after = run users sessions tools refused.0 calls in
      let key = sessions.find_one-id w.sessions payload.session_id s found in
      (
        ground (arith, eq_iff dto.refresh_token dto.refresh_token),
        (IsEnded-refuses after s.id again beat payload' clock'
            (run-IsEnded users sessions tools refused.0 s.id calls others (
              ended,
              ground (
                arith,
                key,
                eq_iff dto.refresh_token dto.refresh_token,
                sessions.find_one-save w.sessions ended s.id,
                eq_iff s.id s.id,
              ),
              refl,
            ))
            genuine' same beat_same).0,
      )
