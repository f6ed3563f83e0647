-- ===== src/Web3Auth/Sessions.antt =====
-- A session that has ended stays so under every call.
use text.Mathlib.TextEquality.{eq_iff}
use alive_human.Base.{
  ℕ, ◌≡◌, inl, inr, refl, false, String, List, [], ◌∷◌, some, arith, Option-cases, Bool-cases,
  str_eq, All,
}
use alive_human.Web3Auth.{
  Users, Sessions, Session, Tools, Web3AuthDto, RefreshTokenDto, SessionHeartbeatDto, Payload,
}
use alive_human.Web3Auth.Service.{
  State, generate_challenge, log_in, user_of, authenticate_user, refresh_session, renew,
  update_session_heartbeat, end_session, new_session,
}
use alive_human.Web3Auth.Calls.{
  Call, get_challenge, authenticate, refresh_token, heartbeat, end, opens, session_heartbeat,
  end_own_session, step, run,
}

module _ (users : Users) (sessions : Sessions) (tools : Tools) where
  -- The session is stored and is not active.
  abbrev pub IsEnded : sessions.Table → String → Type 0
  IsEnded table id = (e : Session) × (sessions.find_one table id ≡ some e) × (e.is_active ≡ false)

  heartbeat-IsEnded :
      (w : State users sessions) (id : String) (dto : SessionHeartbeatDto)
      → IsEnded w.sessions id
      → IsEnded (update_session_heartbeat users sessions w dto).0.sessions id
  unfolding update_session_heartbeat
  heartbeat-IsEnded w id dto (e, found, off) = (
    e,
    elim (Option-cases (sessions.find_one w.sessions dto.session_id)) [
      | inl missing ↦ ground arith
      | inr (s, here) ↦
          let beaten : Session = record s {
            last_active_time = dto.last_active_time;
            location_data = dto.location_data;
          } in
          ground (
            arith,
            sessions.find_one-save w.sessions beaten id,
            sessions.find_one-id w.sessions dto.session_id s here,
            eq_iff s.id id,
          )
    ],
    off,
  )

  end_session-IsEnded :
      (w : State users sessions) (id key : String) (now : ℕ)
      → IsEnded w.sessions id
      → IsEnded (end_session users sessions w key now).0.sessions id
  unfolding end_session
  end_session-IsEnded w id key now (e, found, off) =
      elim (Option-cases (sessions.find_one w.sessions key)) [
        | inl missing ↦ (e, ground arith, off)
        | inr (s, here) ↦
            let ended : Session = record s { is_active = false; end_time = some now } in
            let saved = sessions.find_one-save w.sessions ended id in
            elim (Bool-cases (str_eq s.id id)) [
              | inl same ↦ (ended, ground (arith, saved), refl)
              | inr distinct ↦ (e, ground (arith, saved), off)
            ]
      ]

  authenticate-IsEnded :
      (w : State users sessions) (id : String) (dto : Web3AuthDto) (user_id session_id : String)
      (clock : ℕ → ℕ)
      → str_eq session_id id ≡ false
      → IsEnded w.sessions id
      → IsEnded
          (authenticate_user users sessions tools w dto user_id session_id clock).0.sessions
          id
  unfolding authenticate_user log_in
  authenticate-IsEnded w id dto user_id session_id clock other (e, found, off) =
      let user = user_of users sessions w.users dto user_id clock in
      let session = new_session users sessions dto user session_id clock in
      let payload : Payload = record {
        sub = user.id;
        wallet = some dto.wallet_address;
        session_id = session_id;
        chain_id = some dto.chain_id;
      } in
      let signed : Session = record session {
        refresh_token = some (tools.sign_refresh (clock 6) payload);
      } in
      (
        e,
        ground (
          arith,
          sessions.find_one-save (sessions.save w.sessions session) signed id,
          sessions.find_one-save w.sessions session id,
        ),
        off,
      )

  renew-other :
      (w : State users sessions) (id : String) (dto : RefreshTokenDto) (payload : Payload)
      (session : Session) (clock : ℕ → ℕ)
      → str_eq session.id id ≡ false
      → sessions.find_one (renew users sessions tools w dto payload session clock).0.sessions id
        ≡ sessions.find_one w.sessions id
  unfolding renew
  renew-other w id dto payload session clock other =
      let seen : Session = record session {
        last_active_time = clock 1;
        location_data = dto.location_data;
      } in
      let once = sessions.find_one-save w.sessions seen id in
      elim (Option-cases (users.find_one w.users payload.sub)) [
        | inl missing ↦ ground (arith, once)
        | inr (user, known) ↦
            let next : Payload = record {
              sub = user.id;
              wallet = user.wallet_address;
              session_id = session.id;
              chain_id = user.chain_id;
            } in
            let signed : Session = record seen {
              refresh_token = some (tools.sign_refresh (clock 3) next);
            } in
            ground (arith, once, sessions.find_one-save (sessions.save w.sessions seen) signed id)
      ]

  refresh-IsEnded :
      (w : State users sessions) (id : String) (dto : RefreshTokenDto) (clock : ℕ → ℕ)
      → IsEnded w.sessions id
      → IsEnded (refresh_session users sessions tools w dto clock).0.sessions id
  unfolding refresh_session
  refresh-IsEnded w id dto clock (e, found, off) = (
    e,
    elim (Option-cases (tools.verify_refresh (clock 0) dto.refresh_token)) [
      | inl forged ↦ ground arith
      | inr (payload, genuine) ↦
          elim (Option-cases (sessions.find_one w.sessions payload.session_id)) [
            | inl missing ↦ ground arith
            | inr (s, here) ↦ ground (
              arith,
              sessions.find_one-id w.sessions payload.session_id s here,
              eq_iff s.id id,
              renew-other w id dto payload s clock,
              sessions.find_one-save w.sessions (record s { is_active = false }) id,
            )
          ]
    ],
    off,
  )

  step-IsEnded :
      (w : State users sessions) (id : String) (c : Call)
      → opens id c ≡ false
      → IsEnded w.sessions id
      → IsEnded (step users sessions tools w c).sessions id
  unfolding step generate_challenge session_heartbeat end_own_session
  step-IsEnded w id (get_challenge new now) other ended = ended
  step-IsEnded w id (authenticate dto u s clock) other ended =
      authenticate-IsEnded w id dto u s clock other ended
  step-IsEnded w id (refresh_token dto clock) other ended = refresh-IsEnded w id dto clock ended
  step-IsEnded w id (heartbeat own dto) other ended =
      elim (Bool-cases (str_eq own dto.session_id)) [
        | inl same ↦ rw (same, step, session_heartbeat) (heartbeat-IsEnded w id dto ended)
        | inr distinct ↦ rw (distinct, step, session_heartbeat) ended
      ]
  step-IsEnded w id (end own body_id now) other ended = elim (Bool-cases (str_eq own body_id)) [
    | inl same ↦ rw (same, step, end_own_session) (end_session-IsEnded w id own now ended)
    | inr distinct ↦ rw (distinct, step, end_own_session) ended
  ]

  pub run-IsEnded :
      (w : State users sessions) (id : String) (calls : List Call)
      → All (λ c. opens id c ≡ false) calls
      → IsEnded w.sessions id
      → IsEnded (run users sessions tools w calls).sessions id
  unfolding run
  run-IsEnded w id [] others ended = ended
  run-IsEnded w id (c ∷ cs) others ended =
      run-IsEnded (step users sessions tools w c) id cs others.1
        (step-IsEnded w id c others.0 ended)
