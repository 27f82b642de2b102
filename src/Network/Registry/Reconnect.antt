-- ===== src/Network/Registry/Reconnect.antt =====
-- `FindSessionByUsn` of CSessionManager, the decision on a reconnect.
use mmorpg_server.Base.{
  ℕ, arith, ◌≡◌, Bool, true, some, false, refl, Bool-cases, ◌==◌, inl, inr, Option-cases, sym, ap,
  ◌∙◌, none, Option, if◌then◌else◌, not,
}
use mmorpg_server.Common.Types.{SessionState, is_temp_disconnect, max_total_sessions}
use mmorpg_server.Network.World.{Session, World, Env}
use mmorpg_server.Network.Session.{validate_reconnect_token, is_disconnect_timer_expired}
use mmorpg_server.Network.Registry.{
  scan, refuse, Failure, invalid_state, token_mismatch, expired, verify_reconnect,
  find_session_by_usn, find_session,
}
use mmorpg_server.Network.Registry.Table.{HasUniqueIds}
use mmorpg_server.Network.Registry.Refusal.{IsCounted, refuse_lem}
use mmorpg_server.Network.Registry.Lookup.{Registered, slot-some, scan-some}

-- What a reconnect must show to take over a session.
pub record MayReconnect (e : Env) (g : Session) (usn token : ℕ) : Type 0 where
  pub same_usn : g.usn ≡ usn
  pub waiting : is_temp_disconnect g.state ≡ true
  pub same_token : g.reconnect_token.token ≡ token
  pub in_time : is_disconnect_timer_expired e g ≡ false

verify_some :
    (e : Env) (w : World) (p token q : ℕ)
    → (verify_reconnect e w p token).0 ≡ some q
    → (q ≡ p)
      × MayReconnect e (w.sessions p) (w.sessions p).usn token
      × ((verify_reconnect e w p token).1.sessions ≡ w.sessions)
unfolding verify_reconnect validate_reconnect_token
verify_some e w p token q h = (
  ground (arith, h),
  record {
    same_usn = refl;
    waiting = ground (arith, h);
    same_token = ground (arith, h);
    in_time = ground (arith, h);
  },
  ground (arith, h),
)

-- A session that `FindSessionByUsn` returns stands in the table, has the USN asked for, waits
-- for a reconnect, has the token that the client sent, and its time is not over; and the search
-- has changed no session.
pub find_session_by_usn-MayReconnect :
    (e : Env) (w : World) (usn token p : ℕ) (reconnect_attempt : Bool)
    → (find_session_by_usn e w usn token reconnect_attempt).0 ≡ some p
    → ((i : ℕ) × Registered w p i)
      × MayReconnect e (w.sessions p) usn token
      × ((find_session_by_usn e w usn token reconnect_attempt).1.sessions ≡ w.sessions)
unfolding find_session_by_usn
find_session_by_usn-MayReconnect e w usn token p reconnect_attempt h =
    elim (Bool-cases (usn == 0)) [
      | inl zero_usn ↦ absurd (ground (arith, h, zero_usn))
      | inr positive ↦ elim (Option-cases (scan w (λ g. g.usn == usn) 0 max_total_sessions)) [
        | inl missing ↦ absurd (ground (arith, h, positive, missing))
        | inr ((i, q), hit) ↦
            let found : find_session_by_usn e w usn token reconnect_attempt
                ≡ verify_reconnect e w q token =
              ground (arith, positive, hit) in
            let (same, may, kept) = verify_some e w q token p (sym (ap (λ r. r.0) found) ∙ h) in
            let (_, within, here, _) =
              scan-some w (λ g. g.usn == usn) 0 max_total_sessions i q hit in
            let (used, entry, fits) = slot-some w (λ g. g.usn == usn) i q here in
            rw (found, same)
              (
                (i, record { within = omega (arith, within); used = used; entry = entry }),
                record {
                  same_usn = ground (arith, fits);
                  waiting = may.waiting;
                  same_token = may.same_token;
                  in_time = may.in_time;
                },
                kept,
              )
      ]
    ]

-- Which failure a reconnect to a session meets first, if any.
unfoldable pub reconnect_failure : Env → Session → ℕ → Option Failure
reconnect_failure e g token =
    if not (is_temp_disconnect g.state)
    then some invalid_state
    else if not (g.reconnect_token.token == token)
    then some token_mismatch
    else if is_disconnect_timer_expired e g
    then some expired
    else none

-- Session numbers being unique, a session found by its USN that may not be taken over is not
-- returned, is closed and can no longer be found by its session number; and of the five
-- counters of reconnects (success, not found, not waiting, another token, time over) exactly
-- that of the first failure that holds, of the last three in this order, grows, by one.
pub verify_reconnect-reconnect_failure :
    (e : Env) (w : World) (p token : ℕ) (failure : Failure)
    → HasUniqueIds w
    → reconnect_failure e (w.sessions p) token ≡ some failure
    → let (out, w') = verify_reconnect e w p token in
      (out ≡ none)
      × ((w'.sessions p).state ≡ SessionState.closed)
      × IsCounted failure w.registry w'.registry
      × (find_session w' (w.sessions p).owner_session_id ≡ none)
unfolding reconnect_failure verify_reconnect validate_reconnect_token
verify_reconnect-reconnect_failure e w p token failure unique h =
    let refused : verify_reconnect e w p token ≡ (none, refuse e w p failure) = ground (arith, h) in
    let (closed, counted, gone) = refuse_lem e w p failure unique in
    rw refused (refl, closed, counted, gone)
