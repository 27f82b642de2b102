-- ===== src/Tests/Registry.antt =====
-- CSessionManager of Source/Core/Network/Session.cpp at concrete inputs.
use mmorpg_server.Base.{ℕ, arith, true, ◌≡◌, some, none, refl, ◌≢◌}
use mmorpg_server.Common.Types.{SessionState}
use mmorpg_server.Network.Session.{is_disconnect_timer_expired, validate_reconnect_token}
use mmorpg_server.Network.Registry.{
  slot, scan, free_slot, register_session, find_session, verify_reconnect, find_session_by_usn,
  token_mismatch,
}
use mmorpg_server.Network.Registry.Lookup.{Registered, find_session_lem}
use mmorpg_server.Network.Registry.Table.{HasUniqueIds}
use mmorpg_server.Network.Registry.Refusal.{IsCounted}
use mmorpg_server.Network.Registry.Reconnect.{
  MayReconnect, reconnect_failure, find_session_by_usn-MayReconnect,
  verify_reconnect-reconnect_failure,
}
use mmorpg_server.Tests.Server.{server, thread_0, session, registry}

found : (find_session_by_usn thread_0 server 1001 77 true).0 ≡ some 0
unfolding find_session_by_usn scan slot verify_reconnect validate_reconnect_token
    is_disconnect_timer_expired
found = refl

find_session_by_usn_example :
    ((i : ℕ) × Registered server 0 i)
    × MayReconnect thread_0 session 1001 77
    × ((find_session_by_usn thread_0 server 1001 77 true).1.sessions ≡ server.sessions)
find_session_by_usn_example = find_session_by_usn-MayReconnect thread_0 server 1001 77 0 true found

server-HasUniqueIds : HasUniqueIds server
server-HasUniqueIds i j p q at_i at_j same = ground (arith, at_i.used, at_j.used)

mismatch : reconnect_failure thread_0 session 78 ≡ some token_mismatch
unfolding reconnect_failure
mismatch = refl

verify_reconnect_example :
    let (out, w') = verify_reconnect thread_0 server 0 78 in
    (out ≡ none)
    × ((w'.sessions 0).state ≡ SessionState.closed)
    × IsCounted token_mismatch registry w'.registry
    × (find_session w' 20000 ≡ none)
verify_reconnect_example =
    verify_reconnect-reconnect_failure thread_0 server 0 78 token_mismatch server-HasUniqueIds
      mismatch

find_session_example :
    ((p : ℕ)
      → find_session server 20000 ≡ some p
      → ((i : ℕ) × Registered server p i) × ((server.sessions p).owner_session_id ≡ 20000))
    × (find_session server 20000 ≡ none
        → (p i : ℕ) → Registered server p i
        → (server.sessions p).owner_session_id ≢ 20000)
find_session_example = find_session_lem server 20000

registered : (register_session server 0).0 ≡ true
unfolding register_session free_slot
registered = refl
