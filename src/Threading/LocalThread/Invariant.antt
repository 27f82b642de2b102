-- ===== src/Threading/LocalThread/Invariant.antt =====
-- A whole tick of CLocalThread keeps the session pool in order.
use mmorpg_server.Base.{ℕ, none, some, Option, Bool-cases, Option-cases, inl, inr, suc, zero, false}
use mmorpg_server.Common.Types.{SessionState}
use mmorpg_server.Common.MpscQueue as Queue
use mmorpg_server.Network.World.{World, Env}
use mmorpg_server.Network.Session as SessionModule
use mmorpg_server.Threading.LocalThread.{
  LocalThread, Command, no_command, shutdown, create_session_of, remove_session_of, broadcast,
  allocate_session, create_session,
}
use mmorpg_server.Threading.LocalThread.Ticks.{
  process_session_in, run_command, process_sessions_below, process_sessions, process_commands,
  process_tick,
}
use mmorpg_server.Threading.LocalThread.Pool.{IsValid, allocate_session-IsValid}
use mmorpg_server.Threading.LocalThread.Removal.{remove_session-IsValid}
use mmorpg_server.Threading.LocalThread.SamePool.{
  SamePool-IsValid, broadcast-SamePool, other_fields, packets-SamePool,
}

session-IsValid :
    (state : SessionState) (rand : ℕ → ℕ) (e : Env) (t : LocalThread) (w : World) (p : ℕ)
    → IsValid t
    → IsValid (process_session_in state rand e t w p).0
unfolding process_session_in
session-IsValid SessionState.active rand e t w p v =
    SamePool-IsValid (packets-SamePool 513 rand e t w p) v
session-IsValid SessionState.temp_disconnect rand e t w p v =
    let removed = (remove_session-IsValid e t w (w.sessions p).owner_session_id v).0 in
    elim (Bool-cases (SessionModule.is_disconnect_timer_expired e (w.sessions p))) [
      | inl over ↦ rw (process_session_in, over) removed
      | inr waits ↦ rw (process_session_in, waits) v
    ]
session-IsValid SessionState.closed rand e t w p v =
    (remove_session-IsValid e t w (w.sessions p).owner_session_id v).0
session-IsValid SessionState.disconnecting rand e t w p v =
    (remove_session-IsValid e t w (w.sessions p).owner_session_id v).0
session-IsValid SessionState.initial rand e t w p v = v
session-IsValid SessionState.connecting rand e t w p v = v

sessions-IsValid :
    (i : ℕ) (rand : ℕ → ℕ) (e : Env) (t : LocalThread) (w : World)
    → IsValid t
    → IsValid (process_sessions_below i rand e t w).0
unfolding process_sessions_below
sessions-IsValid zero rand e t w v = v
sessions-IsValid (suc i) rand e t w v = elim (Option-cases (t.active_sessions i)) [
  | inl empty ↦ rw (process_sessions_below, empty) (sessions-IsValid i rand e t w v)
  | inr (p, there) ↦
      let (t', w') = process_session_in (w.sessions p).state rand e t w p in
      rw (process_sessions_below, there)
        (sessions-IsValid i rand e t' w' (session-IsValid (w.sessions p).state rand e t w p v))
]

create-IsValid :
    (e : Env) (t : LocalThread) (w : World) (socket : Option ℕ)
    → IsValid t
    → IsValid (create_session e t w socket).1
unfolding create_session
create-IsValid e t w none v = v
create-IsValid e t w (some s) v =
    let (kept, _, _) = allocate_session-IsValid t v in
    elim (Option-cases (allocate_session t).0) [
      | inl full ↦ rw (create_session, full) kept
      | inr (p, found) ↦ rw (create_session, found) kept
    ]

command-IsValid :
    (rand : ℕ → ℕ) (e : Env) (t : LocalThread) (w : World) (command : Command)
    → IsValid t
    → IsValid (run_command rand e t w command).1
unfolding run_command
command-IsValid rand e t w (create_session_of socket) v = create-IsValid e t w socket v
command-IsValid rand e t w (remove_session_of session_id) v =
    (remove_session-IsValid e t w session_id v).0
command-IsValid rand e t w (broadcast map_id packet exclude) v =
    SamePool-IsValid (broadcast-SamePool rand e t w map_id packet exclude) v
command-IsValid rand e t w shutdown v =
    SamePool-IsValid (other_fields t false t.packets_processed t.command_queue) v
command-IsValid rand e t w no_command v = v

commands-IsValid :
    (rounds : ℕ) (rand : ℕ → ℕ) (e : Env) (t : LocalThread) (w : World)
    → IsValid t
    → IsValid (process_commands rounds rand e t w).0
unfolding process_commands
commands-IsValid zero rand e t w v = v
commands-IsValid (suc rounds) rand e t w v =
    let (out, queue) = Queue.pop t.command_queue in
    let popped = record t { command_queue = queue } in
    let v' = SamePool-IsValid (other_fields t t.is_running t.packets_processed queue) v in
    elim (Option-cases (Queue.pop t.command_queue).0) [
      | inl empty ↦ rw (process_commands, empty) v'
      | inr (command, full) ↦
          let (goes_on, t', w') = run_command rand e popped w command in
          let kept = command-IsValid rand e popped w command v' in
          elim (Bool-cases (run_command rand e popped w command).0) [
            | inl more ↦
                rw (process_commands, full, more) (commands-IsValid rounds rand e t' w' kept)
            | inr ends ↦ rw (process_commands, full, ends) kept
          ]
    ]

-- A tick of a thread, with its commands and its sessions and whatever `rand` returns, keeps the
-- invariant of the session pool: the active sessions are distinct sessions of the pool that are
-- in use, as many as are counted, and no more than the pool holds.
pub process_tick-IsValid :
    (rand : ℕ → ℕ) (e : Env) (t : LocalThread) (w : World)
    → IsValid t
    → IsValid (process_tick rand e t w).0
unfolding process_tick process_sessions
process_tick-IsValid rand e t w v =
    let (t', w') = process_commands 1025 rand e t w in
    sessions-IsValid t'.active_session_count rand e t' w' (commands-IsValid 1025 rand e t w v)
