-- ===== src/Threading/LocalThread/Ticks.antt =====
-- The tick of CLocalThread: its commands and its sessions, and the start and stop of the thread.
use mmorpg_server.Base.{
  ℕ, none, some, suc, Bool, ◌+◌, if◌then◌else◌, add64, false, true, zero, update,
}
use mmorpg_server.Common.Types.{SessionState, max_sessions_per_thread}
use mmorpg_server.Common.MpscQueue
use mmorpg_server.Network.World.{World, Env, incoming_queue_capacity}
use mmorpg_server.Network.Session
use mmorpg_server.Network.Registry.{unregister_session}
use mmorpg_server.Threading.LocalThread.{
  LocalThread, Command, no_command, shutdown, create_session_of, remove_session_of, broadcast,
  command_queue_capacity, pooled, post_command, create_session, remove_session,
}
use mmorpg_server.Threading.LocalThread.Messages.{handle_broadcast, handle_packet}

-- A round takes a packet off the incoming queue, which no other thread fills while it is read here,
-- so one round more than its capacity ends the loop.
unfoldable pub process_session_packets :
    ℕ → (ℕ → ℕ) → Env → LocalThread → World → ℕ → LocalThread × World
process_session_packets zero rand e t w p = (t, w)
process_session_packets (suc rounds) rand e t w p =
    let (out, w') = Session.pop_incoming_packet w p in
    elim out [
      | none ↦ (t, w')
      | some packet ↦
          let (t', w'') = handle_packet rand e t w' p packet in
          process_session_packets rounds rand e
            (record t' { packets_processed = add64 t'.packets_processed 1 }) w'' p
    ]

-- What happens to one session, by its state
unfoldable pub process_session_in :
    SessionState → (ℕ → ℕ) → Env → LocalThread → World → ℕ → LocalThread × World
process_session_in SessionState.active rand e t w p =
    process_session_packets (incoming_queue_capacity + 1) rand e t w p
process_session_in SessionState.temp_disconnect rand e t w p =
    if Session.is_disconnect_timer_expired e (w.sessions p)
    then remove_session e t w (w.sessions p).owner_session_id
    else (t, w)
process_session_in SessionState.closed rand e t w p =
    remove_session e t w (w.sessions p).owner_session_id
process_session_in SessionState.disconnecting rand e t w p =
    remove_session e t w (w.sessions p).owner_session_id
process_session_in SessionState.initial rand e t w p = (t, w)
process_session_in SessionState.connecting rand e t w p = (t, w)

-- The loop of `ProcessSessions`, from index `i - 1` down
unfoldable pub process_sessions_below :
    ℕ → (ℕ → ℕ) → Env → LocalThread → World → LocalThread × World
process_sessions_below zero rand e t w = (t, w)
process_sessions_below (suc i) rand e t w = elim (t.active_sessions i) [
  | none ↦ process_sessions_below i rand e t w
  | some p ↦
      let (t', w') = process_session_in (w.sessions p).state rand e t w p in
      process_sessions_below i rand e t' w'
]

unfoldable pub process_sessions : (ℕ → ℕ) → Env → LocalThread → World → LocalThread × World
process_sessions rand e t w = process_sessions_below t.active_session_count rand e t w

-- One command, and whether the loop goes on
unfoldable pub run_command :
    (ℕ → ℕ) → Env → LocalThread → World → Command → Bool × LocalThread × World
run_command rand e t w (create_session_of socket) =
    let (_, t', w') = create_session e t w socket in (true, t', w')
run_command rand e t w (remove_session_of session_id) =
    let (t', w') = remove_session e t w session_id in (true, t', w')
run_command rand e t w (broadcast map_id packet exclude_session_id) =
    let (t', w') = handle_broadcast rand e t w map_id packet exclude_session_id in (true, t', w')
run_command rand e t w shutdown = (false, record t { is_running = false }, w)
run_command rand e t w no_command = (true, t, w)

-- The loop of `ProcessCommands`. Other threads may add commands while it runs, so the source has no
-- bound; here it ends after a number of rounds.
unfoldable pub process_commands : ℕ → (ℕ → ℕ) → Env → LocalThread → World → LocalThread × World
process_commands zero rand e t w = (t, w)
process_commands (suc rounds) rand e t w =
    let (out, queue) = MpscQueue.pop t.command_queue in
    let popped = record t { command_queue = queue } in
    elim out [
      | none ↦ (popped, w)
      | some command ↦
          let (goes_on, t', w') = run_command rand e popped w command in
          elim goes_on [ true ↦ process_commands rounds rand e t' w' | false ↦ (t', w') ]
    ]

unfoldable pub process_tick : (ℕ → ℕ) → Env → LocalThread → World → LocalThread × World
process_tick rand e t w =
    let (t', w') = process_commands (command_queue_capacity + 1) rand e t w in
    process_sessions rand e t' w'

unfoldable pub start_thread : LocalThread → ℕ → Bool × LocalThread
start_thread t thread_id =
    if t.is_running
    then (true, t)
    else (true, record t { owner_thread_id = thread_id; is_running = true })

-- The loop of `Stop` over `count` sessions of the pool from `i` on
unfoldable pub clear_pool : Env → LocalThread → World → ℕ → ℕ → LocalThread × World
clear_pool e t w i zero = (t, w)
clear_pool e t w i (suc count) = elim (t.session_used i) [
  | false ↦ clear_pool e t w (i + 1) count
  | true ↦
      let p = pooled t i in
      let w' = Session.reset e (unregister_session w (w.sessions p).owner_session_id) p in
      clear_pool e (record t { session_used = update t.session_used i false }) w' (i + 1) count
]

-- `Stop`, the thread having ended
unfoldable pub stop_thread : Env → LocalThread → World → LocalThread × World
stop_thread e t w =
    if t.is_running
    then (let t' = (post_command (record t { is_running = false }) shutdown).1 in
        let (t'', w') = clear_pool e t' w 0 max_sessions_per_thread in
        (record t'' { session_count = 0; active_session_count = 0 }, w'))
    else (t, w)
