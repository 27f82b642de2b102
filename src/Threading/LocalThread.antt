-- ===== src/Threading/LocalThread.antt =====
-- CLocalThread of Source/Core/Threading/LocalThread.h and LocalThread.cpp: the session pool of a
-- thread and its sessions in use. Login and broadcast stand in `Messages`, the tick in `Ticks`.
-- Session `i` of the pool of thread `t` has the number `t * MAX_SESSIONS_PER_THREAD + i`.
pub mod Commands
pub mod Creation
pub mod Invariant
pub mod Messages
pub mod Pool
pub mod Removal
pub mod SamePool
pub mod Ticks
pub mod Timing
use mmorpg_server.Base.{
  [], ℕ, none, some, arith, Option, Bool, false, ◌*◌, sub64, ◌+◌, suc, if◌then◌else◌, update, leb,
  ◌==◌, zero, true, ◌&&◌, add64, ltb, ◌-◌,
}
use mmorpg_server.Common.Types.{max_sessions_per_thread, SessionState, generate_session_id}
use mmorpg_server.Common.MpscQueue
use mmorpg_server.Common.MpscQueue.{MpscQueue}
use mmorpg_server.Network.World.{Session, World, Env, set_session, set_socket}
use mmorpg_server.Network.Session
use mmorpg_server.Network.Socket
use mmorpg_server.Network.Registry.{register_session, unregister_session}

abbrev pub command_queue_capacity : ℕ
command_queue_capacity = 1024

-- `FCommand` with the fields that its type uses, `pSocket` and `pPacket` as pointers that may be null
pub data Command : Type 0 where
  no_command shutdown : Command
  create_session_of : Option ℕ → Command
  remove_session_of : ℕ → Command
  broadcast : ℕ → Option ℕ → ℕ → Command

-- `rand_calls` counts the calls of `rand()`. The statistics of time stand in
-- `Timing`.
pub record LocalThread : Type 0 where
  pub owner_thread_id : ℕ
  pub is_running : Bool
  pub session_used : ℕ → Bool
  pub session_count : ℕ
  pub active_sessions : ℕ → Option ℕ
  pub active_session_count : ℕ
  pub command_queue : MpscQueue Command command_queue_capacity
  pub packets_processed : ℕ
  pub packets_sent : ℕ
  pub rand_calls : ℕ

abbrev pub new_local_thread : LocalThread
new_local_thread = record {
  owner_thread_id = 0;
  is_running = false;
  session_used = λ _. false;
  session_count = 0;
  active_sessions = λ _. none;
  active_session_count = 0;
  command_queue = MpscQueue.new_mpsc_queue command_queue_capacity no_command;
  packets_processed = 0;
  packets_sent = 0;
  rand_calls = 0;
}

-- `&SessionPool[i]`
abbrev pub pooled : LocalThread → ℕ → ℕ
pooled t i = t.owner_thread_id * max_sessions_per_thread + i

-- `PostCommand`; the other posts build their command first.
unfoldable pub post_command : LocalThread → Command → Bool × LocalThread
post_command t command =
    let (done, queue) = MpscQueue.push t.command_queue command in
    (done, record t { command_queue = queue })

unfoldable pub post_create_session : LocalThread → Option ℕ → Bool × LocalThread
post_create_session t socket = post_command t (create_session_of socket)

unfoldable pub post_remove_session : LocalThread → ℕ → Bool × LocalThread
post_remove_session t session_id = post_command t (remove_session_of session_id)

unfoldable pub post_broadcast : LocalThread → ℕ → Option ℕ → ℕ → Bool × LocalThread
post_broadcast t map_id packet exclude_session_id =
    post_command t (broadcast map_id packet exclude_session_id)

-- The first unused index of `count` from `i` on
unfoldable pub first_unused : (ℕ → Bool) → ℕ → ℕ → Option ℕ
first_unused used i zero = none
first_unused used i (suc count) =
    let rest = first_unused used (i + 1) count in if used i then rest else some i

unfoldable pub allocate_session : LocalThread → Option ℕ × LocalThread
allocate_session t =
    if leb max_sessions_per_thread t.session_count
    then (none, t)
    else elim (first_unused t.session_used 0 max_sessions_per_thread) [
      | none ↦ (none, t)
      | some i ↦ (
        some (pooled t i),
        record t {
          session_used = update t.session_used i true;
          session_count = add64 t.session_count 1;
          active_sessions = update t.active_sessions t.active_session_count (some (pooled t i));
          active_session_count = add64 t.active_session_count 1;
        },
      )
    ]

unfoldable pub free_session : Env → LocalThread → World → ℕ → LocalThread × World
free_session e t w p =
    let first = t.owner_thread_id * max_sessions_per_thread in
    if leb first p && ltb (p - first) max_sessions_per_thread
    then (
      record t {
        session_used = update t.session_used (p - first) false;
        session_count = sub64 t.session_count 1;
      },
      Session.reset e w p,
    )
    else (t, w)

-- `DestroySocket` runs the destructor.
unfoldable pub create_session :
    Env → LocalThread → World → Option ℕ → Option ℕ × LocalThread × World
create_session e t w none = (none, t, w)
create_session e t w (some s) =
    let (out, t') = allocate_session t in
    elim out [
      | none ↦ (none, t', Socket.destroy_socket_now e w s)
      | some p ↦
          let (id, counters) = generate_session_id w.counters in
          let w1 = Session.initialize e (record w { counters = counters }) p id t.owner_thread_id in
          let (_, w2) = Session.bind_socket e w1 p s in
          let w3 = set_session w2 p (record (w2.sessions p) { owner_map_id = 1 }) in
          let w4 = Session.set_state w3 p SessionState.active in
          let (_, w5) = register_session w4 p in (some p, t', Socket.start w5 s)
    ]

-- `if (socket) { session->UnbindSocket(); DestroySocket(socket); }`
unfoldable pub discard_socket : Env → World → ℕ → World
discard_socket e w p = elim (w.sessions p).socket [
  | none ↦ w
  | some s ↦ Socket.destroy_socket_now e (Session.unbind_socket w p) s
]

-- The first of `count` active sessions from index `i` on with a number, and its index
unfoldable pub find_active : LocalThread → World → ℕ → ℕ → ℕ → Option (ℕ × ℕ)
find_active t w session_id i zero = none
find_active t w session_id i (suc count) =
    let rest = find_active t w session_id (i + 1) count in
    elim (t.active_sessions i) [
      | none ↦ rest
      | some p ↦ if (w.sessions p).owner_session_id == session_id then some (i, p) else rest
    ]

-- `ActiveSessions[i] = ActiveSessions[--ActiveSessionCount]`, and the last place to null
unfoldable pub replace_by_last : LocalThread → ℕ → LocalThread
replace_by_last t i =
    let last = sub64 t.active_session_count 1 in
    record t {
      active_sessions = update (update t.active_sessions i (t.active_sessions last)) last none;
      active_session_count = last;
    }

unfoldable pub remove_session : Env → LocalThread → World → ℕ → LocalThread × World
remove_session e t w session_id = elim (find_active t w session_id 0 t.active_session_count) [
  | none ↦ (t, w)
  | some (i, p) ↦
      let w' = discard_socket e (unregister_session w session_id) p in
      let (t', w'') = free_session e t w' p in (replace_by_last t' i, w'')
]
