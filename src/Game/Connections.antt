-- ===== src/Game/Connections.antt =====
-- A new connection, from the listener to the thread that gives it a session.
use mmorpg_server.Base.{
  [], refl, ℕ, some, arith, List, ◌<◌, ◌≡◌, ◌+◌, ◌^◌, true, if◌then◌else◌, ◌++◌, false, ◌==◌,
  Option-cases, ◌∷◌, inl, inr, Bool-cases, leb, ◌⊎◌, ◌∙◌, suc, ap, update_self, update,
}
use mmorpg_server.Common.Types.{max_sessions_per_thread}
use mmorpg_server.Common.Fifo.{put}
use mmorpg_server.Common.MpscQueue
use mmorpg_server.Common.MpscQueue.Refine.{contents, push_refines}
use mmorpg_server.Common.MpscQueue.Refine as Queue
use mmorpg_server.Network.World.{Env}
use mmorpg_server.Network.Socket
use mmorpg_server.Threading.LocalThread.{
  allocate_session, LocalThread, Command, create_session_of, post_command, post_create_session,
  command_queue_capacity,
}
use mmorpg_server.Threading.ThreadManager.{
  ThreadManager, get_least_loaded_local_thread, route_new_connection,
}
use mmorpg_server.Threading.ThreadManager.Routing.{get_least_loaded_local_thread_lem}
use mmorpg_server.Threading.LocalThread.Commands.{popped, process_commands-create, allocate-popped}
use mmorpg_server.Threading.LocalThread.Creation.{IsServed, create_session_lem, create_session-made}
use mmorpg_server.Threading.LocalThread.Ticks.{process_commands}
use mmorpg_server.Game.{Program, on_new_connection}

-- The commands that wait for a thread
abbrev pub commands : ThreadManager → ℕ → List Command
commands m i = contents (m.local_threads i).command_queue

-- The queues of commands are valid, and their indices do not wrap at the next push.
pub record HasQueues (m : ThreadManager) : Type 0 where
  pub valid : (i : ℕ) → Queue.IsValid (m.local_threads i).command_queue
  pub unwrapped : (i : ℕ) → (m.local_threads i).command_queue.tail + 1 < 2 ^ 64

-- Apart from the queues of commands, the managers are the same.
pub record SameThreads (m m' : ThreadManager) : Type 0 where
  pub same_flag : m'.is_running ≡ m.is_running
  pub same_pool : m'.io_thread_pool ≡ m.io_thread_pool
  pub same_count : m'.local_thread_count ≡ m.local_thread_count
  pub same_index : m'.next_thread_index ≡ m.next_thread_index
  pub same_thread :
      (j : ℕ)
      → m'.local_threads j
        ≡ record (m.local_threads j) { command_queue = (m'.local_threads j).command_queue }

-- The command for a connection went to one thread, behind its other commands, and nothing else
-- has changed.
abbrev pub Routed : ThreadManager → ℕ → ThreadManager → Type 0
Routed m socket m' =
    SameThreads m m'
    × ((i : ℕ) × (i < m.local_thread_count)
        × ((m.local_threads i).session_count < max_sessions_per_thread)
        × ((j : ℕ)
            → commands m' j ≡ (
                if i == j
                then commands m j ++ create_session_of (some socket) ∷ []
                else commands m j)))

-- Every thread has the commands that it had, and nothing else has changed.
abbrev pub Refused : ThreadManager → ThreadManager → Type 0
Refused m m' = SameThreads m m' × ((j : ℕ) → commands m' j ≡ commands m j)

same-SameThreads : (m : ThreadManager) → SameThreads m m
same-SameThreads m = record {
  same_flag = refl;
  same_pool = refl;
  same_count = refl;
  same_index = refl;
  same_thread = λ j. refl;
}

post-SameThreads :
    (m : ThreadManager) (i : ℕ) (posted : Command)
    → SameThreads m (record m {
      local_threads = update m.local_threads i (post_command (m.local_threads i) posted).1;
    })
unfolding post_command
post-SameThreads m i posted = record {
  same_flag = refl;
  same_pool = refl;
  same_count = refl;
  same_index = refl;
  same_thread = λ j. ground arith;
}

-- A push returns whether the entry now stands behind the others; if not, nothing has changed.
push_outcome :
    (t : LocalThread) (command : Command)
    → Queue.IsValid t.command_queue
    → t.command_queue.tail + 1 < 2 ^ 64
    → contents (post_command t command).1.command_queue ≡ (
        if (post_command t command).0
        then contents t.command_queue ++ command ∷ []
        else contents t.command_queue)
unfolding post_command put
push_outcome t command v small =
    let r = (push_refines t.command_queue command v small).0 in ground (arith, r)

route_new_connection_lem :
    (m : ThreadManager) (socket : ℕ)
    → HasQueues m
    → ((route_new_connection m (some socket)).0 ≡ true
        → Routed m socket (route_new_connection m (some socket)).1)
      × ((route_new_connection m (some socket)).0 ≡ false
          → Refused m (route_new_connection m (some socket)).1)
unfolding post_create_session route_new_connection
route_new_connection_lem m socket q = elim (Option-cases (get_least_loaded_local_thread m)) [
  | inl nobody ↦ rw (route_new_connection, nobody) (λ h. cc, λ h. (same-SameThreads m, λ j. refl))
  | inr (i, chosen) ↦
      elim (Bool-cases (leb max_sessions_per_thread (m.local_threads i).session_count)) [
        | inl full ↦
            rw (route_new_connection, chosen, full) (λ h. cc, λ h. (same-SameThreads m, λ j. refl))
        | inr room ↦
            let kept = post-SameThreads m i (create_session_of (some socket)) in
            let within = ((get_least_loaded_local_thread_lem m).1 i chosen).0 in
            let pushed =
              push_outcome (m.local_threads i) (create_session_of (some socket)) (q.valid i)
                (q.unwrapped i) in
            rw (route_new_connection, chosen, room)
              (
                λ h. (kept, (i, within, ground (arith, room), λ j. ground (arith, pushed, h))),
                λ h. (kept, λ j. ground (arith, pushed, h)),
              )
      ]
]

-- A new connection, the command queues being valid and not about to wrap, either adds one
-- command behind those of one thread below the limit of sessions, or its socket is destroyed and
-- every thread has the commands it had. In both cases the manager and its threads are otherwise
-- the same, and in the first one the sockets, sessions and packets too.
pub on_new_connection_lem :
    (e : Env) (s : Program) (socket : ℕ)
    → HasQueues s.manager
    → (Routed s.manager socket (on_new_connection e s (some socket)).manager
        × ((on_new_connection e s (some socket)).world ≡ s.world))
      ⊎ (((on_new_connection e s (some socket)).world ≡ Socket.destroy_socket_now e s.world socket)
          × Refused s.manager (on_new_connection e s (some socket)).manager)
unfolding on_new_connection
on_new_connection_lem e s socket q =
    let (sent, kept) = route_new_connection_lem s.manager socket q in
    elim (Bool-cases (route_new_connection s.manager (some socket)).0) [
      | inl yes_routed ↦ inl (rw (on_new_connection, yes_routed) (sent yes_routed, refl))
      | inr refused ↦ inr (rw (on_new_connection, refused) (refl, kept refused))
    ]

-- The thread that is chosen, with the command for the connection behind the others
routed_to :
    (e : Env) (s : Program) (socket i : ℕ)
    → HasQueues s.manager
    → get_least_loaded_local_thread s.manager ≡ some i
    → (s.manager.local_threads i).session_count < max_sessions_per_thread
    → commands s.manager i ≡ []
    → let queue =
        (MpscQueue.push
          (s.manager.local_threads i).command_queue
          (create_session_of (some socket))).1 in
      ((on_new_connection e s (some socket)).manager.local_threads i
        ≡ record (s.manager.local_threads i) { command_queue = queue })
      × ((on_new_connection e s (some socket)).world ≡ s.world)
      × Queue.IsValid queue
      × (contents queue ≡ create_session_of (some socket) ∷ [])
unfolding on_new_connection route_new_connection post_create_session post_command put
routed_to e s socket i q chosen room waiting =
    let t = s.manager.local_threads i in
    let command = create_session_of (some socket) in
    let (pushed, valid, _) = push_refines t.command_queue command (q.valid i) (q.unwrapped i) in
    let r = pushed ∙ ap (λ cs. put command_queue_capacity cs command) waiting in
    let free : leb max_sessions_per_thread t.session_count ≡ false = ground (arith, room) in
    let done : (MpscQueue.push t.command_queue command).0 ≡ true = ap (λ o. o.0) r in
    let t' = record t { command_queue = (MpscQueue.push t.command_queue command).1 } in
    let route : route_new_connection s.manager (some socket)
        ≡ (true, record s.manager { local_threads = update s.manager.local_threads i t' }) =
      rw (route_new_connection, chosen, free, done) refl in
    (
      rw (on_new_connection, route) (update_self s.manager.local_threads i t'),
      rw (on_new_connection, route) refl,
      valid,
      ap (λ o. o.1) r,
    )

-- When the thread with the fewest sessions is below the limit, has no command waiting and a
-- free session, and the command queues are valid and not about to wrap, a new connection is
-- served by the commands of that thread's next tick: the session is active, has a new number
-- and the thread's, socket and session know each other, the socket is connected, and its first
-- read is posted.
pub connection-IsServed :
    (rand : ℕ → ℕ) (e : Env) (s : Program) (socket i p : ℕ)
    → HasQueues s.manager
    → get_least_loaded_local_thread s.manager ≡ some i
    → (s.manager.local_threads i).session_count < max_sessions_per_thread
    → commands s.manager i ≡ []
    → (allocate_session (s.manager.local_threads i)).0 ≡ some p
    → let s' = on_new_connection e s (some socket) in
      IsServed
        (s.manager.local_threads i).owner_thread_id
        s.world
        (process_commands
          (suc command_queue_capacity)
          rand
          e
          (s'.manager.local_threads i)
          s'.world).1
        p
        socket
connection-IsServed rand e s socket i p q chosen room waiting free =
    let t = s.manager.local_threads i in
    let (thread, world, valid, command) = routed_to e s socket i q chosen room waiting in
    let queue = (MpscQueue.push t.command_queue (create_session_of (some socket))).1 in
    let t1 = record t { command_queue = queue } in
    rw (thread, world)
      (rw (process_commands-create 1023 rand e t1 s.world (some socket) valid command) (
        create_session_lem e (popped t1) s.world socket p
          (create_session-made e (popped t1) s.world socket p (allocate-popped t queue ∙ free))))
