-- ===== src/Game/Startup.antt =====
-- The start of the server, with the roll back when a part fails, and its end.
use mmorpg_server.Base.{
  [], refl, ℕ, none, some, arith, ◌≡◌, Option, true, false, ◌≢◌, Bool-cases, inl, ◌∙◌, sym, inr,
}
use mmorpg_server.Common.PacketPool as PacketPool
use mmorpg_server.Network.World.{Env}
use mmorpg_server.Network.Listener.{
  Listener, AcceptorResults, new_listener, set_connection_handler, start_listener, stop_listener,
  do_accept,
}
use mmorpg_server.Threading.ThreadManager.Running.{
  HasThreads, HasNoThreads, initialize-HasThreads, shutdown_all-HasNoThreads,
}
use mmorpg_server.Game.{Program, Server, Config, start_server, stop_server, connection_callback}

-- Everything runs, and one accept is pending.
pub record IsUp (s : Server) : Type 0 where
  pub threads : HasThreads s.program.manager
  pub listening : s.listener.is_running ≡ true
  pub accepting : s.listener.pending_accepts ≡ 1
  pub handled : s.listener.callback ≢ none

-- No thread runs, nothing listens, and the pages of the packet pool are freed.
pub record IsDown (s : Server) : Type 0 where
  pub threads : HasNoThreads s.program.manager
  pub listening : s.listener.is_running ≡ false
  pub freed : s.program.world.pool.pages ≡ []

-- A listener that has not been started runs exactly if every call to the acceptor succeeds.
start_listener_lem :
    (r : AcceptorResults) (port : ℕ) (callback : Option (Program → ℕ → Program))
    → let out = start_listener r (set_connection_handler (new_listener port) callback) in
      (out.1.is_running ≡ out.0)
      × (out.0 ≡ true → (out.1.pending_accepts ≡ 1))
      × (out.1.callback ≡ callback)
unfolding start_listener set_connection_handler new_listener do_accept
start_listener_lem r port callback = ground arith

stop_listener-running : (l : Listener Program) → (stop_listener l).is_running ≡ false
unfolding stop_listener
stop_listener-running l = ground arith

-- The end of `main` leaves nothing running.
stop_server-IsDown : (e : Env) (s : Server) → IsUp s → IsDown (stop_server e s)
unfolding stop_server PacketPool.shutdown_pool
stop_server-IsDown e s up = record {
  threads = shutdown_all-HasNoThreads e _ _ up.threads;
  listening = stop_listener-running s.listener;
  freed = refl;
}

-- A start that succeeds
start_server-IsUp :
    (r : AcceptorResults) (e : Env) (c : Config) (s : Program)
    → HasNoThreads s.manager
    → s.manager.io_thread_pool.is_stopped ≡ false
    → (start_server r e c s).0 ≡ true
    → IsUp (start_server r e c s).1
unfolding start_server PacketPool.initialize
start_server-IsUp r e c s off fresh h =
    let (started, threads) =
      initialize-HasThreads s.manager c.io_threads c.local_threads off fresh in
    let (same, pending, handler) = start_listener_lem r c.port (some (connection_callback e)) in
    let l = set_connection_handler (new_listener c.port) (some (connection_callback e)) in
    elim (Bool-cases (start_listener r l).0) [
      | inl up ↦
          rw (start_server, started, up)
            (record {
              threads = threads;
              listening = same ∙ up;
              accepting = pending up;
              handled = λ no. let q : some (connection_callback e) ≡ none = sym handler ∙ no in cc;
            })
      | inr failed ↦
          let fails : (start_server r e c s).0 ≡ false = rw (start_server, started, failed) refl in
          absurd (ground (arith, fails, h))
    ]

-- From a program in which no thread runs and the event loop was never stopped, a start that
-- succeeds leaves one to eight io threads and one to four local threads running, each local
-- thread with its id, no other local thread running, and the listener running with one accept
-- pending and a callback; the end of `main` then leaves no thread running, nothing listening
-- and the pages of the packet pool freed. A start that fails, whatever call to the acceptor it
-- is, leaves the same as the end.
pub start_server_lem :
    (r : AcceptorResults) (e : Env) (c : Config) (s : Program)
    → HasNoThreads s.manager
    → s.manager.io_thread_pool.is_stopped ≡ false
    → let out = start_server r e c s in
      (out.0 ≡ true → IsUp out.1 × IsDown (stop_server e out.1)) × (out.0 ≡ false → IsDown out.1)
unfolding start_server PacketPool.initialize PacketPool.shutdown_pool
start_server_lem r e c s off fresh =
    let (started, threads) =
      initialize-HasThreads s.manager c.io_threads c.local_threads off fresh in
    let (same, pending, handler) = start_listener_lem r c.port (some (connection_callback e)) in
    let l = set_connection_handler (new_listener c.port) (some (connection_callback e)) in
    (
      λ h.
          let up = start_server-IsUp r e c s off fresh h in
          (up, stop_server-IsDown e (start_server r e c s).1 up),
      λ h. elim (Bool-cases (start_listener r l).0) [
        | inl up ↦
            let succeeds : (start_server r e c s).0 ≡ true = rw (start_server, started, up) refl in
            absurd (ground (arith, succeeds, h))
        | inr failed ↦
            rw (start_server, started, failed)
              (record {
                threads = shutdown_all-HasNoThreads e _ _ threads;
                listening = same ∙ failed;
                freed = refl;
              })
      ],
    )
