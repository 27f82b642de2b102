-- ===== src/Threading/LocalThread/Creation.antt =====
-- What CLocalThread::CreateSession makes of a new socket.
use mmorpg_server.Base.{
  [], refl, ℕ, none, some, arith, ◌≡◌, ◌++◌, ◌∷◌, Option-cases, ==_refl, ◌∙◌, inl, ap, inr, sym,
}
use mmorpg_server.Common.Types.{max_total_sessions, SessionState, generate_session_id}
use mmorpg_server.Network.World.{World, Env, connected, Task, set_session}
use mmorpg_server.Network.Session as Session
use mmorpg_server.Network.Socket as Socket
use mmorpg_server.Network.Registry.{register_session, free_slot, hash_session_id}
use mmorpg_server.Threading.LocalThread.{LocalThread, allocate_session, create_session}

-- The session and the socket know each other, the session is active, and the socket is connected and
-- waits for its first bytes.
pub record IsServed (thread : ℕ) (w w' : World) (p s : ℕ) : Type 0 where
  pub active : (w'.sessions p).state ≡ SessionState.active
  pub bound : (w'.sessions p).socket ≡ some s
  pub numbered : (w'.sessions p).owner_session_id ≡ (generate_session_id w.counters).0
  pub placed : (w'.sessions p).owner_thread_id ≡ thread
  pub bound_back : (w'.sockets s).session ≡ some p
  pub numbered_back : (w'.sockets s).session_id ≡ (w'.sessions p).owner_session_id
  pub on_line : (w'.sockets s).state ≡ connected
  pub reading : w'.tasks ≡ w.tasks ++ Task.async_read s ∷ []

-- What `RegisterSession` leaves alone
register_session-frame :
    (w : World) (p : ℕ)
    → ((register_session w p).1.sessions ≡ w.sessions)
      × ((register_session w p).1.sockets ≡ w.sockets)
      × ((register_session w p).1.tasks ≡ w.tasks)
unfolding register_session
register_session-frame w p =
    elim (Option-cases (
      free_slot w.registry (hash_session_id (w.sessions p).owner_session_id) 0
        max_total_sessions)) [
          | inl full ↦ rw (register_session, full) (refl, refl, refl)
          | inr (i, at) ↦ rw (register_session, at) (refl, refl, refl)
        ]

-- The first read of a socket is posted.
start_lem :
    (w : World) (s : ℕ)
    → ((Socket.start w s).sessions ≡ w.sessions)
      × (((Socket.start w s).sockets s).session ≡ (w.sockets s).session)
      × (((Socket.start w s).sockets s).session_id ≡ (w.sockets s).session_id)
      × (((Socket.start w s).sockets s).state ≡ connected)
      × ((Socket.start w s).tasks ≡ w.tasks ++ Task.async_read s ∷ [])
unfolding Socket.start Socket.do_read Socket.is_connected
start_lem w s = simp (==_refl s) (refl, refl, refl, refl, refl)

-- `CreateSession` until the session is registered
abbrev unregistered : Env → LocalThread → World → ℕ → ℕ → World
unregistered e t w s p =
    let (id, counters) = generate_session_id w.counters in
    let w1 = Session.initialize e (record w { counters = counters }) p id t.owner_thread_id in
    let (_, w2) = Session.bind_socket e w1 p s in
    let w3 = set_session w2 p (record (w2.sessions p) { owner_map_id = 1 }) in
    Session.set_state w3 p SessionState.active

initialize_lem :
    (e : Env) (w : World) (p id thread : ℕ)
    → let w' = Session.initialize e w p id thread in
      ((w'.sessions p).socket ≡ none)
      × ((w'.sessions p).owner_session_id ≡ id)
      × ((w'.sessions p).owner_thread_id ≡ thread)
      × (w'.tasks ≡ w.tasks)
unfolding Session.initialize
initialize_lem e w p id thread = simp (==_refl p) (refl, refl, refl, refl)

-- A session without a socket takes the socket, and keeps its number and its thread.
bind_free_lem :
    (e : Env) (w : World) (p s : ℕ)
    → (w.sessions p).socket ≡ none
    → let w' = (Session.bind_socket e w p s).1 in
      ((w'.sessions p).socket ≡ some s)
      × ((w'.sessions p).owner_session_id ≡ (w.sessions p).owner_session_id)
      × ((w'.sessions p).owner_thread_id ≡ (w.sessions p).owner_thread_id)
      × ((w'.sockets s).session ≡ some p)
      × ((w'.sockets s).session_id ≡ (w.sessions p).owner_session_id)
      × (w'.tasks ≡ w.tasks)
unfolding Session.bind_socket Socket.bind_session
bind_free_lem e w p s free =
    rw (Session.bind_socket, free)
      (simp (==_refl p, ==_refl s) (refl, refl, refl, refl, refl, refl))

unregistered_lem :
    (e : Env) (t : LocalThread) (w : World) (s p : ℕ)
    → let w4 = unregistered e t w s p in
      ((w4.sessions p).state ≡ SessionState.active)
      × ((w4.sessions p).socket ≡ some s)
      × ((w4.sessions p).owner_session_id ≡ (generate_session_id w.counters).0)
      × ((w4.sessions p).owner_thread_id ≡ t.owner_thread_id)
      × ((w4.sockets s).session ≡ some p)
      × ((w4.sockets s).session_id ≡ (generate_session_id w.counters).0)
      × (w4.tasks ≡ w.tasks)
unfolding Session.set_state
unregistered_lem e t w s p =
    let (id, counters) = generate_session_id w.counters in
    let counting = record w { counters = counters } in
    let (free, numbered, placed, quiet) = initialize_lem e counting p id t.owner_thread_id in
    let w1 = Session.initialize e counting p id t.owner_thread_id in
    let (bound, same_id, same_thread, back, back_id, still) = bind_free_lem e w1 p s free in
    simp (==_refl p) (
      refl,
      bound,
      same_id ∙ numbered,
      same_thread ∙ placed,
      back,
      back_id ∙ numbered,
      still ∙ quiet,
    )

create_session-some :
    (e : Env) (t : LocalThread) (w : World) (s p : ℕ)
    → (create_session e t w (some s)).0 ≡ some p
    → (create_session e t w (some s)).2
      ≡ Socket.start (register_session (unregistered e t w s p) p).1 s
unfolding create_session
create_session-some e t w s p made = elim (Option-cases (allocate_session t).0) [
  | inl none_left ↦ absurd (ground (arith, made, none_left))
  | inr (p', out) ↦
      let same : p' ≡ p = ground (arith, made, out) in
      rw (create_session, out)
        (ap (λ q. Socket.start (register_session (unregistered e t w s q) q).1 s) same)
]

pub create_session_lem :
    (e : Env) (t : LocalThread) (w : World) (s p : ℕ)
    → (create_session e t w (some s)).0 ≡ some p
    → IsServed t.owner_thread_id w (create_session e t w (some s)).2 p s
create_session_lem e t w s p made =
    let w4 = unregistered e t w s p in
    let (state, socket, id, thread, back, id_back, quiet) = unregistered_lem e t w s p in
    let (same_sessions, same_sockets, same_tasks) = register_session-frame w4 p in
    let (kept, bound, numbered, on_line, reading) = start_lem (register_session w4 p).1 s in
    let sessions = kept ∙ same_sessions in
    rw (create_session-some e t w s p made) (record {
      active = ap (λ f. (f p).state) sessions ∙ state;
      bound = ap (λ f. (f p).socket) sessions ∙ socket;
      numbered = ap (λ f. (f p).owner_session_id) sessions ∙ id;
      placed = ap (λ f. (f p).owner_thread_id) sessions ∙ thread;
      bound_back = bound ∙ ap (λ f. (f s).session) same_sockets ∙ back;
      numbered_back =
          numbered
          ∙ ap (λ f. (f s).session_id) same_sockets
          ∙ id_back
          ∙ sym (ap (λ f. (f p).owner_session_id) sessions ∙ id);
      on_line = on_line;
      reading = reading ∙ ap (λ ts. ts ++ Task.async_read s ∷ []) (same_tasks ∙ quiet);
    })

pub create_session-made :
    (e : Env) (t : LocalThread) (w : World) (s p : ℕ)
    → (allocate_session t).0 ≡ some p
    → (create_session e t w (some s)).0 ≡ some p
unfolding create_session
create_session-made e t w s p made = rw (create_session, made) refl
