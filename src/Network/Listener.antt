-- ===== src/Network/Listener.antt =====
-- CListener of Source/Core/Network/Listener.h and Listener.cpp. What asio answers is an argument: the
-- four error codes of `Start`, and how an `async_accept` ends.
pub mod Accepting
use mmorpg_server.Base.{
  [], ℕ, none, some, arith, Bool, false, Option, if◌then◌else◌, add64, ◌-◌, List, ◌+◌, true, ◌∷◌,
  not, ◌&&◌,
}

-- The program behind the listener: what `CreateSocket` and `DestroySocket` do to its state. A socket
-- is the address that `new` has returned.
pub record SocketPool (S : Type 0) : Type 0 where
  pub create_socket : S → ℕ → S
  pub destroy_socket : S → ℕ → S

-- `pending_accepts` counts the calls of `async_accept` whose handler has not run. `callback` is the
-- handler of a connection with its `UserData`.
pub record Listener (S : Type 0) : Type 0 where
  pub port : ℕ
  pub is_running : Bool
  pub accept_count : ℕ
  pub reject_count : ℕ
  pub callback : Option (S → ℕ → S)
  pub acceptor_is_open : Bool
  pub pending_accepts : ℕ

-- Whether `open`, `set_option`, `bind` and `listen` succeed.
pub record AcceptorResults : Type 0 where
  pub opens : Bool
  pub sets_option : Bool
  pub binds : Bool
  pub listens : Bool

-- How an `async_accept` ends: with a connection, for which `new CSocket` returns the address, because
-- the acceptor was closed, or with another error.
pub data AcceptResult : Type 0 where
  accepted : ℕ → AcceptResult
  operation_aborted : AcceptResult
  accept_error : AcceptResult

module _ {S : Type 0} where
  unfoldable pub new_listener : ℕ → Listener S
  new_listener port = record {
    port = port;
    is_running = false;
    accept_count = 0;
    reject_count = 0;
    callback = none;
    acceptor_is_open = false;
    pending_accepts = 0;
  }

  unfoldable pub set_connection_handler : Listener S → Option (S → ℕ → S) → Listener S
  set_connection_handler l callback = record l { callback = callback }

  unfoldable pub do_accept : Listener S → Listener S
  do_accept l = if l.is_running then record l { pending_accepts = l.pending_accepts + 1 } else l

  unfoldable pub start_listener : AcceptorResults → Listener S → Bool × Listener S
  start_listener r l =
      let opened = record l { acceptor_is_open = true } in
      if l.is_running
      then (true, l)
      else if not r.opens
      then (false, l)
      else if not (r.sets_option && (r.binds && r.listens))
      then (false, opened)
      else (true, do_accept (record opened { is_running = true }))

  -- The pending accept ends with `operation_aborted` later.
  unfoldable pub stop_listener : Listener S → Listener S
  stop_listener l =
      if l.is_running then record l { is_running = false; acceptor_is_open = false } else l

  -- `if (ConnectionHandler.Callback && socket) … else if (socket) DestroySocket(socket)`
  unfoldable pub hand_over : SocketPool S → Option (S → ℕ → S) → S → ℕ → S
  hand_over pool none s socket = pool.destroy_socket s socket
  hand_over pool (some callback) s socket = callback s socket

  unfoldable pub accept_in : SocketPool S → AcceptResult → Listener S → S → Listener S × S
  accept_in pool (accepted socket) l s = (
    do_accept (record l { accept_count = add64 l.accept_count 1 }),
    hand_over pool l.callback (pool.create_socket s socket) socket,
  )
  accept_in pool operation_aborted l s = (do_accept l, s)
  accept_in pool accept_error l s =
      (do_accept (record l { reject_count = add64 l.reject_count 1 }), s)

  -- The handler of a pending accept runs.
  unfoldable pub on_accept : SocketPool S → AcceptResult → Listener S → S → Listener S × S
  on_accept pool result l s =
      let done = record l { pending_accepts = l.pending_accepts - 1 } in
      if l.is_running then accept_in pool result done s else (done, s)

  -- The handlers of several accepts, one after the other
  unfoldable pub on_accepts : SocketPool S → List AcceptResult → Listener S → S → Listener S × S
  on_accepts pool [] l s = (l, s)
  on_accepts pool (result ∷ results) l s =
      let (l', s') = on_accept pool result l s in on_accepts pool results l' s'
