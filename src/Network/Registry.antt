-- ===== src/Network/Registry.antt =====
-- CSessionManager of Source/Core/Network/Session.h and Session.cpp, the table of all sessions.
-- A call runs without interruption.
pub mod Lookup
pub mod Reconnect
pub mod Refusal
pub mod Table
use mmorpg_server.Base.{
  ℕ, arith, none, ◌%◌, Bool, Option, if◌then◌else◌, suc, add64, false, some, ◌+◌, ◌==◌, ◌||◌, true,
  not, update, zero, sub64,
}
use mmorpg_server.Common.Types.{
  SessionState, is_active, is_connecting, is_temp_disconnect, max_total_sessions,
}
use mmorpg_server.Network.World.{Session, Registry, World, Env}
use mmorpg_server.Network.Session
use mmorpg_server.Network.Socket

abbrev pub initial_registry : Registry
initial_registry = record {
  session_table = λ _. none;
  slot_used = λ _. false;
  active_count = 0;
  rec_success = 0;
  rec_fail_not_found = 0;
  rec_fail_invalid_state = 0;
  rec_fail_token_mismatch = 0;
  rec_fail_expired = 0;
}

abbrev pub hash_session_id : ℕ → ℕ
hash_session_id id = id % max_total_sessions

-- The session in a slot that is in use, if there is one and it passes a test:
-- `SlotUsed_[i].load() && SessionTable_[i] && test(SessionTable_[i])`.
unfoldable pub slot : World → (Session → Bool) → ℕ → Option ℕ
slot w test i =
    if w.registry.slot_used i
    then elim (w.registry.session_table i) [
      | none ↦ none
      | some p ↦ if test (w.sessions p) then some p else none
    ]
    else none

-- The first of `count` slots from `i` on that `slot` accepts, and its session.
unfoldable pub scan : World → (Session → Bool) → ℕ → ℕ → Option (ℕ × ℕ)
scan w test i zero = none
scan w test i (suc count) =
    let rest = scan w test (i + 1) count in
    elim (slot w test i) [ none ↦ rest | some p ↦ some (i, p) ]

-- The loop of `RegisterSession`: the first free slot of `count`, from `start + i` on, round the
-- table.
unfoldable pub free_slot : Registry → ℕ → ℕ → ℕ → Option ℕ
free_slot r start i zero = none
free_slot r start i (suc count) =
    let index = (start + i) % max_total_sessions in
    let rest = free_slot r start (i + 1) count in if r.slot_used index then rest else some index

unfoldable pub register_session : World → ℕ → Bool × World
register_session w p =
    let r = w.registry in
    elim (free_slot r (hash_session_id (w.sessions p).owner_session_id) 0 max_total_sessions) [
      | none ↦ (false, w)
      | some index ↦ (
        true,
        record w {
          registry = record r {
            slot_used = update r.slot_used index true;
            session_table = update r.session_table index (some p);
            active_count = add64 r.active_count 1;
          };
        },
      )
    ]

abbrev pub has_id : ℕ → Session → Bool
has_id id g = g.owner_session_id == id

unfoldable pub unregister_session : World → ℕ → World
unregister_session w id = elim (scan w (has_id id) 0 max_total_sessions) [
  | none ↦ w
  | some (i, _) ↦ record w {
    registry = record w.registry {
      session_table = update w.registry.session_table i none;
      slot_used = update w.registry.slot_used i false;
      active_count = sub64 w.registry.active_count 1;
    };
  }
]

abbrev pub session_found : Option (ℕ × ℕ) → Option ℕ
session_found none = none
session_found (some (_, p)) = some p

-- The slot of the hash first, then all.
unfoldable pub find_session : World → ℕ → Option ℕ
find_session w id = elim (slot w (has_id id) (hash_session_id id)) [
  | some p ↦ some p
  | none ↦ session_found (scan w (has_id id) 0 max_total_sessions)
]

unfoldable pub find_session_by_account_id : World → ℕ → Option ℕ
find_session_by_account_id w account_id =
    session_found (scan w (λ g. g.owner_account_id == account_id) 0 max_total_sessions)

pub record ConnectionStats : Type 0 where
  pub total_sessions : ℕ
  pub connected_count : ℕ
  pub waiting_count : ℕ

unfoldable pub count_state : ConnectionStats → SessionState → ConnectionStats
count_state c state =
    if is_active state || is_connecting state
    then record c { total_sessions = c.total_sessions + 1; connected_count = c.connected_count + 1 }
    else if is_temp_disconnect state
    then record c { total_sessions = c.total_sessions + 1; waiting_count = c.waiting_count + 1 }
    else record c { total_sessions = c.total_sessions + 1 }

-- The loop of `GetConnectionStats` over `count` slots from `i` on; the counts stay below the size
-- of the table.
unfoldable pub count_connections : World → ConnectionStats → ℕ → ℕ → ConnectionStats
count_connections w c i zero = c
count_connections w c i (suc count) = elim (slot w (λ _. true) i) [
  | none ↦ count_connections w c (i + 1) count
  | some p ↦ count_connections w (count_state c (w.sessions p).state) (i + 1) count
]

unfoldable pub get_connection_stats : World → ConnectionStats
get_connection_stats w =
    count_connections w (record { total_sessions = 0; connected_count = 0; waiting_count = 0 }) 0
      max_total_sessions

-- `if (oldSocket) oldSocket->Close();`
unfoldable pub close_socket_of : Env → World → ℕ → World
close_socket_of e w p = elim (w.sessions p).socket [ none ↦ w | some s ↦ Socket.close e w s ]

-- The counters of failed reconnects: which of them a failure adds one to.
pub data Failure : Type 0 where
  invalid_state token_mismatch expired : Failure

unfoldable pub count_failure : Failure → Registry → Registry
count_failure invalid_state r = record r {
  rec_fail_invalid_state = add64 r.rec_fail_invalid_state 1;
}
count_failure token_mismatch r = record r {
  rec_fail_token_mismatch = add64 r.rec_fail_token_mismatch 1;
}
count_failure expired r = record r { rec_fail_expired = add64 r.rec_fail_expired 1 }

-- What the cases 2 to 4 of `FindSessionByUsn` do: the socket is closed, the failure counted, and
-- the session closed and unregistered.
unfoldable pub refuse : Env → World → ℕ → Failure → World
refuse e w p failure =
    let w1 = close_socket_of e w p in
    let w2 = record w1 { registry = count_failure failure w1.registry } in
    let w3 = Session.set_state w2 p SessionState.closed in
    unregister_session w3 (w3.sessions p).owner_session_id

-- The checks on the session that was found.
unfoldable pub verify_reconnect : Env → World → ℕ → ℕ → Option ℕ × World
verify_reconnect e w p token =
    let g = w.sessions p in
    if not (is_temp_disconnect g.state)
    then (none, refuse e w p invalid_state)
    else if not (Session.validate_reconnect_token g token)
    then (none, refuse e w p token_mismatch)
    else if Session.is_disconnect_timer_expired e g
    then (none, refuse e w p expired)
    else (
      some p,
      record w { registry = record w.registry { rec_success = add64 w.registry.rec_success 1 } },
    )

unfoldable pub find_session_by_usn : Env → World → ℕ → ℕ → Bool → Option ℕ × World
find_session_by_usn e w usn token reconnect_attempt =
    if usn == 0 then (none, w) else elim (scan w (λ g. g.usn == usn) 0 max_total_sessions) [
      | none ↦
          if reconnect_attempt
          then (
            none,
            record w {
              registry = record w.registry {
                rec_fail_not_found = add64 w.registry.rec_fail_not_found 1;
              };
            },
          )
          else (none, w)
      | some (_, p) ↦ verify_reconnect e w p token
    ]
