-- ===== src/Network/Registry/Refusal.antt =====
-- The steps that `FindSessionByUsn` of CSessionManager takes to refuse a reconnect.
use mmorpg_server.Base.{
  ℕ, arith, ◌≡◌, refl, inl, inr, Option-cases, sym, ap, ◌∙◌, add64, none, subst,
}
use mmorpg_server.Common.Types.{SessionState}
use mmorpg_server.Network.World.{World, Registry, Env}
use mmorpg_server.Network.Session.{set_state}
use mmorpg_server.Network.Socket.{close, shut_down, drain_send_queue}
use mmorpg_server.Network.Registry.{
  unregister_session, close_socket_of, count_failure, refuse, Failure, invalid_state,
  token_mismatch, expired, find_session,
}
use mmorpg_server.Network.Registry.Table.{HasUniqueIds, find_session-unregister_session}
use mmorpg_server.Network.Registry.Lookup.{Registered}

-- The counters of `FReconnectStats`
pub record ReconnectCounts : Type 0 where
  pub success : ℕ
  pub not_found : ℕ
  pub invalid_states : ℕ
  pub token_mismatches : ℕ
  pub expiries : ℕ

abbrev pub reconnect_counts : Registry → ReconnectCounts
reconnect_counts r = record {
  success = r.rec_success;
  not_found = r.rec_fail_not_found;
  invalid_states = r.rec_fail_invalid_state;
  token_mismatches = r.rec_fail_token_mismatch;
  expiries = r.rec_fail_expired;
}

-- Of the five counters, exactly that of the failure has grown, by one.
unfoldable pub one_more : Failure → ReconnectCounts → ReconnectCounts
one_more invalid_state c = record c { invalid_states = add64 c.invalid_states 1 }
one_more token_mismatch c = record c { token_mismatches = add64 c.token_mismatches 1 }
one_more expired c = record c { expiries = add64 c.expiries 1 }

abbrev pub IsCounted : Failure → Registry → Registry → Type 0
IsCounted failure r r' = reconnect_counts r' ≡ one_more failure (reconnect_counts r)

close_keeps :
    (e : Env) (w : World) (s : ℕ)
    → ((close e w s).sessions ≡ w.sessions) × ((close e w s).registry ≡ w.registry)
unfolding close shut_down drain_send_queue
close_keeps e w s = ground arith

close_socket_of_keeps :
    (e : Env) (w : World) (p : ℕ)
    → ((close_socket_of e w p).sessions ≡ w.sessions)
      × ((close_socket_of e w p).registry ≡ w.registry)
unfolding close_socket_of
close_socket_of_keeps e w p = elim (Option-cases (w.sessions p).socket) [
  | inl unbound ↦ rw (close_socket_of, unbound) (refl, refl)
  | inr (s, bound) ↦ rw (close_socket_of, bound) (close_keeps e w s)
]

unregister_session_keeps :
    (w : World) (id : ℕ)
    → ((unregister_session w id).sessions ≡ w.sessions)
      × (reconnect_counts (unregister_session w id).registry ≡ reconnect_counts w.registry)
unfolding unregister_session
unregister_session_keeps w id = ground arith

count_failure-IsCounted :
    (failure : Failure) (r : Registry) → IsCounted failure r (count_failure failure r)
unfolding count_failure one_more
count_failure-IsCounted invalid_state r = refl
count_failure-IsCounted token_mismatch r = refl
count_failure-IsCounted expired r = refl

count_failure_table :
    (failure : Failure) (r : Registry)
    → ((count_failure failure r).slot_used ≡ r.slot_used)
      × ((count_failure failure r).session_table ≡ r.session_table)
unfolding count_failure
count_failure_table invalid_state r = (refl, refl)
count_failure_table token_mismatch r = (refl, refl)
count_failure_table expired r = (refl, refl)

-- The world of `refuse` before the session is unregistered
unfoldable condemn : Env → World → ℕ → Failure → World
condemn e w p failure =
    let w1 = close_socket_of e w p in
    set_state (record w1 { registry = count_failure failure w1.registry }) p SessionState.closed

condemn_ids :
    (e : Env) (w : World) (p q : ℕ) (failure : Failure)
    → ((condemn e w p failure).sessions q).owner_session_id ≡ (w.sessions q).owner_session_id
unfolding condemn set_state
condemn_ids e w p q failure =
    let (sessions, _) = close_socket_of_keeps e w p in
    ground (arith, ap (λ g. g p) sessions, ap (λ g. g q) sessions)

condemn-Registered :
    (e : Env) (w : World) (p q i : ℕ) (failure : Failure)
    → Registered (condemn e w p failure) q i
    → Registered w q i
unfolding condemn set_state
condemn-Registered e w p q i failure r =
    let (_, registry) = close_socket_of_keeps e w p in
    let (used, table) = count_failure_table failure (close_socket_of e w p).registry in
    record {
      within = r.within;
      used = sym (ap (λ t. t i) (used ∙ ap (λ t. t.slot_used) registry)) ∙ r.used;
      entry = sym (ap (λ t. t i) (table ∙ ap (λ t. t.session_table) registry)) ∙ r.entry;
    }

condemn-HasUniqueIds :
    (e : Env) (w : World) (p : ℕ) (failure : Failure)
    → HasUniqueIds w
    → HasUniqueIds (condemn e w p failure)
condemn-HasUniqueIds e w p failure unique i j q r at_i at_j same =
    unique i j q r (condemn-Registered e w p q i failure at_i)
      (condemn-Registered e w p r j failure at_j)
      (sym (condemn_ids e w p q failure) ∙ same ∙ condemn_ids e w p r failure)

condemn-IsCounted :
    (e : Env) (w : World) (p : ℕ) (failure : Failure)
    → IsCounted failure w.registry (condemn e w p failure).registry
unfolding condemn set_state
condemn-IsCounted e w p failure =
    let (_, registry) = close_socket_of_keeps e w p in
    subst (λ r. IsCounted failure r (count_failure failure (close_socket_of e w p).registry))
      registry (count_failure-IsCounted failure (close_socket_of e w p).registry)

condemn_state :
    (e : Env) (w : World) (p : ℕ) (failure : Failure)
    → ((condemn e w p failure).sessions p).state ≡ SessionState.closed
unfolding condemn set_state
condemn_state e w p failure = ground arith

-- What `refuse` leaves: the session is closed, exactly the failure's counter grew, and, when
-- numbers are unique, no registered session has the session's number.
pub refuse_lem :
    (e : Env) (w : World) (p : ℕ) (failure : Failure)
    → HasUniqueIds w
    → let w' = refuse e w p failure in
      ((w'.sessions p).state ≡ SessionState.closed)
      × IsCounted failure w.registry w'.registry
      × (find_session w' (w.sessions p).owner_session_id ≡ none)
unfolding refuse condemn
refuse_lem e w p failure unique =
    let w3 = condemn e w p failure in
    let id = (w3.sessions p).owner_session_id in
    let (sessions, same) = unregister_session_keeps w3 id in
    let counted = same ∙ condemn-IsCounted e w p failure in
    let gone = find_session-unregister_session w3 id (condemn-HasUniqueIds e w p failure unique) in
    (
      ap (λ g. (g p).state) sessions ∙ condemn_state e w p failure,
      counted,
      ap (find_session (unregister_session w3 id)) (sym (condemn_ids e w p p failure)) ∙ gone,
    )
