-- ===== src/Threading/LocalThread/SamePool.antt =====
-- The packets that CLocalThread handles leave its session pool alone.
use mmorpg_server.Base.{
  ℕ, none, some, arith, ◌≡◌, ap, ◌∙◌, Option, Bool-cases, Option-cases, ltb, ◌*◌, ◌==◌, refl, inl,
  ◌+◌, sym, inr, Bool, suc, add64, zero,
}
use mmorpg_server.Common.Types.{max_sessions_per_thread}
use mmorpg_server.Common.Protocol.{pkt_move, pkt_login_req, login_packet_size}
use mmorpg_server.Common.MpscQueue as Queue
use mmorpg_server.Network.World.{World, Env}
use mmorpg_server.Network.Session as SessionModule
use mmorpg_server.Threading.LocalThread.{
  LocalThread, Command, post_remove_session, post_command, command_queue_capacity,
}
use mmorpg_server.Threading.LocalThread.Messages.{
  handle_broadcast, answer_login, handle_login, handle_packet,
}
use mmorpg_server.Threading.LocalThread.Ticks.{process_session_packets}
use mmorpg_server.Threading.LocalThread.Pool.{IsValid}

-- What two states of a thread have in common when only messages have been handled.
pub record SamePool (t u : LocalThread) : Type 0 where
  pub same_owner : u.owner_thread_id ≡ t.owner_thread_id
  pub same_used : u.session_used ≡ t.session_used
  pub same_count : u.session_count ≡ t.session_count
  pub same_active : u.active_sessions ≡ t.active_sessions
  pub same_active_count : u.active_session_count ≡ t.active_session_count

pub SamePool-IsValid : {t u : LocalThread} → SamePool t u → IsValid t → IsValid u
SamePool-IsValid {t} {u} s v = record {
  held = λ i lt.
      let h = v.held i (omega (arith, lt, s.same_active_count)) in
      record {
        index = h.index;
        within = h.within;
        entry =
            ap (λ f. f i) s.same_active
            ∙ h.entry
            ∙ ap (λ o. some (o * max_sessions_per_thread + h.index)) (sym s.same_owner);
        used = ap (λ f. f h.index) s.same_used ∙ h.used;
      };
  distinct = λ i j li lj same.
      v.distinct i j (omega (arith, li, s.same_active_count))
        (omega (arith, lj, s.same_active_count))
        (sym (ap (λ f. f i) s.same_active) ∙ same ∙ ap (λ f. f j) s.same_active);
  same_count = s.same_count ∙ v.same_count ∙ sym s.same_active_count;
  bounded = omega (arith, s.same_count, v.bounded);
}

pub same_refl : {t : LocalThread} → SamePool t t
same_refl = record {
  same_owner = refl;
  same_used = refl;
  same_count = refl;
  same_active = refl;
  same_active_count = refl;
}

same_trans : {t u v : LocalThread} → SamePool t u → SamePool u v → SamePool t v
same_trans a b = record {
  same_owner = b.same_owner ∙ a.same_owner;
  same_used = b.same_used ∙ a.same_used;
  same_count = b.same_count ∙ a.same_count;
  same_active = b.same_active ∙ a.same_active;
  same_active_count = b.same_active_count ∙ a.same_active_count;
}

pub broadcast-SamePool :
    (rand : ℕ → ℕ) (e : Env) (t : LocalThread) (w : World) (map_id : ℕ) (packet : Option ℕ)
    (exclude : ℕ)
    → SamePool t (handle_broadcast rand e t w map_id packet exclude).0
unfolding handle_broadcast
broadcast-SamePool rand e t w map_id none exclude = same_refl
broadcast-SamePool rand e t w map_id (some packet) exclude =
    elim (Bool-cases (t.active_session_count == 0)) [
      | inl alone ↦ rw (handle_broadcast, alone) same_refl
      | inr others ↦
          rw (handle_broadcast, others)
            (record {
              same_owner = refl;
              same_used = refl;
              same_count = refl;
              same_active = refl;
              same_active_count = refl;
            })
    ]

answer-SamePool :
    (e : Env) (t : LocalThread) (w : World) (p : ℕ) (old : Option ℕ) (usn : ℕ)
    → SamePool t (answer_login e t w p old usn).0
unfolding answer_login post_remove_session post_command
answer-SamePool e t w p none usn = same_refl
answer-SamePool e t w p (some old) usn = elim (Option-cases (w.sessions p).socket) [
  | inl lost ↦ rw (answer_login, lost) same_refl
  | inr (s, bound) ↦
      rw (answer_login, bound)
        (record {
          same_owner = refl;
          same_used = refl;
          same_count = refl;
          same_active = refl;
          same_active_count = refl;
        })
]

login-SamePool :
    (e : Env) (t : LocalThread) (w : World) (p packet : ℕ)
    → SamePool t (handle_login e t w p packet).0
unfolding handle_login
login-SamePool e t w p packet =
    elim (Bool-cases (ltb (w.pool.buffers packet).size login_packet_size)) [
      | inl short ↦ rw (handle_login, short) same_refl
      | inr long ↦ rw (handle_login, long) (answer-SamePool e t _ p _ _)
    ]

packet-SamePool :
    (rand : ℕ → ℕ) (e : Env) (t : LocalThread) (w : World) (p packet : ℕ)
    → SamePool t (handle_packet rand e t w p packet).0
unfolding handle_packet
packet-SamePool rand e t w p packet =
    let id = (w.pool.buffers packet).protocol_id in
    elim (Bool-cases (id == pkt_move)) [
      | inl move ↦ rw (handle_packet, move) (broadcast-SamePool rand e t w _ (some packet) _)
      | inr other ↦ elim (Bool-cases (id == pkt_login_req)) [
        | inl login ↦ rw (handle_packet, other, login) (login-SamePool e t w p packet)
        | inr unknown ↦ rw (handle_packet, other, unknown) same_refl
      ]
    ]

-- The count of packets and the command queue are no part of the pool.
pub other_fields :
    (t : LocalThread) (running : Bool) (processed : ℕ)
    (queue : Queue.MpscQueue Command command_queue_capacity)
    → SamePool t
        (record t { is_running = running; packets_processed = processed; command_queue = queue })
other_fields t running processed queue = record {
  same_owner = refl;
  same_used = refl;
  same_count = refl;
  same_active = refl;
  same_active_count = refl;
}

pub packets-SamePool :
    (rounds : ℕ) (rand : ℕ → ℕ) (e : Env) (t : LocalThread) (w : World) (p : ℕ)
    → SamePool t (process_session_packets rounds rand e t w p).0
unfolding process_session_packets
packets-SamePool zero rand e t w p = same_refl
packets-SamePool (suc rounds) rand e t w p =
    let (out, w') = SessionModule.pop_incoming_packet w p in
    elim (Option-cases (SessionModule.pop_incoming_packet w p).0) [
      | inl empty ↦ rw (process_session_packets, empty) same_refl
      | inr (packet, full) ↦
          let (t', w'') = handle_packet rand e t w' p packet in
          let counted = record t' { packets_processed = add64 t'.packets_processed 1 } in
          rw (process_session_packets, full)
            (same_trans (packet-SamePool rand e t w' p packet) (
              same_trans
                (other_fields t' t'.is_running (add64 t'.packets_processed 1) t'.command_queue)
                (packets-SamePool rounds rand e counted w'' p)))
    ]
