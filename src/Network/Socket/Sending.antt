-- ===== src/Network/Socket/Sending.antt =====
-- `Send`, `ProcessSendQueue` and `DoWrite` of CSocket.
use mmorpg_server.Base.{
  ℕ, arith, Option, ◌+◌, List, ◌<◌, length, ◌^◌, ◌≡◌, ◌∷◌, ◌&&◌, update_self, ltb, some, true, ap,
  ◌++◌, update, [], ◌∙◌, if◌then◌else◌, false, refl, Bool-cases, inr, inl, leb, ltb→lt, ==_refl,
  sym, drop, ◌≢◌, take, List-cases, ◌==◌, ==_false, suc,
}
use mmorpg_server.Common.Types.{send_batch_size, send_queue_capacity}
use mmorpg_server.Common.Fifo.{put, put-free}
use mmorpg_server.Common.MpscQueue.{push, pop_batch, is_empty}
use mmorpg_server.Common.MpscQueue.Refine.{
  IsValid, contents, push_refines, pop_batch_lem, size-length,
}
use mmorpg_server.Network.Monitor.{get_current_send_queue_limit}
use mmorpg_server.Network.Monitor.Limits.{Reach, limit-lt-capacity}
use mmorpg_server.Network.World.{World, Env, Task, process_send_queue}
use mmorpg_server.Network.Socket.{
  is_connected, close, wake, send, gather, fill_batch, process_send_queue_now,
}
use mmorpg_server.Network.Socket.Closing.{gather_ext, close_idle}

-- What a batch is filled with is what is gathered from it.
pub gather-fill_batch :
    (batch : ℕ → Option ℕ) (i : ℕ) (packets : List ℕ)
    → gather (fill_batch batch i packets) i (length packets) ≡ packets
unfolding gather fill_batch
gather-fill_batch batch i [] = refl
gather-fill_batch batch i (packet ∷ rest) =
    rw (gather, update_self (fill_batch batch (i + 1) rest) i (some packet))
      (ap (λ t. packet ∷ t)
        (gather_ext (update (fill_batch batch (i + 1) rest) i (some packet))
            (fill_batch batch (i + 1) rest) (i + 1) (length rest) (λ j le. ground arith)
          ∙ gather-fill_batch batch (i + 1) rest))

-- A packet is accepted exactly when the socket is connected and its queue is shorter than the
-- monitor's limit. It is then the last of the queue, the socket is sending, and
-- `ProcessSendQueue` was posted if it was not sending before. A refusal is a `Close`, which does
-- nothing to a socket that is not connected. The queue is valid, its index does not wrap, and the
-- monitor's limit is one that occurs.
pub send_lem :
    (e : Env) (w : World) (s packet : ℕ)
    → IsValid (w.sockets s).send_queue
    → (w.sockets s).send_queue.tail + 1 < 2 ^ 64
    → Reach w.monitor
    → let (accepted, w') = send e w s (some packet) in
      let k = w.sockets s in
      let k' = w'.sockets s in
      (accepted ≡ (is_connected k && ltb (length (contents k.send_queue)) w.monitor.current_limit))
      × (accepted ≡ true
          → (contents k'.send_queue ≡ contents k.send_queue ++ packet ∷ [])
            × (k'.is_sending ≡ true)
            × (w'.tasks ≡ (if k.is_sending then w.tasks else w.tasks ++ process_send_queue s ∷ [])))
      × (accepted ≡ false → w' ≡ close e w s)
unfolding send wake put get_current_send_queue_limit
send_lem e w s packet v room reach =
    let k = w.sockets s in
    let (size, _) = size-length k.send_queue v in
    let (pushed, _, _) = push_refines k.send_queue packet v room in
    let small = limit-lt-capacity reach in
    elim (Bool-cases (is_connected k)) [
      | inr idle ↦ rw (send, idle, close_idle e w s idle) (refl, λ h. cc h, λ h. refl)
      | inl live ↦
          elim (Bool-cases (ltb (length (contents k.send_queue)) w.monitor.current_limit)) [
            | inr full ↦
                let over : leb w.monitor.current_limit (length (contents k.send_queue)) ≡ true =
                  ground (arith, full) in
                simp (send, live, size, over, full) (refl, λ h. cc h, λ h. refl)
            | inl free ↦
                let under : leb w.monitor.current_limit (length (contents k.send_queue)) ≡ false =
                  ground (arith, free) in
                let fits = put-free send_queue_capacity (contents k.send_queue) packet (
                  omega (
                    arith,
                    small,
                    ltb→lt (length (contents k.send_queue)) w.monitor.current_limit free,
                  )) in
                let done : (push k.send_queue packet).0 ≡ true = ap (λ r. r.0) (pushed ∙ fits) in
                let entries = ap (λ r. r.1) (pushed ∙ fits) in
                elim (Bool-cases k.is_sending) [
                  | inl busy ↦
                      simp (send, wake, ==_refl s, live, size, under, done, busy)
                        (sym free, λ h. (entries, refl, refl), λ h. cc h)
                  | inr rests ↦
                      simp (send, wake, ==_refl s, live, size, under, done, rests)
                        (sym free, λ h. (entries, refl, refl), λ h. cc h)
                ]
          ]
    ]

-- `ProcessSendQueue` on a connected socket with a valid queue, no stall being simulated, takes
-- up to 32 packets off the queue, in order, and hands exactly these to one asynchronous write;
-- when there are none it stops sending, and starts nothing.
pub process_send_queue_lem :
    (e : Env) (w : World) (s : ℕ)
    → IsValid (w.sockets s).send_queue
    → is_connected (w.sockets s) ≡ true
    → w.network_stall_test ≡ false
    → let k = w.sockets s in
      let w' = process_send_queue_now e w s in
      let k' = w'.sockets s in
      (contents k'.send_queue ≡ drop send_batch_size (contents k.send_queue))
      × (contents k.send_queue ≢ []
          → w'.tasks
            ≡ w.tasks ++ Task.async_write s (take send_batch_size (contents k.send_queue)) ∷ [])
      × (contents k.send_queue ≡ [] → (k'.is_sending ≡ false) × (w'.tasks ≡ w.tasks))
unfolding process_send_queue_now
process_send_queue_lem e w s v live running =
    let k = w.sockets s in
    let (batch, rest, v', _) = pop_batch_lem send_batch_size k.send_queue v in
    let (_, empty) = size-length (pop_batch send_batch_size k.send_queue).1 v' in
    elim (List-cases (contents k.send_queue)) [
      | inl none_left ↦
          let batch' : (pop_batch send_batch_size k.send_queue).0 ≡ [] =
            batch ∙ ap (take send_batch_size) none_left in
          let rest' : contents (pop_batch send_batch_size k.send_queue).1 ≡ [] =
            rest ∙ ap (drop send_batch_size) none_left in
          let empty' : is_empty (pop_batch send_batch_size k.send_queue).1 ≡ true =
            empty ∙ ap (λ xs. length xs == 0) rest' in
          simp (process_send_queue_now, ==_refl s, live, running, batch', empty')
            (rest, λ h. absurd (h none_left), λ h. (refl, refl))
      | inr (packet, others, some_left) ↦
          let packets = (pop_batch send_batch_size k.send_queue).0 in
          let some_packets : (length packets == 0) ≡ false =
            ap (λ xs. length xs == 0) (batch ∙ ap (take send_batch_size) some_left)
            ∙ ==_false (suc (length (take 31 others))) 0 (omega arith) in
          let gathered = gather-fill_batch k.send_batch 0 packets ∙ batch in
          simp (process_send_queue_now, ==_refl s, live, running, some_packets)
            (
              rest,
              λ h. ap (λ xs. w.tasks ++ Task.async_write s xs ∷ []) gathered,
              λ h. absurd (ground (arith, h, some_left)),
            )
    ]
