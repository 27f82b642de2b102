-- ===== src/Tests/Overlap.antt =====
-- Overlapping calls of the MPSCQueue of Source/Core/Common/LockFreeQueue.h at concrete inputs.
use mmorpg_server.Base.{
  [], ℕ, arith, List, ◌≡◌, ◌∷◌, ◌++◌, true, refl, false, ◌+◌, ◌%◌, ◌≢◌, slice, map, ◌≤◌, ◌<◌, ◌^◌,
}
use mmorpg_server.Common.Fifo.{puts, takes, replies}
use mmorpg_server.Common.MpscQueue.{new_mpsc_queue}
use mmorpg_server.Common.MpscQueue.Refine.{IsValid, contents, implementation}
use mmorpg_server.Common.MpscQueue.Overlap.{
  System, idle, pushing, reserved, admitted, ready, Event, produces, consumes, start, run,
  is_orderly, step, produce_in, consume_in, reserve, check_room, write_item, publish, roll_back,
  find_item, take_item, clear_slot, advance_head, rolls_back_latest, rolls_back_latest_in,
}
use mmorpg_server.Common.MpscQueue.Overlap.Safety.{
  overlap-exclusive, overlap-keeps, replies-stuck, refusal,
}

-- The thread 1 takes the first ticket, the thread 2 publishes the second one before it.
abbrev crossing : List (Event ℕ)
crossing =
    produces 1 7 ∷ produces 2 8 ∷ produces 2 8 ∷ produces 1 7 ∷ produces 2 8 ∷ produces 2 8 ∷ []

-- The thread 1 goes on to publish its ticket, and one item is popped.
abbrev crossed : List (Event ℕ)
crossed = crossing ++ produces 1 7 ∷ produces 1 7 ∷ consumes ∷ consumes ∷ consumes ∷ consumes ∷ []

-- A call of the thread `p` that is not refused and that nothing comes between
abbrev whole_push : ℕ → ℕ → List (Event ℕ)
whole_push p item = produces p item ∷ produces p item ∷ produces p item ∷ produces p item ∷ []

abbrev whole_pop : List (Event ℕ)
whole_pop = consumes ∷ consumes ∷ consumes ∷ consumes ∷ []

-- On a full queue of two places the thread 1 is refused; before its `fetch_sub` the queue is emptied
-- and the thread 2 takes the next ticket. The thread 3 is given that ticket again.
abbrev disorderly : List (Event ℕ)
disorderly =
    whole_push 1 10
    ++ whole_push 1 11
    ++ (produces 1 12 ∷ produces 1 12 ∷ [])
    ++ whole_pop
    ++ whole_pop
    ++ (produces 2 13 ∷ produces 2 13 ∷ produces 1 12 ∷ produces 2 13 ∷ produces 2 13 ∷ [])
    ++ whole_push 3 14

abbrev after : List (Event ℕ) → System ℕ 2
after events = run events (start 2 0)

crossing_orderly : is_orderly crossing (start 2 0) ≡ true
unfolding run start new_mpsc_queue is_orderly step produce_in consume_in reserve check_room
    write_item publish roll_back find_item take_item clear_slot advance_head rolls_back_latest
    rolls_back_latest_in
crossing_orderly = refl

crossing_first : (after crossing).producers 1 ≡ pushing admitted 0 7
unfolding run start new_mpsc_queue is_orderly step produce_in consume_in reserve check_room
    write_item publish roll_back find_item take_item clear_slot advance_head rolls_back_latest
    rolls_back_latest_in
crossing_first = refl

crossed_orderly : is_orderly crossed (start 2 0) ≡ true
unfolding run start new_mpsc_queue is_orderly step produce_in consume_in reserve check_room
    write_item publish roll_back find_item take_item clear_slot advance_head rolls_back_latest
    rolls_back_latest_in
crossed_orderly = refl

-- The items 13 and 14 were both accepted, and the flag of the oldest ticket is not set.
disorderly_result :
    ((after disorderly).popped ≡ 10 ∷ 11 ∷ [])
    × ((after disorderly).queue.head ≡ 2)
    × ((after disorderly).queue.tail ≡ 4)
    × ((after disorderly).queue.slots 0 ≡ false)
    × ((after disorderly).queue.buffer 1 ≡ 14)
    × (is_orderly disorderly (start 2 0) ≡ false)
unfolding run start new_mpsc_queue is_orderly step produce_in consume_in reserve check_room
    write_item publish roll_back find_item take_item clear_slot advance_head rolls_back_latest
    rolls_back_latest_in
disorderly_result = (refl, refl, refl, refl, refl, refl)

crossing_second : (after (crossing ++ produces 3 9 ∷ [])).producers 3 ≡ pushing reserved 2 9
unfolding run start new_mpsc_queue is_orderly step produce_in consume_in reserve check_room
    write_item publish roll_back find_item take_item clear_slot advance_head rolls_back_latest
    rolls_back_latest_in
crossing_second = refl

abbrev crossing_third : List (Event ℕ)
crossing_third = crossing ++ produces 3 9 ∷ []

third_orderly : is_orderly crossing_third (start 2 0) ≡ true
unfolding run start new_mpsc_queue is_orderly step produce_in consume_in reserve check_room
    write_item publish roll_back find_item take_item clear_slot advance_head rolls_back_latest
    rolls_back_latest_in
third_orderly = refl

third_first : (after crossing_third).producers 1 ≡ pushing admitted 0 7
unfolding run start new_mpsc_queue is_orderly step produce_in consume_in reserve check_room
    write_item publish roll_back find_item take_item clear_slot advance_head rolls_back_latest
    rolls_back_latest_in
third_first = refl

crossed-idle : (p : ℕ) → (after crossed).producers p ≡ idle
unfolding run start new_mpsc_queue is_orderly step produce_in consume_in reserve check_room
    write_item publish roll_back find_item take_item clear_slot advance_head rolls_back_latest
    rolls_back_latest_in
crossed-idle p = ground arith

crossed_ready : (after crossed).consumer ≡ ready
unfolding run start new_mpsc_queue is_orderly step produce_in consume_in reserve check_room
    write_item publish roll_back find_item take_item clear_slot advance_head rolls_back_latest
    rolls_back_latest_in
crossed_ready = refl

disorderly_full : (after disorderly).queue.head + 2 ≤ (after disorderly).queue.tail
unfolding run start new_mpsc_queue is_orderly step produce_in consume_in reserve check_room
    write_item publish roll_back find_item take_item clear_slot advance_head rolls_back_latest
    rolls_back_latest_in
disorderly_full = omega arith

disorderly_small : (after disorderly).queue.tail + 1 < 2 ^ 64
unfolding run start new_mpsc_queue is_orderly step produce_in consume_in reserve check_room
    write_item publish roll_back find_item take_item clear_slot advance_head rolls_back_latest
    rolls_back_latest_in
disorderly_small = omega arith

disorderly_unset : (after disorderly).queue.slots ((after disorderly).queue.head % 2) ≡ false
unfolding run start new_mpsc_queue is_orderly step produce_in consume_in reserve check_room
    write_item publish roll_back find_item take_item clear_slot advance_head rolls_back_latest
    rolls_back_latest_in
disorderly_unset = refl

overlap-exclusive_example :
    (◌≢◌ {A = ℕ} 0 2)
    × (true ≡ true
        → ((after crossing_third).queue.slots (0 % 2) ≡ false)
          × (false ≡ true → ◌≢◌ {A = ℕ} (0 % 2) (2 % 2)))
overlap-exclusive_example =
    overlap-exclusive 0 crossing_third (omega arith) (omega arith) third_orderly 1 3 admitted
      reserved 0 2 7 9 (omega arith) third_first crossing_second

overlap-keeps_example :
    IsValid (after crossed).queue
    × ((after crossed).popped ++ contents (after crossed).queue
        ≡ slice (after crossed).log 0 (after crossed).queue.tail)
overlap-keeps_example =
    overlap-keeps 0 crossed (omega arith) (omega arith) crossed_orderly crossed-idle crossed_ready

replies-stuck_example :
    replies implementation (after disorderly).queue (puts 5 ∷ takes ∷ [])
    ≡ map refusal (puts 5 ∷ takes ∷ [])
replies-stuck_example =
    replies-stuck (after disorderly).queue (puts 5 ∷ takes ∷ []) disorderly_full disorderly_small
      disorderly_unset
