-- ===== src/Common/MpscQueue/Overlap/Steps.antt =====
-- Every step of overlapping calls keeps the invariant, as long as a `fetch_sub` takes back the ticket
-- that was given out last.
use mmorpg_server.Base.{
  [], ℕ, arith, ◌<◌, List, ◌+◌, ◌^◌, length, refl, ◌≡◌, true, subst, ◌∷◌, Bool, suc, ◌&&◌, false,
}
use mmorpg_server.Common.MpscQueue.{new_mpsc_queue}
use mmorpg_server.Common.MpscQueue.Overlap.{
  System, Producer, idle, pushing, reserved, admitted, refused, written, Consumer, ready, found,
  taken, cleared, Event, produces, consumes, start, run, step, is_orderly, rolls_back_latest,
  produce_in, consume_in, rolls_back_latest_in,
}
use mmorpg_server.Common.MpscQueue.Overlap.Invariant.{Inv}
use mmorpg_server.Common.MpscQueue.Overlap.Produce.{reserve-Inv, check_room-Inv, write_item-Inv}
use mmorpg_server.Common.MpscQueue.Overlap.Finish.{publish-Inv, roll_back-Inv}
use mmorpg_server.Common.MpscQueue.Overlap.Consume.{
  find_item-Inv, take_item-Inv, clear_slot-Inv, advance_head-Inv,
}

both_true : (a b : Bool) → (a && b) ≡ true → (a ≡ true) × (b ≡ true)
both_true true true h = (refl, refl)
both_true true false h = cc
both_true false b h = cc

module _ {ℓ} {A : Type ℓ} {capacity : ℕ} where
  Inv-grow : (n : ℕ) (s : System A capacity) → Inv n s → Inv (n + 1) s
  Inv-grow n s inv = record {
    positive = inv.positive;
    ordered = inv.ordered;
    counted = omega (arith, inv.counted);
    holds = inv.holds;
    vacant = inv.vacant;
    filled = inv.filled;
    accounted = inv.accounted;
    found_set = inv.found_set;
    cleared_unset = inv.cleared_unset;
    carried = inv.carried;
    delivered = inv.delivered;
  }

  produce_in-Inv :
      (n p : ℕ) (item : A) (w : Producer A) (s : System A capacity)
      → Inv n s
      → n + 1 < 2 ^ 64
      → s.producers p ≡ w
      → rolls_back_latest_in w s ≡ true
      → Inv (n + 1) (produce_in p item w s)
  unfolding produce_in rolls_back_latest_in
  produce_in-Inv n p item idle s inv small e latest = reserve-Inv n p item s inv small e
  produce_in-Inv n p item (pushing reserved t x) s inv small e latest =
      Inv-grow n _ (check_room-Inv n p t x s inv (omega arith) e)
  produce_in-Inv n p item (pushing admitted t x) s inv small e latest =
      Inv-grow n _ (write_item-Inv n p t x s inv e)
  produce_in-Inv n p item (pushing refused t x) s inv small e latest =
      Inv-grow n _ (roll_back-Inv n p t x s inv (omega arith) e (ground (arith, latest)))
  produce_in-Inv n p item (pushing written t x) s inv small e latest =
      Inv-grow n _ (publish-Inv n p t x s inv e)

  consume_in-Inv :
      (n : ℕ) (c : Consumer A) (s : System A capacity)
      → Inv n s
      → n < 2 ^ 64
      → s.consumer ≡ c
      → Inv n (consume_in c s)
  unfolding consume_in
  consume_in-Inv n ready s inv small e = find_item-Inv n s inv e
  consume_in-Inv n found s inv small e = take_item-Inv n s inv e
  consume_in-Inv n (taken x) s inv small e = clear_slot-Inv n x s inv e
  consume_in-Inv n (cleared x) s inv small e = advance_head-Inv n x s inv small e

  step-Inv :
      (n : ℕ) (e : Event A) (s : System A capacity)
      → Inv n s
      → n + 1 < 2 ^ 64
      → rolls_back_latest e s ≡ true
      → Inv (n + 1) (step e s)
  unfolding step rolls_back_latest
  step-Inv n (produces p item) s inv small latest =
      produce_in-Inv n p item (s.producers p) s inv small refl latest
  step-Inv n consumes s inv small latest =
      Inv-grow n _ (consume_in-Inv n s.consumer s inv (omega arith) refl)

  pub run-Inv :
      (n : ℕ) (events : List (Event A)) (s : System A capacity)
      → Inv n s
      → n + length events < 2 ^ 64
      → is_orderly events s ≡ true
      → Inv (n + length events) (run events s)
  unfolding run is_orderly
  run-Inv n [] s inv small orderly = subst (λ m. Inv m s) (omega arith) inv
  run-Inv n (e ∷ events) s inv small orderly =
      let both = both_true (rolls_back_latest e s) (is_orderly events (step e s)) orderly in
      let k : n + 1 + length events ≡ n + suc (length events) = omega arith in
      subst (λ m. Inv m (run events (step e s))) k
        (run-Inv (n + 1) events (step e s) (step-Inv n e s inv (omega arith) both.0) (omega arith)
          both.1)

  pub start-Inv : (empty : A) → 0 < capacity → Inv 0 (start capacity empty)
  unfolding start new_mpsc_queue
  start-Inv empty positive = record {
    positive = positive;
    ordered = omega arith;
    counted = omega arith;
    holds = λ p. record { lower = tt };
    vacant = λ t lo hi. refl;
    filled = λ t lo lt hi set. absurd (omega (arith, lt));
    accounted = λ t lo lt. absurd (omega (arith, lt));
    found_set = λ no. cc;
    cleared_unset = λ no. cc;
    carried = λ x no. cc;
    delivered = refl;
  }
