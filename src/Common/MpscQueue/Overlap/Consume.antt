-- ===== src/Common/MpscQueue/Overlap/Consume.antt =====
-- Every step of `Pop` keeps the invariant of the overlapping calls.
use native.Mathlib.Decide.{ℕ_discrete}
use native.Mathlib.Nat.{add-mod_right}
use mmorpg_server.Base.{
  [], ℕ, some, arith, ◌≡◌, ◌<◌, ◌%◌, false, ap, ◌^◌, true, Bool-cases, sym, inr, add64, ◌+◌, inl,
  ◌∙◌, mod-ne, ap₂, refl, update_self, ◌++◌, ◌∷◌, slice-add, slice,
}
use mmorpg_server.Common.MpscQueue.Overlap.{
  System, Consumer, ready, found, taken, cleared, find_item, take_item, clear_slot, advance_head,
}
use mmorpg_server.Common.MpscQueue.Overlap.Invariant.{
  is_cleared, has_found, in_hand, Inv, InPlace-map,
}

module _ {ℓ} {A : Type ℓ} {capacity : ℕ} where
  -- The consumer may go on to a place in which it has not reset the flag.
  proceed-Inv :
      (n : ℕ) (c : Consumer A) (s : System A capacity)
      → Inv n s
      → is_cleared s.consumer ≡ false
      → is_cleared c ≡ false
      → (has_found c ≡ true → s.queue.slots (s.queue.head % capacity) ≡ true)
      → ((x : A) → in_hand c ≡ some x → (s.log s.queue.head ≡ x) × (s.queue.head < s.queue.tail))
      → Inv n (record s { consumer = c })
  proceed-Inv n c s inv before after set carried = record {
    positive = inv.positive;
    ordered = inv.ordered;
    counted = inv.counted;
    holds = λ r. InPlace-map s _ r (s.producers r) (inv.holds r) (λ stage u y q k. record {
      given = k.given;
      pending = k.pending;
      unread = λ no. cc;
      owned = k.owned;
      logged = k.logged;
      unset = k.unset;
      room = k.room;
      stored = k.stored;
    });
    vacant = inv.vacant;
    filled = inv.filled;
    accounted = λ u lo hi. elim (inv.accounted u lo hi) [
      | inl here ↦ inl here
      | inr (inl there) ↦ inr (inl there)
      | inr (inr (c', last)) ↦ absurd (ground (arith, c', before))
    ];
    found_set = set;
    cleared_unset = λ no. cc;
    carried = carried;
    delivered = inv.delivered;
  }

  pub find_item-Inv :
      (n : ℕ) (s : System A capacity) → Inv n s → s.consumer ≡ ready → Inv n (find_item s)
  unfolding find_item
  find_item-Inv n s inv e =
      let before : is_cleared s.consumer ≡ false = ap is_cleared e in
      elim (Bool-cases (s.queue.slots (s.queue.head % capacity))) [
        | inl set ↦ rw set (proceed-Inv n found s inv before refl (λ h. set) (λ x h. cc))
        | inr unset ↦ rw unset (proceed-Inv n ready s inv before refl (λ h. cc) (λ x h. cc))
      ]

  pub take_item-Inv :
      (n : ℕ) (s : System A capacity) → Inv n s → s.consumer ≡ found → Inv n (take_item s)
  unfolding take_item
  take_item-Inv n s inv e =
      let set = inv.found_set (ap has_found e) in
      let lt : s.queue.head < s.queue.tail =
        ground (arith, set, inv.vacant s.queue.head, inv.ordered, inv.positive) in
      let stored = inv.filled s.queue.head (omega arith) lt (omega (arith, inv.positive)) set in
      proceed-Inv n (taken (s.queue.buffer (s.queue.head % capacity))) s inv (ap is_cleared e) refl
        (λ h. set)
        (λ x h.
          let same : s.queue.buffer (s.queue.head % capacity) ≡ x = cc in (sym stored ∙ same, lt))

  pub clear_slot-Inv :
      (n : ℕ) (item : A) (s : System A capacity)
      → Inv n s
      → s.consumer ≡ taken item
      → Inv n (clear_slot item s)
  unfolding clear_slot
  clear_slot-Inv n item s inv e =
      let set = inv.found_set (ap has_found e) in
      let carried = inv.carried item (ap in_hand e) in
      record {
        positive = inv.positive;
        ordered = inv.ordered;
        counted = inv.counted;
        holds = λ r. InPlace-map s _ r (s.producers r) (inv.holds r) (λ stage u y q k. record {
          given = k.given;
          pending = k.pending;
          unread = λ c. ground (arith, set, k.unset, k.pending, inv.positive);
          owned = k.owned;
          logged = k.logged;
          unset = λ lt. ground (arith, k.unset lt);
          room = k.room;
          stored = k.stored;
        });
        vacant = λ u lo hi. ground (arith, inv.vacant u lo hi);
        filled = λ u lo lt hi still. inv.filled u lo lt hi (ground (arith, still));
        accounted = λ u lo hi. elim (ℕ_discrete u s.queue.head) [
          | yes same ↦ inr (inr (refl, same))
          | no other ↦ elim (inv.accounted u lo hi) [
            | inl (lt, there) ↦
                inl (lt, ground (arith, there, mod-ne s.queue.head u capacity, other))
            | inr (inl there) ↦ inr (inl there)
            | inr (inr (c, last)) ↦ absurd (other last)
          ]
        ];
        found_set = λ no. cc;
        cleared_unset = λ c. (update_self s.queue.slots (s.queue.head % capacity) false, carried.1);
        carried = λ x h. let same : item ≡ x = cc in (carried.0 ∙ same, carried.1);
        delivered = inv.delivered;
      }

  -- The place that the head leaves becomes the last place of the window, and its flag is not set.
  last_place :
      (s : System A capacity) (u : ℕ)
      → s.queue.slots (s.queue.head % capacity) ≡ false
      → u ≡ s.queue.head + capacity
      → s.queue.slots (u % capacity) ≡ false
  last_place s u unset same =
      ap (λ v. s.queue.slots (v % capacity)) same
      ∙ ap s.queue.slots (add-mod_right s.queue.head capacity)
      ∙ unset

  pub advance_head-Inv :
      (n : ℕ) (item : A) (s : System A capacity)
      → Inv n s
      → n < 2 ^ 64
      → s.consumer ≡ cleared item
      → Inv n (advance_head item s)
  unfolding advance_head
  advance_head-Inv n item s inv small e =
      let cleared_at = inv.cleared_unset (ap is_cleared e) in
      let unset = cleared_at.0 in
      let lt = cleared_at.1 in
      let next : add64 s.queue.head 1 ≡ s.queue.head + 1 = omega (arith, lt, inv.counted) in
      let zero_first : s.queue.head ≡ 0 + s.queue.head = omega arith in
      rw next (record {
        positive = inv.positive;
        ordered = omega (arith, lt);
        counted = inv.counted;
        holds = λ r. InPlace-map s _ r (s.producers r) (inv.holds r) (λ stage u y q k. record {
          given = k.given;
          pending = omega (arith, k.unread (ap is_cleared e));
          unread = λ no. cc;
          owned = k.owned;
          logged = k.logged;
          unset = λ hi. ground (arith, k.unset, last_place s u unset);
          room = λ h. omega (arith, k.room h);
          stored = k.stored;
        });
        vacant = λ u lo hi. ground (arith, inv.vacant u lo, last_place s u unset);
        filled = λ u lo lt' hi set.
            let inside : u < s.queue.head + capacity = ground (arith, last_place s u unset, set) in
            inv.filled u (omega (arith, lo)) lt' inside set;
        accounted = λ u lo hi. elim (inv.accounted u (omega (arith, lo)) hi) [
          | inl (lt', there) ↦ inl (omega arith, there)
          | inr (inl there) ↦ inr (inl there)
          | inr (inr (c, last)) ↦ absurd (omega (arith, last, lo))
        ];
        found_set = λ no. cc;
        cleared_unset = λ no. cc;
        carried = λ x no. cc;
        delivered =
            ap₂ (λ xs x. xs ++ x ∷ []) inv.delivered (sym (inv.carried item (ap in_hand e)).0)
            ∙ ap (λ v. slice s.log 0 s.queue.head ++ s.log v ∷ []) zero_first
            ∙ sym (slice-add s.log 0 s.queue.head 1);
      })
