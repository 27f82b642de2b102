-- ===== src/Common/MpscQueue/Overlap/Produce.antt =====
-- Every step of a producer keeps the invariant of the overlapping calls, a `fetch_sub` if it takes
-- back the ticket that was given out last.
use native.Mathlib.Decide.{ℕ_discrete}
use mmorpg_server.Base.{
  ℕ, arith, ◌+◌, ◌<◌, ◌^◌, ◌≡◌, inl, inr, update_self, update-ne, ◌∙◌, slice_ext, update, ap, sym,
  ◌≢◌, true, Bool-cases, ◌%◌, leb, sub64, refl,
}
use mmorpg_server.Common.MpscQueue.Overlap.{
  System, Producer, idle, pushing, Stage, reserved, admitted, refused, written, reserve, check_room,
  write_item,
}
use mmorpg_server.Common.MpscQueue.Overlap.Invariant.{
  has_room, is_written, Inv, InPlace-map, slot-ne, InPlace, InPlace-update, Holds-of, moved,
}

has_room-written : (stage : Stage) → is_written stage ≡ true → has_room stage ≡ true
has_room-written written h = refl
has_room-written reserved h = cc
has_room-written admitted h = cc
has_room-written refused h = cc

module _ {ℓ} {A : Type ℓ} {capacity : ℕ} where
  reserve-InPlace :
      (n p : ℕ) (item : A) (s : System A capacity)
      → Inv n s
      → n + 1 < 2 ^ 64
      → (r : ℕ) → InPlace (reserve p item s) r ((reserve p item s).producers r)
  unfolding reserve
  reserve-InPlace n p item s inv small =
      InPlace-update s (reserve p item s) p (pushing reserved s.queue.tail item) inv.holds
        (record {
          given = omega (arith, inv.counted);
          pending = inv.ordered;
          unread = λ c. (inv.cleared_unset c).1;
          owned = update_self s.owners s.queue.tail p;
          logged = update_self s.log s.queue.tail item;
          unset = inv.vacant s.queue.tail (omega arith);
          room = λ e. cc;
          stored = λ e. cc;
        })
        (λ r stage t x other e h. record {
          given = ground (arith, h.given, inv.counted);
          pending = h.pending;
          unread = h.unread;
          owned = ground (arith, h.given, h.owned);
          logged = update-ne s.log s.queue.tail t item (omega (arith, h.given)) ∙ h.logged;
          unset = h.unset;
          room = h.room;
          stored = h.stored;
        })

  pub reserve-Inv :
      (n p : ℕ) (item : A) (s : System A capacity)
      → Inv n s
      → n + 1 < 2 ^ 64
      → s.producers p ≡ idle
      → Inv (n + 1) (reserve p item s)
  unfolding reserve
  reserve-Inv n p item s inv small out = record {
    positive = inv.positive;
    ordered = omega (arith, inv.ordered, inv.counted);
    counted = omega (arith, inv.counted);
    holds = reserve-InPlace n p item s inv small;
    vacant = λ t lo hi. inv.vacant t (omega (arith, inv.counted)) hi;
    filled = λ t lo lt hi set.
        let old : s.queue.tail ≢ t =
          λ same. ground (arith, inv.vacant t (omega (arith, same)) hi, set) in
        inv.filled t lo (omega (arith, lt, old, inv.counted)) hi set
        ∙ sym (update-ne s.log s.queue.tail t item old);
    accounted = λ t lo hi. elim (ℕ_discrete s.queue.tail t) [
      | yes new ↦ inr (inl (reserved, item, in_place t new))
      | no old ↦ elim (inv.accounted t lo (omega (arith, inv.counted))) [
        | inl set ↦ inl set
        | inr (inl (stage, x, e)) ↦ inr (inl (stage, x, still t stage x old e))
        | inr (inr last) ↦ inr (inr last)
      ]
    ];
    found_set = inv.found_set;
    cleared_unset =
        λ c. ((inv.cleared_unset c).0, omega (arith, (inv.cleared_unset c).1, inv.counted));
    carried = λ x e.
        let lt = (inv.carried x e).1 in
        (
          update-ne s.log s.queue.tail s.queue.head item (omega (arith, lt)) ∙ (inv.carried x e).0,
          omega (arith, lt, inv.counted),
        );
    delivered =
        inv.delivered
        ∙ slice_ext s.log _ 0 0 s.queue.head (λ k lt.
          sym (update-ne s.log s.queue.tail (0 + k) item (omega (arith, lt, inv.ordered))));
  }
    where
      place : ℕ → Producer A
      place = update s.producers p (pushing reserved s.queue.tail item)

      owners : ℕ → ℕ
      owners = update s.owners s.queue.tail p

      in_place : (t : ℕ) → s.queue.tail ≡ t → place (owners t) ≡ pushing reserved t item
      in_place t new =
          ap (λ u. place (owners u)) (sym new)
          ∙ ap place (update_self s.owners s.queue.tail p)
          ∙ update_self s.producers p (pushing reserved s.queue.tail item)
          ∙ ap (λ u. pushing reserved u item) new

      still :
          (t : ℕ) (stage : Stage) (x : A)
          → s.queue.tail ≢ t
          → s.producers (s.owners t) ≡ pushing stage t x
          → place (owners t) ≡ pushing stage t x
      still t stage x old e =
          ap place (update-ne s.owners s.queue.tail t p old)
          ∙ update-ne s.producers p (s.owners t) _ (λ same. cc)
          ∙ e

  -- A thread may go on from one place of its call to another when what the new place knows is true.
  relocate-Inv :
      (n p : ℕ) (a b : Stage) (t : ℕ) (x : A) (s : System A capacity)
      → Inv n s
      → s.producers p ≡ pushing a t x
      → (has_room b ≡ true → t < s.queue.head + capacity)
      → (is_written b ≡ true → s.queue.buffer (t % capacity) ≡ x)
      → Inv n (record s { producers = update s.producers p (pushing b t x) })
  relocate-Inv n p a b t x s inv e room stored =
      let h = Holds-of s p a t x (inv.holds p) e in
      record {
        positive = inv.positive;
        ordered = inv.ordered;
        counted = inv.counted;
        holds =
            InPlace-update s _ p (pushing b t x) inv.holds
              (record {
                given = h.given;
                pending = h.pending;
                unread = h.unread;
                owned = h.owned;
                logged = h.logged;
                unset = h.unset;
                room = room;
                stored = stored;
              })
              (λ r stage u y other q k. record {
                given = k.given;
                pending = k.pending;
                unread = k.unread;
                owned = k.owned;
                logged = k.logged;
                unset = k.unset;
                room = k.room;
                stored = k.stored;
              });
        vacant = inv.vacant;
        filled = inv.filled;
        accounted = λ u lo hi. elim (inv.accounted u lo hi) [
          | inl set ↦ inl set
          | inr (inl (stage, y, q)) ↦ inr (inl (moved s.producers p _ a b stage t u x y e q))
          | inr (inr last) ↦ inr (inr last)
        ];
        found_set = inv.found_set;
        cleared_unset = inv.cleared_unset;
        carried = inv.carried;
        delivered = inv.delivered;
      }

  pub check_room-Inv :
      (n p t : ℕ) (x : A) (s : System A capacity)
      → Inv n s
      → n < 2 ^ 64
      → s.producers p ≡ pushing reserved t x
      → Inv n (check_room p t x s)
  unfolding check_room
  check_room-Inv n p t x s inv small e =
      let h = Holds-of s p reserved t x (inv.holds p) e in
      elim (Bool-cases (leb capacity (sub64 t s.queue.head))) [
        | inl full ↦ rw full (relocate-Inv n p reserved refused t x s inv e (λ q. cc) (λ q. cc))
        | inr free ↦ rw free (
            relocate-Inv n p reserved admitted t x s inv e
              (λ q. ground (arith, free, h.pending, h.given, inv.counted)) (λ q. cc))
      ]

  write-InPlace :
      (n p t : ℕ) (x : A) (s : System A capacity)
      → Inv n s
      → s.producers p ≡ pushing admitted t x
      → (r : ℕ)
      → InPlace
          (record s { queue = record s.queue { buffer = update s.queue.buffer (t % capacity) x } })
          r
          (s.producers r)
  write-InPlace n p t x s inv e r =
      let h = Holds-of s p admitted t x (inv.holds p) e in
      InPlace-map s _ r (s.producers r) (inv.holds r) (λ stage u y q k. record {
        given = k.given;
        pending = k.pending;
        unread = k.unread;
        owned = k.owned;
        logged = k.logged;
        unset = k.unset;
        room = k.room;
        stored = λ w.
            let apart : p ≢ r = λ same.
              let v : pushing admitted t x ≡ pushing stage u y = sym e ∙ ap s.producers same ∙ q in
              let stay : stage ≡ admitted = cc in ground (arith, w, stay) in
            let ne =
              slot-ne s p r admitted stage t u x y h k apart (h.room refl)
                (k.room (has_room-written stage w)) in
            update-ne s.queue.buffer (t % capacity) (u % capacity) x ne ∙ k.stored w;
      })

  pub write_item-Inv :
      (n p t : ℕ) (x : A) (s : System A capacity)
      → Inv n s
      → s.producers p ≡ pushing admitted t x
      → Inv n (write_item p t x s)
  unfolding write_item
  write_item-Inv n p t x s inv e =
      let h = Holds-of s p admitted t x (inv.holds p) e in
      relocate-Inv n p admitted written t x
        (record s { queue = record s.queue { buffer = update s.queue.buffer (t % capacity) x } })
        (record {
          positive = inv.positive;
          ordered = inv.ordered;
          counted = inv.counted;
          holds = write-InPlace n p t x s inv e;
          vacant = inv.vacant;
          filled = λ u lo lt hi set.
              let ne : t % capacity ≢ u % capacity =
                λ same. ground (arith, h.unset (h.room refl), ap s.queue.slots same, set) in
              update-ne s.queue.buffer (t % capacity) (u % capacity) x ne
              ∙ inv.filled u lo lt hi set;
          accounted = inv.accounted;
          found_set = inv.found_set;
          cleared_unset = inv.cleared_unset;
          carried = inv.carried;
          delivered = inv.delivered;
        })
        e (λ q. h.room refl) (λ q. update_self s.queue.buffer (t % capacity) x)
