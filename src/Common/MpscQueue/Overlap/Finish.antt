-- ===== src/Common/MpscQueue/Overlap/Finish.antt =====
-- The last step of `Push` keeps the invariant of the overlapping calls: the store of the flag, and
-- the `fetch_sub` that takes back the ticket that was given out last.
use mathlib.Core.Logic.{inl, inr}
use native.Mathlib.Decide.{ℕ_discrete}
use mmorpg_server.Base.{
  ℕ, some, arith, ◌≡◌, ◌<◌, true, update-ne, ◌^◌, ◌≢◌, update, ◌⊎◌, ◌%◌, ◌+◌, sym, ◌∙◌, sub64, ap,
  mod-ne, refl,
}
use mmorpg_server.Common.MpscQueue.Overlap.{
  System, Producer, idle, pushing, Stage, refused, written, Consumer, ready, found, taken, cleared,
  publish, roll_back,
}
use mmorpg_server.Common.MpscQueue.Overlap.Invariant.{
  is_cleared, has_found, in_hand, Inv, InPlace-update, slot-ne, ticket-ne, Holds-of,
}

module _ {ℓ} {A : Type ℓ} where
  in_hand-cases :
      (c : Consumer A) (x : A) → in_hand c ≡ some x → (has_found c ≡ true) ⊎ (is_cleared c ≡ true)
  in_hand-cases ready x h = cc
  in_hand-cases found x h = cc
  in_hand-cases (taken y) x h = inl refl
  in_hand-cases (cleared y) x h = inr refl

  -- A thread with another ticket is another thread.
  still :
      (f : ℕ → Producer A) (p o : ℕ) (a stage : Stage) (t u : ℕ) (x y : A)
      → f p ≡ pushing a t x
      → f o ≡ pushing stage u y
      → t ≢ u
      → update f p idle o ≡ pushing stage u y
  still f p o a stage t u x y e h other =
      update-ne f p o idle (λ same.
        let q : pushing a t x ≡ pushing stage u y = sym e ∙ ap f same ∙ h in
        let k : t ≡ u = cc in other k)
      ∙ h

module _ {ℓ} {A : Type ℓ} {capacity : ℕ} where
  pub publish-Inv :
      (n p t : ℕ) (x : A) (s : System A capacity)
      → Inv n s
      → s.producers p ≡ pushing written t x
      → Inv n (publish p t s)
  unfolding publish
  publish-Inv n p t x s inv e =
      let h = Holds-of s p written t x (inv.holds p) e in
      let room = h.room refl in
      record {
        positive = inv.positive;
        ordered = inv.ordered;
        counted = inv.counted;
        holds =
            InPlace-update s _ p idle inv.holds (record { lower = tt })
              (λ r stage u y other q k. record {
                given = k.given;
                pending = k.pending;
                unread = k.unread;
                owned = k.owned;
                logged = k.logged;
                unset = λ lt.
                    update-ne s.queue.slots (t % capacity) (u % capacity) true
                      (slot-ne s p r written stage t u x y h k other room lt)
                    ∙ k.unset lt;
                room = k.room;
                stored = k.stored;
              });
        vacant = λ u lo hi.
            update-ne s.queue.slots (t % capacity) (u % capacity) true
              (mod-ne t u capacity (omega (arith, h.given)) (omega (arith, h.pending)))
            ∙ inv.vacant u lo hi;
        filled = λ u lo lt hi set. elim (ℕ_discrete t u) [
          | yes same ↦
              ap (λ v. s.queue.buffer (v % capacity)) (sym same)
              ∙ h.stored refl
              ∙ sym h.logged
              ∙ ap s.log same
          | no other ↦
              let ne : t % capacity ≢ u % capacity =
                grind (arith, mod-ne t u capacity, mod-ne u t capacity, h.pending, other) in
              inv.filled u lo lt hi
                (sym (update-ne s.queue.slots (t % capacity) (u % capacity) true ne) ∙ set)
        ];
        accounted = λ u lo hi. elim (ℕ_discrete t u) [
          | yes same ↦ inl (omega (arith, room), ground arith)
          | no other ↦ elim (inv.accounted u lo hi) [
            | inl (lt, set) ↦ inl (lt, ground arith)
            | inr (inl (stage, y, q)) ↦
                inr (inl (stage, y, still s.producers p _ written stage t u x y e q other))
            | inr (inr last) ↦ inr (inr last)
          ]
        ];
        found_set = λ c. ground (arith, inv.found_set c);
        cleared_unset = λ c. (
          update-ne s.queue.slots (t % capacity) (s.queue.head % capacity) true
                (λ same. mod-ne s.queue.head t capacity (h.unread c) room (sym same))
              ∙ (inv.cleared_unset c).0,
          (inv.cleared_unset c).1,
        );
        carried = inv.carried;
        delivered = inv.delivered;
      }

  pub roll_back-Inv :
      (n p t : ℕ) (x : A) (s : System A capacity)
      → Inv n s
      → n < 2 ^ 64
      → s.producers p ≡ pushing refused t x
      → s.queue.tail ≡ t + 1
      → Inv n (roll_back p s)
  unfolding roll_back
  roll_back-Inv n p t x s inv small e latest =
      let h = Holds-of s p refused t x (inv.holds p) e in
      let back : sub64 s.queue.tail 1 ≡ t = omega (arith, inv.counted, latest) in
      let unread : has_found s.consumer ≡ true → s.queue.head < t =
        λ c. ground (arith, inv.found_set c, h.unset, h.pending, inv.positive) in
      rw back (record {
        positive = inv.positive;
        ordered = h.pending;
        counted = omega (arith, inv.counted, latest);
        holds =
            InPlace-update s _ p idle inv.holds (record { lower = tt })
              (λ r stage u y other q k. record {
                given =
                    let ne = ticket-ne s p r refused stage t u x y h k other in
                    omega (arith, k.given, latest, ne);
                pending = k.pending;
                unread = k.unread;
                owned = k.owned;
                logged = k.logged;
                unset = k.unset;
                room = k.room;
                stored = k.stored;
              });
        vacant = λ u lo hi. elim (ℕ_discrete t u) [
          | yes same ↦ ground (arith, h.unset (omega arith))
          | no other ↦ inv.vacant u (omega (arith, latest, other, lo)) hi
        ];
        filled = λ u lo lt hi set. inv.filled u lo (omega (arith, latest, lt)) hi set;
        accounted = λ u lo hi. elim (inv.accounted u lo (omega (arith, latest, hi))) [
          | inl set ↦ inl set
          | inr (inl (stage, y, q)) ↦
              inr (
                inl (stage, y, still s.producers p _ refused stage t u x y e q (omega (arith, hi))))
          | inr (inr last) ↦ inr (inr last)
        ];
        found_set = inv.found_set;
        cleared_unset = λ c. ((inv.cleared_unset c).0, h.unread c);
        carried = λ y q. (
          (inv.carried y q).0,
          elim (in_hand-cases s.consumer y q) [ inl c ↦ unread c | inr c ↦ h.unread c ],
        );
        delivered = inv.delivered;
      })
