-- ===== src/Threading/LocalThread/Removal.antt =====
-- `RemoveSession` of CLocalThread keeps the session pool in order.
use mmorpg_server.Base.{
  ℕ, some, arith, update, ◌≡◌, if◌then◌else◌, false, ◌==◌, ◌+◌, sub64, ◌<◌, ◌^◌, ◌∙◌, ap, true, ◌⊎◌,
  Bool-cases, inr, inl, sym, Option-cases, ◌*◌, leb, ◌-◌, lt→ltb, update_self, refl,
}
use mmorpg_server.Common.Types.{max_sessions_per_thread}
use mmorpg_server.Network.World.{World, Env}
use mmorpg_server.Network.Registry.{unregister_session}
use mmorpg_server.Threading.LocalThread.{
  LocalThread, pooled, free_session, find_active, replace_by_last, remove_session, discard_socket,
}
use mmorpg_server.Threading.LocalThread.Pool.{IsValid, Holds, find_active-some}

-- The thread after the active session at `i`, session `k` of the pool, has been given back.
dropped : LocalThread → ℕ → ℕ → LocalThread
dropped t i k =
    replace_by_last
      (record t {
        session_used = update t.session_used k false;
        session_count = sub64 t.session_count 1;
      })
      i

-- Where the active session at `j` stood before the last one went to `i`.
abbrev source : ℕ → ℕ → ℕ → ℕ
source i last j = if i == j then last else j

dropped_entry :
    (t : LocalThread) (i k last j : ℕ)
    → t.active_session_count ≡ last + 1
    → last < 2 ^ 63
    → j < last
    → (dropped t i k).active_sessions j ≡ t.active_sessions (source i last j)
unfolding dropped replace_by_last
dropped_entry t i k last j count small below =
    let place : sub64 t.active_session_count 1 ≡ last = omega (arith, count, small) in
    let other : (last == j) ≡ false = ground (arith, below) in rw place (rw other (ground arith))

dropped-IsValid :
    (t : LocalThread) (i k last : ℕ)
    → IsValid t
    → t.active_session_count ≡ last + 1
    → i < t.active_session_count
    → k < max_sessions_per_thread
    → t.active_sessions i ≡ some (pooled t k)
    → IsValid (dropped t i k)
unfolding dropped replace_by_last
dropped-IsValid t i k last v count here within entry = record {
  held = λ j lt.
      let below = before_last j lt in
      let h = v.held (source i last j) (source_within j below) in
      record {
        index = h.index;
        within = h.within;
        entry = dropped_entry t i k last j count small below ∙ h.entry;
        used = still_used j below h;
      };
  distinct = λ j l lj ll same.
      let bj = before_last j lj in
      let bl = before_last l ll in
      let at_source =
        v.distinct (source i last j) (source i last l) (source_within j bj) (source_within l bl) (
          sym (dropped_entry t i k last j count small bj)
          ∙ same
          ∙ dropped_entry t i k last l count small bl) in
      ground (arith, bj, bl, at_source);
  same_count = ap (λ c. sub64 c 1) v.same_count;
  bounded = omega (arith, v.same_count, count, v.bounded);
}
  where
    small : last < 2 ^ 63
    small = omega (arith, v.same_count, count, v.bounded)

    before_last : (j : ℕ) → j < (dropped t i k).active_session_count → j < last
    before_last j lt = omega (arith, lt, count, small)

    source_within : (j : ℕ) → j < last → source i last j < t.active_session_count
    source_within j below = ground (arith, below, count)

    still_used :
        (j : ℕ)
        → j < last
        → (h : Holds t (source i last j)) → (dropped t i k).session_used h.index ≡ true
    still_used j below h = elim (Bool-cases (k == h.index)) [
      | inr other ↦ rw other h.used
      | inl gone ↦
          let equal : h.index ≡ k = ground (arith, gone) in
          let same =
            v.distinct (source i last j) i (source_within j below) here
              (h.entry ∙ ap (λ x. some (pooled t x)) equal ∙ sym entry) in
          absurd (ground (arith, same, below, here, count))
    ]

free_session-pooled :
    (e : Env) (t : LocalThread) (w : World) (k : ℕ)
    → k < max_sessions_per_thread
    → (free_session e t w (pooled t k)).0 ≡ record t {
      session_used = update t.session_used k false;
      session_count = sub64 t.session_count 1;
    }
unfolding free_session
free_session-pooled e t w k within =
    let first = t.owner_thread_id * max_sessions_per_thread in
    let low : leb first (pooled t k) ≡ true = ground arith in
    let index : pooled t k - first ≡ k = omega arith in
    rw (free_session, low, index, lt→ltb k max_sessions_per_thread within) refl

-- `RemoveSession` keeps the invariant of the session pool. It either leaves the thread as it
-- was, or gives back one session of the pool that was in use, and counts one less.
pub remove_session-IsValid :
    (e : Env) (t : LocalThread) (w : World) (session_id : ℕ)
    → IsValid t
    → let (t', w') = remove_session e t w session_id in
      IsValid t'
      × ((t' ≡ t)
          ⊎ ((k : ℕ) × (t.session_used k ≡ true)
              × (t'.session_used k ≡ false)
              × (t'.session_count + 1 ≡ t.session_count)))
unfolding remove_session dropped replace_by_last
remove_session-IsValid e t w session_id v =
    elim (Option-cases (find_active t w session_id 0 t.active_session_count)) [
      | inl missed ↦ rw (remove_session, missed) (v, inl refl)
      | inr ((i, p), hit) ↦
          let (here, entry) = find_active-some t w session_id 0 t.active_session_count i p hit in
          let h = v.held i (omega (arith, here)) in
          let pool_entry : p ≡ pooled t h.index = ground (arith, sym entry ∙ h.entry) in
          let w' = discard_socket e (unregister_session w session_id) p in
          let freed =
            ap (λ q. (free_session e t w' q).0) pool_entry
            ∙ free_session-pooled e t w' h.index h.within in
          let result : (remove_session e t w session_id).0 ≡ dropped t i h.index =
            rw (remove_session, hit) (ap (λ u. replace_by_last u i) freed) in
          rw result (
            dropped-IsValid t i h.index (t.active_session_count - 1) v (omega (arith, here))
                (omega (arith, here)) h.within h.entry,
            inr (
              h.index,
              h.used,
              update_self t.session_used h.index false,
              omega (arith, here, v.same_count, v.bounded),
            ),
          )
    ]
