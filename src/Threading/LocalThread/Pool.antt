-- ===== src/Threading/LocalThread/Pool.antt =====
-- The session pool of CLocalThread: the sessions in use are those in the array of active sessions.
use mmorpg_server.Base.{
  ℕ, none, some, arith, ◌<◌, ◌≡◌, Bool, update, true, ◌≤◌, false, ◌+◌, suc, add64, Bool-cases, inl,
  inr, zero, ◌==◌, update_self, sym, ◌∙◌, ap, refl, ◌≢◌, leb, Option-cases, Option,
}
use mmorpg_server.Common.Types.{max_sessions_per_thread}
use mmorpg_server.Network.World.{World}
use mmorpg_server.Threading.LocalThread.{
  LocalThread, pooled, first_unused, allocate_session, find_active,
}

-- The session at an index of the active ones, as an index of the pool.
pub record Holds (t : LocalThread) (i : ℕ) : Type 0 where
  pub index : ℕ
  pub within : index < max_sessions_per_thread
  pub entry : t.active_sessions i ≡ some (pooled t index)
  pub used : t.session_used index ≡ true

-- The active sessions are distinct sessions of the pool that are in use, as many as are counted.
pub record IsValid (t : LocalThread) : Type 0 where
  pub held : (i : ℕ) → i < t.active_session_count → Holds t i
  pub distinct :
      (i j : ℕ)
      → i < t.active_session_count
      → j < t.active_session_count
      → t.active_sessions i ≡ t.active_sessions j
      → i ≡ j
  pub same_count : t.session_count ≡ t.active_session_count
  pub bounded : t.session_count ≤ max_sessions_per_thread

pooled_injective : (t : LocalThread) (i j : ℕ) → some (pooled t i) ≡ some (pooled t j) → i ≡ j
pooled_injective t i j e = ground (arith, e)

first_unused-some :
    (used : ℕ → Bool) (i count k : ℕ)
    → first_unused used i count ≡ some k
    → (k < i + count) × (used k ≡ false)
unfolding first_unused
first_unused-some used i zero k e = cc e
first_unused-some used i (suc count) k e = elim (Bool-cases (used i)) [
  | inl busy ↦
      let (below, idle) = first_unused-some used (i + 1) count k (ground (arith, busy, e)) in
      (omega (arith, below), idle)
  | inr idle ↦ ground (arith, idle, e)
]

-- The thread after a session `k` of the pool has been taken into use.
taken : LocalThread → ℕ → LocalThread
taken t k = record t {
  session_used = update t.session_used k true;
  session_count = add64 t.session_count 1;
  active_sessions = update t.active_sessions t.active_session_count (some (pooled t k));
  active_session_count = add64 t.active_session_count 1;
}

taken_new :
    (t : LocalThread) (k i : ℕ)
    → (t.active_session_count == i) ≡ true
    → (taken t k).active_sessions i ≡ some (pooled t k)
unfolding taken
taken_new t k i e = rw e refl

taken_old :
    (t : LocalThread) (k i : ℕ)
    → (t.active_session_count == i) ≡ false
    → (taken t k).active_sessions i ≡ t.active_sessions i
unfolding taken
taken_old t k i e = rw e refl

-- A session that is not in use is not among the active ones.
idle_elsewhere :
    (t : LocalThread) (k i : ℕ)
    → t.session_used k ≡ false
    → Holds t i
    → t.active_sessions i ≢ some (pooled t k)
idle_elsewhere t k i idle h same =
    let equal = pooled_injective t h.index k (sym h.entry ∙ same) in
    ground (arith, sym (ap t.session_used equal) ∙ h.used, idle)

taken-IsValid :
    (t : LocalThread) (k : ℕ)
    → k < max_sessions_per_thread
    → t.session_used k ≡ false
    → t.session_count < max_sessions_per_thread
    → IsValid t
    → IsValid (taken t k)
unfolding taken
taken-IsValid t k within idle room v =
    let n = t.active_session_count in
    let next : add64 n 1 ≡ n + 1 = omega (arith, v.same_count, room) in
    record {
      held = λ i lt. elim (Bool-cases (n == i)) [
        | inl last ↦ record {
          index = k;
          within = within;
          entry = rw last refl;
          used = update_self t.session_used k true;
        }
        | inr other ↦
            let h = v.held i (ground (arith, lt, next, other)) in
            record {
              index = h.index;
              within = h.within;
              entry = rw other h.entry;
              used = ground (arith, h.used);
            }
      ];
      distinct = λ i j li lj same. elim (Bool-cases (n == i)) [
        | inl last_i ↦ elim (Bool-cases (n == j)) [
          | inl last_j ↦ ground (arith, last_i, last_j)
          | inr other_j ↦ absurd (
              idle_elsewhere t k j idle (v.held j (ground (arith, lj, next, other_j)))
                (sym (taken_old t k j other_j) ∙ sym same ∙ taken_new t k i last_i))
        ]
        | inr other_i ↦ elim (Bool-cases (n == j)) [
          | inl last_j ↦ absurd (
              idle_elsewhere t k i idle (v.held i (ground (arith, li, next, other_i)))
                (sym (taken_old t k i other_i) ∙ same ∙ taken_new t k j last_j))
          | inr other_j ↦
              v.distinct i j (ground (arith, li, next, other_i)) (ground (arith, lj, next, other_j))
                (sym (taken_old t k i other_i) ∙ same ∙ taken_old t k j other_j)
        ]
      ];
      same_count = ap (λ c. add64 c 1) v.same_count;
      bounded = omega (arith, room);
    }

-- `AllocateSession` keeps the invariant of the session pool. It returns a session of the pool
-- that was not in use, and then one session more is counted; or it fails, and changes nothing.
pub allocate_session-IsValid :
    (t : LocalThread)
    → IsValid t
    → let (out, t') = allocate_session t in
      IsValid t'
      × ((p : ℕ)
          → out ≡ some p
          → ((k : ℕ) × (p ≡ pooled t k) × (t.session_used k ≡ false))
            × (t'.session_count ≡ t.session_count + 1))
      × (out ≡ none → t' ≡ t)
unfolding allocate_session taken
allocate_session-IsValid t v = elim (Bool-cases (leb max_sessions_per_thread t.session_count)) [
  | inl full ↦ rw (allocate_session, full) (v, λ p e. cc e, λ e. refl)
  | inr room ↦ elim (Option-cases (first_unused t.session_used 0 max_sessions_per_thread)) [
    | inl none_left ↦ rw (allocate_session, room, none_left) (v, λ p e. cc e, λ e. refl)
    | inr (k, found) ↦
        let (within, idle) = first_unused-some t.session_used 0 max_sessions_per_thread k found in
        let few : t.session_count < max_sessions_per_thread = ground (arith, room) in
        rw (allocate_session, room, found)
          (
            taken-IsValid t k (omega (arith, within)) idle few v,
            λ p e. ((k, ground (arith, e), idle), omega (arith, few)),
            λ e. cc e,
          )
  ]
]

pub find_active-some :
    (t : LocalThread) (w : World) (session_id i count j p : ℕ)
    → find_active t w session_id i count ≡ some (j, p)
    → (j < i + count) × (t.active_sessions j ≡ some p)
unfolding find_active
find_active-some t w session_id i zero j p e = cc e
find_active-some t w session_id i (suc count) j p e = elim (Option-cases (t.active_sessions i)) [
  | inl empty ↦
      let (below, entry) =
        find_active-some t w session_id (i + 1) count j p (ground (arith, empty, e)) in
      (omega (arith, below), entry)
  | inr (q, there) ↦ elim (Bool-cases ((w.sessions q).owner_session_id == session_id)) [
    | inr other ↦
        let (below, entry) =
          find_active-some t w session_id (i + 1) count j p (ground (arith, there, other, e)) in
        (omega (arith, below), entry)
    | inl same ↦
        let hit : ◌≡◌ {A = Option (ℕ × ℕ)} (some (i, q)) (some (j, p)) =
          ground (arith, there, same, e) in
        ground (arith, hit, there)
  ]
]
