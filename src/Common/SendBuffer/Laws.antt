-- ===== src/Common/SendBuffer/Laws.antt =====
-- CSendBuffer appends, and a block of memory has one owner.
use mmorpg_server.Base.{
  ℕ, arith, ◌≤◌, List, ◌<◌, length, ◌≡◌, ◌^◌, leb, none, add64, ◌+◌, [], ◌++◌, if◌then◌else◌, some,
  slice, copy_to, true, refl, ap, inl, drop, ◌∙◌, eq-nil_of_length, slice-copy_to_end, inr,
  update_self, Option, sym, Bool, ltb, u16, sub64, false, Bool-cases, le→leb, length-append,
  drop-length_append,
}
use mmorpg_server.Common.Types.{PacketHeader, packet_header_size}
use mmorpg_server.Common.Protocol.{header_to_bytes, read_header}
use mmorpg_server.Common.Protocol.RoundTrip.{read_header-header_to_bytes, length-header}
use mmorpg_server.Common.SendBuffer.{
  Memory, SendBuffer, destroy, move_construct, free_space, store, write, write_header,
}

pub record IsValid (b : SendBuffer) : Type 0 where
  pub within : b.write_pos ≤ b.capacity
  pub small : b.capacity < 2 ^ 64
  pub backed : (b.data_ ≡ none) → b.capacity ≡ 0

abbrev pub bytes_at : Option ℕ → ℕ → Memory → List ℕ
bytes_at none n m = []
bytes_at (some block) n m = slice (m.bytes block) 0 n

-- The bytes that have been written.
abbrev pub written : SendBuffer → Memory → List ℕ
written b m = bytes_at b.data_ b.write_pos m

bytes_at-store :
    (o : Option ℕ) (n : ℕ) (m : Memory) (xs : List ℕ)
    → (o ≡ none → xs ≡ [])
    → bytes_at o (n + length xs) (store o n m xs) ≡ bytes_at o n m ++ xs
bytes_at-store none n m xs h = sym (h refl)
bytes_at-store (some block) n m xs h =
    ap (λ f. slice f 0 (n + length xs)) (update_self m.bytes block (copy_to (m.bytes block) n xs))
    ∙ ap (λ k. slice (copy_to (m.bytes block) k xs) 0 (n + length xs)) (omega arith)
    ∙ slice-copy_to_end (m.bytes block) 0 n xs

-- What an append of `xs` does: all of it if there is room, and otherwise nothing.
pub record Appends (b : SendBuffer) (m : Memory) (xs : List ℕ) (r : Bool × SendBuffer × Memory)
    : Type 0 where
  pub done : r.0 ≡ leb (b.write_pos + length xs) b.capacity
  pub bytes : written r.1 r.2 ≡ (if r.0 then written b m ++ xs else written b m)
  pub position : r.1.write_pos ≡ (if r.0 then b.write_pos + length xs else b.write_pos)
  pub same_capacity : r.1.capacity ≡ b.capacity
  pub valid : IsValid r.1

append-Appends :
    (b : SendBuffer) (m : Memory) (xs : List ℕ) (n : ℕ)
    → length xs ≡ n
    → IsValid b
    → Appends b m xs (
        if ltb (sub64 b.capacity b.write_pos) n
        then (false, b, m)
        else (true, record b { write_pos = add64 b.write_pos n }, store b.data_ b.write_pos m xs))
append-Appends b m xs n len v = elim (Bool-cases (ltb (sub64 b.capacity b.write_pos) n)) [
  | inl full ↦ rw full (record {
    done = ground arith;
    bytes = refl;
    position = refl;
    same_capacity = refl;
    valid = v;
  })
  | inr room ↦
      let fits : b.write_pos + n ≤ b.capacity = ground arith in
      let end : add64 b.write_pos n ≡ b.write_pos + length xs = omega arith in
      rw room (record {
        done = ground arith;
        bytes =
            ap (λ k. bytes_at b.data_ k (store b.data_ b.write_pos m xs)) end
            ∙ bytes_at-store b.data_ b.write_pos m xs
                (λ null. eq-nil_of_length xs (omega (arith, v.backed null, v.within)));
        position = end;
        same_capacity = refl;
        valid = omega arith;
      })
]

-- `Write` on a valid buffer appends the bytes if they fit, and otherwise refuses and changes
-- nothing; the buffer stays valid and its capacity the same.
pub write-Appends :
    (b : SendBuffer) (m : Memory) (xs : List ℕ) → IsValid b → Appends b m xs (write b m xs)
unfolding write free_space
write-Appends b m xs v = append-Appends b m xs (length xs) refl v

-- `WriteHeader` appends the four bytes of the header of the whole packet, its size cut to 16 bits.
pub write_header-Appends :
    (b : SendBuffer) (m : Memory) (protocol_id payload_size : ℕ)
    → IsValid b
    → Appends b m
        (header_to_bytes (record {
          size = u16 (add64 packet_header_size payload_size);
          protocol_id = protocol_id;
        }))
        (write_header b m protocol_id payload_size)
unfolding write_header free_space
write_header-Appends b m protocol_id payload_size v = append-Appends b m _ 4 (length-header _) v

-- The same, when the bytes are known to fit.
Appends-fits :
    {b : SendBuffer} {m : Memory} {xs : List ℕ} {r : Bool × SendBuffer × Memory}
    → Appends b m xs r
    → b.write_pos + length xs ≤ b.capacity
    → (r.0 ≡ true)
      × (written r.1 r.2 ≡ written b m ++ xs)
      × (r.1.write_pos ≡ b.write_pos + length xs)
Appends-fits {b} {m} {xs} {r} a fits =
    let went : r.0 ≡ true = a.done ∙ le→leb _ _ fits in
    (
      went,
      a.bytes ∙ ap (λ t. if t then written b m ++ xs else written b m) went,
      a.position ∙ ap (λ t. if t then b.write_pos + length xs else b.write_pos) went,
    )

bytes_at-zero : (o : Option ℕ) (n : ℕ) (m : Memory) → n ≡ 0 → bytes_at o n m ≡ []
bytes_at-zero none n m e = refl
bytes_at-zero (some block) n m e = ap (slice (m.bytes block) 0) e

-- A packet that is written as a header and a payload into an empty valid buffer with room for
-- both, its size and protocol id within 16 bits, begins with the header of its size, and the
-- payload follows the header.
pub write-write_header :
    (b : SendBuffer) (m : Memory) (protocol_id : ℕ) (payload : List ℕ)
    → IsValid b
    → b.write_pos ≡ 0
    → protocol_id < 2 ^ 16
    → 4 + length payload < 2 ^ 16
    → 4 + length payload ≤ b.capacity
    → let (done, b', m') = write_header b m protocol_id (length payload) in
      let (done', b'', m'') = write b' m' payload in
      (done ≡ true)
      × (done' ≡ true)
      × (read_header (written b'' m'')
          ≡ record { size = length (written b'' m''); protocol_id = protocol_id })
      × (drop 4 (written b'' m'') ≡ payload)
write-write_header b m protocol_id payload v start hp hs hc =
    let size : ℕ = u16 (add64 packet_header_size (length payload)) in
    let header : PacketHeader = record { size = size; protocol_id = protocol_id } in
    let exact : size ≡ 4 + length payload = omega arith in
    let first = write_header-Appends b m protocol_id (length payload) v in
    let (done, front, at_payload) =
      Appends-fits first (omega (arith, length-header header, start, hc)) in
    let headed = write_header b m protocol_id (length payload) in
    let second = write-Appends headed.1 headed.2 payload first.valid in
    let last = write headed.1 headed.2 payload in
    let (done', back, _) =
      Appends-fits second
        (omega (arith, length-header header, start, hc, at_payload, first.same_capacity)) in
    let whole : written last.1 last.2 ≡ header_to_bytes header ++ payload =
      back
      ∙ ap (λ t. t ++ payload)
          (front
            ∙ ap (λ t. t ++ header_to_bytes header) (bytes_at-zero b.data_ b.write_pos m start)) in
    let total =
      ap length whole
      ∙ length-append (header_to_bytes header) payload
      ∙ ap (λ t. t + length payload) (length-header header) in
    (
      done,
      done',
      ap read_header whole
          ∙ read_header-header_to_bytes header payload
              (record { size_u16 = omega arith; protocol_u16 = hp })
          ∙ ap (λ t. record { size = t; protocol_id = protocol_id }) (exact ∙ sym total),
      ap (drop 4) whole
          ∙ drop-length_append 4 (header_to_bytes header) payload (sym (length-header header)),
    )

-- A move leaves the block with one owner: the source owns nothing, and the target owns what the
-- source owned.
pub destroy-move_construct :
    (b : SendBuffer) (m : Memory)
    → let (self, other) = move_construct b in
      (destroy other m ≡ some m) × (destroy self m ≡ destroy b m)
unfolding move_construct destroy
destroy-move_construct b m = (refl, refl)
