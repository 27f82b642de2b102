-- ===== src/Common/RecvBuffer/Laws.antt =====
-- CRecvBuffer holds a byte string: its positions stay in order, reads and writes act on the string,
-- and `Clean` keeps it.
use mmorpg_server.Base.{
  ℕ, ◌+◌, ◌-◌, ◌^◌, ◌≤◌, ◌<◌, ◌≡◌, ap, ◌∙◌, true, List, ◌++◌, arith, if◌then◌else◌, slice, length,
  drop, slice-add, slice_ext, length-slice, slice-copy_to_end, drop-length_append, sym, leb,
}
use mmorpg_server.Common.RecvBuffer.{
  RecvBuffer, free_size, data_size, on_write, on_read, move_down, clean, fill,
}

pub record IsValid (b : RecvBuffer) : Type 0 where
  pub ordered : b.read_pos ≤ b.write_pos
  pub within : b.write_pos ≤ b.capacity
  pub small : b.capacity < 2 ^ 64

-- The bytes that have come in and have not been read.
abbrev pub contents : RecvBuffer → List ℕ
contents b = slice b.data_ b.read_pos (b.write_pos - b.read_pos)

pub data_size_lem : {b : RecvBuffer} → IsValid b → data_size b ≡ b.write_pos - b.read_pos
unfolding data_size
data_size_lem v = omega arith

pub free_size_lem : {b : RecvBuffer} → IsValid b → free_size b ≡ b.capacity - b.write_pos
unfolding free_size
free_size_lem v = omega arith

pub length-contents : {b : RecvBuffer} → IsValid b → length (contents b) ≡ data_size b
length-contents {b} v = length-slice b.data_ b.read_pos _ ∙ omega (arith, data_size_lem v)

pub clean-IsValid : {b : RecvBuffer} → IsValid b → IsValid (clean b)
unfolding clean
clean-IsValid v = ground arith

contents-move_down : (bytes : ℕ → ℕ) (i n : ℕ) → slice (move_down bytes i n) 0 n ≡ slice bytes i n
unfolding move_down
contents-move_down bytes i n = slice_ext (move_down bytes i n) bytes 0 i n λ k h. ground arith

-- `Clean` on a valid buffer keeps the bytes that have not been read, moves them to the front of
-- the array, and leaves the buffer valid.
pub clean_lem :
    {b : RecvBuffer}
    → IsValid b
    → (contents (clean b) ≡ contents b) × ((clean b).read_pos ≡ 0) × IsValid (clean b)
unfolding clean
clean_lem {b} v =
    ground
      (arith, data_size_lem v, contents-move_down b.data_ b.read_pos (b.write_pos - b.read_pos))

slice-drop : (f : ℕ → ℕ) (i m n : ℕ) → n ≤ m → slice f (i + n) (m - n) ≡ drop n (slice f i m)
slice-drop f i m n h =
    let e : m ≡ n + (m - n) = omega arith in
    let whole = ap (slice f i) e ∙ slice-add f i n (m - n) in
    sym (ap (drop n) whole ∙ drop-length_append n (slice f i n) _ (sym (length-slice f i n)))

-- `OnRead(n)` on a valid buffer drops the first `n` bytes, refuses and changes none if there
-- are fewer, and leaves the buffer valid.
pub on_read_lem :
    {b : RecvBuffer} (n : ℕ)
    → IsValid b
    → let (done, b') = on_read b n in
      (done ≡ leb n (length (contents b)))
      × (contents b' ≡ (if done then drop n (contents b) else contents b))
      × IsValid b'
unfolding on_read
on_read_lem {b} n v = ground (
  arith,
  data_size_lem v,
  length-contents v,
  slice-drop b.data_ b.read_pos (b.write_pos - b.read_pos) n,
)

-- A read of `bytes` from the network into a valid buffer, no longer than its free space, is
-- accepted by `OnWrite`, appends the bytes, and leaves the buffer valid.
pub fill-on_write :
    {b : RecvBuffer} (bytes : List ℕ)
    → IsValid b
    → length bytes ≤ free_size b
    → let (done, b') = on_write (fill b bytes) (length bytes) in
      (done ≡ true) × (contents b' ≡ contents b ++ bytes) × IsValid b'
unfolding on_write fill free_size
fill-on_write {b} bytes v h =
    ground (arith, slice-copy_to_end b.data_ b.read_pos (b.write_pos - b.read_pos) bytes)
