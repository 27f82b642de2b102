-- ===== src/Common/SendBuffer.antt =====
-- CSendBuffer of Source/Core/Common/Buffer.h and Buffer.cpp, a write cursor over a block of memory.
-- A pointer is the address of its block in the heap, `none` the null pointer.
pub mod Laws
use mmorpg_server.Base.{
  ℕ, ◌+◌, Option, none, some, List, Bool, false, true, if◌then◌else◌, sub64, update, copy_to, ltb,
  length, add64, u16,
}
use mmorpg_server.Common.Types.{packet_header_size, PacketHeader}
use mmorpg_server.Common.Protocol.{header_to_bytes}

-- A freed block, or one that does not exist yet, is not `live`.
pub record Memory : Type 0 where
  pub next : ℕ
  pub live : ℕ → Bool
  pub bytes : ℕ → ℕ → ℕ

pub record SendBuffer : Type 0 where
  pub data_ : Option ℕ
  pub capacity : ℕ
  pub write_pos : ℕ
  pub owns_memory : Bool

abbrev pub empty_send_buffer : SendBuffer
empty_send_buffer = record { data_ = none; capacity = 0; write_pos = 0; owns_memory = false }

-- `new uint8_t[capacity]` takes the next address.
unfoldable pub new_send_buffer : Memory → ℕ → SendBuffer × Memory
new_send_buffer m capacity = (
  record { data_ = some m.next; capacity = capacity; write_pos = 0; owns_memory = true },
  record m { next = m.next + 1; live = update m.live m.next true },
)

-- `delete[]`; `none` is the undefined behaviour of a second free.
unfoldable pub free : Memory → ℕ → Option Memory
free m block = if m.live block then some (record m { live = update m.live block false }) else none

-- `if (bOwnsMemory && Data_) delete[] Data_`, the destructor and the first part of the assignment
unfoldable pub destroy : SendBuffer → Memory → Option Memory
unfolding free
destroy b m = elim b.data_ [
  | none ↦ some m
  | some block ↦ if b.owns_memory then free m block else some m
]

-- The new buffer, and what is left of `other`.
unfoldable pub move_construct : SendBuffer → SendBuffer × SendBuffer
move_construct other = (other, empty_send_buffer)

-- `self = std::move(other)` for two different objects
unfoldable pub move_assign :
    SendBuffer → SendBuffer → Memory → Option (SendBuffer × SendBuffer × Memory)
unfolding destroy
move_assign self other m = elim (destroy self m) [
  | none ↦ none
  | some m' ↦ some (other, empty_send_buffer, m')
]

unfoldable pub free_space : SendBuffer → ℕ
free_space b = sub64 b.capacity b.write_pos

-- `memcpy(Data_ + pos, bytes)`
abbrev pub store : Option ℕ → ℕ → Memory → List ℕ → Memory
store none pos m xs = m
store (some block) pos m xs = record m {
  bytes = update m.bytes block (copy_to (m.bytes block) pos xs);
}

unfoldable pub write : SendBuffer → Memory → List ℕ → Bool × SendBuffer × Memory
unfolding free_space
write b m xs = if ltb (free_space b) (length xs) then (false, b, m) else (
  true,
  record b { write_pos = add64 b.write_pos (length xs) },
  store b.data_ b.write_pos m xs,
)

unfoldable pub write_header : SendBuffer → Memory → ℕ → ℕ → Bool × SendBuffer × Memory
unfolding free_space
write_header b m protocol_id payload_size =
    let header : PacketHeader = record {
      size = u16 (add64 packet_header_size payload_size);
      protocol_id = protocol_id;
    } in
    if ltb (free_space b) packet_header_size then (false, b, m) else (
      true,
      record b { write_pos = add64 b.write_pos packet_header_size },
      store b.data_ b.write_pos m (header_to_bytes header),
    )

unfoldable pub reset : SendBuffer → SendBuffer
reset b = record b { write_pos = 0 }
