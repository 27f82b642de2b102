-- ===== src/Common/RecvBuffer.antt =====
-- CRecvBuffer of Source/Core/Common/Buffer.h and Buffer.cpp. The array that `Data_` points to is a
-- function of the index; a byte is a number. `OnRead` and `OnWrite` also return the new buffer.
pub mod Laws
use mmorpg_server.Base.{
  ℕ, ◌+◌, Bool, true, false, List, ltb, ◌==◌, if◌then◌else◌, add64, sub64, copy_to,
}

pub record RecvBuffer : Type 0 where
  pub data_ : ℕ → ℕ
  pub capacity : ℕ
  pub read_pos : ℕ
  pub write_pos : ℕ

-- The constructor; the bytes of `new uint8_t[capacity]` are not initialised.
unfoldable pub new_recv_buffer : (ℕ → ℕ) → ℕ → RecvBuffer
new_recv_buffer garbage capacity = record {
  data_ = garbage;
  capacity = capacity;
  read_pos = 0;
  write_pos = 0;
}

unfoldable pub free_size : RecvBuffer → ℕ
free_size b = sub64 b.capacity b.write_pos

unfoldable pub data_size : RecvBuffer → ℕ
data_size b = sub64 b.write_pos b.read_pos

unfoldable pub on_write : RecvBuffer → ℕ → Bool × RecvBuffer
unfolding free_size
on_write b num_bytes =
    if ltb (free_size b) num_bytes
    then (false, b)
    else (true, record b { write_pos = add64 b.write_pos num_bytes })

unfoldable pub on_read : RecvBuffer → ℕ → Bool × RecvBuffer
unfolding data_size
on_read b num_bytes =
    if ltb (data_size b) num_bytes
    then (false, b)
    else (true, record b { read_pos = add64 b.read_pos num_bytes })

-- `memmove(Data_, Data_ + from, n)`: the source is read before anything is overwritten.
unfoldable pub move_down : (ℕ → ℕ) → ℕ → ℕ → ℕ → ℕ
move_down bytes from n = λ i. if ltb i n then bytes (from + i) else bytes i

unfoldable pub clean : RecvBuffer → RecvBuffer
unfolding data_size move_down
clean b =
    if data_size b == 0
    then record b { read_pos = 0; write_pos = 0 }
    else if ltb 0 b.read_pos
    then record b {
      data_ = move_down b.data_ b.read_pos (data_size b);
      read_pos = 0;
      write_pos = data_size b;
    }
    else b

unfoldable pub reset : RecvBuffer → RecvBuffer
reset b = record b { read_pos = 0; write_pos = 0 }

-- What the kernel does to the bytes from `GetWritePos()` on when a read completes.
unfoldable pub fill : RecvBuffer → List ℕ → RecvBuffer
fill b bytes = record b { data_ = copy_to b.data_ b.write_pos bytes }
