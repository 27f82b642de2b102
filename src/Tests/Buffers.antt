-- ===== src/Tests/Buffers.antt =====
-- The byte buffers and the packets of Source/Core/Common at concrete inputs.
use mmorpg_server.Base.{[], arith, ◌≡◌, ◌∷◌, ◌==◌, some, true, ◌++◌, length}
use mmorpg_server.Common.RecvBuffer.{RecvBuffer}
use mmorpg_server.Common.RecvBuffer.Laws.{contents, clean_lem, on_read_lem, fill-on_write}
use mmorpg_server.Common.RecvBuffer.Laws as RecvLaws
use mmorpg_server.Common.SendBuffer.{Memory, SendBuffer}
use mmorpg_server.Common.SendBuffer.Laws as SendLaws
use mmorpg_server.Common.SendBuffer.Laws.{Appends, written, write-Appends, write-write_header}
use mmorpg_server.Common.Protocol.{to_bytes, read_login, login_to_bytes, initialize_login}
use mmorpg_server.Common.Protocol.RoundTrip.{read_login-initialize_login}

-- Two bytes that have not been read, in the middle of a buffer of eight
abbrev received : RecvBuffer
received = record { data_ = λ i. i; capacity = 8; read_pos = 3; write_pos = 5 }

received-IsValid : RecvLaws.IsValid received
received-IsValid = record { ordered = omega arith; within = omega arith; small = omega arith }

abbrev memory : Memory
memory = record { next = 1; live = λ b. b == 0; bytes = λ _ _. 0 }

abbrev buffer : SendBuffer
buffer = record { data_ = some 0; capacity = 16; write_pos = 0; owns_memory = true }

buffer-IsValid : SendLaws.IsValid buffer
buffer-IsValid = record { within = omega arith; small = omega arith; backed = λ e. cc e }

read_login_example :
    let bytes = login_to_bytes (initialize_login 1001 5 true) in
    (bytes ≡ 21 ∷ 0 ∷ 100 ∷ 0 ∷ (to_bytes 8 1001 ++ (to_bytes 8 5 ++ 1 ∷ [])))
    × (length bytes ≡ 21)
    × (read_login (bytes ++ 0 ∷ []) ≡ record {
      header = record { size = 21; protocol_id = 100 };
      usn = 1001;
      token = 5;
      is_reconnect = true;
    })
read_login_example = read_login-initialize_login 1001 5 true (0 ∷ []) (omega arith) (omega arith)
