-- ===== src/Common/Protocol.antt =====
-- Source/Core/Common/Protocol.h: the packets, packed to one byte, as they lie in memory on the
-- little-endian machine that the server is built for (Windows x64).
-- A float is its 32-bit pattern; the program only copies it.
pub mod RoundTrip
use mmorpg_server.Base.{
  ℕ, zero, suc, ◌%◌, ◌/◌, ◌+◌, ◌*◌, List, [], ◌∷◌, ◌++◌, take, Bool, drop, not, if◌then◌else◌, ◌==◌,
}
use mmorpg_server.Common.Types.{PacketHeader}

abbrev pub pkt_move : ℕ
pkt_move = 1

abbrev pub pkt_login_req : ℕ
pkt_login_req = 100

abbrev pub pkt_login_res : ℕ
pkt_login_res = 101

-- The `n` bytes of an unsigned integer, lowest first, and the integer that bytes stand for.
pub to_bytes : ℕ → ℕ → List ℕ
to_bytes zero v = []
to_bytes (suc n) v = v % 256 ∷ to_bytes n (v / 256)

unfoldable pub from_bytes : List ℕ → ℕ
from_bytes [] = 0
from_bytes (b ∷ bs) = b + 256 * from_bytes bs

-- The integer of `width` bytes at an offset of a packet.
unfoldable pub field : ℕ → ℕ → List ℕ → ℕ
unfolding from_bytes
field offset width packet = from_bytes (take width (drop offset packet))

-- A C++ `bool` that is copied from memory is true if its byte is not 0.
abbrev pub bool_of_byte : ℕ → Bool
bool_of_byte b = not (b == 0)

abbrev pub byte_of_bool : Bool → ℕ
byte_of_bool b = if b then 1 else 0

unfoldable pub header_to_bytes : PacketHeader → List ℕ
unfolding to_bytes
header_to_bytes h = to_bytes 2 h.size ++ to_bytes 2 h.protocol_id

-- `memcpy(&header, packet, PACKET_HEADER_SIZE)`
unfoldable pub read_header : List ℕ → PacketHeader
unfolding field
read_header packet = record { size = field 0 2 packet; protocol_id = field 2 2 packet }

pub record MovePacket : Type 0 where
  pub header : PacketHeader
  pub client_id : ℕ
  pub pos_x : ℕ
  pub pos_y : ℕ
  pub velocity_x : ℕ
  pub velocity_y : ℕ
  pub timestamp : ℕ

-- `LoginFailReason` and `KickReason`, and the two packets that name them, which are never sent
pub data LoginFailReason : Type 0 where
  fail_none fail_wrong_password fail_already_connected : LoginFailReason

pub data KickReason : Type 0 where
  kick_duplicate_login kick_gm_ban : KickReason

pub record LoginFailPacket : Type 0 where
  pub header : PacketHeader
  pub reason : LoginFailReason

pub record KickPacket : Type 0 where
  pub header : PacketHeader
  pub reason : KickReason

pub record LoginPacket : Type 0 where
  pub header : PacketHeader
  pub usn : ℕ
  pub token : ℕ
  pub is_reconnect : Bool

pub record LoginResponsePacket : Type 0 where
  pub header : PacketHeader
  pub session_id : ℕ
  pub token : ℕ
  pub success : Bool

-- `sizeof`
abbrev pub move_packet_size : ℕ
move_packet_size = 28

abbrev pub login_packet_size : ℕ
login_packet_size = 21

abbrev pub login_response_packet_size : ℕ
login_response_packet_size = 21

-- The three `Initialize` functions.
unfoldable pub initialize_move : ℕ → ℕ → ℕ → ℕ → ℕ → ℕ → MovePacket
initialize_move id x y vx vy ts = record {
  header = record { size = move_packet_size; protocol_id = pkt_move };
  client_id = id;
  pos_x = x;
  pos_y = y;
  velocity_x = vx;
  velocity_y = vy;
  timestamp = ts;
}

unfoldable pub initialize_login : ℕ → ℕ → Bool → LoginPacket
initialize_login usn token is_reconnect = record {
  header = record { size = login_packet_size; protocol_id = pkt_login_req };
  usn = usn;
  token = token;
  is_reconnect = is_reconnect;
}

unfoldable pub initialize_login_response : ℕ → ℕ → Bool → LoginResponsePacket
initialize_login_response session_id token success = record {
  header = record { size = login_response_packet_size; protocol_id = pkt_login_res };
  session_id = session_id;
  token = token;
  success = success;
}

unfoldable pub move_to_bytes : MovePacket → List ℕ
unfolding header_to_bytes
move_to_bytes p =
    header_to_bytes p.header
    ++ (to_bytes 4 p.client_id
        ++ (to_bytes 4 p.pos_x
            ++ (to_bytes 4 p.pos_y
                ++ (to_bytes 4 p.velocity_x
                    ++ (to_bytes 4 p.velocity_y ++ to_bytes 4 p.timestamp)))))

unfoldable pub login_to_bytes : LoginPacket → List ℕ
unfolding header_to_bytes
login_to_bytes p =
    header_to_bytes p.header
    ++ (to_bytes 8 p.usn ++ (to_bytes 8 p.token ++ byte_of_bool p.is_reconnect ∷ []))

unfoldable pub login_response_to_bytes : LoginResponsePacket → List ℕ
unfolding header_to_bytes
login_response_to_bytes p =
    header_to_bytes p.header
    ++ (to_bytes 8 p.session_id ++ (to_bytes 8 p.token ++ byte_of_bool p.success ∷ []))

-- `memcpy(&p, packet, sizeof(p))`
unfoldable pub read_login : List ℕ → LoginPacket
unfolding read_header
read_login packet = record {
  header = read_header packet;
  usn = field 4 8 packet;
  token = field 12 8 packet;
  is_reconnect = bool_of_byte (field 20 1 packet);
}

unfoldable pub read_login_response : List ℕ → LoginResponsePacket
unfolding read_header
read_login_response packet = record {
  header = read_header packet;
  session_id = field 4 8 packet;
  token = field 12 8 packet;
  success = bool_of_byte (field 20 1 packet);
}
