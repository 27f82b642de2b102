-- ===== src/Common/Protocol/RoundTrip.antt =====
-- What one side writes as a packet the other side reads back.
use native.Mathlib.Nat.{pow-suc}
use mmorpg_server.Base.{
  ℕ, zero, suc, arith, refl, length, ◌<◌, List, Bool, ◌≡◌, ◌^◌, ◌++◌, ap, drop-length_append,
  append_assoc, length-append, ◌/◌, ◌∷◌, take-length_append, [], sym, ◌∙◌, true, false,
  if◌then◌else◌,
}
use mmorpg_server.Common.Protocol.{
  to_bytes, from_bytes, field, initialize_login, initialize_login_response, login_to_bytes,
  login_response_to_bytes, read_login, read_login_response, header_to_bytes, read_header,
  bool_of_byte, byte_of_bool, pkt_login_req, pkt_login_res, login_packet_size,
  login_response_packet_size,
}
use mmorpg_server.Common.Types.{PacketHeader}

pub length-to_bytes : (n v : ℕ) → length (to_bytes n v) ≡ n
unfolding to_bytes
length-to_bytes zero v = refl
length-to_bytes (suc n) v = ap suc (length-to_bytes n (v / 256))

pub from_bytes-to_bytes : (n v : ℕ) → v < 256 ^ n → from_bytes (to_bytes n v) ≡ v
unfolding to_bytes from_bytes
from_bytes-to_bytes zero v h = omega arith
from_bytes-to_bytes (suc n) v h =
    omega (arith, from_bytes-to_bytes n (v / 256) (omega (arith, pow-suc 256 n)))

-- A field is read back from behind the bytes before it.
field-to_bytes :
    (offset n v : ℕ) (before after : List ℕ)
    → offset ≡ length before
    → v < 256 ^ n
    → field offset n (before ++ (to_bytes n v ++ after)) ≡ v
unfolding field
field-to_bytes offset n v before after at_offset small =
    rw
      (
        drop-length_append offset before (to_bytes n v ++ after) at_offset,
        take-length_append n (to_bytes n v) after (sym (length-to_bytes n v)),
      )
      (from_bytes-to_bytes n v small)

field-byte :
    (offset x : ℕ) (before after : List ℕ)
    → offset ≡ length before
    → field offset 1 (before ++ x ∷ after) ≡ x
unfolding field from_bytes
field-byte offset x before after at_offset =
    rw (drop-length_append offset before (x ∷ after) at_offset) (omega arith)

bool_of_byte-byte_of_bool : (b : Bool) → bool_of_byte (byte_of_bool b) ≡ b
bool_of_byte-byte_of_bool true = refl
bool_of_byte-byte_of_bool false = refl

pub record IsHeader (h : PacketHeader) : Type 0 where
  pub size_u16 : h.size < 2 ^ 16
  pub protocol_u16 : h.protocol_id < 2 ^ 16

pub read_header-header_to_bytes :
    (h : PacketHeader) (rest : List ℕ) → IsHeader h → read_header (header_to_bytes h ++ rest) ≡ h
unfolding read_header header_to_bytes
read_header-header_to_bytes h rest v =
    ap read_header (append_assoc (to_bytes 2 h.size) (to_bytes 2 h.protocol_id) rest) ∙ fields
  where
    fields : read_header (to_bytes 2 h.size ++ (to_bytes 2 h.protocol_id ++ rest)) ≡ h
    fields = λ i. record {
      size = field-to_bytes 0 2 h.size [] (to_bytes 2 h.protocol_id ++ rest) refl v.size_u16 i;
      protocol_id =
          field-to_bytes 2 2 h.protocol_id (to_bytes 2 h.size) rest (sym (length-to_bytes 2 h.size))
            v.protocol_u16 i;
    }

pub length-header : (h : PacketHeader) → length (header_to_bytes h) ≡ 4
unfolding header_to_bytes
length-header h = omega (
  arith,
  length-append (to_bytes 2 h.size) (to_bytes 2 h.protocol_id),
  length-to_bytes 2 h.size,
  length-to_bytes 2 h.protocol_id,
)

-- The layout that the two login packets share: a header, two 64-bit words and a flag.
layout : PacketHeader → ℕ → ℕ → Bool → List ℕ
layout h a b flag = header_to_bytes h ++ (to_bytes 8 a ++ (to_bytes 8 b ++ byte_of_bool flag ∷ []))

module _ (h : PacketHeader) (a b : ℕ) (flag : Bool) (rest : List ℕ) where
  length-layout : length (layout h a b flag) ≡ 21
  unfolding layout
  length-layout = omega (
    arith,
    length-append (header_to_bytes h) (to_bytes 8 a ++ (to_bytes 8 b ++ byte_of_bool flag ∷ [])),
    length-append (to_bytes 8 a) (to_bytes 8 b ++ byte_of_bool flag ∷ []),
    length-append (to_bytes 8 b) (byte_of_bool flag ∷ []),
    length-header h,
    length-to_bytes 8 a,
    length-to_bytes 8 b,
  )

  layout_word_a : a < 2 ^ 64 → field 4 8 (layout h a b flag ++ rest) ≡ a
  unfolding layout
  layout_word_a small = simp append_assoc (
      field-to_bytes 4 8 a (header_to_bytes h) (to_bytes 8 b ++ (byte_of_bool flag ∷ rest))
        (sym (length-header h)) small)

  layout_word_b : b < 2 ^ 64 → field 12 8 (layout h a b flag ++ rest) ≡ b
  unfolding layout
  layout_word_b small = simp append_assoc (
      ap (field 12 8) (sym (append_assoc (header_to_bytes h) (to_bytes 8 a) _))
      ∙ field-to_bytes 12 8 b (header_to_bytes h ++ to_bytes 8 a) (byte_of_bool flag ∷ rest)
          (omega (
            arith,
            length-append (header_to_bytes h) (to_bytes 8 a),
            length-header h,
            length-to_bytes 8 a,
          ))
          small)

  layout_header : IsHeader h → read_header (layout h a b flag ++ rest) ≡ h
  unfolding layout
  layout_header v = simp append_assoc (read_header-header_to_bytes h _ v)

  layout_flag : bool_of_byte (field 20 1 (layout h a b flag ++ rest)) ≡ flag
  unfolding layout
  layout_flag =
      let before = header_to_bytes h ++ (to_bytes 8 a ++ to_bytes 8 b) in
      let e : layout h a b flag ++ rest ≡ before ++ byte_of_bool flag ∷ rest = simp append_assoc in
      let n : 20 ≡ length before = omega (
        arith,
        length-append (header_to_bytes h) (to_bytes 8 a ++ to_bytes 8 b),
        length-append (to_bytes 8 a) (to_bytes 8 b),
        length-header h,
        length-to_bytes 8 a,
        length-to_bytes 8 b,
      ) in
      ap (λ bs. bool_of_byte (field 20 1 bs)) e
      ∙ ap bool_of_byte (field-byte 20 (byte_of_bool flag) before rest n)
      ∙ bool_of_byte-byte_of_bool flag

-- The login request that `Initialize` makes of a 64-bit USN and token is 21 bytes: 21 and 100 as two
-- 16-bit words, the USN, the token and the flag, lowest bytes first. From these bytes, whatever
-- stands behind them in the buffer, a login is read with the size 21, the protocol id 100, this USN,
-- token and flag.
pub read_login-initialize_login :
    (usn token : ℕ) (is_reconnect : Bool) (rest : List ℕ)
    → usn < 2 ^ 64
    → token < 2 ^ 64
    → let bytes = login_to_bytes (initialize_login usn token is_reconnect) in
      (bytes
        ≡ 21
          ∷ 0
          ∷ 100
          ∷ 0
          ∷ (to_bytes 8 usn ++ (to_bytes 8 token ++ (if is_reconnect then 1 else 0) ∷ [])))
      × (length bytes ≡ 21)
      × (read_login (bytes ++ rest) ≡ record {
        header = record { size = 21; protocol_id = 100 };
        usn = usn;
        token = token;
        is_reconnect = is_reconnect;
      })
unfolding read_login login_to_bytes initialize_login layout header_to_bytes to_bytes
read_login-initialize_login usn token is_reconnect rest hu ht = (
  refl,
  length-layout h usn token is_reconnect rest,
  λ i. record {
    header = layout_header h usn token is_reconnect rest (omega arith) i;
    usn = layout_word_a h usn token is_reconnect rest hu i;
    token = layout_word_b h usn token is_reconnect rest ht i;
    is_reconnect = layout_flag h usn token is_reconnect rest i;
  },
)
  where
    h : PacketHeader
    h = record { size = 21; protocol_id = 100 }

-- A login response with 64-bit session id and token is read back from its bytes, whatever
-- stands behind it in the buffer.
pub read_login_response-login_response_to_bytes :
    (session_id token : ℕ) (success : Bool) (rest : List ℕ)
    → session_id < 2 ^ 64
    → token < 2 ^ 64
    → read_login_response
        (login_response_to_bytes (initialize_login_response session_id token success) ++ rest)
      ≡ initialize_login_response session_id token success
unfolding read_login_response login_response_to_bytes initialize_login_response layout
read_login_response-login_response_to_bytes session_id token success rest hs ht = λ i. record {
  header = layout_header h session_id token success rest (omega arith) i;
  session_id = layout_word_a h session_id token success rest hs i;
  token = layout_word_b h session_id token success rest ht i;
  success = layout_flag h session_id token success rest i;
}
  where
    h : PacketHeader
    h = record { size = login_response_packet_size; protocol_id = pkt_login_res }

-- The size in the header is the number of bytes of the packet.
pub login_sizes :
    (usn token : ℕ) (flag : Bool)
    → (length (login_to_bytes (initialize_login usn token flag)) ≡ login_packet_size)
      × (length (login_response_to_bytes (initialize_login_response usn token flag))
          ≡ login_response_packet_size)
unfolding login_to_bytes login_response_to_bytes initialize_login initialize_login_response layout
login_sizes usn token flag = (
  length-layout (record { size = 21; protocol_id = pkt_login_req }) usn token flag [],
  length-layout (record { size = 21; protocol_id = pkt_login_res }) usn token flag [],
)
