-- ===== src/Network/Receive/Frames.antt =====
-- An independent description of the packets in a byte stream: each begins with a header whose size
-- counts the header and the body, and lies between the size of a header and MAX_PACKET_SIZE.
use mmorpg_server.Base.{
  ℕ, arith, List, ◌≡◌, take, Bool, [], ◌⊎◌, ◌++◌, false, length, inl, take_append_le, if◌then◌else◌,
  ltb, suc, ◌≤◌, inr, length-append, true, ◌||◌, refl, drop, ◌∷◌, zero, ◌<◌, flatten, ap,
  append_assoc, ◌∙◌, drop-length_append, take-append-drop, take-length_append, length-take, sym,
}
use mmorpg_server.Common.Types.{packet_header_size, max_packet_size, PacketHeader}
use mmorpg_server.Common.Protocol.{read_header}
use mmorpg_server.Network.Receive.{Frame, stop, invalid, packet_of}

-- How a byte string begins.
unfoldable pub frame_of : List ℕ → Frame
frame_of bytes =
    let header = read_header (take packet_header_size bytes) in
    if ltb (length bytes) packet_header_size
    then stop
    else if ltb max_packet_size header.size || ltb header.size packet_header_size
    then invalid
    else if ltb (length bytes) header.size
    then stop
    else packet_of header

pub record Split : Type 0 where
  pub frames : List (List ℕ)
  pub leftover : List ℕ
  pub is_broken : Bool

-- The packets at the front of a byte string, at most `n`, what follows them, and whether what
-- follows is an invalid header.
unfoldable pub split_frames : ℕ → List ℕ → Split
split_frames zero bytes = record { frames = []; leftover = bytes; is_broken = false }
split_frames (suc n) bytes = elim (frame_of bytes) [
  | stop ↦ record { frames = []; leftover = bytes; is_broken = false }
  | invalid ↦ record { frames = []; leftover = bytes; is_broken = true }
  | packet_of header ↦
      let later = split_frames n (drop header.size bytes) in
      record later { frames = take header.size bytes ∷ later.frames }
]

-- A packet that stands alone: its header says its length, which is in range.
pub record IsMessage (bytes : List ℕ) : Type 0 where
  pub sized : (read_header (take packet_header_size bytes)).size ≡ length bytes
  pub headed : packet_header_size ≤ length bytes
  pub bounded : length bytes ≤ max_packet_size

pub data Messages : List (List ℕ) → Type 0 where
  no_more : Messages []
  one_more : {m : List ℕ} {ms : List (List ℕ)} → IsMessage m → Messages ms → Messages (m ∷ ms)

pub Frame-cases :
    (f : Frame) → (f ≡ stop) ⊎ ((f ≡ invalid) ⊎ ((h : PacketHeader) × (f ≡ packet_of h)))
Frame-cases stop = inl refl
Frame-cases invalid = inr (inl refl)
Frame-cases (packet_of h) = inr (inr (h, refl))

-- A message at the front is recognised, whatever follows.
pub frame_of-IsMessage :
    (message rest : List ℕ)
    → IsMessage message
    → frame_of (message ++ rest) ≡ packet_of (read_header (take packet_header_size message))
unfolding frame_of
frame_of-IsMessage message rest m =
    let header_bytes = take_append_le packet_header_size message rest m.headed in
    let total = length-append message rest in ground (arith, header_bytes, total, m.sized)

-- The packets of a stream with one packet more at its front
unfoldable pub prepend : List ℕ → Split → Split
prepend m later = record later { frames = m ∷ later.frames }

pub split_frames-IsMessage :
    (m tail : List ℕ) (n : ℕ)
    → IsMessage m
    → split_frames (suc n) (m ++ tail) ≡ prepend m (split_frames n tail)
unfolding split_frames prepend
split_frames-IsMessage m tail n is_message =
    rw
      (
        split_frames,
        frame_of-IsMessage m tail is_message,
        is_message.sized,
        drop-length_append (length m) m tail refl,
        take-length_append (length m) m tail refl,
      )
      refl

-- The messages of a stream come out one by one and unchanged, with what follows them, when that
-- is no complete packet and no invalid one, however it may go on.
pub split_frames-flatten :
    (messages : List (List ℕ)) (rest : List ℕ) (n : ℕ)
    → Messages messages
    → frame_of rest ≡ stop
    → length messages < n
    → split_frames n (flatten messages ++ rest)
      ≡ record { frames = messages; leftover = rest; is_broken = false }
unfolding split_frames flatten prepend frame_of
split_frames-flatten messages rest zero ms e h = absurd (omega arith)
split_frames-flatten [] rest (suc n) no_more e h = rw (split_frames, e) refl
split_frames-flatten (m ∷ messages) rest (suc n) (one_more is_message ms) e h =
    ap (split_frames (suc n)) (append_assoc m (flatten messages) rest)
    ∙ split_frames-IsMessage m (flatten messages ++ rest) n is_message
    ∙ ap (prepend m) (split_frames-flatten messages rest n ms e (omega arith))

pub frame_of_lem :
    (bytes : List ℕ) (h : PacketHeader)
    → frame_of bytes ≡ packet_of h
    → (h ≡ read_header (take packet_header_size bytes))
      × (packet_header_size ≤ h.size)
      × (h.size ≤ max_packet_size)
      × (h.size ≤ length bytes)
unfolding frame_of
frame_of_lem bytes h e = ground (arith, e)

-- The packet at the front has its size for length, and the same header.
pub cut_frame :
    (bytes : List ℕ) (h : PacketHeader)
    → frame_of bytes ≡ packet_of h
    → (length (take h.size bytes) ≡ h.size)
      × (read_header (take packet_header_size (take h.size bytes)) ≡ h)
cut_frame bytes h full =
    let (header, low, _, fits) = frame_of_lem bytes h full in
    let size : length (take h.size bytes) ≡ h.size =
      length-take h.size bytes ∙ omega (arith, fits) in
    let front =
      sym (
        take_append_le packet_header_size (take h.size bytes) (drop h.size bytes)
          (omega (arith, size, low)))
      ∙ ap (take packet_header_size) (take-append-drop h.size bytes) in
    (size, ap read_header front ∙ sym header)

-- Frames and leftover are the bytes again, and each frame is a message.
pub split_frames-Messages :
    (n : ℕ) (bytes : List ℕ)
    → (flatten (split_frames n bytes).frames ++ (split_frames n bytes).leftover ≡ bytes)
      × Messages (split_frames n bytes).frames
unfolding split_frames flatten
split_frames-Messages zero bytes = (refl, no_more)
split_frames-Messages (suc n) bytes = elim (Frame-cases (frame_of bytes)) [
  | inl ends ↦ rw (split_frames, ends) (refl, no_more)
  | inr (inl broken) ↦ rw (split_frames, broken) (refl, no_more)
  | inr (inr (h, full)) ↦
      let (same, more) = split_frames-Messages n (drop h.size bytes) in
      let (_, low, high, _) = frame_of_lem bytes h full in
      let (size, header_again) = cut_frame bytes h full in
      let whole =
        append_assoc (take h.size bytes) (flatten (split_frames n (drop h.size bytes)).frames)
          (split_frames n (drop h.size bytes)).leftover
        ∙ ap (λ t. take h.size bytes ++ t) same
        ∙ take-append-drop h.size bytes in
      let first : IsMessage (take h.size bytes) = record {
        sized = ap (λ t. t.size) header_again ∙ sym size;
        headed = omega (arith, size, low);
        bounded = omega (arith, size, high);
      } in
      rw (split_frames, full) (whole, one_more first more)
]
