-- ===== src/Packets/Contents.antt =====
-- What is in a packet: its size and the appending and reading of strings and data of
-- src/common/packet.c. The bytes are `u.data`, the header included. A write or a read outside of
-- them is `none` as the outcome.
pub mod Bytes
pub mod Sizes
pub mod Strings
mod Tests
use bnetd.Prelude.{
  ℕ, zero, suc, ◌+◌, ◌-◌, ◌*◌, Bool, true, false, ◌&&◌, ◌||◌, not, List, [], ◌∷◌, ◌++◌, Option,
  none, some, ◌==◌, ltb, leb, u32, if◌then◌else◌, ◌>>=◌, length, take, drop, get_or,
}
use bnetd.Prelude.Text.{Text}
use bnetd.Channel.{Rc, ok, fail}
use bnetd.Wire.{BnShort, bn_short_get, bn_short_set}

pub data PacketClass : Type 0 where
  no_class init_class bnet_class file_class raw_class bits_class udp_class d2game_class d2gs_class
        d2cs_class d2cs_bnetd_class auth_class :
      PacketClass

pub record Packet : Type 0 where
  pub class : PacketClass
  pub len : ℕ
  pub data_bytes : List ℕ

abbrev pub max_packet_size : ℕ
max_packet_size = 3072

-- Where the size of a packet is: in the header at an offset, in `len`, or the same for all of the
-- class.
pub data SizeField : Type 0 where
  in_header : (offset : ℕ) → SizeField
  in_len : SizeField
  fixed : ℕ → SizeField

unfoldable pub size_field : PacketClass → SizeField
size_field no_class = fixed 0
size_field init_class = fixed 1
size_field bnet_class = in_header 2
size_field file_class = in_header 0
size_field raw_class = in_len
size_field bits_class = in_header 2
size_field udp_class = in_len
size_field d2game_class = in_len
size_field d2gs_class = in_header 0
size_field d2cs_class = in_header 0
size_field d2cs_bnetd_class = in_header 0
size_field auth_class = in_header 0

-- The two bytes of a field at an offset.
unfoldable pub short_at : ℕ → List ℕ → BnShort
short_at offset bytes = record { b0 = get_or bytes offset 0; b1 = get_or bytes (suc offset) 0 }

unfoldable pub raw_size : SizeField → Packet → ℕ
raw_size (in_header offset) packet = bn_short_get (short_at offset packet.data_bytes)
raw_size in_len packet = packet.len
raw_size (fixed size) packet = size

unfoldable pub packet_get_size : Packet → ℕ
packet_get_size packet =
    let size = raw_size (size_field packet.class) packet in
    if ltb max_packet_size size then 0 else size

-- The bytes with others over them, from the start and from an offset.
unfoldable pub overlay : List ℕ → List ℕ → List ℕ
overlay [] ds = ds
overlay (b ∷ bs) [] = []
overlay (b ∷ bs) (d ∷ ds) = b ∷ overlay bs ds

unfoldable pub put_bytes : ℕ → List ℕ → List ℕ → List ℕ
put_bytes zero bs ds = overlay bs ds
put_bytes (suc n) bs [] = []
put_bytes (suc n) bs (d ∷ ds) = d ∷ put_bytes n bs ds

-- `memcpy` to an offset of the bytes.
unfoldable pub copy_bytes : ℕ → List ℕ → List ℕ → Option (List ℕ)
copy_bytes n bs ds = if leb (n + length bs) (length ds) then some (put_bytes n bs ds) else none

-- The sizes that `packet_set_size` takes for a class.
unfoldable pub is_size_for : PacketClass → ℕ → Bool
is_size_for no_class size = false
is_size_for init_class size = size == 0 || size == 1
is_size_for bnet_class size = size == 0 || leb 4 size
is_size_for file_class size = size == 0 || leb 4 size
is_size_for bits_class size = size == 0 || leb 10 size
is_size_for udp_class size = size == 0 || leb 4 size
is_size_for auth_class size = size == 0 || leb 3 size
is_size_for _ size = true

unfoldable pub put_size : SizeField → ℕ → Packet → Packet
put_size (in_header offset) size packet =
    let field = bn_short_set size in
    record packet { data_bytes = put_bytes offset (field.b0 ∷ field.b1 ∷ []) packet.data_bytes }
put_size in_len size packet = record packet { len = size }
put_size (fixed _) size packet = record packet { len = size }

unfoldable pub packet_set_size : Packet → ℕ → Rc × Packet
packet_set_size packet size =
    if ltb max_packet_size size || not (is_size_for packet.class size)
    then (fail, packet)
    else (ok, put_size (size_field packet.class) size packet)

unfoldable pub packet_get_header_size : PacketClass → ℕ
packet_get_header_size bnet_class = 4
packet_get_header_size file_class = 4
packet_get_header_size bits_class = 10
packet_get_header_size udp_class = 4
packet_get_header_size d2gs_class = 8
packet_get_header_size d2cs_class = 3
packet_get_header_size d2cs_bnetd_class = 8
packet_get_header_size auth_class = 3
packet_get_header_size no_class = max_packet_size
packet_get_header_size _ = 0

-- The number of bytes that are added where `len` are to be.
unfoldable pub add_len : (size : ℕ) → (len : ℕ) → ℕ
add_len size len = if ltb len (max_packet_size - size) then len else max_packet_size - size

-- The bytes are copied behind the packet and counted. The result is their number, or none for -1.
unfoldable pub append_bytes : Packet → (size : ℕ) → List ℕ → Option (Option ℕ × Packet)
append_bytes packet size bytes = do
  data_bytes ← copy_bytes size bytes packet.data_bytes
  some (
    some (length bytes),
    (packet_set_size (record packet { data_bytes = data_bytes }) (size + length bytes)).1,
  )

unfoldable pub packet_append_string : Packet → Text → Option (Option ℕ × Packet)
packet_append_string packet str =
    let size = packet_get_size packet in
    let addlen = add_len size (length str + 1) in
    if leb max_packet_size size || ltb addlen 1
    then some (none, packet)
    else append_bytes packet size (take (addlen - 1) str ++ 0 ∷ [])

-- `packet_append_ntstring` and `packet_append_data`
unfoldable pub packet_append_data : Packet → List ℕ → Option (Option ℕ × Packet)
packet_append_data packet bytes =
    let size = packet_get_size packet in
    let addlen = add_len size (length bytes) in
    if leb max_packet_size size || ltb addlen 1
    then some (none, packet)
    else append_bytes packet size (take addlen bytes)

abbrev pub with_char : ℕ → Option (Option Text) → Option (Option Text)
with_char c none = none
with_char c (some none) = some none
with_char c (some (some s)) = some (some (c ∷ s))

-- The loop of `packet_get_str_const`; `left` is `size-pos`, and `room` is `maxlen-(pos-offset)`.
-- The byte is read first.
unfoldable pub str_loop : List ℕ → (left : ℕ) → (room : ℕ) → Option (Option Text)
str_loop [] left room = none
str_loop (c ∷ bytes) zero room = some none
str_loop (c ∷ bytes) (suc left) zero = some none
str_loop (c ∷ bytes) (suc left) (suc room) =
    let rest = str_loop bytes left room in if c == 0 then some (some []) else with_char c rest

-- The string at the pointer that is returned, or none for NULL.
unfoldable pub packet_get_str_const : Packet → (offset : ℕ) → (maxlen : ℕ) → Option (Option Text)
packet_get_str_const packet offset maxlen =
    let size = packet_get_size packet in
    if leb size offset
    then some none
    else str_loop (drop offset packet.data_bytes) (size - offset) maxlen

-- The offset that the pointer is at, or none for NULL; the sum is one of 32 bits.
unfoldable pub packet_get_data_const : Packet → (offset : ℕ) → (len : ℕ) → Option ℕ
packet_get_data_const packet offset len =
    if ltb len 1 || ltb (packet_get_size packet) (u32 (offset + len)) then none else some offset
