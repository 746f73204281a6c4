-- ===== src/Packets/Contents/Tests.antt =====
-- Runs and examples on the contents of packets.
use Prim.Native.Nat.{min}
use bnetd.Prelude.{
  ℕ, ◌+◌, ◌-◌, ◌≡◌, refl, [], ◌∷◌, ◌++◌, none, some, length, length-append, length-replicate, take,
  drop, replicate, arith,
}
use bnetd.Prelude.Text.{codes}
use bnetd.Wire.{bn_short_get}
use bnetd.Packets.Contents.{
  Packet, bnet_class, raw_class, max_packet_size, size_field, raw_size, short_at, packet_get_size,
  packet_get_header_size, packet_append_string, packet_get_str_const, packet_get_data_const,
  str_loop,
}
use bnetd.Packets.Contents.Sizes.{IsPacket, IsAppended}
use bnetd.Packets.Contents.Strings.{before_nul, append_string-get_str, get_str_const-before_nul}

-- A packet of the class bnet that has only its header.
abbrev chat_packet : Packet
chat_packet = record {
  class = bnet_class;
  len = 0;
  data_bytes = (255 ∷ 15 ∷ 4 ∷ 0 ∷ []) ++ replicate 3068 0;
}

chat_packet-size : packet_get_size chat_packet ≡ 4
unfolding packet_get_size raw_size size_field short_at bn_short_get
chat_packet-size = refl

chat_packet-IsPacket : IsPacket chat_packet
unfolding size_field packet_get_header_size packet_get_size raw_size short_at bn_short_get
chat_packet-IsPacket = record {
  whole = omega (
    arith,
    length-append {A = ℕ} (255 ∷ 15 ∷ 4 ∷ 0 ∷ []) (replicate 3068 0),
    length-replicate {A = ℕ} 3068 0,
  );
  kept = refl;
  headed = omega arith;
}

append_string-get_str_example :
    let s = take (max_packet_size - 1 - packet_get_size chat_packet) (codes "Bob") in
    (p' : Packet) × (packet_append_string chat_packet (codes "Bob")
      ≡ some (some (length s + 1), p'))
    × IsAppended chat_packet (s ++ 0 ∷ []) p'
    × (packet_get_str_const p' (packet_get_size chat_packet) 16 ≡ some (some s))
append_string-get_str_example =
    append_string-get_str chat_packet (codes "Bob") 16 chat_packet-IsPacket
      (omega (arith, chat_packet-size)) (ground arith) (omega arith)

get_str_const-before_nul_example :
    packet_get_str_const chat_packet 2 16
    ≡ some (
        before_nul
          (take (min (packet_get_size chat_packet - 2) 16) (drop 2 chat_packet.data_bytes)))
get_str_const-before_nul_example =
    get_str_const-before_nul chat_packet 2 16 chat_packet-IsPacket.whole
      (omega (arith, chat_packet-size))

-- A full packet without a NUL at its end: the byte behind the buffer is read.
abbrev full_packet : Packet
full_packet = record { class = raw_class; len = 3072; data_bytes = replicate 3072 65 }

full_packet_overread : packet_get_str_const full_packet 3071 9 ≡ none
unfolding packet_get_str_const packet_get_size raw_size size_field str_loop
full_packet_overread = refl

-- An offset and a length whose sum wraps around.
wrapped_offset : packet_get_data_const full_packet 4294967295 2 ≡ some 4294967295
unfolding packet_get_data_const packet_get_size raw_size size_field
wrapped_offset = refl
