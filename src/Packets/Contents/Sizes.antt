-- ===== src/Packets/Contents/Sizes.antt =====
-- The size of a packet after it is set, and after bytes are appended.
use bnetd.Prelude.{
  ℕ, ◌+◌, ◌^◌, ◌≤◌, ◌<◌, ◌≡◌, refl, sym, ap, ◌∙◌, Bool, true, false, List, [], ◌∷◌, ◌++◌, some, ltb,
  leb, length, drop, get_or, arith,
}
use bnetd.Wire.{BnShort, bn_short_get, bn_short_set}
use bnetd.Wire.Order.{fields-AreCodes}
use bnetd.Packets.Contents.{
  PacketClass, no_class, init_class, bnet_class, file_class, raw_class, bits_class, udp_class,
  d2game_class, d2gs_class, d2cs_class, d2cs_bnetd_class, auth_class, Packet, max_packet_size,
  SizeField, in_header, in_len, fixed, size_field, short_at, raw_size, packet_get_size, put_bytes,
  copy_bytes, is_size_for, put_size, packet_set_size, packet_get_header_size, append_bytes,
}
use bnetd.Packets.Contents.Bytes.{
  length-put_bytes, drop-put_bytes, drop-put_bytes_behind, get_or-put_bytes, get_or-drop,
  get_or-drop_next,
}

-- The size of the class varies.
abbrev pub is_kept : SizeField → Bool
is_kept (in_header offset) = true
is_kept in_len = true
is_kept (fixed _) = false

-- Where the size's field ends.
abbrev pub field_end : SizeField → ℕ
field_end (in_header offset) = offset + 2
field_end in_len = 0
field_end (fixed _) = 0

field_end-size_field : (c : PacketClass) → field_end (size_field c) ≤ packet_get_header_size c
unfolding size_field packet_get_header_size
field_end-size_field no_class = omega arith
field_end-size_field init_class = omega arith
field_end-size_field bnet_class = omega arith
field_end-size_field file_class = omega arith
field_end-size_field raw_class = omega arith
field_end-size_field bits_class = omega arith
field_end-size_field udp_class = omega arith
field_end-size_field d2game_class = omega arith
field_end-size_field d2gs_class = omega arith
field_end-size_field d2cs_class = omega arith
field_end-size_field d2cs_bnetd_class = omega arith
field_end-size_field auth_class = omega arith

is_size_for-header :
    (c : PacketClass) (n : ℕ)
    → is_kept (size_field c) ≡ true
    → packet_get_header_size c ≤ n
    → is_size_for c n ≡ true
unfolding size_field packet_get_header_size is_size_for
is_size_for-header no_class n h k = ground (arith, h)
is_size_for-header init_class n h k = ground (arith, h)
is_size_for-header bnet_class n h k = ground (arith, k)
is_size_for-header file_class n h k = ground (arith, k)
is_size_for-header raw_class n h k = refl
is_size_for-header bits_class n h k = ground (arith, k)
is_size_for-header udp_class n h k = ground (arith, k)
is_size_for-header d2game_class n h k = refl
is_size_for-header d2gs_class n h k = refl
is_size_for-header d2cs_class n h k = refl
is_size_for-header d2cs_bnetd_class n h k = refl
is_size_for-header auth_class n h k = ground (arith, k)

-- A field that is put at an offset is read there.
short_at-put_bytes :
    (offset : ℕ) (f : BnShort) (ds : List ℕ)
    → offset + 2 ≤ length ds
    → short_at offset (put_bytes offset (f.b0 ∷ f.b1 ∷ []) ds) ≡ f
unfolding short_at
short_at-put_bytes offset f ds h =
    let new = put_bytes offset (f.b0 ∷ f.b1 ∷ []) ds in
    let there = drop-put_bytes offset (f.b0 ∷ f.b1 ∷ []) ds h in
    rw (get_or-drop offset new, get_or-drop_next offset new, there) refl

raw_size-put_size :
    (f : SizeField) (n : ℕ) (p : Packet)
    → is_kept f ≡ true
    → n < 2 ^ 16
    → field_end f ≤ length p.data_bytes
    → raw_size f (put_size f n p) ≡ n
unfolding raw_size put_size
raw_size-put_size (in_header offset) n p k h fit =
    ap bn_short_get (short_at-put_bytes offset (bn_short_set n) p.data_bytes fit)
    ∙ (fields-AreCodes n 0 0 0 h (omega arith) (omega arith) (omega arith)).0.little
raw_size-put_size in_len n p k h fit = refl
raw_size-put_size (fixed m) n p k h fit = ground (arith, k)

put_size-class : (f : SizeField) (n : ℕ) (p : Packet) → (put_size f n p).class ≡ p.class
unfolding put_size
put_size-class (in_header offset) n p = refl
put_size-class in_len n p = refl
put_size-class (fixed m) n p = refl

-- The bytes behind the size's field, as they are and their number.
put_size-bytes :
    (f : SizeField) (n : ℕ) (p : Packet)
    → field_end f ≤ length p.data_bytes
    → (length (put_size f n p).data_bytes ≡ length p.data_bytes)
      × ((m : ℕ) → field_end f ≤ m → drop m (put_size f n p).data_bytes ≡ drop m p.data_bytes)
unfolding put_size
put_size-bytes (in_header offset) n p fit =
    let field = bn_short_set n in
    (
      length-put_bytes offset (field.b0 ∷ field.b1 ∷ []) p.data_bytes fit,
      λ m h. drop-put_bytes_behind m offset (field.b0 ∷ field.b1 ∷ []) p.data_bytes h fit,
    )
put_size-bytes in_len n p fit = (refl, λ m h. refl)
put_size-bytes (fixed k) n p fit = (refl, λ m h. refl)

-- A packet whose size is kept in it and takes in its header.
pub record IsPacket (p : Packet) : Type 0 where
  pub whole : length p.data_bytes ≡ max_packet_size
  pub kept : is_kept (size_field p.class) ≡ true
  pub headed : packet_get_header_size p.class ≤ packet_get_size p

-- The packet after bytes are copied behind it.
abbrev pub appended : Packet → List ℕ → Packet
appended p bytes =
    let size = packet_get_size p in
    put_size (size_field p.class) (size + length bytes)
      (record p { data_bytes = put_bytes size bytes p.data_bytes })

-- What bytes that are copied behind a packet make of it.
pub record IsAppended (p : Packet) (bytes : List ℕ) (p' : Packet) : Type 0 where
  pub packet : IsPacket p'
  pub size : packet_get_size p' ≡ packet_get_size p + length bytes
  pub there :
      drop (packet_get_size p) p'.data_bytes
      ≡ bytes ++ drop (packet_get_size p + length bytes) p.data_bytes
  pub before :
      (i : ℕ)
      → packet_get_header_size p.class ≤ i
      → i < packet_get_size p
      → get_or p'.data_bytes i 0 ≡ get_or p.data_bytes i 0

packet_get_size-raw_size :
    (p : Packet) (n : ℕ)
    → raw_size (size_field p.class) p ≡ n
    → n ≤ max_packet_size
    → packet_get_size p ≡ n
unfolding packet_get_size
packet_get_size-raw_size p n e h = ground (arith, e, h)

appended-size :
    (p : Packet) (bytes : List ℕ)
    → IsPacket p
    → packet_get_size p + length bytes ≤ max_packet_size
    → packet_get_size (appended p bytes) ≡ packet_get_size p + length bytes
appended-size p bytes v room =
    let f = size_field p.class in
    let size = packet_get_size p in
    let n = size + length bytes in
    let q : Packet = record p { data_bytes = put_bytes size bytes p.data_bytes } in
    let long = length-put_bytes size bytes p.data_bytes (omega (arith, v.whole, room)) in
    let fit : field_end f ≤ length q.data_bytes =
      omega (arith, long, v.whole, field_end-size_field p.class, v.headed, room) in
    packet_get_size-raw_size (appended p bytes) n
      (ap (λ c. raw_size (size_field c) (appended p bytes)) (put_size-class f n q)
        ∙ raw_size-put_size f n q v.kept (omega (arith, room)) fit)
      room

pub appended-IsAppended :
    (p : Packet) (bytes : List ℕ)
    → IsPacket p
    → packet_get_size p + length bytes ≤ max_packet_size
    → IsAppended p bytes (appended p bytes)
appended-IsAppended p bytes v room =
    let f = size_field p.class in
    let size = packet_get_size p in
    let n = size + length bytes in
    let q : Packet = record p { data_bytes = put_bytes size bytes p.data_bytes } in
    let ends = field_end-size_field p.class in
    let long = length-put_bytes size bytes p.data_bytes (omega (arith, v.whole, room)) in
    let (length', behind) =
      put_size-bytes f n q (omega (arith, long, v.whole, ends, v.headed, room)) in
    let same = put_size-class f n q in
    let size' = appended-size p bytes v room in
    record {
      packet = record {
        whole = length' ∙ long ∙ v.whole;
        kept = ap (λ c. is_kept (size_field c)) same ∙ v.kept;
        headed = omega (arith, ap packet_get_header_size same, size', v.headed);
      };
      size = size';
      there =
          behind size (omega (arith, ends, v.headed))
          ∙ drop-put_bytes size bytes p.data_bytes (omega (arith, v.whole, room));
      before = λ i h k.
          get_or-drop i (appended p bytes).data_bytes
          ∙ ap (λ ds. get_or ds 0 0) (behind i (omega (arith, ends, h)))
          ∙ sym (get_or-drop i q.data_bytes)
          ∙ get_or-put_bytes i size bytes p.data_bytes k;
    }

pub append_bytes-IsAppended :
    (p : Packet) (bytes : List ℕ)
    → IsPacket p
    → packet_get_size p + length bytes ≤ max_packet_size
    → append_bytes p (packet_get_size p) bytes ≡ some (some (length bytes), appended p bytes)
unfolding append_bytes copy_bytes packet_set_size
append_bytes-IsAppended p bytes v room =
    let size = packet_get_size p in
    let fit : leb (size + length bytes) (length p.data_bytes) ≡ true =
      ground (arith, v.whole, room) in
    let small : ltb max_packet_size (size + length bytes) ≡ false = ground (arith, room) in
    let taken = is_size_for-header p.class (size + length bytes) v.kept (omega (arith, v.headed)) in
    rw (fit, small, taken) refl
