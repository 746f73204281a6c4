-- ===== src/Packets/Contents/Strings.antt =====
-- Strings in a packet: what is appended is read again, and what a reader is given.
use Prim.Native.Nat.{min}
use bnetd.Prelude.{
  ℕ, zero, suc, ◌+◌, ◌-◌, ◌≤◌, ◌<◌, ◌≡◌, refl, ap, ◌∙◌, false, List, [], ◌∷◌, ◌++◌, Option, none,
  some, inl, inr, Bool-cases, ◌==◌, ltb, leb, if◌then◌else◌, length, length-append, length-take,
  length-drop, take, drop, arith,
}
use mathlib.Core.List.{append_assoc}
use bnetd.Prelude.Text.{Text}
use bnetd.Util.Unescape.{IsString}
use bnetd.Packets.Contents.{
  Packet, max_packet_size, packet_get_size, add_len, append_bytes, packet_append_string, with_char,
  str_loop, packet_get_str_const,
}
use bnetd.Packets.Contents.Sizes.{
  IsPacket, IsAppended, appended, appended-IsAppended, append_bytes-IsAppended,
}

-- The characters before the first NUL, if there is one.
abbrev pub before_nul : List ℕ → Option Text
before_nul [] = none
before_nul (c ∷ s) =
    if c == 0 then some [] else elim (before_nul s) [ none ↦ none | some t ↦ some (c ∷ t) ]

taken_same :
    (n m : ℕ) (bytes : List ℕ)
    → n ≡ m
    → some (before_nul (take n bytes)) ≡ some (before_nul (take m bytes))
taken_same n m bytes e = ap (λ k. some (before_nul (take k bytes))) e

with_found :
    (c : ℕ) (found : Option Text)
    → (if c == 0 then some (some []) else with_char c (some found))
      ≡ some (if c == 0 then some [] else elim found [ none ↦ none | some t ↦ some (c ∷ t) ])
with_found c none = ground arith
with_found c (some t) = ground arith

with_char-before_nul :
    (c : ℕ) (s : List ℕ)
    → (if c == 0 then some (some []) else with_char c (some (before_nul s)))
      ≡ some (before_nul (c ∷ s))
with_char-before_nul c s = with_found c (before_nul s)

str_loop-before_nul :
    (bytes : List ℕ) (left room : ℕ)
    → left < length bytes
    → str_loop bytes left room ≡ some (before_nul (take (min left room) bytes))
unfolding str_loop
str_loop-before_nul [] left room h = elim h [ ]
str_loop-before_nul (c ∷ bytes) zero room h = taken_same 0 (min 0 room) (c ∷ bytes) (omega arith)
str_loop-before_nul (c ∷ bytes) (suc left) zero h =
    taken_same 0 (min (suc left) 0) (c ∷ bytes) (omega arith)
str_loop-before_nul (c ∷ bytes) (suc left) (suc room) h =
    ap (λ r. if c == 0 then some (some []) else with_char c r)
      (str_loop-before_nul bytes left room (omega (arith, h)))
    ∙ with_char-before_nul c (take (min left room) bytes)
    ∙ taken_same (suc (min left room)) (min (suc left) (suc room)) (c ∷ bytes) (omega arith)

-- In a packet with room for a byte behind its end, the string that `packet_get_str_const` gives at
-- an offset is that before the first NUL of the packet's bytes from there, at most `maxlen` of
-- them; it gives NULL where the offset is behind the packet or there is no such NUL, and reads no
-- byte outside of the packet's.
pub get_str_const-before_nul :
    (p : Packet) (offset maxlen : ℕ)
    → length p.data_bytes ≡ max_packet_size
    → packet_get_size p < max_packet_size
    → packet_get_str_const p offset maxlen
      ≡ some
          (before_nul (take (min (packet_get_size p - offset) maxlen) (drop offset p.data_bytes)))
unfolding packet_get_str_const
get_str_const-before_nul p offset maxlen whole room =
    let size = packet_get_size p in
    let bytes = drop offset p.data_bytes in
    elim (Bool-cases (leb size offset)) [
      | inl e ↦
          let none_left : min (size - offset) maxlen ≡ 0 = ground (arith, e) in
          rw (e, none_left) refl
      | inr e ↦
          let inside : size - offset < length bytes =
            ground (arith, e, length-drop offset p.data_bytes, whole, room) in
          rw e (str_loop-before_nul bytes (size - offset) maxlen inside)
    ]

-- A string with its NUL is read up to there.
str_loop-append :
    (s rest : List ℕ) (left room : ℕ)
    → IsString s
    → length s < left
    → length s < room
    → str_loop (s ++ 0 ∷ rest) left room ≡ some (some s)
unfolding str_loop
str_loop-append s rest zero room v h k = elim h [ ]
str_loop-append s rest (suc left) zero v h k = elim k [ ]
str_loop-append [] rest (suc left) (suc room) v h k = refl
str_loop-append (c ∷ s) rest (suc left) (suc room) v h k =
    ground (arith, v.0, str_loop-append s rest left room v.2 (omega (arith, h)) (omega (arith, k)))

IsString-take : (n : ℕ) (s : Text) → IsString s → IsString (take n s)
IsString-take zero s v = tt
IsString-take (suc n) [] v = tt
IsString-take (suc n) (c ∷ s) v = (v.0, v.1, IsString-take n s v.2)

take_all : (n : ℕ) (s : Text) → length s ≤ n → take n s ≡ s
take_all zero [] h = refl
take_all zero (c ∷ s) h = elim h [ ]
take_all (suc n) [] h = refl
take_all (suc n) (c ∷ s) h = ap (λ t. c ∷ t) (take_all n s (omega (arith, h)))

-- The part of a string that there is room for.
take-add_len :
    (size : ℕ) (str : Text)
    → size < max_packet_size
    → take (add_len size (length str + 1) - 1) str ≡ take (max_packet_size - 1 - size) str
unfolding add_len
take-add_len size str h = elim (Bool-cases (ltb (length str + 1) (max_packet_size - size))) [
  | inl e ↦
      let fits : length str ≤ max_packet_size - 1 - size = ground (arith, e) in
      rw (e, take_all (max_packet_size - 1 - size) str fits)
        (take_all (length str + 1 - 1) str (omega arith))
  | inr e ↦ rw e (ap (λ k. take k str) (omega (arith, h)))
]

appends :
    (p : Packet) (str : Text)
    → packet_get_size p < max_packet_size
    → packet_append_string p str
      ≡ append_bytes p
          (packet_get_size p)
          (take (max_packet_size - 1 - packet_get_size p) str ++ 0 ∷ [])
unfolding packet_append_string add_len
appends p str room =
    let size = packet_get_size p in
    let open_end : leb max_packet_size size ≡ false = ground (arith, room) in
    let some_room : ltb (add_len size (length str + 1)) 1 ≡ false = ground (arith, room) in
    rw (open_end, some_room)
      (ap (λ s. append_bytes p size (s ++ 0 ∷ [])) (take-add_len size str room))

reads :
    (p : Packet) (start : ℕ) (s rest : Text) (maxlen : ℕ)
    → IsString s
    → packet_get_size p ≡ start + (length s + 1)
    → drop start p.data_bytes ≡ s ++ 0 ∷ rest
    → length s < maxlen
    → packet_get_str_const p start maxlen ≡ some (some s)
unfolding packet_get_str_const
reads p start s rest maxlen v size bytes k =
    let inside : leb (packet_get_size p) start ≡ false = ground (arith, size) in
    rw (inside, bytes)
      (str_loop-append s rest (packet_get_size p - start) maxlen v (omega (arith, size)) k)

-- In a packet whose size is kept in it, takes in the header, and leaves room,
-- `packet_append_string` appends the string, cut off where the packet is full, with a NUL: it
-- returns the number of bytes, by which the packet grows, and changes no other byte between the
-- header and the former end. `packet_get_str_const` at the former end then gives the string, for
-- any `maxlen` above its length.
pub append_string-get_str :
    (p : Packet) (str : Text) (maxlen : ℕ)
    → IsPacket p
    → packet_get_size p < max_packet_size
    → IsString str
    → length str < maxlen
    → let s = take (max_packet_size - 1 - packet_get_size p) str in
      (p' : Packet) × (packet_append_string p str ≡ some (some (length s + 1), p'))
      × IsAppended p (s ++ 0 ∷ []) p'
      × (packet_get_str_const p' (packet_get_size p) maxlen ≡ some (some s))
append_string-get_str p str maxlen v room w k =
    let size = packet_get_size p in
    let s = take (max_packet_size - 1 - size) str in
    let bytes = s ++ 0 ∷ [] in
    let long : length bytes ≡ length s + 1 = length-append s (0 ∷ []) in
    let cut : length s ≤ max_packet_size - 1 - size =
      omega (arith, length-take (max_packet_size - 1 - size) str) in
    let fit : size + length bytes ≤ max_packet_size = omega (arith, long, cut, room) in
    let t = appended-IsAppended p bytes v fit in
    (
      appended p bytes,
      appends p str room
          ∙ append_bytes-IsAppended p bytes v fit
          ∙ ap (λ n. some (some n, appended p bytes)) long,
      t,
      reads (appended p bytes) size s _ maxlen (IsString-take (max_packet_size - 1 - size) str w)
          (t.size ∙ ap (λ n. size + n) long)
          (t.there ∙ append_assoc s (0 ∷ []) (drop (size + length bytes) p.data_bytes))
          (omega (arith, k, length-take (max_packet_size - 1 - size) str)),
    )
