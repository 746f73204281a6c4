-- ===== src/Packets/Contents/Bytes.antt =====
-- Bytes that are written over others.
use bnetd.Prelude.{
  ℕ, zero, suc, ◌+◌, ◌≤◌, ◌<◌, ◌≡◌, refl, ap, ◌∙◌, List, [], ◌∷◌, ◌++◌, length, drop, get_or, arith,
}
use bnetd.Packets.Contents.{overlay, put_bytes}

length-overlay : (bs ds : List ℕ) → length bs ≤ length ds → length (overlay bs ds) ≡ length ds
unfolding overlay
length-overlay [] ds h = refl
length-overlay (b ∷ bs) [] h = elim h [ ]
length-overlay (b ∷ bs) (d ∷ ds) h = ap suc (length-overlay bs ds (omega (arith, h)))

pub length-put_bytes :
    (n : ℕ) (bs ds : List ℕ) → n + length bs ≤ length ds → length (put_bytes n bs ds) ≡ length ds
unfolding put_bytes
length-put_bytes zero bs ds h = length-overlay bs ds (omega (arith, h))
length-put_bytes (suc n) bs [] h = refl
length-put_bytes (suc n) bs (d ∷ ds) h = ap suc (length-put_bytes n bs ds (omega (arith, h)))

overlay-append :
    (bs ds : List ℕ) → length bs ≤ length ds → overlay bs ds ≡ bs ++ drop (length bs) ds
unfolding overlay
overlay-append [] ds h = refl
overlay-append (b ∷ bs) [] h = elim h [ ]
overlay-append (b ∷ bs) (d ∷ ds) h = ap (λ s. b ∷ s) (overlay-append bs ds (omega (arith, h)))

-- From where the bytes are written.
pub drop-put_bytes :
    (n : ℕ) (bs ds : List ℕ)
    → n + length bs ≤ length ds
    → drop n (put_bytes n bs ds) ≡ bs ++ drop (n + length bs) ds
unfolding put_bytes
drop-put_bytes zero bs ds h =
    overlay-append bs ds (omega (arith, h)) ∙ ap (λ k. bs ++ drop k ds) (omega arith)
drop-put_bytes (suc n) bs [] h = absurd (omega (arith, h))
drop-put_bytes (suc n) bs (d ∷ ds) h =
    drop-put_bytes n bs ds (omega (arith, h)) ∙ ap (λ k. bs ++ drop k (d ∷ ds)) step
  where
    step : suc (n + length bs) ≡ suc n + length bs
    step = omega arith

drop-overlay :
    (m : ℕ) (bs ds : List ℕ)
    → length bs ≤ m
    → length bs ≤ length ds
    → drop m (overlay bs ds) ≡ drop m ds
unfolding overlay
drop-overlay m [] ds h k = refl
drop-overlay m (b ∷ bs) [] h k = elim k [ ]
drop-overlay zero (b ∷ bs) (d ∷ ds) h k = elim h [ ]
drop-overlay (suc m) (b ∷ bs) (d ∷ ds) h k =
    drop-overlay m bs ds (omega (arith, h)) (omega (arith, k))

-- Behind the bytes that are written.
pub drop-put_bytes_behind :
    (m n : ℕ) (bs ds : List ℕ)
    → n + length bs ≤ m
    → n + length bs ≤ length ds
    → drop m (put_bytes n bs ds) ≡ drop m ds
unfolding put_bytes
drop-put_bytes_behind m zero bs ds h k = drop-overlay m bs ds (omega (arith, h)) (omega (arith, k))
drop-put_bytes_behind m (suc n) bs [] h k = refl
drop-put_bytes_behind zero (suc n) bs (d ∷ ds) h k = absurd (omega (arith, h))
drop-put_bytes_behind (suc m) (suc n) bs (d ∷ ds) h k =
    drop-put_bytes_behind m n bs ds (omega (arith, h)) (omega (arith, k))

-- Before the bytes that are written.
pub get_or-put_bytes :
    (i n : ℕ) (bs ds : List ℕ) → i < n → get_or (put_bytes n bs ds) i 0 ≡ get_or ds i 0
unfolding put_bytes
get_or-put_bytes i zero bs ds h = elim h [ ]
get_or-put_bytes i (suc n) bs [] h = refl
get_or-put_bytes zero (suc n) bs (d ∷ ds) h = refl
get_or-put_bytes (suc i) (suc n) bs (d ∷ ds) h = get_or-put_bytes i n bs ds (omega (arith, h))

-- A byte is the first of those from it on.
pub get_or-drop : (i : ℕ) (ds : List ℕ) → get_or ds i 0 ≡ get_or (drop i ds) 0 0
get_or-drop zero ds = refl
get_or-drop (suc i) [] = refl
get_or-drop (suc i) (d ∷ ds) = get_or-drop i ds

pub get_or-drop_next : (i : ℕ) (ds : List ℕ) → get_or ds (suc i) 0 ≡ get_or (drop i ds) 1 0
get_or-drop_next zero ds = refl
get_or-drop_next (suc i) [] = refl
get_or-drop_next (suc i) (d ∷ ds) = get_or-drop_next i ds
