-- ===== src/CharLock.antt =====
-- src/d2dbs/charlock.c: which characters of the database are in use by which game server. A lock is
-- found by the character's name, in a hash table of chains, and by its server, in a second table. A
-- lock is an address, NULL is `none`; what it points to is on a heap, and reading a lock that was
-- freed is `none` as the outcome. The chains `next` and `gsqnext`/`gsqprev` are lists of addresses.
pub mod Hash
pub mod Chain
pub mod Table
pub mod Lookup
pub mod Growth
pub mod Locking
pub mod Release
pub mod ReleaseAll
pub mod Refinement
mod Tests
use bnetd.Prelude.{
  ℕ, zero, suc, ◌+◌, ◌-◌, ◌*◌, ◌/◌, ◌%◌, ◌^◌, Bool, true, false, ◌&&◌, ◌||◌, not, List, [], ◌∷◌,
  ◌++◌, Option, none, some, ◌==◌, ltb, u32, if◌then◌else◌, ◌>>=◌, length, take,
}
use bnetd.Prelude.Text.{Text}
use bnetd.Util.Case.{fold_case, same_name}
use bnetd.Channel.{Rc, ok, fail, update}

pub record CharLockInfo : Type 0 where
  pub charname : Text
  pub realmname : Text
  pub gsid : ℕ

-- `clitbl_len`, `gsqtbl_len`, the two tables, and the heap.
pub record LockTable : Type 0 where
  pub clitbl_len : ℕ
  pub gsqtbl_len : ℕ
  pub clitbl : ℕ → List ℕ
  pub gsqtbl : ℕ → List ℕ
  pub info : ℕ → Option CharLockInfo

-- What `cl_query_charlock_status` returns: -1, 0, or 1 with the server.
pub data Status : Type 0 where
  invalid unlocked : Status
  locked : (gsid : ℕ) → Status

-- `^` on numbers of `bits` bits.
unfoldable pub xor : (bits : ℕ) → ℕ → ℕ → ℕ
xor zero a b = 0
xor (suc bits) a b = (a + b) % 2 + 2 * xor bits (a / 2) (b / 2)

-- `ROTL(x,n,32)`; the two shifted parts have no bit in common, so `|` is their sum.
unfoldable pub rotl : ℕ → ℕ → ℕ
rotl x n = if n % 32 == 0 then x else u32 (x * 2 ^ (n % 32)) + x / 2 ^ (32 - n % 32)

-- `tolower` of what `isascii` accepts.
unfoldable pub hash_char : ℕ → ℕ
hash_char c = if ltb c 128 then fold_case c else c

unfoldable pub hash_loop : Text → (pos hash : ℕ) → ℕ
hash_loop [] pos hash = hash
hash_loop (c ∷ s) pos hash = hash_loop s (u32 (pos + 7)) (xor 32 hash (rotl (hash_char c) pos))

unfoldable pub string_hash : Text → ℕ
string_hash s = hash_loop s 0 0

abbrev pub bucket : LockTable → Text → ℕ
bucket t charname = string_hash charname % t.clitbl_len

-- The early returns: no tables, or a name of MAX_CHARNAME_LEN characters or more.
abbrev pub is_unset : LockTable → Bool
is_unset t = t.clitbl_len == 0 || t.gsqtbl_len == 0

abbrev pub is_long : Text → Bool
is_long charname = not (ltb (length charname) 16)

-- The search in a chain: the lock with the name, if there is one.
unfoldable pub search : (ℕ → Option CharLockInfo) → List ℕ → Text → Option (Option ℕ)
search info [] charname = some none
search info (pcl ∷ chain) charname =
    let rest = search info chain charname in
    do l ← info pcl; if same_name l.charname charname then some (some pcl) else rest

unfoldable pub cl_query_charlock_status : LockTable → Text → Option Status
cl_query_charlock_status t charname = if is_unset t || is_long charname then some invalid else (do
  found ← search t.info (t.clitbl (bucket t charname)) charname
  elim found [ none ↦ some unlocked | some pcl ↦ do l ← t.info pcl; some (locked l.gsid) ])

unfoldable pub cl_insert_to_gsq_list : ℕ → ℕ → LockTable → LockTable
cl_insert_to_gsq_list gsid pcl t =
    let index_pos = gsid % t.gsqtbl_len in
    record t { gsqtbl = update t.gsqtbl index_pos (pcl ∷ t.gsqtbl index_pos) }

-- The lock `pcl` is made for a name that is not found.
unfoldable pub add_lock : Text → Text → ℕ → ℕ → LockTable → LockTable
add_lock charname realmname gsid pcl t = cl_insert_to_gsq_list gsid pcl (record t {
  clitbl = update t.clitbl (bucket t charname) (t.clitbl (bucket t charname) ++ pcl ∷ []);
  info =
      update t.info pcl
        (some (record { charname = charname; realmname = take 31 realmname; gsid = gsid }));
})

-- `fresh` is what `malloc` returns.
unfoldable pub cl_lock_char :
    (fresh : Option ℕ) → Text → Text → ℕ → LockTable → Option (Rc × LockTable)
cl_lock_char fresh charname realmname gsid t =
    if is_unset t || is_long charname then some (fail, t) else (do
      found ← search t.info (t.clitbl (bucket t charname)) charname
      elim found [
        | some pcl ↦ some (ok, t)
        | none ↦ elim fresh [
          | none ↦ some (fail, t)
          | some pcl ↦ some (ok, add_lock charname realmname gsid pcl t)
        ]
      ])

-- A lock is taken out of a chain.
unfoldable pub erase : ℕ → List ℕ → List ℕ
erase pcl [] = []
erase pcl (p ∷ chain) = if p == pcl then chain else p ∷ erase pcl chain

unfoldable pub cl_delete_from_gsq_list : ℕ → ℕ → LockTable → LockTable
cl_delete_from_gsq_list gsid pcl t =
    let index_pos = gsid % t.gsqtbl_len in
    record t { gsqtbl = update t.gsqtbl index_pos (erase pcl (t.gsqtbl index_pos)) }

-- The lock `pcl` is taken out of both tables and freed.
unfoldable pub drop_lock : Text → ℕ → ℕ → LockTable → LockTable
drop_lock charname gsid pcl t =
    let t' = cl_delete_from_gsq_list gsid pcl t in
    record t' {
      clitbl = update t'.clitbl (bucket t' charname) (erase pcl (t'.clitbl (bucket t' charname)));
      info = update t'.info pcl none;
    }

unfoldable pub cl_unlock_char : Text → LockTable → Option (Rc × LockTable)
cl_unlock_char charname t =
    if is_unset t then some (ok, t) else if is_long charname then some (fail, t) else (do
      found ← search t.info (t.clitbl (bucket t charname)) charname
      elim found [
        | none ↦ some (ok, t)
        | some pcl ↦ do l ← t.info pcl; some (ok, drop_lock charname l.gsid pcl t)
      ])

unfoldable pub unlock_loop : List ℕ → LockTable → Option LockTable
unlock_loop [] t = some t
unlock_loop (pcl ∷ chain) t = do
  l ← t.info pcl
  r ← cl_unlock_char l.charname t
  unlock_loop chain r.1

-- `gsid % gsqtbl_len` has no value where there are no tables.
unfoldable pub cl_unlock_all_char_by_gsid : ℕ → LockTable → Option LockTable
cl_unlock_all_char_by_gsid gsid t =
    if t.gsqtbl_len == 0 then none else unlock_loop (t.gsqtbl (gsid % t.gsqtbl_len)) t

-- The loops of `cl_destroy`: `free` of the locks of a chain, and of the chains before an index.
unfoldable pub free_chain : List ℕ → (ℕ → Option CharLockInfo) → ℕ → Option CharLockInfo
free_chain [] info = info
free_chain (ptmp ∷ ptl) info = free_chain ptl (update info ptmp none)

unfoldable pub free_chains : ℕ → (ℕ → List ℕ) → (ℕ → Option CharLockInfo) → ℕ → Option CharLockInfo
free_chains zero clitbl info = info
free_chains (suc i) clitbl info = free_chain (clitbl i) (free_chains i clitbl info)

unfoldable pub cl_destroy : LockTable → LockTable
cl_destroy t = record {
  clitbl_len = 0;
  gsqtbl_len = 0;
  clitbl = λ k. [];
  gsqtbl = λ k. [];
  info = free_chains t.clitbl_len t.clitbl t.info;
}

-- `clitbl_mem` and `gsqtbl_mem` tell whether the tables are allocated. Where only the first one is,
-- it is freed and `clitbl` still points to it: no state of the model, and the outcome is `none`.
unfoldable pub cl_init :
    (clitbl_mem gsqtbl_mem : Bool) → (tbllen maxgs : ℕ) → LockTable → Option (Rc × LockTable)
cl_init clitbl_mem gsqtbl_mem tbllen maxgs t =
    if tbllen == 0 || maxgs == 0
    then some (fail, t)
    else if not clitbl_mem
    then some (fail, cl_destroy t)
    else if not gsqtbl_mem
    then none
    else some (ok, record (cl_destroy t) { clitbl_len = tbllen; gsqtbl_len = maxgs })

-- The tables before the first call.
abbrev pub no_tables : LockTable
no_tables = record {
  clitbl_len = 0;
  gsqtbl_len = 0;
  clitbl = λ k. [];
  gsqtbl = λ k. [];
  info = λ pcl. none;
}
