-- ===== src/CharLock/Table.antt =====
-- What holds of the tables of locks, and what a search in them finds.
use bnetd.Prelude.{
  ℕ, ◌%◌, ◌≡◌, refl, sym, ap, ◌∙◌, true, false, List, [], ◌∷◌, Option, none, some, ◌==◌, arith,
  Bool-cases, inl, inr,
}
use bnetd.Prelude.Text.{Text}
use bnetd.Util.Case.{same_name}
use bnetd.Channel.Invariant.{contains, AllDistinct}
use bnetd.CharLock.{CharLockInfo, LockTable, bucket, is_unset, is_long, search}
use bnetd.CharLock.Hash.{string_hash-same_name}

-- What a lock on the heap is: it stands in its two chains.
pub record IsPlaced (t : LockTable) (pcl : ℕ) (l : CharLockInfo) : Type 0 where
  pub in_chain : contains pcl (t.clitbl (bucket t l.charname)) ≡ true
  pub in_gsq : contains pcl (t.gsqtbl (l.gsid % t.gsqtbl_len)) ≡ true
  pub short : is_long l.charname ≡ false

-- Chains hold locks of the heap that belong there, once; each lock is in its chains; no two locks
-- have the same name.
pub record IsTable (t : LockTable) : Type 0 where
  pub ready : is_unset t ≡ false
  pub chained :
      (k pcl : ℕ)
      → contains pcl (t.clitbl k) ≡ true
      → (l : CharLockInfo) × (t.info pcl ≡ some l) × (bucket t l.charname ≡ k)
  pub queued :
      (k pcl : ℕ)
      → contains pcl (t.gsqtbl k) ≡ true
      → (l : CharLockInfo) × (t.info pcl ≡ some l) × (l.gsid % t.gsqtbl_len ≡ k)
  pub chain_distinct : (k : ℕ) → AllDistinct (t.clitbl k)
  pub queue_distinct : (k : ℕ) → AllDistinct (t.gsqtbl k)
  pub placed : (pcl : ℕ) (l : CharLockInfo) → t.info pcl ≡ some l → IsPlaced t pcl l
  pub alone :
      (p q : ℕ) (l m : CharLockInfo)
      → t.info p ≡ some l
      → t.info q ≡ some m
      → same_name l.charname m.charname ≡ true
      → p ≡ q

-- A lock with the name, or none at all.
pub data IsFound (t : LockTable) (name : Text) : Option ℕ → Type 0 where
  here :
      (pcl : ℕ) (l : CharLockInfo)
      → t.info pcl ≡ some l
      → same_name l.charname name ≡ true
      → IsFound t name (some pcl)
  nowhere :
      ((pcl : ℕ) (l : CharLockInfo) → t.info pcl ≡ some l → same_name l.charname name ≡ false)
      → IsFound t name none

-- The search in a chain.
data IsSearched (info : ℕ → Option CharLockInfo) (chain : List ℕ) (name : Text)
    : Option ℕ → Type 0 where
  hit :
      (pcl : ℕ) (l : CharLockInfo)
      → info pcl ≡ some l
      → same_name l.charname name ≡ true
      → IsSearched info chain name (some pcl)
  miss :
      ((pcl : ℕ) (l : CharLockInfo)
        → contains pcl chain ≡ true
        → info pcl ≡ some l
        → same_name l.charname name ≡ false)
      → IsSearched info chain name none

past_another :
    (info : ℕ → Option CharLockInfo) (p : ℕ) (chain : List ℕ) (name : Text) (l : CharLockInfo)
    (o : Option ℕ)
    → info p ≡ some l
    → same_name l.charname name ≡ false
    → IsSearched info chain name o
    → IsSearched info (p ∷ chain) name o
past_another info p chain name l _ at other (hit q m read same) = hit q m read same
past_another info p chain name l _ at other (miss none_there) = miss (λ q m listed read.
    elim (Bool-cases (p == q)) [
      | inl e ↦
          let own : p ≡ q = ground arith in
          let equal : some l ≡ some m = sym at ∙ ap info own ∙ read in
          let payload : l ≡ m = ground arith in
          ap (λ x. same_name x.charname name) (sym payload) ∙ other
      | inr e ↦ none_there q m (ground arith) read
    ])

search-IsSearched :
    (info : ℕ → Option CharLockInfo) (chain : List ℕ) (name : Text)
    → ((pcl : ℕ) → contains pcl chain ≡ true → (l : CharLockInfo) × (info pcl ≡ some l))
    → (o : Option ℕ) × (search info chain name ≡ some o) × IsSearched info chain name o
unfolding search
search-IsSearched info [] name h = (none, refl, miss (λ p l listed read. ground arith))
search-IsSearched info (p ∷ chain) name h =
    let (l, at) = h p (ground arith) in
    elim (Bool-cases (same_name l.charname name)) [
      | inl e ↦ (some p, rw (at, e) refl, hit p l at e)
      | inr e ↦
          let (o, run, found) =
            search-IsSearched info chain name (λ q listed. h q (ground arith)) in
          (o, rw (at, e) run, past_another info p chain name l o at e found)
    ]

by_chain :
    (t : LockTable) (v : IsTable t) (name : Text) (o : Option ℕ)
    → IsSearched t.info (t.clitbl (bucket t name)) name o
    → IsFound t name o
by_chain t v name _ (hit p l at same) = here p l at same
by_chain t v name _ (miss none_there) = nowhere (λ p l at.
    elim (Bool-cases (same_name l.charname name)) [
      | inl e ↦
          let moved =
            ap (λ h. t.clitbl (h % t.clitbl_len)) (string_hash-same_name l.charname name e) in
          let there = ap (contains p) (sym moved) ∙ (v.placed p l at).in_chain in
          ground (arith, none_there p l there at)
      | inr e ↦ e
    ])

-- The search reads no lock that was freed, and finds the lock with the name wherever it is.
pub search-IsFound :
    (t : LockTable)
    → IsTable t
    → (name : Text)
    → (o : Option ℕ) × (search t.info (t.clitbl (bucket t name)) name ≡ some o) × IsFound t name o
search-IsFound t v name =
    let (o, run, found) =
      search-IsSearched t.info (t.clitbl (bucket t name)) name
        (λ p listed. let (l, at, k) = v.chained (bucket t name) p listed in (l, at)) in
    (o, run, by_chain t v name o found)
