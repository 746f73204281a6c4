-- ===== src/CharLock/Refinement.antt =====
-- The tables of locks against the map that they stand for.
use bnetd.Prelude.{
  ℕ, ◌%◌, ◌<◌, ◌≡◌, refl, sym, ap, ◌∙◌, true, false, ◌||◌, List, [], ◌∷◌, Option, none, some, ◌==◌,
  arith, Bool-cases, inl, inr, if◌then◌else◌, ◌>>=◌,
}
use mathlib.Core.Path.{subst}
use bnetd.Prelude.Text.{Text}
use bnetd.Util.Case.{same_name}
use bnetd.Channel.{Rc, ok, fail}
use bnetd.CharLock.{
  LockTable, Status, unlocked, is_long, cl_query_charlock_status, cl_lock_char, cl_unlock_char,
  cl_unlock_all_char_by_gsid, cl_init, cl_destroy, free_chains, no_tables,
}
use bnetd.CharLock.Table.{IsTable}
use bnetd.CharLock.Lookup.{loose, query_held}
use bnetd.CharLock.Locking.{taken_by, IsTried, cl_lock_char-IsTried}
use bnetd.CharLock.Release.{cl_unlock_char-IsUnlocked}
use bnetd.CharLock.ReleaseAll.{freed, cl_unlock_all_char_by_gsid-IsReleased}

-- What the handlers of the database server call.
pub data Request : Type 0 where
  lock : (charname realmname : Text) (gsid : ℕ) → Request
  unlock : (charname : Text) → Request
  unlock_all : (gsid : ℕ) → Request

-- `malloc` by the state of the heap.
module _ (malloc : LockTable → Option ℕ) where
  unfoldable pub perform : Request → LockTable → Option (Rc × LockTable)
  perform (lock charname realmname gsid) t = cl_lock_char (malloc t) charname realmname gsid t
  perform (unlock charname) t = cl_unlock_char charname t
  perform (unlock_all gsid) t = do t' ← cl_unlock_all_char_by_gsid gsid t; some (ok, t')

  -- The outcomes, and the tables at the end.
  unfoldable pub serve : List Request → LockTable → Option (List Rc × LockTable)
  serve [] t = some ([], t)
  serve (request ∷ requests) t = do
    r ← perform request t
    rest ← serve requests r.1
    some (r.0 ∷ rest.0, rest.1)

-- What the requests mean for the state of a name, by their outcomes. `size` is the number of slots
-- for servers.
unfoldable pub meaning : (size : ℕ) → Request → Rc → Text → Option Status → Option Status
meaning size (lock charname realmname gsid) ok n st =
    if same_name charname n then taken_by gsid st else st
meaning size (lock charname realmname gsid) fail n st = st
meaning size (unlock charname) ok n st = if same_name charname n then some unlocked else st
meaning size (unlock charname) fail n st = st
meaning size (unlock_all gsid) rc n st = freed (gsid % size) size st

unfoldable pub meanings : (size : ℕ) → List Request → List Rc → Text → Option Status → Option Status
meanings size [] rcs n st = st
meanings size (request ∷ requests) [] n st = st
meanings size (request ∷ requests) (rc ∷ rcs) n st =
    meanings size requests rcs n (meaning size request rc n st)

record IsMeant (size : ℕ) (request : Request) (t : LockTable) (r : Rc × LockTable) : Type 0 where
  table : IsTable r.1
  sized : r.1.gsqtbl_len ≡ size
  means :
      (n : Text)
      → is_long n ≡ false
      → cl_query_charlock_status r.1 n ≡ meaning size request r.0 n (cl_query_charlock_status t n)

module _ (malloc : LockTable → Option ℕ)
    (fresh : (t : LockTable) (pcl : ℕ) → malloc t ≡ some pcl → t.info pcl ≡ none) where
  lock-IsMeant :
      (size : ℕ) (t : LockTable)
      → IsTable t
      → (name realm : Text) (gsid : ℕ) → t.gsqtbl_len ≡ size
      → (r : Rc × LockTable) → IsTried name gsid t r.0 r.1
      → IsMeant size (lock name realm gsid) t r
  unfolding meaning
  lock-IsMeant size t v name realm gsid sized (ok, t') l = record {
    table = l.table;
    sized = l.size ∙ sized;
    means = l.queries;
  }
  lock-IsMeant size t v name realm gsid sized (fail, t') same = record {
    table = subst IsTable (sym same) v;
    sized = ap (λ x. x.gsqtbl_len) same ∙ sized;
    means = λ n short. ap (λ x. cl_query_charlock_status x n) same;
  }

  perform-IsMeant :
      (size : ℕ) (request : Request) (t : LockTable)
      → IsTable t
      → t.gsqtbl_len ≡ size
      → (r : Rc × LockTable) × (perform malloc request t ≡ some r) × IsMeant size request t r
  unfolding perform meaning cl_unlock_char
  perform-IsMeant size (lock name realm gsid) t v sized =
      let (r, ran, tried) = cl_lock_char-IsTried t v name realm gsid (malloc t) (fresh t) in
      (r, ran, lock-IsMeant size t v name realm gsid sized r tried)
  perform-IsMeant size (unlock name) t v sized = elim (Bool-cases (is_long name)) [
    | inl e ↦ (
      (fail, t),
      rw (v.ready, e) refl,
      record { table = v; sized = sized; means = λ n short. refl },
    )
    | inr e ↦
        let (t', ran, u) = cl_unlock_char-IsUnlocked t v name e in
        ((ok, t'), ran, record { table = u.table; sized = u.size ∙ sized; means = u.queries })
  ]
  perform-IsMeant size (unlock_all gsid) t v sized =
      let (t', ran, r) = cl_unlock_all_char_by_gsid-IsReleased t v gsid in
      (
        (ok, t'),
        rw ran refl,
        record {
          table = r.table;
          sized = r.size ∙ sized;
          means = λ n short.
              r.queries n short ∙ ap (λ k. freed (gsid % k) k (cl_query_charlock_status t n)) sized;
        },
      )

  serve-means :
      (size : ℕ) (requests : List Request) (t : LockTable)
      → IsTable t
      → t.gsqtbl_len ≡ size
      → (rcs : List Rc) × (t' : LockTable) × (serve malloc requests t ≡ some (rcs, t'))
        × ((n : Text)
            → is_long n ≡ false
            → cl_query_charlock_status t' n
              ≡ meanings size requests rcs n (cl_query_charlock_status t n))
  unfolding serve meanings
  serve-means size [] t v sized = ([], t, refl, λ n short. refl)
  serve-means size (request ∷ requests) t v sized =
      let (r, ran, meant) = perform-IsMeant size request t v sized in
      let (rcs, t', served, means) = serve-means size requests r.1 meant.table meant.sized in
      (
        r.0 ∷ rcs,
        t',
        rw (ran, served) refl,
        λ n short. means n short ∙ ap (meanings size requests rcs n) (meant.means n short),
      )

-- The tables that `cl_init` makes.
abbrev pub first_tables : (tbllen maxgs : ℕ) → LockTable
first_tables tbllen maxgs = elim (cl_init true true tbllen maxgs no_tables) [
  | none ↦ no_tables
  | some r ↦ r.1
]

module _ (tbllen maxgs : ℕ) (some_names : 0 < tbllen) (some_servers : 0 < maxgs) where
  given : (tbllen == 0 || maxgs == 0) ≡ false
  given = ground arith

  first-IsTable : IsTable (first_tables tbllen maxgs)
  unfolding cl_init cl_destroy free_chains
  first-IsTable =
      rw (given, first_tables, cl_init)
        (record {
          ready = given;
          chained = λ k p h. ground arith;
          queued = λ k p h. ground arith;
          chain_distinct = λ k. tt;
          queue_distinct = λ k. tt;
          placed = λ p l h. ground arith;
          alone = λ p q l m h g e. ground arith;
        })

  first_empty :
      ((pcl : ℕ) → (first_tables tbllen maxgs).info pcl ≡ none)
      × ((first_tables tbllen maxgs).gsqtbl_len ≡ maxgs)
  unfolding cl_init cl_destroy free_chains
  first_empty = rw (given, first_tables, cl_init) (λ pcl. refl, refl)

  first_query :
      (n : Text)
      → is_long n ≡ false
      → cl_query_charlock_status (first_tables tbllen maxgs) n ≡ some unlocked
  first_query n short =
      query_held (first_tables tbllen maxgs) first-IsTable n unlocked short
        (loose (λ p l at. ground (arith, first_empty.0 p)))

  -- Where `malloc` gives an address that is not in use, if it gives one: from the tables that
  -- `cl_init` makes, with at least one slot each for names and servers, any requests run to their
  -- end without reading a lock that was freed. Then the query answers for each name of less than 16
  -- characters what the requests mean for it in turn, by their outcomes: a lock makes it held by
  -- the server if it was unlocked, an unlock makes it unlocked, in both cases up to the case of the
  -- name, a request that failed changes nothing, and the leaving of a server unlocks the names of
  -- all servers with the same remainder by the number of slots.
  pub serve-meanings :
      (malloc : LockTable → Option ℕ)
      → ((t : LockTable) (pcl : ℕ) → malloc t ≡ some pcl → t.info pcl ≡ none)
      → (requests : List Request)
      → (rcs : List Rc) × (t : LockTable) × (serve malloc requests (first_tables tbllen maxgs)
          ≡ some (rcs, t))
        × ((n : Text)
            → is_long n ≡ false
            → cl_query_charlock_status t n ≡ meanings maxgs requests rcs n (some unlocked))
  serve-meanings malloc fresh requests =
      let (rcs, t, served, means) =
        serve-means malloc fresh maxgs requests (first_tables tbllen maxgs) first-IsTable
          first_empty.1 in
      (
        rcs,
        t,
        served,
        λ n short. means n short ∙ ap (meanings maxgs requests rcs n) (first_query n short),
      )
