-- ===== src/Elems.antt =====
-- src/common/list.c: singly linked lists whose elements are marked when they are removed, and freed
-- later by `list_purge`, so that a traversal may go on from an element that was removed. The heap
-- maps an address to the element there, and to `none` where nothing is allocated; a read or write
-- there is `none` as the outcome of the operation. An address is a number, NULL is `none`.
pub mod Purge
pub mod Relink
pub mod Purging
pub mod Represent
pub mod Removal
mod Tests
use bnetd.Prelude.{
  ℕ, zero, suc, ◌+◌, ◌-◌, ◌^◌, Option, none, some, ◌==◌, Bool, u32, if◌then◌else◌, ◌>>=◌,
}

-- `item` is `data`, and `none` if it points to `nodata`.
pub record Elem : Type 0 where
  pub item : Option ℕ
  pub next : Option ℕ

abbrev pub Heap : Type 0
Heap = ℕ → Option Elem

unfoldable pub store : Heap → ℕ → Option Elem → Heap
store heap i e j = if j == i then e else heap j

pub record LinkedList : Type 0 where
  pub len : ℕ
  pub head : Option ℕ
  pub tail : Option ℕ

-- `if (change) *change = next;`, with the element that `change` points into.
unfoldable pub relink : Heap → Option ℕ → Option ℕ → Option Heap
relink heap none next = some heap
relink heap (some k) next = do e ← heap k; some (store heap k (some (record e { next = next })))

abbrev pub first_kept : Option ℕ → ℕ → ℕ
first_kept none curr = curr
first_kept (some head) curr = head

-- The loop of `list_purge`, with its variables.
unfoldable pub purge_loop :
    (fuel : ℕ) → Heap → (curr head tail change : Option ℕ) → Option (Heap × Option ℕ × Option ℕ)
purge_loop zero heap curr head tail change = none
purge_loop (suc fuel) heap none head tail change = some (heap, head, tail)
purge_loop (suc fuel) heap (some curr) head tail change = do
  e ← heap curr
  elim e.item [
    | none ↦ do
      relinked ← relink heap change e.next
      purge_loop fuel (store relinked curr none) e.next head tail change
    | some d ↦ purge_loop fuel heap e.next (some (first_kept head curr)) (some curr) (some curr)
  ]

unfoldable pub list_purge : (fuel : ℕ) → Heap → LinkedList → Option (Heap × LinkedList)
list_purge fuel heap list = do
  r ← purge_loop fuel heap list.head none none none
  some (r.0, record list { head = r.1; tail = r.2 })

abbrev pub or_else : Option ℕ → ℕ → Option ℕ
or_else none i = some i
or_else (some a) i = some a

-- `malloc` has given `elem`.
unfoldable pub list_prepend_data : Heap → LinkedList → (elem item : ℕ) → Option (Heap × LinkedList)
list_prepend_data heap list elem item = some (
  store heap elem (some (record { item = some item; next = list.head })),
  record { len = u32 (list.len + 1); head = some elem; tail = or_else list.tail elem },
)

unfoldable pub list_append_data : Heap → LinkedList → (elem item : ℕ) → Option (Heap × LinkedList)
list_append_data heap list elem item = do
  linked ←
      relink (store heap elem (some (record { item = some item; next = none }))) list.tail
        (some elem)
  some
      (linked, record { len = u32 (list.len + 1); head = or_else list.head elem; tail = some elem })

-- The second component tells whether the element was not deleted before.
unfoldable pub list_remove_elem : Heap → LinkedList → ℕ → Option (Bool × Heap × LinkedList)
list_remove_elem heap list elem = do
  e ← heap elem
  elim e.item [
    | none ↦ some (Bool.false, heap, list)
    | some d ↦ some (
      Bool.true,
      store heap elem (some (record e { item = none })),
      record list { len = u32 (list.len + 2 ^ 32 - 1) },
    )
  ]
