-- ===== src/Dll.antt =====
-- Doubly linked lists of structs with a head and a tail, as cache_code keeps four of them: the code of
-- fuse-3.0.2/example/cache_code/{cache,openFile,filesystem}.c that moves their pointers. A pointer is
-- a number, the null pointer 0; a field of all structs is a function of the pointer.
pub mod Chained
pub mod Refine
pub mod Removal
pub mod Moves
pub mod Again
use cycology.Base.{ℕ, Bool, Option, none, some, not, ◌&&◌, ◌==◌, if◌then◌else◌, ◌>>=◌, store}

pub record Dll : Type 0 where
  pub head : ℕ
  pub tail : ℕ
  pub next : ℕ → ℕ
  pub prev : ℕ → ℕ

-- a struct that is in no list becomes the head
unfoldable pub add_to_head : Dll → ℕ → Dll
add_to_head d x =
    let prev = store d.prev x 0 in
    record d {
      head = x;
      tail = if d.head == 0 then x else d.tail;
      next = store d.next x d.head;
      prev = if d.head == 0 then prev else store prev d.head x;
    }

-- A struct that is in the list becomes the head. The code stores `x` in the field `prev` of the struct
-- before it.
unfoldable pub move_to_head : Dll → ℕ → Dll
move_to_head d x =
    let before = d.prev x in
    let after = d.next x in
    let prev = store d.prev before x in
    if before == 0 then d else record d {
      head = x;
      tail = if after == 0 then before else d.tail;
      next = store (store d.next before after) x d.head;
      prev = store (if after == 0 then prev else store prev after before) x 0;
    }

-- A struct whose two fields are null becomes the tail.
unfoldable pub add_to_tail : Dll → ℕ → Dll
add_to_tail d x =
    if (d.next x == 0) && (d.prev x == 0)
    then record d {
      head = if d.tail == 0 then x else d.head;
      tail = x;
      next = if d.tail == 0 then store d.next x 0 else store (store d.next x 0) d.tail x;
      prev = store d.prev x d.tail;
    }
    else d

-- the same where the list is empty first
unfoldable pub append_to_tail : Dll → ℕ → Dll
append_to_tail d x =
    if (d.next x == 0) && (d.prev x == 0)
    then (if d.tail == 0
        then record d { head = x; tail = x }
        else record d { tail = x; next = store d.next d.tail x; prev = store d.prev x d.tail })
    else d

-- the first half of a removal; `none`: a store through the null pointer
unfoldable pub unlink_next : Dll → ℕ → Option Dll
unlink_next d x =
    if x == d.head
    then some (record d { head = d.next x })
    else if d.prev x == 0
    then none
    else some (record d { next = store d.next (d.prev x) (d.next x) })

-- the second half
unfoldable pub unlink_prev : Dll → ℕ → Option Dll
unlink_prev d x =
    if x == d.tail
    then some (record d { tail = d.prev x })
    else if d.next x == 0
    then none
    else some (record d { prev = store d.prev (d.next x) (d.prev x) })

-- a removal; the fields of the struct keep what they hold
unfoldable pub unlink : Dll → ℕ → Option Dll
unlink d x = unlink_next d x >>= λ d'. unlink_prev d' x
