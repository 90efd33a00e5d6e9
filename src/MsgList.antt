-- ===== src/MsgList.antt =====
-- msg_list_manager.c: the list of callbacks that every message goes to, as a linked list on a heap
-- with a first node that has no callback. An address is a number, and 0 is NULL; a callback is its
-- address, and `none` is NULL. A loop has fuel. `none` as an outcome is a fault: an access to memory
-- that is not allocated, or fuel that runs out. `malloc` gives the address in the argument, or 0.
pub mod Chain
pub mod Register
pub mod Remove
pub mod Detach
pub mod Unregister
pub mod Lifetime
pub mod History
mod Tests
use cvr_video.Base.{
  ℕ, zero, suc, List, [], ◌∷◌, ◌++◌, Bool, true, false, not, ◌&&◌, ◌||◌, ◌==◌, if◌then◌else◌,
  Option, none, some, ◌>>=◌,
}

-- `struct type_node`
pub record Node : Type 0 where
  pub callback : Option ℕ
  pub next : ℕ

abbrev pub Heap : Type 0
Heap = ℕ → Option Node

-- g_listHead and the memory.
pub record Memory : Type 0 where
  pub list_head : ℕ
  pub heap : Heap

abbrev pub write : ℕ → Node → Heap → Heap
write a n h b = if a == b then some n else h b

abbrev pub released : ℕ → Heap → Heap
released a h b = if a == b then none else h b

abbrev pub free : ℕ → Heap → Option Heap
free a h = h a >>= λ n. some (released a h)

abbrev pub set_next : ℕ → ℕ → Heap → Option Heap
set_next a next h = h a >>= λ n. some (write a (record n { next = next }) h)

abbrev pub empty_node : Node
empty_node = record { callback = none; next = 0 }

abbrev pub same_callback : Option ℕ → Option ℕ → Bool
same_callback none none = true
same_callback (some f) (some g) = f == g
same_callback _ _ = false

unfoldable pub init_list : ℕ → Memory → ℕ × Memory
init_list a s =
    if a == 0
    then (0, record s { list_head = 0 })
    else (a, record s { list_head = a; heap = write a empty_node s.heap })

-- The loop to the last node.
unfoldable pub last_from : ℕ → ℕ → Heap → Option ℕ
last_from zero l h = none
last_from (suc fuel) l h =
    h l >>= λ n. elim (n.next == 0) [ true ↦ some l | false ↦ last_from fuel n.next h ]

unfoldable pub append_list : ℕ → ℕ → Option ℕ → ℕ → Heap → Option (ℕ × Heap)
append_list fuel l cb a h =
    if l == 0 || a == 0
    then some (0, h)
    else last_from fuel l (write a empty_node h) >>= λ e.
        set_next e a (write a (record { callback = cb; next = 0 }) h) >>= λ h'. some (a, h')

unfoldable pub reg_entry : ℕ → Option ℕ → ℕ → Memory → Option (ℕ × Memory)
reg_entry fuel cb a s =
    append_list fuel s.list_head cb a s.heap >>= λ r. some (r.0, record s { heap = r.1 })

-- The loop of unreg_entry; 0 if no node has the callback.
unfoldable pub find_from : ℕ → Option ℕ → ℕ → Heap → Option ℕ
find_from zero cb p h = none
find_from (suc fuel) cb p h = elim (p == 0) [
  | true ↦ some 0
  | false ↦ h p >>= λ n. elim (same_callback n.callback cb) [
    | true ↦ some p
    | false ↦ find_from fuel cb n.next h
  ]
]

-- The loop of deleteNode: the node before `node`, 0 if there is none.
unfoldable pub before_from : ℕ → ℕ → ℕ → ℕ → Heap → Option ℕ
before_from zero node pre p h = none
before_from (suc fuel) node pre p h = elim (p == node) [
  | true ↦ some pre
  | false ↦ h p >>= λ n. before_from fuel node p n.next h
]

unfoldable pub delete_node : ℕ → ℕ → Memory → Option (ℕ × Memory)
delete_node fuel node s =
    if node == 0
    then some (0, s)
    else before_from fuel node 0 s.list_head s.heap >>= λ pre. s.heap node >>= λ n.
        set_next pre n.next s.heap >>= λ h. free node h >>= λ h'. some (1, record s { heap = h' })

unfoldable pub unreg_entry : ℕ → Option ℕ → Memory → Option (ℕ × Memory)
unreg_entry fuel none s = delete_node fuel 0 s
unreg_entry fuel (some cb) s =
    find_from fuel (some cb) s.list_head s.heap >>= λ node. delete_node fuel node s

-- The loop of destoryList.
unfoldable pub destroy_from : ℕ → ℕ → Heap → Option Heap
destroy_from zero p h = none
destroy_from (suc fuel) p h = elim (p == 0) [
  | true ↦ some h
  | false ↦ h p >>= λ n. free p h >>= λ h'. destroy_from fuel n.next h'
]

unfoldable pub deinit_list : ℕ → Memory → Option Memory
deinit_list fuel s =
    if s.list_head == 0
    then some s
    else destroy_from fuel s.list_head s.heap >>= λ h. some (record { list_head = 0; heap = h })

abbrev pub called : Option ℕ → List ℕ
called none = []
called (some f) = f ∷ []

-- The callbacks that a message goes to, in order; they leave the list alone.
unfoldable pub dispatch_from : ℕ → ℕ → Heap → Option (List ℕ)
dispatch_from zero p h = none
dispatch_from (suc fuel) p h = h p >>= λ n. elim (n.next == 0) [
  | true ↦ some (called n.callback)
  | false ↦ dispatch_from fuel n.next h >>= λ more. some (called n.callback ++ more)
]

unfoldable pub dispatch_msg : ℕ → Memory → Option (List ℕ)
dispatch_msg fuel s = if s.list_head == 0 then some [] else dispatch_from fuel s.list_head s.heap
