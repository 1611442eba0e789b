-- ===== src/Libc/LinkedList.antt =====
-- src/lib/list.c: doubly linked lists between two sentinel nodes, over an explicit store of links.
-- An address is a number, `NULL` is 0, and going through `NULL` gives `none`.
pub mod Chain
pub mod Insert
pub mod Remove
pub mod Search
pub mod Sort
pub mod Queue
mod Tests
use onix.Base.{
  ℕ, zero, suc, ◌+◌, ◌%◌, ◌^◌, Bool, true, false, not, Option, none, some, ◌==◌, if◌then◌else◌,
  ◌>>=◌, ◌>>◌, assert,
}
use onix.Base.Int.{ℤ, leb_ℤ}

-- The `list_node_t` at each address.
pub record Links : Type 0 where
  pub prev : ℕ → ℕ
  pub next : ℕ → ℕ

-- `list_t`, by the addresses of its two nodes.
pub record Ends : Type 0 where
  pub head : ℕ
  pub tail : ℕ

abbrev pub null : ℕ
null = 0

abbrev pub update : (ℕ → ℕ) → ℕ → ℕ → ℕ → ℕ
update f p v q = if p == q then v else f q

-- `p->prev`, `p->next`, `p->prev = v`, `p->next = v`
pub get_prev : ℕ → Links → Option ℕ
get_prev p s = if p == null then none else some (s.prev p)

pub get_next : ℕ → Links → Option ℕ
get_next p s = if p == null then none else some (s.next p)

pub set_prev : ℕ → ℕ → Links → Option Links
set_prev p v s = if p == null then none else some (record s { prev = update s.prev p v })

pub set_next : ℕ → ℕ → Links → Option Links
set_next p v s = if p == null then none else some (record s { next = update s.next p v })

-- `list_init`
pub init : Ends → Links → Option Links
init l s = do
  s ← set_prev l.head null s
  s ← set_next l.tail null s
  s ← set_next l.head l.tail s
  set_prev l.tail l.head s

-- `list_insert_before`
pub insert_before : ℕ → ℕ → Links → Option Links
insert_before anchor node s = do
  p ← get_prev anchor s
  s ← set_prev node p s
  s ← set_next node anchor s
  q ← get_prev anchor s
  s ← set_next q node s
  set_prev anchor node s

-- `list_insert_after`
pub insert_after : ℕ → ℕ → Links → Option Links
insert_after anchor node s = do
  s ← set_prev node anchor s
  n ← get_next anchor s
  s ← set_next node n s
  q ← get_next anchor s
  s ← set_prev q node s
  set_next anchor node s

-- The loop of `list_search` from `next` on, on fuel.
pub search_from : ℕ → Ends → ℕ → ℕ → Links → Option Bool
search_from zero l next node s = none
search_from (suc fuel) l next node s = elim (next == l.tail) [
  | true ↦ some false
  | false ↦ elim (next == node) [
    | true ↦ some true
    | false ↦ get_next next s >>= λ n. search_from fuel l n node s
  ]
]

-- `list_search`
pub search : ℕ → Ends → ℕ → Links → Option Bool
search fuel l node s = do n ← get_next l.head s; search_from fuel l n node s

-- `list_empty`
pub empty : Ends → Links → Option Bool
empty l s = do n ← get_next l.head s; some (n == l.tail)

-- `list_push`
pub push : ℕ → Ends → ℕ → Links → Option Links
push fuel l node s = do found ← search fuel l node s; assert (not found); insert_after l.head node s

-- `list_pushback`
pub pushback : ℕ → Ends → ℕ → Links → Option Links
pushback fuel l node s = do
  found ← search fuel l node s
  assert (not found)
  insert_before l.tail node s

-- `list_remove`
pub remove : ℕ → Links → Option Links
remove node s = do
  p ← get_prev node s
  assert (not (p == null))
  n ← get_next node s
  assert (not (n == null))
  s ← set_next p n s
  n ← get_next node s
  p ← get_prev node s
  s ← set_prev n p s
  s ← set_next node null s
  set_prev node null s

-- `list_pop`
pub pop : Ends → Links → Option (ℕ × Links)
pop l s = do
  none_left ← empty l s
  assert (not none_left)
  node ← get_next l.head s
  s ← remove node s
  some (node, s)

-- `list_popback`
pub popback : Ends → Links → Option (ℕ × Links)
popback l s = do
  none_left ← empty l s
  assert (not none_left)
  node ← get_prev l.tail s
  s ← remove node s
  some (node, s)

-- The loop of `list_size` from `next` on, on fuel.
pub size_from : ℕ → Ends → ℕ → ℕ → Links → Option ℕ
size_from zero l next size s = none
size_from (suc fuel) l next size s = elim (next == l.tail) [
  | true ↦ some size
  | false ↦ get_next next s >>= λ n. size_from fuel l n ((size + 1) % 2 ^ 32) s
]

-- `list_size`
pub size : ℕ → Ends → Links → Option ℕ
size fuel l s = do n ← get_next l.head s; size_from fuel l n 0 s

-- The loop of `list_insert_sort` from `ptr` on, on fuel: the node to insert before. `key` gives the
-- `int` at the offset from each node.
pub find_anchor : ℕ → (ℕ → ℤ) → Ends → ℕ → ℤ → Links → Option ℕ
find_anchor zero key l ptr k s = none
find_anchor (suc fuel) key l ptr k s = elim (ptr == l.tail) [
  | true ↦ some l.tail
  | false ↦ elim (leb_ℤ (key ptr) k) [
    | false ↦ some ptr
    | true ↦ get_next ptr s >>= λ n. find_anchor fuel key l n k s
  ]
]

-- `list_insert_sort`
pub insert_sort : ℕ → (ℕ → ℤ) → Ends → ℕ → Links → Option Links
insert_sort fuel key l node s = do
  first ← get_next l.head s
  anchor ← find_anchor fuel key l first (key node) s
  n ← get_next node s
  assert (n == null)
  p ← get_prev node s
  assert (p == null)
  insert_before anchor node s
