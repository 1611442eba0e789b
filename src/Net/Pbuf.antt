-- ===== src/Net/Pbuf.antt =====
-- src/net/pbuf.c: the packet buffers. A buffer is its address.
pub mod Users
mod Tests
use onix.Base.{
  ℕ, ◌+◌, ◌-◌, ◌%◌, ◌/◌, Bool, true, false, Option, none, some, List, [], ◌∷◌, ◌==◌, ltb, leb,
  if◌then◌else◌, ◌&&◌,
}
use onix.Libc.Nodes.{is_empty, unsnoc, put}

-- `free_pbuf_list`, `pbuf_count`, `free_count`, and the `count` of every buffer.
pub record Pool : Type 0 where
  pub free : List ℕ
  pub pbuf_count : ℕ
  pub free_count : ℕ
  pub users : ℕ → ℕ

-- The page that `alloc_kpage` gives becomes two buffers.
pub add_page : ℕ → Pool → Pool
add_page page s = record s {
  free = (page + 2048) ∷ page ∷ s.free;
  pbuf_count = s.pbuf_count + 2;
  free_count = s.free_count + 2;
}

-- `pbuf_get` from `list_popback` on; `none` where the `assert` fails.
pub take_last : Pool → Option (ℕ × Pool)
take_last s = elim (unsnoc s.free) [
  | none ↦ none
  | some r ↦
      if r.1 % 2048 == 0
      then some
          (r.1, record s { free = r.0; free_count = s.free_count - 1; users = put s.users r.1 1 })
      else none
]

-- `pbuf_get`, with the page that `alloc_kpage` would give.
pub pbuf_get : ℕ → Pool → Option (ℕ × Pool)
pbuf_get page s = take_last (if is_empty s.free then add_page page s else s)

-- `pbuf_put`; `none` where an `assert` fails.
pub pbuf_put : ℕ → Pool → Option Pool
pbuf_put p s =
    let n = s.users p - 1 in
    let t = record s { users = put s.users p n } in
    if (p % 2048 == 0) && (ltb 0 (s.users p) && leb (s.users p) 2)
    then (if ltb 0 n
        then some t
        else some (record t { free = p ∷ t.free; free_count = t.free_count + 1 }))
    else none
