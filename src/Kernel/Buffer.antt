-- ===== src/Kernel/Buffer.antt =====
-- src/kernel/buffer.c: the cache of disk blocks of one size. A buffer is its address, and a task its
-- own. What the disk answers is an argument of `bread`, `bwrite` and `brelse`.
pub mod Inv
pub mod Choose
pub mod Get
pub mod Release
pub mod Blocks
mod Tests
use onix.Base.{
  ℕ, zero, suc, ◌+◌, ◌-◌, ◌*◌, ◌/◌, ◌%◌, ◌^◌, Bool, true, false, not, Option, none, some, List, [],
  ◌∷◌, ◌==◌, ltb, if◌then◌else◌, ◌&&◌, ◌||◌, ◌>>=◌, ◌>>◌, assert, bit_xor,
}
use onix.Base.Int.{ℤ, pos, negsuc}
use onix.Libc.Nodes.{is_empty, has, without, unsnoc, put}

-- `buffer_t`; `dev` and `block` are bit patterns.
pub record Buffer : Type 0 where
  pub content : List ℕ
  pub dev : ℕ
  pub block : ℕ
  pub count : ℕ
  pub dirty : Bool
  pub valid : Bool

-- `bdesc_t`, with the buffers themselves, and the address that `kmalloc` gives next. `stale` tells, of a
-- buffer that is in no list of the table, whether its `hnode.next` is not NULL; `buffer_alloc` leaves it as
-- it is in the memory that `kmalloc` gives.
pub record Cache : Type 0 where
  pub count : ℕ
  pub size : ℕ
  pub free : List ℕ
  pub idle : List ℕ
  pub waiting : List ℕ
  pub table : ℕ → List ℕ
  pub buffers : ℕ → Buffer
  pub fresh : ℕ
  pub stale : ℕ → Bool

-- The loop of `buffer_init`.
abbrev pub init_desc : ℕ → (ℕ → Buffer) → (ℕ → Bool) → ℕ → Cache
init_desc size buffers stale fresh = record {
  stale = stale;
  count = 0;
  size = size;
  free = [];
  idle = [];
  waiting = [];
  table = λ i. [];
  buffers = buffers;
  fresh = fresh;
}

-- `desc_get`; `none` is its panic.
pub desc_get : ℕ → List Cache → Option Cache
desc_get size [] = none
desc_get size (c ∷ cs) = if c.size == size then some c else desc_get size cs

-- `HASH_COUNT`, `MAX_BUF_COUNT`
abbrev pub hash_count : ℕ
hash_count = 31

abbrev pub max_buf_count : ℕ
max_buf_count = 4096

-- `EOF` as a device.
abbrev pub no_device : ℕ
no_device = 2 ^ 32 - 100

-- `hash`
pub hash : ℕ → ℕ → ℕ
hash dev block = bit_xor dev block % hash_count

-- The loop of `get_from_hash_table`.
pub find_buffer : (ℕ → Buffer) → ℕ → ℕ → List ℕ → Option ℕ
find_buffer buffers dev block [] = none
find_buffer buffers dev block (b ∷ bs) =
    if (buffers b).dev == dev && (buffers b).block == block
    then some b
    else find_buffer buffers dev block bs

-- `get_from_hash_table`, which takes what it finds out of the idle list; `NULL` is `none`.
pub get_from_hash_table : ℕ → ℕ → Cache → Option (ℕ × Cache)
get_from_hash_table dev block c =
    elim (find_buffer c.buffers dev block (c.table (hash dev block))) [
      | none ↦ none
      | some b ↦ some (b, record c { idle = if has b c.idle then without b c.idle else c.idle })
    ]

abbrev slot : Cache → ℕ → ℕ
slot c b = hash (c.buffers b).dev (c.buffers b).block

-- `hash_locate`
pub hash_locate : ℕ → Cache → Option Cache
hash_locate b c = do
  assert (not (has b (c.table (slot c b))))
  some (record c { table = put c.table (slot c b) (b ∷ c.table (slot c b)) })

-- `list_remove` of a buffer from the list of its hash, which leaves NULL in `hnode.next`.
abbrev pub unhash : ℕ → Cache → Cache
unhash b c = record c {
  table = put c.table (slot c b) (without b (c.table (slot c b)));
  stale = put c.stale b false;
}

-- `hash_remove`; a buffer is in the list of its hash or in none. `none` is a `list_remove` of a buffer that
-- is in none, with what its memory holds for links.
pub hash_remove : ℕ → Cache → Option Cache
hash_remove b c =
    if has b (c.table (slot c b)) then some (unhash b c) else if c.stale b then none else some c

abbrev pub new_buffer : Buffer
new_buffer = record {
  content = [];
  dev = no_device;
  block = 0;
  count = 0;
  dirty = false;
  valid = false;
}

-- The loop of `buffer_alloc`, on fuel: a page holds at most four buffers.
pub buffer_alloc : ℕ → ℕ → Cache → Option Cache
buffer_alloc zero left c = none
buffer_alloc (suc fuel) left c = elim (left == 0) [
  | true ↦ some c
  | false ↦ buffer_alloc fuel ((left + 2 ^ 32 - c.size) % 2 ^ 32) (record c {
    count = (c.count + 1) % 2 ^ 32;
    free = c.fresh ∷ c.free;
    buffers = put c.buffers c.fresh new_buffer;
    fresh = c.fresh + 1;
  })
]

-- A buffer that is got, or a task that is blocked in the list of waiting tasks.
pub data Got : Type 0 where
  got : ℕ → Cache → Got
  waits : Cache → Got

-- What `get_free_buffer` does with the buffer that it chose.
pub reuse : ℕ → Cache → Option Got
reuse b c = elim (hash_remove b c) [
  | none ↦ none
  | some d ↦
      some (got b (record d { buffers = put d.buffers b (record (d.buffers b) { valid = false }) }))
]

-- The end of `get_free_buffer`: a test of its loop, and the choice from the idle list. A blocked task
-- goes on here when it is woken.
pub get_idle_buffer : ℕ → Cache → Option Got
get_idle_buffer task c = elim (unsnoc c.idle) [
  | none ↦ some (waits (record c { waiting = task ∷ c.waiting }))
  | some r ↦ reuse r.1 (record c { idle = r.0 })
]

-- The first step of `get_free_buffer`, which fills the free list.
pub refill : Cache → Option Cache
refill c = elim (ltb c.count max_buf_count && is_empty c.free) [
  | true ↦ buffer_alloc 5 4096 c
  | false ↦ some c
]

-- `get_free_buffer`
pub get_free_buffer : ℕ → Cache → Option Got
get_free_buffer task c = elim (refill c) [
  | none ↦ none
  | some d ↦ elim (unsnoc d.free) [
    | some r ↦ reuse r.1 (record d { free = r.0 })
    | none ↦ get_idle_buffer task d
  ]
]

-- The end of `getblk`, for a buffer that is free to use.
pub claim : ℕ → ℕ → ℕ → Cache → Option Cache
claim dev block b c = do
  assert ((c.buffers b).count == 0)
  assert (not (c.buffers b).dirty)
  hash_locate b (record c {
    buffers = put c.buffers b (record (c.buffers b) { count = 1; dev = dev; block = block });
  })

-- `getblk` from the choice of a buffer on.
pub getblk_with : ℕ → ℕ → Got → Option Got
getblk_with dev block (waits c) = some (waits c)
getblk_with dev block (got b c) = do d ← claim dev block b c; some (got b d)

-- `getblk`
pub getblk : ℕ → ℕ → ℕ → Cache → Option Got
getblk task dev block c = elim (get_from_hash_table dev block c) [
  | some r ↦ some (
      got r.0 (record r.1 {
        buffers =
            put r.1.buffers r.0 (record (r.1.buffers r.0) { count = (r.1.buffers r.0).count + 1 });
      }))
  | none ↦ elim (get_free_buffer task c) [ none ↦ none | some g ↦ getblk_with dev block g ]
]

-- `getblk` of a task that was blocked and is woken.
pub getblk_woken : ℕ → ℕ → ℕ → Cache → Option Got
getblk_woken task dev block c = elim (get_idle_buffer task c) [
  | none ↦ none
  | some g ↦ getblk_with dev block g
]

-- The answer of `device_request` to a write, and to a read with what is read.
pub record Answer : Type 0 where
  pub ret : ℤ
  pub content : List ℕ

abbrev pub fails : ℤ → Bool
fails (pos n) = false
fails (negsuc n) = true

-- `bwrite`
pub bwrite : ℕ → ℤ → Cache → ℤ × Cache
bwrite b ret c =
    if (c.buffers b).dirty
    then (if fails ret then (ret, c) else (
      ret,
      record c { buffers = put c.buffers b (record (c.buffers b) { dirty = false; valid = true }) },
    ))
    else (pos 0, c)

-- `brelse` after its `bwrite`: the task that it wakes, its result, and the cache.
pub release : ℕ → ℤ → Cache → Option (Option ℕ × ℤ × Cache)
release b ret c =
    let less = record c {
      buffers = put c.buffers b (record (c.buffers b) { count = (c.buffers b).count - 1 });
    } in
    elim (ltb 0 (c.buffers b).count) [
      | false ↦ none
      | true ↦ elim (ltb 1 (c.buffers b).count) [
        | true ↦ some (none, ret, less)
        | false ↦ elim (has b c.free || has b c.idle) [
          | true ↦ none
          | false ↦ elim (unsnoc c.waiting) [
            | none ↦ some (none, pos 0, record less { idle = b ∷ c.idle })
            | some r ↦ some (some r.1, pos 0, record less { idle = b ∷ c.idle; waiting = r.0 })
          ]
        ]
      ]
    ]

-- `brelse`, as one step: no other task changes the buffer while its write goes on.
pub brelse : ℕ → ℤ → Cache → Option (Option ℕ × ℤ × Cache)
brelse b ret c = let w = bwrite b ret c in release b w.0 w.1

-- The end of `bread`, for a buffer that `getblk` gave, a disk with sectors of `sector_size` bytes, and
-- its answers to a read and to the write of `brelse`; `NULL` is the inner `none`.
pub bread_with : ℕ → ℕ → Answer → ℤ → Cache → Option (Option ℕ × Cache)
bread_with b sector_size a ret c =
    if (c.buffers b).valid
    then some (some b, c)
    else if ltb c.size sector_size || fails a.ret
    then (do r ← brelse b ret c; some (none, r.2))
    else some (
      some b,
      record c {
        buffers =
            put c.buffers b
              (record (c.buffers b) { content = a.content; dirty = false; valid = true });
      },
    )

-- `bdirty`
pub bdirty : ℕ → Bool → Cache → Cache
bdirty b dirty c = record c { buffers = put c.buffers b (record (c.buffers b) { dirty = dirty }) }
