-- ===== src/Kernel/Buffer/Tests.antt =====
-- A cache of blocks of 1024 bytes, with one block in it.
use onix.Base.{ℕ, ◌≡◌, ◌+◌, ◌<◌, refl, true, false, Option, none, some, [], ◌∷◌, arith, ◌⊎◌, inl}
use onix.Base.Int.{ℤ, pos, negsuc}
use onix.Libc.Nodes.{is_empty, has, without, unsnoc}
use onix.Kernel.Buffer.{
  Cache, Got, got, hash, find_buffer, get_from_hash_table, hash_locate, hash_remove, buffer_alloc,
  refill, reuse, get_idle_buffer, get_free_buffer, claim, getblk_with, getblk, getblk_woken, brelse,
  init_desc, new_buffer, bdirty,
}
use onix.Kernel.Buffer.Inv.{Inv}
use onix.Kernel.Buffer.Blocks.{
  left_by, getblk-Inv, getblk-kept, brelse-Inv, getblk-brelse, brelse-fails, init-Inv,
  getblk-Inv_got, bdirty-Inv,
}

abbrev start : Cache
start = init_desc 1024 (λ b. new_buffer) (λ b. false) 0

start-Inv : Inv start
start-Inv = init-Inv 1024 0 (inl refl)

abbrev after : Option Got → Cache
after (some r) = left_by r
after none = start

-- Block 5 of device 3 is in buffer 0.
abbrev held : Cache
held = after (getblk 7 3 5 start)

held_lem : getblk 7 3 5 start ≡ some (got 0 held)
unfolding getblk get_from_hash_table find_buffer get_free_buffer refill buffer_alloc is_empty unsnoc
    reuse hash_remove without getblk_with claim hash_locate hash has
held_lem = refl

-- With other memory from `kmalloc`, the first `getblk` fails.
stale_lem : getblk 7 3 5 (init_desc 1024 (λ b. new_buffer) (λ b. true) 0) ≡ none
unfolding getblk get_from_hash_table find_buffer get_free_buffer refill buffer_alloc is_empty unsnoc
    reuse hash_remove without hash has
stale_lem = refl

getblk-Inv_example :
    ((r : Got) × (getblk 7 3 5 start ≡ some r) × Inv (left_by r))
    × ((r : Got) × (getblk_woken 7 3 5 start ≡ some r) × Inv (left_by r))
getblk-Inv_example = getblk-Inv start 7 3 5 start-Inv

held-Inv : Inv held
held-Inv = getblk-Inv_got start held 7 3 5 0 start-Inv held_lem

held_used : 0 < (held.buffers 0).count
unfolding getblk get_from_hash_table find_buffer get_free_buffer refill buffer_alloc is_empty unsnoc
    reuse hash_remove without getblk_with claim hash_locate hash has
held_used = omega arith

abbrev second : Cache
second = after (getblk 8 3 6 held)

second_lem : getblk 8 3 6 held ≡ some (got 1 second)
unfolding getblk get_from_hash_table find_buffer get_free_buffer refill buffer_alloc is_empty unsnoc
    reuse hash_remove without getblk_with claim hash_locate hash has
second_lem = refl

getblk-kept_example :
    (second.buffers 0 ≡ held.buffers 0)
    ⊎ ((◌≡◌ {A = ℕ} 0 1) × ((held.buffers 0).dev ≡ 3) × ((held.buffers 0).block ≡ 6))
getblk-kept_example = getblk-kept held second 8 3 6 1 0 held-Inv (inl second_lem) held_used

abbrev changed : Cache
changed = bdirty 0 true held

changed-Inv : Inv changed
changed-Inv = bdirty-Inv held 0 true held-Inv held_used

changed_count : (changed.buffers 0).count ≡ 1
unfolding bdirty getblk get_from_hash_table find_buffer get_free_buffer refill buffer_alloc is_empty
    unsnoc reuse hash_remove without getblk_with claim hash_locate hash has
changed_count = refl

changed_dirty : (changed.buffers 0).dirty ≡ true
unfolding bdirty getblk get_from_hash_table find_buffer get_free_buffer refill buffer_alloc is_empty
    unsnoc reuse hash_remove without getblk_with claim hash_locate hash has
changed_dirty = refl

changed_found : find_buffer changed.buffers 3 5 (changed.table (hash 3 5)) ≡ some 0
unfolding bdirty getblk get_from_hash_table find_buffer get_free_buffer refill buffer_alloc is_empty
    unsnoc reuse hash_remove without getblk_with claim hash_locate hash has
changed_found = refl

brelse-Inv_example :
    (r : Option ℕ × ℤ × Cache) × (brelse 0 (pos 2) changed ≡ some r)
    × Inv r.2
    × ((r.2.buffers 0).count + 1 ≡ (changed.buffers 0).count)
    × ((r.2.buffers 0).dirty ≡ false)
brelse-Inv_example = brelse-Inv changed 0 (pos 2) changed-Inv (omega (arith, changed_count)) refl

getblk-brelse_example :
    (r : Option ℕ × ℤ × Cache) × (e : Cache) × (brelse 0 (pos 2) changed ≡ some r)
    × (getblk 8 3 5 r.2 ≡ some (got 0 e))
    × ((e.buffers 0).content ≡ (changed.buffers 0).content)
getblk-brelse_example =
    getblk-brelse changed 8 3 5 0 (pos 2) changed-Inv changed_found (omega (arith, changed_count))
      refl

brelse-fails_example :
    (r : Option ℕ × ℤ × Cache) × (brelse 0 (negsuc 0) changed ≡ some r)
    × (r.1 ≡ pos 0)
    × (r.2.idle ≡ 0 ∷ changed.idle)
    × ((r.2.buffers 0).count ≡ 0)
    × ((r.2.buffers 0).dirty ≡ true)
brelse-fails_example =
    brelse-fails changed 0 (negsuc 0) changed-Inv changed_count changed_dirty refl

-- Two tasks that were blocked for the same block get a buffer each.
abbrev crowded : Cache
crowded = record start { count = 4096; idle = 2 ∷ 1 ∷ []; fresh = 3 }

woken_twice :
    (after (getblk_woken 8 3 5 (after (getblk_woken 7 3 5 crowded)))).table (hash 3 5) ≡ 2 ∷ 1 ∷ []
unfolding getblk_woken get_idle_buffer getblk get_from_hash_table find_buffer get_free_buffer refill
    buffer_alloc is_empty unsnoc reuse hash_remove without getblk_with claim hash_locate hash has
woken_twice = refl
