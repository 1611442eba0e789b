-- ===== src/Kernel/Buffer/Blocks.antt =====
-- What the users of the cache rely on.
use mathlib.Core.Option.{some-injective}
use onix.Base.{
  ℕ, ◌+◌, ◌<◌, ◌≡◌, refl, sym, ap, ◌∙◌, Bool, true, false, Option, none, some, ◌∷◌, arith,
  ℕ_discrete, ◌⊎◌, inl, inr, subst, Option-cases, ltb, ◌==◌, ◌||◌, ◌-◌,
}
use onix.Base.Int.{ℤ, pos}
use onix.Libc.Nodes.{unsnoc, put}
use onix.Libc.Nodes.Laws.{has-Out}
use onix.Kernel.Buffer.{
  Cache, Got, got, waits, hash, find_buffer, getblk, getblk_woken, init_desc, new_buffer,
  bread_with, bdirty, Answer, brelse, bwrite, release, fails,
}
use onix.Kernel.Buffer.Inv.{Inv, IsSize, stored-Inv}
use onix.Kernel.Buffer.Get.{Gets, getblk-Gets, getblk_woken-Gets, getblk-hit, hit-Gets, hit}
use onix.Kernel.Buffer.Release.{brelse-Releases, held-Out}

-- The cache that `getblk` leaves.
abbrev pub left_by : Got → Cache
left_by (got b d) = d
left_by (waits d) = d

Gets-Inv : (c : Cache) (dev block : ℕ) (r : Got) → Gets dev block c r → Inv (left_by r)
Gets-Inv c dev block (got b d) h = h.0
Gets-Inv c dev block (waits d) h = h.0

-- From a cache that keeps the invariant, which says too that the memory from `kmalloc` has NULL for
-- `hnode.next`, `getblk` fails no `assert` and keeps the invariant, and so does the rest of a `getblk` that
-- was blocked, from the cache at its wake-up.
pub getblk-Inv :
    (c : Cache) (task dev block : ℕ)
    → Inv c
    → ((r : Got) × (getblk task dev block c ≡ some r) × Inv (left_by r))
      × ((r : Got) × (getblk_woken task dev block c ≡ some r) × Inv (left_by r))
getblk-Inv c task dev block v =
    let r = getblk-Gets c task dev block v in
    let w = getblk_woken-Gets c task dev block v in
    ((r.0, r.1, Gets-Inv c dev block r.0 r.2), (w.0, w.1, Gets-Inv c dev block w.0 w.2))

-- A `getblk`, or the rest of one that was blocked, gives a buffer.
abbrev pub Gives : ℕ → ℕ → ℕ → Cache → ℕ → Cache → Type 0
Gives task dev block c b d =
    (getblk task dev block c ≡ some (got b d)) ⊎ (getblk_woken task dev block c ≡ some (got b d))

module _ (c d : Cache) (task dev block b : ℕ) (v : Inv c) where
  gives : Gives task dev block c b d → Gets dev block c (got b d)
  gives (inl e) =
      let r = getblk-Gets c task dev block v in
      subst (Gets dev block c) (some-injective r.0 (got b d) (sym r.1 ∙ e)) r.2
  gives (inr e) =
      let r = getblk_woken-Gets c task dev block v in
      subst (Gets dev block c) (some-injective r.0 (got b d) (sym r.1 ∙ e)) r.2

  gets : getblk task dev block c ≡ some (got b d) → Gets dev block c (got b d)
  gets e = gives (inl e)

pub getblk-Inv_got :
    (c d : Cache) (task dev block b : ℕ) → Inv c → getblk task dev block c ≡ some (got b d) → Inv d
getblk-Inv_got c d task dev block b v e = (gets c d task dev block b v e).0

-- The buffer that `getblk` gives holds the block that was asked for, is used once more, and is what
-- a search of the table for the block finds.
pub getblk-block :
    (c d : Cache) (task dev block b : ℕ)
    → Inv c
    → getblk task dev block c ≡ some (got b d)
    → (((d.buffers b).dev ≡ dev) × ((d.buffers b).block ≡ block))
      × ((d.buffers b).count ≡ (c.buffers b).count + 1)
      × (find_buffer d.buffers dev block (d.table (hash dev block)) ≡ some b)
getblk-block c d task dev block b v e = let h = gets c d task dev block b v e in (h.2, h.3, h.4)

-- When `getblk`, or the rest of one that was blocked, gives a buffer, from a cache that keeps the invariant,
-- then it leaves a buffer in use as it is, or it gives this buffer, and the buffer held the block that was
-- asked for before: what somebody uses is never taken for another block. The invariant says too that the
-- memory from `kmalloc` has NULL for `hnode.next`.
pub getblk-kept :
    (c d : Cache) (task dev block b a : ℕ)
    → Inv c
    → Gives task dev block c b d
    → 0 < (c.buffers a).count
    → (d.buffers a ≡ c.buffers a)
      ⊎ ((a ≡ b) × ((c.buffers a).dev ≡ dev) × ((c.buffers a).block ≡ block))
getblk-kept c d task dev block b a v e u =
    let h = gives c d task dev block b v e in
    elim (ℕ_discrete a b) [
      | no n ↦ inl (h.1 a n u)
      | yes s ↦ elim h.5 [
        | inl z ↦ absurd (let k = ap (λ i. (c.buffers i).count) s in omega (arith, k, z))
        | inr k ↦ inr (s, rw s k.0, rw s k.1)
      ]
    ]

-- A second `getblk` of a block, of any task, gives the same buffer, which then has one more user.
pub getblk-getblk :
    (c d : Cache) (task other dev block b : ℕ)
    → Inv c
    → getblk task dev block c ≡ some (got b d)
    → (e : Cache) × (getblk other dev block d ≡ some (got b e))
      × ((e.buffers b).count ≡ (c.buffers b).count + 2)
getblk-getblk c d task other dev block b v e =
    let h = gets c d task dev block b v e in
    let k = hit-Gets d other dev block b h.4 h.0 in
    (hit d b, getblk-hit d other dev block b h.4, omega (arith, h.3, k.3))

-- When the write of a dirty buffer does not fail, `brelse` of a buffer in use fails no `assert`, keeps
-- the invariant, and leaves the buffer clean and with one user less.
pub brelse-Inv :
    (c : Cache) (b : ℕ) (ret : ℤ)
    → Inv c
    → 0 < (c.buffers b).count
    → fails ret ≡ false
    → (r : Option ℕ × ℤ × Cache) × (brelse b ret c ≡ some r)
      × Inv r.2
      × ((r.2.buffers b).count + 1 ≡ (c.buffers b).count)
      × ((r.2.buffers b).dirty ≡ false)
brelse-Inv c b ret v u ok =
    let r = brelse-Releases c b v u ret ok in (r.0, r.1, r.2.0, r.2.1, r.2.2)

-- A block stays in the cache when its buffer is given back: `getblk` after `brelse` gives the same
-- buffer with the same content.
pub getblk-brelse :
    (c : Cache) (task dev block b : ℕ) (ret : ℤ)
    → Inv c
    → find_buffer c.buffers dev block (c.table (hash dev block)) ≡ some b
    → 0 < (c.buffers b).count
    → fails ret ≡ false
    → (r : Option ℕ × ℤ × Cache) × (e : Cache) × (brelse b ret c ≡ some r)
      × (getblk task dev block r.2 ≡ some (got b e))
      × ((e.buffers b).content ≡ (c.buffers b).content)
getblk-brelse c task dev block b ret v found u ok =
    let (r, run, h) = brelse-Releases c b v u ret ok in
    let still = h.4 dev block ∙ found in
    let self : (b == b) ≡ true = ground arith in
    (r, hit r.2 b, run, getblk-hit r.2 task dev block b still, rw self (h.5))

-- When the write of the last user's `brelse` fails, the caller is told that it went well, and the
-- buffer is the next of the idle list but still dirty.
pub brelse-fails :
    (c : Cache) (b : ℕ) (ret : ℤ)
    → Inv c
    → (c.buffers b).count ≡ 1
    → (c.buffers b).dirty ≡ true
    → fails ret ≡ true
    → (r : Option ℕ × ℤ × Cache) × (brelse b ret c ≡ some r)
      × (r.1 ≡ pos 0)
      × (r.2.idle ≡ b ∷ c.idle)
      × ((r.2.buffers b).count ≡ 0)
      × ((r.2.buffers b).dirty ≡ true)
unfolding brelse bwrite release
brelse-fails c b ret v one dirty bad =
    let self : (b == b) ≡ true = ground arith in
    let f = has-Out b c.free (held-Out c.buffers b c.free v.free_rests (omega arith)) in
    let i = has-Out b c.idle (held-Out c.buffers b c.idle v.idle_rests (omega arith)) in
    let less = record c {
      buffers = put c.buffers b (record (c.buffers b) { count = (c.buffers b).count - 1 });
    } in
    let zero_count : (less.buffers b).count ≡ 0 = rw (self, one) refl in
    let still : (less.buffers b).dirty ≡ true = rw (self, dirty) refl in
    let used : ltb 0 (c.buffers b).count ≡ true = ground (arith, one) in
    let m : ltb 1 (c.buffers b).count ≡ false = ground (arith, one) in
    let step : brelse b ret c ≡ release b ret c = rw (brelse, bwrite, dirty, bad) refl in
    elim (Option-cases (unsnoc c.waiting)) [
      | inl n ↦ (
        (none, pos 0, record less { idle = b ∷ c.idle }),
        step ∙ rw (release, used, m, f, i, n) refl,
        refl,
        refl,
        zero_count,
        still,
      )
      | inr (s, n) ↦ (
        (some s.1, pos 0, record less { idle = b ∷ c.idle; waiting = s.0 }),
        step ∙ rw (release, used, m, f, i, n) refl,
        refl,
        refl,
        zero_count,
        still,
      )
    ]

pub init-Inv :
    (size fresh : ℕ) → IsSize size → Inv (init_desc size (λ b. new_buffer) (λ b. false) fresh)
init-Inv size fresh h = record {
  sized = h;
  free_rests = tt;
  idle_rests = tt;
  free_distinct = tt;
  idle_distinct = tt;
  apart = tt;
  free_born = tt;
  idle_born = tt;
  held_born = λ b u. absurd (omega arith);
  hashed = λ i. tt;
  hashed_born = λ i. tt;
  unhashed = λ i. tt;
  clear = λ b. refl;
}

-- When the sectors of the disk are too large or its read fails, `bread` gives no buffer, and it has
-- given back the one that it had got, unless a write that `brelse` made has failed.
pub bread_with-fails :
    (c : Cache) (b sector_size : ℕ) (a : Answer) (ret : ℤ)
    → Inv c
    → 0 < (c.buffers b).count
    → (c.buffers b).valid ≡ false
    → ltb c.size sector_size || fails a.ret ≡ true
    → fails ret ≡ false
    → (d : Cache) × (bread_with b sector_size a ret c ≡ some (none, d))
      × Inv d
      × ((d.buffers b).count + 1 ≡ (c.buffers b).count)
unfolding bread_with
bread_with-fails c b sector_size a ret v u invalid bad ok =
    let (r, run, h) = brelse-Releases c b v u ret ok in
    (r.2, rw (bread_with, invalid, bad, run) refl, h.0, h.1)

-- A user may mark its buffer.
pub bdirty-Inv :
    (c : Cache) (b : ℕ) (dirty : Bool) → Inv c → 0 < (c.buffers b).count → Inv (bdirty b dirty c)
unfolding bdirty
bdirty-Inv c b dirty v u =
    stored-Inv c b v (held-Out c.buffers b c.free v.free_rests u)
      (held-Out c.buffers b c.idle v.idle_rests u) (v.held_born b u)
      (record (c.buffers b) { dirty = dirty }) (inr refl)
