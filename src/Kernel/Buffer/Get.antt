-- ===== src/Kernel/Buffer/Get.antt =====
-- `getblk`: the cache never gives a buffer in use to another block.
use onix.Base.{
  ℕ, ◌+◌, ◌<◌, ◌≡◌, ◌≢◌, refl, sym, ap, ◌∙◌, true, false, some, List, [], ◌∷◌, ◌==◌, ◌&&◌,
  if◌then◌else◌, arith, ℕ_discrete, ◌⊎◌, inl, inr, Bool-cases, Option-cases, dec_lt, subst,
}
use onix.Libc.LinkedList.Chain.{Out, All}
use onix.Libc.Nodes.{has, without, put}
use onix.Libc.Nodes.Laws.{
  put_self, put_other, All-map, has-Out, Out-has, without-Out, All-without, Out-without_self,
  Out-without, Distinct-without,
}
use onix.Kernel.Buffer.{
  Buffer, Cache, hash, find_buffer, get_from_hash_table, hash_locate, Got, got, waits, claim,
  getblk_with, getblk, getblk_woken,
}
use onix.Kernel.Buffer.Inv.{IsResting, Inv, Kept, Spare, stored, located, stored-Inv, located-Inv}
use onix.Kernel.Buffer.Choose.{Chosen, ne-Out, get_idle_buffer-Chosen, get_free_buffer-Chosen}

module _ (c : Cache) (b : ℕ) (v : Inv c) (p : Spare c b) where
  claimed : ℕ → ℕ → Buffer
  claimed dev block = record (c.buffers b) { count = 1; dev = dev; block = block }

  claim_lem :
      (dev block : ℕ)
      → ((i : ℕ) → Out b (c.table i))
      → claim dev block b c ≡ some (located b (stored b (claimed dev block) c))
  unfolding claim hash_locate claimed
  claim_lem dev block out =
      let zero_count : ((c.buffers b).count == 0) ≡ true = ground (arith, p.rests.0) in
      let self : (b == b) ≡ true = ground arith in
      rw (zero_count, p.rests.1, self, has-Out b (c.table (hash dev block)) (out (hash dev block)))
        refl

-- What `getblk` of a block leaves. The buffer that it gives holds the block and is used once more,
-- and a search of the table finds it. No other buffer in use has changed, and this one was unused or
-- held the block already.
abbrev pub Gets : ℕ → ℕ → Cache → Got → Type 0
Gets dev block c (waits d) = Inv d × Kept c d
Gets dev block c (got b d) =
    Inv d
    × ((a : ℕ) → a ≢ b → 0 < (c.buffers a).count → d.buffers a ≡ c.buffers a)
    × (((d.buffers b).dev ≡ dev) × ((d.buffers b).block ≡ block))
    × ((d.buffers b).count ≡ (c.buffers b).count + 1)
    × (find_buffer d.buffers dev block (d.table (hash dev block)) ≡ some b)
    × (((c.buffers b).count ≡ 0) ⊎ (((c.buffers b).dev ≡ dev) × ((c.buffers b).block ≡ block)))

pub getblk_with-Gets :
    (c : Cache) (dev block : ℕ) (g : Got)
    → Chosen c g
    → (r : Got) × (getblk_with dev block g ≡ some r) × Gets dev block c r
unfolding getblk_with claimed find_buffer
getblk_with-Gets c dev block (waits d) h = (waits d, refl, h)
getblk_with-Gets c dev block (got b d) h =
    let p = h.2 in
    let new = claimed d b h.0 p dev block in
    let mid = stored-Inv d b h.0 p.not_free p.not_idle p.born new (inl h.3) in
    let after = located b (stored b new d) in
    let unused : (c.buffers b).count ≡ 0 = elim (dec_lt 0 (c.buffers b).count) [
      | yes u ↦ absurd (let e = h.1 b u in omega (arith, p.rests.0, ap (λ (x : Buffer). x.count) e))
      | no u ↦ omega arith
    ] in
    let self : (b == b) ≡ true = ground arith in
    let d_self : (dev == dev) ≡ true = ground arith in
    let b_self : (block == block) ≡ true = ground arith in
    (
      got b after,
      rw (claim_lem d b h.0 p dev block h.3) refl,
      (
        located-Inv (stored b new d) b mid p.not_free p.not_idle p.born,
        λ a n k. put_other d.buffers b a new n ∙ h.1 a k,
        (rw self refl, rw self refl),
        rw (self, unused) (omega arith),
        rw
            (
              self,
              put_self d.table (hash dev block) (b ∷ d.table (hash dev block)),
              self,
              d_self,
              b_self,
            )
            refl,
        inl unused,
      ),
    )

find_buffer_found :
    (f : ℕ → Buffer) (dev block b : ℕ) (P : ℕ → Type 0) (xs : List ℕ)
    → All P xs
    → find_buffer f dev block xs ≡ some b
    → P b × (((f b).dev ≡ dev) × ((f b).block ≡ block))
unfolding find_buffer
find_buffer_found f dev block b P [] h e = absurd (ground (arith, e))
find_buffer_found f dev block b P (x ∷ xs) h e =
    elim (Bool-cases ((f x).dev == dev && (f x).block == block)) [
      | inl y ↦
          let same : x ≡ b = ground (arith, e) in
          (subst P same h.0, (rw (sym same) (ground arith), rw (sym same) (ground arith)))
      | inr n ↦ find_buffer_found f dev block b P xs h.1 (rw n at e)
    ]

-- A change of a buffer that keeps its block does not show in a search.
pub find_buffer-put :
    (f : ℕ → Buffer) (dev block b : ℕ) (buf : Buffer) (xs : List ℕ)
    → buf.dev ≡ (f b).dev
    → buf.block ≡ (f b).block
    → find_buffer (put f b buf) dev block xs ≡ find_buffer f dev block xs
unfolding find_buffer
find_buffer-put f dev block b buf [] d k = refl
find_buffer-put f dev block b buf (x ∷ xs) d k = elim (ℕ_discrete x b) [
  | yes e ↦
      let t : (x == b) ≡ true = ground arith in
      rw (t, find_buffer-put f dev block b buf xs d k, d, k, e) refl
  | no e ↦
      let t : (x == b) ≡ false = ground arith in
      rw (t, find_buffer-put f dev block b buf xs d k) refl
]

find_buffer_ne :
    (f : ℕ → Buffer) (dev block a b : ℕ) (xs : List ℕ)
    → Out a xs
    → find_buffer f dev block xs ≡ some b
    → a ≢ b
unfolding find_buffer
find_buffer_ne f dev block a b [] o e = absurd (ground (arith, e))
find_buffer_ne f dev block a b (x ∷ xs) o e =
    elim (Bool-cases ((f x).dev == dev && (f x).block == block)) [
      | inl y ↦ let same : x ≡ b = ground (arith, e) in λ k. o.0 (k ∙ sym same)
      | inr n ↦ find_buffer_ne f dev block a b xs o.1 (rw n at e)
    ]

taken : (b : ℕ) (xs : List ℕ) → (if has b xs then without b xs else xs) ≡ without b xs
taken b xs = elim (Bool-cases (has b xs)) [
  | inl e ↦ rw e refl
  | inr e ↦ rw e (sym (without-Out b xs (Out-has b xs e)))
]

without_idle-Inv : (c : Cache) (b : ℕ) → Inv c → Inv (record c { idle = without b c.idle })
without_idle-Inv c b v = record {
  sized = v.sized;
  free_rests = v.free_rests;
  idle_rests = All-without (λ a. IsResting (c.buffers a)) b c.idle v.idle_rests;
  free_distinct = v.free_distinct;
  idle_distinct = Distinct-without b c.idle v.idle_distinct;
  apart =
      All-map (λ a. Out a c.idle) (λ a. Out a (without b c.idle)) (λ a o. Out-without b a c.idle o)
        c.free v.apart;
  free_born = v.free_born;
  idle_born = All-without (λ a. a < c.fresh) b c.idle v.idle_born;
  held_born = v.held_born;
  hashed = v.hashed;
  hashed_born = v.hashed_born;
  unhashed = v.unhashed;
  clear = v.clear;
}

module _ (c : Cache) (b : ℕ) where
  abbrev used_more : Buffer
  used_more = record (c.buffers b) { count = (c.buffers b).count + 1 }

  abbrev pub hit : Cache
  hit = stored b used_more (record c { idle = without b c.idle })

module _ (c : Cache) (task dev block b : ℕ)
    (e : find_buffer c.buffers dev block (c.table (hash dev block)) ≡ some b) where
  pub getblk-hit : getblk task dev block c ≡ some (got b (hit c b))
  unfolding getblk get_from_hash_table
  getblk-hit = rw (getblk, e, taken b c.idle) refl

  pub hit-Gets : Inv c → Gets dev block c (got b (hit c b))
  hit-Gets v =
      let idx = hash dev block in
      let found =
        find_buffer_found c.buffers dev block b (λ a. a < c.fresh) (c.table idx) (v.hashed_born idx)
          e in
      let not_free = ne-Out b c.free (
        All-map (λ a. Out a (c.table idx)) (λ a. a ≢ b)
          (λ a o. find_buffer_ne c.buffers dev block a b (c.table idx) o e) c.free
          (v.unhashed idx)) in
      let d = record c { idle = without b c.idle } in
      let self : (b == b) ≡ true = ground arith in
      (
        stored-Inv d b (without_idle-Inv c b v) not_free (Out-without_self b c.idle) found.0
            (used_more c b) (inr refl),
        λ a n k. put_other c.buffers b a (used_more c b) n,
        (rw self found.1.0, rw self found.1.1),
        rw self refl,
        find_buffer-put c.buffers dev block b (used_more c b) (c.table idx) refl refl ∙ e,
        inr found.1,
      )

-- `getblk` fails no `assert`.
pub getblk-Gets :
    (c : Cache) (task dev block : ℕ)
    → Inv c
    → (r : Got) × (getblk task dev block c ≡ some r) × Gets dev block c r
unfolding getblk get_from_hash_table
getblk-Gets c task dev block v =
    elim (Option-cases (find_buffer c.buffers dev block (c.table (hash dev block)))) [
      | inr (b, e) ↦
          (got b (hit c b), getblk-hit c task dev block b e, hit-Gets c task dev block b e v)
      | inl e ↦
          let g = get_free_buffer-Chosen c task v in
          let r = getblk_with-Gets c dev block g.0 g.2 in
          let step : getblk task dev block c ≡ getblk_with dev block g.0 =
            rw (getblk, e, g.1) refl in
          (r.0, step ∙ r.1, r.2)
    ]

-- Nor does the rest of a `getblk` that was blocked.
pub getblk_woken-Gets :
    (c : Cache) (task dev block : ℕ)
    → Inv c
    → (r : Got) × (getblk_woken task dev block c ≡ some r) × Gets dev block c r
unfolding getblk_woken
getblk_woken-Gets c task dev block v =
    let (g, run, h) = get_idle_buffer-Chosen c task v in
    let r = getblk_with-Gets c dev block g h in (r.0, rw (getblk_woken, run) r.1, r.2)
