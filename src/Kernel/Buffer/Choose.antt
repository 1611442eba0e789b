-- ===== src/Kernel/Buffer/Choose.antt =====
-- `get_free_buffer`: the buffer that it chooses is spare.
use native.Mathlib.Nat.{suc-mul}
use onix.Base.{
  ℕ, zero, suc, ◌+◌, ◌-◌, ◌*◌, ◌%◌, ◌^◌, ◌≤◌, ◌<◌, ◌≡◌, ◌≢◌, refl, sym, ap, ◌∙◌, true, false, none,
  some, List, [], ◌∷◌, ◌++◌, ◌==◌, ltb, ◌&&◌, arith, ℕ_discrete, inl, inr, Bool-cases,
}
use onix.Libc.LinkedList.Chain.{Out, All}
use onix.Libc.Nodes.{is_empty, unsnoc, put}
use onix.Libc.Nodes.Laws.{
  put_self, put_other, All-map, All-put, unsnoc_snoc, snoc_cases, Out-init, All-init, Distinct-init,
}
use onix.Kernel.Buffer.{
  Buffer, Cache, hash, new_buffer, buffer_alloc, refill, max_buf_count, Got, got, waits, reuse,
  get_idle_buffer, get_free_buffer,
}
use onix.Kernel.Buffer.Inv.{
  IsResting, Inv, Kept, Spare, hash_remove-some, stored, stored-Inv, waiting-Inv, born-Out,
}

-- What a choice of a buffer leaves.
abbrev pub Chosen : Cache → Got → Type 0
Chosen c (waits d) = Inv d × Kept c d
Chosen c (got b d) = Inv d × Kept c d × Spare d b × ((i : ℕ) → Out b (d.table i))

module _ (c : Cache) (b : ℕ) (v : Inv c) (p : Spare c b) where
  reuse-Chosen : (g : Got) × (reuse b c ≡ some g) × Chosen c g
  unfolding reuse
  reuse-Chosen =
      let buf = record (c.buffers b) { valid = false } in
      let (table, stale, run, w, out) = hash_remove-some c b v in
      let d = record c { table = table; stale = stale } in
      (
        got b (stored b buf d),
        rw (reuse, run) refl,
        (
          stored-Inv d b w p.not_free p.not_idle p.born buf (inl out),
          λ a h. elim (ℕ_discrete a b) [
            | yes e ↦ absurd (omega (arith, p.rests.0, rw e at h))
            | no e ↦ put_other c.buffers b a buf e
          ],
          record {
            rests = rw (put_self c.buffers b buf) p.rests;
            not_free = p.not_free;
            not_idle = p.not_idle;
            born = p.born;
          },
          out,
        ),
      )

pub ne-Out : (b : ℕ) (xs : List ℕ) → All (λ a. a ≢ b) xs → Out b xs
ne-Out b [] h = tt
ne-Out b (x ∷ xs) h = (λ e. h.0 (sym e), ne-Out b xs h.1)

-- The last buffer of the idle list is taken.
module _ (c : Cache) (v : Inv c) (bs : List ℕ) (b : ℕ) where
  take_idle :
      c.idle ≡ bs ++ (b ∷ []) → Inv (record c { idle = bs }) × Spare (record c { idle = bs }) b
  take_idle e =
      let rests = All-init (λ a. IsResting (c.buffers a)) bs b (rw e at v.idle_rests) in
      let distinct = Distinct-init bs b (rw e at v.idle_distinct) in
      let born = All-init (λ a. a < c.fresh) bs b (rw e at v.idle_born) in
      let apart : All (λ a. Out a (bs ++ (b ∷ []))) c.free = rw e at v.apart in
      (
        record {
          sized = v.sized;
          free_rests = v.free_rests;
          idle_rests = rests.0;
          free_distinct = v.free_distinct;
          idle_distinct = distinct.0;
          apart =
              All-map (λ a. Out a (bs ++ (b ∷ []))) (λ a. Out a bs) (λ a h. (Out-init a bs b h).0)
                c.free apart;
          free_born = v.free_born;
          idle_born = born.0;
          held_born = v.held_born;
          hashed = v.hashed;
          hashed_born = v.hashed_born;
          unhashed = v.unhashed;
          clear = v.clear;
        },
        record {
          rests = rests.1;
          not_free = ne-Out b c.free (
              All-map (λ a. Out a (bs ++ (b ∷ []))) (λ a. a ≢ b) (λ a h. (Out-init a bs b h).1)
                c.free apart);
          not_idle = distinct.1;
          born = born.1;
        },
      )

  -- The last buffer of the free list is taken.
  take_free :
      c.free ≡ bs ++ (b ∷ []) → Inv (record c { free = bs }) × Spare (record c { free = bs }) b
  take_free e =
      let rests = All-init (λ a. IsResting (c.buffers a)) bs b (rw e at v.free_rests) in
      let distinct = Distinct-init bs b (rw e at v.free_distinct) in
      let born = All-init (λ a. a < c.fresh) bs b (rw e at v.free_born) in
      let apart = All-init (λ a. Out a c.idle) bs b (rw e at v.apart) in
      (
        record {
          sized = v.sized;
          free_rests = rests.0;
          idle_rests = v.idle_rests;
          free_distinct = distinct.0;
          idle_distinct = v.idle_distinct;
          apart = apart.0;
          free_born = born.0;
          idle_born = v.idle_born;
          held_born = v.held_born;
          hashed = v.hashed;
          hashed_born = v.hashed_born;
          unhashed = λ i. (All-init (λ a. Out a (c.table i)) bs b (rw e at (v.unhashed i))).0;
          clear = v.clear;
        },
        record { rests = rests.1; not_free = distinct.1; not_idle = apart.1; born = born.1 },
      )

-- Only the buffers count.
Chosen-same : (c d : Cache) (g : Got) → d.buffers ≡ c.buffers → Chosen d g → Chosen c g
Chosen-same c d (waits e) k h = (h.0, λ a u. h.1 a (rw k u) ∙ ap (λ (f : ℕ → Buffer). f a) k)
Chosen-same c d (got b e) k h =
    (h.0, λ a u. h.1 a (rw k u) ∙ ap (λ (f : ℕ → Buffer). f a) k, h.2, h.3)

idle_none :
    (c : Cache) (task : ℕ)
    → c.idle ≡ []
    → get_idle_buffer task c ≡ some (waits (record c { waiting = task ∷ c.waiting }))
unfolding get_idle_buffer unsnoc
idle_none c task e = let n : unsnoc c.idle ≡ none = rw e refl in rw (get_idle_buffer, n) refl

idle_some :
    (c : Cache) (task : ℕ) (bs : List ℕ) (b : ℕ)
    → c.idle ≡ bs ++ (b ∷ [])
    → get_idle_buffer task c ≡ reuse b (record c { idle = bs })
unfolding get_idle_buffer
idle_some c task bs b e = rw (get_idle_buffer, e, unsnoc_snoc bs b) refl

unsnoc_nil : unsnoc [] ≡ none
unfolding unsnoc
unsnoc_nil = refl

-- A choice from the idle list.
pub get_idle_buffer-Chosen :
    (c : Cache) (task : ℕ) → Inv c → (g : Got) × (get_idle_buffer task c ≡ some g) × Chosen c g
get_idle_buffer-Chosen c task v = elim (snoc_cases c.idle) [
  | inl e ↦ (
    waits (record c { waiting = task ∷ c.waiting }),
    idle_none c task e,
    (waiting-Inv c (task ∷ c.waiting) v, λ b k. refl),
  )
  | inr (bs, b, e) ↦
      let t = take_idle c v bs b e in
      let (g, run, h) = reuse-Chosen (record c { idle = bs }) b t.0 t.1 in
      (g, idle_some c task bs b e ∙ run, Chosen-same c (record c { idle = bs }) g refl h)
]

-- A new buffer of `buffer_alloc`.
abbrev grown : Cache → Cache
grown c = record c {
  count = (c.count + 1) % 2 ^ 32;
  free = c.fresh ∷ c.free;
  buffers = put c.buffers c.fresh new_buffer;
  fresh = c.fresh + 1;
}

grown-Inv : (c : Cache) → Inv c → Inv (grown c)
grown-Inv c v =
    let new = c.fresh in
    let fresh_free = born-Out new new c.free v.free_born (omega arith) in
    let fresh_idle = born-Out new new c.idle v.idle_born (omega arith) in
    let fresh_table = λ (i : ℕ). born-Out new new (c.table i) (v.hashed_born i) (omega arith) in
    let later = λ (xs : List ℕ) (h : All (λ a. a < new) xs).
      All-map (λ a. a < new) (λ a. a < new + 1) (λ a k. omega arith) xs h in
    record {
      sized = v.sized;
      free_rests = (
        rw (put_self c.buffers new new_buffer) (refl, refl),
        All-put IsResting c.buffers new new_buffer c.free fresh_free v.free_rests,
      );
      idle_rests = All-put IsResting c.buffers new new_buffer c.idle fresh_idle v.idle_rests;
      free_distinct = (fresh_free, v.free_distinct);
      idle_distinct = v.idle_distinct;
      apart = (fresh_idle, v.apart);
      free_born = (omega arith, later c.free v.free_born);
      idle_born = later c.idle v.idle_born;
      held_born = λ a k. elim (ℕ_discrete a new) [
        | yes d ↦ omega (arith, d)
        | no d ↦ omega (arith, v.held_born a (rw (put_other c.buffers new a new_buffer d) at k))
      ];
      hashed = λ i.
          All-put (λ (x : Buffer). hash x.dev x.block ≡ i) c.buffers new new_buffer (c.table i)
            (fresh_table i) (v.hashed i);
      hashed_born = λ i. later (c.table i) (v.hashed_born i);
      unhashed = λ i. (fresh_table i, v.unhashed i);
      clear = v.clear;
    }

grown-Kept : (c : Cache) → Inv c → Kept c (grown c)
grown-Kept c v a k =
    put_other c.buffers c.fresh a new_buffer (λ d. omega (arith, d, v.held_born a k))

alloc_loop :
    (n s : ℕ) (fuel : ℕ) (c : Cache)
    → n < fuel
    → 1 ≤ s
    → n * s ≤ 4096
    → s ≤ 4096
    → c.size ≡ s
    → Inv c
    → (d : Cache) × (buffer_alloc fuel (n * s) c ≡ some d) × Inv d × Kept c d
unfolding buffer_alloc
alloc_loop zero s (suc fuel) c f one m l e v =
    let z : (0 * s == 0) ≡ true = ground arith in (c, rw (buffer_alloc, z) refl, v, λ a k. refl)
alloc_loop n s zero c f one m l e v = absurd (omega arith)
alloc_loop (suc n) s (suc fuel) c f one m l e v =
    let p : suc n * s ≡ n * s + s = suc-mul n s in
    let z : (suc n * s == 0) ≡ false = ground (arith, p) in
    let next : (suc n * s + 2 ^ 32 - c.size) % 2 ^ 32 ≡ n * s = omega (arith, p, e, m) in
    let rest =
      alloc_loop n s fuel (grown c) (omega arith) one (omega (arith, p)) l e (grown-Inv c v) in
    let step : buffer_alloc (suc fuel) (suc n * s) c ≡ buffer_alloc fuel (n * s) (grown c) =
      rw (buffer_alloc, z, next) refl in
    (
      rest.0,
      step ∙ rest.1,
      rest.2,
      λ a k. rest.3 a (rw (grown-Kept c v a k) k) ∙ grown-Kept c v a k,
    )

refill-Inv : (c : Cache) → Inv c → (d : Cache) × (refill c ≡ some d) × Inv d × Kept c d
unfolding refill
refill-Inv c v = elim (Bool-cases (ltb c.count max_buf_count && is_empty c.free)) [
  | inr full ↦ (c, rw (refill, full) refl, v, λ a k. refl)
  | inl low ↦ elim v.sized [
    | inl e ↦
        let r = alloc_loop 4 1024 5 c (omega arith) (omega arith) (omega arith) (omega arith) e v in
        (r.0, rw (refill, low) r.1, r.2, r.3)
    | inr (inl e) ↦
        let r = alloc_loop 2 2048 5 c (omega arith) (omega arith) (omega arith) (omega arith) e v in
        (r.0, rw (refill, low) r.1, r.2, r.3)
    | inr (inr e) ↦
        let r = alloc_loop 1 4096 5 c (omega arith) (omega arith) (omega arith) (omega arith) e v in
        (r.0, rw (refill, low) r.1, r.2, r.3)
  ]
]

Chosen-Kept : (c d : Cache) (g : Got) → Kept c d → Chosen d g → Chosen c g
Chosen-Kept c d (waits e) k h = (h.0, λ a u. h.1 a (rw (k a u) u) ∙ k a u)
Chosen-Kept c d (got b e) k h = (h.0, λ a u. h.1 a (rw (k a u) u) ∙ k a u, h.2, h.3)

-- A choice after the first step.
refilled-Chosen :
    (c d : Cache) (task : ℕ)
    → refill c ≡ some d
    → Inv d
    → Kept c d
    → (g : Got) × (get_free_buffer task c ≡ some g) × Chosen c g
unfolding get_free_buffer
refilled-Chosen c d task run w k = elim (snoc_cases d.free) [
  | inl e ↦
      let n : unsnoc d.free ≡ none = rw e unsnoc_nil in
      let (g, idle, h) = get_idle_buffer-Chosen d task w in
      (g, rw (get_free_buffer, run, n) idle, Chosen-Kept c d g k h)
  | inr (bs, b, e) ↦
      let t = take_free d w bs b e in
      let n : unsnoc d.free ≡ some (bs, b) = rw e (unsnoc_snoc bs b) in
      let (g, reused, h) = reuse-Chosen (record d { free = bs }) b t.0 t.1 in
      (
        g,
        rw (get_free_buffer, run, n) reused,
        Chosen-Kept c d g k (Chosen-same d (record d { free = bs }) g refl h),
      )
]

-- `get_free_buffer` fails no `assert`, and its buffer is spare and in no list of the table.
pub get_free_buffer-Chosen :
    (c : Cache) (task : ℕ) → Inv c → (g : Got) × (get_free_buffer task c ≡ some g) × Chosen c g
get_free_buffer-Chosen c task v = let r = refill-Inv c v in refilled-Chosen c r.0 task r.1 r.2 r.3
