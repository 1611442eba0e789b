-- ===== src/Kernel/Buffer/Inv.antt =====
-- What holds of the cache between its operations.
use onix.Base.{
  ℕ, ◌≤◌, ◌<◌, ◌≡◌, ◌≢◌, sym, ◌∙◌, refl, Bool, Bool-cases, false, some, List, [], ◌∷◌, arith,
  ℕ_discrete, ◌⊎◌, inl, inr,
}
use onix.Libc.LinkedList.Chain.{Out, All, Distinct}
use onix.Libc.Nodes.{has, without, put}
use onix.Libc.Nodes.Laws.{
  put_self, put_other, All-map, All-map_others, All-put, All-without, Out-without_self, Out-without,
  Out-has,
}
use onix.Kernel.Buffer.{Buffer, Cache, hash, slot, unhash, hash_remove}

-- A buffer that nobody uses and that has nothing to write back.
abbrev pub IsResting : Buffer → Type 0
IsResting b = (b.count ≡ 0) × (b.dirty ≡ false)

-- The sizes of `buffer_init`.
abbrev pub IsSize : ℕ → Type 0
IsSize s = (s ≡ 1024) ⊎ ((s ≡ 2048) ⊎ (s ≡ 4096))

-- The buffers of the free and the idle list rest and are there once. A list of the hash table has
-- only buffers of its hash, and none of the free ones. Every buffer lies below the next address. Outside the
-- table `hnode.next` is NULL, so also in the memory that `kmalloc` will give.
pub record Inv (c : Cache) : Type 0 where
  pub sized : IsSize c.size
  pub free_rests : All (λ b. IsResting (c.buffers b)) c.free
  pub idle_rests : All (λ b. IsResting (c.buffers b)) c.idle
  pub free_distinct : Distinct c.free
  pub idle_distinct : Distinct c.idle
  pub apart : All (λ b. Out b c.idle) c.free
  pub free_born : All (λ b. b < c.fresh) c.free
  pub idle_born : All (λ b. b < c.fresh) c.idle
  pub held_born : (b : ℕ) → 0 < (c.buffers b).count → b < c.fresh
  pub hashed : (i : ℕ) → All (λ b. slot c b ≡ i) (c.table i)
  pub hashed_born : (i : ℕ) → All (λ b. b < c.fresh) (c.table i)
  pub unhashed : (i : ℕ) → All (λ b. Out b (c.table i)) c.free
  pub clear : (b : ℕ) → c.stale b ≡ false

-- Every buffer in use is as it was.
abbrev pub Kept : Cache → Cache → Type 0
Kept c d = (b : ℕ) → 0 < (c.buffers b).count → d.buffers b ≡ c.buffers b

-- What lies below an address is not that address.
pub born-Out : (b fresh : ℕ) (xs : List ℕ) → All (λ a. a < fresh) xs → fresh ≤ b → Out b xs
born-Out b fresh [] h k = tt
born-Out b fresh (x ∷ xs) h k = (λ e. omega (arith, e, h.0), born-Out b fresh xs h.1 k)

-- A buffer of another hash is not in a list of the table.
pub slot-Out : (f : ℕ → ℕ) (b i : ℕ) (xs : List ℕ) → All (λ a. f a ≡ i) xs → f b ≢ i → Out b xs
slot-Out f b i [] h k = tt
slot-Out f b i (x ∷ xs) h k = (λ e. k (rw e h.0), slot-Out f b i xs h.1 k)

-- A buffer outside both lists that rests.
pub record Spare (c : Cache) (b : ℕ) : Type 0 where
  pub rests : IsResting (c.buffers b)
  pub not_free : Out b c.free
  pub not_idle : Out b c.idle
  pub born : b < c.fresh

-- The cache with one buffer changed.
abbrev pub stored : ℕ → Buffer → Cache → Cache
stored b buf c = record c { buffers = put c.buffers b buf }

-- The cache with a buffer in front of the list of its hash.
abbrev pub located : ℕ → Cache → Cache
located b c = record c { table = put c.table (slot c b) (b ∷ c.table (slot c b)) }

module _ (c : Cache) (b : ℕ) (v : Inv c) where
  removed : (i : ℕ) (P : ℕ → Type 0) → All P (c.table i) → All P ((unhash b c).table i)
  removed i P h = elim (ℕ_discrete i (slot c b)) [
    | yes d ↦
        rw (d, put_self c.table (slot c b) (without b (c.table (slot c b))))
          (All-without P b (c.table (slot c b)) (rw d at h))
    | no d ↦ rw (put_other c.table (slot c b) i (without b (c.table (slot c b))) d) h
  ]

  removed-Out : (i a : ℕ) → Out a (c.table i) → Out a ((unhash b c).table i)
  removed-Out i a h = elim (ℕ_discrete i (slot c b)) [
    | yes d ↦
        rw (d, put_self c.table (slot c b) (without b (c.table (slot c b))))
          (Out-without b a (c.table (slot c b)) (rw d at h))
    | no d ↦ rw (put_other c.table (slot c b) i (without b (c.table (slot c b))) d) h
  ]

  -- Afterwards the buffer is in no list of the table.
  pub unhash-Out : (i : ℕ) → Out b ((unhash b c).table i)
  unhash-Out i = elim (ℕ_discrete i (slot c b)) [
    | yes d ↦
        rw (d, put_self c.table (slot c b) (without b (c.table (slot c b))))
          (Out-without_self b (c.table (slot c b)))
    | no d ↦
        rw (put_other c.table (slot c b) i (without b (c.table (slot c b))) d)
          (slot-Out (slot c) b i (c.table i) (v.hashed i) (λ e. d (sym e)))
  ]

  pub unhash-Inv : Inv (unhash b c)
  unhash-Inv = record {
    sized = v.sized;
    free_rests = v.free_rests;
    idle_rests = v.idle_rests;
    free_distinct = v.free_distinct;
    idle_distinct = v.idle_distinct;
    apart = v.apart;
    free_born = v.free_born;
    idle_born = v.idle_born;
    held_born = v.held_born;
    hashed = λ i. removed i (λ a. slot c a ≡ i) (v.hashed i);
    hashed_born = λ i. removed i (λ a. a < c.fresh) (v.hashed_born i);
    unhashed = λ i.
        All-map (λ a. Out a (c.table i)) (λ a. Out a ((unhash b c).table i))
          (λ a h. removed-Out i a h) c.free (v.unhashed i);
    clear = λ a. elim (ℕ_discrete a b) [
      | yes d ↦ rw (d, put_self c.stale b false) refl
      | no d ↦ put_other c.stale b a false d ∙ v.clear a
    ];
  }

  -- `hash_remove` fails nothing; the buffer is in no list of the table then.
  pub hash_remove-some :
      (table : ℕ → List ℕ) × (stale : ℕ → Bool) × (hash_remove b c
        ≡ some (record c { table = table; stale = stale }))
      × Inv (record c { table = table; stale = stale })
      × ((i : ℕ) → Out b (table i))
  unfolding hash_remove
  hash_remove-some = elim (Bool-cases (has b (c.table (slot c b)))) [
    | inl e ↦
        ((unhash b c).table, (unhash b c).stale, rw (hash_remove, e) refl, unhash-Inv, unhash-Out)
    | inr e ↦ (
      c.table,
      c.stale,
      rw (hash_remove, e, v.clear b) refl,
      v,
      λ i. elim (ℕ_discrete i (slot c b)) [
        | yes d ↦ rw d (Out-has b (c.table (slot c b)) e)
        | no d ↦ slot-Out (slot c) b i (c.table i) (v.hashed i) (λ e. d (sym e))
      ],
    )
  ]

  module _ (not_free : Out b c.free) (not_idle : Out b c.idle) (born : b < c.fresh) where
    -- A buffer outside both lists may change, but keeps its place unless the table does not have it.
    pub stored-Inv :
        (buf : Buffer)
        → ((i : ℕ) → Out b (c.table i)) ⊎ (hash buf.dev buf.block ≡ slot c b)
        → Inv (stored b buf c)
    stored-Inv buf k = record {
      sized = v.sized;
      free_rests = All-put IsResting c.buffers b buf c.free not_free v.free_rests;
      idle_rests = All-put IsResting c.buffers b buf c.idle not_idle v.idle_rests;
      free_distinct = v.free_distinct;
      idle_distinct = v.idle_distinct;
      apart = v.apart;
      free_born = v.free_born;
      idle_born = v.idle_born;
      held_born = λ a h. elim (ℕ_discrete a b) [
        | yes d ↦ rw d born
        | no d ↦ v.held_born a (rw (put_other c.buffers b a buf d) at h)
      ];
      hashed = λ i. elim k [
        | inl out ↦
            All-put (λ (x : Buffer). hash x.dev x.block ≡ i) c.buffers b buf (c.table i) (out i)
              (v.hashed i)
        | inr same ↦
            All-map (λ a. slot c a ≡ i) (λ a. slot (stored b buf c) a ≡ i)
              (λ a h. elim (ℕ_discrete a b) [
                | yes d ↦ rw (d, put_self c.buffers b buf, same) (rw d at h)
                | no d ↦ rw (put_other c.buffers b a buf d) h
              ])
              (c.table i) (v.hashed i)
      ];
      hashed_born = v.hashed_born;
      unhashed = v.unhashed;
      clear = v.clear;
    }

    abbrev chain : List ℕ
    chain = c.table (slot c b)

    located-All :
        (i : ℕ) (P : ℕ → Type 0)
        → All P (c.table i)
        → (slot c b ≡ i → P b)
        → All P ((located b c).table i)
    located-All i P h k = elim (ℕ_discrete i (slot c b)) [
      | yes d ↦ rw (d, put_self c.table (slot c b) (b ∷ chain)) (k (sym d), rw d at h)
      | no d ↦ rw (put_other c.table (slot c b) i (b ∷ chain) d) h
    ]

    located-Out : (i a : ℕ) → b ≢ a → Out a (c.table i) → Out a ((located b c).table i)
    located-Out i a n h = elim (ℕ_discrete i (slot c b)) [
      | yes d ↦ rw (d, put_self c.table (slot c b) (b ∷ chain)) (λ e. n (sym e), rw d at h)
      | no d ↦ rw (put_other c.table (slot c b) i (b ∷ chain) d) h
    ]

    pub located-Inv : Inv (located b c)
    located-Inv = record {
      sized = v.sized;
      free_rests = v.free_rests;
      idle_rests = v.idle_rests;
      free_distinct = v.free_distinct;
      idle_distinct = v.idle_distinct;
      apart = v.apart;
      free_born = v.free_born;
      idle_born = v.idle_born;
      held_born = v.held_born;
      hashed = λ i. located-All i (λ a. slot c a ≡ i) (v.hashed i) (λ e. e);
      hashed_born = λ i. located-All i (λ a. a < c.fresh) (v.hashed_born i) (λ e. born);
      unhashed = λ i.
          All-map_others (λ a. Out a (c.table i)) (λ a. Out a ((located b c).table i)) b
            (λ a n h. located-Out i a n h) c.free not_free (v.unhashed i);
      clear = v.clear;
    }

pub waiting-Inv : (c : Cache) (ws : List ℕ) → Inv c → Inv (record c { waiting = ws })
waiting-Inv c ws v = record {
  sized = v.sized;
  free_rests = v.free_rests;
  idle_rests = v.idle_rests;
  free_distinct = v.free_distinct;
  idle_distinct = v.idle_distinct;
  apart = v.apart;
  free_born = v.free_born;
  idle_born = v.idle_born;
  held_born = v.held_born;
  hashed = v.hashed;
  hashed_born = v.hashed_born;
  unhashed = v.unhashed;
  clear = v.clear;
}
