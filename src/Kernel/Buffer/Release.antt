-- ===== src/Kernel/Buffer/Release.antt =====
-- `brelse`: a buffer that nobody uses goes back to the idle list, and its block stays in the table.
use onix.Base.{
  ℕ, ◌+◌, ◌-◌, ◌<◌, ◌≡◌, ◌≢◌, refl, sym, ap, ◌∙◌, true, false, Option, none, some, List, [], ◌∷◌,
  ◌==◌, ltb, arith, inl, inr, Bool-cases, Option-cases, dec_lt,
}
use onix.Base.Int.{ℤ, pos}
use onix.Libc.LinkedList.Chain.{Out, All}
use onix.Libc.Nodes.{unsnoc}
use onix.Libc.Nodes.Laws.{put_self, put_other, All-map_others, has-Out}
use onix.Kernel.Buffer.{Buffer, Cache, hash, find_buffer, release, brelse, bwrite, fails}
use onix.Kernel.Buffer.Inv.{IsResting, Inv, Spare, stored, stored-Inv, waiting-Inv}
use onix.Kernel.Buffer.Get.{find_buffer-put}

-- What rests is not in use.
pub held-Out :
    (f : ℕ → Buffer) (b : ℕ) (xs : List ℕ)
    → All (λ a. IsResting (f a)) xs
    → 0 < (f b).count
    → Out b xs
held-Out f b [] h u = tt
held-Out f b (x ∷ xs) h u =
    (λ e. let z = ap (λ a. (f a).count) e in omega (arith, z, h.0.0), held-Out f b xs h.1 u)

module _ (c : Cache) (b : ℕ) (v : Inv c) (p : Spare c b) where
  pub rested-Inv : Inv (record c { idle = b ∷ c.idle })
  rested-Inv = record {
    sized = v.sized;
    free_rests = v.free_rests;
    idle_rests = (p.rests, v.idle_rests);
    free_distinct = v.free_distinct;
    idle_distinct = (p.not_idle, v.idle_distinct);
    apart =
        All-map_others (λ a. Out a c.idle) (λ a. Out a (b ∷ c.idle)) b
          (λ a n o. (λ e. n (sym e), o)) c.free p.not_free v.apart;
    free_born = v.free_born;
    idle_born = (p.born, v.idle_born);
    held_born = v.held_born;
    hashed = v.hashed;
    hashed_born = v.hashed_born;
    unhashed = v.unhashed;
    clear = v.clear;
  }

-- What `brelse` of a buffer leaves: the buffer is used once less and is clean, the others are as they
-- were, and every search of the table finds what it found.
abbrev pub Releases : ℕ → Cache → Cache → Type 0
Releases b c d =
    Inv d
    × ((d.buffers b).count + 1 ≡ (c.buffers b).count)
    × ((d.buffers b).dirty ≡ false)
    × ((a : ℕ) → a ≢ b → d.buffers a ≡ c.buffers a)
    × ((dev block : ℕ)
        → find_buffer d.buffers dev block (d.table (hash dev block))
          ≡ find_buffer c.buffers dev block (c.table (hash dev block)))
    × ((d.buffers b).content ≡ (c.buffers b).content)

module _ (c : Cache) (b : ℕ) where
  abbrev used_less : Buffer
  used_less = record (c.buffers b) { count = (c.buffers b).count - 1 }

  abbrev less : Cache
  less = stored b used_less c

module _ (c : Cache) (b : ℕ) (v : Inv c) (u : 0 < (c.buffers b).count)
    (clean : (c.buffers b).dirty ≡ false) where
  less-Releases : Releases b c (less c b)
  less-Releases =
      let self : (b == b) ≡ true = ground arith in
      let not_free = held-Out c.buffers b c.free v.free_rests u in
      let not_idle = held-Out c.buffers b c.idle v.idle_rests u in
      (
        stored-Inv c b v not_free not_idle (v.held_born b u) (used_less c b) (inr refl),
        rw self (omega arith),
        rw self clean,
        λ a n. put_other c.buffers b a (used_less c b) n,
        λ dev block.
            find_buffer-put c.buffers dev block b (used_less c b) (c.table (hash dev block)) refl
              refl,
        rw self refl,
      )

  less-Spare : (c.buffers b).count ≡ 1 → Spare (less c b) b
  less-Spare one = record {
    rests = (
      rw (put_self c.buffers b (used_less c b), one) refl,
      rw (put_self c.buffers b (used_less c b)) clean,
    );
    not_free = held-Out c.buffers b c.free v.free_rests u;
    not_idle = held-Out c.buffers b c.idle v.idle_rests u;
    born = v.held_born b u;
  }

  release-Releases :
      (ret : ℤ) → (r : Option ℕ × ℤ × Cache) × (release b ret c ≡ some r) × Releases b c r.2
  unfolding release
  release-Releases ret =
      let l = less-Releases in
      let used : ltb 0 (c.buffers b).count ≡ true = ground arith in
      elim (dec_lt 1 (c.buffers b).count) [
        | yes more ↦
            let m : ltb 1 (c.buffers b).count ≡ true = ground arith in
            ((none, ret, less c b), rw (release, used, m) refl, l)
        | no last ↦
            let m : ltb 1 (c.buffers b).count ≡ false = ground arith in
            let f = has-Out b c.free (held-Out c.buffers b c.free v.free_rests u) in
            let i = has-Out b c.idle (held-Out c.buffers b c.idle v.idle_rests u) in
            let w = rested-Inv (less c b) b l.0 (less-Spare (omega arith)) in
            elim (Option-cases (unsnoc c.waiting)) [
              | inl n ↦ (
                (none, pos 0, record (less c b) { idle = b ∷ c.idle }),
                rw (release, used, m, f, i, n) refl,
                (w, l.1, l.2, l.3, l.4, l.5),
              )
              | inr (s, n) ↦ (
                (some s.1, pos 0, record (less c b) { idle = b ∷ c.idle; waiting = s.0 }),
                rw (release, used, m, f, i, n) refl,
                (
                  waiting-Inv (record (less c b) { idle = b ∷ c.idle }) s.0 w,
                  l.1,
                  l.2,
                  l.3,
                  l.4,
                  l.5,
                ),
              )
            ]
      ]

module _ (c : Cache) (b : ℕ) where
  abbrev written : Buffer
  written = record (c.buffers b) { dirty = false; valid = true }

  abbrev flushed : Cache
  flushed = stored b written c

module _ (c : Cache) (b : ℕ) (v : Inv c) (u : 0 < (c.buffers b).count) where
  flushed-Inv : Inv (flushed c b)
  flushed-Inv =
      stored-Inv c b v (held-Out c.buffers b c.free v.free_rests u)
        (held-Out c.buffers b c.idle v.idle_rests u) (v.held_born b u) (written c b) (inr refl)

  flushed-Releases : (d : Cache) → Releases b (flushed c b) d → Releases b c d
  flushed-Releases d h =
      let self : (b == b) ≡ true = ground arith in
      (
        h.0,
        rw self at (h.1),
        h.2,
        λ a n. h.3 a n ∙ put_other c.buffers b a (written c b) n,
        λ dev block.
            h.4 dev block
            ∙ find_buffer-put c.buffers dev block b (written c b) (c.table (hash dev block)) refl
                refl,
        rw self at (h.5),
      )

  -- `brelse` of a buffer in use fails no `assert` when its write does not fail.
  pub brelse-Releases :
      (ret : ℤ)
      → fails ret ≡ false
      → (r : Option ℕ × ℤ × Cache) × (brelse b ret c ≡ some r) × Releases b c r.2
  unfolding brelse bwrite
  brelse-Releases ret ok = elim (Bool-cases (c.buffers b).dirty) [
    | inr clean ↦
        let r = release-Releases c b v u clean (pos 0) in
        let step : brelse b ret c ≡ release b (pos 0) c = rw (brelse, bwrite, clean) refl in
        (r.0, step ∙ r.1, r.2)
    | inl dirty ↦
        let self : (b == b) ≡ true = ground arith in
        let r = release-Releases (flushed c b) b flushed-Inv (rw self u) (rw self refl) ret in
        let step : brelse b ret c ≡ release b ret (flushed c b) =
          rw (brelse, bwrite, dirty, ok) refl in
        (r.0, step ∙ r.1, flushed-Releases r.0.2 r.2)
  ]
