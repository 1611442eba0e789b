-- ===== src/Net/Pbuf/Users.antt =====
-- A buffer that is handed out is not in the free list.
use onix.Base.{
  ℕ, ◌+◌, ◌-◌, ◌%◌, ◌≡◌, ◌≢◌, refl, sym, ap, ◌∙◌, true, false, some, List, [], ◌∷◌, ◌++◌, length,
  length-append, ◌==◌, if◌then◌else◌, arith, subst, inl, inr,
}
use onix.Libc.LinkedList.Chain.{Out, All, Distinct}
use onix.Libc.Nodes.{is_empty, unsnoc, put}
use onix.Libc.Nodes.Laws.{snoc_cases, unsnoc_snoc, All-init, Distinct-init, put_self, put_other}
use onix.Net.Pbuf.{Pool, add_page, take_last, pbuf_get}

abbrev pub IsAligned : ℕ → Type 0
IsAligned p = p % 2048 ≡ 0

-- The free list has no buffer twice, its buffers are aligned, and `free_count` is its length.
pub record Inv (s : Pool) : Type 0 where
  pub distinct : Distinct s.free
  pub aligned : All IsAligned s.free
  pub counted : s.free_count ≡ length s.free

-- What `pbuf_get` does to a list that is not empty.
get_last :
    (page p : ℕ) (ps : List ℕ) (s : Pool)
    → s.free ≡ ps ++ (p ∷ [])
    → Inv s
    → (t : Pool) × (take_last s ≡ some (p, t))
      × Inv t
      × Out p t.free
      × (t.users p ≡ 1)
      × ((b : ℕ) → b ≢ p → t.users b ≡ s.users b)
unfolding take_last
get_last page p ps s e i =
    let u = ap unsnoc e ∙ unsnoc_snoc ps p in
    let d = Distinct-init ps p (subst Distinct e i.distinct) in
    let a = All-init IsAligned ps p (subst (All IsAligned) e i.aligned) in
    let ok : (p % 2048 == 0) ≡ true = ground (arith, a.1) in
    (
      record s { free = ps; free_count = s.free_count - 1; users = put s.users p 1 },
      rw (take_last, u, ok) refl,
      record {
        distinct = d.0;
        aligned = a.0;
        counted = omega (arith, i.counted, ap length e, length-append ps (p ∷ []));
      },
      d.1,
      put_self s.users p 1,
      λ b n. put_other s.users p b 1 n,
    )

is_empty-snoc : (ps : List ℕ) (p : ℕ) → is_empty (ps ++ (p ∷ [])) ≡ false
unfolding is_empty
is_empty-snoc [] p = refl
is_empty-snoc (q ∷ ps) p = refl

-- A pool in order, and a page on a boundary of 4096: `pbuf_get` returns a buffer with one
-- user, which is not in the free list any more; the pool is in order, and no other buffer changes.
pub pbuf_get-Inv :
    (page : ℕ) (s : Pool)
    → Inv s
    → page % 4096 ≡ 0
    → (p : ℕ) × (t : Pool) × (pbuf_get page s ≡ some (p, t))
      × Inv t
      × Out p t.free
      × (t.users p ≡ 1)
      × ((b : ℕ) → b ≢ p → t.users b ≡ s.users b)
unfolding pbuf_get add_page is_empty
pbuf_get-Inv page s i h = elim (snoc_cases s.free) [
  | inl e ↦
      let t = add_page page s in
      let free : t.free ≡ (page + 2048) ∷ page ∷ [] = ap (λ l. (page + 2048) ∷ page ∷ l) e in
      let i' : Inv t = record {
        distinct = subst Distinct (sym free) (((λ q. absurd (omega (arith, q))), tt), (tt, tt));
        aligned = subst (All IsAligned) (sym free) (omega (arith, h), (omega (arith, h), tt));
        counted = omega (arith, i.counted, ap length e, ap length free);
      } in
      let r = get_last page page ((page + 2048) ∷ []) t free i' in
      let empty : is_empty s.free ≡ true = ap is_empty e in
      (
        page,
        r.0,
        ap (λ b. take_last (if b then add_page page s else s)) empty ∙ r.1,
        r.2,
        r.3,
        r.4,
        r.5,
      )
  | inr (ps, p, e) ↦
      let r = get_last page p ps s e i in
      let full : is_empty s.free ≡ false = ap is_empty e ∙ is_empty-snoc ps p in
      (
        p,
        r.0,
        ap (λ b. take_last (if b then add_page page s else s)) full ∙ r.1,
        r.2,
        r.3,
        r.4,
        r.5,
      )
]
