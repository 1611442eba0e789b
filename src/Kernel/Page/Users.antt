-- ===== src/Kernel/Page/Users.antt =====
-- A page has one user when it is taken, and is free again when the last one goes.
use onix.Base.{
  ℕ, ◌+◌, ◌-◌, ◌*◌, ◌/◌, ◌%◌, ◌^◌, ◌≤◌, ◌<◌, ◌≡◌, refl, ap, ◌∙◌, true, false, none, some, ◌==◌, ltb,
  leb, ◌&&◌, arith, ◌⊎◌, inl, inr, ℕ_discrete, Bool-cases,
}
use onix.Libc.Nodes.{put}
use onix.Libc.Nodes.Laws.{put_self, put_other}
use onix.Kernel.Task.{first_place}
use onix.Kernel.Task.Search.{first_place-some, first_place-lt}
use onix.Kernel.Page.{Memory, page_size, get_page, dropped, put_page}
use onix.Kernel.Page.Counts.{zeros, zeros-le, zeros-put, zeros-some}

-- `free_pages` is the number of pages without users, of at most 4 GB.
pub record Inv (m : Memory) : Type 0 where
  pub start : 0 < m.start_page
  pub order : m.start_page ≤ m.total_pages
  pub room : m.total_pages ≤ 2 ^ 20
  pub free : m.free_pages ≡ zeros m.memory_map (m.total_pages - m.start_page) m.start_page

taken :
    (m : Memory) (other i : ℕ)
    → Inv m
    → 0 < m.free_pages
    → first_place (λ j. m.memory_map j == 0) (m.total_pages - m.start_page) m.start_page ≡ some i
    → m.memory_map i ≡ 0
    → (j : ℕ) × (s : Memory) × (get_page m ≡ some (j * page_size, s))
      × Inv s
      × (m.start_page ≤ j)
      × (j < m.total_pages)
      × (m.memory_map j ≡ 0)
      × (s.memory_map j ≡ 1)
      × (s.free_pages + 1 ≡ m.free_pages)
      × ((other ≡ j) ⊎ (s.memory_map other ≡ m.memory_map other))
unfolding get_page
taken m other i v some_free found empty =
    let n = m.total_pages - m.start_page in
    let b = first_place-lt (λ j. m.memory_map j == 0) n m.start_page i found in
    let s = record m { memory_map = put m.memory_map i 1; free_pages = m.free_pages - 1 } in
    let low : i < m.total_pages = omega (arith, b.1, v.order) in
    let addr : i * page_size % 2 ^ 32 ≡ i * page_size = omega (arith, low, v.room) in
    let some_left : ltb 0 m.free_pages ≡ true = ground arith in
    let run : get_page m ≡ some (i * page_size % 2 ^ 32, s) =
      rw (get_page, found, some_left) refl in
    let count : zeros s.memory_map n m.start_page + 1 ≡ zeros m.memory_map n m.start_page + 0 =
      rw empty at (zeros-put m.memory_map i 1 n m.start_page b.0 b.1) in
    (
      i,
      s,
      run ∙ ap (λ a. some (a, s)) addr,
      record {
        start = v.start;
        order = v.order;
        room = v.room;
        free = omega (arith, count, v.free, some_free);
      },
      b.0,
      low,
      empty,
      put_self m.memory_map i 1,
      omega (arith, some_free),
      elim (ℕ_discrete other i) [ yes e ↦ inl e | no d ↦ inr (put_other m.memory_map i other 1 d) ],
    )

-- While pages are free, `get_page` fails no `assert` and gives the address of a page that had no user:
-- it has one afterwards, there is one free page less, and no other page has changed.
pub get_page-Inv :
    (m : Memory) (other : ℕ)
    → Inv m
    → 0 < m.free_pages
    → (i : ℕ) × (s : Memory) × (get_page m ≡ some (i * page_size, s))
      × Inv s
      × (m.start_page ≤ i)
      × (i < m.total_pages)
      × (m.memory_map i ≡ 0)
      × (s.memory_map i ≡ 1)
      × (s.free_pages + 1 ≡ m.free_pages)
      × ((other ≡ i) ⊎ (s.memory_map other ≡ m.memory_map other))
get_page-Inv m other v some_free =
    let n = m.total_pages - m.start_page in
    let z = zeros-some m.memory_map n m.start_page (omega (arith, v.free)) in
    let found = first_place-some (λ i. m.memory_map i == 0) n m.start_page z.0 z.1 z.2 z.3 in
    taken m other found.0 v some_free (found.1) (ground (arith, found.2))

put_run :
    (m after : Memory) (i : ℕ)
    → i * page_size / page_size ≡ i
    → i * page_size % page_size ≡ 0
    → (leb m.start_page i && ltb i m.total_pages && leb 1 (m.memory_map i)) ≡ true
    → dropped i m ≡ after
    → (ltb 0 after.free_pages && ltb after.free_pages m.total_pages) ≡ true
    → put_page (i * page_size) m ≡ some after
unfolding put_page
put_run m after i idx page ok same fits =
    let aligned : (i * page_size % page_size == 0) ≡ true = rw page refl in
    let dropped_fits : (ltb 0 (dropped i m).free_pages
          && ltb (dropped i m).free_pages m.total_pages)
        ≡ true =
      ap (λ (s : Memory). ltb 0 s.free_pages && ltb s.free_pages m.total_pages) same ∙ fits in
    rw (put_page, aligned, idx, ok, idx, dropped_fits) (ap (λ (s : Memory). some s) same)

-- When the last user of a page gives it back, `put_page` fails no `assert`, and there is one free page
-- more.
pub put_page-Inv :
    (m : Memory) (i : ℕ)
    → Inv m
    → m.start_page ≤ i
    → i < m.total_pages
    → m.memory_map i ≡ 1
    → (s : Memory) × (put_page (i * page_size) m ≡ some s)
      × Inv s
      × (s.memory_map i ≡ 0)
      × (s.free_pages ≡ m.free_pages + 1)
put_page-Inv m i v l u one =
    let n = m.total_pages - m.start_page in
    let idx : i * page_size / page_size ≡ i = omega arith in
    let page : i * page_size % page_size ≡ 0 = omega arith in
    let after : Memory = record m {
      memory_map = put m.memory_map i 0;
      free_pages = m.free_pages + 1;
    } in
    let same : dropped i m ≡ after = rw one refl in
    let ok : (leb m.start_page i && ltb i m.total_pages && leb 1 (m.memory_map i)) ≡ true =
      ground (arith, one) in
    let count : zeros after.memory_map n m.start_page + 0 ≡ zeros m.memory_map n m.start_page + 1 =
      rw one at (zeros-put m.memory_map i 0 n m.start_page l (omega arith)) in
    let most = zeros-le after.memory_map n m.start_page in
    let fits : (ltb 0 after.free_pages && ltb after.free_pages m.total_pages) ≡ true =
      ground (arith, most, v.free, v.start, v.order, count) in
    (
      after,
      put_run m after i idx page ok same fits,
      record {
        start = v.start;
        order = v.order;
        room = v.room;
        free = omega (arith, count, v.free);
      },
      put_self m.memory_map i 0,
      refl,
    )

-- When no page is free, `put_page` of a page that has other users stops the kernel.
pub put_page-none :
    (m : Memory) (i : ℕ) → 1 < m.memory_map i → m.free_pages ≡ 0 → put_page (i * page_size) m ≡ none
unfolding put_page
put_page-none m i shared full =
    let idx : i * page_size / page_size ≡ i = omega arith in
    let page : (i * page_size % page_size == 0) ≡ true = ground arith in
    let kept : (m.memory_map i - 1 == 0) ≡ false = ground (arith, shared) in
    let still : (dropped i m).free_pages ≡ 0 = rw kept full in
    let stops : (ltb 0 (dropped i m).free_pages && ltb (dropped i m).free_pages m.total_pages)
        ≡ false =
      rw still refl in
    elim (Bool-cases (leb m.start_page i && ltb i m.total_pages && leb 1 (m.memory_map i))) [
      | inl e ↦ rw (put_page, page, idx, e, idx, stops) refl
      | inr e ↦ rw (put_page, page, idx, e) refl
    ]
