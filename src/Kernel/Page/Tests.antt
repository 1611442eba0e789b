-- ===== src/Kernel/Page/Tests.antt =====
-- Four pages from page 1 on, of which page 1 has a user.
use onix.Base.{ℕ, ◌+◌, ◌*◌, ◌<◌, ◌≤◌, ◌≡◌, refl, some, ◌==◌, if◌then◌else◌, arith, ◌⊎◌}
use onix.Kernel.Page.{Memory, page_size, get_page}
use onix.Kernel.Page.Users.{Inv, get_page-Inv}

abbrev small : Memory
small = record {
  start_page = 1;
  total_pages = 4;
  free_pages = 2;
  memory_map = λ i. if i == 1 then 1 else 0;
}

small-Inv : Inv small
small-Inv = record { start = omega arith; order = omega arith; room = omega arith; free = refl }

get_page-Inv_example :
    (i : ℕ) × (s : Memory) × (get_page small ≡ some (i * page_size, s))
    × Inv s
    × (1 ≤ i)
    × (i < 4)
    × (small.memory_map i ≡ 0)
    × (s.memory_map i ≡ 1)
    × (s.free_pages + 1 ≡ 2)
    × ((1 ≡ i) ⊎ (s.memory_map 1 ≡ small.memory_map 1))
get_page-Inv_example = get_page-Inv small 1 small-Inv (omega arith)
