-- ===== src/Kernel/Page.antt =====
-- src/kernel/memory.c: the users of each page of physical memory, `get_page` and `put_page`.
pub mod Counts
pub mod Users
mod Tests
use onix.Base.{
  ℕ, zero, suc, ◌+◌, ◌-◌, ◌*◌, ◌/◌, ◌%◌, ◌^◌, Bool, true, false, not, Option, none, some, ◌==◌, ltb,
  leb, if◌then◌else◌, ◌&&◌,
}
use onix.Libc.Nodes.{put}
use onix.Kernel.Task.{first_place}

-- The variables of memory.c; `memory_map` has a count for each page.
pub record Memory : Type 0 where
  pub start_page : ℕ
  pub total_pages : ℕ
  pub free_pages : ℕ
  pub memory_map : ℕ → ℕ

-- `PAGE_SIZE`
abbrev pub page_size : ℕ
page_size = 4096

-- `get_page`; `none` is its panic or a failed `assert`.
pub get_page : Memory → Option (ℕ × Memory)
get_page m =
    elim (first_place (λ i. m.memory_map i == 0) (m.total_pages - m.start_page) m.start_page) [
      | none ↦ none
      | some i ↦ elim (ltb 0 m.free_pages) [
        | false ↦ none
        | true ↦ some (
          i * page_size % 2 ^ 32,
          record m { memory_map = put m.memory_map i 1; free_pages = m.free_pages - 1 },
        )
      ]
    ]

-- The last lines of `put_page`, with the new count of the page.
abbrev pub dropped : ℕ → Memory → Memory
dropped idx m = record m {
  memory_map = put m.memory_map idx (m.memory_map idx - 1);
  free_pages = if m.memory_map idx - 1 == 0 then m.free_pages + 1 else m.free_pages;
}

-- `put_page`
pub put_page : ℕ → Memory → Option Memory
put_page addr m =
    let idx = addr / page_size in
    elim (addr % page_size == 0
      && leb m.start_page idx
      && ltb idx m.total_pages
      && leb 1 (m.memory_map idx)) [
        | false ↦ none
        | true ↦
            if ltb 0 (dropped idx m).free_pages && ltb (dropped idx m).free_pages m.total_pages
            then some (dropped idx m)
            else none
      ]
