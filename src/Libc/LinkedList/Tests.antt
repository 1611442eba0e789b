-- ===== src/Libc/LinkedList/Tests.antt =====
-- Runs of list.c's functions, and its theorems at a concrete list.
use onix.Base.{ℕ, ◌≡◌, refl, some, [], ◌∷◌, ◌==◌, if◌then◌else◌, arith}
use onix.Base.Int.{ℤ, pos, ◌≤ℤ◌}
use onix.Libc.LinkedList.{Links, Ends, remove, insert_sort}
use onix.Libc.LinkedList.Chain.{Out, All, Holds}
use onix.Libc.LinkedList.Remove.{remove-Holds}
use onix.Libc.LinkedList.Sort.{insert_sort_lem}

abbrev ends : Ends
ends = record { head = 1; tail = 2 }

-- The nodes 10 and 20 between the ends 1 and 2.
abbrev two : Links
two = record {
  prev = λ a. if a == 10 then 1 else if a == 20 then 10 else if a == 2 then 20 else 0;
  next = λ a. if a == 1 then 10 else if a == 10 then 20 else if a == 20 then 2 else 0;
}

two-Holds : Holds two ends (10 ∷ 20 ∷ [])
two-Holds = omega arith

-- Each node's key is its address.
abbrev by_address : ℕ → ℤ
by_address = pos

remove-Holds_example :
    (t : Links) × (remove 20 two ≡ some t)
    × Holds t ends (10 ∷ [])
    × (t.prev 20 ≡ 0)
    × (t.next 20 ≡ 0)
    × ((a : ℕ) → Out a (1 ∷ 10 ∷ 20 ∷ 2 ∷ []) → (t.prev a ≡ two.prev a) × (t.next a ≡ two.next a))
remove-Holds_example = remove-Holds two ends (10 ∷ []) 20 [] two-Holds

insert_sort_lem_example :
    (t : Links) × (insert_sort 3 by_address ends 15 two ≡ some t)
    × Holds t ends (10 ∷ 15 ∷ 20 ∷ [])
    × All (λ y. by_address y ≤ℤ by_address 15) (10 ∷ [])
insert_sort_lem_example =
    insert_sort_lem by_address 3 15 two-Holds (omega arith) (omega arith) (omega arith) refl refl
