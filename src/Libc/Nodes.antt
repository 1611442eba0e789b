-- ===== src/Libc/Nodes.antt =====
-- Lists as the kernel's parts see them: a `list_t` is the list of its nodes, from the head on. By the
-- theorems of LinkedList `list_push` puts a node in front, `list_pushback` behind the others,
-- `list_pop` and `list_popback` take the first and the last one, `list_remove` takes one out,
-- `list_search` finds one, and `list_insert_sort` puts one before the first with a greater key.
pub mod Laws
use onix.Base.{ℕ, Bool, true, false, Option, none, some, List, [], ◌∷◌, ◌==◌, leb, if◌then◌else◌}

-- `list_empty`
unfoldable pub is_empty : List ℕ → Bool
is_empty [] = true
is_empty (x ∷ xs) = false

-- `list_search`
unfoldable pub has : ℕ → List ℕ → Bool
has a [] = false
has a (x ∷ xs) = if x == a then true else has a xs

-- `list_remove` of a node that is in this list or in none.
unfoldable pub without : ℕ → List ℕ → List ℕ
without a [] = []
without a (x ∷ xs) = if x == a then without a xs else x ∷ without a xs

-- `list_popback`: the others, and the last node.
unfoldable pub unsnoc : List ℕ → Option (List ℕ × ℕ)
unsnoc [] = none
unsnoc (x ∷ xs) = elim (unsnoc xs) [ none ↦ some ([], x) | some r ↦ some (x ∷ r.0, r.1) ]

-- `list_insert_sort` by a key that is a number.
unfoldable pub insert_by : (ℕ → ℕ) → ℕ → List ℕ → List ℕ
insert_by key a [] = a ∷ []
insert_by key a (x ∷ xs) = if leb (key x) (key a) then x ∷ insert_by key a xs else a ∷ x ∷ xs

-- The fields of all nodes, with those of one node changed.
abbrev pub put {ℓ} : {A : Type ℓ} → (ℕ → A) → ℕ → A → ℕ → A
put f a v b = if b == a then v else f b
