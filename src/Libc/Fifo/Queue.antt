-- ===== src/Libc/Fifo/Queue.antt =====
-- What fifo.c promises: a queue of at most `cap` bytes, oldest first, where a byte that comes to a
-- full queue drives the oldest one out.
use onix.Base.{ℕ, Option, none, some, List, [], ◌∷◌, ◌++◌, length, ◌==◌, if◌then◌else◌}

unfoldable pub get : List ℕ → Option (ℕ × List ℕ)
get [] = none
get (x ∷ q) = some (x, q)

unfoldable pub drop_one : List ℕ → List ℕ
drop_one [] = []
drop_one (x ∷ q) = q

unfoldable pub put : ℕ → List ℕ → ℕ → List ℕ
unfolding drop_one
put cap q x = if length q == cap then drop_one q ++ (x ∷ []) else q ++ (x ∷ [])
