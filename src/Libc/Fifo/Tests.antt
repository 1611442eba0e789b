-- ===== src/Libc/Fifo/Tests.antt =====
-- Runs of fifo.c's functions, and its theorems at concrete rings.
use onix.Base.{◌≡◌, refl, some, none, [], ◌∷◌, arith}
use onix.Libc.Fifo.{Fifo, init, get, put, make_room, next, full, empty}
use onix.Libc.Fifo.Inv.{IsValid}
use onix.Libc.Fifo.Queue
use onix.Libc.Fifo.Refine.{contents, put_refines}

-- 8, then 9, round the end of a buffer of three cells: full.
abbrev wrapped : Fifo
wrapped = record { buf = 9 ∷ 7 ∷ 8 ∷ []; length = 3; head = 1; tail = 2 }

wrapped-IsValid : IsValid wrapped
wrapped-IsValid = omega arith

contents-wrapped : contents wrapped ≡ 8 ∷ 9 ∷ []
contents-wrapped = refl

put-wrapped : put wrapped 4 ≡ some (record { buf = 9 ∷ 4 ∷ 8 ∷ []; length = 3; head = 2; tail = 0 })
unfolding put make_room next full get empty
put-wrapped = refl

get-init : get (init (0 ∷ 0 ∷ []) 2) ≡ none
unfolding get init empty
get-init = refl

put_refines_example :
    (g : Fifo) × (put wrapped 4 ≡ some g)
    × IsValid g
    × (g.length ≡ 3)
    × (contents g ≡ Queue.put 2 (8 ∷ 9 ∷ []) 4)
put_refines_example = put_refines 4 wrapped-IsValid
