-- ===== src/Net/Pbuf/Tests.antt =====
-- A buffer is taken when the free list is empty.
use onix.Base.{ℕ, ◌≡◌, ◌≢◌, refl, some, []}
use onix.Libc.LinkedList.Chain.{Out}
use onix.Net.Pbuf.{Pool, pbuf_get}
use onix.Net.Pbuf.Users.{Inv, pbuf_get-Inv}

abbrev no_free : Pool
no_free = record { free = []; pbuf_count = 2; free_count = 0; users = λ p. 1 }

no_free-Inv : Inv no_free
no_free-Inv = record { distinct = tt; aligned = tt; counted = refl }

pbuf_get-Inv_example :
    (p : ℕ) × (t : Pool) × (pbuf_get 8192 no_free ≡ some (p, t))
    × Inv t
    × Out p t.free
    × (t.users p ≡ 1)
    × ((b : ℕ) → b ≢ p → t.users b ≡ no_free.users b)
pbuf_get-Inv_example = pbuf_get-Inv 8192 no_free no_free-Inv refl
