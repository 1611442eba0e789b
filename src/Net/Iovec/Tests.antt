-- ===== src/Net/Iovec/Tests.antt =====
-- The theorems of iovec.c at two buffers.
use onix.Base.{ℕ, List, [], ◌∷◌, length, min, arith}
use onix.Net.Iovec.{Iovec, iovec_write}
use onix.Net.Iovec.Payload.{payload, Reach}
use onix.Net.Iovec.Write.{Writes, iovec_write-payload}

-- Two bytes of a buffer of three, and two behind the first byte of another.
abbrev two_buffers : List Iovec
two_buffers =
    record { passed = []; base = 1 ∷ 2 ∷ 3 ∷ []; size = 2 }
    ∷ record { passed = 9 ∷ []; base = 4 ∷ 5 ∷ []; size = 2 }
    ∷ []

two_buffers-Reach : Reach two_buffers
two_buffers-Reach = (omega arith, (omega arith, tt))

abbrev message : List ℕ
message = 65 ∷ 66 ∷ 67 ∷ []

iovec_write-payload_example :
    Writes two_buffers message
      (min 3 (length (payload two_buffers)))
      (iovec_write two_buffers 2 message 3)
iovec_write-payload_example =
    iovec_write-payload two_buffers message 3 two_buffers-Reach (omega arith) (omega arith)
