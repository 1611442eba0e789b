-- ===== src/Net/Chksum/Tests.antt =====
-- The header of an internet packet with its checksum at byte 10.
use onix.Base.{ℕ, ◌%◌, ◌/◌, ◌^◌, ◌≡◌, ◌<◌, some, List, [], ◌∷◌, ◌++◌, arith}
use onix.Net.Chksum.{ip_chksum}
use onix.Net.Chksum.Sum.{IsByte, EvenLength, even_nil, even_cons, ip_chksum-verifies}

abbrev front : List ℕ
front = 69 ∷ 0 ∷ 0 ∷ 40 ∷ 18 ∷ 52 ∷ 64 ∷ 0 ∷ 64 ∷ 6 ∷ []

abbrev addresses : List ℕ
addresses = 192 ∷ 168 ∷ 0 ∷ 1 ∷ 192 ∷ 168 ∷ 0 ∷ 33 ∷ []

front-EvenLength : EvenLength front
front-EvenLength = even_cons 69 0 (0 ∷ 40 ∷ 18 ∷ 52 ∷ 64 ∷ 0 ∷ 64 ∷ 6 ∷ []) (
    even_cons 0 40 (18 ∷ 52 ∷ 64 ∷ 0 ∷ 64 ∷ 6 ∷ []) (
      even_cons 18 52 (64 ∷ 0 ∷ 64 ∷ 6 ∷ [])
        (even_cons 64 0 (64 ∷ 6 ∷ []) (even_cons 64 6 [] even_nil))))

ip_chksum-verifies_example :
    (c : ℕ) × (c < 2 ^ 16)
    × (ip_chksum 3 (front ++ (0 ∷ 0 ∷ addresses)) ≡ some c)
    × (ip_chksum 3 (front ++ ((c % 2 ^ 8) ∷ (c / 2 ^ 8) ∷ addresses)) ≡ some 0)
unfolding IsByte
ip_chksum-verifies_example = ip_chksum-verifies 0 front addresses front-EvenLength (
  omega arith,
  (
    omega arith,
    (
      omega arith,
      (
        omega arith,
        (
          omega arith,
          (
            omega arith,
            (
              omega arith,
              (
                omega arith,
                (
                  omega arith,
                  (
                    omega arith,
                    (
                      omega arith,
                      (
                        omega arith,
                        (
                          omega arith,
                          (
                            omega arith,
                            (
                              omega arith,
                              (
                                omega arith,
                                (omega arith, (omega arith, (omega arith, (omega arith, tt)))),
                              ),
                            ),
                          ),
                        ),
                      ),
                    ),
                  ),
                ),
              ),
            ),
          ),
        ),
      ),
    ),
  ),
)
