-- ===== src/BtpTransport/Identity.antt =====
-- lib/BtpTransport: the identity that a MAC gives, and the filter by MAC.
use bally_os.Base.{ℕ, ◌<◌, ◌^◌, ◌≡◌, ◌≢◌, ◌⊎◌, some, List, get_or, arith}
use bally_os.BtpTransport.{source_id_from_mac}

-- The octets of a MAC that the identity is made of.
abbrev pub Octets : List ℕ → Type 0
Octets mac =
    (get_or mac 2 0 < 256)
    × (get_or mac 3 0 < 256)
    × (get_or mac 4 0 < 256)
    × (get_or mac 5 0 < 256)

abbrev pub SameTail : List ℕ → List ℕ → Type 0
SameTail a b =
    (get_or a 2 0 ≡ get_or b 2 0)
    × (get_or a 3 0 ≡ get_or b 3 0)
    × (get_or a 4 0 ≡ get_or b 4 0)
    × (get_or a 5 0 ≡ get_or b 5 0)

-- The MAC whose last four octets are this number.
abbrev pub EndsIn : ℕ → List ℕ → Type 0
EndsIn n mac =
    (get_or mac 2 0 ≡ 0) × (get_or mac 3 0 ≡ 0) × (get_or mac 4 0 ≡ 0) × (get_or mac 5 0 ≡ n)

-- The identity of a MAC is a number of 32 bits other than 0; two MACs have the same identity only if their
-- last four octets agree, or are 0 in the one and 1 in the other.
pub source_id_distinct :
    (a b : List ℕ)
    → Octets a
    → Octets b
    → (source_id_from_mac (some a) ≢ 0)
      × (source_id_from_mac (some a) < 2 ^ 32)
      × (source_id_from_mac (some a) ≡ source_id_from_mac (some b)
          → SameTail a b ⊎ ((EndsIn 0 a × EndsIn 1 b) ⊎ (EndsIn 1 a × EndsIn 0 b)))
unfolding source_id_from_mac
source_id_distinct a b oa ob = (ground arith, ground arith, λ e. ground (arith, e))
