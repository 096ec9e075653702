-- ===== src/UpNodes/Fseid/Order.antt =====
-- `operator<` of `fseid_t` in src/common/3gpp_29.244.h is no order.
use openair_spgwc.Prelude.{◌≡◌, ◌⊎◌, ◌↔◌, true, false, arith}
use openair_spgwc.UpNodes.Fseid.{Fseid, fseid_lt, fseid_lt_ipv6, same_bit, pair64}

-- The first of the two has an IPv4 address and the second has none, and the test on
-- the IPv6 addresses puts the second before the first.
abbrev pub Crossed : Fseid → Fseid → Type 0
Crossed a b = (a.v4 ≡ true) × (b.v4 ≡ false) × (fseid_lt_ipv6 b a ≡ true)

-- Each of two sessions is less than the other exactly if they have one SEID, one of them alone has
-- an IPv4 address, and the comparison of the IPv6 addresses puts the other first.
pub fseid_lt_both_iff :
    (a b : Fseid)
    → ((fseid_lt a b ≡ true) × (fseid_lt b a ≡ true))
      ↔ ((a.seid ≡ b.seid) × (Crossed a b ⊎ Crossed b a))
unfolding fseid_lt fseid_lt_ipv6 same_bit pair64
fseid_lt_both_iff a b = ground arith
