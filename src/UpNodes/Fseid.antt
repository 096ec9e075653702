-- ===== src/UpNodes/Fseid.antt =====
-- src/common/3gpp_29.244.h: `fseid_t`, its `operator==` and its `operator<`, by which `std::set` keeps
-- the sessions of an association.
pub mod Order
use openair_spgwc.Prelude.{ℕ, ◌+◌, ◌*◌, ◌^◌, Bool, true, false, ◌&&◌, if◌then◌else◌, ◌==◌, ltb}

-- `v4` and `v6` are fields of one bit.
pub record Fseid : Type 0 where
  pub v4 : Bool
  pub v6 : Bool
  pub seid : ℕ
  pub ipv4_address : ℕ
  pub word0 : ℕ
  pub word1 : ℕ
  pub word2 : ℕ
  pub word3 : ℕ

unfoldable pub same_bit : Bool → Bool → Bool
same_bit true b = b
same_bit false true = false
same_bit false false = true

-- `operator==`
unfoldable pub same_fseid : Fseid → Fseid → Bool
unfolding same_bit
same_fseid i t =
    i.seid == t.seid
    && (same_bit i.v4 t.v4
        && (i.ipv4_address == t.ipv4_address
            && (same_bit i.v6 t.v6
                && (i.word0 == t.word0
                    && (i.word1 == t.word1 && (i.word2 == t.word2 && i.word3 == t.word3))))))

-- Two words of an IPv6 address as one number, where the shift and the "or" cannot overlap.
unfoldable pub pair64 : ℕ → ℕ → ℕ
pair64 high low = high * 2 ^ 32 + low

-- The last part of `operator<`, on the IPv6 addresses.
unfoldable pub fseid_lt_ipv6 : Fseid → Fseid → Bool
unfolding same_bit pair64
fseid_lt_ipv6 t i =
    let i64 = pair64 i.word0 i.word1 in
    let this64 = pair64 t.word0 t.word1 in
    let i64' = pair64 i.word2 i.word3 in
    let this64' = pair64 t.word2 t.word3 in
    if same_bit i.v6 t.v6
    then (if ltb i64 this64
        then true
        else if ltb this64 i64
        then false
        else if ltb i64' this64'
        then true
        else false)
    else t.v6

-- `operator<` of `t` with `i`.
unfoldable pub fseid_lt : Fseid → Fseid → Bool
unfolding same_bit fseid_lt_ipv6
fseid_lt t i =
    if ltb i.seid t.seid
    then true
    else if ltb t.seid i.seid
    then false
    else if same_bit i.v4 t.v4
    then (if ltb t.ipv4_address i.ipv4_address
        then true
        else if ltb i.ipv4_address t.ipv4_address
        then false
        else fseid_lt_ipv6 t i)
    else if t.v4
    then true
    else fseid_lt_ipv6 t i
