-- ===== src/Paa/Ipv6Pool.antt =====
-- `ipv6_pool` of src/oai_spgwc/pgw_paa_dynamic.hpp, which hands out its prefix as often as it is
-- asked. A prefix is its number of 128 bits.
use openair_spgwc.Prelude.{ℕ, Bool, true}

pub record Ipv6Pool : Type 0 where
  pub prefix : ℕ
  pub prefix_len : ℕ

-- The default constructor.
unfoldable pub no_ipv6_pool : Ipv6Pool
no_ipv6_pool = record { prefix = 0; prefix_len = 0 }

-- The result and the reference parameter `allocated`.
unfoldable pub alloc_prefix : Ipv6Pool → Bool × ℕ
alloc_prefix p = (true, p.prefix)
