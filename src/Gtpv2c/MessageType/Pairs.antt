-- ===== src/Gtpv2c/MessageType/Pairs.antt =====
-- Which messages src/gtpv2c/gtpv2c.cpp accepts for which procedures.
use openair_spgwc.Prelude.{ℕ, ◌+◌, ◌≡◌, ◌↔◌, ◌⊎◌, true, false, arith}
use openair_spgwc.Gtpv2c.MessageType.{
  check_initial_message_type, check_triggered_message_type, version_not_supported_indication,
  create_bearer_request, update_bearer_request, delete_bearer_request,
}

-- What a procedure accepts: the message type that follows an initial one, "version not supported"
-- for any other, and in every procedure the three bearer requests.
pub check_triggered_message_type_iff :
    (initial triggered : ℕ)
    → (check_triggered_message_type initial triggered ≡ true) ↔ (
        ((check_initial_message_type initial ≡ true) × (triggered ≡ initial + 1))
        ⊎ ((check_initial_message_type initial ≡ false)
            × (triggered ≡ version_not_supported_indication))
        ⊎ (triggered ≡ create_bearer_request)
        ⊎ (triggered ≡ update_bearer_request)
        ⊎ (triggered ≡ delete_bearer_request))
unfolding check_triggered_message_type check_initial_message_type
check_triggered_message_type_iff initial triggered = ground arith
