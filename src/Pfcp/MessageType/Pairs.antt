-- ===== src/Pfcp/MessageType/Pairs.antt =====
-- Which answers src/pfcp/pfcp.cpp accepts for which requests.
use openair_spgwc.Prelude.{ℕ, ◌+◌, ◌≡◌, ◌↔◌, ◌⊎◌, true, false, arith}
use openair_spgwc.Pfcp.MessageType.{
  check_response_type, has_response, version_not_supported_response,
}

-- A request is answered by the message type that follows it and by no other; a message that is no
-- such request can only be answered by "version not supported".
pub check_response_type_iff :
    (initial triggered : ℕ)
    → (check_response_type initial triggered ≡ true) ↔ (
        ((has_response initial ≡ true) × (triggered ≡ initial + 1))
        ⊎ ((has_response initial ≡ false) × (triggered ≡ version_not_supported_response)))
check_response_type_iff initial triggered = unfold check_response_type in ground arith
