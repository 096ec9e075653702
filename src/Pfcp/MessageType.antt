-- ===== src/Pfcp/MessageType.antt =====
-- src/pfcp/pfcp.cpp: `check_request_type` and `check_response_type`, and the message types of
-- src/common/3gpp_29.244.h.
pub mod Pairs
use openair_spgwc.Prelude.{ℕ, suc, ◌+◌, Bool, true, false, ◌||◌, ◌≡◌, if◌then◌else◌, ◌==◌}

abbrev pub heartbeat_request : ℕ
heartbeat_request = 1

abbrev pub heartbeat_response : ℕ
heartbeat_response = 2

abbrev pub pfd_management_request : ℕ
pfd_management_request = 3

abbrev pub association_setup_request : ℕ
association_setup_request = 5

abbrev pub association_setup_response : ℕ
association_setup_response = 6

abbrev pub association_update_request : ℕ
association_update_request = 7

abbrev pub association_release_request : ℕ
association_release_request = 9

abbrev pub association_release_response : ℕ
association_release_response = 10

abbrev pub version_not_supported_response : ℕ
version_not_supported_response = 11

abbrev pub node_report_request : ℕ
node_report_request = 12

abbrev pub node_report_response : ℕ
node_report_response = 13

abbrev pub session_establishment_request : ℕ
session_establishment_request = 50

abbrev pub session_establishment_response : ℕ
session_establishment_response = 51

abbrev pub session_modification_request : ℕ
session_modification_request = 52

abbrev pub session_modification_response : ℕ
session_modification_response = 53

abbrev pub session_deletion_request : ℕ
session_deletion_request = 54

abbrev pub session_deletion_response : ℕ
session_deletion_response = 55

abbrev pub session_report_request : ℕ
session_report_request = 56

abbrev pub session_report_response : ℕ
session_report_response = 57

unfoldable pub check_request_type : ℕ → Bool
check_request_type initial =
    initial == heartbeat_request
    || initial == pfd_management_request
    || initial == association_setup_request
    || initial == association_update_request
    || initial == association_release_request
    || initial == node_report_request
    || initial == node_report_response
    || initial == session_establishment_request
    || initial == session_modification_request
    || initial == session_deletion_request
    || initial == session_report_request
    || initial == session_report_response

-- The labels of the `switch` of `check_response_type`.
unfoldable pub has_response : ℕ → Bool
has_response initial =
    initial == heartbeat_request
    || initial == pfd_management_request
    || initial == association_setup_request
    || initial == association_update_request
    || initial == association_release_request
    || initial == node_report_request
    || initial == session_establishment_request
    || initial == session_modification_request
    || initial == session_deletion_request
    || initial == session_report_request

unfoldable pub check_response_type : ℕ → ℕ → Bool
unfolding has_response
check_response_type initial triggered =
    if has_response initial
    then triggered == initial + 1
    else triggered == version_not_supported_response
