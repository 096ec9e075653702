-- ===== src/Gtpv2c/MessageType.antt =====
-- src/gtpv2c/gtpv2c.cpp: `check_initial_message_type` and `check_triggered_message_type`, and the
-- message types of src/common/3gpp_29.274.h.
pub mod Pairs
use openair_spgwc.Prelude.{ℕ, suc, ◌+◌, Bool, true, false, ◌||◌, List, [], ◌∷◌, if◌then◌else◌, ◌==◌}

abbrev pub echo_request : ℕ
echo_request = 1

abbrev pub create_session_request : ℕ
create_session_request = 32

abbrev pub modify_bearer_request : ℕ
modify_bearer_request = 34

abbrev pub delete_session_request : ℕ
delete_session_request = 36

abbrev pub change_notification_request : ℕ
change_notification_request = 38

abbrev pub remote_ue_report_notification : ℕ
remote_ue_report_notification = 40

abbrev pub modify_bearer_command : ℕ
modify_bearer_command = 64

abbrev pub delete_bearer_command : ℕ
delete_bearer_command = 66

abbrev pub bearer_resource_command : ℕ
bearer_resource_command = 68

abbrev pub create_bearer_request : ℕ
create_bearer_request = 95

abbrev pub update_bearer_request : ℕ
update_bearer_request = 97

abbrev pub delete_bearer_request : ℕ
delete_bearer_request = 99

abbrev pub delete_pdn_connection_set_request : ℕ
delete_pdn_connection_set_request = 101

abbrev pub pgw_downlink_triggering_notification : ℕ
pgw_downlink_triggering_notification = 103

abbrev pub identification_request : ℕ
identification_request = 128

abbrev pub context_request : ℕ
context_request = 130

abbrev pub forward_relocation_request : ℕ
forward_relocation_request = 133

abbrev pub forward_relocation_complete_notification : ℕ
forward_relocation_complete_notification = 135

abbrev pub forward_access_context_notification : ℕ
forward_access_context_notification = 137

abbrev pub relocation_cancel_request : ℕ
relocation_cancel_request = 139

abbrev pub detach_notification : ℕ
detach_notification = 149

abbrev pub alert_mme_notification : ℕ
alert_mme_notification = 153

abbrev pub ue_activity_notification : ℕ
ue_activity_notification = 155

abbrev pub ue_registration_query_request : ℕ
ue_registration_query_request = 158

abbrev pub create_forwarding_tunnel_request : ℕ
create_forwarding_tunnel_request = 160

abbrev pub suspend_notification : ℕ
suspend_notification = 162

abbrev pub resume_notification : ℕ
resume_notification = 164

abbrev pub create_indirect_data_forwarding_tunnel_request : ℕ
create_indirect_data_forwarding_tunnel_request = 166

abbrev pub delete_indirect_data_forwarding_tunnel_request : ℕ
delete_indirect_data_forwarding_tunnel_request = 168

abbrev pub release_access_bearers_request : ℕ
release_access_bearers_request = 170

abbrev pub downlink_data_notification : ℕ
downlink_data_notification = 176

abbrev pub pgw_restart_notification : ℕ
pgw_restart_notification = 179

abbrev pub update_pdn_connection_set_request : ℕ
update_pdn_connection_set_request = 200

abbrev pub modify_access_bearers_request : ℕ
modify_access_bearers_request = 211

abbrev pub mbms_session_start_request : ℕ
mbms_session_start_request = 231

abbrev pub mbms_session_update_request : ℕ
mbms_session_update_request = 233

abbrev pub mbms_session_stop_request : ℕ
mbms_session_stop_request = 235

abbrev pub version_not_supported_indication : ℕ
version_not_supported_indication = 3

abbrev pub echo_response : ℕ
echo_response = 2

abbrev pub create_session_response : ℕ
create_session_response = 33

abbrev pub delete_session_response : ℕ
delete_session_response = 37

abbrev pub modify_bearer_response : ℕ
modify_bearer_response = 35

abbrev pub release_access_bearers_response : ℕ
release_access_bearers_response = 171

abbrev pub downlink_data_notification_acknowledge : ℕ
downlink_data_notification_acknowledge = 177

-- The labels that the `switch` of both functions has.
abbrev pub initial_labels : List ℕ
initial_labels =
    echo_request ∷ create_session_request ∷ modify_bearer_request ∷ delete_session_request
    ∷ change_notification_request ∷ remote_ue_report_notification ∷ modify_bearer_command
    ∷ delete_bearer_command ∷ bearer_resource_command ∷ create_bearer_request
    ∷ update_bearer_request ∷ delete_bearer_request ∷ delete_pdn_connection_set_request
    ∷ pgw_downlink_triggering_notification ∷ identification_request ∷ context_request
    ∷ forward_relocation_request ∷ forward_relocation_complete_notification
    ∷ forward_access_context_notification ∷ relocation_cancel_request ∷ detach_notification
    ∷ alert_mme_notification ∷ ue_activity_notification ∷ ue_registration_query_request
    ∷ create_forwarding_tunnel_request ∷ suspend_notification ∷ resume_notification
    ∷ create_indirect_data_forwarding_tunnel_request
    ∷ delete_indirect_data_forwarding_tunnel_request ∷ release_access_bearers_request
    ∷ downlink_data_notification ∷ pgw_restart_notification ∷ update_pdn_connection_set_request
    ∷ modify_access_bearers_request ∷ mbms_session_start_request ∷ mbms_session_update_request
    ∷ mbms_session_stop_request ∷ []

unfoldable pub is_label : ℕ → List ℕ → Bool
is_label n [] = false
is_label n (x ∷ xs) = n == x || is_label n xs

unfoldable pub check_initial_message_type : ℕ → Bool
check_initial_message_type initial = is_label initial initial_labels

-- The second `switch`, reached where the first does not return.
unfoldable pub is_bearer_request : ℕ → Bool
is_bearer_request triggered =
    triggered == create_bearer_request
    || triggered == update_bearer_request
    || triggered == delete_bearer_request

unfoldable pub check_triggered_message_type : ℕ → ℕ → Bool
unfolding is_bearer_request
check_triggered_message_type initial triggered =
    if is_label initial initial_labels
    then if triggered == initial + 1 then true else is_bearer_request triggered
    else if triggered == version_not_supported_indication
    then true
    else is_bearer_request triggered
