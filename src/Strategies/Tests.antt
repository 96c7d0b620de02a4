-- ===== src/Strategies/Tests.antt =====
-- Requests and messages on which the theorems on strategies are applied.
use zero_shield.Base.{ℕ, String, ◌≡◌, ◌↔◌, refl, List, [], true}
use zero_shield.Base.Effects.{ok}
use zero_shield.Base.Int.{pos}
use zero_shield.Base.Floats.{Fixed, fixed_float}
use zero_shield.Models.Values.{Value, Items, Fields, eq_value}
use zero_shield.Strategies.Checks.{accepted_outcome, blocked_outcome}
use zero_shield.Strategies.Vpn
use zero_shield.Strategies.Telecom
use zero_shield.Strategies.Vpn.Strict.{
  IsStrictRequest, strict_vpn-accepts_iff, strict_process-weak_vpn,
}
use zero_shield.Strategies.Telecom.Strict.{
  IsStrictMessage, strict_telecom-accepts_iff, strict_process-weak_telecom,
}

-- `str` of a value that is no text is not looked at here.
abbrev no_text : Value Fixed → List ℕ
no_text v = []

abbrev pair : String → String → Value Fixed
pair k v = Value.list (Items.cons (Value.str k) (Items.cons (Value.str v) Items.nil))

abbrev vpn_request : String → Fields Fixed
vpn_request path = Fields.field "method" (Value.str "GET") (
    Fields.field "path" (Value.str path) (
      Fields.field "encoding" (Value.str "utf-8") (
        Fields.field "declared_content_length" (Value.int (pos 3)) (
          Fields.field "actual_body_length" (Value.int (pos 3)) (
            Fields.field "headers" (Value.list (Items.cons (pair "Host" "a") Items.nil))
              Fields.end)))))

abbrev sip_headers : Value Fixed
sip_headers = Value.list (
    Items.cons (pair "Call-ID" "1")
      (Items.cons (pair "From" "a") (Items.cons (pair "To" "b") Items.nil)))

abbrev sip_message : String → Fields Fixed
sip_message state = Fields.field "method" (Value.str "INVITE") (
    Fields.field "session_state" (Value.str state) (
      Fields.field "headers" sip_headers (
        Fields.field "declared_body_length" (Value.int (pos 0)) (
          Fields.field "actual_body_length" (Value.int (pos 0)) (
            Fields.field "sequence_number" (Value.int (pos 1))
              (Fields.field "expected_sequence_number" (Value.int (pos 1)) Fields.end))))))

-- A plain path is accepted, an escaped climb out of the tree is not, though the baseline takes it.
plain_path : Vpn.strict_process no_text (vpn_request "/remote/login") ≡ ok accepted_outcome
unfolding Vpn.strict_process Vpn.fails_schema_check Vpn.fails_length_checks
    Vpn.fails_duplicate_field_check Vpn.fails_type_check Vpn.fails_path_canonicalisation_check
    eq_value
plain_path = refl

climbing_path : Vpn.strict_process no_text (vpn_request "/a/%2E%2e/b") ≡ ok (blocked_outcome true)
unfolding Vpn.strict_process Vpn.fails_schema_check Vpn.fails_length_checks
    Vpn.fails_duplicate_field_check Vpn.fails_type_check Vpn.fails_path_canonicalisation_check
    eq_value
climbing_path = refl

legal_invite : Telecom.strict_process no_text (sip_message "INIT") ≡ ok accepted_outcome
unfolding Telecom.strict_process Telecom.fails_mandatory_field_check
    Telecom.fails_duplicate_header_check Telecom.fails_size_limit_checks
    Telecom.fails_sequence_validation Telecom.fails_state_machine_check eq_value
legal_invite = refl

late_invite : Telecom.strict_process no_text (sip_message "RINGING") ≡ ok (blocked_outcome true)
unfolding Telecom.strict_process Telecom.fails_mandatory_field_check
    Telecom.fails_duplicate_header_check Telecom.fails_size_limit_checks
    Telecom.fails_sequence_validation Telecom.fails_state_machine_check eq_value
late_invite = refl

strict_vpn-accepts_iff_example :
    (Vpn.strict_process no_text (vpn_request "/remote/login") ≡ ok accepted_outcome)
    ↔ IsStrictRequest no_text (vpn_request "/remote/login")
strict_vpn-accepts_iff_example = strict_vpn-accepts_iff no_text (vpn_request "/remote/login")

strict_process-weak_vpn_example :
    Vpn.weak_process (vpn_request "/remote/login") ≡ ok accepted_outcome
strict_process-weak_vpn_example =
    strict_process-weak_vpn no_text (vpn_request "/remote/login") plain_path

strict_telecom-accepts_iff_example :
    (Telecom.strict_process no_text (sip_message "INIT") ≡ ok accepted_outcome)
    ↔ IsStrictMessage no_text (sip_message "INIT")
strict_telecom-accepts_iff_example = strict_telecom-accepts_iff no_text (sip_message "INIT")

strict_process-weak_telecom_example :
    Telecom.weak_process (sip_message "INIT") ≡ ok accepted_outcome
strict_process-weak_telecom_example =
    strict_process-weak_telecom no_text (sip_message "INIT") legal_invite
