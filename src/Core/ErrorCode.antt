-- ===== src/Core/ErrorCode.antt =====
-- crates/core/src/error_code.rs: the stable classification of failures.
use agent_knowledge.Prelude.{ℕ, ◌≡◌, ◌↔◌, true, arith, ◌==◌, PartialEq, nat_eq}

pub data ErrorCode : Type 0 where
  invalid_protocol invalid_request invalid_front_matter invalid_path : ErrorCode
  unsupported_file_type limit_exceeded request_id_reused request_not_found : ErrorCode
  document_id_conflict document_not_found revision_conflict operation_forbidden : ErrorCode
  content_validation_failed quartz_build_failed temporary_failure internal_error : ErrorCode

abbrev pub code_number : ErrorCode → ℕ
code_number invalid_protocol = 0
code_number invalid_request = 1
code_number invalid_front_matter = 2
code_number invalid_path = 3
code_number unsupported_file_type = 4
code_number limit_exceeded = 5
code_number request_id_reused = 6
code_number request_not_found = 7
code_number document_id_conflict = 8
code_number document_not_found = 9
code_number revision_conflict = 10
code_number operation_forbidden = 11
code_number content_validation_failed = 12
code_number quartz_build_failed = 13
code_number temporary_failure = 14
code_number internal_error = 15

pub code_iff : (a b : ErrorCode) → ((code_number a == code_number b) ≡ true) ↔ (a ≡ b)
code_iff a b = ground arith

instance abbrev pub code_eq : PartialEq ErrorCode
code_eq = record { eq = λ a b. code_number a == code_number b; eq_iff = code_iff }
