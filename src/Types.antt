-- ===== src/Types.antt =====
-- include/AittTypes.h, include/AittException.h and the constants of common/: the protocols, the
-- errors that an operation throws, and the values that callers get back.
use aitt.Base.{ℕ, Text, codes}

-- `AittProtocol`. A value outside the enumeration has a case of its own.
pub data AittProtocol : Type 0 where
  unknown mqtt tcp tcp_secure : AittProtocol

-- `AittException::ErrCode`, and `std::runtime_error`.
pub data Error : Type 0 where
  invalid_arg no_memory_err operation_failed system_err mqtt_err no_data_err resource_busy_err :
      Error
  already not_supported invalid_state : Error
  runtime_error : Error

-- A call returns a value or throws.
pub data Result {ℓ} (A : Type ℓ) : Type ℓ where
  ok : A → Result A
  err : Error → Result A

-- AITT_MESSAGE_MAX and AITT_PAYLOAD_MAX
abbrev pub message_max : ℕ
message_max = 268435455

-- AITT_MANAGED_TOPIC_PREFIX "discovery/"
abbrev pub discovery_topic_base : Text
discovery_topic_base = codes "/v1/custom/f5c7b34e48c1918f/discovery/"

abbrev pub response_postfix : Text
response_postfix = codes "_AittRe_"
