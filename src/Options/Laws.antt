-- ===== src/Options/Laws.antt =====
-- src/aitt_c.cc: what `aitt_option_get` gives after `aitt_option_set`.
use aitt.Base.{
  ◌≡◌, ◌≢◌, false, Option, none, some, Text, codes, c_str_self, has_byte, text_eq, arith,
}
use aitt.Options.{
  success, Handle, OptionKind, my_ip, clean_session, custom_broker, service_id, location_id,
  root_ca, custom_rw_file, other, option_set, option_get, to_boolean, bool_name, lowered,
  set_service_id, set_location_id, set_root_ca, set_custom_rw_file,
}

-- The option as it reads after it is set to the C string v.
abbrev pub shown : OptionKind → Text → Option Text
shown clean_session v = some (bool_name (text_eq (lowered v) (codes "true")))
shown custom_broker v = some (bool_name (text_eq (lowered v) (codes "true")))
shown other v = none
shown _ v = some v

-- An option that is set with success to a C string reads as that string, but a truth value as "true"
-- or "false".
pub option_get-option_set :
    (k : OptionKind) (v : Text) (h : Handle)
    → has_byte 0 v ≡ false
    → (option_set k (some v) h).1 ≡ success
    → option_get k (option_set k (some v) h).0 ≡ shown k v
unfolding option_set option_get to_boolean set_service_id set_location_id set_root_ca
    set_custom_rw_file
option_get-option_set my_ip v h n e = ground (arith, c_str_self v n)
option_get-option_set clean_session v h n e = ground (arith, c_str_self v n)
option_get-option_set custom_broker v h n e = ground (arith, c_str_self v n)
option_get-option_set service_id v h n e = ground (arith, c_str_self v n)
option_get-option_set location_id v h n e = ground (arith, c_str_self v n)
option_get-option_set root_ca v h n e = ground (arith, c_str_self v n)
option_get-option_set custom_rw_file v h n e = ground (arith, c_str_self v n)
option_get-option_set other v h n e = ground arith

-- What `aitt_option_set` refuses, or throws at, it does not change.
pub option_set_refused :
    (k : OptionKind) (v : Option Text) (h : Handle)
    → (option_set k v h).1 ≢ success
    → (option_set k v h).0 ≡ h
unfolding option_set to_boolean set_service_id set_location_id set_root_ca set_custom_rw_file
option_set_refused my_ip none h e = ground arith
option_set_refused my_ip (some t) h e = ground arith
option_set_refused clean_session none h e = ground arith
option_set_refused clean_session (some t) h e = ground arith
option_set_refused custom_broker none h e = ground arith
option_set_refused custom_broker (some t) h e = ground arith
option_set_refused service_id none h e = ground arith
option_set_refused service_id (some t) h e = ground arith
option_set_refused location_id none h e = ground arith
option_set_refused location_id (some t) h e = ground arith
option_set_refused root_ca none h e = ground arith
option_set_refused root_ca (some t) h e = ground arith
option_set_refused custom_rw_file none h e = ground arith
option_set_refused custom_rw_file (some t) h e = ground arith
option_set_refused other none h e = ground arith
option_set_refused other (some t) h e = ground arith
