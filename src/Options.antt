-- ===== src/Options.antt =====
-- common/AittOption.cc: the options of a client, and src/aitt_c.cc: `aitt_option_set` and
-- `aitt_option_get`, which read and write them as C strings.
pub mod Laws
use aitt.Base.{
  ℕ, ◌≡◌, Bool, true, false, List, [], ◌∷◌, Option, none, some, if◌then◌else◌, not, Text, codes,
  c_str, ltb, text_eq, ◌+◌, ◌&&◌,
}

-- AITT_ERROR_NONE, AITT_ERROR_INVALID_PARAMETER and AITT_ERROR_NOT_SUPPORTED. `crash` stands for
-- the exception of a `std::string` that is made of a null pointer, which nothing catches.
pub data Status : Type 0 where
  success invalid_parameter not_supported crash : Status

pub record AittOption : Type 0 where
  pub clean_session : Bool
  pub use_custom_broker : Bool
  pub service_id : Text
  pub location_id : Text
  pub root_ca : Text
  pub custom_rw_file : Text

-- `aitt_option`; a null pointer is `none`. The address is that of the caller's own string.
pub record Handle : Type 0 where
  pub my_ip : Option Text
  pub option : AittOption

-- The constructors of `AittOption` and `aitt_option`.
unfoldable pub new_option : Bool → Bool → AittOption
new_option clean custom = record {
  clean_session = clean;
  use_custom_broker = custom;
  service_id = [];
  location_id = [];
  root_ca = [];
  custom_rw_file = [];
}

abbrev pub new_handle : Handle
unfolding new_option
new_handle = record { my_ip = none; option = new_option false false }

unfoldable pub set_service_id : Text → AittOption → AittOption × Status
set_service_id id o =
    if not o.use_custom_broker then (o, not_supported) else (record o { service_id = id }, success)

unfoldable pub set_location_id : Text → AittOption → AittOption × Status
set_location_id id o =
    if not o.use_custom_broker then (o, not_supported) else (record o { location_id = id }, success)

unfoldable pub set_root_ca : Text → AittOption → AittOption × Status
set_root_ca ca o =
    if not o.use_custom_broker then (o, not_supported) else (record o { root_ca = ca }, success)

unfoldable pub set_custom_rw_file : Text → AittOption → AittOption × Status
set_custom_rw_file file o =
    if not o.use_custom_broker
    then (o, not_supported)
    else (record o { custom_rw_file = file }, success)

-- `aitt_option_e`; a value outside the enumeration has a case of its own.
pub data OptionKind : Type 0 where
  my_ip clean_session custom_broker service_id location_id root_ca custom_rw_file other : OptionKind

-- A letter in lower case, and `strcasecmp` as a test for equality.
abbrev pub lower : ℕ → ℕ
lower c = if ltb 64 c && ltb c 91 then c + 32 else c

abbrev pub lowered : Text → Text
lowered [] = []
lowered (c ∷ cs) = lower c ∷ lowered cs

-- `_to_boolean`: `none` is AITT_ERROR_INVALID_PARAMETER.
unfoldable pub to_boolean : Option Text → Option Bool
to_boolean none = some false
to_boolean (some value) =
    if text_eq (lowered value) (codes "true")
    then some true
    else if text_eq (lowered value) (codes "false")
    then some false
    else none

abbrev with_bool : Option Bool → (Bool → AittOption → AittOption) → Handle → Handle × Status
with_bool none f h = (h, invalid_parameter)
with_bool (some b) f h = (record h { option = f b h.option }, success)

abbrev with_text :
    Option Text → (Text → AittOption → AittOption × Status) → Handle → Handle × Status
with_text none f h = (h, crash)
with_text (some t) f h = (record h { option = (f t h.option).0 }, (f t h.option).1)

unfoldable pub option_set : OptionKind → Option Text → Handle → Handle × Status
unfolding set_service_id set_location_id set_root_ca set_custom_rw_file to_boolean
option_set my_ip value h = (record h { my_ip = value }, success)
option_set clean_session value h =
    with_bool (to_boolean value) (λ b o. record o { clean_session = b }) h
option_set custom_broker value h =
    with_bool (to_boolean value) (λ b o. record o { use_custom_broker = b }) h
option_set service_id value h = with_text value set_service_id h
option_set location_id value h = with_text value set_location_id h
option_set root_ca value h = with_text value set_root_ca h
option_set custom_rw_file value h = with_text value set_custom_rw_file h
option_set other value h = (h, invalid_parameter)

abbrev pub bool_name : Bool → Text
bool_name true = codes "true"
bool_name false = codes "false"

unfoldable pub option_get : OptionKind → Handle → Option Text
option_get my_ip h = h.my_ip
option_get clean_session h = some (bool_name h.option.clean_session)
option_get custom_broker h = some (bool_name h.option.use_custom_broker)
option_get service_id h = some (c_str h.option.service_id)
option_get location_id h = some (c_str h.option.location_id)
option_get root_ca h = some (c_str h.option.root_ca)
option_get custom_rw_file h = some (c_str h.option.custom_rw_file)
option_get other h = none
