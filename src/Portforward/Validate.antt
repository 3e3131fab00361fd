-- ===== src/Portforward/Validate.antt =====
-- internal/portforward/service/settings.go: the validation of the settings. A port forwarder is
-- its name.
pub mod Ready
use gluetun.Prelude.{
  ℕ, ◌==◌, ltb, not, Bool, true, false, ◌||◌, Option, none, some, List, [], ◌∷◌, String, str_eq,
  if◌then◌else◌, length,
}
use gluetun.Portforward.{ports_equal}

-- Settings, as far as they are validated
pub record FullSettings : Type 0 where
  pub filepath : String
  pub port_forwarder : Option String
  pub interface : String
  pub ports_count : ℕ
  pub server_name : String
  pub username : String
  pub password : String
  pub listening_ports : List ℕ

pub data SettingsError : Type 0 where
  filepath_not_set : SettingsError
  port_forwarder_not_set : SettingsError
  interface_not_set : SettingsError
  ports_count_zero : SettingsError
  server_name_not_set : SettingsError
  username_not_set : SettingsError
  password_not_set : SettingsError
  ports_count_too_high : SettingsError
  listening_ports_len : SettingsError
  listening_port_zero : SettingsError

-- slices.Contains(ports, 0)
pub contains_zero : List ℕ → Bool
contains_zero [] = false
contains_zero (p ∷ ps) = (p == 0) || contains_zero ps

-- The checks by the name of the provider
pub validate_provider : String → FullSettings → Option SettingsError
validate_provider name s =
    if str_eq name "private internet access"
    then (if str_eq s.server_name ""
        then some server_name_not_set
        else if str_eq s.username ""
        then some username_not_set
        else if str_eq s.password ""
        then some password_not_set
        else none)
    else if str_eq name "protonvpn"
    then (if ltb 4 s.ports_count then some ports_count_too_high else none)
    else if ltb 1 s.ports_count
    then some ports_count_too_high
    else none

pub validate_listening : FullSettings → Option SettingsError
unfolding ports_equal contains_zero
validate_listening s =
    if ports_equal s.listening_ports (0 ∷ [])
    then none
    else if not (length s.listening_ports == s.ports_count)
    then some listening_ports_len
    else if contains_zero s.listening_ports
    then some listening_port_zero
    else none

abbrev first_error : Option SettingsError → Option SettingsError → Option SettingsError
first_error (some e) next = some e
first_error none next = next

pub validate_startup : Option String → FullSettings → Option SettingsError
unfolding validate_provider validate_listening
validate_startup none s = some port_forwarder_not_set
validate_startup (some name) s =
    if str_eq s.interface ""
    then some interface_not_set
    else if s.ports_count == 0
    then some ports_count_zero
    else first_error (validate_provider name s) (validate_listening s)

unfoldable pub validate : Bool → FullSettings → Option SettingsError
unfolding validate_startup
validate for_startup s =
    if str_eq s.filepath ""
    then some filepath_not_set
    else if not for_startup
    then none
    else validate_startup s.port_forwarder s
