-- ===== src/Portforward/Validate/Ready.antt =====
-- internal/portforward/service/settings.go: what valid settings are good for.
use gluetun.Prelude.{
  ℕ, zero, suc, ◌<◌, ◌==◌, not, ◌≡◌, ◌≢◌, refl, Bool, true, false, Option, none, some, List, [],
  ◌∷◌, String, str_eq, if◌then◌else◌, length, get_elem?, arith,
}
use gluetun.Portforward.{ports_equal}
use gluetun.Portforward.Validate.{
  FullSettings, SettingsError, contains_zero, validate_provider, validate_listening, first_error,
  validate_startup, validate,
}

listening_at :
    (ports : List ℕ) (i : ℕ)
    → contains_zero ports ≡ false
    → i < length ports
    → (p : ℕ) × (get_elem? ports i ≡ some p) × (p ≢ 0)
unfolding contains_zero
listening_at [] i no_zero inside = absurd (omega (arith, inside))
listening_at (p ∷ ps) zero no_zero inside = (p, refl, λ e. ground (arith, e, no_zero))
listening_at (p ∷ ps) (suc i) no_zero inside =
    listening_at ps i (ground (arith, no_zero)) (omega (arith, inside))

guarded :
    (b : Bool) (e : SettingsError) (o : Option SettingsError)
    → (if b then some e else o) ≡ none
    → (b ≡ false) × (o ≡ none)
guarded true e o h = absurd (ground (arith, h))
guarded false e o h = (refl, h)

skipped :
    (b : Bool) (o : Option SettingsError) → b ≡ false → (if b then none else o) ≡ none → o ≡ none
skipped true o e h = absurd (ground (arith, e))
skipped false o e h = h

both_none : (a b : Option SettingsError) → first_error a b ≡ none → (a ≡ none) × (b ≡ none)
both_none none b h = (refl, h)
both_none (some e) b h = absurd (ground (arith, h))

validate_listening-get_elem? :
    (s : FullSettings) (i : ℕ)
    → ports_equal s.listening_ports (0 ∷ []) ≡ false
    → validate_listening s ≡ none
    → i < s.ports_count
    → (p : ℕ) × (get_elem? s.listening_ports i ≡ some p) × (p ≢ 0)
unfolding validate_listening
validate_listening-get_elem? s i redirects valid inside =
    let (same, rest) =
      guarded (not (length s.listening_ports == s.ports_count)) _ _ (skipped _ _ redirects valid) in
    listening_at s.listening_ports i (guarded (contains_zero s.listening_ports) _ _ rest).0
      (ground (arith, same, inside))

validate_startup-validate_listening :
    (forwarder : Option String) (s : FullSettings)
    → validate_startup forwarder s ≡ none
    → (s.ports_count ≢ 0) × (validate_listening s ≡ none)
unfolding validate_startup
validate_startup-validate_listening none s valid = absurd (ground (arith, valid))
validate_startup-validate_listening (some name) s valid =
    let (named, rest) = guarded (str_eq s.interface "") _ _ valid in
    let (counted, checks) = guarded (s.ports_count == 0) _ _ rest in
    (
      (λ e. ground (arith, e, counted)),
      (both_none (validate_provider name s) (validate_listening s) checks).1,
    )

-- With settings that are valid for a start and have listening ports other than 0 alone, the
-- listening port at each index below the number of ports exists and is not 0.
pub validate-get_elem? :
    (s : FullSettings) (i : ℕ)
    → validate true s ≡ none
    → ports_equal s.listening_ports (0 ∷ []) ≡ false
    → i < s.ports_count
    → (p : ℕ) × (get_elem? s.listening_ports i ≡ some p) × (p ≢ 0)
unfolding validate
validate-get_elem? s i valid redirects inside =
    let (_, started) = guarded (str_eq s.filepath "") _ _ valid in
    validate_listening-get_elem? s i redirects
      (validate_startup-validate_listening s.port_forwarder s started).1 inside
