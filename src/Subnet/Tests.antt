-- ===== src/Subnet/Tests.antt =====
-- internal/subnet: cases of subsets_test.go, evaluated.
use gluetun.Prelude.{◌≡◌, refl, false, String, List, [], ◌∷◌}
use gluetun.Subnet.{Prefix, find_subnets_to_change, remove_subnet_from_subnets}

abbrev prefix : String → Prefix
prefix text = record { text = text; is_6 = false }

abbrev old_subnets : List Prefix
old_subnets = prefix "1.2.3.4/32" ∷ prefix "2.2.3.4/32" ∷ []

abbrev new_subnets : List Prefix
new_subnets = prefix "2.2.3.4/32" ∷ prefix "3.2.3.4/32" ∷ []

changes :
    find_subnets_to_change old_subnets new_subnets
    ≡ (prefix "3.2.3.4/32" ∷ [], prefix "1.2.3.4/32" ∷ [])
unfolding find_subnets_to_change
changes = refl

removed : remove_subnet_from_subnets old_subnets (prefix "1.2.3.4/32") ≡ prefix "2.2.3.4/32" ∷ []
unfolding remove_subnet_from_subnets
removed = refl
