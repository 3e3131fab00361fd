-- ===== src/Subnet.antt =====
-- internal/subnet/subsets.go. A netip.Prefix is what the code reads of it: its text, by which
-- two prefixes are compared, and whether its address is an IPv6 one.
pub mod Change
pub mod Family
mod Tests
use gluetun.Prelude.{String, Bool, true, false, List, [], ◌∷◌, ◌++◌, str_eq, if◌then◌else◌}

pub record Prefix : Type 0 where
  pub text : String
  pub is_6 : Bool

-- The inner loops of findSubnetsToAdd and findSubnetsToRemove, with their `break`.
pub found : Prefix → List Prefix → Bool
found subnet [] = false
found subnet (other ∷ others) = if str_eq subnet.text other.text then true else found subnet others

pub find_subnets_to_add : List Prefix → List Prefix → List Prefix
unfolding found
find_subnets_to_add old_subnets [] = []
find_subnets_to_add old_subnets (new_subnet ∷ new_subnets) =
    if found new_subnet old_subnets
    then find_subnets_to_add old_subnets new_subnets
    else new_subnet ∷ find_subnets_to_add old_subnets new_subnets

pub find_subnets_to_remove : List Prefix → List Prefix → List Prefix
unfolding found
find_subnets_to_remove [] new_subnets = []
find_subnets_to_remove (old_subnet ∷ old_subnets) new_subnets =
    if found old_subnet new_subnets
    then find_subnets_to_remove old_subnets new_subnets
    else old_subnet ∷ find_subnets_to_remove old_subnets new_subnets

unfoldable pub find_subnets_to_change : List Prefix → List Prefix → List Prefix × List Prefix
unfolding find_subnets_to_add find_subnets_to_remove
find_subnets_to_change old_subnets new_subnets =
    (find_subnets_to_add old_subnets new_subnets, find_subnets_to_remove old_subnets new_subnets)

-- All but the last element of `subnet ∷ subnets`, and that last element.
pub split_last : Prefix → List Prefix → List Prefix × Prefix
split_last subnet [] = ([], subnet)
split_last subnet (next ∷ subnets) =
    let (before, last) = split_last next subnets in (subnet ∷ before, last)

-- `subnets[i] = subnets[L-1]; subnets = subnets[:L-1]` at the first element of the list.
pub swap_out : List Prefix → List Prefix
unfolding split_last
swap_out [] = []
swap_out (next ∷ subnets) = let (before, last) = split_last next subnets in last ∷ before

unfoldable pub remove_subnet_from_subnets : List Prefix → Prefix → List Prefix
unfolding swap_out
remove_subnet_from_subnets [] subnet = []
remove_subnet_from_subnets (first ∷ subnets) subnet =
    if str_eq subnet.text first.text
    then swap_out subnets
    else first ∷ remove_subnet_from_subnets subnets subnet
