-- ===== src/Pmtud/Tcp/Mss.antt =====
-- internal/pmtud/tcp/mss.go: the choice among the replies of the servers, in the order in which
-- they arrive.
use gluetun.Prelude.{
  ℕ, ◌+◌, ◌-◌, ◌%◌, ◌≤◌, ◌<◌, ◌≡◌, ◌≢◌, refl, ◌⊎◌, inl, inr, ◌==◌, ltb, leb, Bool, true, false,
  List, [], ◌∷◌, String, All, if◌then◌else◌, arith,
}
use gluetun.Pmtud.Mtus.{word}
use gluetun.Pmtud.Tcp.{header_length}

pub record Destination : Type 0 where
  pub text : String
  pub is_4 : Bool

-- The result of findMSS for one destination.
pub data Reply : Type 0 where
  replied : Destination → ℕ → Reply
  mark_match_module_missing : Destination → Reply
  failed : Destination → Reply

-- An error of a reply is kept in a variable that is never returned, so it is left out.
pub data Highest : Type 0 where
  highest : Destination → ℕ → Highest
  servers_unreachable : Highest

-- The MSS with which the destination allows the maximum MTU, over uint32.
pub max_needed_mss : ℕ → Destination → ℕ
unfolding header_length
max_needed_mss max_mtu dst = (max_mtu + (word - (header_length dst.is_4 + 20))) % word

pub highest_loop : ℕ → List Reply → Destination → ℕ → Highest
unfolding max_needed_mss
highest_loop max_mtu [] dst mss = if mss == 0 then servers_unreachable else highest dst mss
highest_loop max_mtu (mark_match_module_missing d ∷ rs) dst mss = highest_loop max_mtu rs dst mss
highest_loop max_mtu (failed d ∷ rs) dst mss = highest_loop max_mtu rs dst mss
highest_loop max_mtu (replied d m ∷ rs) dst mss =
    let better = highest_loop max_mtu rs d m in
    let same = highest_loop max_mtu rs dst mss in
    if leb (max_needed_mss max_mtu d) m then highest d m else if ltb mss m then better else same

abbrev pub no_destination : Destination
no_destination = record { text = ""; is_4 = false }

-- findHighestMSSDestination, from the replies of all destinations.
unfoldable pub find_highest_mss_destination : ℕ → List Reply → Highest
unfolding highest_loop
find_highest_mss_destination max_mtu replies = highest_loop max_mtu replies no_destination 0

abbrev pub mss_of : Reply → ℕ
mss_of (replied d m) = m
mss_of (mark_match_module_missing d) = 0
mss_of (failed d) = 0

abbrev pub Has : Reply → List Reply → Type 0
Has r [] = ⊥
Has r (x ∷ xs) = (r ≡ x) ⊎ Has r xs

abbrev Chosen : ℕ → List Reply → Destination → ℕ → Highest → Type 0
Chosen max_mtu rs dst mss (highest d m) =
    (Has (replied d m) rs ⊎ ((d ≡ dst) × (m ≡ mss) × (m ≢ 0)))
    × ((max_needed_mss max_mtu d ≤ m) ⊎ ((mss ≤ m) × All (λ r. mss_of r ≤ m) rs))
Chosen max_mtu rs dst mss servers_unreachable = (mss ≡ 0) × All (λ r. mss_of r ≡ 0) rs

-- What a reply with no MSS above the best one adds.
Chosen-same :
    (max_mtu : ℕ) (r : Reply) (rs : List Reply) (dst : Destination) (mss : ℕ) (h : Highest)
    → mss_of r ≤ mss
    → Chosen max_mtu rs dst mss h
    → Chosen max_mtu (r ∷ rs) dst mss h
Chosen-same max_mtu r rs dst mss (highest d m) le c = (
  elim c.0 [ inl has ↦ inl (inr has) | inr best ↦ inr best ],
  elim c.1 [
    | inl enough ↦ inl enough
    | inr most ↦ inr (most.0, (omega (arith, most.0, le), most.1))
  ],
)
Chosen-same max_mtu r rs dst mss servers_unreachable le c = (c.0, (omega (arith, c.0, le), c.1))

Chosen-better :
    (max_mtu : ℕ) (rs : List Reply) (dst d : Destination) (mss m : ℕ) (h : Highest)
    → mss < m
    → Chosen max_mtu rs d m h
    → Chosen max_mtu (replied d m ∷ rs) dst mss h
Chosen-better max_mtu rs dst d mss m (highest d' m') lt c = (
  elim c.0 [ inl has ↦ inl (inr has) | inr best ↦ inl (inl (cc (best.0, best.1))) ],
  elim c.1 [
    | inl enough ↦ inl enough
    | inr most ↦ inr (omega (arith, most.0, lt), (most.0, most.1))
  ],
)
Chosen-better max_mtu rs dst d mss m servers_unreachable lt c = absurd (omega (arith, c.0, lt))

if_highest :
    (P : Highest → Type 0) (b : Bool) (x y : Highest)
    → (b ≡ true → P x)
    → (b ≡ false → P y)
    → P (if b then x else y)
if_highest P true x y p q = p refl
if_highest P false x y p q = q refl

highest_loop-Chosen :
    (max_mtu : ℕ) (rs : List Reply) (dst : Destination) (mss : ℕ)
    → Chosen max_mtu rs dst mss (highest_loop max_mtu rs dst mss)
unfolding highest_loop
highest_loop-Chosen max_mtu [] dst mss =
    if_highest (Chosen max_mtu [] dst mss) (mss == 0) servers_unreachable (highest dst mss)
      (λ z. (ground (arith, z), tt))
      (λ nz. (inr (refl, refl, (λ e. ground (arith, nz, e))), inr (omega arith, tt)))
highest_loop-Chosen max_mtu (mark_match_module_missing d ∷ rs) dst mss =
    Chosen-same max_mtu (mark_match_module_missing d) rs dst mss (highest_loop max_mtu rs dst mss)
      (omega arith) (highest_loop-Chosen max_mtu rs dst mss)
highest_loop-Chosen max_mtu (failed d ∷ rs) dst mss =
    Chosen-same max_mtu (failed d) rs dst mss (highest_loop max_mtu rs dst mss) (omega arith)
      (highest_loop-Chosen max_mtu rs dst mss)
highest_loop-Chosen max_mtu (replied d m ∷ rs) dst mss =
    if_highest (Chosen max_mtu (replied d m ∷ rs) dst mss) (leb (max_needed_mss max_mtu d) m)
      (highest d m) _ (λ enough. (inl (inl refl), inl (ground (arith, enough))))
      λ _.
        if_highest (Chosen max_mtu (replied d m ∷ rs) dst mss) (ltb mss m)
          (highest_loop max_mtu rs d m) (highest_loop max_mtu rs dst mss)
          (λ more.
            Chosen-better max_mtu rs dst d mss m (highest_loop max_mtu rs d m)
              (ground (arith, more)) (highest_loop-Chosen max_mtu rs d m))
          (λ less.
            Chosen-same max_mtu (replied d m) rs dst mss (highest_loop max_mtu rs dst mss)
              (ground (arith, less)) (highest_loop-Chosen max_mtu rs dst mss))

abbrev pub IsHighest : ℕ → List Reply → Highest → Type 0
IsHighest max_mtu rs (highest d m) =
    Has (replied d m) rs × ((max_needed_mss max_mtu d ≤ m) ⊎ All (λ r. mss_of r ≤ m) rs)
IsHighest max_mtu rs servers_unreachable = All (λ r. mss_of r ≡ 0) rs

IsHighest-Chosen :
    (max_mtu : ℕ) (rs : List Reply) (h : Highest)
    → Chosen max_mtu rs no_destination 0 h
    → IsHighest max_mtu rs h
IsHighest-Chosen max_mtu rs (highest d m) c = (
  elim c.0 [ inl has ↦ has | inr best ↦ absurd (best.2 best.1) ],
  elim c.1 [ inl enough ↦ inl enough | inr most ↦ inr most.1 ],
)
IsHighest-Chosen max_mtu rs servers_unreachable c = c.1

-- In whatever order the replies arrive, the destination and the MSS that are chosen are those of
-- a reply, and the MSS is enough for the maximum MTU or no reply has a higher one; the servers are
-- reported unreachable only where no reply has an MSS above zero.
pub find_highest_mss_destination-IsHighest :
    (max_mtu : ℕ) (replies : List Reply)
    → IsHighest max_mtu replies (find_highest_mss_destination max_mtu replies)
unfolding find_highest_mss_destination
find_highest_mss_destination-IsHighest max_mtu replies =
    IsHighest-Chosen max_mtu replies (highest_loop max_mtu replies no_destination 0)
      (highest_loop-Chosen max_mtu replies no_destination 0)
