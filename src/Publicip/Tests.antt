-- ===== src/Publicip/Tests.antt =====
-- internal/publicip/api/resilient.go: the theorems at inputs.
use gluetun.Prelude.{ℕ, ◌≡◌, refl, true, false, some, List, [], ◌∷◌, arith, take, if◌then◌else◌}
use gluetun.Publicip.Distance.{levenshtein_distance}
use gluetun.Publicip.Distance.Edits.{IsDistance, levenshtein_distance-IsDistance}
use gluetun.Publicip.Popular.{Bytes, PublicIp, get_most_popular_string}
use gluetun.Publicip.Popular.Clusters.{IsPopular, get_most_popular_string-IsPopular}
use gluetun.Publicip.Fetch.{Fetcher, FetchReply, found, failed, ban_time, fetch_info}
use gluetun.Publicip.Fetch.Prefix.{blocked, usable_prefix}
use gluetun.Publicip.Fetch.Answer.{IsAnswer, fetch_info-IsAnswer}

-- From kit to bits
levenshtein_distance-IsDistance_example :
    IsDistance (107 ∷ 105 ∷ 116 ∷ []) (98 ∷ 105 ∷ 116 ∷ 115 ∷ []) 2
unfolding levenshtein_distance
levenshtein_distance-IsDistance_example =
    levenshtein_distance-IsDistance (107 ∷ 105 ∷ 116 ∷ []) (98 ∷ 105 ∷ 116 ∷ 115 ∷ [])

abbrev unchanged : Bytes → Bytes
unchanged bytes = bytes

abbrev countries : List Bytes
countries = (117 ∷ 115 ∷ 97 ∷ []) ∷ (102 ∷ 114 ∷ 97 ∷ []) ∷ (102 ∷ 114 ∷ 97 ∷ 110 ∷ []) ∷ []

winner_is_second : get_most_popular_string unchanged countries ≡ some (1, 1 ∷ 2 ∷ [])
unfolding get_most_popular_string levenshtein_distance
winner_is_second = refl

get_most_popular_string-IsPopular_example :
    IsPopular unchanged countries (get_most_popular_string unchanged countries)
get_most_popular_string-IsPopular_example =
    get_most_popular_string-IsPopular unchanged countries (λ e. absurd (ground (arith, e)))

abbrev located : Bytes → PublicIp
located country = record {
  ip = 49 ∷ [];
  region = [];
  country = country;
  city = [];
  hostname = [];
  location = [];
  organization = [];
  postal_code = [];
  timezone = [];
}

abbrev ipinfo : Fetcher
ipinfo = record { address = 1; name = "ipinfo"; token = ""; fetches_any = true }

abbrev cloudflare : Fetcher
cloudflare = record { address = 2; name = "cloudflare"; token = ""; fetches_any = false }

-- Only ipinfo knows something.
abbrev replies : Fetcher → FetchReply
replies fetcher = if fetcher.fetches_any then found (located (102 ∷ [])) else failed

abbrev clock : ℕ → ℕ
clock i = 1000

fetch_info-IsAnswer_example :
    IsAnswer unchanged false 1000 clock replies
      (take (usable_prefix false 1000 [] (ipinfo ∷ cloudflare ∷ [])) (ipinfo ∷ cloudflare ∷ []))
      (fetch_info unchanged false (λ _. 1000) clock replies (ipinfo ∷ cloudflare ∷ []) [])
fetch_info-IsAnswer_example =
    fetch_info-IsAnswer unchanged false 1000 clock replies (ipinfo ∷ cloudflare ∷ []) []

cloudflare-blocked : blocked true 1000 [] cloudflare ≡ true
unfolding blocked ban_time
cloudflare-blocked = refl
