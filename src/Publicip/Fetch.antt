-- ===== src/Publicip/Fetch.antt =====
-- internal/publicip/api/resilient.go: the queries of the fetchers, and the bans of those that have
-- had too many requests. The time is read from `clock`, at a round or at the index of a reply.
pub mod Prefix
pub mod Answer
use gluetun.Prelude.{
  ℕ, zero, suc, ◌+◌, ◌*◌, ◌==◌, Bool, true, false, not, ◌&&◌, ◌||◌, Option, none, some, List, [],
  ◌∷◌, String, str_eq, if◌then◌else◌, length, get_elem?, take, ltb,
}
use gluetun.Publicip.Popular.{Bytes, PublicIp, ◌>>=◌, get_most_popular_result}

-- A Fetcher, with what stands for its address as the key of a map
pub record Fetcher : Type 0 where
  pub address : ℕ
  pub name : String
  pub token : String
  pub fetches_any : Bool

-- What FetchInfo of a fetcher returns: errors are ErrTooManyRequests, or others.
pub data FetchReply : Type 0 where
  found : PublicIp → FetchReply
  too_many_requests : FetchReply
  failed : FetchReply

-- The map fetcherToBanTime
abbrev pub Bans : Type 0
Bans = List (Fetcher × ℕ)

unfoldable pub ban_time : ℕ → Bans → Option ℕ
ban_time address [] = none
ban_time address ((banned, time) ∷ bans) =
    if banned.address == address then some time else ban_time address bans

pub unban : ℕ → Bans → Bans
unban address [] = []
unban address ((banned, time) ∷ bans) =
    let rest = unban address bans in
    if banned.address == address then rest else (banned, time) ∷ rest

pub set_banned : Fetcher → ℕ → Bans → Bans
unfolding unban
set_banned fetcher now bans = (fetcher, now) ∷ unban fetcher.address bans

-- In nanoseconds
abbrev pub ban_duration : ℕ
ban_duration = 30 * 24 * 3600 * 1000000000

pub after_ban : Fetcher → ℕ → Bans → Option ℕ → Bool × Bans
unfolding unban
after_ban fetcher now bans none = (false, bans)
after_ban fetcher now bans (some time) =
    if ltb (time + ban_duration) now then (false, unban fetcher.address bans) else (true, bans)

unfoldable pub is_banned : Fetcher → ℕ → Bans → Bool × Bans
unfolding after_ban ban_time
is_banned fetcher now bans = after_ban fetcher now bans (ban_time fetcher.address bans)

pub can_fetch_any_ip : (ℕ → ℕ) → ℕ → List Fetcher → Bans → Bool × Bans
unfolding is_banned
can_fetch_any_ip clock round [] bans = (false, bans)
can_fetch_any_ip clock round (fetcher ∷ fetchers) bans =
    let (banned, after) =
      if fetcher.fetches_any then is_banned fetcher (clock round) bans else (true, bans) in
    let (any, later) = can_fetch_any_ip clock (round + 1) fetchers after in
    if banned then (any, later) else (true, after)

-- The first loop of FetchInfo: the number of fetchers that it starts. `valid` is ip.IsValid().
pub start_loop : Bool → (ℕ → ℕ) → List Fetcher → ℕ → ℕ → ℕ → Bans → Option (ℕ × Bans)
unfolding is_banned
start_loop valid clock fetchers zero round started bans = some (started, bans)
start_loop valid clock fetchers (suc rounds) round started bans = do
  fetcher ← get_elem? fetchers started
  let (banned, after) = is_banned fetcher (clock round) bans
  start_loop valid clock fetchers rounds (round + 1)
      (if banned || (valid && not fetcher.fetches_any) then started else started + 1) after

-- What a reply does to the bans and to the results
abbrev pub bans_after : Fetcher → ℕ → FetchReply → Bans → Bans
unfolding set_banned
bans_after fetcher now too_many_requests bans = set_banned fetcher now bans
bans_after fetcher now failed bans = bans
bans_after fetcher now (found ip) bans = bans

abbrev pub with_result : FetchReply → List PublicIp → List PublicIp
with_result (found ip) results = ip ∷ results
with_result too_many_requests results = results
with_result failed results = results

-- The last loop of FetchInfo, from an index on
pub collect : (ℕ → ℕ) → (Fetcher → FetchReply) → ℕ → List Fetcher → Bans → List PublicIp × Bans
collect clock replies i [] bans = ([], bans)
collect clock replies i (fetcher ∷ fetchers) bans =
    let (results, after) =
      collect clock replies (i + 1) fetchers
        (bans_after fetcher (clock i) (replies fetcher) bans) in
    (with_result (replies fetcher) results, after)

-- The error is `none` in the pair; `none` for the pair is a panic.
pub fetched : (Bytes → Bytes) → List PublicIp × Bans → Option (Option PublicIp × Bans)
unfolding get_most_popular_result
fetched normalize ([], bans) = some (none, bans)
fetched normalize (result ∷ results, bans) = do
  popular ← get_most_popular_result normalize (result ∷ results)
  some (some popular, bans)

-- FetchInfo. The goroutines have ended when their replies are collected.
unfoldable pub fetch_info :
    (Bytes → Bytes)
    → Bool
    → (ℕ → ℕ)
    → (ℕ → ℕ)
    → (Fetcher → FetchReply)
    → List Fetcher
    → Bans
    → Option (Option PublicIp × Bans)
unfolding start_loop collect fetched
fetch_info normalize valid clock later replies fetchers bans = do
  (started, after) ← start_loop valid clock fetchers (length fetchers) 0 0 bans
  fetched normalize (collect later replies 0 (take started fetchers) after)

-- The map newFetcherNameToFetcher, in which the last fetcher of a name stays
pub by_name : String → List Fetcher → Option Fetcher
by_name name [] = none
by_name name (fetcher ∷ fetchers) = elim (by_name name fetchers) [
  | none ↦ if str_eq fetcher.name name then some fetcher else none
  | some other ↦ some other
]

pub transfer : Fetcher → ℕ → Option Fetcher → Bans → Bans
unfolding set_banned
transfer banned time none new_bans = new_bans
transfer banned time (some fetcher) new_bans =
    if str_eq fetcher.token banned.token then set_banned fetcher time new_bans else new_bans

-- The loop of UpdateFetchers over the bans
pub transfer_bans : (ℕ → ℕ) → ℕ → List Fetcher → Bans → Bans → Bans → Bans
unfolding transfer by_name is_banned
transfer_bans clock round fetchers [] bans new_bans = new_bans
transfer_bans clock round fetchers ((fetcher, time) ∷ rest) bans new_bans =
    let (banned, after) = is_banned fetcher (clock round) bans in
    transfer_bans clock (round + 1) fetchers rest after
      (if banned then transfer fetcher time (by_name fetcher.name fetchers) new_bans else new_bans)

unfoldable pub update_fetchers : (ℕ → ℕ) → List Fetcher → List Fetcher × Bans → List Fetcher × Bans
unfolding transfer_bans
update_fetchers clock fetchers (_, bans) = (fetchers, transfer_bans clock 0 fetchers bans bans [])
