-- ===== src/Publicip/Fetch/Answer.antt =====
-- internal/publicip/api/resilient.go: what FetchInfo returns, at a time.
use gluetun.Prelude.{
  ℕ, ◌+◌, ◌≡◌, ◌≢◌, refl, sym, ap, ◌⊎◌, inl, inr, Bool, Option, none, some, List, [], ◌∷◌, All,
  arith, take, Member,
}
use gluetun.Publicip.Popular.{Bytes, PublicIp, ◌>>=◌, get_most_popular_result}
use gluetun.Publicip.Popular.Chosen.{IsOneOf, get_most_popular_result-IsOneOf}
use gluetun.Publicip.Fetch.{
  Fetcher, FetchReply, found, too_many_requests, failed, Bans, bans_after, with_result, collect,
  fetched, fetch_info,
}
use gluetun.Publicip.Fetch.Prefix.{usable_prefix, start_loop-usable_prefix}

module _ (clock : ℕ → ℕ) (replies : Fetcher → FetchReply) where
  IsFrom : List Fetcher → PublicIp → Type 0
  IsFrom asked r = (f : Fetcher) × Member f asked × (replies f ≡ found r)

  IsFrom-later :
      (f : Fetcher) (asked : List Fetcher) (r : PublicIp) → IsFrom asked r → IsFrom (f ∷ asked) r
  unfolding IsFrom
  IsFrom-later f asked r (g, m, e) = (g, inr m, e)

  from_reply :
      (reply : FetchReply) (results : List PublicIp) (r : PublicIp)
      → Member r (with_result reply results)
      → (reply ≡ found r) ⊎ Member r results
  from_reply (found ip) results r (inl e) = inl (ap found (sym e))
  from_reply (found ip) results r (inr m) = inr m
  from_reply too_many_requests results r m = inr m
  from_reply failed results r m = inr m

  no_result :
      (reply : FetchReply) (results : List PublicIp)
      → with_result reply results ≡ []
      → ((r : PublicIp) → reply ≢ found r) × (results ≡ [])
  no_result (found ip) results e = absurd (ground (arith, e))
  no_result too_many_requests results e = ((λ r k. absurd (ground (arith, k))), e)
  no_result failed results e = ((λ r k. absurd (ground (arith, k))), e)

  collect-IsFrom :
      (i : ℕ) (asked : List Fetcher) (bans : Bans) (r : PublicIp)
      → Member r (collect clock replies i asked bans).0
      → IsFrom asked r
  unfolding collect IsFrom
  collect-IsFrom i [] bans r m = absurd m
  collect-IsFrom i (f ∷ asked) bans r m =
      let after : Bans = bans_after f (clock i) (replies f) bans in
      elim (from_reply (replies f) (collect clock replies (i + 1) asked after).0 r m) [
        | inl e ↦ (f, inl refl, e)
        | inr later ↦ IsFrom-later f asked r (collect-IsFrom (i + 1) asked after r later)
      ]

  collect-none :
      (i : ℕ) (asked : List Fetcher) (bans : Bans)
      → (collect clock replies i asked bans).0 ≡ []
      → All (λ f. (r : PublicIp) → replies f ≢ found r) asked
  unfolding collect
  collect-none i [] bans e = tt
  collect-none i (f ∷ asked) bans e =
      let after : Bans = bans_after f (clock i) (replies f) bans in
      let (missing, empty) =
        no_result (replies f) (collect clock replies (i + 1) asked after).0 e in
      (missing, collect-none (i + 1) asked after empty)

module _ (normalize : Bytes → Bytes) (valid : Bool) (now : ℕ) (clock : ℕ → ℕ)
    (replies : Fetcher → FetchReply) where
  -- The result is one of those of the fetchers asked, or none of them has a result.
  abbrev pub IsAnswer : List Fetcher → Option (Option PublicIp × Bans) → Type 0
  IsAnswer asked none = ⊥
  IsAnswer asked (some (none, bans)) = All (λ f. (r : PublicIp) → replies f ≢ found r) asked
  IsAnswer asked (some (some r, bans)) = (f : Fetcher) × Member f asked × (replies f ≡ found r)

  chosen-IsAnswer :
      (asked : List Fetcher) (bans : Bans) (results : List PublicIp) (o : Option PublicIp)
      → IsOneOf normalize results o
      → ((r : PublicIp) → Member r results → (f : Fetcher) × Member f asked × (replies f ≡ found r))
      → IsAnswer asked (o >>= λ popular. some (some popular, bans))
  chosen-IsAnswer asked bans results none one inside = absurd one
  chosen-IsAnswer asked bans results (some r) one inside = inside r one

  fetched-IsAnswer :
      (asked : List Fetcher) (results : List PublicIp) (bans : Bans)
      → (results ≡ [] → All (λ f. (r : PublicIp) → replies f ≢ found r) asked)
      → ((r : PublicIp) → Member r results → (f : Fetcher) × Member f asked × (replies f ≡ found r))
      → IsAnswer asked (fetched normalize (results, bans))
  unfolding fetched
  fetched-IsAnswer asked [] bans missing inside = missing refl
  fetched-IsAnswer asked (r ∷ results) bans missing inside =
      chosen-IsAnswer asked bans (r ∷ results) (get_most_popular_result normalize (r ∷ results))
        (get_most_popular_result-IsOneOf normalize (r ∷ results) (λ e. absurd (ground (arith, e))))
        inside

  -- At a time that does not change while the fetchers are started, FetchInfo does not panic;
  -- it asks the fetchers before the first one that is banned or cannot fetch the address, and
  -- returns the result of one of these, or an error if none of them has a result.
  pub fetch_info-IsAnswer :
      (fetchers : List Fetcher) (bans : Bans)
      → IsAnswer
          (take (usable_prefix valid now bans fetchers) fetchers)
          (fetch_info normalize valid (λ _. now) clock replies fetchers bans)
  unfolding fetch_info IsFrom
  fetch_info-IsAnswer fetchers bans =
      let (after, e) = start_loop-usable_prefix valid now bans fetchers in
      let asked : List Fetcher = take (usable_prefix valid now bans fetchers) fetchers in
      let (results, later) = collect clock replies 0 asked after in
      rw e (
        fetched-IsAnswer asked results later (collect-none clock replies 0 asked after)
          (collect-IsFrom clock replies 0 asked after))
