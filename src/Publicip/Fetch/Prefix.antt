-- ===== src/Publicip/Fetch/Prefix.antt =====
-- internal/publicip/api/resilient.go: which fetchers FetchInfo starts.
use mathlib.Core.Path.{subst}
use gluetun.Prelude.{
  ℕ, zero, suc, ◌+◌, ◌==◌, ◌≡◌, refl, sym, ap, ◌∙◌, inl, inr, Bool, true, false, not, ◌&&◌, ◌||◌,
  Option, none, some, List, [], ◌∷◌, arith, if◌then◌else◌, length, get_elem?, ltb, Bool-cases,
}
use gluetun.Publicip.Fetch.{
  Fetcher, Bans, ban_time, unban, ban_duration, after_ban, is_banned, start_loop,
}

ban_time-unban :
    (a b : ℕ) (bans : Bans) → ban_time b (unban a bans) ≡ (if a == b then none else ban_time b bans)
unfolding ban_time unban
ban_time-unban a b [] = ground arith
ban_time-unban a b ((f, t) ∷ bans) = elim (Bool-cases (f.address == a)) [
  | inl e ↦ rw e (ground (arith, ban_time-unban a b bans, e))
  | inr e ↦ rw e (ground (arith, ban_time-unban a b bans, e))
]

-- Whether a ban of a time is still on
abbrev pub still_banned : ℕ → Option ℕ → Bool
still_banned now none = false
still_banned now (some time) = not (ltb (time + ban_duration) now)

after_ban-still_banned :
    (g : Fetcher) (now : ℕ) (bans : Bans) (o : Option ℕ)
    → (after_ban g now bans o).0 ≡ still_banned now o
unfolding after_ban
after_ban-still_banned g now bans none = refl
after_ban-still_banned g now bans (some time) = elim (Bool-cases (ltb (time + ban_duration) now)) [
  | inl e ↦ rw e refl
  | inr e ↦ rw e refl
]

-- An expired ban is removed, and nothing else changes of what is banned.
unbanned-same :
    (f g : Fetcher) (now : ℕ) (bans : Bans) (o : Option ℕ)
    → ban_time f.address bans ≡ o
    → still_banned now (ban_time g.address (after_ban f now bans o).1)
      ≡ still_banned now (ban_time g.address bans)
unfolding after_ban
unbanned-same f g now bans none e = refl
unbanned-same f g now bans (some time) e = elim (Bool-cases (ltb (time + ban_duration) now)) [
  | inl expired ↦ rw expired (
      rw (ban_time-unban f.address g.address bans) (elim (Bool-cases (f.address == g.address)) [
        | inl same ↦
            let equal : f.address ≡ g.address = ground (arith, same) in
            let on : ban_time g.address bans ≡ some time =
              ap (λ a. ban_time a bans) (sym equal) ∙ e in
            rw same (sym (ap (still_banned now) on ∙ rw expired refl))
        | inr other ↦ rw other refl
      ]))
  | inr still ↦ rw still refl
]

module _ (valid : Bool) (now : ℕ) (bans : Bans) where
  -- A fetcher that is not to be asked
  unfoldable pub blocked : Fetcher → Bool
  blocked f = still_banned now (ban_time f.address bans) || (valid && not f.fetches_any)

  -- How many fetchers there are before the first one that is not to be asked
  unfoldable pub usable_prefix : List Fetcher → ℕ
  usable_prefix [] = 0
  usable_prefix (f ∷ fetchers) = if blocked f then 0 else suc (usable_prefix fetchers)

  -- The bans that are on at that time are the same.
  SameBans : Bans → Type 0
  SameBans current =
      (g : Fetcher)
      → still_banned now (ban_time g.address current) ≡ still_banned now (ban_time g.address bans)

  after-SameBans :
      (f : Fetcher) (current : Bans) → SameBans current → SameBans (is_banned f now current).1
  unfolding SameBans is_banned
  after-SameBans f current same g =
      unbanned-same f g now current (ban_time f.address current) refl ∙ same g

  test-blocked :
      (f : Fetcher) (current : Bans)
      → SameBans current
      → ((is_banned f now current).0 || (valid && not f.fetches_any)) ≡ blocked f
  unfolding SameBans blocked is_banned
  test-blocked f current same =
      ap (λ b. b || (valid && not f.fetches_any))
        (after_ban-still_banned f now current (ban_time f.address current) ∙ same f)

  abbrev Starts : ℕ → Option (ℕ × Bans) → Type 0
  Starts n none = ⊥
  Starts n (some (started, _)) = started ≡ n

  start_loop-blocked :
      (fetchers : List Fetcher) (f : Fetcher) (rounds round started : ℕ) (current : Bans)
      → get_elem? fetchers started ≡ some f
      → blocked f ≡ true
      → SameBans current
      → Starts started (start_loop valid (λ _. now) fetchers rounds round started current)
  unfolding start_loop
  start_loop-blocked fetchers f zero round started current here stops same = refl
  start_loop-blocked fetchers f (suc rounds) round started current here stops same =
      rw (here, test-blocked f current same, stops)
        (start_loop-blocked fetchers f rounds (round + 1) started (is_banned f now current).1 here
          stops (after-SameBans f current same))

  start_loop-Starts :
      (fetchers rest : List Fetcher) (round started : ℕ) (current : Bans)
      → ((j : ℕ) → get_elem? fetchers (started + j) ≡ get_elem? rest j)
      → SameBans current
      → Starts
          (started + usable_prefix rest)
          (start_loop valid (λ _. now) fetchers (length rest) round started current)
  unfolding start_loop usable_prefix
  start_loop-Starts fetchers [] round started current entries same = omega arith
  start_loop-Starts fetchers (f ∷ rest) round started current entries same =
      let none_before : started + 0 ≡ started = omega arith in
      let here : get_elem? fetchers started ≡ some f =
        ap (get_elem? fetchers) (sym none_before) ∙ entries 0 in
      elim (Bool-cases (blocked f)) [
        | inl stops ↦ rw stops (
            subst
              (λ n.
                Starts n
                  (start_loop valid (λ _. now) fetchers (suc (length rest)) round started current))
              (sym none_before)
              (start_loop-blocked fetchers f (suc (length rest)) round started current here stops
                same))
        | inr goes ↦
            rw (here, test-blocked f current same, goes)
              (subst
                (λ n. Starts n (
                  start_loop valid (λ _. now) fetchers (length rest) (round + 1) (started + 1)
                    (is_banned f now current).1))
                (omega arith)
                (start_loop-Starts fetchers rest (round + 1) (started + 1)
                  (is_banned f now current).1
                  (λ j. ap (get_elem? fetchers) (omega arith) ∙ entries (suc j))
                  (after-SameBans f current same)))
      ]

  Starts-some :
      (n : ℕ) (o : Option (ℕ × Bans)) → Starts n o → (after : Bans) × (o ≡ some (n, after))
  Starts-some n none starts = absurd starts
  Starts-some n (some (started, after)) starts = (after, ap (λ k. some (k, after)) starts)

  pub start_loop-usable_prefix :
      (fetchers : List Fetcher)
      → (after : Bans) × (start_loop valid (λ _. now) fetchers (length fetchers) 0 0 bans
          ≡ some (usable_prefix fetchers, after))
  unfolding SameBans
  start_loop-usable_prefix fetchers =
      let none_before : 0 + usable_prefix fetchers ≡ usable_prefix fetchers = omega arith in
      let (after, e) = Starts-some (0 + usable_prefix fetchers) _ (
        start_loop-Starts fetchers fetchers 0 0 bans (λ j. ap (get_elem? fetchers) (omega arith))
          (λ g. refl)) in
      (after, e ∙ ap (λ n. some (n, after)) none_before)
