-- ===== src/Natpmp/Attempts.antt =====
-- internal/natpmp/rpc.go: dedupFailedAttempts. The list of messages is in the order in which each
-- appears first, the order that its sort restores from the map.
use mathlib.Core.List.{append-nil, append_assoc}
use gluetun.Prelude.{
  sym, ap, ◌∙◌, ℕ, suc, ◌≡◌, List, [], ◌∷◌, ◌++◌, String, str_eq, eq_iff, if◌then◌else◌, arith,
}

pub record Failures : Type 0 where
  pub message : String
  pub indices : List ℕ

-- `messageToData[message]` with the index added to it
pub add_failure : String → ℕ → List Failures → List Failures
add_failure message i [] = record { message = message; indices = i ∷ [] } ∷ []
add_failure message i (f ∷ fs) =
    let rest = add_failure message i fs in
    if str_eq f.message message then record f { indices = f.indices ++ i ∷ [] } ∷ fs else f ∷ rest

pub dedup_loop : ℕ → List String → List Failures → List Failures
unfolding add_failure
dedup_loop i [] fs = fs
dedup_loop i (m ∷ ms) fs = dedup_loop (suc i) ms (add_failure m i fs)

pub dedup_failed_attempts : List String → List Failures
unfolding dedup_loop
dedup_failed_attempts ms = dedup_loop 0 ms []

-- The indices that are kept for a message.
pub indices_of : String → List Failures → List ℕ
indices_of m [] = []
indices_of m (f ∷ fs) = if str_eq f.message m then f.indices else indices_of m fs

-- The positions of a message in a list whose first position is `i`.
pub positions : String → ℕ → List String → List ℕ
positions m i [] = []
positions m i (x ∷ xs) = if str_eq x m then i ∷ positions m (suc i) xs else positions m (suc i) xs

indices_of-add_failure :
    (m x : String) (i : ℕ) (fs : List Failures)
    → indices_of m (add_failure x i fs) ≡ indices_of m fs ++ (if str_eq x m then i ∷ [] else [])
unfolding add_failure indices_of
indices_of-add_failure m x i [] = ground arith
indices_of-add_failure m x i (f ∷ fs) = ground (
  arith,
  indices_of-add_failure m x i fs,
  eq_iff f.message x,
  eq_iff f.message m,
  eq_iff x m,
  append-nil f.indices,
  append-nil (indices_of m fs),
)

indices_of-dedup_loop :
    (m : String) (i : ℕ) (ms : List String) (fs : List Failures)
    → indices_of m (dedup_loop i ms fs) ≡ indices_of m fs ++ positions m i ms
unfolding dedup_loop positions
indices_of-dedup_loop m i [] fs = sym (append-nil (indices_of m fs))
indices_of-dedup_loop m i (x ∷ ms) fs =
    indices_of-dedup_loop m (suc i) ms (add_failure x i fs)
    ∙ ap (λ is. is ++ positions m (suc i) ms) (indices_of-add_failure m x i fs)
    ∙ append_assoc (indices_of m fs) (if str_eq x m then i ∷ [] else []) (positions m (suc i) ms)
    ∙ ap (λ is. indices_of m fs ++ is) (ground arith)

-- For every message, the indices that are reported with it are its positions among the failed
-- attempts, in order.
pub indices_of-dedup_failed_attempts :
    (m : String) (ms : List String) → indices_of m (dedup_failed_attempts ms) ≡ positions m 0 ms
unfolding dedup_failed_attempts indices_of
indices_of-dedup_failed_attempts m ms = indices_of-dedup_loop m 0 ms []
