-- ===== src/Command/Progress.antt =====
-- internal/command/split.go: the loops of split and of the functions that it calls end.
use gluetun.Prelude.{
  ℕ, zero, suc, ◌≤◌, ◌<◌, ◌≡◌, ◌≢◌, Bool, false, true, List, [], ◌∷◌, ◌++◌, ◌==◌, if◌then◌else◌,
  inl, inr, length, All, arith, Bool-cases,
}
use gluetun.Command.{
  Chars, Run, ok, err, out_of_fuel, ◌>>=◌, newline, single_quote, double_quote, backslash,
  is_spacing, is_escapable, split_word, handle_double_quoted, handle_double_quoted_escape,
  handle_single_quoted, handle_escaped, split_loop, split,
}

abbrev pub NoBackslash : Chars → Type 0
NoBackslash = All (λ c. (c == backslash) ≡ false)

-- The call returns, and what it leaves is no longer than the input and has no new backslash.
abbrev Leaves : Chars → Run (Chars × Chars) → Type 0
Leaves input (ok (word, rest)) =
    (length rest ≤ length input) × (NoBackslash input → NoBackslash rest)
Leaves input (err e) = Unit
Leaves input out_of_fuel = ⊥

Leaves-cons :
    (c : ℕ) (input : Chars) (r : Run (Chars × Chars)) → Leaves input r → Leaves (c ∷ input) r
Leaves-cons c input (ok (word, rest)) l = (omega arith, λ h. l.1 h.1)
Leaves-cons c input (err e) l = tt
Leaves-cons c input out_of_fuel l = l

Leaves-if :
    (input : Chars) (b : Bool) (r s : Run (Chars × Chars))
    → Leaves input r
    → Leaves input s
    → Leaves input (if b then r else s)
Leaves-if input true r s l m = l
Leaves-if input false r s l m = m

mutual
  unfolding split_word

  split_word-Leaves :
      (input buffer pending : Chars) → Leaves input (split_word buffer pending input)
  split_word-Leaves [] buffer pending = (omega arith, λ h. h)
  split_word-Leaves (c ∷ input) buffer pending =
      Leaves-if (c ∷ input) (is_spacing c) _ _ (omega arith, λ h. h.1)
        (Leaves-if (c ∷ input) (c == double_quote) _ _
          (Leaves-cons c input _ (double_quoted-Leaves input (buffer ++ pending) []))
          (Leaves-if (c ∷ input) (c == single_quote) _ _
            (Leaves-cons c input _ (single_quoted-Leaves input (buffer ++ pending) []))
            (Leaves-if (c ∷ input) (c == backslash) _ _
              (Leaves-cons c input _ (escaped-Leaves input (buffer ++ pending)))
              (Leaves-cons c input _ (split_word-Leaves input buffer (pending ++ c ∷ []))))))

  double_quoted-Leaves :
      (input buffer pending : Chars) → Leaves input (handle_double_quoted buffer pending input)
  double_quoted-Leaves [] buffer pending = tt
  double_quoted-Leaves (c ∷ input) buffer pending =
      Leaves-if (c ∷ input) (c == double_quote) _ _
        (Leaves-cons c input _ (split_word-Leaves input (buffer ++ pending) []))
        (Leaves-if (c ∷ input) (c == backslash) _ _
          (Leaves-cons c input _ (escape-Leaves input buffer pending))
          (Leaves-cons c input _ (double_quoted-Leaves input buffer (pending ++ c ∷ []))))

  escape-Leaves :
      (input buffer pending : Chars)
      → Leaves input (handle_double_quoted_escape buffer pending input)
  escape-Leaves [] buffer pending = tt
  escape-Leaves (c ∷ input) buffer pending =
      Leaves-if (c ∷ input) (is_escapable c) _ _
        (Leaves-if (c ∷ input) (c == newline) _ _
          (Leaves-cons c input _ (double_quoted-Leaves input (buffer ++ pending) []))
          (Leaves-cons c input _ (double_quoted-Leaves input ((buffer ++ pending) ++ c ∷ []) [])))
        (Leaves-cons c input _ (double_quoted-Leaves input buffer (pending ++ backslash ∷ c ∷ [])))

  single_quoted-Leaves :
      (input buffer pending : Chars) → Leaves input (handle_single_quoted buffer pending input)
  single_quoted-Leaves [] buffer pending = tt
  single_quoted-Leaves (c ∷ input) buffer pending =
      Leaves-if (c ∷ input) (c == single_quote) _ _
        (Leaves-cons c input _ (split_word-Leaves input (buffer ++ pending) []))
        (Leaves-cons c input _ (single_quoted-Leaves input buffer (pending ++ c ∷ [])))

  escaped-Leaves : (input buffer : Chars) → Leaves input (handle_escaped buffer input)
  escaped-Leaves [] buffer = tt
  escaped-Leaves (c ∷ input) buffer =
      Leaves-if (c ∷ input) (c == newline) _ _
        (Leaves-cons c input _ (split_word-Leaves input buffer []))
        (Leaves-cons c input _ (split_word-Leaves input (buffer ++ c ∷ []) []))

-- The first word of an input takes at least one character of it.
split_word_shorter :
    (c : ℕ) (input : Chars) → is_spacing c ≡ false → Leaves input (split_word [] [] (c ∷ input))
unfolding split_word
split_word_shorter c input h = rw h (
    Leaves-if input (c == double_quote) _ _ (double_quoted-Leaves input [] []) (
      Leaves-if input (c == single_quote) _ _ (single_quoted-Leaves input [] []) (
        Leaves-if input (c == backslash) _ _ (escaped-Leaves input [])
          (split_word-Leaves input [] (c ∷ [])))))

abbrev Returns : Run (List Chars) → Type 0
Returns out_of_fuel = ⊥
Returns _ = Unit

bind_word :
    (fuel : ℕ) (words : List Chars) (input : Chars) (r : Run (Chars × Chars))
    → Leaves input r
    → NoBackslash input
    → length input < fuel
    → ((words : List Chars) (rest : Chars)
        → NoBackslash rest
        → length rest < fuel
        → Returns (split_loop fuel words rest))
    → Returns (r >>= λ (word, rest). split_loop fuel (words ++ word ∷ []) rest)
bind_word fuel words input (ok (word, rest)) l n h ih = ih _ rest (l.1 n) (omega (arith, l.0))
bind_word fuel words input (err e) l n h ih = tt
bind_word fuel words input out_of_fuel l n h ih = l

split_loop-Returns :
    (fuel : ℕ) (words : List Chars) (input : Chars)
    → NoBackslash input
    → length input < fuel
    → Returns (split_loop fuel words input)
unfolding split_loop
split_loop-Returns zero words input n h = absurd (omega arith)
split_loop-Returns (suc fuel) words [] n h = tt
split_loop-Returns (suc fuel) words (c ∷ input) n h = elim (Bool-cases (is_spacing c)) [
  | inl e ↦ rw e (split_loop-Returns fuel words input n.1 (omega arith))
  | inr e ↦ rw e (
      rw n.0 (
        bind_word fuel words input _ (split_word_shorter c input e) n.1 (omega arith)
          (λ ws rest n' h'. split_loop-Returns fuel ws rest n' h')))
]

-- A command with no backslash is split, or refused with an error, within as many rounds as it
-- has characters and one more.
pub split_returns :
    (command : Chars) (fuel : ℕ)
    → NoBackslash command
    → length command < fuel
    → split fuel command ≢ out_of_fuel
unfolding split
split_returns [] fuel n h = λ e. cc
split_returns (c ∷ command) fuel n h = λ e. rw e at (split_loop-Returns fuel [] (c ∷ command) n h)
