-- ===== src/Command/Render.antt =====
-- internal/command/split.go read backwards: words written in the three ways that it understands,
-- bare, in single quotes and in double quotes.
use mathlib.Core.List.{append_assoc, append-nil}
use gluetun.Prelude.{
  ℕ, zero, suc, ◌<◌, ◌≡◌, refl, ◌∙◌, inl, inr, Bool, false, true, ◌||◌, List, [], ◌∷◌, ◌++◌, map,
  ◌==◌, if◌then◌else◌, length, All, arith, Bool-cases,
}
use gluetun.Command.{
  Chars, ok, space, newline, single_quote, double_quote, backslash, is_spacing, is_escapable,
  split_word, handle_double_quoted, handle_single_quoted, split_loop, split,
}

pub data Style : Type 0 where
  bare single double : Style

-- A quote inside single quotes closes them, is written as an escape, and opens them again.
pub single_body : Chars → Chars
single_body [] = []
single_body (c ∷ word) =
    if c == single_quote
    then single_quote ∷ backslash ∷ single_quote ∷ single_quote ∷ single_body word
    else c ∷ single_body word

-- Between double quotes the characters $ ` " \ are written with a backslash.
abbrev pub is_escaped : ℕ → Bool
is_escaped c = c == 36 || c == 96 || c == double_quote || c == backslash

pub double_body : Chars → Chars
double_body [] = []
double_body (c ∷ word) =
    if is_escaped c then backslash ∷ c ∷ double_body word else c ∷ double_body word

pub render : Style × Chars → Chars
unfolding single_body double_body
render (bare, word) = word
render (single, word) = single_quote ∷ (single_body word ++ single_quote ∷ [])
render (double, word) = double_quote ∷ (double_body word ++ double_quote ∷ [])

-- The rendered words with one space between two.
pub render_line : List (Style × Chars) → Chars
unfolding render
render_line [] = []
render_line (p ∷ []) = render p
render_line (p ∷ q ∷ ps) = render p ++ (space ∷ render_line (q ∷ ps))

abbrev pub is_special : ℕ → Bool
is_special c = is_spacing c || c == double_quote || c == single_quote || c == backslash

-- A bare word is not empty and has no special character; any word may be quoted.
abbrev pub IsRenderable : Style × Chars → Type 0
IsRenderable (bare, []) = ⊥
IsRenderable (bare, c ∷ word) = All (λ d. is_special d ≡ false) (c ∷ word)
IsRenderable (single, word) = Unit
IsRenderable (double, word) = Unit

-- What follows a word: the end of the input, or a space and `rest`.
abbrev Ends : Chars → Chars → Type 0
Ends [] rest = rest ≡ []
Ends (c ∷ tail) rest = (c ≡ space) × (tail ≡ rest)

split_word-end :
    (buffer pending tail rest : Chars)
    → Ends tail rest
    → split_word buffer pending tail ≡ ok (buffer ++ pending, rest)
unfolding split_word
split_word-end buffer pending [] rest e = ground arith
split_word-end buffer pending (c ∷ tail) rest e = ground arith

-- Inside single quotes.
single_quoted-body :
    (word buffer pending tail : Chars)
    → handle_single_quoted buffer pending (single_body word ++ (single_quote ∷ tail))
      ≡ split_word (buffer ++ (pending ++ word)) [] tail
unfolding split_word single_body
single_quoted-body [] buffer pending tail = simp append-nil
single_quoted-body (c ∷ word) buffer pending tail = elim (Bool-cases (c == single_quote)) [
  | inl e ↦
      let same : c ≡ single_quote = ground arith in
      rw (e, same)
        (simp (append_assoc, append-nil)
          (rw (single_quoted-body word (buffer ++ (pending ++ single_quote ∷ [])) [] tail)
            (simp append_assoc)))
  | inr e ↦ simp (e, single_quoted-body word buffer (pending ++ c ∷ []) tail, append_assoc)
]

is_escaped-escapable :
    (c : ℕ) → is_escaped c ≡ true → (is_escapable c ≡ true) × ((c == newline) ≡ false)
is_escaped-escapable c e = ground arith

not_escaped :
    (c : ℕ) → is_escaped c ≡ false → ((c == double_quote) ≡ false) × ((c == backslash) ≡ false)
not_escaped c e = ground arith

-- Between double quotes.
double_quoted-body :
    (word buffer pending tail : Chars)
    → handle_double_quoted buffer pending (double_body word ++ (double_quote ∷ tail))
      ≡ split_word (buffer ++ (pending ++ word)) [] tail
unfolding split_word double_body
double_quoted-body [] buffer pending tail = simp append-nil
double_quoted-body (c ∷ word) buffer pending tail = elim (Bool-cases (is_escaped c)) [
  | inl e ↦
      let (escapable, other) = is_escaped-escapable c e in
      rw e (
        rw escapable (
          simp (other, append_assoc)
            (rw (double_quoted-body word (buffer ++ (pending ++ c ∷ [])) [] tail)
              (simp append_assoc))))
  | inr e ↦
      let (unquoted, unescaped) = not_escaped c e in
      rw e (
        simp (unquoted, unescaped)
          (rw (double_quoted-body word buffer (pending ++ c ∷ []) tail) (simp append_assoc)))
]

special_parts :
    (c : ℕ)
    → is_special c ≡ false
    → (is_spacing c ≡ false)
      × ((c == double_quote) ≡ false)
      × ((c == single_quote) ≡ false)
      × ((c == backslash) ≡ false)
special_parts c e = ground arith

bare-body :
    (word buffer pending tail rest : Chars)
    → All (λ d. is_special d ≡ false) word
    → Ends tail rest
    → split_word buffer pending (word ++ tail) ≡ ok (buffer ++ (pending ++ word), rest)
unfolding split_word
bare-body [] buffer pending tail rest plain e =
    rw (append-nil pending) (split_word-end buffer pending tail rest e)
bare-body (c ∷ word) buffer pending tail rest plain e =
    let (a, b, d, f) = special_parts c plain.0 in
    simp (a, b, d, f)
      (rw (bare-body word buffer (pending ++ c ∷ []) tail rest plain.1 e) (simp append_assoc))

-- A rendered word is read back whole.
split_word-render :
    (p : Style × Chars) (tail rest : Chars)
    → IsRenderable p
    → Ends tail rest
    → split_word [] [] (render p ++ tail) ≡ ok (p.1, rest)
unfolding split_word render
split_word-render (bare, c ∷ word) tail rest r e = bare-body (c ∷ word) [] [] tail rest r e
split_word-render (bare, []) tail rest r e = absurd r
split_word-render (single, word) tail rest r e = simp append_assoc (
    rw (single_quoted-body word [] [] tail)
      (rw (split_word-end word [] tail rest e) (simp append-nil)))
split_word-render (double, word) tail rest r e = simp append_assoc (
    rw (double_quoted-body word [] [] tail)
      (rw (split_word-end word [] tail rest e) (simp append-nil)))

pub render-starts :
    (p : Style × Chars)
    → IsRenderable p
    → (c : ℕ) × (more : Chars) × (render p ≡ c ∷ more)
      × (is_spacing c ≡ false)
      × ((c == backslash) ≡ false)
unfolding render
render-starts (bare, c ∷ word) r = let (a, b, d, f) = special_parts c r.0 in (c, word, refl, a, f)
render-starts (bare, []) r = absurd r
render-starts (single, word) r = (single_quote, _, refl, refl, refl)
render-starts (double, word) r = (double_quote, _, refl, refl, refl)

-- One round of the loop reads one rendered word.
pub split_loop-render :
    (p : Style × Chars) (fuel : ℕ) (words : List Chars) (tail rest : Chars)
    → IsRenderable p
    → Ends tail rest
    → split_loop (suc fuel) words (render p ++ tail) ≡ split_loop fuel (words ++ p.1 ∷ []) rest
unfolding split_loop
split_loop-render p fuel words tail rest r e =
    let (c, more, starts, spacing, plain) = render-starts p r in
    let word : split_word [] [] (c ∷ more ++ tail) ≡ ok (p.1, rest) =
      rw starts at (split_word-render p tail rest r e) in
    rw starts (rw spacing (rw plain (rw word refl)))

split_loop-render_line :
    (ps : List (Style × Chars)) (fuel : ℕ) (words : List Chars)
    → All IsRenderable ps
    → length ps < fuel
    → split_loop fuel words (render_line ps) ≡ ok (words ++ map (λ p. p.1) ps)
unfolding split_loop render_line
split_loop-render_line ps zero words r h = absurd (omega arith)
split_loop-render_line [] (suc fuel) words r h = simp append-nil
split_loop-render_line (p ∷ []) (suc zero) words r h = absurd (omega arith)
split_loop-render_line (p ∷ []) (suc (suc fuel)) words r h =
    rw (append-nil (render p)) at (split_loop-render p (suc fuel) words [] [] r.0 refl)
split_loop-render_line (p ∷ q ∷ ps) (suc fuel) words r h =
    split_loop-render p fuel words (space ∷ render_line (q ∷ ps)) _ r.0 (refl, refl)
    ∙ split_loop-render_line (q ∷ ps) fuel (words ++ p.1 ∷ []) r.1 (omega arith)
    ∙ simp append_assoc

pub split-split_loop :
    (fuel c : ℕ) (input more : Chars)
    → input ≡ c ∷ more
    → split fuel input ≡ split_loop fuel [] input
unfolding split
split-split_loop fuel c input more e = rw e refl

render_line-ne_nil :
    (p : Style × Chars) (ps : List (Style × Chars))
    → IsRenderable p
    → (c : ℕ) × (more : Chars) × (render_line (p ∷ ps) ≡ c ∷ more)
unfolding render_line
render_line-ne_nil p [] r = let (c, more, starts, _, _) = render-starts p r in (c, more, starts)
render_line-ne_nil p (q ∷ ps) r =
    let (c, more, starts, _, _) = render-starts p r in
    (c, more ++ (space ∷ render_line (q ∷ ps)), rw starts refl)

-- Any words, written bare where they have no special character or quoted in either way and
-- joined by spaces, are split back into exactly those words.
pub split-render_line :
    (p : Style × Chars) (ps : List (Style × Chars)) (fuel : ℕ)
    → All IsRenderable (p ∷ ps)
    → length (p ∷ ps) < fuel
    → split fuel (render_line (p ∷ ps)) ≡ ok (map (λ w. w.1) (p ∷ ps))
split-render_line p ps fuel r h =
    let (c, more, e) = render_line-ne_nil p ps r.0 in
    split-split_loop fuel c _ more e ∙ split_loop-render_line (p ∷ ps) fuel [] r h
