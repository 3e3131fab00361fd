-- ===== src/Command/Escapes.antt =====
-- internal/command/split.go, `case character == '\\'` of split: a word that begins with an escape.
use gluetun.Prelude.{
  ℕ, zero, suc, ◌≡◌, ◌≢◌, refl, ◌∙◌, false, List, [], ◌∷◌, ◌++◌, ◌==◌, All, arith,
}
use gluetun.Command.{Chars, out_of_fuel, space, newline, backslash, split_loop, split}
use gluetun.Command.Render.{
  Style, render, IsRenderable, split_loop-render, split-split_loop, render-starts,
}

-- Rendered words, a space after each.
pub render_prefix : List (Style × Chars) → Chars → Chars
render_prefix [] tail = tail
render_prefix (p ∷ ps) tail = render p ++ (space ∷ render_prefix ps tail)

ne_newline : (c : ℕ) → c ≢ newline → (c == newline) ≡ false
ne_newline c h = ground arith

split_loop-escape :
    (fuel c : ℕ) (words : List Chars) (input : Chars)
    → c ≢ newline
    → split_loop fuel words (backslash ∷ c ∷ input) ≡ out_of_fuel
unfolding split_loop
split_loop-escape zero c words input h = refl
split_loop-escape (suc fuel) c words input h =
    rw (ne_newline c h) (split_loop-escape fuel c words input h)

split_loop-prefix :
    (ps : List (Style × Chars)) (fuel c : ℕ) (words : List Chars) (input : Chars)
    → All IsRenderable ps
    → c ≢ newline
    → split_loop fuel words (render_prefix ps (backslash ∷ c ∷ input)) ≡ out_of_fuel
unfolding render_prefix split_loop
split_loop-prefix ps zero c words input r h = refl
split_loop-prefix [] (suc fuel) c words input r h = split_loop-escape (suc fuel) c words input h
split_loop-prefix (p ∷ ps) (suc fuel) c words input r h =
    split_loop-render p fuel words (space ∷ render_prefix ps (backslash ∷ c ∷ input)) _ r.0
      (refl, refl)
    ∙ split_loop-prefix ps fuel c _ input r.1 h

prefix-ne_nil :
    (ps : List (Style × Chars)) (c : ℕ) (input : Chars)
    → All IsRenderable ps
    → (d : ℕ) × (more : Chars) × (render_prefix ps (backslash ∷ c ∷ input) ≡ d ∷ more)
unfolding render_prefix
prefix-ne_nil [] c input r = (backslash, c ∷ input, refl)
prefix-ne_nil (p ∷ ps) c input r =
    let (d, more, starts, _, _) = render-starts p r.0 in
    (d, more ++ (space ∷ render_prefix ps (backslash ∷ c ∷ input)), rw starts refl)

-- A command with a word, after any well-formed words, that begins with a backslash before a
-- character other than a newline is never split: no number of rounds ends the loop.
pub split_diverges :
    (ps : List (Style × Chars)) (c : ℕ) (input : Chars)
    → All IsRenderable ps
    → c ≢ newline
    → (fuel : ℕ) → split fuel (render_prefix ps (backslash ∷ c ∷ input)) ≡ out_of_fuel
split_diverges ps c input r h fuel =
    let (d, more, e) = prefix-ne_nil ps c input r in
    split-split_loop fuel d _ more e ∙ split_loop-prefix ps fuel c [] input r h
