-- ===== src/Command/Tests.antt =====
-- internal/command/split_test.go: its cases, evaluated.
use Prim.Native.Char.{code}
use Prim.Native.String.{String}
use gluetun.Prelude.{◌≡◌, refl, List, [], ◌∷◌, map, arith, All}
use gluetun.Command.{
  Chars, ok, err, split, split_word, single_quote_unterminated, escape_unterminated, out_of_fuel,
}
use gluetun.Command.Render.{
  Style, bare, single, double, render_line, IsRenderable, split-render_line,
}
use gluetun.Command.Escapes.{render_prefix, split_diverges}

abbrev codes : String → Chars
codes String.[] = []
codes (String.◌∷◌ c s) = code c ∷ codes s

split_sh :
    split 40 (codes "/bin/sh -c \"echo 123\"") ≡ ok (map codes ("/bin/sh" ∷ "-c" ∷ "echo 123" ∷ []))
unfolding split split_word
split_sh = refl

split_escaped_quote : split 40 (codes "'ain'\\''t good'") ≡ ok (map codes ("ain't good" ∷ []))
unfolding split split_word
split_escaped_quote = refl

split_empty_quoted :
    split 40 (codes "word1 ''  word2") ≡ ok (map codes ("word1" ∷ "" ∷ "word2" ∷ []))
unfolding split split_word
split_empty_quoted = refl

split_quoted_newline :
    split 60 (codes "\"word1\\d\\\\\\\" word2\\\nword3 word4\"")
    ≡ ok (map codes ("word1\\d\\\" word2word3 word4" ∷ []))
unfolding split split_word
split_quoted_newline = refl

split_escaped_newline :
    split 40 (codes "word1 \\\n word2") ≡ ok (map codes ("word1" ∷ "word2" ∷ []))
unfolding split split_word
split_escaped_newline = refl

split_unterminated : split 40 (codes "'abc'\\''def") ≡ err single_quote_unterminated
unfolding split split_word
split_unterminated = refl

split_escape_only : split 40 (codes "   \\") ≡ err escape_unterminated
unfolding split split_word
split_escape_only = refl

abbrev words : List (Style × Chars)
words = (single, codes "it's") ∷ (bare, codes "a") ∷ []

words-All : All IsRenderable ((double, codes "say \"hi\"") ∷ words)
words-All = (tt, (tt, ((refl, tt), tt)))

split-render_line_example :
    split 4 (render_line ((double, codes "say \"hi\"") ∷ words))
    ≡ ok (map (λ w. w.1) ((double, codes "say \"hi\"") ∷ words))
split-render_line_example =
    split-render_line (double, codes "say \"hi\"") words 4 words-All (omega arith)

split_diverges_example : split 1000 (render_prefix words (92 ∷ codes "n b")) ≡ out_of_fuel
split_diverges_example = split_diverges words 110 (codes " b") words-All.1 (omega arith) 1000
