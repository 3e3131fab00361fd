-- ===== src/Command.antt =====
-- internal/command/split.go: the splitting of a command line into words.
-- A command is the list of its code points, so that an index into it is a suffix of the list.
pub mod Render
pub mod Progress
pub mod Escapes
mod Tests
use gluetun.Prelude.{ℕ, zero, suc, ◌≡◌, Bool, ◌||◌, List, [], ◌∷◌, ◌++◌, ◌==◌, if◌then◌else◌}

abbrev pub Chars : Type 0
Chars = List ℕ

pub data Error : Type 0 where
  command_empty : Error
  single_quote_unterminated : Error
  double_quote_unterminated : Error
  escape_unterminated : Error

-- `out_of_fuel` stands for a loop that has not ended within the rounds given.
pub data Run (A : Type 0) : Type 0 where
  ok : A → Run A
  err : Error → Run A
  out_of_fuel : Run A

infixl 5 ◌>>=◌
abbrev pub ◌>>=◌ : {A B : Type 0} → Run A → (A → Run B) → Run B
ok a >>= f = f a
err e >>= f = err e
out_of_fuel >>= f = out_of_fuel

abbrev pub newline : ℕ
newline = 10

abbrev pub space : ℕ
space = 32

abbrev pub double_quote : ℕ
double_quote = 34

abbrev pub single_quote : ℕ
single_quote = 39

abbrev pub backslash : ℕ
backslash = 92

-- strings.ContainsRune(" \n\t", character)
abbrev pub is_spacing : ℕ → Bool
is_spacing c = c == space || c == newline || c == 9

-- strings.ContainsRune("$`\"\n\\", escapedCharacter)
abbrev pub is_escapable : ℕ → Bool
is_escapable c = c == 36 || c == 96 || c == double_quote || c == newline || c == backslash

-- `pending` is input[startIndex:cursor], which is not yet in the buffer. A call returns the word
-- and what is left of the input.
mutual
  pub split_word : Chars → Chars → Chars → Run (Chars × Chars)
  split_word buffer pending [] = ok (buffer ++ pending, [])
  split_word buffer pending (c ∷ input) =
      let double_quoted = handle_double_quoted (buffer ++ pending) [] input in
      let single_quoted = handle_single_quoted (buffer ++ pending) [] input in
      let escaped = handle_escaped (buffer ++ pending) input in
      let next = split_word buffer (pending ++ c ∷ []) input in
      if is_spacing c
      then ok (buffer ++ pending, input)
      else if c == double_quote
      then double_quoted
      else if c == single_quote
      then single_quoted
      else if c == backslash
      then escaped
      else next

  pub handle_double_quoted : Chars → Chars → Chars → Run (Chars × Chars)
  handle_double_quoted buffer pending [] = err double_quote_unterminated
  handle_double_quoted buffer pending (c ∷ input) =
      let closed = split_word (buffer ++ pending) [] input in
      let escape = handle_double_quoted_escape buffer pending input in
      let next = handle_double_quoted buffer (pending ++ c ∷ []) input in
      if c == double_quote then closed else if c == backslash then escape else next

  -- `case '\\'` of handleDoubleQuoted, with the backslash read. At the end of the input
  -- DecodeRuneInString reads nothing, and the loop ends.
  pub handle_double_quoted_escape : Chars → Chars → Chars → Run (Chars × Chars)
  handle_double_quoted_escape buffer pending [] = err double_quote_unterminated
  handle_double_quoted_escape buffer pending (c ∷ input) =
      let kept = handle_double_quoted buffer (pending ++ backslash ∷ c ∷ []) input in
      let joined = handle_double_quoted (buffer ++ pending) [] input in
      let unescaped = handle_double_quoted ((buffer ++ pending) ++ c ∷ []) [] input in
      if is_escapable c then (if c == newline then joined else unescaped) else kept

  -- strings.IndexRune(input[startIndex:], '\'') and what follows it
  pub handle_single_quoted : Chars → Chars → Chars → Run (Chars × Chars)
  handle_single_quoted buffer pending [] = err single_quote_unterminated
  handle_single_quoted buffer pending (c ∷ input) =
      let closed = split_word (buffer ++ pending) [] input in
      let next = handle_single_quoted buffer (pending ++ c ∷ []) input in
      if c == single_quote then closed else next

  pub handle_escaped : Chars → Chars → Run (Chars × Chars)
  handle_escaped buffer [] = err escape_unterminated
  handle_escaped buffer (c ∷ input) =
      let joined = split_word buffer [] input in
      let next = split_word (buffer ++ c ∷ []) [] input in if c == newline then joined else next

-- The loop of split, by the rounds left.
pub split_loop : ℕ → List Chars → Chars → Run (List Chars)
split_loop zero words input = out_of_fuel
split_loop (suc fuel) words [] = ok words
split_loop (suc fuel) words (c ∷ input) =
    let skipped = split_loop fuel words input in
    let unchanged = split_loop fuel words (c ∷ input) in
    let escaped : Run (List Chars) = elim input [
      | [] ↦ err escape_unterminated
      | next ∷ rest ↦ if next == newline then split_loop fuel words rest else unchanged
    ] in
    let word =
      split_word [] [] (c ∷ input) >>= λ (word, rest). split_loop fuel (words ++ word ∷ []) rest in
    if is_spacing c then skipped else if c == backslash then escaped else word

pub split : ℕ → Chars → Run (List Chars)
unfolding split_loop
split fuel [] = err command_empty
split fuel (c ∷ command) = split_loop fuel [] (c ∷ command)
