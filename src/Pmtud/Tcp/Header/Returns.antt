-- ===== src/Pmtud/Tcp/Header/Returns.antt =====
-- internal/pmtud/tcp/tcpheader.go: the loop of parseTCPOptions ends.
use gluetun.Prelude.{
  ℕ, zero, suc, ◌-◌, ◌≤◌, ◌<◌, ◌≢◌, ◌==◌, ltb, ◌||◌, Bool, true, false, [], ◌∷◌, length, take, drop,
  if◌then◌else◌, arith,
}
use gluetun.Bytes.{Bytes}
use gluetun.Pmtud.Tcp.Header.{
  Parsed, parsed, refused, out_of_fuel, Options, read_option, options_loop, parse_tcp_options,
  mss_option, window_scale_option, timestamps_option, no_options,
}

if_ends :
    {A : Type 0} (b : Bool) (x y : Parsed A)
    → x ≢ out_of_fuel
    → y ≢ out_of_fuel
    → (if b then x else y) ≢ out_of_fuel
if_ends true x y p q = p
if_ends false x y p q = q

length-drop : (n : ℕ) (b : Bytes) → length (drop n b) ≤ length b
length-drop zero b = omega arith
length-drop (suc n) [] = omega arith
length-drop (suc n) (x ∷ b) = omega (arith, length-drop n b)

continue_ends :
    (r : Parsed Options) (k : Options → Parsed Options)
    → ((o : Options) → k o ≢ out_of_fuel)
    → r ≢ out_of_fuel
    → (elim r as (λ _. Parsed Options) [
      | parsed o ↦ k o
      | refused e ↦ refused e
      | out_of_fuel ↦ out_of_fuel
    ])
      ≢ out_of_fuel
continue_ends (parsed o) k h n = h o
continue_ends (refused e) k h n = λ p. ground (arith, p)
continue_ends out_of_fuel k h n = n

mss_option-ends : (b : Bytes) (o : Options) → mss_option b o ≢ out_of_fuel
unfolding mss_option
mss_option-ends [] o = λ p. ground (arith, p)
mss_option-ends (a ∷ []) o = λ p. ground (arith, p)
mss_option-ends (a ∷ b ∷ []) o = λ p. ground (arith, p)
mss_option-ends (a ∷ b ∷ c ∷ r) o = λ p. ground (arith, p)

window_scale_option-ends : (b : Bytes) (o : Options) → window_scale_option b o ≢ out_of_fuel
unfolding window_scale_option
window_scale_option-ends [] o = λ p. ground (arith, p)
window_scale_option-ends (a ∷ []) o = λ p. ground (arith, p)
window_scale_option-ends (a ∷ b ∷ r) o = λ p. ground (arith, p)

timestamps_option-ends : (b : Bytes) (o : Options) → timestamps_option b o ≢ out_of_fuel
unfolding timestamps_option
timestamps_option-ends [] o = λ p. ground (arith, p)
timestamps_option-ends (a ∷ []) o = λ p. ground (arith, p)
timestamps_option-ends (a ∷ b ∷ []) o = λ p. ground (arith, p)
timestamps_option-ends (a ∷ b ∷ c ∷ []) o = λ p. ground (arith, p)
timestamps_option-ends (a ∷ b ∷ c ∷ d ∷ []) o = λ p. ground (arith, p)
timestamps_option-ends (a ∷ b ∷ c ∷ d ∷ e ∷ []) o = λ p. ground (arith, p)
timestamps_option-ends (a ∷ b ∷ c ∷ d ∷ e ∷ f ∷ []) o = λ p. ground (arith, p)
timestamps_option-ends (a ∷ b ∷ c ∷ d ∷ e ∷ f ∷ g ∷ []) o = λ p. ground (arith, p)
timestamps_option-ends (a ∷ b ∷ c ∷ d ∷ e ∷ f ∷ g ∷ h ∷ []) o = λ p. ground (arith, p)
timestamps_option-ends (a ∷ b ∷ c ∷ d ∷ e ∷ f ∷ g ∷ h ∷ i ∷ r) o = λ p. ground (arith, p)

read_option-ends : (t : ℕ) (b : Bytes) (o : Options) → read_option t b o ≢ out_of_fuel
unfolding read_option
read_option-ends t b o = if_ends (t == 2) _ _ (mss_option-ends b o) (
    if_ends (t == 3) _ _ (window_scale_option-ends b o) (
      if_ends (t == 4) _ _ (λ p. ground (arith, p))
        (if_ends (t == 8) _ _ (timestamps_option-ends b o) (λ p. ground (arith, p)))))

pub options_loop-ends :
    (fuel : ℕ) (b : Bytes) (o : Options) → length b < fuel → options_loop fuel b o ≢ out_of_fuel
unfolding options_loop
options_loop-ends zero b o h = absurd (omega arith)
options_loop-ends (suc fuel) [] o h = λ p. ground (arith, p)
options_loop-ends (suc fuel) (t ∷ []) o h =
    if_ends (t == 0) _ _ (λ p. ground (arith, p))
      (if_ends (t == 1) _ _ (options_loop-ends fuel [] o (omega arith)) (λ p. ground (arith, p)))
options_loop-ends (suc fuel) (t ∷ l ∷ rest) o h =
    if_ends (t == 0) _ _ (λ p. ground (arith, p))
      (if_ends (t == 1) _ _ (options_loop-ends fuel (l ∷ rest) o (omega (arith, h))) (
        if_ends (ltb l 2 || ltb (suc (suc (length rest))) l) _ _ (λ p. ground (arith, p))
          (continue_ends (read_option t (take (l - 2) rest) o)
            (λ o'. options_loop fuel (drop (l - 2) rest) o')
            (λ o'.
              options_loop-ends fuel (drop (l - 2) rest) o'
                (omega (arith, h, length-drop (l - 2) rest)))
            (read_option-ends t (take (l - 2) rest) o))))

-- Any bytes of options, also malformed ones, are parsed or refused with an error, within one round
-- more than there are bytes.
pub parse_tcp_options_returns : (b : Bytes) → parse_tcp_options b ≢ out_of_fuel
unfolding parse_tcp_options
parse_tcp_options_returns b = options_loop-ends (suc (length b)) b no_options (omega arith)
