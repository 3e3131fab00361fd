-- ===== src/Firewall/Rules.antt =====
-- Rules to prove a property of what a method returns, one for each construct of the methods.
use mathlib.Core.Path.{fun_ext}
use gluetun.Prelude.{◌≡◌, refl, Bool, true, false, Option, none, some, if◌then◌else◌}
use gluetun.Firewall.{
  FirewallImpl, State, Result, ok, err, panic, M, ◌>>=◌, ◌>>◌, Call, impl_call, outcome,
}

-- A property of a result and of the state with it.
abbrev pub Post : Type 0 → Type 0 → Type 0 → Type 1
Post W E A = Result E A × State W → Type 0

module _ {W E : Type 0} where
  pub if_rule :
      {A : Type 0} (P : Post W E A) (b : Bool) (m k : M W E A) (s : State W)
      → (b ≡ true → P (m s))
      → (b ≡ false → P (k s))
      → P ((if b then m else k) s)
  if_rule P true m k s yes_case no_case = yes_case refl
  if_rule P false m k s yes_case no_case = no_case refl

  call_result :
      {A : Type 0} (P : Post W E A) (w : W) (o : Option E) (f : Unit {0} → M W E A) (s : State W)
      → (o ≡ none → P (f tt (record s { world = w })))
      → ((e : E) → o ≡ some e → P (err e, record s { world = w }))
      → P (◌>>=◌ (λ (t : State W). outcome (w, o) t.config) f s)
  call_result P w none f s succeeds fails = succeeds refl
  call_result P w (some e) f s succeeds fails = fails e refl

  -- A call of the implementation, and what the method does after it.
  pub call_rule :
      {A : Type 0} (P : Post W E A) (impl : FirewallImpl W E) (c : Call) (f : Unit {0} → M W E A)
      (s : State W)
      → ((impl.call c s.world).1 ≡ none → P (f tt (record s { world = (impl.call c s.world).0 })))
      → ((e : E)
          → (impl.call c s.world).1 ≡ some e
          → P (err e, record s { world = (impl.call c s.world).0 }))
      → P ((impl_call impl c >>= f) s)
  unfolding impl_call
  call_rule P impl c f s succeeds fails =
      call_result P (impl.call c s.world).0 (impl.call c s.world).1 f s succeeds fails

  bind_result :
      {A B : Type 0} (P : Post W E B) (r : Result E A) (t : State W) (f : A → M W E B)
      → ((a : A) → r ≡ ok a → P (f a t))
      → ((e : E) → r ≡ err e → P (err e, t))
      → (r ≡ panic → P (panic, t))
      → P (◌>>=◌ (λ (s : State W). (r, t)) f t)
  bind_result P (ok a) t f returns fails crashes = returns a refl
  bind_result P (err e) t f returns fails crashes = fails e refl
  bind_result P panic t f returns fails crashes = crashes refl

  -- A method called by another one, and what follows it.
  pub bind_rule :
      {A B : Type 0} (P : Post W E B) (m : M W E A) (f : A → M W E B) (s : State W)
      → ((a : A) → (m s).0 ≡ ok a → P (f a (m s).1))
      → ((e : E) → (m s).0 ≡ err e → P (err e, (m s).1))
      → ((m s).0 ≡ panic → P (panic, (m s).1))
      → P ((m >>= f) s)
  bind_rule P m f s returns fails crashes = bind_result P (m s).0 (m s).1 f returns fails crashes

  assoc_at :
      (r : Result E (Unit {0})) (t : State W) (k l : M W E (Unit {0}))
      → (◌>>◌ (◌>>◌ (λ (s : State W). (r, t)) k) l) t ≡ (◌>>◌ (λ (s : State W). (r, t)) (k >> l)) t
  assoc_at (ok a) t k l = refl
  assoc_at (err e) t k l = refl
  assoc_at panic t k l = refl

  pub >>-assoc : (m k l : M W E (Unit {0})) → ((m >> k) >> l) ≡ (m >> (k >> l))
  >>-assoc m k l = fun_ext λ s. assoc_at (m s).0 (m s).1 k l
