-- ===== src/Base/Command.antt =====
-- Commands over a state that may not return: `none` says that the fuel of a loop ran out.
use mathlib.Core.Path.{◌≡◌, refl, subst}
use mathlib.Core.Option.{Option, none, some}

abbrev pub Cmd : Type 0 → Type 0 → Type 0
Cmd S A = S → Option (A × S)

abbrev pub pure : {S A : Type 0} → A → Cmd S A
pure a s = some (a, s)

module _ {S A B : Type 0} where
  infixl 5 ◌>>=◌ ◌>>◌
  abbrev pub and_then : Option (A × S) → (A → Cmd S B) → Option (B × S)
  and_then none k = none
  and_then (some (a, s)) k = k a s

  abbrev pub ◌>>=◌ : Cmd S A → (A → Cmd S B) → Cmd S B
  m >>= k = λ s. and_then (m s) k

  abbrev pub ◌>>◌ : Cmd S A → Cmd S B → Cmd S B
  m >> k = m >>= λ _. k

-- A run that returns, with a postcondition on its result and its last state.
pub data Returns {S A : Type 0} (P : A → S → Type 0) : Option (A × S) → Type 0 where
  returns : {a : A} {s : S} → P a s → Returns P (some (a, s))

module _ {S A : Type 0} {P : A → S → Type 0} where
  pub Returns-bind :
      {B : Type 0} {Q : B → S → Type 0} {m : Option (A × S)} {k : A → Cmd S B}
      → Returns P m
      → ((a : A) (s : S) → P a s → Returns Q (k a s))
      → Returns Q (and_then m k)
  Returns-bind (returns p) next = next _ _ p

  pub Returns-mono :
      {Q : A → S → Type 0} {m : Option (A × S)}
      → Returns P m
      → ((a : A) (s : S) → P a s → Q a s)
      → Returns Q m
  Returns-mono (returns p) weaken = returns (weaken _ _ p)

  pub Returns-eq :
      {m : Option (A × S)} → Returns P m → (a : A) × (s : S) × (m ≡ some (a, s)) × P a s
  Returns-eq (returns p) = (_, _, refl, p)

-- A run of which the postcondition holds if it returns.
pub data Partly {S A : Type 0} (P : A → S → Type 0) : Option (A × S) → Type 0 where
  stuck : Partly P none
  done : {a : A} {s : S} → P a s → Partly P (some (a, s))

module _ {S A : Type 0} {P : A → S → Type 0} where
  pub Partly-bind :
      {B : Type 0} {Q : B → S → Type 0} {m : Option (A × S)} {k : A → Cmd S B}
      → Partly P m
      → ((a : A) (s : S) → P a s → Partly Q (k a s))
      → Partly Q (and_then m k)
  Partly-bind stuck next = stuck
  Partly-bind (done p) next = next _ _ p

  pub Partly-mono :
      {Q : A → S → Type 0} {m : Option (A × S)}
      → Partly P m
      → ((a : A) (s : S) → P a s → Q a s)
      → Partly Q m
  Partly-mono stuck weaken = stuck
  Partly-mono (done p) weaken = done (weaken _ _ p)

  pub Partly-none :
      {B : Type 0} {m : Option (A × S)} {k : A → Cmd S B}
      → Partly P m
      → ((a : A) (s : S) → P a s → k a s ≡ none)
      → and_then m k ≡ none
  Partly-none stuck next = refl
  Partly-none (done p) next = next _ _ p

  pub Partly-eq : {m : Option (A × S)} {a : A} {s : S} → Partly P m → m ≡ some (a, s) → P a s
  Partly-eq {m} {a} {s} partly run = returned (subst (Partly P) run partly)
    where
      returned : Partly P (some (a, s)) → P a s
      returned (done p) = p
