-- ===== src/Cpu/Pushed.antt =====
-- What the stack holds after pushes.
use ziemniak.Base.{
  ℕ, suc, ◌+◌, ◌-◌, ◌*◌, ◌^◌, ◌<◌, ◌≤◌, ◌≡◌, refl, ◌∙◌, arith, List, [], ◌∷◌, ◌++◌, length,
}
use ziemniak.Cpu.{Stack, stored, below, pushed, pushed_all, words}

-- The words from `base + 8 * i` upwards.
unfoldable pub Holds : (ℕ → ℕ) → (base i : ℕ) → List ℕ → Type 0
Holds mem base i [] = Unit
Holds mem base i (w ∷ ws) = (mem (base + 8 * i) ≡ w) × Holds mem base (suc i) ws

pub words-Holds :
    (mem : ℕ → ℕ) (base i : ℕ) (ws : List ℕ)
    → Holds mem base i ws
    → words mem base (length ws) i ≡ ws
unfolding Holds
words-Holds mem base i [] h = refl
words-Holds mem base i (w ∷ ws) h = rw (h.0, words-Holds mem base (suc i) ws h.1) refl

pub Holds_front :
    (mem : ℕ → ℕ) (base i : ℕ) (xs ys : List ℕ) → Holds mem base i (xs ++ ys) → Holds mem base i xs
unfolding Holds
Holds_front mem base i [] ys h = tt
Holds_front mem base i (x ∷ xs) ys h = (h.0, Holds_front mem base (suc i) xs ys h.1)

pub Holds_tail :
    (mem : ℕ → ℕ) (base i w : ℕ) (ws : List ℕ)
    → Holds mem base i (w ∷ ws)
    → Holds mem base (suc i) ws
unfolding Holds
Holds_tail mem base i w ws h = h.1

-- The words seen from the second of them on, and in another memory.
pub Holds_rest :
    (mem : ℕ → ℕ) (base i : ℕ) (ws : List ℕ) → Holds mem base (suc i) ws → Holds mem (base + 8) i ws
unfolding Holds
Holds_rest mem base i [] h = tt
Holds_rest mem base i (w ∷ ws) h =
    let place : base + 8 + 8 * i ≡ base + 8 * suc i = omega arith in
    (rw place h.0, Holds_rest mem base (suc i) ws h.1)

pub Holds_same :
    (mem mem' : ℕ → ℕ) (base i : ℕ) (ws : List ℕ)
    → ((a : ℕ) → base ≤ a → mem' a ≡ mem a)
    → Holds mem base i ws
    → Holds mem' base i ws
unfolding Holds
Holds_same mem mem' base i [] same h = tt
Holds_same mem mem' base i (w ∷ ws) same h =
    (same (base + 8 * i) (omega arith) ∙ h.0, Holds_same mem mem' base (suc i) ws same h.1)

-- The first list, turned around, in front of the second.
abbrev pub turned : List ℕ → List ℕ → List ℕ
turned [] ws = ws
turned (v ∷ vs) ws = turned vs (v ∷ ws)

-- The words of a stack from its pointer up to `base`, with room for `n` words more.
pub record IsStack (n base : ℕ) (s : Stack) (ws : List ℕ) : Type 0 where
  pub room : 8 * n ≤ s.rsp
  pub top : s.rsp < 2 ^ 64
  pub depth : s.rsp + 8 * length ws ≡ base
  pub words : Holds s.mem s.rsp 0 ws

pub IsStack-less :
    {n m base : ℕ} {s : Stack} {ws : List ℕ} → IsStack n base s ws → m ≤ n → IsStack m base s ws
IsStack-less is h = record {
  room = omega (arith, is.room);
  top = is.top;
  depth = is.depth;
  words = is.words;
}

pub below_lem : (rsp : ℕ) → 8 ≤ rsp → rsp < 2 ^ 64 → below rsp ≡ rsp - 8
below_lem rsp h top = omega arith

-- A word stored lower down, seen from the new pointer.
module _ (mem : ℕ → ℕ) (base low v : ℕ) (step : low + 8 ≡ base) where
  Holds-stored :
      (i : ℕ) (ws : List ℕ) → Holds mem base i ws → Holds (stored low v mem) low (suc i) ws
  unfolding Holds
  Holds-stored i [] h = tt
  Holds-stored i (w ∷ ws) h =
      let place : low + 8 * suc i ≡ base + 8 * i = omega (arith, step) in
      (rw place (ground (arith, h.0, step)), Holds-stored (suc i) ws h.1)

  Holds-pushed : (ws : List ℕ) → Holds mem base 0 ws → Holds (stored low v mem) low 0 (v ∷ ws)
  unfolding Holds
  Holds-pushed ws h = (ground arith, Holds-stored 0 ws h)

module _ {base : ℕ} where
  pub pushed-IsStack :
      (n : ℕ) (s : Stack) (v : ℕ) (ws : List ℕ)
      → IsStack (suc n) base s ws
      → IsStack n base (pushed v s) (v ∷ ws)
  unfolding pushed
  pushed-IsStack n s v ws is =
      let low = below_lem s.rsp (omega (arith, is.room)) is.top in
      record {
        room = rw low (omega (arith, is.room));
        top = rw low (omega (arith, is.top));
        depth = rw low (omega (arith, is.depth, is.room));
        words = Holds-pushed s.mem s.rsp (below s.rsp) v (omega (arith, low, is.room)) ws is.words;
      }

  pub pushed_all-IsStack :
      (n : ℕ) (vs : List ℕ) (s : Stack) (ws : List ℕ)
      → IsStack (length vs + n) base s ws
      → IsStack n base (pushed_all vs s) (turned vs ws)
  unfolding pushed_all
  pushed_all-IsStack n [] s ws is = IsStack-less is (omega arith)
  pushed_all-IsStack n (v ∷ vs) s ws is =
      pushed_all-IsStack n vs (pushed v s) (v ∷ ws)
        (pushed-IsStack (length vs + n) s v ws (IsStack-less is (omega arith)))

  -- Pushes leave what lies above.
  pub pushed_above :
      (n : ℕ) (s : Stack) (v : ℕ) {ws : List ℕ} (a : ℕ)
      → IsStack (suc n) base s ws
      → s.rsp ≤ a
      → (pushed v s).mem a ≡ s.mem a
  unfolding pushed
  pushed_above n s v a is above =
      let low = below_lem s.rsp (omega (arith, is.room)) is.top in rw low (ground (arith, is.room))

  pub pushed_all_above :
      (n : ℕ) (vs : List ℕ) (s : Stack) (ws : List ℕ) (a : ℕ)
      → IsStack (length vs + n) base s ws
      → s.rsp ≤ a
      → (pushed_all vs s).mem a ≡ s.mem a
  unfolding pushed_all
  pushed_all_above n [] s ws a is above = refl
  pushed_all_above n (v ∷ vs) s ws a is above =
      let more : IsStack (suc (length vs + n)) base s ws = IsStack-less is (omega arith) in
      let next = pushed-IsStack (length vs + n) s v ws more in
      pushed_all_above n vs (pushed v s) (v ∷ ws) a next (omega (arith, next.depth, is.depth))
      ∙ pushed_above (length vs + n) s v a more above
