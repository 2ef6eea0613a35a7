-- ===== src/Kernel/Memory/Init/Listed.antt =====
-- The walk of `mm_init` measured against the memory map: what becomes of an entry, and what the
-- totals count.
use ziemniak.Base.{
  ℕ, ◌+◌, ◌-◌, ◌*◌, ◌/◌, ◌%◌, ◌^◌, ◌<◌, ◌≤◌, ◌≡◌, ◌≢◌, ◌⊎◌, inl, inr, refl, ◌∙◌, arith, true, false,
  List, [], ◌∷◌, length, map, u64, sub64, ltb, Bool-cases, if◌then◌else◌, ==_refl, ne→==,
}
use ziemniak.Pages.{page_up, page_up_wrap, page_down_lem}
use ziemniak.Kernel.Memory.Init.{MemMap, Totals, trim, usable, count, no_totals}

-- The next page border, with the wrap-around of 64 bits.
abbrev pub border : ℕ → ℕ
border a = (a + 4095) % 2 ^ 64 / 4096 * 4096

-- An entry is cut to whole pages, and one that then starts where the kernel was loaded starts past it.
pub record IsTrimmed (load_buf load_end : ℕ) (e e' : MemMap) : Type 0 where
  pub moved : border e.base ≡ load_buf → e'.base ≡ border load_end
  pub placed : border e.base ≢ load_buf → e'.base ≡ border e.base
  pub last : e'.last ≡ (e.base + e.last) % 2 ^ 64 / 4096 * 4096
  pub type : e'.type ≡ e.type
  pub attrs : e'.attrs ≡ e.attrs

pub trim-IsTrimmed :
    (load_buf load_end : ℕ) (e : MemMap)
    → IsTrimmed load_buf load_end e (trim load_buf (sub64 (page_up load_end) load_buf) e)
unfolding trim
trim-IsTrimmed load_buf load_end e =
    let up = page_up_wrap e.base in
    let up_end = page_up_wrap load_end in
    record {
      moved = λ at_load.
          let same : page_up e.base ≡ load_buf = up ∙ at_load in
          rw (same, ==_refl load_buf) (omega arith);
      placed = λ other. rw (up, ne→== (border e.base) load_buf other) refl;
      last = page_down_lem (u64 (e.base + e.last)) (omega arith);
      type = refl;
      attrs = refl;
    }

-- One list after the other, entry by entry.
pub data Trims (load_buf load_end : ℕ) : List MemMap → List MemMap → Type 0 where
  none : Trims load_buf load_end [] []
  next :
      {e e' : MemMap} {es es' : List MemMap}
      → IsTrimmed load_buf load_end e e'
      → Trims load_buf load_end es es'
      → Trims load_buf load_end (e ∷ es) (e' ∷ es')

pub map-Trims :
    (load_buf load_end : ℕ) (es : List MemMap)
    → Trims load_buf load_end es (map (trim load_buf (sub64 (page_up load_end) load_buf)) es)
map-Trims load_buf load_end [] = none
map-Trims load_buf load_end (e ∷ es) =
    next (trim-IsTrimmed load_buf load_end e) (map-Trims load_buf load_end es)

-- Memory of type 1 that starts at 1 MiB or above.
abbrev pub IsFree : MemMap → Type 0
IsFree e = (e.type ≡ 1) × (0x100000 ≤ e.base)

-- The free entries of a list, in order.
pub data Frees : (es frees : List MemMap) → Type 0 where
  done : Frees [] []
  keep : {e : MemMap} {es fs : List MemMap} → IsFree e → Frees es fs → Frees (e ∷ es) (e ∷ fs)
  skip : {e : MemMap} {es fs : List MemMap} → ¬ IsFree e → Frees es fs → Frees (e ∷ es) fs

-- The bytes of a list of regions, of each as many as 64 bits hold.
abbrev pub bytes : List MemMap → ℕ
bytes [] = 0
bytes (e ∷ es) = (e.last + 2 ^ 64 - e.base) % 2 ^ 64 + bytes es

usable-IsFree : (e : MemMap) → usable e ≡ true → IsFree e
usable-IsFree e h = ground arith

other-IsFree : (e : MemMap) → usable e ≡ false → ¬ IsFree e
other-IsFree e h (type, base) = ground arith

abbrev pub free_of : List MemMap → List MemMap
free_of [] = []
free_of (e ∷ es) = if usable e then e ∷ free_of es else free_of es

pub free_of-Frees : (es : List MemMap) → Frees es (free_of es)
free_of-Frees [] = done
free_of-Frees (e ∷ es) = elim (Bool-cases (usable e)) [
  | inl free ↦ rw free (keep (usable-IsFree e free) (free_of-Frees es))
  | inr other ↦ rw other (skip (other-IsFree e other) (free_of-Frees es))
]

-- The totals after a list of trimmed entries.
abbrev pub tally : List MemMap → Totals → Totals
tally [] t = t
tally (e ∷ es) t = tally es (count e t)

-- Membership.
pub data Elem {A : Type 0} (x : A) : List A → Type 0 where
  here : {xs : List A} → Elem x (x ∷ xs)
  there : {y : A} {xs : List A} → Elem x xs → Elem x (y ∷ xs)

-- The largest end of a list, 0 for none.
pub record IsLargest (es : List MemMap) (max : ℕ) : Type 0 where
  pub above : {e : MemMap} → Elem e es → e.last ≤ max
  pub attained : (max ≡ 0) ⊎ ((e : MemMap) × Elem e es × (e.last ≡ max))

-- What an entry adds.
pub record Counted (e : MemMap) (t t' : Totals) : Type 0 where
  pub max : t'.max ≡ (if ltb t.max e.last then e.last else t.max)
  pub free :
      usable e ≡ true
      → (t'.valid_cnt ≡ (t.valid_cnt + 1) % 2 ^ 64)
        × (t'.free_mem ≡ (t.free_mem + sub64 e.last e.base) % 2 ^ 64)
  pub other : usable e ≡ false → (t'.valid_cnt ≡ t.valid_cnt) × (t'.free_mem ≡ t.free_mem)

count-Counted : (e : MemMap) (t : Totals) → Counted e t (count e t)
unfolding count
count-Counted e t = record {
  max = ground arith;
  free = λ h. ground arith;
  other = λ h. ground arith;
}

-- The totals of a walk from totals on.
tally-counts :
    (es : List MemMap) (t : Totals)
    → t.valid_cnt < 2 ^ 64
    → t.free_mem < 2 ^ 64
    → ((tally es t).valid_cnt ≡ (t.valid_cnt + length (free_of es)) % 2 ^ 64)
      × ((tally es t).free_mem ≡ (t.free_mem + bytes (free_of es)) % 2 ^ 64)
tally-counts [] t cnt mem = omega arith
tally-counts (e ∷ es) t cnt mem =
    let counted = count-Counted e t in
    elim (Bool-cases (usable e)) [
      | inl free ↦
          let rest =
            tally-counts es (count e t) (omega (arith, counted.free free))
              (omega (arith, counted.free free)) in
          rw free (omega (arith, counted.free free, rest))
      | inr other ↦
          let rest =
            tally-counts es (count e t) (omega (arith, counted.other other))
              (omega (arith, counted.other other)) in
          rw other (omega (arith, counted.other other, rest))
    ]

tally-above : (es : List MemMap) (t : Totals) → t.max ≤ (tally es t).max
tally-above [] t = omega arith
tally-above (e ∷ es) t = ground (arith, (count-Counted e t).max, tally-above es (count e t))

tally-above_each :
    {e : MemMap} (es : List MemMap) (t : Totals) → Elem e es → e.last ≤ (tally es t).max
tally-above_each [] t i = elim i [ ]
tally-above_each (e ∷ es) t here =
    ground (arith, (count-Counted e t).max, tally-above es (count e t))
tally-above_each (e ∷ es) t (there i) = tally-above_each es (count e t) i

tally-attained :
    (es : List MemMap) (t : Totals)
    → ((tally es t).max ≡ t.max) ⊎ ((e : MemMap) × Elem e es × (e.last ≡ (tally es t).max))
tally-attained [] t = inl refl
tally-attained (e ∷ es) t = elim (tally-attained es (count e t)) [
  | inr (e', i, same) ↦ inr (e', there i, same)
  | inl same ↦ elim (Bool-cases (ltb t.max e.last)) [
    | inl more ↦ inr (e, here, ground (arith, (count-Counted e t).max))
    | inr less ↦ inl (ground (arith, (count-Counted e t).max))
  ]
]

-- The number of free regions and of their bytes, as 64 bits count them, and the largest end.
pub record AreTotals (es frees : List MemMap) (t : Totals) : Type 0 where
  pub valid_cnt : t.valid_cnt ≡ length frees % 2 ^ 64
  pub free_mem : t.free_mem ≡ bytes frees % 2 ^ 64
  pub max : IsLargest es t.max

pub tally-AreTotals : (es : List MemMap) → AreTotals es (free_of es) (tally es no_totals)
tally-AreTotals es =
    let counts = tally-counts es no_totals (omega arith) (omega arith) in
    record {
      valid_cnt = omega (arith, counts);
      free_mem = omega (arith, counts);
      max = record {
        above = tally-above_each es no_totals;
        attained = tally-attained es no_totals;
      };
    }
