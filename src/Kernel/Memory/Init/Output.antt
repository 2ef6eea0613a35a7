-- ===== src/Kernel/Memory/Init/Output.antt =====
-- `mm_init` returns: its walk as functions of the map, and what it prints.
use ziemniak.Base.{
  ℕ, ◌<◌, ◌≤◌, ◌≡◌, refl, ap, arith, List, [], ◌∷◌, ◌++◌, map, Bool-cases, inl, inr, if◌then◌else◌,
  returns, Returns, Returns-bind, codes, sub64,
}
use ziemniak.Machine.{Device}
use ziemniak.Pages.{page_up}
use ziemniak.Kernel.Serial.Print.{Drains, Sends, nothing}
use ziemniak.Kernel.Debug.{Debug, debug_num}
use ziemniak.Kernel.Debug.Output.{
  IsReady, Prints, Prints->>, Sends-append, num_line, debug_num-Prints,
}
use ziemniak.Kernel.Memory.{Mm}
use ziemniak.Kernel.Memory.Init.{
  MemMap, Totals, trim, usable, no_totals, count, show, map_loop, mm_init,
}
use ziemniak.Kernel.Memory.Init.Listed.{
  Trims, map-Trims, Frees, free_of, free_of-Frees, tally, AreTotals, tally-AreTotals,
}

-- Base and end of each region of a list.
abbrev pub regions_text : List MemMap → List ℕ
regions_text [] = []
regions_text (e ∷ es) =
    (num_line (codes "Base: ") e.base ++ num_line (codes "End: ") e.last) ++ regions_text es

abbrev pub summary : Totals → List ℕ
summary t =
    num_line (codes "Bitmap allocator requirements: ") 0 ++ num_line (codes "Max address: ") t.max

-- What `mm_init` leaves: each entry trimmed, which of them are free, their totals, and the table that
-- `mm_peek` will use.
pub record IsWalked (peek_entry load_buf load_end : ℕ) (es : List MemMap) (mm : Mm)
    (r : List MemMap × Totals × Mm) : Type 0 where
  pub entries : Trims load_buf load_end es r.0
  pub frees : List MemMap
  pub listed : Frees r.0 frees
  pub totals : AreTotals r.0 frees r.1
  pub manager : r.2 ≡ record mm { peek_pde = peek_entry }

-- What the code prints of an entry.
abbrev entry_text : MemMap → List ℕ
entry_text e =
    if usable e then num_line (codes "Base: ") e.base ++ num_line (codes "End: ") e.last else []

entry_text-regions_text :
    (e : MemMap) (es : List MemMap)
    → entry_text e ++ regions_text (free_of es) ≡ regions_text (free_of (e ∷ es))
entry_text-regions_text e es = elim (Bool-cases (usable e)) [
  | inl free ↦ rw free refl
  | inr other ↦ rw other refl
]

module _ (dev : Device) (fuel : ℕ) {port depth : ℕ} (drains : Drains dev port depth)
    (pos : 0 < port) (enough : depth ≤ fuel) where
  show-Prints : (e : MemMap) → Prints port (entry_text e) (show dev fuel e)
  unfolding show
  show-Prints e s ready = elim (Bool-cases (usable e)) [
    | inl free ↦ rw free (
        Prints->> port _ _ _ _
          (debug_num-Prints dev fuel drains pos enough (codes "Base: ") e.base (omega arith))
          (debug_num-Prints dev fuel drains pos enough (codes "End: ") e.last (omega arith)) s
          ready)
    | inr other ↦ rw other (returns (ready, nothing))
  ]

  module _ (load_buf load_size : ℕ) where
    abbrev trimmed : List MemMap → List MemMap
    trimmed = map (trim load_buf load_size)

    map_loop-trimmed :
        (es : List MemMap) (t : Totals) (s : Debug)
        → IsReady port s
        → Returns
            (λ r s'.
              (r ≡ (trimmed es, tally (trimmed es) t))
              × IsReady port s'
              × Sends port (regions_text (free_of r.0)) s.serial.history s'.serial.history)
            (map_loop dev fuel load_buf load_size es t s)
    unfolding map_loop
    map_loop-trimmed [] t s ready = returns (refl, ready, nothing)
    map_loop-trimmed (e ∷ es) t s ready =
        let e' = trim load_buf load_size e in
        Returns-bind (show-Prints e' s ready) λ _ s' (ready', shown).
          Returns-bind (map_loop-trimmed es (count e' t) s' ready') λ r s'' (same, ready'', rest).
            returns (
              ap (λ (r : List MemMap × Totals). (e' ∷ r.0, r.1)) same,
              ready'',
              rw (← entry_text-regions_text e' r.0) (Sends-append shown rest),
            )

  first :
      (t : Totals)
      → Prints port
          (num_line (codes "Bitmap allocator requirements: ") 0)
          (debug_num dev fuel (codes "Bitmap allocator requirements: ") 0)
  first t =
      debug_num-Prints dev fuel drains pos enough (codes "Bitmap allocator requirements: ") 0
        (omega arith)

  second :
      (t : Totals)
      → Prints port
          (num_line (codes "Max address: ") t.max)
          (debug_num dev fuel (codes "Max address: ") t.max)
  second t = debug_num-Prints dev fuel drains pos enough (codes "Max address: ") t.max (omega arith)

  -- On a port that has been set up and drains, `mm_init` returns, with each entry of the map cut to
  -- whole pages and moved past the kernel if the kernel was loaded where it starts, the totals (the
  -- number of the regions of type 1 from 1 MiB on, of their bytes, both modulo 2^64, and the largest
  -- end of any entry) and the table for `mm_peek`; and it has sent base and end of every such region, in
  -- order, then 0 for the allocator and the largest end.
  pub mm_init-IsWalked :
      (peek_entry load_buf load_end : ℕ) (es : List MemMap) (mm : Mm) (s : Debug)
      → IsReady port s
      → Returns
          (λ r s'.
            (walked : IsWalked peek_entry load_buf load_end es mm r) × IsReady port s'
            × Sends port
                (regions_text walked.frees ++ summary r.1)
                s.serial.history
                s'.serial.history)
          (mm_init dev fuel peek_entry es load_buf load_end mm s)
  unfolding mm_init
  mm_init-IsWalked peek_entry load_buf load_end es mm s ready =
      Returns-bind
        (map_loop-trimmed load_buf (sub64 (page_up load_end) load_buf) es no_totals s ready)
        λ (map, t) s' (same, ready', walked).
          Returns-bind (first t s' ready') λ _ s1 (ready1, sent1).
            Returns-bind (second t s1 ready1) λ _ s2 (ready2, sent2). returns (
              record {
                entries = rw same (map-Trims load_buf load_end es);
                frees = free_of map;
                listed = free_of-Frees map;
                totals = rw same (tally-AreTotals _);
                manager = refl;
              },
              ready2,
              Sends-append walked (Sends-append sent1 sent2),
            )
