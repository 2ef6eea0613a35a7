-- ===== src/Stage2/Disc/Waits.antt =====
-- The waits of bootloader/stage2/src/cdrom.c end, and only the history changes.
use ziemniak.Base.{
  ℕ, zero, suc, ◌<◌, ◌≡◌, refl, arith, ◌∷◌, Bool, true, false, Bool-cases, inl, inr, ◌==◌, ==-cases,
  ne→==, Returns, returns, Returns-mono, u16,
}
use ziemniak.Stage2.Disc.{Event, History, got, looked, Drive, Disc, poll, wait_flag, four_reads}
use ziemniak.Stage2.Disc.Atapi.{Since, got_later, looked_later, value, Settles, Signals}

-- From `h` to `h'` the driver has only looked at ports and at the flag.
pub data Looks : History → History → Type 0 where
  here : {h : History} → Looks h h
  got_first : {port val : ℕ} {h h' : History} → Looks (got port val ∷ h) h' → Looks h h'
  looked_first : {flag : ℕ} {h h' : History} → Looks (looked flag ∷ h) h' → Looks h h'

pub Looks-append : {h h' h'' : History} → Looks h h' → Looks h' h'' → Looks h h''
Looks-append here q = q
Looks-append (got_first p) q = got_first (Looks-append p q)
Looks-append (looked_first p) q = looked_first (Looks-append p q)

-- Only the history has changed, by looks at ports and the flag, and still the mark is the last event
-- but reads.
pub record Waited (mark : Event) (s s' : Disc) : Type 0 where
  pub kept : s' ≡ record s { history = s'.history }
  pub looks : Looks s.history s'.history
  pub still : Since mark s'.history

module _ (drive : Drive) {mark : Event} where
  -- The value that ends the loop was read in the phase.
  pub poll-Waited :
      (again : ℕ → Bool) (port : ℕ) {depth : ℕ} (settles : Settles drive mark again port depth)
      (fuel : ℕ) (s : Disc)
      → u16 port ≡ port
      → Since mark s.history
      → settles.backlog s.history < fuel
      → Returns
          (λ sts s'.
            Waited mark s s'
            × (again sts ≡ false)
            × ((h : History) × Since mark h × (sts ≡ value drive port h)))
          (poll drive again fuel port s)
  unfolding poll
  poll-Waited again port settles zero s fits since enough = absurd (omega arith)
  poll-Waited again port settles (suc fuel) s fits since enough =
      rw fits (elim (Bool-cases (again (value drive port s.history))) [
        | inr stop ↦ rw stop (
            returns (
              record { kept = refl; looks = got_first here; still = got_later since },
              stop,
              (s.history, since, refl),
            ))
        | inl go ↦ rw go (
            Returns-mono
              (poll-Waited again port settles fuel
                (record s { history = got port (value drive port s.history) ∷ s.history }) fits
                (got_later since) (omega (arith, settles.shrinks s.history since go)))
              λ sts s' (w, stop, origin). (
                record { kept = w.kept; looks = got_first w.looks; still = w.still },
                stop,
                origin,
              ))
      ])

  pub four_reads-Waited :
      (port : ℕ) (s : Disc)
      → u16 port ≡ port
      → Since mark s.history
      → Returns (λ _ s'. Waited mark s s') (four_reads drive port s)
  unfolding four_reads
  four_reads-Waited port s fits since = rw fits (
      returns (record {
        kept = refl;
        looks = got_first (got_first (got_first (got_first here)));
        still = got_later (got_later (got_later (got_later since)));
      }))

  pub wait_flag-Waited :
      {depth : ℕ} (signals : Signals drive mark depth) (fuel : ℕ) (s : Disc)
      → Since mark s.history
      → signals.backlog s.history < fuel
      → Returns (λ _ s'. Waited mark s s') (wait_flag drive fuel s)
  unfolding wait_flag
  wait_flag-Waited signals zero s since enough = absurd (omega arith)
  wait_flag-Waited signals (suc fuel) s since enough = elim (==-cases (drive.flag s.history) 0) [
    | inr set ↦
        rw (ne→== (drive.flag s.history) 0 set)
          (returns (record { kept = refl; looks = looked_first here; still = looked_later since }))
    | inl unset ↦
        let test : (drive.flag s.history == 0) ≡ true = ground arith in
        let less = signals.shrinks s.history since unset in
        rw test (
          Returns-mono
            (wait_flag-Waited signals fuel
              (record s { history = looked (drive.flag s.history) ∷ s.history })
              (looked_later since) (omega arith))
            λ _ s' w. record { kept = w.kept; looks = looked_first w.looks; still = w.still })
  ]
