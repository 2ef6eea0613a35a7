-- ===== src/Stage2/Main/Refused.antt =====
-- `main` of bootloader/stage2/src/stage2.c on a drive that refuses the packet command.
use ziemniak.Base.{
  ℕ, zero, suc, ◌+◌, ◌^◌, ◌<◌, ◌≡◌, ◌≢◌, refl, ◌∙◌, List, [], ◌∷◌, Option, none, some, Bool,
  Bool-cases, inl, inr, not, ◌==◌, if◌then◌else◌, Cmd, codes, u8, u16, Partly, stuck, done,
  Partly-bind, Partly-mono,
}
use ziemniak.Stage2.Boot.{MemMap}
use ziemniak.Stage2.Video.{Video, video_print, video_print_hex}
use ziemniak.Stage2.Interrupts.{Handler}
use ziemniak.Stage2.Disc.{
  Buffer, got, Drive, Disc, poll, four_reads, cdrom_soft_reset, cdrom_init, cdrom_read_sector,
}
use ziemniak.Stage2.Disc.Refused.{Refuses, read-Partly, cdrom_search-runs}
use ziemniak.Stage2.Loader.{
  RealModeData, Loader, halted, with_video, on_video, with_disc, on_disc, kernel_name, memmap,
}
use ziemniak.Stage2.Loader.Messages.{memmap_loop, print_memmap, halt}
use ziemniak.Stage2.Main.{read_buf, find_kernel, start_up, main}

-- If the command returns, `cdrom_buf` is as it was.
abbrev KeepsBuf : {A : Type 0} → Cmd Loader A → Type 0
KeepsBuf m = (s : Loader) → Partly (λ _ s'. s'.cdrom_buf ≡ s.cdrom_buf) (m s)

on_video-KeepsBuf : {A : Type 0} (m : Cmd Video A) → KeepsBuf (on_video m)
on_video-KeepsBuf {A} m s = lift (m s.video)
  where
    lift : (r : Option (A × Video)) → Partly (λ _ s'. s'.cdrom_buf ≡ s.cdrom_buf) (with_video s r)
    lift none = stuck
    lift (some (a, v)) = done refl

memmap_loop-KeepsBuf : (fuel : ℕ) (ms : List MemMap) → KeepsBuf (memmap_loop fuel ms)
unfolding memmap_loop
memmap_loop-KeepsBuf fuel [] s = done refl
memmap_loop-KeepsBuf fuel (m ∷ ms) s =
    Partly-bind (on_video-KeepsBuf (video_print_hex fuel m.base 0) s) λ _ s1 e1.
      Partly-bind (on_video-KeepsBuf (video_print_hex fuel m.len 0) s1) λ _ s2 e2.
        Partly-bind (on_video-KeepsBuf (video_print_hex fuel m.type 8) s2) λ _ s3 e3.
          Partly-bind (on_video-KeepsBuf (video_print_hex fuel m.attrs 8) s3) λ _ s4 e4.
            Partly-bind (on_video-KeepsBuf (video_print fuel (codes "\n")) s4) λ _ s5 e5.
              Partly-mono (memmap_loop-KeepsBuf fuel ms s5) λ _ s6 e6. e6 ∙ e5 ∙ e4 ∙ e3 ∙ e2 ∙ e1

start_up-KeepsBuf :
    (place : Handler → ℕ) (idt_addr : ℕ) (frame : ℕ → ℕ → ℕ) (rm_data : RealModeData)
    → KeepsBuf (start_up place idt_addr frame rm_data)
unfolding start_up
start_up-KeepsBuf place idt_addr frame rm_data s = done refl

-- What is known of a call of the driver that may not return.
on_disc-Partly :
    {A : Type 0} {P : A → Disc → Type 0} (m : Cmd Disc A) (s : Loader)
    → Partly P (m s.disc)
    → Partly (λ a s'. P a s'.disc × (s'.cdrom_buf ≡ s.cdrom_buf)) (on_disc m s)
on_disc-Partly {A} {P} m s run = lift run
  where
    lift :
        {r : Option (A × Disc)}
        → Partly P r
        → Partly (λ a s'. P a s'.disc × (s'.cdrom_buf ≡ s.cdrom_buf)) (with_disc s r)
    lift stuck = stuck
    lift (done p) = done (p, refl)

module _ (drive : Drive) (io : ℕ) where
  poll-port :
      (again : ℕ → Bool) (fuel port : ℕ) (s : Disc)
      → s.io_port ≡ io
      → Partly (λ _ s'. s'.io_port ≡ io) (poll drive again fuel port s)
  unfolding poll
  poll-port again zero port s here = stuck
  poll-port again (suc fuel) port s here =
      let v = u8 (drive.byte s.history (u16 port)) in
      elim (Bool-cases (again v)) [
        | inl go ↦
            rw go
              (poll-port again fuel port (record s { history = got (u16 port) v ∷ s.history }) here)
        | inr stop ↦ rw stop (done here)
      ]

  cdrom_init-port :
      (fuel ctl slv : ℕ) (s : Disc)
      → Partly (λ _ s'. s'.io_port ≡ io) (cdrom_init drive fuel io ctl slv s)
  unfolding cdrom_init cdrom_soft_reset four_reads
  cdrom_init-port fuel ctl slv s =
      Partly-bind (Partly-bind (poll-port _ fuel _ _ refl) λ _ s1 here. done here)
        λ _ s1 here. done here

module _ (drive : Drive) (io : ℕ) (refuses : Refuses drive io) (ports : io + 7 < 2 ^ 16) where
  -- The reads of `main` leave `cdrom_buf`.
  read_buf-Partly :
      (fuel lba : ℕ) (buf : Buffer) (s : Loader)
      → s.disc.io_port ≡ io
      → Partly (λ r s'. (r.1 ≡ buf) × (s'.disc.io_port ≡ io)) (read_buf fuel drive lba buf s)
  unfolding read_buf
  read_buf-Partly fuel lba buf s here =
      Partly-bind
        (on_disc-Partly (cdrom_read_sector drive fuel lba buf) s
          (read-Partly drive io refuses ports fuel lba buf s.disc here))
        λ r s1 ((n, same, port, _), _). done (same, port)

  find_kernel-runs :
      (fuel : ℕ) (rm_data : RealModeData) (load_size : ℕ) (s : Loader)
      → s.cdrom_buf 0 ≢ 1
      → s.disc.io_port ≡ io
      → find_kernel fuel drive rm_data load_size s ≡ none
  unfolding find_kernel
  find_kernel-runs fuel rm_data load_size s other here =
      rw
        (cdrom_search-runs (read_buf fuel drive) (λ t. t.disc.io_port ≡ io) (read_buf-Partly fuel)
          fuel kernel_name load_size s.cdrom_buf s other here)
        refl

  after_init-Halts :
      (fuel : ℕ) (rm_data : RealModeData) (load_size bad : ℕ) (s : Loader)
      → s.cdrom_buf 0 ≢ 1
      → s.disc.io_port ≡ io
      → Partly
          (λ o _. o ≡ halted)
          ((if not (bad == 0)
              then halt fuel (codes "Disk not supported :<\n")
              else find_kernel fuel drive rm_data load_size)
            s)
  after_init-Halts fuel rm_data load_size bad s other here = elim (Bool-cases (bad == 0)) [
    | inl good ↦ rw (good, find_kernel-runs fuel rm_data load_size s other here) stuck
    | inr unknown ↦ rw unknown (
        Partly-bind (on_video-KeepsBuf (video_print fuel (codes "Disk not supported :<\n")) s)
          λ _ s1 e1. done refl)
  ]

  -- On a drive that refuses the packet command, with a `cdrom_buf` that does not start with the byte
  -- 1, the boot loader never enters the kernel: if `main` returns, it has halted.
  pub main-Halts :
      (place : Handler → ℕ) (idt_addr : ℕ) (frame : ℕ → ℕ → ℕ) (rm_data : RealModeData)
      (fuel load_size : ℕ) (s : Loader)
      → rm_data.boot_disk_io ≡ io
      → s.cdrom_buf 0 ≢ 1
      → Partly (λ o _. o ≡ halted) (main place idt_addr frame rm_data fuel drive load_size s)
  unfolding main print_memmap
  main-Halts place idt_addr frame rm_data fuel load_size s here other =
      Partly-bind (start_up-KeepsBuf place idt_addr frame rm_data s) λ _ s0 e0.
        Partly-bind
          (on_video-KeepsBuf (video_print fuel (codes "Memory detection successful\n")) s0)
          λ _ s1 e1.
            Partly-bind
              (Partly-bind (on_video-KeepsBuf (video_print fuel (codes "Memory map:\n")) s1)
                λ _ t e.
                  Partly-mono (memmap_loop-KeepsBuf fuel (memmap rm_data s1.memory) t)
                    λ _ s2 e2. e2 ∙ e)
              λ _ s2 e2.
                Partly-bind
                  (on_video-KeepsBuf (video_print fuel (codes "Searching for kernel image...\n"))
                    s2)
                  λ _ s3 e3.
                    Partly-bind
                      (on_disc-Partly
                        (cdrom_init drive fuel rm_data.boot_disk_io rm_data.boot_disk_ctl
                          rm_data.is_boot_disk_slv)
                        s3
                        (cdrom_init-port drive rm_data.boot_disk_io fuel rm_data.boot_disk_ctl
                          rm_data.is_boot_disk_slv s3.disc))
                      λ bad s4 (port, e4).
                        after_init-Halts fuel rm_data load_size bad s4
                          (rw (e4 ∙ e3 ∙ e2 ∙ e1 ∙ e0) other) (port ∙ here)
