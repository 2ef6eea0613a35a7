-- ===== src/Kernel/Entry/Start.antt =====
-- What `main` has sent and mapped when it reaches its last loop.
use ziemniak.Base.{
  ℕ, ◌+◌, ◌*◌, ◌%◌, ◌^◌, ◌<◌, ◌≤◌, ◌≡◌, ◌≢◌, ap, ◌∙◌, arith, List, ◌++◌, some, none, Option, length,
  get_or, get_or-set_self, refl, codes, Returns, returns, Returns-bind, Returns-mono, u16,
}
use ziemniak.Machine.{Device, History, Extends, unchanged, later}
use ziemniak.Kernel.Serial.{no_ctx}
use ziemniak.Kernel.Serial.Uart.{uart}
use ziemniak.Kernel.Serial.Init.{Off, IsConfigured, echo, serial_init-Outcome}
use ziemniak.Kernel.Serial.Print.{Drains, Sends}
use ziemniak.Kernel.Debug.{Debug, debug_init, debug_info}
use ziemniak.Kernel.Debug.Output.{IsReady, line, print_msg-Prints, Sends-append, Returns-put_back}
use ziemniak.Kernel.Memory.{Mm}
use ziemniak.Kernel.Memory.Init.{MemMap}
use ziemniak.Kernel.Memory.Init.Output.{IsWalked, regions_text, summary, mm_init-IsWalked}
use ziemniak.Kernel.Memory.Init.{Totals}
use ziemniak.Kernel.Memory.Window.{IsRequest, Finds, window, blocks, mm_peek-Finds, mm_peek-table}
use ziemniak.Kernel.Memory.Peek.{flushes}
use ziemniak.Kernel.Interrupts.{remap_pic, Interrupts, interrupts_init}
use ziemniak.Pic.{Pics}
use ziemniak.Kernel.Interrupts.Gates
use ziemniak.Kernel.Interrupts.Gates.{interrupts_init-IsReady}
use ziemniak.Pages.{block_size}
use ziemniak.Kernel.Entry.{LongModeData, Kernel, with_history, report, peek_screen, main}

-- A first serial port that the BIOS reports and that passes its self test.
pub record IsPort (dev : Device) (port : ℕ) (d : Debug) : Type 0 where
  pub reported : port ≢ 0
  pub closed : Off (uart port d.serial.history)
  pub echoes : echo dev port d.serial.history ≡ 0x5A
  pub room : (0 < length d.serial.ctx) × (length d.buf ≡ 19)

module _ (dev : Device) (bda_coms : ℕ → ℕ) where
  debug_init-IsReady :
      (d : Debug)
      → IsPort dev (u16 (bda_coms 0)) d
      → Returns
          (λ _ d'.
            IsReady (u16 (bda_coms 0)) d'
            × IsConfigured (uart (u16 (bda_coms 0)) d'.serial.history)
            × Extends d.serial.history d'.serial.history)
          (debug_init dev bda_coms d)
  unfolding debug_init
  debug_init-IsReady d is =
      Returns-mono
        (Returns-put_back d
          (serial_init-Outcome dev bda_coms 0 none d.serial (omega arith) is.reported is.closed))
        λ status d' (outcome, same_buf).
          let (_, _, ctx) = outcome.passed is.echoes in
          (
            record {
              set_up =
                  ap (λ (c : List _). (get_or c 0 no_ctx).port) ctx
                  ∙ ap (λ c. c.port) (get_or-set_self d.serial.ctx 0 _ no_ctx is.room.0);
              room = ap length same_buf ∙ is.room.1;
            },
            outcome.settings,
            outcome.extends,
          )

-- All that the kernel says.
abbrev pub greeting : (frees : List MemMap) → Totals → List ℕ
greeting frees totals =
    (regions_text frees ++ summary totals) ++ line (codes "INFO: ") (codes "Kernel started")

module _ (dev : Device) (fuel : ℕ) (bda_coms : ℕ → ℕ) {depth : ℕ}
    (drains : Drains dev (u16 (bda_coms 0)) depth) (enough : depth ≤ fuel) where
  abbrev port : ℕ
  port = u16 (bda_coms 0)

  -- From a history at which the port is configured, the greeting is sent.
  pub record Greeted (es : List MemMap) (lm : LongModeData) (mm mm' : Mm) (d d' : Debug)
      : Type 0 where
    pub from : History
    pub extends : Extends d.serial.history from
    pub configured : IsConfigured (uart port from)
    pub result : List MemMap × Totals × Mm
    pub walked : IsWalked lm.peek_entry lm.load_buf lm.load_end es mm result
    pub manager : mm' ≡ record mm { peek_pde = lm.peek_entry }
    pub sent : Sends port (greeting walked.frees result.1) from d'.serial.history

  report-Greeted :
      (es : List MemMap) (lm : LongModeData) (mm : Mm) (d : Debug)
      → IsPort dev port d
      → Returns (λ mm' d'. Greeted es lm mm mm' d d') (report dev fuel bda_coms es lm mm d)
  unfolding report debug_info
  report-Greeted es lm mm d is =
      let pos : 0 < port = omega (arith, is.reported) in
      Returns-bind (debug_init-IsReady dev bda_coms d is) λ _ d1 (ready, settings, extends).
        Returns-bind
          (mm_init-IsWalked dev fuel drains pos enough lm.peek_entry lm.load_buf lm.load_end es mm
            d1 ready)
          λ r d2 (walked, ready2, sent).
            Returns-bind
              (print_msg-Prints dev fuel drains pos enough (codes "INFO: ") (codes "Kernel started")
                (omega arith) (omega arith) d2 ready2)
              λ _ d3 (ready3, sent3). returns (record {
                from = d1.serial.history;
                extends = extends;
                configured = settings;
                result = r;
                walked = walked;
                manager = walked.manager;
                sent = Sends-append sent sent3;
              })

abbrev pub screen_size : LongModeData → ℕ
screen_size lm = lm.scr_width * lm.scr_height * 4

-- The kernel in its last loop. Its history is in this order: that before `main`; the set-up of the
-- interrupts, which are ready; that of the port, which is then configured; the greeting, for the walk
-- over the memory map; and the flush of each block of the frame buffer, which it then sees.
pub record IsStarted (isr_tab : ℕ → ℕ) (idt_addr : ℕ) (firmware : Pics) (port vmem : ℕ)
    (es : List MemMap) (lm : LongModeData) (s s' : Kernel) : Type 0 where
  pub to_here : History
  pub starts : Extends s.debug.serial.history to_here
  pub interrupts :
      Gates.IsReady isr_tab idt_addr firmware (record { idt = s'.idt; history = to_here })
  pub from : History
  pub extends : Extends to_here from
  pub configured : IsConfigured (uart port from)
  pub result : List MemMap × Totals × Mm
  pub walked : IsWalked lm.peek_entry lm.load_buf lm.load_end es s.mm result
  pub to : History
  pub sent : Sends port (greeting walked.frees result.1) from to
  pub ends : s'.debug.serial.history ≡ flushes (blocks lm.framebuf_ptr (screen_size lm)) 0 to
  pub table : s'.mm.peek_pde ≡ lm.peek_entry
  pub pointer : s'.mm.pointers vmem ≡ window lm.framebuf_ptr
  pub screen : Finds vmem (screen_size lm) (λ off. some (lm.framebuf_ptr + off)) (0, s'.mm)

module _ (dev : Device) (fuel : ℕ) (bda_coms : ℕ → ℕ) {depth : ℕ}
    (drains : Drains dev (u16 (bda_coms 0)) depth) (enough : depth ≤ fuel) (isr_tab : ℕ → ℕ)
    (small : (v : ℕ) → isr_tab v < 2 ^ 64) where
  interrupts_init-Extends :
      (idt_addr : ℕ) (i : Interrupts)
      → Extends i.history (interrupts_init isr_tab idt_addr i).1.history
  unfolding interrupts_init remap_pic
  interrupts_init-Extends idt_addr i = later (
      later
        (later (later (later (later (later (later (later (later (later (later unchanged)))))))))))

  peek_screen-IsStarted :
      (firmware : Pics) (idt_addr vmem : ℕ) (es : List MemMap) (lm : LongModeData) (s : Kernel)
      (i : Interrupts) (d : Debug) {m : Option (Mm × Debug)}
      → Extends s.debug.serial.history i.history
      → d.serial.history ≡ i.history
      → Gates.IsReady isr_tab idt_addr firmware i
      → IsRequest vmem lm.framebuf_ptr (screen_size lm) (record s.mm { peek_pde = lm.peek_entry })
      → lm.framebuf_ptr % block_size < 8192
      → Returns (λ mm' d'. Greeted dev fuel bda_coms drains enough es lm s.mm mm' d d') m
      → Returns
          (λ _ s'. IsStarted isr_tab idt_addr firmware (u16 (bda_coms 0)) vmem es lm s s')
          (peek_screen vmem lm i.idt m)
  unfolding peek_screen
  peek_screen-IsStarted firmware idt_addr vmem es lm s i d starts is interrupts request low
        (returns {s = d'} g) =
      let request' : IsRequest vmem lm.framebuf_ptr (screen_size lm)
          (record s.mm { peek_pde = lm.peek_entry; history = d'.serial.history }) =
        record {
          ready = request.ready;
          room = request.room;
          target = request.target;
          small = request.small;
          fits = request.fits;
          spans = request.spans;
        } in
      returns (record {
        to_here = i.history;
        starts = starts;
        interrupts = interrupts;
        from = g.from;
        extends = rw (← is) g.extends;
        configured = g.configured;
        result = g.result;
        walked = g.walked;
        to = d'.serial.history;
        sent = g.sent;
        ends = rw g.manager (mm_peek-Finds request' low).0.history;
        table = rw g.manager (mm_peek-table request');
        pointer = rw g.manager (mm_peek-Finds request' low).0.stored;
        screen = rw g.manager (mm_peek-Finds request' low).1;
      })

  -- With a first serial port that drains and passes its self test after the set-up of the interrupts,
  -- and a frame buffer that starts in one of the first two pages of its 2 MiB block and is within the
  -- limits of `mm_peek`, `main` reaches its last loop. What the processor has done since the start is the
  -- set-up of the interrupts, which leaves them ready, that of the port, which leaves it configured,
  -- sending the free regions, the totals and the greeting, and flushing the blocks of the frame buffer;
  -- and the range at the pointer `vmem` leads to the frame buffer.
  pub main-IsStarted :
      (firmware : Pics) (idt_addr vmem : ℕ) (es : List MemMap) (lm : LongModeData) (s : Kernel)
      → IsPort dev (u16 (bda_coms 0)) (
          with_history
            (interrupts_init isr_tab idt_addr
              (record { idt = s.idt; history = s.debug.serial.history })).1.history
            s.debug)
      → IsRequest vmem lm.framebuf_ptr (screen_size lm) (record s.mm { peek_pde = lm.peek_entry })
      → lm.framebuf_ptr % block_size < 8192
      → Returns
          (λ _ s'. IsStarted isr_tab idt_addr firmware (u16 (bda_coms 0)) vmem es lm s s')
          (main dev fuel isr_tab idt_addr bda_coms vmem es lm s)
  unfolding main
  main-IsStarted firmware idt_addr vmem es lm s is request low =
      let (_, gates) =
        interrupts_init-IsReady isr_tab small idt_addr firmware
          (record { idt = s.idt; history = s.debug.serial.history }) in
      peek_screen-IsStarted firmware idt_addr vmem es lm s _ _ (interrupts_init-Extends idt_addr _)
        refl gates request low (report-Greeted dev fuel bda_coms drains enough es lm s.mm _ is)
