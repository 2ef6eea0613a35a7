-- ===== src/Kernel/Tests/Regions.antt =====
-- The walk of `mm_init` over a map of a PC with 128 MiB.
use ziemniak.Kernel.Tests.Devices.{com1, slow_uart, com1-Drains, ready_debug, ready}
use ziemniak.Base.{inl, ◌<◌, ◌≤◌, ◌≡◌, ◌↔◌, refl, arith, List, [], ◌∷◌, ◌++◌, Returns, sub64}
use ziemniak.Pages.{page_up, page_down}
use ziemniak.Kernel.Debug.Output.{IsReady}
use ziemniak.Kernel.Serial.Print.{Sends}
use ziemniak.Kernel.Memory.{Mm}
use ziemniak.Kernel.Memory.Init.{MemMap, mm_init, trim}
use ziemniak.Kernel.Memory.Init.Output.{IsWalked, regions_text, summary, mm_init-IsWalked}
use ziemniak.Kernel.Memory.Init.Regions.{IsSpare, trim-IsSpare}

abbrev high : MemMap
high = record { base = 0x100000; last = 0x7EE0000; type = 1; attrs = 0 }

abbrev firmware_map : List MemMap
firmware_map = record { base = 0; last = 0x9FC00; type = 1; attrs = 0 } ∷ high ∷ []

abbrev mm : Mm
mm = record {
  peek_pde = 0;
  entries = λ _. record { flags = 0; avl2 = 0; addr = 0; avl1 = 0; nx = 0 };
  pointers = λ _. 0;
  history = [];
}

trim_runs :
    trim 0x100000 0x8000 high ≡ record { base = 0x108000; last = 0x7FE0000; type = 1; attrs = 0 }
unfolding trim page_up page_down
trim_runs = refl

mm_init-IsWalked_example :
    Returns
      (λ r s'.
        (walked : IsWalked 0x107000 0x100000 0x107345 firmware_map mm r) × IsReady com1 s'
        × Sends com1
            (regions_text walked.frees ++ summary r.1)
            ready_debug.serial.history
            s'.serial.history)
      (mm_init slow_uart 2 0x107000 firmware_map 0x100000 0x107345 mm ready_debug)
mm_init-IsWalked_example =
    mm_init-IsWalked slow_uart 2 com1-Drains (omega arith) (omega arith) 0x107000 0x100000 0x107345
      firmware_map mm ready_debug ready

trim-IsSpare_example :
    let e' = trim 0x100000 (sub64 (page_up 0x107345) 0x100000) high in
    ((e'.base ≤ 0x108000) × (0x108000 < e'.last)) ↔ IsSpare 0x100000 0x107345 0x108000 high
trim-IsSpare_example =
    trim-IsSpare 0x100000 0x107345 high (omega arith) (omega arith) (omega arith) (omega arith)
      0x108000 (omega arith) (inl (omega arith))
