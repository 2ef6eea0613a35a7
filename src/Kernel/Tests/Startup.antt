-- ===== src/Kernel/Tests/Startup.antt =====
-- The entry of a kernel with one page of zeroes and the stack of the boot loader.
use ziemniak.Base.{refl, arith, inr}
use ziemniak.Cpu.{Cpu}
use ziemniak.Kernel.Startup.{Symbols, kernel_start}
use ziemniak.Kernel.Startup.Called.{IsPlaced, IsCalled, kernel_start-IsCalled}

abbrev symbols : Symbols
symbols = record { sbss = 0xFFFFFFFF80004000; ebss = 0xFFFFFFFF80005000; tss = 0xFFFFFFFF80002000 }

abbrev entered : Cpu
entered = record {
  regs = λ r. 0x9000;
  stack = record { rsp = 0xFFFFFFFFFFFFFFF0; mem = λ a. a };
  rip = 0xFFFFFFFF80000050;
  cs = 8;
  rflags = 2;
  ss = 0x10;
  cr0 = 0x80000011;
  cr2 = 0;
  cr3 = 0x104000;
  cr4 = 0xA0;
}

placed : IsPlaced symbols entered
placed = record {
  words = (refl, refl);
  ordered = (omega arith, omega arith);
  top = (omega arith, omega arith);
  room = (omega arith, omega arith);
  apart = inr (omega arith);
}

kernel_start-IsCalled_example : IsCalled symbols entered (kernel_start symbols entered)
kernel_start-IsCalled_example = kernel_start-IsCalled symbols entered placed
