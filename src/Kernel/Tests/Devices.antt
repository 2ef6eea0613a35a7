-- ===== src/Kernel/Tests/Devices.antt =====
-- A serial port that is busy right after each byte and idle at the next poll, and states of the
-- kernel that use it.
use ziemniak.Base.{ℕ, ◌<◌, ◌≡◌, refl, arith, [], ◌∷◌, none, ◌==◌, if◌then◌else◌, replicate}
use ziemniak.Machine.{wrote, wrote_word, outsw, insw, History, Device, inb_value}
use ziemniak.Kernel.Serial.{Serial}
use ziemniak.Kernel.Serial.Print.{IsBusy, Drains}
use ziemniak.Kernel.Debug.{Debug}
use ziemniak.Kernel.Debug.Output.{IsReady}

abbrev pub com1 : ℕ
com1 = 0x3F8

abbrev pub status : History → ℕ
status [] = 0x60
status (wrote _ _ ∷ _) = 0x40
status (_ ∷ _) = 0x60

abbrev pub pending : History → ℕ
pending [] = 0
pending (wrote _ _ ∷ _) = 1
pending (_ ∷ _) = 0

-- Its self test succeeds: a read of any other register echoes the test byte.
abbrev pub slow_uart : Device
slow_uart = record { answer = λ h port. if port == 0x3FD then status h else 0x5A }

pending-lt : (h : History) → pending h < 2
pending-lt [] = omega arith
pending-lt (wrote _ _ ∷ _) = omega arith
pending-lt (_ ∷ _) = omega arith

pending_shrinks : (h : History) → IsBusy (inb_value slow_uart 0x3FD h) → 0 < pending h
pending_shrinks [] b = cc
pending_shrinks (wrote _ _ ∷ _) b = omega arith
pending_shrinks (_ ∷ _) b = cc

pub com1-Drains : Drains slow_uart com1 2
com1-Drains = record { backlog = pending; bounded = pending-lt; shrinks = pending_shrinks }

abbrev pub ready_serial : Serial
ready_serial = record {
  ctx = record { rx_cb = none; port = com1 } ∷ replicate 3 (record { rx_cb = none; port = 0 });
  history = [];
}

abbrev pub ready_debug : Debug
ready_debug = record { serial = ready_serial; buf = replicate 19 0 }

pub ready : IsReady com1 ready_debug
ready = record { set_up = refl; room = refl }

-- Word transfers go upwards in memory, two bytes at a step.
outsw_runs :
    outsw 0x1F0 0x7000 2 (λ a. a) [] ≡ wrote_word 0x1F0 0x7002 ∷ wrote_word 0x1F0 0x7000 ∷ []
unfolding outsw
outsw_runs = refl

insw_runs : (insw slow_uart 0x3FD 0x7000 2 (λ a. 0) []).0 0x7002 ≡ 0x60
unfolding insw
insw_runs = refl
