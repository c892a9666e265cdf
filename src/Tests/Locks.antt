-- ===== src/Tests/Locks.antt =====
-- Two processors at a spinlock.
use osn_assignments.Base.{ℕ, ◌≡◌, refl, true, false, some, update}
use osn_assignments.Spinlock.{
  Cpu, pushcli, initlock, outside, spinning, claimed, inside, System, enter, exchange, claim, Reach,
  start, later,
}
use osn_assignments.Spinlock.Mutex.{mutual_exclusion}

abbrev idle : Cpu
idle = record { interrupts = true; ncli = 0; intena = false }

-- No processor has asked for the lock.
abbrev system0 : System
system0 = record { lock = initlock; cpu = λ i. idle; pc = λ i. outside }

-- Processor 0 has asked for it, then processor 1, then 0 has won, and is inside.
abbrev system1 : System
system1 = record system0 {
  cpu = update system0.cpu 0 (pushcli idle);
  pc = update system0.pc 0 spinning;
}

abbrev system2 : System
system2 = record system1 {
  cpu = update system1.cpu 1 (pushcli (system1.cpu 1));
  pc = update system1.pc 1 spinning;
}

abbrev system3 : System
system3 = record system2 {
  lock = record initlock { locked = true };
  pc = update system2.pc 0 claimed;
}

abbrev system4 : System
system4 = record system3 {
  lock = record { locked = true; owner = some 0 };
  pc = update system3.pc 0 inside;
}

system4-Reach : Reach system4
system4-Reach =
    later
      (later (later (later (start (λ i. idle)) (enter 0 refl refl)) (enter 1 refl refl))
        (exchange 0 refl refl))
      (claim 0 refl)

mutual_exclusion_example :
    (◌≡◌ {A = ℕ} 0 0) × (system4.lock.locked ≡ true) × ((system4.cpu 0).interrupts ≡ false)
mutual_exclusion_example = mutual_exclusion 0 0 system4-Reach refl refl
