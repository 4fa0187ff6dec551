-- ===== src/Io/Examples.antt =====
-- Threads that reach input and output on a file.
use mynfs.Base.{ℕ, ◌≡◌, ◌≢◌, refl, Bool, true, false, [], ◌∷◌}
use mynfs.Io.Concrete.{Lock, readers, writer, rwsem}
use mynfs.Io.Steps.{
  io_read, io_write, io_direct, Pc, idle, starting, testing, flipping, flipped, active, World, put,
  Reachable, initial, later, call, run, advance,
}
use mynfs.Io.Exclusion.{direct_excludes_buffered}

abbrev idle_file : Bool → World rwsem
idle_file d = record { odirect = d; sem = readers []; pcs = λ _. idle }

idle_file-Reachable : (d : Bool) → Reachable rwsem (idle_file d)
idle_file-Reachable d = initial (idle_file d) (λ i. refl) (λ i. (refl, refl))

-- A thread at a place, and the flag and the lock that it left.
abbrev moved : World rwsem → ℕ → Bool → Lock → Pc → World rwsem
moved w i d l p = record { odirect = d; sem = l; pcs = put rwsem w.pcs i p }

-- Thread 0 starts direct input or output on a file with the flag set.
abbrev direct_starting : World rwsem
direct_starting = moved (idle_file true) 0 true (readers []) (starting io_direct)

abbrev direct_testing : World rwsem
direct_testing = moved direct_starting 0 true (readers (0 ∷ [])) (testing io_direct)

abbrev direct_active : World rwsem
direct_active = moved direct_testing 0 true (readers (0 ∷ [])) (active io_direct)

direct_active-Reachable : Reachable rwsem direct_active
unfolding advance
direct_active-Reachable =
    later direct_testing direct_active
      (later direct_starting direct_testing
        (later (idle_file true) direct_starting (idle_file-Reachable true)
          (call (idle_file true) 0 io_direct refl))
        (run direct_starting 0 true (readers (0 ∷ [])) (testing io_direct) refl))
      (run direct_testing 0 true (readers (0 ∷ [])) (active io_direct) refl)

direct_excludes_buffered_example :
    (direct_active.odirect ≡ true)
    × ((j : ℕ) → (direct_active.pcs j ≢ active io_read) × (direct_active.pcs j ≢ active io_write))
direct_excludes_buffered_example =
    direct_excludes_buffered rwsem direct_active 0 direct_active-Reachable refl

-- Thread 1 starts a buffered write there.
abbrev write_starting : World rwsem
write_starting = moved (idle_file true) 1 true (readers []) (starting io_write)

abbrev write_flipping : World rwsem
write_flipping = moved write_starting 1 true (writer 1) (flipping io_write)

abbrev write_flipped : World rwsem
write_flipped = moved write_flipping 1 false (writer 1) (flipped io_write)

abbrev write_active : World rwsem
write_active = moved write_flipped 1 false (writer 1) (active io_write)

write_active-Reachable : Reachable rwsem write_active
unfolding advance
write_active-Reachable =
    later write_flipped write_active
      (later write_flipping write_flipped
        (later write_starting write_flipping
          (later (idle_file true) write_starting (idle_file-Reachable true)
            (call (idle_file true) 1 io_write refl))
          (run write_starting 1 true (writer 1) (flipping io_write) refl))
        (run write_flipping 1 false (writer 1) (flipped io_write) refl))
      (run write_flipped 1 false (writer 1) (active io_write) refl)
