-- ===== src/Io/Steps.antt =====
-- The threads that start and end input and output on one file, step by step: mynfs/io.c and
-- `nfs_file_block_o_direct` of mynfs/internal.h. Waiting for direct requests and writing back the
-- mapping do not touch this state.
use mynfs.Base.{ℕ, ◌≡◌, ◌==◌, if◌then◌else◌, Bool, true, false, Option, none, some}
use mynfs.Io.Rwsem.{Rwsem}

pub data IoKind : Type 0 where
  io_read io_write io_direct : IoKind

-- The value of NFS_INO_ODIRECT that an operation needs.
abbrev pub wanted : IoKind → Bool
wanted io_direct = true
wanted io_read = false
wanted io_write = false

-- Where a thread is: the code between two of these is one step.
pub data Pc : Type 0 where
  idle : Pc
  starting : IoKind → Pc  -- before the first lock
  testing : IoKind → Pc  -- before the test of the flag, the lock held shared
  unlucky : IoKind → Pc  -- before up_read
  unlocked : IoKind → Pc  -- before down_write of the slow path
  flipping : IoKind → Pc  -- before nfs_file_block_o_direct or nfs_block_buffered
  flipped : IoKind → Pc  -- after it, the lock still held exclusively
  active : IoKind → Pc  -- from the return of the start function to the call of the end function

abbrev pub is_set_as : Bool → Bool → Bool
is_set_as true b = b
is_set_as false true = false
is_set_as false false = true

module _ {R : Type 0} (L : Rwsem R) where
  abbrev pub locked : Pc → Bool → Option R → Option (Bool × R × Pc)
  locked p odirect none = none
  locked p odirect (some r) = some (odirect, r, p)

  -- The next step of the thread `i`, on the flag and the lock.
  unfoldable pub advance : Pc → Bool → R → ℕ → Option (Bool × R × Pc)
  advance idle d r i = none
  advance (starting io_write) d r i = locked (flipping io_write) d (L.down_write r i)
  advance (starting io_read) d r i = locked (testing io_read) d (L.down_read r i)
  advance (starting io_direct) d r i = locked (testing io_direct) d (L.down_read r i)
  advance (testing io_write) d r i = none  -- a write tests nothing
  advance (testing io_read) d r i =
      some (d, r, if is_set_as d false then active io_read else unlucky io_read)
  advance (testing io_direct) d r i =
      some (d, r, if is_set_as d true then active io_direct else unlucky io_direct)
  advance (unlucky k) d r i = locked (unlocked k) d (L.up_read r i)
  advance (unlocked k) d r i = locked (flipping k) d (L.down_write r i)
  advance (flipping k) d r i = some (wanted k, r, flipped k)
  advance (flipped io_write) d r i = some (d, r, active io_write)
  advance (flipped io_read) d r i = locked (active io_read) d (L.downgrade_write r i)
  advance (flipped io_direct) d r i = locked (active io_direct) d (L.downgrade_write r i)
  advance (active io_write) d r i = locked idle d (L.up_write r i)
  advance (active io_read) d r i = locked idle d (L.up_read r i)
  advance (active io_direct) d r i = locked idle d (L.up_read r i)

  pub record World : Type 0 where
    pub odirect : Bool  -- NFS_INO_ODIRECT
    pub sem : R
    pub pcs : ℕ → Pc

  abbrev pub put : (ℕ → Pc) → ℕ → Pc → ℕ → Pc
  put pcs i p j = if i == j then p else pcs j

  -- A thread with nothing to do starts an operation, or a thread takes its next step.
  pub data Step : World → World → Type 0 where
    call :
        (w : World) (i : ℕ) (k : IoKind)
        → w.pcs i ≡ idle
        → Step w (record w { pcs = put w.pcs i (starting k) })
    run :
        (w : World) (i : ℕ) (d : Bool) (r : R) (p : Pc)
        → advance (w.pcs i) w.odirect w.sem i ≡ some (d, r, p)
        → Step w (record { odirect = d; sem = r; pcs = put w.pcs i p })

  -- From any value of the flag, with no thread active and nobody holding the lock.
  pub data Reachable : World → Type 0 where
    initial :
        (w : World)
        → ((i : ℕ) → w.pcs i ≡ idle)
        → ((i : ℕ) → (L.shared w.sem i ≡ false) × (L.exclusive w.sem i ≡ false))
        → Reachable w
    later : (w w' : World) → Reachable w → Step w w' → Reachable w'
