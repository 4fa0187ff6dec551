-- ===== src/Pages/Request.antt =====
-- Requests of a page and the ring that joins a group of them: mynfs/pagelist.c. A request is named by a
-- number, and the store has its fields, each as a function of the name. A bit of `wb_flags` is a number.
use mynfs.Base.{
  ℕ, zero, suc, ◌==◌, if◌then◌else◌, Bool, true, false, ◌&&◌, Option, none, some, List,
}

-- `struct nfs_page`, with the requests of the inode and those that were freed, the last one first.
pub record Store : Type 0 where
  pub this_page : ℕ → ℕ  -- wb_this_page
  pub head : ℕ → ℕ  -- wb_head
  pub flag : ℕ → ℕ → Bool  -- wb_flags, the bit first
  pub kref : ℕ → ℕ  -- wb_kref
  pub nrequests : ℕ
  pub freed : List ℕ

-- A field written.
abbrev pub update {ℓ} : {A : Type ℓ} → (ℕ → A) → ℕ → A → ℕ → A
update f n a m = if m == n then a else f m

abbrev pub put_bit : ℕ → ℕ → Bool → Store → Store
put_bit bit n v s = record s { flag = λ b m. if b == bit && m == n then v else s.flag b m }

-- `while (tmp != req)`: do the requests from `tmp` on have the bit? `none` if the fuel runs out.
unfoldable pub others_set : ℕ → Store → ℕ → ℕ → ℕ → Option Bool
others_set zero s bit req tmp = none
others_set (suc fuel) s bit req tmp =
    let rest = others_set fuel s bit req (s.this_page tmp) in
    if tmp == req then some true else if s.flag bit tmp then rest else some false

-- `do ... while (tmp != req)`: the bit of each is cleared.
unfoldable pub reset_bits : ℕ → Store → ℕ → ℕ → ℕ → Option Store
reset_bits zero s bit req tmp = none
reset_bits (suc fuel) s bit req tmp =
    let s' = put_bit bit tmp false s in
    let rest = reset_bits fuel s' bit req (s.this_page tmp) in
    if s.this_page tmp == req then some s' else rest

abbrev pub with_answer : Bool → Option Store → Option (Bool × Store)
with_answer b none = none
with_answer b (some s) = some (b, s)

abbrev pub sync_after : ℕ → Store → ℕ → ℕ → Option Bool → Option (Bool × Store)
sync_after fuel s bit req none = none
sync_after fuel s bit req (some false) = some (false, s)
sync_after fuel s bit req (some true) = with_answer true (reset_bits fuel s bit req req)

-- `nfs_page_group_sync_on_bit_locked`
unfoldable pub sync_on_bit : ℕ → Store → ℕ → ℕ → Option (Bool × Store)
unfolding others_set reset_bits
sync_on_bit fuel s req bit =
    let s' = put_bit bit req true s in
    sync_after fuel s' bit req (others_set fuel s' bit req (s'.this_page req))
