-- ===== src/Pages/Group.antt =====
-- How requests join a group, and how the group is freed: mynfs/pagelist.c. `teardown` and `inode_ref`
-- are PG_TEARDOWN and PG_INODE_REF.
use mynfs.Base.{
  ℕ, zero, suc, ◌+◌, ◌-◌, ◌==◌, if◌then◌else◌, Bool, true, false, Option, none, some, ◌∷◌,
}
use mynfs.Pages.Request.{Store, update, put_bit, sync_on_bit}

abbrev pub kref_get : ℕ → Store → Store
kref_get n s = record s { kref = update s.kref n (s.kref n + 1) }

-- The reference of the write path, where the head has one.
abbrev pub group_ref : ℕ → ℕ → ℕ → Store → Store
group_ref inode_ref req head s =
    if s.flag inode_ref head
    then kref_get req (put_bit inode_ref req true (record s { nrequests = s.nrequests + 1 }))
    else s

unfoldable pub group_init : ℕ → Store → ℕ → Option ℕ → Store
group_init inode_ref s req none = record s {
  head = update s.head req req;
  this_page = update s.this_page req req;
}
group_init inode_ref s req (some prev) = group_ref inode_ref req (s.head prev) (
    kref_get (s.head prev) (record s {
      head = update s.head req (s.head prev);
      this_page = update (update s.this_page req (s.this_page prev)) prev req;
    }))

-- A request is unlinked and freed.
abbrev pub unlink_free : ℕ → Store → Store
unlink_free n s = record s {
  this_page = update s.this_page n n;
  head = update s.head n n;
  freed = n ∷ s.freed;
}

-- `do ... while (tmp != req)`: all of the ring are freed.
unfoldable pub free_ring : ℕ → Store → ℕ → ℕ → Option Store
free_ring zero s req tmp = none
free_ring (suc fuel) s req tmp =
    let s' = unlink_free tmp s in
    let rest = free_ring fuel s' req (s.this_page tmp) in
    if s.this_page tmp == req then some s' else rest

abbrev pub free_if : ℕ → ℕ → Option (Bool × Store) → Option Store
free_if fuel req none = none
free_if fuel req (some (false, s)) = some s
free_if fuel req (some (true, s)) = free_ring fuel s req req

-- What `nfs_page_group_destroy` does before `out`.
unfoldable pub destroy_synced : ℕ → ℕ → Store → ℕ → Option Store
unfolding free_ring sync_on_bit
destroy_synced teardown fuel s req = free_if fuel req (sync_on_bit fuel s req teardown)

-- After `out`: the release of the head.
abbrev pub put_head : (Store → Option Store) → Bool → Option Store → Option Store
put_head release is_head none = none
put_head release true (some s) = some s
put_head release false (some s) = release s

abbrev pub kref_drop : ℕ → Store → Store
kref_drop n s = record s { kref = update s.kref n (s.kref n - 1) }

-- `nfs_release_request`, whose last reference calls `nfs_page_group_destroy`, which releases the head
-- in its turn; `depth` bounds these calls.
unfoldable pub release_request : ℕ → ℕ → ℕ → ℕ → Store → Option Store
unfolding destroy_synced
release_request teardown fuel zero req s = none
release_request teardown fuel (suc depth) req s =
    let s' = kref_drop req s in
    elim (s.kref req - 1 == 0) [
      | true ↦
          put_head (release_request teardown fuel depth (s.head req)) (s.head req == req)
            (destroy_synced teardown fuel s' req)
      | false ↦ some s'
    ]
