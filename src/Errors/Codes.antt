-- ===== src/Errors/Codes.antt =====
-- Error codes and `nfs4_map_errors`: mynfs/nfs4proc.c. An error is named without its sign: the
-- errors of the protocol that the code names, those of the kernel that it names, and all others.
use mynfs.Base.{ℕ, Bool, true, false}

pub data Err : Type 0 where
  -- NFS4ERR_...
  badhandle deleg_revoked admin_revoked expired bad_stateid partner_no_auth openmode : Err
  stale_stateid stale_clientid moved lease_moved badsession badslot bad_high_slot : Err
  conn_not_bound_to_session deadsession seq_false_retry seq_misordered file_open delay : Err
  grace layouttrylater recallconflict returnconflict retry_uncached_rep old_stateid : Err
  badowner badname resource wrongsec wrong_cred share_denied minor_vers_mismatch not_same : Err
  other_nfs4err : ℕ → Err
  -- E...
  estale eremoteio eperm einval eacces eprotonosupport ebusy enotsync eio ebadf eintr : Err
  erestartsys eagain edeadlock : Err
  other_errno : ℕ → Err

-- Is the code `>= -1000`, one of the kernel?
abbrev pub is_errno : Err → Bool
is_errno estale = true
is_errno eremoteio = true
is_errno eperm = true
is_errno einval = true
is_errno eacces = true
is_errno eprotonosupport = true
is_errno ebusy = true
is_errno enotsync = true
is_errno eio = true
is_errno ebadf = true
is_errno eintr = true
is_errno erestartsys = true
is_errno eagain = true
is_errno edeadlock = true
is_errno (other_errno n) = true
is_errno _ = false

-- An `int` that the code returns: a result, or an error.
pub data Code : Type 0 where
  success : ℕ → Code
  fail : Err → Code

abbrev pub is_fail : Code → Bool
is_fail (success n) = false
is_fail (fail e) = true

-- Of an error of the protocol.
abbrev pub map_nfs4err : Err → Err
map_nfs4err resource = eremoteio
map_nfs4err layouttrylater = eremoteio
map_nfs4err recallconflict = eremoteio
map_nfs4err returnconflict = eremoteio
map_nfs4err wrongsec = eperm
map_nfs4err wrong_cred = eperm
map_nfs4err badowner = einval
map_nfs4err badname = einval
map_nfs4err share_denied = eacces
map_nfs4err minor_vers_mismatch = eprotonosupport
map_nfs4err file_open = ebusy
map_nfs4err not_same = enotsync
map_nfs4err _ = eio

unfoldable pub map_err : Err → Err
map_err e = elim (is_errno e) [ true ↦ e | false ↦ map_nfs4err e ]

unfoldable pub map_errors : Code → Code
unfolding map_err
map_errors (success n) = success n
map_errors (fail e) = fail (map_err e)
