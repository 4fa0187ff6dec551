-- ===== src/Nfs3/Calls.antt =====
-- The arguments of calls are read back from what was encoded, and take the space that was reserved.
use mynfs.Base.{
  ℕ, ◌+◌, ◌%◌, ◌^◌, ◌≤◌, ◌<◌, ◌≡◌, refl, ◌∙◌, ◌==◌, ltb, Bool, true, false, ◌||◌, Option, none,
  some, List, length, arith,
}
use mynfs.Nfs3.Stream.{XdrStream, Decoded, ok, ◌>>=◌, need}
use mynfs.Nfs3.Basic.{
  Time, FileHandle, Limits, encode_filename3, decode_inline_filename3, encode_nfs_fh3,
  decode_nfs_fh3, encode_nfstime3, encode_diropargs3,
}
use mynfs.Nfs3.Attributes.{
  Iattr, put_word_if, put_size_if, put_time_if, room_if, sattr3_nbytes, encode_sattr3,
  encode_sattrguard3, enc_setattr3args,
}
use mynfs.Nfs3.RoundTrip.{
  Sattr3, asked, IsIattr, IsGuard, read_sattr3, guard_time, read-encode_sattr3,
  decode-encode_nfstime3,
}

-- A handle and a name of legal size.
abbrev pub IsHandle : Limits → FileHandle → Type 0
IsHandle lim fh = (0 < length fh) × (length fh ≤ lim.fhsize) × (length fh < 2 ^ 32)

abbrev pub IsName : Limits → List ℕ → Type 0
IsName lim name = (length name ≤ lim.maxnamlen) × (length name < 2 ^ 32)

module _ {S : Type 0} (xdr : XdrStream S) where
  used-put_word_if :
      (b : Bool) (n : ℕ) (s : S) → xdr.used (put_word_if xdr b n s) ≡ 4 + room_if b 4 + xdr.used s
  used-put_word_if true n s =
      xdr.used-put_be32 1 (xdr.put_be32 n s) ∙ rw (xdr.used-put_be32 n s) (omega arith)
  used-put_word_if false n s = xdr.used-put_be32 0 s ∙ omega arith

  used-put_size_if :
      (b : Bool) (n : ℕ) (s : S) → xdr.used (put_size_if xdr b n s) ≡ 4 + room_if b 8 + xdr.used s
  used-put_size_if true n s =
      xdr.used-put_be32 1 (xdr.put_hyper n s) ∙ rw (xdr.used-put_hyper n s) (omega arith)
  used-put_size_if false n s = xdr.used-put_be32 0 s ∙ omega arith

  used-encode_nfstime3 : (t : Time) (s : S) → xdr.used (encode_nfstime3 xdr t s) ≡ 8 + xdr.used s
  unfolding encode_nfstime3
  used-encode_nfstime3 t s =
      xdr.used-put_be32 (t.tv_sec % 2 ^ 32) (xdr.put_be32 (t.tv_nsec % 2 ^ 32) s)
      ∙ rw (xdr.used-put_be32 (t.tv_nsec % 2 ^ 32) s) (omega arith)

  used-put_time_if :
      (set touched : Bool) (t : Time) (s : S)
      → xdr.used (put_time_if xdr set touched t s) ≡ 4 + room_if set 8 + xdr.used s
  used-put_time_if true touched t s =
      xdr.used-put_be32 2 (encode_nfstime3 xdr t s) ∙ rw (used-encode_nfstime3 t s) (omega arith)
  used-put_time_if false true t s = xdr.used-put_be32 1 s ∙ omega arith
  used-put_time_if false false t s = xdr.used-put_be32 0 s ∙ omega arith

  -- The attributes fill the space that was computed for them beforehand exactly, whichever are set.
  used-encode_sattr3 :
      (a : Iattr) (s : S) → xdr.used (encode_sattr3 xdr a s) ≡ sattr3_nbytes a + xdr.used s
  unfolding encode_sattr3 sattr3_nbytes
  used-encode_sattr3 a s =
      let s5 = put_time_if xdr a.attr_mtime_set a.attr_mtime a.ia_mtime s in
      let s4 = put_time_if xdr a.attr_atime_set a.attr_atime a.ia_atime s5 in
      let s3 = put_size_if xdr a.attr_size a.ia_size s4 in
      let s2 = put_word_if xdr a.attr_gid a.ia_gid s3 in
      let s1 = put_word_if xdr a.attr_uid a.ia_uid s2 in
      let e1 = used-put_word_if a.attr_mode (a.ia_mode % 2 ^ 12) s1 in
      let e2 = used-put_word_if a.attr_uid a.ia_uid s2 in
      let e3 = used-put_word_if a.attr_gid a.ia_gid s3 in
      let e4 = used-put_size_if a.attr_size a.ia_size s4 in
      let e5 = used-put_time_if a.attr_atime_set a.attr_atime a.ia_atime s5 in
      let e6 = used-put_time_if a.attr_mtime_set a.attr_mtime a.ia_mtime s in omega arith

module _ {S : Type 0} (xdr : XdrStream S) (lim : Limits) where
  decode-encode_nfs_fh3 :
      (fh : FileHandle) (s : S)
      → IsHandle lim fh
      → decode_nfs_fh3 xdr lim (encode_nfs_fh3 xdr fh s) ≡ ok (fh, s)
  unfolding decode_nfs_fh3 encode_nfs_fh3
  decode-encode_nfs_fh3 fh s (a, b, c) =
      let small : (ltb lim.fhsize (length fh) || length fh == 0) ≡ false = ground arith in
      rw (xdr.get_put_be32 (length fh) (xdr.put_bytes fh s) c, small, xdr.get_put_bytes fh s) refl

  decode-encode_filename3 :
      (name : List ℕ) (s : S)
      → IsName lim name
      → decode_inline_filename3 xdr lim (encode_filename3 xdr name s) ≡ ok (name, s)
  unfolding decode_inline_filename3 encode_filename3
  decode-encode_filename3 name s (a, b) =
      let small : ltb lim.maxnamlen (length name) ≡ false = ground arith in
      rw (xdr.get_put_be32 (length name) (xdr.put_bytes name s) b, small, xdr.get_put_bytes name s)
        refl

  -- `diropargs3` by the grammar of the protocol.
  unfoldable pub read_diropargs3 : S → Decoded ((FileHandle × List ℕ) × S)
  unfolding decode_nfs_fh3 decode_inline_filename3
  read_diropargs3 s = do
    (fh, s1) ← decode_nfs_fh3 xdr lim s
    (name, s2) ← decode_inline_filename3 xdr lim s1
    ok ((fh, name), s2)

  -- A directory's handle and a name of legal sizes are read back as they were, by the decoders of the
  -- client, and what follows them is left.
  pub read-encode_diropargs3 :
      (fh : FileHandle) (name : List ℕ) (s : S)
      → IsHandle lim fh
      → IsName lim name
      → read_diropargs3 (encode_diropargs3 xdr fh name s) ≡ ok ((fh, name), s)
  unfolding encode_diropargs3 read_diropargs3
  read-encode_diropargs3 fh name s h n =
      rw
        (decode-encode_nfs_fh3 fh (encode_filename3 xdr name s) h, decode-encode_filename3 name s n)
        refl

  unfoldable pub read_guard : S → Decoded (Option Time × S)
  unfolding guard_time
  read_guard s = need (xdr.get_be32 s) >>= λ r. guard_time xdr (r.0) (r.1)

  -- The arguments of SETATTR by the grammar of the protocol.
  unfoldable pub read_setattr3args : S → Decoded ((FileHandle × Sattr3 × Option Time) × S)
  unfolding decode_nfs_fh3 read_guard
  read_setattr3args s = do
    (fh, s1) ← decode_nfs_fh3 xdr lim s
    (sattr, s2) ← read_sattr3 xdr s1
    (guard, s3) ← read_guard s2
    ok ((fh, sattr, guard), s3)

  read-encode_sattrguard3 :
      (guard : Option Time) (s : S)
      → IsGuard guard
      → read_guard (encode_sattrguard3 xdr guard s) ≡ ok (guard, s)
  unfolding encode_sattrguard3 read_guard guard_time
  read-encode_sattrguard3 none s g = rw (xdr.get_put_be32 0 s (omega arith)) refl
  read-encode_sattrguard3 (some t) s g =
      rw
        (
          xdr.get_put_be32 1 (encode_nfstime3 xdr t s) (omega arith),
          decode-encode_nfstime3 xdr t s g,
        )
        refl

  -- The encoded arguments of SETATTR, read by the grammar of the protocol, ask for what the caller
  -- asked for: each attribute that is to be set, with its value, and no other; a time to be set with
  -- the time of the caller where there is one, with the server's else; and the guard.
  pub read-enc_setattr3args :
      (fh : FileHandle) (sattr : Iattr) (guard : Option Time) (s : S)
      → IsHandle lim fh
      → IsIattr sattr
      → IsGuard guard
      → read_setattr3args (enc_setattr3args xdr fh sattr guard s) ≡ ok ((fh, asked sattr, guard), s)
  unfolding enc_setattr3args read_setattr3args
  read-enc_setattr3args fh sattr guard s h a g =
      rw
        (
          decode-encode_nfs_fh3 fh (encode_sattr3 xdr sattr (encode_sattrguard3 xdr guard s)) h,
          read-encode_sattr3 xdr sattr (encode_sattrguard3 xdr guard s) a,
          read-encode_sattrguard3 guard s g,
        )
        refl
