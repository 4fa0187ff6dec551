-- ===== src/Open/Stateid.antt =====
-- Stateids and the order of their sequence numbers: mynfs/nfs4_fs.h.
use mynfs.Base.{
  ℕ, ◌^◌, ◌<◌, ◌≡◌, ◌≢◌, ◌==◌, if◌then◌else◌, Bool, true, false, not, ◌&&◌, ◌||◌, add32, sub32,
  is_pos32, arith,
}

-- `nfs4_stateid`; the twelve bytes of `other` are one number.
pub record Stateid : Type 0 where
  pub kind : ℕ  -- type
  pub seqid : ℕ
  pub other : ℕ

abbrev pub match_other : Stateid → Stateid → Bool
match_other dst src = dst.other == src.other

abbrev pub same_stateid : Stateid → Stateid → Bool
same_stateid dst src = dst.kind == src.kind && (dst.seqid == src.seqid && dst.other == src.other)

unfoldable pub is_newer : Stateid → Stateid → Bool
is_newer s1 s2 = is_pos32 (sub32 s1.seqid s2.seqid)

unfoldable pub is_next : Stateid → Stateid → Bool
is_next s1 s2 = s2.seqid == add32 s1.seqid 1 || (s2.seqid == 1 && s1.seqid == 0xffff_ffff)

unfoldable pub match_or_older : Stateid → Stateid → Bool
unfolding is_newer
match_or_older dst src = match_other dst src && not (not (src.seqid == 0) && is_newer dst src)

unfoldable pub seqid_inc : Stateid → Stateid
seqid_inc s1 =
    let seqid = add32 s1.seqid 1 in
    record s1 { seqid = if seqid == 0 then add32 seqid 1 else seqid }

-- Counting a stateid's number on gives the next one, that is never 0, and what is next is newer, all
-- around the 32-bit circle; being newer does not go both ways.
pub seqid_inc-is_next :
    (s t : Stateid)
    → s.seqid < 2 ^ 32
    → t.seqid < 2 ^ 32
    → (is_next s (seqid_inc s) ≡ true)
      × ((seqid_inc s).seqid ≢ 0)
      × (is_next s t ≡ true → is_newer t s ≡ true)
      × (is_newer t s ≡ true → is_newer s t ≡ false)
unfolding is_next seqid_inc is_newer
seqid_inc-is_next s t h k = (ground arith, ground arith, λ e. ground arith, λ e. ground arith)
