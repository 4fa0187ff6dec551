-- ===== src/Sequence/Numbers.antt =====
-- The sequence numbers of a slot over any history of replies.
use mynfs.Base.{
  ℕ, zero, suc, ◌+◌, ◌^◌, ◌≤◌, ◌<◌, ◌≡◌, refl, if◌then◌else◌, Bool, true, false, not, ◌&&◌, ◌||◌,
  ap, ◌∙◌, replicate, List, [], ◌∷◌, length, Bool-cases, inl, inr, add32, sub32, is_pos32, arith,
}
use mynfs.Slot.Table.{Slot, new_slot}
use mynfs.Sequence.Reply.{
  SeqStatus, SeqTask, sequence_record_sent, sequence_acked, sequence_switch, sequence_reply,
  bump_slot, accepted, rpc_error, err_delay, err_retry_uncached_rep, err_seq_false_retry,
  err_badslot, err_seq_misordered, err_badsession, err_deadsession, err_conn_not_bound, err_other,
}

-- Where a number lies, counted around the 32-bit circle from `q`: the number in use lies after the
-- last one acknowledged, and it and the highest one sent are at most `n` away.
pub record IsAhead (q n : ℕ) (s : Slot) : Type 0 where
  pub fits : (s.seq_nr < 2 ^ 32) × (s.seq_nr_highest_sent < 2 ^ 32) × (s.seq_nr_last_acked < 2 ^ 32)
  pub after : sub32 s.seq_nr_last_acked q < sub32 s.seq_nr q
  pub near : sub32 s.seq_nr q ≤ n
  pub sent : sub32 s.seq_nr_highest_sent q ≤ n
  pub fresh : s.seq_done ≡ false

new_slot-IsAhead :
    (k seq_init : ℕ) → seq_init < 2 ^ 32 → IsAhead (sub32 seq_init 1) 1 (new_slot k seq_init)
unfolding new_slot
new_slot-IsAhead k q h = ground arith

-- One reply: the switch and then the release of the slot. Where the call is sent again on its slot,
-- no number is marked as done and the release would change nothing.
unfoldable pub after_reply : SeqStatus × SeqTask × ℕ → Slot → Slot
after_reply (status, task, target) s = bump_slot (sequence_reply status task target s).0

-- What a reply tells of the number that was sent: whether the server took it. This is read off the
-- reply alone.
abbrev pub acknowledges : SeqStatus × SeqTask × ℕ → Bool
acknowledges (accepted, task, target) = task.was_sent && not task.tk_deadsession
acknowledges (err_retry_uncached_rep, task, target) = task.was_sent && not task.tk_deadsession
acknowledges (err_seq_false_retry, task, target) = task.was_sent && not task.tk_deadsession
acknowledges (_, task, target) = false

-- What a step leaves: the last number acknowledged moves forward only, and reaches `a` if `ack`.
record Stepped (q n a : ℕ) (ack : Bool) (s s' : Slot) : Type 0 where
  ahead : IsAhead q (n + 1) s'
  forward : sub32 s.seq_nr_last_acked q ≤ sub32 s'.seq_nr_last_acked q
  reached : ack ≡ true → s'.seq_nr_last_acked ≡ a

module _ (q n : ℕ) (small : n < 2 ^ 30) (base : q < 2 ^ 32) where
  switch-Stepped :
      (status : SeqStatus) (task : SeqTask) (target : ℕ) (s : Slot)
      → IsAhead q n s
      → Stepped q n s.seq_nr
          (acknowledges (status, task, target))
          s
          (bump_slot (sequence_switch status task target s).0)
  unfolding sequence_switch bump_slot sequence_acked sequence_record_sent
  switch-Stepped accepted task target s v = ground arith
  switch-Stepped rpc_error task target s v = ground arith
  switch-Stepped err_delay task target s v = ground arith
  switch-Stepped err_retry_uncached_rep task target s v = ground arith
  switch-Stepped err_seq_false_retry task target s v = ground arith
  switch-Stepped err_badslot task target s v = ground arith
  switch-Stepped err_seq_misordered task target s v = ground arith
  switch-Stepped err_badsession task target s v = ground arith
  switch-Stepped err_deadsession task target s v = ground arith
  switch-Stepped err_conn_not_bound task target s v = ground arith
  switch-Stepped (err_other e) task target s v = ground arith

  -- A reply that is not looked at acknowledges nothing.
  unsent_silent :
      (status : SeqStatus) (task : SeqTask) (target : ℕ)
      → task.was_sent ≡ false
      → acknowledges (status, task, target) ≡ false
  unsent_silent accepted task target e = ground arith
  unsent_silent err_retry_uncached_rep task target e = ground arith
  unsent_silent err_seq_false_retry task target e = ground arith
  unsent_silent _ task target e = refl

  dead_silent :
      (status : SeqStatus) (task : SeqTask) (target : ℕ)
      → task.tk_deadsession ≡ true
      → acknowledges (status, task, target) ≡ false
  dead_silent accepted task target e = ground arith
  dead_silent err_retry_uncached_rep task target e = ground arith
  dead_silent err_seq_false_retry task target e = ground arith
  dead_silent _ task target e = refl

  skipped-Stepped :
      (a : ℕ) (ack : Bool) (s : Slot)
      → IsAhead q n s
      → ack ≡ false
      → Stepped q n a ack s (bump_slot s)
  unfolding bump_slot
  skipped-Stepped a ack s v e = ground arith

  sent-Stepped :
      (status : SeqStatus) (task : SeqTask) (target : ℕ) (s : Slot) (dead : Bool)
      → IsAhead q n s
      → task.tk_deadsession ≡ dead
      → Stepped q n s.seq_nr
          (acknowledges (status, task, target))
          s
          (bump_slot (sequence_switch (if dead then err_deadsession else status) task target s).0)
  unfolding sequence_switch
  sent-Stepped status task target s true v e =
      skipped-Stepped s.seq_nr _ s v (dead_silent status task target e)
  sent-Stepped status task target s false v e = switch-Stepped status task target s v

  after_reply-Stepped :
      (r : SeqStatus × SeqTask × ℕ) (s : Slot)
      → IsAhead q n s
      → Stepped q n s.seq_nr (acknowledges r) s (after_reply r s)
  unfolding after_reply sequence_reply
  after_reply-Stepped (status, task, target) s v =
      elim (Bool-cases (not task.was_sent || s.seq_done)) [
        | inl e ↦ rw e (
            skipped-Stepped s.seq_nr _ s v
              (unsent_silent status task target (ground (arith, v.fresh))))
        | inr e ↦ rw e (sent-Stepped status task target s task.tk_deadsession v refl)
      ]

pub replies : List (SeqStatus × SeqTask × ℕ) → Slot → Slot
replies [] s = s
replies (r ∷ rs) s = replies rs (after_reply r s)

-- The numbers that a history of replies acknowledges: for each reply by which the server took the
-- number, the one that the slot had when the call was sent.
abbrev pub acknowledged : List (SeqStatus × SeqTask × ℕ) → Slot → List ℕ
acknowledged [] s = []
acknowledged (r ∷ rs) s =
    let rest = acknowledged rs (after_reply r s) in if acknowledges r then s.seq_nr ∷ rest else rest

-- No number of a list lies farther from `q` than `m`.
abbrev AllUpTo : ℕ → ℕ → List ℕ → Type 0
AllUpTo q m [] = Unit {0}
AllUpTo q m (a ∷ acked) = (a < 2 ^ 32) × (sub32 a q ≤ m) × AllUpTo q m acked

-- All numbers of a list lie before `n`, so that `n` is none of them.
abbrev pub AllBefore : ℕ → List ℕ → Type 0
AllBefore n [] = Unit {0}
AllBefore n (a ∷ acked) = (is_pos32 (sub32 n a) ≡ true) × AllBefore n acked

AllUpTo-AllBefore :
    (q m n : ℕ) (acked : List ℕ)
    → q < 2 ^ 32
    → n < 2 ^ 32
    → m < sub32 n q
    → sub32 n q < 2 ^ 31
    → AllUpTo q m acked
    → AllBefore n acked
AllUpTo-AllBefore q m n [] hq hn h k u = tt
AllUpTo-AllBefore q m n (a ∷ acked) hq hn h k (b, c, u) =
    (ground (arith, b, c), AllUpTo-AllBefore q m n acked hq hn h k u)

-- A history, by its first reply.
record Followed (q n : ℕ) (acked : List ℕ) (s s' : Slot) : Type 0 where
  ahead : IsAhead q n s'
  forward : sub32 s.seq_nr_last_acked q ≤ sub32 s'.seq_nr_last_acked q
  up_to : AllUpTo q (sub32 s'.seq_nr_last_acked q) acked

follow-Followed :
    (q n m : ℕ) (ack : Bool) (acked : List ℕ) (s s' s'' : Slot)
    → IsAhead q n s
    → Stepped q n s.seq_nr ack s s'
    → Followed q m acked s' s''
    → Followed q m (if ack then s.seq_nr ∷ acked else acked) s s''
follow-Followed q n m true acked s s' s'' v p f = record {
  ahead = f.ahead;
  forward = omega (arith, p.forward, f.forward);
  up_to = (v.fits.0, omega (arith, ap (λ w. sub32 w q) (p.reached refl), f.forward), f.up_to);
}
follow-Followed q n m false acked s s' s'' v p f = record {
  ahead = f.ahead;
  forward = omega (arith, p.forward, f.forward);
  up_to = f.up_to;
}

replies-Followed :
    (q n : ℕ) (rs : List (SeqStatus × SeqTask × ℕ)) (s : Slot)
    → q < 2 ^ 32
    → n + length rs < 2 ^ 30
    → IsAhead q n s
    → Followed q (n + length rs) (acknowledged rs s) s (replies rs s)
unfolding replies
replies-Followed q n [] s b h v =
    let e : n + 0 ≡ n = omega arith in
    rw e (record { ahead = v; forward = omega arith; up_to = tt })
replies-Followed q n (r ∷ rs) s b h v =
    let e : n + suc (length rs) ≡ n + 1 + length rs = omega arith in
    let p = after_reply-Stepped q n (omega arith) b r s v in
    rw e (
      follow-Followed q n (n + 1 + length rs) (acknowledges r) (acknowledged rs (after_reply r s)) s
        (after_reply r s) (replies rs (after_reply r s)) v p
        (replies-Followed q (n + 1) rs (after_reply r s) b (omega arith) p.ahead))

-- Over any history of fewer than 2 ^ 30 - 1 replies to a fresh slot, of any kind and in any order,
-- the sequence number in use afterwards lies after every number by which a reply of the history says
-- that the server took it, counted around the 32-bit circle: an acknowledged number is never used
-- again. It also lies after the one that the slot keeps as the last acknowledged.
pub replies_never_reuse :
    (k seq_init : ℕ) (rs : List (SeqStatus × SeqTask × ℕ))
    → seq_init < 2 ^ 32
    → length rs + 1 < 2 ^ 30
    → let s = replies rs (new_slot k seq_init) in
      AllBefore s.seq_nr (acknowledged rs (new_slot k seq_init))
      × (is_pos32 (sub32 s.seq_nr s.seq_nr_last_acked) ≡ true)
replies_never_reuse k q rs hq h =
    let b : sub32 q 1 < 2 ^ 32 = omega arith in
    let f =
      replies-Followed (sub32 q 1) 1 rs (new_slot k q) b (omega arith) (new_slot-IsAhead k q hq) in
    let v = f.ahead in
    (
      AllUpTo-AllBefore (sub32 q 1) _ _ (acknowledged rs (new_slot k q)) b v.fits.0 v.after
          (omega (arith, v.near)) f.up_to,
      ground (arith, v.fits, v.after, v.near),
    )

-- An accepted reply acknowledges the number that was sent and moves on to the next one.
pub accepted_acknowledges :
    (task : SeqTask) (target : ℕ) (s : Slot)
    → task.was_sent ≡ true
    → task.tk_deadsession ≡ false
    → s.seq_done ≡ false
    → let s' = after_reply (accepted, task, target) s in
      (s'.seq_nr_last_acked ≡ s.seq_nr) × (s'.seq_nr ≡ add32 s.seq_nr 1) × (s'.seq_done ≡ false)
unfolding after_reply sequence_reply sequence_switch bump_slot
accepted_acknowledges task target s h d f = ground arith

-- The lone SEQUENCE after an interrupted call is answered "misordered" `k` times in a row.
abbrev pub misordered_replies : SeqTask → ℕ → ℕ → List (SeqStatus × SeqTask × ℕ)
misordered_replies task target k = replicate k (err_seq_misordered, task, target)

step_back :
    (k : ℕ) (task : SeqTask) (target : ℕ) (s : Slot)
    → task.was_sent ≡ true
    → task.tk_deadsession ≡ false
    → s.seq_done ≡ false
    → s.seq_nr < 2 ^ 32
    → s.seq_nr_last_acked < 2 ^ 32
    → suc k < 2 ^ 30
    → sub32 s.seq_nr s.seq_nr_last_acked ≡ suc (suc k)
    → let s' = after_reply (err_seq_misordered, task, target) s in
      (sub32 s'.seq_nr s'.seq_nr_last_acked ≡ suc k)
      × (s'.seq_nr < 2 ^ 32)
      × (s'.seq_done ≡ false)
      × (s'.seq_nr_last_acked ≡ s.seq_nr_last_acked)
unfolding after_reply sequence_reply sequence_switch bump_slot sequence_record_sent
step_back k task target s h d f b c n e = ground arith

-- A client whose number has run `k` ahead of the next one the server expects, because calls were
-- interrupted, gets back to it: after `k` answers "misordered" it uses exactly the number after the
-- last acknowledged one.
pub misordered_resync :
    (k : ℕ) (task : SeqTask) (target : ℕ) (s : Slot)
    → task.was_sent ≡ true
    → task.tk_deadsession ≡ false
    → s.seq_done ≡ false
    → s.seq_nr < 2 ^ 32
    → s.seq_nr_last_acked < 2 ^ 32
    → k < 2 ^ 30
    → sub32 s.seq_nr s.seq_nr_last_acked ≡ suc k
    → (replies (misordered_replies task target k) s).seq_nr ≡ add32 s.seq_nr_last_acked 1
unfolding replies
misordered_resync zero task target s h d f b c n e = ground arith
misordered_resync (suc k) task target s h d f b c n e =
    let (e', b', f', a) = step_back k task target s h d f b c n e in
    let t = after_reply (err_seq_misordered, task, target) s in
    misordered_resync k task target t h d f' b' (omega arith) (omega arith) e'
    ∙ ap (λ w. add32 w 1) a
