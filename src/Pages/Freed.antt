-- ===== src/Pages/Freed.antt =====
-- The loop that frees a group (mynfs/pagelist.c).
use mynfs.Base.{
  ℕ, zero, suc, ◌<◌, ◌==◌, ◌≡◌, refl, sym, subst, true, false, some, List, [], ◌∷◌, length, arith,
  ==_iff,
}
use mynfs.Pages.Request.{Store, update}
use mynfs.Pages.Group.{unlink_free, free_ring}
use mynfs.Pages.Ring.{Chain, Group, mem, distinct}

-- A list put on another one by one.
abbrev pub pile : List ℕ → List ℕ → List ℕ
pile [] base = base
pile (m ∷ ms) base = pile ms (m ∷ base)

abbrev unlink_all : List ℕ → Store → Store
unlink_all [] s = s
unlink_all (m ∷ ms) s = unlink_all ms (unlink_free m s)

unlink_all-freed : (ms : List ℕ) (s : Store) → (unlink_all ms s).freed ≡ pile ms s.freed
unlink_all-freed [] s = refl
unlink_all-freed (m ∷ ms) s = unlink_all-freed ms (unlink_free m s)

pub update_other : (f : ℕ → ℕ) (n v m : ℕ) → (m == n) ≡ false → update f n v m ≡ f m
update_other f n v m h = ground (arith, h)

-- A pointer outside a chain may change.
pub Chain-update :
    (next : ℕ → ℕ) (n v a : ℕ) (ms : List ℕ) (e : ℕ)
    → mem n ms ≡ false
    → Chain next a ms e
    → Chain (update next n v) a ms e
Chain-update next n v a [] e h c = c
Chain-update next n v a (m ∷ ms) e h (p, c) = (
  p,
  subst (λ t. Chain (update next n v) t ms e) (sym (update_other next n v m (ground arith)))
      (Chain-update next n v (next m) ms e (ground (arith, h)) c),
)

free_ring-unlink_all :
    (ms : List ℕ) (fuel : ℕ) (s : Store) (req tmp : ℕ)
    → Chain s.this_page (s.this_page tmp) ms req
    → mem req ms ≡ false
    → distinct (tmp ∷ ms) ≡ true
    → length ms < fuel
    → free_ring fuel s req tmp ≡ some (unlink_all (tmp ∷ ms) s)
unfolding free_ring
free_ring-unlink_all [] zero s req tmp c a d f = absurd (omega arith)
free_ring-unlink_all (m ∷ ms) zero s req tmp c a d f = absurd (omega arith)
free_ring-unlink_all [] (suc fuel) s req tmp c a d f = rw ((==_iff (s.this_page tmp) req).1 c) refl
free_ring-unlink_all (m ∷ ms) (suc fuel) s req tmp (c, cs) a d f =
    let differ : (m == req) ≡ false = ground (arith, a) in
    let unlinked = unlink_free tmp s in
    rw c (
      rw differ (
        free_ring-unlink_all ms fuel unlinked req m
          (subst (λ t. Chain unlinked.this_page t ms req)
            (sym (update_other s.this_page tmp tmp m (ground (arith, d))))
            (Chain-update s.this_page tmp tmp (s.this_page m) ms req (ground (arith, d)) cs))
          (ground (arith, a)) (ground (arith, d)) (omega arith)))

-- From the head on, every member is freed once, in the order of the ring.
pub free_ring-freed :
    (fuel : ℕ) (s : Store) (h : ℕ) (subs : List ℕ)
    → Group s h subs
    → length subs < fuel
    → (s' : Store) × (free_ring fuel s h h ≡ some s') × (s'.freed ≡ pile (h ∷ subs) s.freed)
free_ring-freed fuel s h subs g f = (
  unlink_all (h ∷ subs) s,
  free_ring-unlink_all subs fuel s h h g.ring (ground (arith, g.distinct_members))
      g.distinct_members f,
  unlink_all-freed (h ∷ subs) s,
)
