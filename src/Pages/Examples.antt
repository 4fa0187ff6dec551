-- ===== src/Pages/Examples.antt =====
-- The theorems about page groups applied to a group of three requests.
use mynfs.Base.{ℕ, ◌+◌, ◌==◌, ◌&&◌, ◌≡◌, refl, true, false, some, none, [], ◌∷◌, arith}
use mynfs.Pages.Request.{Store, update}
use mynfs.Pages.Group.{group_init, release_request}
use mynfs.Pages.Ring.{Group, mem}
use mynfs.Pages.Barrier.{calls, calls_barrier}
use mynfs.Pages.Freed.{pile}
use mynfs.Pages.Held.{Held, Released, in_use}
use mynfs.Pages.Joined.{group_init-Held, group_init-alone}
use mynfs.Pages.Released.{release_request-Released}
use mynfs.Pages.Life.{releases, releases_free_once}

-- New requests, with one reference each.
abbrev blank : Store
blank = record {
  this_page = λ n. 0;
  head = λ n. 0;
  flag = λ b n. false;
  kref = λ n. 1;
  nrequests = 0;
  freed = [];
}

-- PG_TEARDOWN is 1 here, and PG_INODE_REF 9; the head is 4.
abbrev alone : Store
unfolding group_init
alone = group_init 9 blank 4 none

abbrev pair : Store
unfolding alone
pair = group_init 9 alone 5 (some 4)

abbrev trio : Store
unfolding pair
trio = group_init 9 pair 6 (some 5)

abbrev one : ℕ → ℕ
one n = 1

alone-Held : Held 1 4 [] one alone
unfolding alone
alone-Held = group_init-alone 1 9 4 blank refl refl

pair-Held : Held 1 4 (5 ∷ []) (update one 5 1) pair
unfolding pair
pair-Held = (group_init-Held 1 4 [] one alone 4 5 alone-Held refl refl refl 9 refl refl refl).0

abbrev ones : ℕ → ℕ
ones = update (update one 5 1) 6 1

trio-Held : Held 1 4 (5 ∷ 6 ∷ []) ones trio
unfolding trio
trio-Held =
    (group_init-Held 1 4 (5 ∷ []) (update one 5 1) pair 5 6 pair-Held refl refl refl 9 refl refl
      refl).0

-- The head alone, with a reference of the write path.
abbrev written : Store
unfolding alone
written = record alone { flag = λ b n. b == 9 && n == 4; kref = update alone.kref 4 2 }

written-Held : Held 1 4 [] (update one 4 2) written
unfolding written alone
written-Held = record {
  group = record { ring = alone-Held.group.ring; distinct_members = refl };
  heads = alone-Held.heads;
  sub_refs = λ n p. absurd (cc);
  head_refs = refl;
  torn = λ n p. absurd (cc);
  head_flag = refl;
}

group_init-Held_example :
    let s' = group_init 9 written 5 (some 4) in
    Held 1 4 (5 ∷ []) (update (update one 4 2) 5 2) s'
    × (s'.nrequests ≡ 1)
    × (s'.flag 9 5 ≡ true)
    × (s'.freed ≡ [])
unfolding written alone
group_init-Held_example =
    group_init-Held 1 4 [] (update one 4 2) written 4 5 written-Held refl refl refl 9 refl refl refl

calls_barrier_example :
    (s' : Store) × (calls 3 7 (6 ∷ 4 ∷ 5 ∷ []) trio ≡ some (false ∷ false ∷ true ∷ [], s'))
    × ((n : ℕ) → mem n (4 ∷ 5 ∷ 6 ∷ []) ≡ true → s'.flag 7 n ≡ false)
    × Group s' 4 (5 ∷ 6 ∷ [])
unfolding trio
calls_barrier_example =
    calls_barrier 3 7 4 (5 ∷ 6 ∷ []) (omega arith) 5 refl (6 ∷ 4 ∷ []) trio trio-Held.group
      (λ n m. refl) refl refl refl

release_request-Released_example :
    (s' : Store) × (release_request 1 3 2 5 trio ≡ some s')
    × Released 1 4
        (5 ∷ 6 ∷ [])
        (update ones 5 0 4 + in_use (update ones 5 0) (5 ∷ 6 ∷ []))
        (update ones 5 0)
        trio.freed
        s'
release_request-Released_example =
    release_request-Released 1 4 (5 ∷ 6 ∷ []) 3 (omega arith) ones trio 5 0 0 trio-Held refl refl

releases_free_once_example :
    (s' : Store) × (releases 1 3 (6 ∷ 4 ∷ 5 ∷ []) trio ≡ some s')
    × (s'.freed ≡ pile (4 ∷ 5 ∷ 6 ∷ []) trio.freed)
releases_free_once_example =
    releases_free_once 1 4 (5 ∷ 6 ∷ []) 3 (omega arith) ones trio 6 (4 ∷ 5 ∷ []) trio-Held refl
      (λ n m. ground (arith, m))
