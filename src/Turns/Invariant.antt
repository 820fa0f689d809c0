-- ===== src/Turns/Invariant.antt =====
-- lib/abort.ts: what holds of the turn registry between calls, and that every call keeps it. `late`
-- names the tasks whose deletion was ended while their turn was still registered.
use operator_oss.Base.{
  ℕ, ◌<◌, ◌≡◌, true, ◌||◌, some, List, ◌∷◌, String, eq_iff, arith, mem, if◌then◌else◌,
}
use operator_oss.Maps.{get, has, get-set, get-delete}
use operator_oss.Sets.{member, member-add, member-remove}
use operator_oss.Turns.{
  Registry, claim_turn, handoff_turn, unregister_turn, abort_turn, begin_task_deletion,
  end_task_deletion,
}

pub record IsWellFormed (late : List String) (s : Registry) : Type 0 where
  pub allocated : (id : String) (c : ℕ) → get id s.turns ≡ some c → c < s.next
  pub unshared :
      (id id' : String) (c : ℕ) → get id s.turns ≡ some c → get id' s.turns ≡ some c → id ≡ id'
  pub tripped : (c : ℕ) → mem c s.aborted ≡ true → c < s.next
  pub stopped :
      (id : String) (c : ℕ)
      → get id s.turns ≡ some c
      → mem c s.aborted ≡ true
      → (member id s.deleting || member id late) ≡ true

pub claim_turn-IsWellFormed :
    (id : String) (late : List String) (s : Registry)
    → IsWellFormed late s
    → IsWellFormed late (claim_turn id s).0
unfolding claim_turn
claim_turn-IsWellFormed id late s v = record {
  allocated = λ i c e. ground (arith, get-set id i s.next s.turns, v.allocated i c);
  unshared = λ i j c e f. ground (
    arith,
    get-set id i s.next s.turns,
    get-set id j s.next s.turns,
    v.allocated i c,
    v.allocated j c,
    v.unshared i j c,
    eq_iff id i,
    eq_iff id j,
  );
  tripped = λ c e. ground (arith, v.tripped c);
  stopped = λ i c e f. ground (arith, get-set id i s.next s.turns, v.tripped c, v.stopped i c);
}

pub handoff_turn-IsWellFormed :
    (id : String) (prev : ℕ) (late : List String) (s : Registry)
    → IsWellFormed late s
    → IsWellFormed late (handoff_turn id prev s).0
unfolding handoff_turn
handoff_turn-IsWellFormed id prev late s v = record {
  allocated = λ i c e. ground (arith, get-set id i s.next s.turns, v.allocated i c);
  unshared = λ i j c e f. ground (
    arith,
    get-set id i s.next s.turns,
    get-set id j s.next s.turns,
    v.allocated i c,
    v.allocated j c,
    v.unshared i j c,
    eq_iff id i,
    eq_iff id j,
  );
  tripped = λ c e. ground (arith, v.tripped c);
  stopped = λ i c e f. ground (arith, get-set id i s.next s.turns, v.tripped c, v.stopped i c);
}

pub unregister_turn-IsWellFormed :
    (id : String) (k : ℕ) (late : List String) (s : Registry)
    → IsWellFormed late s
    → IsWellFormed late (unregister_turn id k s)
unfolding unregister_turn
unregister_turn-IsWellFormed id k late s v = record {
  allocated = λ i c e. ground (arith, get-delete id i s.turns, v.allocated i c);
  unshared = λ i j c e f.
      ground (arith, get-delete id i s.turns, get-delete id j s.turns, v.unshared i j c);
  tripped = λ c e. ground (arith, v.tripped c);
  stopped = λ i c e f. ground (arith, get-delete id i s.turns, v.stopped i c);
}

pub abort_turn-IsWellFormed :
    (id : String) (late : List String) (s : Registry)
    → IsWellFormed late s
    → IsWellFormed late (abort_turn id s).0
unfolding abort_turn
abort_turn-IsWellFormed id late s v = record {
  allocated = λ i c e. ground (arith, get-delete id i s.turns, v.allocated i c);
  unshared = λ i j c e f.
      ground (arith, get-delete id i s.turns, get-delete id j s.turns, v.unshared i j c);
  tripped = λ c e. ground (arith, v.tripped c, v.allocated id c);
  stopped = λ i c e f.
      ground (arith, get-delete id i s.turns, v.stopped i c, v.unshared id i c, eq_iff id i);
}

pub begin_task_deletion-IsWellFormed :
    (id : String) (late : List String) (s : Registry)
    → IsWellFormed late s
    → IsWellFormed late (begin_task_deletion id s).0
unfolding begin_task_deletion
begin_task_deletion-IsWellFormed id late s v = record {
  allocated = λ i c e. ground (arith, v.allocated i c);
  unshared = λ i j c e f. ground (arith, v.unshared i j c);
  tripped = λ c e. ground (arith, v.tripped c, v.allocated id c);
  stopped = λ i c e f.
      ground (arith, v.stopped i c, v.unshared id i c, eq_iff id i, member-add id i s.deleting);
}

unfoldable pub late_after : String → Registry → List String → List String
late_after id s late = if has id s.turns then id ∷ late else late

pub end_task_deletion-IsWellFormed :
    (id : String) (late : List String) (s : Registry)
    → IsWellFormed late s
    → IsWellFormed (late_after id s late) (end_task_deletion id s)
unfolding end_task_deletion late_after member
end_task_deletion-IsWellFormed id late s v = record {
  allocated = λ i c e. ground (arith, v.allocated i c);
  unshared = λ i j c e f. ground (arith, v.unshared i j c);
  tripped = λ c e. ground (arith, v.tripped c);
  stopped = λ i c e f. ground (arith, v.stopped i c, eq_iff id i, member-remove id i s.deleting);
}
