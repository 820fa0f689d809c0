-- ===== src/Asks/Invariant.antt =====
-- lib/asks.ts: every parked ask can still be answered.
use operator_oss.Base.{
  ℕ, ◌+◌, ◌≤◌, ◌<◌, ◌≡◌, refl, Bool, Option, none, some, List, [], ◌∷◌, String, eq_iff, arith, mem,
  All, All-append, All-filter, not, ◌==◌, Bool-cases, Option-cases, inl, inr,
}
use operator_oss.Maps.{get}
use operator_oss.Asks.{
  Pending, Listener, Asks, waiting, find_ask, remove_ask, no_asks, park, listen, wait_for_answer,
  is_aborted, submit_answer, on_abort, fire, abort_signal,
}
use operator_oss.Asks.Listeners.{HeardBy, heard_mono}
use operator_oss.Asks.Table.{find_ask-set, find_ask-remove_ask}

pub data Op (Q A : Type 0) : Type 0 where
  waits : String → String → Q → Option ℕ → Op Q A
  submits : String → String → A → (Q → Bool) → Op Q A
  aborts : ℕ → Op Q A

module _ {Q A : Type 0} where
  unfoldable pub step : Op Q A → Asks Q A → Asks Q A
  step (waits task ask q signal) s = wait_for_answer task ask q signal s
  step (submits task ask a persisted) s = (submit_answer task ask a persisted s).0
  step (aborts c) s = abort_signal c s

  unfoldable pub run : List (Op Q A) → Asks Q A → Asks Q A
  run [] s = s
  run (op ∷ ops) s = run ops (step op s)

  pub record IsSound (s : Asks Q A) : Type 0 where
    pub fresh : (n : ℕ) → s.next ≤ n → s.fate n ≡ waiting
    pub parked :
        (task ask : String) (p : Pending Q)
        → find_ask task ask s.registry ≡ some p
        → (s.fate p.promise ≡ waiting) × (p.promise < s.next)
    pub unshared :
        (task ask i j : String) (p q : Pending Q)
        → find_ask task ask s.registry ≡ some p
        → find_ask i j s.registry ≡ some q
        → p.promise ≡ q.promise
        → (task ≡ i) × (ask ≡ j)
    pub heard : All (HeardBy s.registry s.next) s.listeners

  old_heard :
      (task ask : String) (q : Q) (s : Asks Q A)
      → IsSound s
      → All
          (HeardBy
            (park task ask (record { questions = q; promise = s.next }) s.registry)
            (s.next + 1))
          s.listeners
  old_heard task ask q s v =
      heard_mono s.registry _ s.next (s.next + 1) s.listeners (omega arith)
        (λ i j x f. ground (
          arith,
          find_ask-set task ask i j (record { questions = q; promise = s.next }) s.registry,
        ))
        v.heard

  new_heard :
      (task ask : String) (q : Q) (signal : Option ℕ) (s : Asks Q A)
      → IsSound s
      → All
          (HeardBy
            (park task ask (record { questions = q; promise = s.next }) s.registry)
            (s.next + 1))
          (listen signal task ask s.next s.listeners)
  new_heard task ask q none s v = old_heard task ask q s v
  new_heard task ask q (some c) s v = All-append _ s.listeners (old_heard task ask q s v) (record {
    made = omega arith;
    own = λ i j x f same. ground (
      arith,
      find_ask-set task ask i j (record { questions = q; promise = s.next }) s.registry,
      v.parked i j x,
      eq_iff task i,
      eq_iff ask j,
    );
  })

  wait_for_answer-IsSound :
      (task ask : String) (q : Q) (signal : Option ℕ) (s : Asks Q A)
      → IsSound s
      → IsSound (wait_for_answer task ask q signal s)
  unfolding wait_for_answer
  wait_for_answer-IsSound task ask q signal s v = elim (Bool-cases (is_aborted signal s.aborted)) [
    | inl late ↦
        rw (late, wait_for_answer)
          (record {
            fresh = λ n h. ground (arith, v.fresh n);
            parked = λ i j x f. ground (arith, v.parked i j x);
            unshared = λ i j i' j' x y f g same. ground (arith, v.unshared i j i' j' x y);
            heard =
                heard_mono s.registry s.registry s.next (s.next + 1) s.listeners (omega arith)
                  (λ i j x f. inl f) v.heard;
          })
    | inr live ↦ elim (Option-cases (find_ask task ask s.registry)) [
      | inl e ↦
          rw (live, e, wait_for_answer)
            (record {
              fresh = λ n h. ground (arith, v.fresh n);
              parked = λ i j x f. ground (
                arith,
                find_ask-set task ask i j (record { questions = q; promise = s.next }) s.registry,
                v.parked i j x,
                v.fresh s.next,
              );
              unshared = λ i j i' j' x y f g same. ground (
                arith,
                find_ask-set task ask i j (record { questions = q; promise = s.next }) s.registry,
                find_ask-set task ask i' j' (record { questions = q; promise = s.next }) s.registry,
                v.parked i j x,
                v.parked i' j' y,
                v.unshared i j i' j' x y,
                eq_iff task i,
                eq_iff ask j,
                eq_iff task i',
                eq_iff ask j',
              );
              heard = new_heard task ask q signal s v;
            })
      | inr (old, e) ↦
          rw (live, e, wait_for_answer)
            (record {
              fresh = λ n h. ground (arith, v.fresh n, v.parked task ask old e);
              parked = λ i j x f. ground (
                arith,
                find_ask-set task ask i j (record { questions = q; promise = s.next }) s.registry,
                v.parked i j x,
                v.parked task ask old e,
                v.unshared task ask i j old x e,
                v.fresh s.next,
                eq_iff task i,
                eq_iff ask j,
              );
              unshared = λ i j i' j' x y f g same. ground (
                arith,
                find_ask-set task ask i j (record { questions = q; promise = s.next }) s.registry,
                find_ask-set task ask i' j' (record { questions = q; promise = s.next }) s.registry,
                v.parked i j x,
                v.parked i' j' y,
                v.unshared i j i' j' x y,
                eq_iff task i,
                eq_iff ask j,
                eq_iff task i',
                eq_iff ask j',
              );
              heard = new_heard task ask q signal s v;
            })
    ]
  ]

  submit_answer-IsSound :
      (task ask : String) (a : A) (persisted : Q → Bool) (s : Asks Q A)
      → IsSound s
      → IsSound (submit_answer task ask a persisted s).0
  unfolding submit_answer
  submit_answer-IsSound task ask a persisted s v =
      elim (Option-cases (find_ask task ask s.registry)) [
        | inl e ↦ rw (e, submit_answer) v
        | inr (p, e) ↦ elim (Bool-cases (persisted p.questions)) [
          | inr bad ↦ rw (e, bad, submit_answer) v
          | inl fine ↦
              rw (e, fine, submit_answer)
                (record {
                  fresh = λ n h. ground (arith, v.fresh n h, v.parked task ask p e);
                  parked = λ i j x f. ground (
                    arith,
                    find_ask-remove_ask task ask i j s.registry,
                    v.parked i j x,
                    v.unshared task ask i j p x e,
                    eq_iff task i,
                    eq_iff ask j,
                  );
                  unshared = λ i j i' j' x y f g same. ground (
                    arith,
                    find_ask-remove_ask task ask i j s.registry,
                    find_ask-remove_ask task ask i' j' s.registry,
                    v.unshared i j i' j' x y,
                  );
                  heard =
                      heard_mono s.registry (remove_ask task ask s.registry) s.next s.next
                        s.listeners (omega arith)
                        (λ i j x f. ground (arith, find_ask-remove_ask task ask i j s.registry))
                        v.heard;
                })
        ]
      ]

  on_abort-IsSound :
      (l : Listener) (s : Asks Q A)
      → HeardBy s.registry s.next l
      → IsSound s
      → IsSound (on_abort l s)
  unfolding on_abort
  on_abort-IsSound l s h v = record {
    fresh = λ n k. ground (arith, v.fresh n k, h.made);
    parked = λ i j x f. ground (
      arith,
      find_ask-remove_ask l.task l.ask i j s.registry,
      v.parked i j x,
      h.own i j x,
      eq_iff l.task i,
      eq_iff l.ask j,
    );
    unshared = λ i j i' j' x y f g same. ground (
      arith,
      find_ask-remove_ask l.task l.ask i j s.registry,
      find_ask-remove_ask l.task l.ask i' j' s.registry,
      v.unshared i j i' j' x y,
    );
    heard =
        heard_mono s.registry (remove_ask l.task l.ask s.registry) s.next s.next s.listeners
          (omega arith) (λ i j x f. ground (arith, find_ask-remove_ask l.task l.ask i j s.registry))
          v.heard;
  }

  fire-IsSound :
      (c : ℕ) (ls : List Listener) (s : Asks Q A)
      → All (HeardBy s.registry s.next) ls
      → IsSound s
      → IsSound (fire c ls s)
  unfolding fire
  fire-IsSound c [] s h v = v
  fire-IsSound c (l ∷ ls) s (h, hs) v = elim (Bool-cases (l.signal == c)) [
    | inr other ↦ rw other (fire-IsSound c ls s hs v)
    | inl own ↦ rw own (
        fire-IsSound c ls (on_abort l s)
          (unfold on_abort in
            heard_mono s.registry (remove_ask l.task l.ask s.registry) s.next s.next ls
              (omega arith)
              (λ i j x f. ground (arith, find_ask-remove_ask l.task l.ask i j s.registry)) hs)
          (on_abort-IsSound l s h v))
  ]

  abort_signal-IsSound : (c : ℕ) (s : Asks Q A) → IsSound s → IsSound (abort_signal c s)
  unfolding abort_signal
  abort_signal-IsSound c s v = elim (Bool-cases (mem c s.aborted)) [
    | inl again ↦ rw again v
    | inr first ↦ rw first (
        fire-IsSound c s.listeners _ v.heard (record {
          fresh = v.fresh;
          parked = v.parked;
          unshared = v.unshared;
          heard = All-filter _ (λ l. not (l.signal == c)) s.listeners v.heard;
        }))
  ]

  step-IsSound : (op : Op Q A) (s : Asks Q A) → IsSound s → IsSound (step op s)
  unfolding step
  step-IsSound (waits task ask q signal) s v = wait_for_answer-IsSound task ask q signal s v
  step-IsSound (submits task ask a persisted) s v = submit_answer-IsSound task ask a persisted s v
  step-IsSound (aborts c) s v = abort_signal-IsSound c s v

  run_from-IsSound : (ops : List (Op Q A)) (s : Asks Q A) → IsSound s → IsSound (run ops s)
  unfolding run
  run_from-IsSound [] s v = v
  run_from-IsSound (op ∷ ops) s v = run_from-IsSound ops (step op s) (step-IsSound op s v)

  -- After any sequence of waits, answers and aborts from no ask at all: the promise of every parked
  -- ask is still unsettled, no promise is parked under two asks, and a listener rejects only the
  -- promise of its own ask.
  pub run-IsSound : (ops : List (Op Q A)) → IsSound (run ops no_asks)
  unfolding get
  run-IsSound ops = run_from-IsSound ops no_asks (record {
    fresh = λ n h. refl;
    parked = λ i j p f. cc;
    unshared = λ i j i' j' p q f g same. cc;
    heard = tt;
  })
