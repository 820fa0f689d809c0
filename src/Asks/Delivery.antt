-- ===== src/Asks/Delivery.antt =====
-- lib/asks.ts: what an answer and an abort deliver, and the outcome that is taken once.
use mathlib.Core.List.{Memᴰ}
use operator_oss.Base.{
  ℕ, ◌≡◌, refl, inl, inr, ◌⊎◌, Bool, true, false, none, some, List, [], ◌∷◌, String, str_eq, eq_iff,
  arith, mem, if◌then◌else◌, ◌&&◌, ◌==◌, Bool-cases, Option-cases, subst,
}
use operator_oss.Maps.{set, get-set, get-delete, get-set_self, get-delete_self}
use operator_oss.Asks.{
  Pending, Listener, Asks, answered, is_waiting, find_ask, submit_answer, on_abort, fire,
  abort_signal, settle_ask, take_ask_outcome, outcome_key,
}
use operator_oss.Asks.Table.{find_ask-remove_ask}
use operator_oss.Asks.Invariant.{IsSound}

module _ {Q A : Type 0} where
  -- An answer to a parked ask whose persistence succeeds settles the ask's promise with the answer
  -- and no other promise, takes the ask and no other out of the table, and a second answer finds
  -- nothing to settle.
  pub submit_answer_delivers :
      (task ask : String) (a : A) (persisted : Q → Bool) (s : Asks Q A) (p : Pending Q)
      (i j : String) (n : ℕ)
      → IsSound s
      → find_ask task ask s.registry ≡ some p
      → persisted p.questions ≡ true
      → ((submit_answer task ask a persisted s).1 ≡ some true)
        × ((submit_answer task ask a persisted s).0.fate n
            ≡ (if p.promise == n then answered a else s.fate n))
        × (find_ask i j (submit_answer task ask a persisted s).0.registry
            ≡ (if str_eq task i && str_eq ask j then none else find_ask i j s.registry))
        × ((submit_answer task ask a persisted (submit_answer task ask a persisted s).0).1
            ≡ some false)
  unfolding submit_answer
  submit_answer_delivers task ask a persisted s p i j n v e fine = (
    ground arith,
    ground (arith, v.parked task ask p e),
    ground (arith, find_ask-remove_ask task ask i j s.registry),
    ground
        (arith, find_ask-remove_ask task ask task ask s.registry, eq_iff task task, eq_iff ask ask),
  )

  -- An answer that finds no parked ask, or whose persistence fails, changes nothing; only the first
  -- is reported to the caller as undelivered, the second fails the call.
  pub submit_answer_refused :
      (task ask : String) (a : A) (persisted : Q → Bool) (s : Asks Q A)
      → ((submit_answer task ask a persisted s).1 ≡ some true)
        ⊎ ((submit_answer task ask a persisted s ≡ (s, some false))
            × (find_ask task ask s.registry ≡ none))
        ⊎ ((submit_answer task ask a persisted s ≡ (s, none))
            × ((p : Pending Q) × (find_ask task ask s.registry ≡ some p)
                × (persisted p.questions ≡ false)))
  unfolding submit_answer
  submit_answer_refused task ask a persisted s =
      elim (Option-cases (find_ask task ask s.registry)) [
        | inl e ↦ inr (inl (ground arith, e))
        | inr (p, e) ↦ elim (Bool-cases (persisted p.questions)) [
          | inl fine ↦ inl (ground arith)
          | inr bad ↦ inr (inr (ground arith, (p, e, bad)))
        ]
      ]

  fire_keeps :
      (c : ℕ) (ls : List Listener) (s : Asks Q A) (n : ℕ)
      → is_waiting (s.fate n) ≡ false
      → (fire c ls s).fate n ≡ s.fate n
  unfolding fire on_abort
  fire_keeps c [] s n h = refl
  fire_keeps c (l ∷ ls) s n h =
      ground (arith, fire_keeps c ls (if l.signal == c then on_abort l s else s) n)

  settled_now :
      (c : ℕ) (x : Listener) (s : Asks Q A) (l : Listener)
      → l ≡ x
      → l.signal ≡ c
      → is_waiting ((if x.signal == c then on_abort x s else s).fate l.promise) ≡ false
  unfolding on_abort
  settled_now c x s l h e =
      subst
        (λ (y : Listener).
          is_waiting ((if y.signal == c then on_abort y s else s).fate l.promise) ≡ false)
        h (ground arith)

  fire_settles :
      (c : ℕ) (ls : List Listener) (s : Asks Q A) (l : Listener)
      → Memᴰ l ls
      → l.signal ≡ c
      → is_waiting ((fire c ls s).fate l.promise) ≡ false
  unfolding fire on_abort
  fire_settles c [] s l m e = elim m [ ]
  fire_settles c (x ∷ ls) s l (Memᴰ.tail m) e = fire_settles c ls _ l m e
  fire_settles c (x ∷ ls) s l (Memᴰ.head h) e = ground (
    arith,
    settled_now c x s l h e,
    fire_keeps c ls (if x.signal == c then on_abort x s else s) l.promise,
  )

  fire_only :
      (c : ℕ) (ls : List Listener) (s : Asks Q A) (n : ℕ)
      → ((fire c ls s).fate n ≡ s.fate n)
        ⊎ ((l : Listener) × Memᴰ l ls × (l.signal ≡ c) × (l.promise ≡ n))
  unfolding fire on_abort
  fire_only c [] s n = inl refl
  fire_only c (l ∷ ls) s n = elim (fire_only c ls (if l.signal == c then on_abort l s else s) n) [
    | inr (x, m, e, p) ↦ inr (x, Memᴰ.tail m, e, p)
    | inl e ↦ elim (Bool-cases (l.signal == c && l.promise == n)) [
      | inl own ↦ inr (l, Memᴰ.head refl, ground arith, ground arith)
      | inr other ↦ inl (ground arith)
    ]
  ]

  -- An abort of an untripped signal settles the promise of each ask that listens on it, and changes
  -- the fate of no promise but those.
  pub abort_signal_settles :
      (c : ℕ) (s : Asks Q A) (l : Listener) (n : ℕ)
      → mem c s.aborted ≡ false
      → Memᴰ l s.listeners
      → l.signal ≡ c
      → (is_waiting ((abort_signal c s).fate l.promise) ≡ false)
        × (((abort_signal c s).fate n ≡ s.fate n)
            ⊎ ((x : Listener) × Memᴰ x s.listeners × (x.signal ≡ c) × (x.promise ≡ n)))
  unfolding abort_signal
  abort_signal_settles c s l n first m e =
      rw first (fire_settles c s.listeners _ l m e, fire_only c s.listeners _ n)

-- The bridge gets an ask's outcome once: a take after the settling returns its text, the next take
-- nothing, and asks with another key keep theirs.
pub take_ask_outcome_once :
    (task ask text : String) (i j : String) (outcomes : List (String × String))
    → ((take_ask_outcome task ask (settle_ask task ask text outcomes)).1 ≡ some text)
      × ((take_ask_outcome task ask
            (take_ask_outcome task ask (settle_ask task ask text outcomes)).0).1
          ≡ none)
      × ((outcome_key task ask ≡ outcome_key i j)
          ⊎ ((take_ask_outcome i j
                (take_ask_outcome task ask (settle_ask task ask text outcomes)).0).1
              ≡ (take_ask_outcome i j outcomes).1))
unfolding take_ask_outcome settle_ask
take_ask_outcome_once task ask text i j outcomes =
    let k = outcome_key task ask in
    let m = set k text outcomes in
    (
      ground (arith, get-set_self k text outcomes),
      ground (arith, get-set_self k text outcomes, get-delete_self k m),
      elim (Bool-cases (str_eq k (outcome_key i j))) [
        | inl same ↦ inl ((eq_iff k (outcome_key i j)).0 same)
        | inr other ↦ inr (
            ground (
              arith,
              get-set_self k text outcomes,
              get-delete k (outcome_key i j) m,
              get-set k (outcome_key i j) text outcomes,
            ))
      ],
    )
