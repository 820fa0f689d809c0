-- ===== src/Asks.antt =====
-- lib/asks.ts: the questions on which a turn is parked, and the outcomes for the polling bridge.
-- A promise is the number of its creation, `fate` says how it stands, and the first settlement wins.
-- Listeners on an abort signal fire in the order in which they were added.
pub mod Table
pub mod Listeners
pub mod Invariant
pub mod Delivery
use Prim.Native.String.{◌++◌ as join}
use operator_oss.Base.{
  ℕ, suc, ◌+◌, Bool, true, false, not, Option, none, some, List, [], ◌∷◌, ◌++◌, String, ◌==◌,
  if◌then◌else◌, length, mem, filter,
}
use operator_oss.Maps.{get, set, delete}

pub data Reason : Type 0 where
  stopped superseded : Reason  -- `new Error("aborted")`, `new Error("superseded")`

pub data Fate (A : Type 0) : Type 0 where
  waiting : Fate A
  answered : A → Fate A
  rejected : Reason → Fate A

abbrev pub is_waiting : {A : Type 0} → Fate A → Bool
is_waiting waiting = true
is_waiting _ = false

pub record Pending (Q : Type 0) : Type 0 where
  pub questions : Q
  pub promise : ℕ

pub record Listener : Type 0 where
  pub signal : ℕ
  pub task : String
  pub ask : String
  pub promise : ℕ

pub record Asks (Q A : Type 0) : Type 0 where
  pub registry : List (String × List (String × Pending Q))
  pub next : ℕ  -- promises created so far
  pub fate : ℕ → Fate A
  pub listeners : List Listener
  pub aborted : List ℕ

-- The first call of a promise's `resolve` or `reject` decides it.
abbrev pub settle_promise : {A : Type 0} → ℕ → Fate A → (ℕ → Fate A) → ℕ → Fate A
settle_promise n f fate m = if n == m then (if is_waiting (fate m) then f else fate m) else fate m

abbrev is_aborted : Option ℕ → List ℕ → Bool
is_aborted none cs = false
is_aborted (some c) cs = mem c cs

abbrev listen : Option ℕ → String → String → ℕ → List Listener → List Listener
listen none task ask n ls = ls
listen (some c) task ask n ls =
    ls ++ (record { signal = c; task = task; ask = ask; promise = n } ∷ [])

module _ {Q : Type 0} where
  abbrev pub by_ask : String → List (String × List (String × Pending Q)) → List (String × Pending Q)
  by_ask task r = elim (get task r) [ none ↦ [] | some asks ↦ asks ]

  -- `registry().get(taskId)?.get(askId)`.
  abbrev pub find_ask :
      String → String → List (String × List (String × Pending Q)) → Option (Pending Q)
  find_ask task ask r = get ask (by_ask task r)

  abbrev pub park :
      String
      → String
      → Pending Q
      → List (String × List (String × Pending Q))
      → List (String × List (String × Pending Q))
  park task ask p r = set task (set ask p (by_ask task r)) r

  -- `remove` on a present ask; on a missing one it does nothing.
  unfoldable pub remove_ask :
      String
      → String
      → List (String × List (String × Pending Q))
      → List (String × List (String × Pending Q))
  remove_ask task ask r = elim (find_ask task ask r) [
    | none ↦ r
    | some p ↦
        let rest = delete ask (by_ask task r) in
        if length rest == 0 then delete task r else set task rest r
  ]

module _ {Q A : Type 0} where
  abbrev pub no_asks : Asks Q A
  no_asks = record { registry = []; next = 0; fate = λ n. waiting; listeners = []; aborted = [] }

  abbrev supersede : Option (Pending Q) → (ℕ → Fate A) → ℕ → Fate A
  supersede none fate = fate
  supersede (some old) fate = settle_promise old.promise (rejected superseded) fate

  -- The executor of the promise `s.next`.
  unfoldable pub wait_for_answer : String → String → Q → Option ℕ → Asks Q A → Asks Q A
  wait_for_answer task ask questions signal s =
      if is_aborted signal s.aborted
      then record s { next = s.next + 1; fate = settle_promise s.next (rejected stopped) s.fate }
      else record s {
        registry = park task ask (record { questions = questions; promise = s.next }) s.registry;
        next = s.next + 1;
        fate = supersede (find_ask task ask s.registry) s.fate;
        listeners = listen signal task ask s.next s.listeners;
      }

  -- `beforeResolve` gets the questions, and fails where persistence fails.
  unfoldable pub submit_answer :
      String → String → A → (Q → Bool) → Asks Q A → Asks Q A × Option Bool
  submit_answer task ask answers persisted s = elim (find_ask task ask s.registry) [
    | none ↦ (s, some false)
    | some p ↦
        if persisted p.questions
        then (
          record s {
            registry = remove_ask task ask s.registry;
            fate = settle_promise p.promise (answered answers) s.fate;
          },
          some true,
        )
        else (s, none)
  ]

  -- The listener of one ask on its turn's signal.
  unfoldable pub on_abort : Listener → Asks Q A → Asks Q A
  on_abort l s = record s {
    registry = remove_ask l.task l.ask s.registry;
    fate = settle_promise l.promise (rejected stopped) s.fate;
  }

  unfoldable pub fire : ℕ → List Listener → Asks Q A → Asks Q A
  fire c [] s = s
  fire c (l ∷ ls) s = fire c ls (if l.signal == c then on_abort l s else s)

  -- `controller.abort()`: each listener fires once.
  unfoldable pub abort_signal : ℕ → Asks Q A → Asks Q A
  abort_signal c s =
      if mem c s.aborted
      then s
      else fire c s.listeners (record s {
        aborted = c ∷ s.aborted;
        listeners = filter (λ l. not (l.signal == c)) s.listeners;
      })

-- The outcomes that the ask_user bridge polls for, keyed by `taskId:askId`.
unfoldable pub outcome_key : String → String → String
outcome_key task ask = join task (join ":" ask)

unfoldable pub settle_ask :
    String → String → String → List (String × String) → List (String × String)
settle_ask task ask text outcomes = set (outcome_key task ask) text outcomes

unfoldable pub take_ask_outcome :
    String → String → List (String × String) → List (String × String) × Option String
take_ask_outcome task ask outcomes = elim (get (outcome_key task ask) outcomes) [
  | none ↦ (outcomes, none)
  | some text ↦ (delete (outcome_key task ask) outcomes, some text)
]
