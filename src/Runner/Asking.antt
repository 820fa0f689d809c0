-- ===== src/Runner/Asking.antt =====
-- lib/runner.ts: while a turn runs its task waits for input exactly while an ask is open.
use operator_oss.Base.{
  ℕ, ◌≡◌, refl, inl, inr, ◌⊎◌, Bool, true, false, not, ◌||◌, Option, none, some, List, [], ◌∷◌,
  String, arith, Option-cases, subst, sym,
}
use operator_oss.Maps.{get, set, has, get-set}
use operator_oss.Sets.{member, add, remove, member-add, member-remove}
use operator_oss.World.{
  World, Task, ToolData, get_task, update_task, publish, add_message, update_message,
  record_session, add_usage, queue_lifecycle, Role, Body, Status,
}
use operator_oss.Runner.{Classifiers, Turn, take_failure}
use operator_oss.Runner.Events.{
  AgentEvent, session, model, says, tool_call, tool_result, asks, ask_answered, suggested, usage,
  notice, error, done, Outcome, next, threw, handle, is_empty, asking, answered, open_task,
  register, Stream, ends, fails, yields, consume,
}
use operator_oss.Runner.Frames.{publish_turn_error-Same, map_row, update_task_lem}

abbrev pub waits : Option Task → Option Bool
waits none = none
waits (some r) = some r.awaiting_input

-- Every open ask has a message, and the row, if it is there, says whether an ask is open.
pub record IsAsking (t : Turn) (w : World) : Type 0 where
  pub known : (id : String) → member id t.open_asks ≡ true → has id t.tool_msgs ≡ true
  pub flagged :
      (waits (get_task t.task_id w) ≡ none)
      ⊎ (waits (get_task t.task_id w) ≡ some (not (is_empty t.open_asks)))

-- Between two events others may delete the task's row, but they do not change the flag of one that
-- stays.
abbrev pub Undisturbed : String → Stream → Type 0
Undisturbed id ends = Unit
Undisturbed id (fails text) = Unit
Undisturbed id (yields meanwhile ev rest) =
    ((w : World)
      → (waits (get_task id (meanwhile w)) ≡ none)
        ⊎ (waits (get_task id (meanwhile w)) ≡ waits (get_task id w)))
    × Undisturbed id rest

abbrev task_of : Outcome → String
task_of (next t w) = t.task_id
task_of (threw text t w) = t.task_id

abbrev pub AsksWell : Outcome → Type 0
AsksWell (next t w) = IsAsking t w
AsksWell (threw text t w) = IsAsking t w

is_empty-add : (id : String) (s : List String) → is_empty (add id s) ≡ false
unfolding add
is_empty-add id [] = refl
is_empty-add id (x ∷ s) = ground arith

waits-update_task :
    (id : String) (f : Task → Task) (w : World)
    → waits (get_task id (update_task id f w)) ≡ waits (map_row f (get_task id w))
waits-update_task id f w = rw (update_task_lem id f w).0 refl

waits-open_task :
    (t : Turn) (sid : String) (w : World)
    → waits (get_task t.task_id (open_task t sid w)) ≡ waits (get_task t.task_id w)
unfolding open_task queue_lifecycle
waits-open_task t sid w = ground (
  arith,
  waits-update_task t.task_id (λ r. record r { started = true; status = Status.in_progress })
      (register t sid w),
)

tasks-add_message :
    (id : String) (gen : ℕ) (role : Role) (body : Body) (w w' : World) (n : ℕ)
    → add_message id gen role body w ≡ some (w', n)
    → w'.tasks ≡ w.tasks
unfolding add_message
tasks-add_message id gen role body w w' n e = ground arith

-- A message for a new or a changed tool call; the open asks stay.
add_tool :
    (t : Turn) (w : World) (id : String) (e : ℕ × ToolData)
    → IsAsking t w
    → IsAsking (record t { tool_msgs = set id e t.tool_msgs }) w
add_tool t w id e v = record {
  known = λ i h. ground (arith, v.known i, get-set id i e t.tool_msgs);
  flagged = v.flagged;
}

-- Only the rows matter.
same_rows : (t : Turn) (w w' : World) → w'.tasks ≡ w.tasks → IsAsking t w → IsAsking t w'
same_rows t w w' e v = record { known = v.known; flagged = ground (arith, v.flagged) }

on_message :
    (t t' : Turn) (gen : ℕ) (role : Role) (body : Body) (w : World) (id : String)
    (f : World × ℕ → Outcome)
    → IsAsking t w
    → ((w' : World) (n : ℕ) → w'.tasks ≡ w.tasks → AsksWell (f (w', n)))
    → AsksWell (elim (add_message id gen role body w) as (λ _. Outcome) [
      | none ↦ threw "FOREIGN KEY constraint failed" t w
      | some x ↦ f x
    ])
on_message t t' gen role body w id f v h = elim (Option-cases (add_message id gen role body w)) [
  | inl e ↦ rw e v
  | inr ((w', n), e) ↦ rw e (h w' n (tasks-add_message id gen role body w w' n e))
]

on_known :
    (t : Turn) (w : World) (id : String) (f : ℕ × ToolData → Outcome)
    → IsAsking t w
    → ((e : ℕ × ToolData) → get id t.tool_msgs ≡ some e → AsksWell (f e))
    → AsksWell (elim (get id t.tool_msgs) as (λ _. Outcome) [ none ↦ next t w | some x ↦ f x ])
on_known t w id f v h = elim (Option-cases (get id t.tool_msgs)) [
  | inl e ↦ rw e v
  | inr (x, e) ↦ rw e (h x e)
]

on_stored :
    (t : Turn) (w : World) (o : Option World) (f : World → Outcome)
    → IsAsking t w
    → ((w' : World) → o ≡ some w' → AsksWell (f w'))
    → AsksWell (elim o as (λ _. Outcome) [
      | none ↦ threw "FOREIGN KEY constraint failed" t w
      | some x ↦ f x
    ])
on_stored t w none f v h = v
on_stored t w (some w') f v h = h w' refl

is_empty-remove :
    (id : String) (s : List String) → is_empty (remove id s) ≡ false → is_empty s ≡ false
unfolding remove
is_empty-remove id [] h = h
is_empty-remove id (x ∷ s) h = refl

tasks-add_usage :
    (id amount : String) (w w' : World) → add_usage id amount w ≡ some w' → w'.tasks ≡ w.tasks
unfolding add_usage
tasks-add_usage id amount w w' e = ground arith

tasks-record_session :
    (id : String) (gen : ℕ) (sid : String) (w w' : World)
    → record_session id gen sid w ≡ some w'
    → w'.tasks ≡ w.tasks
unfolding record_session
tasks-record_session id gen sid w w' e = ground arith

module _ (k : Classifiers) where
  take_failure-IsAsking :
      (t : Turn) (text : String) (w : World)
      → IsAsking t w
      → IsAsking (take_failure k t text w).0 (take_failure k t text w).1
  unfolding take_failure publish
  take_failure-IsAsking t text w v =
      let e = publish_turn_error-Same k t.task_id t.gen text w in
      record {
        known = λ id h. ground (arith, v.known id);
        flagged = ground (arith, v.flagged, e.tasks);
      }

  on_session-AsksWell :
      (t : Turn) (sid : String) (w : World) → IsAsking t w → AsksWell (handle k t (session sid) w)
  unfolding handle publish
  on_session-AsksWell t sid w v =
      let opened : IsAsking
          (record t {
            session_id = some sid;
            opened = true;
            registered = t.registered || t.registers;
          })
          (open_task t sid w) =
        record { known = v.known; flagged = ground (arith, v.flagged, waits-open_task t sid w) } in
      on_stored _ (open_task t sid w) (record_session t.task_id t.gen sid (open_task t sid w)) _
        opened
        (λ w' e.
          let h =
            same_rows _ (open_task t sid w) w' (tasks-record_session t.task_id t.gen sid _ w' e)
              opened in
          record { known = h.known; flagged = h.flagged })

  on_ask-AsksWell :
      (t : Turn) (id questions : String) (w : World)
      → IsAsking t w
      → AsksWell (handle k t (asks id questions) w)
  unfolding handle publish queue_lifecycle
  on_ask-AsksWell t id questions w v = on_message t t t.gen Role.tool _ w t.task_id _ v (λ w' n e.
      record {
        known = λ i h. ground (
          arith,
          member-add id i t.open_asks,
          get-set id i (n, asking id questions) t.tool_msgs,
          v.known i,
        );
        flagged = ground (
          arith,
          e,
          v.flagged,
          is_empty-add id t.open_asks,
          waits-update_task t.task_id (λ r. record r { awaiting_input = true }) w',
        );
      })

  on_ask_answered-AsksWell :
      (t : Turn) (id answers : String) (w : World)
      → IsAsking t w
      → AsksWell (handle k t (ask_answered id answers) w)
  unfolding handle publish update_message
  on_ask_answered-AsksWell t id answers w v = on_known t w id _ v (λ x e. record {
    known = λ i h. ground (
      arith,
      member-remove id i t.open_asks,
      get-set id i (x.0, record x.1 { ask = some (answered id answers x.1.ask) }) t.tool_msgs,
      v.known i,
    );
    flagged = ground (
      arith,
      v.flagged,
      is_empty-remove id t.open_asks,
      waits-update_task t.task_id (λ r. record r { awaiting_input = false })
          (update_message x.0
            (Body.tool_json (record x.1 { ask = some (answered id answers x.1.ask) })) w),
    );
  })

  handle-AsksWell :
      (t : Turn) (ev : AgentEvent) (w : World) → IsAsking t w → AsksWell (handle k t ev w)
  unfolding handle publish update_message
  handle-AsksWell t (session sid) w v = on_session-AsksWell t sid w v
  handle-AsksWell t (model m) w v = record {
    known = v.known;
    flagged = ground (
      arith,
      v.flagged,
      waits-update_task t.task_id (λ r. record r { resolved_model = some m }) w,
    );
  }
  handle-AsksWell t (says content) w v =
      on_message t t t.gen Role.assistant _ w t.task_id _ v (λ w' n e. same_rows t w _ e v)
  handle-AsksWell t (tool_call id title detail peek diff) w v =
      on_message t t t.gen Role.tool _ w t.task_id _ v
        (λ w' n e. add_tool t _ id _ (same_rows t w _ e v))
  handle-AsksWell t (tool_result id content failed peek) w v =
      on_known t w id _ v (λ x e. add_tool t _ id _ (same_rows t w _ refl v))
  handle-AsksWell t (asks id questions) w v = on_ask-AsksWell t id questions w v
  handle-AsksWell t (ask_answered id answers) w v = on_ask_answered-AsksWell t id answers w v
  handle-AsksWell t (suggested title) w v = same_rows t w _ refl v
  handle-AsksWell t (usage amount) w v = on_stored t w (add_usage t.task_id amount w) _ v (λ w' e.
      let h = same_rows t w w' (tasks-add_usage t.task_id amount w w' e) v in
      record { known = h.known; flagged = h.flagged })
  handle-AsksWell t (notice content) w v =
      on_message t t t.gen Role.system _ w t.task_id _ v (λ w' n e. same_rows t w _ e v)
  handle-AsksWell t (error content) w v = take_failure-IsAsking t content w v
  handle-AsksWell t (done sid) w v = record { known = v.known; flagged = v.flagged }

  handle_keeps : (t : Turn) (ev : AgentEvent) (w : World) → task_of (handle k t ev w) ≡ t.task_id
  unfolding handle take_failure
  handle_keeps t (session sid) w = ground arith
  handle_keeps t _ w = ground arith

  abbrev after_event : Stream → Outcome → Turn × World
  after_event rest (next t w) = consume k t rest w
  after_event rest (threw text t w) = take_failure k t text w

  consumed :
      (t : Turn) (o : Outcome) (rest : Stream)
      → task_of o ≡ t.task_id
      → AsksWell o
      → ((t' : Turn) (w' : World)
          → t'.task_id ≡ t.task_id
          → IsAsking t' w'
          → IsAsking (consume k t' rest w').0 (consume k t' rest w').1)
      → IsAsking (after_event rest o).0 (after_event rest o).1
  consumed t (next t' w') rest e v h = h t' w' e v
  consumed t (threw text t' w') rest e v h = take_failure-IsAsking t' text w' v

  -- After any stream of driver events, tool calls, failures and exceptions of the store included, the
  -- task's row, if it is still there, waits for input exactly where an ask is open, and every open ask
  -- has its message, provided that this held at the start and that nobody else changes the flag of a
  -- row that stays; others may delete the row.
  pub consume-IsAsking :
      (t : Turn) (stream : Stream) (w : World)
      → Undisturbed t.task_id stream
      → IsAsking t w
      → IsAsking (consume k t stream w).0 (consume k t stream w).1
  unfolding consume
  consume-IsAsking t ends w u v = v
  consume-IsAsking t (fails text) w u v = take_failure-IsAsking t text w v
  consume-IsAsking t (yields meanwhile ev rest) w (u, us) v =
      let v' : IsAsking t (meanwhile w) = record {
        known = v.known;
        flagged = ground (arith, v.flagged, u w);
      } in
      consumed t (handle k t ev (meanwhile w)) rest (handle_keeps t ev (meanwhile w))
        (handle-AsksWell t ev (meanwhile w) v')
        (λ t' w' e. consume-IsAsking t' rest w' (subst (λ i. Undisturbed i rest) (sym e) us))
