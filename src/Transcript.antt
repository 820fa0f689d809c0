-- ===== src/Transcript.antt =====
-- app/orchestrator/workGroups.ts: the messages of a task as the items of its transcript. `ask` and
-- `failed` are what a tool message's data says (JSON.parse of its content): whether it is an ask card,
-- and whether it is an error. The two loops over indices are one walk over the turn's messages, which
-- carries the stretch of foldable messages before the present one.
pub mod Kept
pub mod Folded
use Prim.Native.String.{◌++◌ as append}
use operator_oss.Base.{
  ℕ, zero, suc, ◌+◌, Bool, true, false, not, ◌&&◌, ◌||◌, Option, none, some, List, [], ◌∷◌, ◌++◌,
  String, str_eq, ◌==◌, ltb, leb, if◌then◌else◌, filter, length,
}

pub data Role : Type 0 where
  user assistant tool system session_break queued : Role

pub record Msg : Type 0 where
  pub id : String
  pub role : Role
  pub content : String
  pub created_at : Option ℕ

pub record WorkItem : Type 0 where
  pub m : Msg
  pub index : ℕ

pub record Work : Type 0 where
  pub id : String
  pub items : List WorkItem
  pub live : Bool
  pub steps : ℕ
  pub failed : ℕ
  pub started_at : Option ℕ
  pub ended_at : Option ℕ

pub data TranscriptItem : Type 0 where
  msg : WorkItem → Bool → TranscriptItem
  work : Work → TranscriptItem

abbrev pub is_user : Role → Bool
is_user user = true
is_user _ = false

abbrev pub is_assistant : Role → Bool
is_assistant assistant = true
is_assistant _ = false

abbrev pub is_tool : Role → Bool
is_tool tool = true
is_tool _ = false

unfoldable pub number : ℕ → List Msg → List WorkItem
number i [] = []
number i (m ∷ ms) = record { m = m; index = i } ∷ number (i + 1) ms

-- The messages before the next turn, and the turns from there: each user message starts one.
unfoldable pub turns_from : List WorkItem → List WorkItem × List (List WorkItem)
turns_from [] = ([], [])
turns_from (x ∷ xs) =
    let (seg, turns) = turns_from xs in
    if is_user x.m.role then ([], (x ∷ seg) ∷ turns) else (x ∷ seg, turns)

-- The first turn starts with the first message, whoever it is from.
unfoldable pub turns_of : List WorkItem → List (List WorkItem)
unfolding turns_from
turns_of [] = [] ∷ []
turns_of (x ∷ xs) = let (seg, turns) = turns_from xs in (x ∷ seg) ∷ turns

-- The turn's answer: its last message of the assistant.
unfoldable pub final_of : List WorkItem → Option WorkItem
final_of [] = none
final_of (x ∷ xs) = elim (final_of xs) [
  | some f ↦ some f
  | none ↦ if is_assistant x.m.role then some x else none
]

abbrev last_or : WorkItem → List WorkItem → WorkItem
last_or x [] = x
last_or x (y ∷ ys) = last_or y ys

abbrev first_time : Option ℕ → Option ℕ → Option ℕ
first_time none t = t
first_time (some a) t = some a

abbrev pub is_last : List (List WorkItem) → Bool
is_last [] = true
is_last (t ∷ ts) = false

module _ (ask failed : Msg → Bool) where
  abbrev pub foldable : Option WorkItem → WorkItem → Bool
  foldable final x =
      (is_assistant x.m.role && not (is_final final)) || (is_tool x.m.role && not (ask x.m))
    where
      is_final : Option WorkItem → Bool
      is_final none = false
      is_final (some f) = x.index == f.index

  -- The time of the answer, where it comes after the stretch.
  abbrev answered_at : Option WorkItem → WorkItem → Option ℕ
  answered_at none last = none
  answered_at (some f) last = if ltb last.index f.index then f.m.created_at else none

  unfoldable pub work_of : Option WorkItem → Bool → WorkItem → List WorkItem → Work
  work_of final live x xs = record {
    id = append "work-" x.m.id;
    items = x ∷ xs;
    live = live;
    steps = length (filter (λ i. is_tool i.m.role) (x ∷ xs));
    failed = length (filter (λ i. is_tool i.m.role && failed i.m) (x ∷ xs));
    started_at = x.m.created_at;
    ended_at = first_time (answered_at final (last_or x xs)) (last_or x xs).m.created_at;
  }

  -- `pushMsg`: only the first message of the assistant in a turn says who it is from.
  unfoldable pub push_msgs : Bool → List WorkItem → List TranscriptItem × Bool
  push_msgs seen [] = ([], seen)
  push_msgs seen (x ∷ xs) =
      let assistant = is_assistant x.m.role in
      let (out, seen') = push_msgs (seen || assistant) xs in
      (msg x (assistant && seen) ∷ out, seen')

  -- A stretch that ended, at the turn's end or before; `live` where the turn is live and ends here.
  unfoldable pub flush : Option WorkItem → Bool → Bool → List WorkItem → List TranscriptItem × Bool
  unfolding work_of push_msgs
  flush final live seen [] = ([], seen)
  flush final live seen (x ∷ xs) =
      if live
        || (ltb 0 (length (filter (λ i. is_tool i.m.role) (x ∷ xs))) && ltb 1 (length (x ∷ xs)))
      then (work (work_of final live x xs) ∷ [], seen)
      else push_msgs seen (x ∷ xs)

  unfoldable pub walk :
      Option WorkItem → Bool → Bool → List WorkItem → List WorkItem → List TranscriptItem
  unfolding flush push_msgs
  walk final live seen stretch [] = (flush final live seen stretch).0
  walk final live seen stretch (x ∷ xs) = elim (foldable final x) [
    | true ↦ walk final live seen (stretch ++ (x ∷ [])) xs
    | false ↦
        let (out, seen₁) = flush final false seen stretch in
        let (own, seen₂) = push_msgs seen₁ (x ∷ []) in out ++ (own ++ walk final live seen₂ [] xs)
  ]

  unfoldable pub group_turn : Bool → List WorkItem → List TranscriptItem
  unfolding walk final_of
  group_turn live turn = walk (if live then none else final_of turn) live false [] turn

  unfoldable pub group_turns : Bool → List (List WorkItem) → List TranscriptItem
  unfolding group_turn
  group_turns live [] = []
  group_turns live (t ∷ ts) = group_turn (live && is_last ts) t ++ group_turns live ts

  unfoldable pub group_transcript : List Msg → Bool → List TranscriptItem
  unfolding group_turns turns_of number
  group_transcript messages live = group_turns live (turns_of (number 0 messages))
