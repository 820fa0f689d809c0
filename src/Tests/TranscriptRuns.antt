-- ===== src/Tests/TranscriptRuns.antt =====
-- app/orchestrator/workGroups.ts on a turn with two tool calls and an answer.
use operator_oss.Base.{◌≡◌, refl, Bool, true, false, none, List, [], ◌∷◌, String}
use operator_oss.Transcript.{
  Msg, Role, user, assistant, tool, WorkItem, TranscriptItem, number, group_transcript,
}
use operator_oss.Transcript.Kept.{shown_by, group_transcript_keeps}

abbrev no_card : Msg → Bool
no_card m = false

abbrev says : String → Role → Msg
says id role = record { id = id; role = role; content = "..."; created_at = none }

abbrev messages : List Msg
messages = says "q" user ∷ says "t" tool ∷ says "u" tool ∷ says "x" assistant ∷ []

abbrev turn : List WorkItem
turn =
    record { m = says "q" user; index = 0 }
    ∷ record { m = says "t" tool; index = 1 }
    ∷ record { m = says "u" tool; index = 2 }
    ∷ record { m = says "x" assistant; index = 3 }
    ∷ []

shown_ids : List TranscriptItem → List Bool
shown_ids [] = []
shown_ids (TranscriptItem.msg x hide ∷ out) = false ∷ shown_ids out
shown_ids (TranscriptItem.work w ∷ out) = true ∷ shown_ids out

-- The question, one row of work, the answer.
folds : shown_ids (group_transcript no_card no_card messages false) ≡ (false ∷ true ∷ false ∷ [])
unfolding shown_ids group_transcript
folds = refl

group_transcript_keeps_example :
    shown_by (group_transcript no_card no_card messages false) ≡ number 0 messages
group_transcript_keeps_example = group_transcript_keeps no_card no_card messages false
