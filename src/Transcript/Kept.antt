-- ===== src/Transcript/Kept.antt =====
-- app/orchestrator/workGroups.ts: the transcript shows every message once, in order.
use operator_oss.Base.{
  ◌≡◌, refl, sym, ap, ◌∙◌, inl, inr, Bool, false, ◌&&◌, ◌||◌, Option, none, List, [], ◌∷◌, ◌++◌,
  append_assoc, append-nil, if◌then◌else◌, arith, Bool-cases, ltb, filter, length,
}
use operator_oss.Transcript.{
  Msg, WorkItem, TranscriptItem, msg, work, is_tool, number, turns_from, turns_of, foldable,
  work_of, push_msgs, flush, walk, group_turn, group_turns, group_transcript, final_of, is_last,
}

-- The messages that the items show.
unfoldable pub shown_by : List TranscriptItem → List WorkItem
shown_by [] = []
shown_by (msg x hide ∷ out) = x ∷ shown_by out
shown_by (work w ∷ out) = w.items ++ shown_by out

shown_by-append : (xs ys : List TranscriptItem) → shown_by (xs ++ ys) ≡ shown_by xs ++ shown_by ys
unfolding shown_by
shown_by-append [] ys = refl
shown_by-append (msg x hide ∷ xs) ys = ap (◌∷◌ x) (shown_by-append xs ys)
shown_by-append (work w ∷ xs) ys =
    ap (λ (zs : List WorkItem). w.items ++ zs) (shown_by-append xs ys)
    ∙ sym (append_assoc w.items (shown_by xs) (shown_by ys))

all_of : List (List WorkItem) → List WorkItem
all_of [] = []
all_of (t ∷ ts) = t ++ all_of ts

turns_from_all : (xs : List WorkItem) → (turns_from xs).0 ++ all_of (turns_from xs).1 ≡ xs
unfolding turns_from all_of
turns_from_all [] = refl
turns_from_all (x ∷ xs) = ground (arith, turns_from_all xs)

turns_of_all : (xs : List WorkItem) → all_of (turns_of xs) ≡ xs
unfolding turns_of all_of
turns_of_all [] = refl
turns_of_all (x ∷ xs) = ap (◌∷◌ x) (turns_from_all xs)

module _ (ask failed : Msg → Bool) where
  push_msgs_shows :
      (seen : Bool) (xs : List WorkItem) → shown_by (push_msgs ask failed seen xs).0 ≡ xs
  unfolding push_msgs shown_by
  push_msgs_shows seen [] = refl
  push_msgs_shows seen (x ∷ xs) = ap (◌∷◌ x) (push_msgs_shows _ xs)

  flush_shows :
      (final : Option WorkItem) (live seen : Bool) (xs : List WorkItem)
      → shown_by (flush ask failed final live seen xs).0 ≡ xs
  unfolding flush shown_by work_of
  flush_shows final live seen [] = refl
  flush_shows final live seen (x ∷ xs) =
      elim (Bool-cases (
        live
        || (ltb 0 (length (filter (λ i. is_tool i.m.role) (x ∷ xs))) && ltb 1 (length (x ∷ xs))))) [
          | inl e ↦ rw (e, flush) (append-nil (x ∷ xs))
          | inr e ↦ rw (e, flush) (push_msgs_shows seen (x ∷ xs))
        ]

  walk_shows :
      (final : Option WorkItem) (live seen : Bool) (stretch xs : List WorkItem)
      → shown_by (walk ask failed final live seen stretch xs) ≡ stretch ++ xs
  unfolding walk
  walk_shows final live seen stretch [] =
      flush_shows final live seen stretch ∙ sym (append-nil stretch)
  walk_shows final live seen stretch (x ∷ xs) = elim (Bool-cases (foldable ask failed final x)) [
    | inl e ↦
        rw (e, walk)
          (walk_shows final live seen (stretch ++ (x ∷ [])) xs ∙ append_assoc stretch (x ∷ []) xs)
    | inr e ↦
        let out = flush ask failed final false seen stretch in
        let own = push_msgs ask failed out.1 (x ∷ []) in
        let rest = walk ask failed final live own.1 [] xs in
        rw (e, walk)
          (shown_by-append out.0 (own.0 ++ rest)
            ∙ ap (λ (ys : List WorkItem). ys ++ shown_by (own.0 ++ rest))
                (flush_shows final false seen stretch)
            ∙ ap (λ (ys : List WorkItem). stretch ++ ys)
                (shown_by-append own.0 rest
                  ∙ ap (λ (ys : List WorkItem). ys ++ shown_by rest)
                      (push_msgs_shows out.1 (x ∷ []))
                  ∙ ap (◌∷◌ x) (walk_shows final live own.1 [] xs)))
  ]

  group_turns_shows :
      (live : Bool) (ts : List (List WorkItem))
      → shown_by (group_turns ask failed live ts) ≡ all_of ts
  unfolding group_turns group_turn all_of
  group_turns_shows live [] = unfold shown_by in refl
  group_turns_shows live (t ∷ ts) =
      let last = live && is_last ts in
      let final = if last then none else final_of t in
      let turn = walk ask failed final last false [] t in
      shown_by-append turn (group_turns ask failed live ts)
      ∙ ap (λ (ys : List WorkItem). ys ++ shown_by (group_turns ask failed live ts))
          (walk_shows final last false [] t)
      ∙ ap (λ (ys : List WorkItem). t ++ ys) (group_turns_shows live ts)

  -- Nothing is dropped: whatever is folded, the messages that the transcript's items show, in their
  -- order, are the messages with their indices.
  pub group_transcript_keeps :
      (messages : List Msg) (live : Bool)
      → shown_by (group_transcript ask failed messages live) ≡ number 0 messages
  unfolding group_transcript
  group_transcript_keeps messages live =
      group_turns_shows live (turns_of (number 0 messages)) ∙ turns_of_all (number 0 messages)
