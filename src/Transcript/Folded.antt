-- ===== src/Transcript/Folded.antt =====
-- app/orchestrator/workGroups.ts: what is folded into a work row, and what never is.
use operator_oss.Base.{
  ◌≡◌, refl, inl, inr, Bool, true, false, not, ◌&&◌, ◌||◌, Option, none, List, [], ◌∷◌, ◌++◌,
  if◌then◌else◌, arith, Bool-cases, ltb, filter, length, All, All-append,
}
use operator_oss.Transcript.{
  Msg, WorkItem, TranscriptItem, msg, work, is_tool, foldable, work_of, push_msgs, flush, walk,
  group_turn, final_of,
}

module _ (ask failed : Msg → Bool) where
  -- A work row holds foldable messages only; it is live only in a live turn, and one that is not
  -- live has a tool call and more than one message.
  abbrev pub FoldsOnly : Option WorkItem → Bool → TranscriptItem → Type 0
  FoldsOnly final live (msg x hide) = Unit
  FoldsOnly final live (work w) =
      All (λ x. foldable ask failed final x ≡ true) w.items
      × ((w.live && not live) ≡ false)
      × ((w.live || (ltb 0 w.steps && ltb 1 (length w.items))) ≡ true)

  All-concat :
      (final : Option WorkItem) (live : Bool) (xs ys : List TranscriptItem)
      → All (FoldsOnly final live) xs
      → All (FoldsOnly final live) ys
      → All (FoldsOnly final live) (xs ++ ys)
  All-concat final live [] ys h k = k
  All-concat final live (x ∷ xs) ys (h, hs) k = (h, All-concat final live xs ys hs k)

  push_msgs-FoldsOnly :
      (final : Option WorkItem) (live seen : Bool) (xs : List WorkItem)
      → All (FoldsOnly final live) (push_msgs ask failed seen xs).0
  unfolding push_msgs
  push_msgs-FoldsOnly final live seen [] = tt
  push_msgs-FoldsOnly final live seen (x ∷ xs) = (tt, push_msgs-FoldsOnly final live _ xs)

  -- `own` is the row's flag: the turn's, or false before its end.
  flush-FoldsOnly :
      (final : Option WorkItem) (live own seen : Bool) (xs : List WorkItem)
      → (own && not live) ≡ false
      → All (λ x. foldable ask failed final x ≡ true) xs
      → All (FoldsOnly final live) (flush ask failed final own seen xs).0
  unfolding flush work_of
  flush-FoldsOnly final live own seen [] l h = tt
  flush-FoldsOnly final live own seen (x ∷ xs) l h =
      elim (Bool-cases (
        own
        || (ltb 0 (length (filter (λ i. is_tool i.m.role) (x ∷ xs))) && ltb 1 (length (x ∷ xs))))) [
          | inl e ↦ rw (e, flush) ((h, l, e), tt)
          | inr e ↦ rw (e, flush) (push_msgs-FoldsOnly final live seen (x ∷ xs))
        ]

  walk-FoldsOnly :
      (final : Option WorkItem) (live seen : Bool) (stretch xs : List WorkItem)
      → All (λ x. foldable ask failed final x ≡ true) stretch
      → All (FoldsOnly final live) (walk ask failed final live seen stretch xs)
  unfolding walk
  walk-FoldsOnly final live seen stretch [] h =
      flush-FoldsOnly final live live seen stretch (ground arith) h
  walk-FoldsOnly final live seen stretch (x ∷ xs) h =
      elim (Bool-cases (foldable ask failed final x)) [
        | inl e ↦
            rw (e, walk)
              (walk-FoldsOnly final live seen (stretch ++ (x ∷ [])) xs
                (All-append (λ y. foldable ask failed final y ≡ true) stretch h e))
        | inr e ↦
            let out = flush ask failed final false seen stretch in
            let own = push_msgs ask failed out.1 (x ∷ []) in
            let rest = walk ask failed final live own.1 [] xs in
            rw (e, walk)
              (All-concat final live out.0 (own.0 ++ rest)
                (flush-FoldsOnly final live false seen stretch refl h)
                (All-concat final live own.0 rest (push_msgs-FoldsOnly final live out.1 (x ∷ []))
                  (walk-FoldsOnly final live own.1 [] xs tt)))
      ]

  -- In the rows of a turn, only tool calls that are no ask cards and messages of the assistant are
  -- folded, and in a finished turn not the answer, its last message of the assistant. A row of a
  -- finished turn folds more than one message, with a tool call among them.
  pub group_turn_folds :
      (live : Bool) (turn : List WorkItem)
      → All
          (FoldsOnly (if live then none else final_of turn) live)
          (group_turn ask failed live turn)
  unfolding group_turn
  group_turn_folds live turn =
      walk-FoldsOnly (if live then none else final_of turn) live false [] turn tt
