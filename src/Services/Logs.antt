-- ===== src/Services/Logs.antt =====
-- lib/services.ts: the ring buffer of a service's log.
use operator_oss.Base.{
  ℕ, zero, suc, ◌+◌, ◌-◌, ◌≤◌, ◌≡◌, refl, ap, ◌∙◌, inl, inr, List, [], ◌∷◌, ◌++◌, append_assoc,
  append-nil, length, length-append, arith, ltb, Bool-cases,
}
use operator_oss.Services.{Line, push_line, shift_over, add_lines}

abbrev pub drop : ℕ → List Line → List Line
drop zero logs = logs
drop (suc n) [] = []
drop (suc n) (x ∷ logs) = drop n logs

-- The last lines of a log, at most `cap` of them.
unfoldable pub last_lines : ℕ → List Line → List Line
last_lines cap logs = drop (length logs - cap) logs

drop_concat :
    (n : ℕ) (logs ys : List Line) → n ≤ length logs → drop n (logs ++ ys) ≡ drop n logs ++ ys
drop_concat zero logs ys h = refl
drop_concat (suc n) [] ys h = absurd (omega arith)
drop_concat (suc n) (x ∷ logs) ys h = drop_concat n logs ys (omega arith)

length-drop : (n : ℕ) (logs : List Line) → length (drop n logs) ≡ length logs - n
length-drop zero logs = omega arith
length-drop (suc n) [] = omega arith
length-drop (suc n) (x ∷ logs) = omega (arith, length-drop n logs)

drop_nil : (n : ℕ) → drop n [] ≡ []
drop_nil zero = refl
drop_nil (suc n) = refl

drop-drop : (m n : ℕ) (logs : List Line) → drop m (drop n logs) ≡ drop (n + m) logs
drop-drop m zero logs = let e : zero + m ≡ m = omega arith in rw e refl
drop-drop m (suc n) [] = rw (drop_nil m, drop_nil (suc n + m)) refl
drop-drop m (suc n) (x ∷ logs) =
    let e : suc n + m ≡ suc (n + m) = omega arith in rw e (drop-drop m n logs)

shift_over_lem :
    (cap : ℕ) (xs : List Line) → length xs ≤ suc cap → shift_over cap xs ≡ last_lines cap xs
unfolding shift_over last_lines
shift_over_lem cap [] h = rw (drop_nil (length {A = Line} [] - cap)) refl
shift_over_lem cap (x ∷ xs) h = elim (Bool-cases (ltb cap (length (x ∷ xs)))) [
  | inl full ↦ let one : length (x ∷ xs) - cap ≡ 1 = ground (arith, full, h) in rw (full, one) refl
  | inr room ↦
      let none_over : length (x ∷ xs) - cap ≡ 0 = ground (arith, room) in rw (room, none_over) refl
]

last_lines_again :
    (cap : ℕ) (xs ys : List Line)
    → last_lines cap (last_lines cap xs ++ ys) ≡ last_lines cap (xs ++ ys)
unfolding last_lines
last_lines_again cap xs ys =
    let n = length xs - cap in
    let whole = drop_concat n xs ys (omega arith) in
    let size : length (drop n xs ++ ys) - cap ≡ length (xs ++ ys) - n - cap =
      omega (arith, length-append (drop n xs) ys, length-append xs ys, length-drop n xs) in
    let total : n + (length (xs ++ ys) - n - cap) ≡ length (xs ++ ys) - cap =
      omega (arith, length-append xs ys) in
    rw (size, ← whole, drop-drop (length (xs ++ ys) - n - cap) n (xs ++ ys), total) refl

last_lines_bound : (cap : ℕ) (xs : List Line) → length (last_lines cap xs) ≤ cap
unfolding last_lines
last_lines_bound cap xs = omega (arith, length-drop (length xs - cap) xs)

-- However much output comes, a log that keeps to its bound keeps to it, and holds the last lines of
-- all that was written: the ring buffer is the end of the plain log.
pub add_lines_last :
    (cap : ℕ) (lines logs : List Line)
    → length logs ≤ cap
    → (add_lines cap lines logs ≡ last_lines cap (logs ++ lines))
      × (length (add_lines cap lines logs) ≤ cap)
unfolding add_lines push_line
add_lines_last cap [] logs h = (
  let e : length (logs ++ []) - cap ≡ 0 = omega (arith, length-append logs []) in
      unfold last_lines in rw (e, append-nil logs) refl,
  h,
)
add_lines_last cap (line ∷ lines) logs h =
    let one =
      shift_over_lem cap (logs ++ (line ∷ [])) (omega (arith, length-append logs (line ∷ []))) in
    let rest =
      add_lines_last cap lines (shift_over cap (logs ++ (line ∷ [])))
        (rw one (last_lines_bound cap (logs ++ (line ∷ [])))) in
    let again = last_lines_again cap (logs ++ (line ∷ [])) lines in
    (
      rest.0
          ∙ ap (λ (xs : List Line). last_lines cap (xs ++ lines)) one
          ∙ again
          ∙ ap (last_lines cap) (append_assoc logs (line ∷ []) lines),
      rest.1,
    )
