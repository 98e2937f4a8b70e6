-- ===== src/Trivials/SplitFile/Files.antt =====
-- The files of the children, from the lines of the input.
use cpp_linux_learn.Common.{
  ℕ, suc, ◌≡◌, refl, sym, ap, ◌∙◌, ◌⊎◌, ◌≢◌, inl, inr, Bool, true, false, Option, none, some, List,
  [], ◌∷◌, ◌++◌, append-nil, append_assoc, ◌=ᵇ◌, eq_self, eq-≡, if◌then◌else◌, length, replicate,
  Bool-cases, ◌>>=◌, arith,
}
use cpp_linux_learn.Trivials.SplitFile.Strings.{split_string-first}
use cpp_linux_learn.Trivials.SplitFile.{
  is_one_of, first_of, find_first_of, says_end, child_lines, PipeInfo, send_line, name_of,
  send_named, distribute,
}

-- A character of "end", and a message without one.
abbrev pub IsMark : ℕ → Type 0
IsMark c = (c ≡ b'e') ⊎ ((c ≡ b'n') ⊎ (c ≡ b'd'))

abbrev pub IsPlain : List ℕ → Type 0
IsPlain [] = Unit {0}
IsPlain (c ∷ cs) = (c ≢ b'e') × (c ≢ b'n') × (c ≢ b'd') × IsPlain cs

abbrev pub ArePlain : List (List ℕ) → Type 0
ArePlain [] = Unit {0}
ArePlain (m ∷ ms) = IsPlain m × ArePlain ms

abbrev marks : List ℕ
marks = b'e' ∷ b'n' ∷ b'd' ∷ []

is_one_of-marks : (c : ℕ) → IsMark c → is_one_of marks c ≡ true
unfolding is_one_of
is_one_of-marks c (inl e) = ground arith
is_one_of-marks c (inr (inl e)) = ground arith
is_one_of-marks c (inr (inr e)) = ground arith

first_of-plain : (m : List ℕ) (pos : ℕ) → IsPlain m → first_of marks m pos ≡ none
unfolding first_of is_one_of
first_of-plain [] pos h = refl
first_of-plain (c ∷ m) pos (e, n, d, h) = ground (arith, e, n, d, first_of-plain m (suc pos) h)

first_of-mark :
    (pre post : List ℕ) (c pos : ℕ)
    → IsMark c
    → (k : ℕ) × (first_of marks (pre ++ c ∷ post) pos ≡ some k)
unfolding first_of
first_of-mark [] post c pos h = (pos, rw (is_one_of-marks c h) refl)
first_of-mark (x ∷ pre) post c pos h = elim (Bool-cases (is_one_of marks x)) [
  | inl found ↦ (pos, rw found refl)
  | inr not_yet ↦ let (k, e) = first_of-mark pre post c (suc pos) h in (k, rw not_yet e)
]

says_end-plain : (m : List ℕ) → IsPlain m → says_end m ≡ false
unfolding says_end find_first_of
says_end-plain m h = rw (says_end, first_of-plain m 0 h) refl

says_end-mark : (pre post : List ℕ) (c : ℕ) → IsMark c → says_end (pre ++ c ∷ post) ≡ true
unfolding says_end find_first_of
says_end-mark pre post c h = let (k, e) = first_of-mark pre post c 0 h in rw (says_end, e) refl

-- While the messages have no e, n or d in them, the child writes one line for each, and each is the line
-- at which it was forked, whatever the messages are; from the first message on that has one of these
-- letters anywhere, it writes nothing more.
pub child_lines_lem :
    (line : List ℕ) (before rest : List (List ℕ)) (pre post : List ℕ) (c : ℕ)
    → ArePlain before
    → IsMark c
    → (child_lines line before ≡ replicate (length before) line)
      × (child_lines line (before ++ (pre ++ c ∷ post) ∷ rest) ≡ replicate (length before) line)
unfolding child_lines
child_lines_lem line [] rest pre post c plain mark = (refl, rw (says_end-mark pre post c mark) refl)
child_lines_lem line (m ∷ before) rest pre post c (h, plain) mark =
    let (all, ends) = child_lines_lem line before rest pre post c plain mark in
    (rw (says_end-plain m h, all) refl, rw (says_end-plain m h, ends) refl)

-- The messages in the pipe of a name.
abbrev pub messages_of : List ℕ → List (List ℕ × PipeInfo) → List (List ℕ)
messages_of name [] = []
messages_of name ((other, p) ∷ pipes) = if other =ᵇ name then p.messages else messages_of name pipes

-- The lines of a name that is not empty, in order.
abbrev pub lines_of : List ℕ → List (List ℕ) → Option (List (List ℕ))
lines_of name [] = some []
lines_of name (line ∷ lines) = do
  other ← name_of line
  rest ← lines_of name lines
  some (if other =ᵇ name then line ∷ rest else rest)

messages_of-send_line_self :
    (name line : List ℕ) (pipes : List (List ℕ × PipeInfo))
    → messages_of name (send_line name line pipes) ≡ messages_of name pipes ++ (line ∷ [])
unfolding send_line
messages_of-send_line_self name line [] = rw (eq_self name) refl
messages_of-send_line_self name line ((other, p) ∷ pipes) = elim (Bool-cases (other =ᵇ name)) [
  | inl same ↦ ground (arith, same)
  | inr new ↦ ground (arith, new, messages_of-send_line_self name line pipes)
]

messages_of-send_line_ne :
    (name other line : List ℕ) (pipes : List (List ℕ × PipeInfo))
    → (other =ᵇ name) ≡ false
    → messages_of name (send_line other line pipes) ≡ messages_of name pipes
unfolding send_line
messages_of-send_line_ne name other line [] h = rw h refl
messages_of-send_line_ne name other line ((third, p) ∷ pipes) h =
    elim (Bool-cases (third =ᵇ other)) [
      | inl same ↦
          let e : (third =ᵇ name) ≡ false = rw (eq-≡ third other same) h in ground (arith, same, e)
      | inr new ↦ ground (arith, new, messages_of-send_line_ne name other line pipes h)
    ]

send_named-messages :
    (c : ℕ) (name other line : List ℕ) (pipes : List (List ℕ × PipeInfo))
    → messages_of (c ∷ name) (send_named other line pipes)
      ≡ messages_of (c ∷ name) pipes ++ (if other =ᵇ (c ∷ name) then line ∷ [] else [])
unfolding send_named
send_named-messages c name [] line pipes = sym (append-nil _)
send_named-messages c name (x ∷ other) line pipes = elim (Bool-cases ((x ∷ other) =ᵇ (c ∷ name))) [
  | inl same ↦
      let e = eq-≡ (x ∷ other) (c ∷ name) same in
      ap (λ l. messages_of (c ∷ name) (send_line l line pipes)) e
      ∙ (messages_of-send_line_self (c ∷ name) line pipes
          ∙ ap (λ b. messages_of (c ∷ name) pipes ++ (if b then line ∷ [] else [])) (sym same))
  | inr new ↦
      messages_of-send_line_ne (c ∷ name) (x ∷ other) line pipes new
      ∙ (sym (append-nil _)
          ∙ ap (λ b. messages_of (c ∷ name) pipes ++ (if b then line ∷ [] else [])) (sym new))
]

one_or_none :
    (b : Bool) (line : List ℕ) (ms : List (List ℕ))
    → (if b then line ∷ [] else []) ++ ms ≡ (if b then line ∷ ms else ms)
one_or_none true line ms = refl
one_or_none false line ms = refl

name_of-total : (line : List ℕ) → (name : List ℕ) × (name_of line ≡ some name)
unfolding name_of
name_of-total line = let (p, ps, e) = split_string-first b',' line in (p, rw e refl)

-- The loop over the lines comes to its end, and the pipe of each name that is not empty then holds what
-- it held and the lines of that name, in order.
pub distribute_lem :
    (c : ℕ) (name : List ℕ) (lines : List (List ℕ)) (pipes : List (List ℕ × PipeInfo))
    → (q : List (List ℕ × PipeInfo)) × (ms : List (List ℕ)) × (distribute lines pipes ≡ some q)
      × (lines_of (c ∷ name) lines ≡ some ms)
      × (messages_of (c ∷ name) q ≡ messages_of (c ∷ name) pipes ++ ms)
unfolding distribute
distribute_lem c name [] pipes = (pipes, [], refl, refl, sym (append-nil _))
distribute_lem c name (line ∷ lines) pipes =
    let (other, e) = name_of-total line in
    let (q, ms, runs, own, kept) = distribute_lem c name lines (send_named other line pipes) in
    let test = other =ᵇ (c ∷ name) in
    (
      q,
      if test then line ∷ ms else ms,
      rw e runs,
      rw (e, own) refl,
      kept
          ∙ (ap (λ l. l ++ ms) (send_named-messages c name other line pipes)
              ∙ (append_assoc (messages_of (c ∷ name) pipes) _ ms
                  ∙ ap (λ l. messages_of (c ∷ name) pipes ++ l) (one_or_none test line ms))),
    )
