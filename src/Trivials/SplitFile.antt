-- ===== src/Trivials/SplitFile.antt =====
-- trivials/splitMdFile.cpp: the lines of a csv file are handed to one process for each name in the first
-- column, which writes them to a file of its own. A character is its code. The pipes between the
-- parent and a child carry whole messages here; the directory and the file names, and what `printf`
-- says, are not modelled. A line is shorter than the child's buffer of 512 bytes and holds no zero byte.
pub mod Strings
pub mod Pipes
pub mod Files
mod Tests
use cpp_linux_learn.Common.{
  ℕ, zero, suc, ◌+◌, ◌-◌, ◌>>=◌, Bool, true, false, ◌||◌, Option, none, some, List, [], ◌∷◌, ◌++◌,
  ltb, leb, ◌==◌, if◌then◌else◌, length, get_elem?, take, drop, ◌=ᵇ◌,
}

pub is_one_of : List ℕ → ℕ → Bool
is_one_of [] c = false
is_one_of (x ∷ xs) c = x == c || is_one_of xs c

-- The first position of a character of `set` in `s`, counted from `pos` on.
pub first_of : List ℕ → List ℕ → ℕ → Option ℕ
unfolding is_one_of
first_of set [] pos = none
first_of set (c ∷ s) pos = if is_one_of set c then some pos else first_of set s (suc pos)

-- `std::string::find_first_of(set, pos)`, with `none` for `npos`.
unfoldable pub find_first_of : List ℕ → List ℕ → ℕ → Option ℕ
unfolding first_of
find_first_of set s pos = first_of set (drop pos s) pos

-- `substr(pos)` and `substr(pos, n)`: past the end it throws.
unfoldable pub substr : List ℕ → ℕ → Option ℕ → Option (List ℕ)
substr s pos none = if leb pos (length s) then some (drop pos s) else none
substr s pos (some n) = if leb pos (length s) then some (take n (drop pos s)) else none

-- The loop of splitString from `lpos` on, with fuel for its rounds.
unfoldable pub split_from : ℕ → List ℕ → List ℕ → ℕ → Option (List (List ℕ))
split_from zero s delimiter lpos = none
split_from (suc fuel) s delimiter lpos = elim (find_first_of delimiter s lpos) [
  | none ↦ do x ← substr s lpos none; some (x ∷ [])
  | some rpos ↦ do
    x ← substr s lpos (some (rpos - lpos))
    rest ← split_from fuel s delimiter (rpos + length delimiter)
    some (x ∷ rest)
]

unfoldable pub split_string : List ℕ → List ℕ → Option (List (List ℕ))
split_string s delimiter = split_from (length s + 1) s delimiter 0

-- What a call of `write` returned, and what a call of `read` brought.
pub data Outcome : Type 0 where
  moved : ℕ → Outcome
  write_error : Outcome

pub data Chunk : Type 0 where
  got : List ℕ → Chunk
  read_error : Chunk

-- fixwrite: the bytes that are left and those that were written. The result is what is returned, with
-- `none` for -1, and the bytes written; without an outcome the call goes on.
unfoldable pub fixwrite : List Outcome → List ℕ → List ℕ → Option (Option ℕ × List ℕ)
fixwrite [] [] sent = some (some (length sent), sent)
fixwrite [] (b ∷ buf) sent = none
fixwrite (o ∷ rest) [] sent = some (some (length sent), sent)
fixwrite (write_error ∷ rest) (b ∷ buf) [] = some (none, [])
fixwrite (write_error ∷ rest) (b ∷ buf) (c ∷ sent) = some (some (suc (length sent)), c ∷ sent)
fixwrite (moved n ∷ rest) (b ∷ buf) sent =
    if n == 0
    then some (some (length sent), sent)
    else fixwrite rest (drop n (b ∷ buf)) (sent ++ take n (b ∷ buf))

-- fixread: the number of bytes that are wanted and those that were read.
unfoldable pub fixread : List Chunk → ℕ → List ℕ → Option (Option ℕ × List ℕ)
fixread [] len read = if length read == len then some (some (length read), read) else none
fixread (read_error ∷ rest) len [] = if 0 == len then some (some 0, []) else some (none, [])
fixread (read_error ∷ rest) len (c ∷ read) = some (some (suc (length read)), c ∷ read)
fixread (got [] ∷ rest) len read = some (some (length read), read)
fixread (got (b ∷ bytes) ∷ rest) len read =
    if length read == len
    then some (some (length read), read)
    else fixread rest len (read ++ (b ∷ bytes))

-- `std::string(rbuf).find_first_of("end") != npos`.
unfoldable pub says_end : List ℕ → Bool
unfolding find_first_of
says_end message = elim (find_first_of (b'e' ∷ b'n' ∷ b'd' ∷ []) message 0) [
  | none ↦ false
  | some pos ↦ true
]

-- The loop of a child over the messages of its pipe: the lines that it writes after the head. `line` is
-- the parent's variable as it was at the fork.
unfoldable pub child_lines : List ℕ → List (List ℕ) → List (List ℕ)
child_lines line [] = []
child_lines line (message ∷ rest) = if says_end message then [] else line ∷ child_lines line rest

-- mapPipe: for each name the line at the fork of its child, and the messages in its pipe.
pub record PipeInfo : Type 0 where
  pub forked_at : List ℕ
  pub messages : List (List ℕ)

-- A line to the child of its name, which is forked for a new one.
unfoldable pub send_line : List ℕ → List ℕ → List (List ℕ × PipeInfo) → List (List ℕ × PipeInfo)
send_line name line [] = (name, record { forked_at = line; messages = line ∷ [] }) ∷ []
send_line name line ((other, p) ∷ pipes) =
    if other =ᵇ name
    then (other, record p { messages = p.messages ++ (line ∷ []) }) ∷ pipes
    else (other, p) ∷ send_line name line pipes

-- The text before the first comma, `splitString(line, ",")[0]`.
unfoldable pub name_of : List ℕ → Option (List ℕ)
unfolding split_string
name_of line = do parts ← split_string line (b',' ∷ []); get_elem? parts 0

-- The loop over the lines after the head. A line without a name is passed over.
unfoldable pub send_named : List ℕ → List ℕ → List (List ℕ × PipeInfo) → List (List ℕ × PipeInfo)
send_named [] line pipes = pipes
send_named (c ∷ name) line pipes = send_line (c ∷ name) line pipes

unfoldable pub distribute :
    List (List ℕ) → List (List ℕ × PipeInfo) → Option (List (List ℕ × PipeInfo))
unfolding name_of send_named
distribute [] pipes = some pipes
distribute (line ∷ lines) pipes = do
  name ← name_of line
  distribute lines (send_named name line pipes)

-- The last loop sends "end" to every child. The files: the head, and the lines of the child.
unfoldable pub files_of : List ℕ → List (List ℕ × PipeInfo) → List (List ℕ × List (List ℕ))
files_of csv_head [] = []
files_of csv_head ((name, p) ∷ pipes) =
    let end = b'e' ∷ b'n' ∷ b'd' ∷ [] in
    (name, csv_head ∷ child_lines p.forked_at (p.messages ++ (end ∷ []))) ∷ files_of csv_head pipes
