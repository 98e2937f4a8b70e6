-- ===== src/Trivials/SplitFile/Tests.antt =====
-- Lines of a small csv file.
use cpp_linux_learn.Common.{
  arith, inl, inr, ℕ, ◌≡◌, refl, some, List, [], ◌∷◌, ◌++◌, replicate, codes,
}
use cpp_linux_learn.Trivials.SplitFile.{
  split_string, split_from, find_first_of, substr, moved, write_error, fixwrite, says_end,
  child_lines, PipeInfo, distribute, send_line, send_named, name_of, files_of,
}
use cpp_linux_learn.Trivials.SplitFile.Strings.{join, AllFree, split_string_lem}
use cpp_linux_learn.Trivials.SplitFile.Files.{child_lines_lem}

split_line : split_string (codes "cu,1,") (codes ",") ≡ some (codes "cu" ∷ codes "1" ∷ [] ∷ [])
unfolding split_string split_from find_first_of substr
split_line = refl

-- `find_first_of` takes the delimiter for a set of characters.
split_longer : split_string (codes "a;b") (codes ";!") ≡ some (codes "a" ∷ [] ∷ [])
unfolding split_string split_from find_first_of substr
split_longer = refl

split_string_lem_example :
    (parts : List (List ℕ)) × (split_string (codes "cu,1,") (b',' ∷ []) ≡ some parts)
    × (join b',' parts ≡ codes "cu,1,")
    × AllFree b',' parts
split_string_lem_example = split_string_lem b',' (codes "cu,1,")

-- The second line of "cu" is written as the first, and the third, which has an n, ends the file.
abbrev quotes : List (List ℕ)
quotes = codes "cu,1" ∷ codes "cu,2" ∷ codes "al,7" ∷ codes "cu,nan" ∷ codes "cu,4" ∷ [] ∷ []

abbrev pipes_after : List (List ℕ × PipeInfo)
pipes_after =
    (
      codes "cu",
      record {
        forked_at = codes "cu,1";
        messages = codes "cu,1" ∷ codes "cu,2" ∷ codes "cu,nan" ∷ codes "cu,4" ∷ [];
      },
    )
    ∷ (codes "al", record { forked_at = codes "al,7"; messages = codes "al,7" ∷ [] })
    ∷ []

quotes_sent : distribute quotes [] ≡ some pipes_after
unfolding distribute send_line send_named name_of split_string split_from find_first_of substr
quotes_sent = refl

quotes_files :
    files_of (codes "name,price") pipes_after
    ≡ (codes "cu", codes "name,price" ∷ codes "cu,1" ∷ codes "cu,1" ∷ [])
      ∷ (codes "al", codes "name,price" ∷ codes "al,7" ∷ [])
      ∷ []
unfolding files_of child_lines says_end find_first_of
quotes_files = refl

child_lines_lem_example :
    (child_lines (codes "cu,1") (codes "cu,1" ∷ codes "cu,2" ∷ []) ≡ replicate 2 (codes "cu,1"))
    × (child_lines (codes "cu,1") (
          (codes "cu,1" ∷ codes "cu,2" ∷ [])
          ++ (codes "cu,o" ++ b'n' ∷ codes "e") ∷ codes "cu,3" ∷ [])
        ≡ replicate 2 (codes "cu,1"))
child_lines_lem_example =
    child_lines_lem (codes "cu,1") (codes "cu,1" ∷ codes "cu,2" ∷ []) (codes "cu,3" ∷ [])
      (codes "cu,o") (codes "e") b'n' (omega arith) (inr (inl refl))

two_parts :
    fixwrite (moved 2 ∷ moved 1 ∷ write_error ∷ []) (codes "abcd") [] ≡ some (some 3, codes "abc")
unfolding fixwrite
two_parts = refl
