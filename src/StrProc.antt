-- ===== src/StrProc.antt =====
-- src/rl_str_proc.cc: `StrProc`, which cuts a line into tokens. The sources pass separators of one
-- character only (" " and "="), so a separator is a byte here.
pub mod Runs
pub mod Tokens
pub mod RoundTrip
use vyatta_wanloadbalance.Common.{
  ℕ, zero, suc, ◌+◌, ◌<◌, Bool, List, [], ◌∷◌, ◌++◌, Text, ◌==◌, if◌then◌else◌, length, get_or, ltb,
  take, drop, ◌-◌,
}

-- The byte `~`, which stands for a separator inside the constructor.
abbrev pub mark : ℕ
mark = b'~'

-- Every tab becomes four spaces.
unfoldable pub tabs_to_spaces : Text → Text
tabs_to_spaces [] = []
tabs_to_spaces (c ∷ cs) = (if c == 9 then 32 ∷ 32 ∷ 32 ∷ 32 ∷ [] else c ∷ []) ++ tabs_to_spaces cs

-- The first line feed is dropped.
unfoldable pub remove_newline : Text → Text
remove_newline [] = []
remove_newline (c ∷ cs) = if c == 10 then cs else c ∷ remove_newline cs

-- Every separator becomes a mark. The separator is another byte than the mark: the loop of the source
-- does not end on a line that holds the mark as its separator, since it finds again what it has just
-- written.
unfoldable pub mark_separators : ℕ → Text → Text
mark_separators sep [] = []
mark_separators sep (c ∷ cs) = (if c == sep then mark else c) ∷ mark_separators sep cs

-- `tmp.substr(tmp.find_first_not_of("~"))`, and the empty text where that finds nothing.
unfoldable pub drop_marks : Text → Text
drop_marks [] = []
drop_marks (c ∷ cs) = if c == mark then drop_marks cs else c ∷ cs

-- The text before the first mark, and the text after it.
unfoldable pub first_word : Text → Text
first_word [] = []
first_word (c ∷ cs) = if c == mark then [] else c ∷ first_word cs

unfoldable pub after_word : Text → Text
after_word [] = []
after_word (c ∷ cs) = if c == mark then cs else after_word cs

-- The loop that collects the words. The fuel is above the length of the text.
unfoldable pub collect : ℕ → Text → List Text
collect zero t = []
collect (suc fuel) t = elim (drop_marks t) [
  | [] ↦ []
  | c ∷ cs ↦ first_word (c ∷ cs) ∷ collect fuel (after_word (c ∷ cs))
]

-- `StrProc::StrProc`, for a separator that is not the mark.
unfoldable pub str_proc : Text → ℕ → List Text
str_proc line sep =
    let t = mark_separators sep (remove_newline (tabs_to_spaces line)) in collect (suc (length t)) t

-- `StrProc::get(int)`.
unfoldable pub get : List Text → ℕ → Text
get words i = get_or words i []

-- `StrProc::get()`.
unfoldable pub get_all : List Text → List Text
get_all words = words

-- The loop of `StrProc::get(int, int)`, with a space behind each of so many words.
unfoldable pub spaced : ℕ → List Text → Text
spaced zero words = []
spaced (suc n) [] = []
spaced (suc n) (word ∷ words) = word ++ 32 ∷ spaced n words

-- `StrProc::get(int, int)`, between positions that are not negative. Of the empty text
-- `substr(0, length - 1)` takes all.
unfoldable pub get_between : List Text → ℕ → ℕ → Text
unfolding spaced
get_between words start end =
    let text = spaced (end - start) (drop start words) in
    if ltb start (length words) then take (length text - 1) text else []
