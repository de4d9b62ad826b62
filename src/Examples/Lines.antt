-- ===== src/Examples/Lines.antt =====
-- Lines of a configuration file.
use vyatta_wanloadbalance.Common.{All, ◌≡◌, refl, List, [], ◌∷◌, ◌++◌, Text, arith}
use vyatta_wanloadbalance.StrProc.{
  str_proc, collect, mark_separators, remove_newline, tabs_to_spaces, drop_marks, first_word,
  after_word,
}
use vyatta_wanloadbalance.StrProc.Runs.{runs}
use vyatta_wanloadbalance.StrProc.Tokens.{IsInner, is_blank, str_proc-runs}
use vyatta_wanloadbalance.StrProc.RoundTrip.{joined, IsPlainWord, str_proc-joined}

abbrev config_text : Text
config_text = 9 ∷ b'a' ∷ 32 ∷ 32 ∷ b'b' ∷ b'c' ∷ []

inner : All (IsInner 32) config_text
inner = (
  (refl, refl),
  ((refl, refl), ((refl, refl), ((refl, refl), ((refl, refl), ((refl, refl), tt))))),
)

str_proc-runs_example :
    (str_proc config_text 32 ≡ runs (is_blank 32) config_text)
    × (str_proc (config_text ++ 10 ∷ []) 32 ≡ runs (is_blank 32) config_text)
str_proc-runs_example = str_proc-runs 32 config_text refl inner

two_runs : runs (is_blank 32) config_text ≡ (b'a' ∷ []) ∷ (b'b' ∷ b'c' ∷ []) ∷ []
unfolding runs
two_runs = refl

cut : str_proc (config_text ++ 10 ∷ []) 32 ≡ (b'a' ∷ []) ∷ (b'b' ∷ b'c' ∷ []) ∷ []
unfolding str_proc collect mark_separators remove_newline tabs_to_spaces drop_marks first_word
    after_word
cut = refl

abbrev words : List Text
words = (b'a' ∷ []) ∷ (b'b' ∷ b'c' ∷ []) ∷ []

words_plain : All (IsPlainWord 32) words
words_plain = (
  (ground arith, ((refl, refl, refl, refl), tt)),
  ((ground arith, ((refl, refl, refl, refl), ((refl, refl, refl, refl), tt))), tt),
)

str_proc-joined_example : str_proc (joined 32 words) 32 ≡ words
str_proc-joined_example = str_proc-joined 32 words refl refl refl words_plain
