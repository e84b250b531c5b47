-- ===== src/Execute/Tokens.antt =====
-- The strings that each command of execute.c begins with, and what `object` does with an unknown name.
use craftsman_console.Base.{
  ℕ, ◌+◌, ◌≡◌, refl, List, [], ◌∷◌, ◌++◌, map, none, some, length, IsText, ok, fault,
}
use craftsman_console.Tokenize.{token_string}
use craftsman_console.Tokenize.Words.{words, tokenize-words}
use craftsman_console.Dlfn.{dlfn_get_object}
use craftsman_console.Execute.{World}
use craftsman_console.Execute.Commands.{strings_at, command_tokens, execute_object}

strings_at_lem :
    (line : List ℕ) (tokens : List ℕ) (ws : List (List ℕ))
    → map (token_string line) tokens ≡ map some ws
    → strings_at line tokens ≡ ok ws
unfolding strings_at
strings_at_lem line [] [] e = refl
strings_at_lem line [] (v ∷ ws) e = cc
strings_at_lem line (t ∷ tokens) [] e = cc
strings_at_lem line (t ∷ tokens) (v ∷ ws) e =
    let head : token_string line t ≡ some v = cc in
    let tail : map (token_string line) tokens ≡ map some ws = cc in
    rw head (rw (strings_at_lem line tokens ws tail))

-- A command begins with the words of its line: all but the last end at a space, and the last is the
-- rest of the line where there are more spaces than the command has words.
pub command_tokens-words :
    (s spare : List ℕ) (k : ℕ)
    → IsText s
    → command_tokens (length s) (s ++ 0 ∷ spare) (k + 1) ≡ ok (words [] k s)
unfolding command_tokens
command_tokens-words s spare k t =
    let (tokens, line, cut, strings, whole, least, most) = tokenize-words s spare k t in
    rw cut (strings_at_lem line tokens (words [] k s) strings)

-- `object` with the name of no object reads through a null pointer.
pub execute_object-unknown :
    (s spare command name : List ℕ) (w : World)
    → IsText s
    → words [] 1 s ≡ command ∷ name ∷ []
    → dlfn_get_object name w.objects ≡ none
    → execute_object (length s) (s ++ 0 ∷ spare) w ≡ fault
unfolding execute_object
execute_object-unknown s spare command name w t two unknown =
    rw (command_tokens-words s spare 1 t) (rw two (rw unknown))
