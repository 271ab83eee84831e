-- ===== src/Base/Text.antt =====
-- Texts that the program walks, as lists of characters.
use Prim.Native.Nat.{ℕ}
use Prim.Native.Char.{Char, code}
use Prim.Native.String.{String}
use mathlib.Core.Bool.{Bool, false}
use mathlib.Core.Option.{Option, none, some}
use mathlib.Core.List.{List, [], ◌∷◌}
use sig_topo.Base.Tests.{nat_eq, if◌then◌else◌}

unfoldable pub chars : String → List Char
chars String.[] = []
chars (String.◌∷◌ c s) = c ∷ chars s

unfoldable pub of_chars : List Char → String
of_chars [] = String.[]
of_chars (c ∷ cs) = String.◌∷◌ c (of_chars cs)

abbrev pub is_char : ℕ → Char → Bool
is_char n c = nat_eq (code c) n

-- The head of what is left satisfies the test: `i + 1 < chars.len() && test(chars[i + 1])`.
abbrev pub head_is : (Char → Bool) → List Char → Bool
head_is test [] = false
head_is test (c ∷ cs) = test c

abbrev pub tail_of : List Char → List Char
tail_of [] = []
tail_of (c ∷ cs) = cs

-- The longest run of characters that satisfy the test, and what is left.
unfoldable pub span : (Char → Bool) → List Char → List Char × List Char
span test [] = ([], [])
span test (c ∷ cs) =
    let (run, rest) = span test cs in if test c then (c ∷ run, rest) else ([], c ∷ cs)

-- What stands before the first occurrence of the character, and what follows it.
unfoldable pub split_at : ℕ → List Char → Option (List Char × List Char)
split_at n [] = none
split_at n (c ∷ cs) =
    let more = split_at n cs in
    if is_char n c
    then some ([], cs)
    else elim more [ none ↦ none | some (s, rest) ↦ some (c ∷ s, rest) ]
