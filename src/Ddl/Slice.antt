-- ===== src/Ddl/Slice.antt =====
-- `&src[start..end]` and `trim` of the texts that ddl/parser.rs takes from the source.
use mathlib.Core.List.{reverse}
use sig_topo.Base.{
  ℕ, zero, suc, ◌-◌, String, Char, Option, none, some, List, [], ◌∷◌, ltb, if◌then◌else◌,
}
use sig_topo.Base.Text.{chars, of_chars, is_char}
use sig_topo.Json.{Platform}
use sig_topo.Guard.Lexer.{is_whitespace}
use sig_topo.Ddl.Lexer.{len_utf8, push_char}

-- The characters before and after an offset in bytes, where it stands between two characters.
unfoldable pub split_bytes : ℕ → List Char → Option (List Char × List Char)
split_bytes zero cs = some ([], cs)
split_bytes (suc n) [] = none
split_bytes (suc n) (c ∷ cs) =
    let more = push_char c (split_bytes (suc n - len_utf8 c) cs) in
    if ltb (suc n) (len_utf8 c) then none else more

abbrev pub text_of : Option (List Char × List Char) → Option String
text_of none = none
text_of (some (s, rest)) = some (of_chars s)

abbrev pub text_after : Option (List Char × List Char) → ℕ → Option String
text_after none n = none
text_after (some (before, rest)) n = text_of (split_bytes n rest)

-- `none` is the panic of a slice: `end` before `start`, or an offset inside a character or past
-- the end.
unfoldable pub slice : String → ℕ → ℕ → Option String
unfolding split_bytes chars of_chars
slice src start end =
    if ltb end start then none else text_after (split_bytes start (chars src)) (end - start)

module _ (p : Platform) where
  unfoldable pub trim_start : List Char → List Char
  trim_start [] = []
  trim_start (c ∷ cs) = let rest = trim_start cs in if is_whitespace p c then rest else c ∷ cs

  unfoldable pub trim : String → String
  unfolding trim_start chars of_chars
  trim s = of_chars (reverse (trim_start (reverse (trim_start (chars s)))))

-- `strip_prefix` and `strip_suffix` of one character.
abbrev strip_first : ℕ → List Char → Option (List Char)
strip_first n [] = none
strip_first n (c ∷ cs) = if is_char n c then some cs else none

unfoldable pub strip_braces : String → String
unfolding chars of_chars
strip_braces raw = elim (strip_first b'{' (chars raw)) [
  | none ↦ raw
  | some inner ↦ elim (strip_first b'}' (reverse inner)) [
    | none ↦ raw
    | some turned ↦ of_chars (reverse turned)
  ]
]
