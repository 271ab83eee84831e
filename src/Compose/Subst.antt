-- ===== src/Compose/Subst.antt =====
-- The substitution of `${param}` in the texts of a component.
use sig_topo.Base.{
  ℕ, zero, suc, String, Char, ◌&&◌, Option, none, some, List, [], ◌∷◌, ◌++◌, HashMap, lookup,
  length, contains, if◌then◌else◌, Result, ok, err, and_then,
}
use sig_topo.Base.Text.{chars, of_chars, is_char, head_is, tail_of, split_at}
use sig_topo.Error.{EngineError, invalid_param_ref}

abbrev pub dollar_brace : List Char
dollar_brace = chars "${"

-- `rest.find("${")`: what stands before it, and what follows it.
unfoldable pub find_open : List Char → Option (List Char × List Char)
find_open [] = none
find_open (c ∷ cs) =
    let more = find_open cs in
    if is_char b'$' c && head_is (is_char b'{') cs
    then some ([], tail_of cs)
    else elim more [ none ↦ none | some (s, rest) ↦ some (c ∷ s, rest) ]

-- What one `${name}` is replaced by: its value, or itself where the name is not bound.
unfoldable pub replacement : List Char → HashMap String → List Char
unfolding chars of_chars
replacement name bound = elim (lookup (of_chars name) bound) [
  | some value ↦ chars value
  | none ↦ chars "${" ++ (name ++ chars "}")
]

-- The loop of `subst`: each round consumes characters, so their number is enough fuel.
unfoldable pub subst_from : ℕ → List Char → HashMap String → List Char
unfolding find_open split_at replacement
subst_from zero rest bound = rest
subst_from (suc fuel) rest bound = elim (find_open rest) [
  | none ↦ rest
  | some (literal, after_open) ↦ elim (split_at b'}' after_open) [
    | none ↦ rest
    | some (name, after_close) ↦
        literal ++ (replacement name bound ++ subst_from fuel after_close bound)
  ]
]

unfoldable pub subst : String → HashMap String → String
unfolding subst_from chars of_chars
subst s bound = of_chars (subst_from (length (chars s)) (chars s) bound)

unfoldable pub subst_vec : List String → HashMap String → List String
unfolding subst
subst_vec [] bound = []
subst_vec (s ∷ items) bound = subst s bound ∷ subst_vec items bound

-- The name in the first `${...}`.
unfoldable pub find_unresolved : String → Option String
unfolding find_open split_at chars of_chars
find_unresolved s = elim (find_open (chars s)) [
  | none ↦ none
  | some (_, after_open) ↦ elim (split_at b'}' after_open) [
    | none ↦ none
    | some (name, _) ↦ some (of_chars name)
  ]
]

-- A reference that is left must be to a declared parameter.
abbrev checked_ref : String → List String → String → Option String → Result EngineError String
checked_ref name params result none = ok result
checked_ref name params result (some rem) =
    if contains rem params then ok result else err (invalid_param_ref name rem)

unfoldable pub resolve : String → String → List String → HashMap String → Result EngineError String
unfolding subst find_unresolved
resolve s name params bound =
    let result = subst s bound in checked_ref name params result (find_unresolved result)

unfoldable pub resolve_vec :
    List String → String → List String → HashMap String → Result EngineError (List String)
unfolding resolve
resolve_vec [] name params bound = ok []
resolve_vec (s ∷ items) name params bound =
    and_then (resolve s name params bound)
      λ r. and_then (resolve_vec items name params bound) λ rs. ok (r ∷ rs)
