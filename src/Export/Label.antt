-- ===== src/Export/Label.antt =====
-- Labels in the text for Graphviz: what a reader of quoted text takes from an escaped one.
use text.Mathlib.TextEquality.{Char-path}
use Prim.Native.String.{char_at}
use sig_topo.Base.{
  ℕ, String, Char, true, false, ◌≡◌, refl, sym, ap, ◌∙◌, inl, inr, Option, none, some, List, [],
  ◌∷◌, ◌++◌, Bool-cases, if◌then◌else◌, arith,
}
use sig_topo.Base.Text.{chars, of_chars, is_char}
use sig_topo.Export.{backslash, quote, replace, escape_label}

abbrev push_read : Char → Option (List Char × List Char) → Option (List Char × List Char)
push_read c none = none
push_read c (some (text, rest)) = some (c ∷ text, rest)

-- The text before the closing quote, where a backslash stands for the character after it, and what
-- follows the quote; `none` where the text is not closed.
abbrev pub read_quoted : List Char → Option (List Char × List Char)
read_quoted [] = none
read_quoted (c ∷ []) = if is_char quote c then some ([], []) else none
read_quoted (c ∷ d ∷ cs) =
    let escaped = push_read d (read_quoted cs) in
    let plain = push_read c (read_quoted (d ∷ cs)) in
    if is_char quote c then some ([], d ∷ cs) else if is_char backslash c then escaped else plain

-- The two passes of `escape_label`, on the characters.
abbrev escaped : List Char → List Char
escaped cs = replace quote (chars "\\\"") (replace backslash (chars "\\\\") cs)

chars-of_chars : (cs : List Char) → chars (of_chars cs) ≡ cs
unfolding chars of_chars
chars-of_chars [] = refl
chars-of_chars (c ∷ cs) = ap (λ ds. c ∷ ds) (chars-of_chars cs)

is_same : (n : ℕ) (c d : Char) → is_char n c ≡ true → is_char n d ≡ true → c ≡ d
is_same n c d h k = Char-path c d (ground (arith, h, k))

escaped-plain :
    (c : Char) (cs : List Char)
    → is_char backslash c ≡ false
    → is_char quote c ≡ false
    → escaped (c ∷ cs) ≡ c ∷ escaped cs
unfolding replace
escaped-plain c cs h k = rw (h, k) refl

escaped-quote :
    (c : Char) (cs : List Char)
    → is_char quote c ≡ true
    → escaped (c ∷ cs) ≡ char_at "\\" 0 ∷ char_at "\"" 0 ∷ escaped cs
unfolding replace chars
escaped-quote c cs h = rw (is_same quote c (char_at "\"" 0) h refl) refl

escaped-backslash :
    (c : Char) (cs : List Char)
    → is_char backslash c ≡ true
    → escaped (c ∷ cs) ≡ char_at "\\" 0 ∷ char_at "\\" 0 ∷ escaped cs
unfolding replace chars
escaped-backslash c cs h = rw h refl

escaped-none : escaped [] ≡ []
unfolding replace
escaped-none = refl

read_quoted-quote :
    (q : Char) (rest : List Char)
    → is_char quote q ≡ true
    → read_quoted (q ∷ rest) ≡ some ([], rest)
read_quoted-quote q [] h = rw h refl
read_quoted-quote q (d ∷ rest) h = rw h refl

read_quoted-plain :
    (c : Char) (xs : List Char) (q : Char) (rest : List Char)
    → is_char quote c ≡ false
    → is_char backslash c ≡ false
    → read_quoted (c ∷ xs ++ q ∷ rest) ≡ push_read c (read_quoted (xs ++ q ∷ rest))
read_quoted-plain c [] q rest h k = rw (h, k) refl
read_quoted-plain c (d ∷ xs) q rest h k = rw (h, k) refl

read_quoted-escaped :
    (cs rest : List Char) (q : Char)
    → is_char quote q ≡ true
    → read_quoted (escaped cs ++ q ∷ rest) ≡ some (cs, rest)
read_quoted-escaped [] rest q h =
    ap (λ xs. read_quoted (xs ++ q ∷ rest)) escaped-none ∙ read_quoted-quote q rest h
read_quoted-escaped (c ∷ cs) rest q h =
    let later = read_quoted-escaped cs rest q h in
    let read = λ (xs : List Char). read_quoted (xs ++ q ∷ rest) in
    elim (Bool-cases (is_char quote c)) [
      | inl k ↦
          ap read (escaped-quote c cs k)
          ∙ ap (push_read (char_at "\"" 0)) later
          ∙ ap (λ d. some (d ∷ cs, rest)) (sym (is_same quote c (char_at "\"" 0) k refl))
      | inr k ↦ elim (Bool-cases (is_char backslash c)) [
        | inl b ↦
            ap read (escaped-backslash c cs b)
            ∙ ap (push_read (char_at "\\" 0)) later
            ∙ ap (λ d. some (d ∷ cs, rest)) (sym (is_same backslash c (char_at "\\" 0) b refl))
        | inr b ↦
            ap read (escaped-plain c cs b k)
            ∙ read_quoted-plain c (escaped cs) q rest k b
            ∙ ap (push_read c) later
      ]
    ]

-- A reader of quoted text takes from an escaped label, and the quote that follows it, the label as it
-- was, and what stands after the quote: nothing in a label ends its quotes.
pub escape_label-read_quoted :
    (label : String) (q : Char) (rest : List Char)
    → is_char quote q ≡ true
    → read_quoted (chars (escape_label label) ++ q ∷ rest) ≡ some (chars label, rest)
unfolding escape_label
escape_label-read_quoted label q rest h =
    ap (λ xs. read_quoted (xs ++ q ∷ rest)) (chars-of_chars (escaped (chars label)))
    ∙ read_quoted-escaped (chars label) rest q h
