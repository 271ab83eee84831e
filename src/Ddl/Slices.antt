-- ===== src/Ddl/Slices.antt =====
-- A slice of the source between two offsets that stand between characters does not panic.
use sig_topo.Base.{
  ℕ, zero, suc, ◌-◌, ◌≤◌, ◌<◌, String, Char, ◌≡◌, refl, sym, ap, ◌∙◌, false, some, List, [], ◌∷◌,
  ◌++◌, ltb, arith,
}
use sig_topo.Base.Text.{chars, of_chars}
use sig_topo.Ddl.Lexer.{len_utf8, bytes}
use sig_topo.Ddl.Slice.{split_bytes, text_after, slice}
use sig_topo.Ddl.Laid.{Boundary, bytes-append}

len_utf8_pos : (c : Char) → 0 < len_utf8 c
len_utf8_pos c = ground arith

split_bytes-append :
    (n : ℕ) (before rest : List Char)
    → n ≡ bytes before
    → split_bytes n (before ++ rest) ≡ some (before, rest)
unfolding split_bytes
split_bytes-append zero [] rest h = refl
split_bytes-append (suc n) [] rest h = absurd (omega (arith, h))
split_bytes-append zero (c ∷ before) rest h = absurd (omega (arith, h, len_utf8_pos c))
split_bytes-append (suc n) (c ∷ before) rest h =
    let fits : ltb (suc n) (len_utf8 c) ≡ false = ground (arith, h) in
    let more =
      split_bytes-append (suc n - len_utf8 c) before rest (omega (arith, h, len_utf8_pos c)) in
    rw (fits, more)

-- Of two ways to split a list, the one with fewer bytes in front is a way to split the other's front.
splits_further :
    (xs ys rest rest' : List Char)
    → xs ++ rest ≡ ys ++ rest'
    → bytes xs ≤ bytes ys
    → (zs : List Char) × (ys ≡ xs ++ zs) × (rest ≡ zs ++ rest')
splits_further [] ys rest rest' h l = (ys, refl, h)
splits_further (c ∷ xs) [] rest rest' h l = absurd (omega (arith, l, len_utf8_pos c))
splits_further (c ∷ xs) (d ∷ ys) rest rest' h l =
    let head : c ≡ d = cc h in
    let tails : xs ++ rest ≡ ys ++ rest' = cc h in
    let shorter : bytes xs ≤ bytes ys = omega (arith, l, ap len_utf8 head) in
    let (zs, front, back) = splits_further xs ys rest rest' tails shorter in
    (zs, cc (head, front), back)

pub slice_defined :
    (src : String) (start end : ℕ)
    → Boundary src start
    → Boundary src end
    → start ≤ end
    → (s : String) × (slice src start end ≡ some s)
unfolding slice
slice_defined src start end a b l =
    let (zs, front, back) =
      splits_further a.before b.before a.rest b.rest (sym a.splits ∙ b.splits)
        (omega (arith, a.measured, b.measured)) in
    let ordered : ltb end start ≡ false = ground (arith, l) in
    let first : split_bytes start (chars src) ≡ some (a.before, a.rest) =
      ap (split_bytes start) a.splits ∙ split_bytes-append start a.before a.rest a.measured in
    let size : end - start ≡ bytes zs =
      omega (arith, a.measured, b.measured, ap bytes front, bytes-append a.before zs) in
    let second : split_bytes (end - start) a.rest ≡ some (zs, b.rest) =
      ap (split_bytes (end - start)) back ∙ split_bytes-append (end - start) zs b.rest size in
    (of_chars zs, rw (ordered, first, text_after, second))
