-- ===== src/Guard/Scans.antt =====
-- The scanners of `tokenize` leave no more than they are given.
use sig_topo.Base.{
  ℕ, suc, ◌≤◌, ◌<◌, String, Char, ◌≡◌, refl, subst, Bool, true, false, ◌||◌, some, List, [], ◌∷◌,
  length, arith, Option-cases, Bool-cases, inl, inr, Result, ok, err, and_then,
}
use sig_topo.Base.Text.{is_char, tail_of, span, split_at}
use sig_topo.Guard.Lexer.{is_ascii_digit, scan_number}

pub tail_shorter : (cs : List Char) → length (tail_of cs) ≤ length cs
tail_shorter [] = omega arith
tail_shorter (c ∷ cs) = omega arith

pub span_shorter : (test : Char → Bool) (cs : List Char) → length ((span test cs).1) ≤ length cs
unfolding span
span_shorter test [] = omega arith
span_shorter test (c ∷ cs) =
    let rest = span_shorter test cs in
    elim (Bool-cases (test c)) [
      | inl passed ↦ rw passed (omega arith)
      | inr other ↦ rw other (omega arith)
    ]

pub split_at_shorter :
    (n : ℕ) (cs s rest : List Char) → split_at n cs ≡ some (s, rest) → length rest < length cs
unfolding split_at
split_at_shorter n [] s rest h = absurd (cc h)
split_at_shorter n (c ∷ cs) s rest h = elim (Bool-cases (is_char n c)) [
  | inl here ↦
      let same = rw here at h in
      let r : cs ≡ rest = cc same in
      subst (λ (x : List Char). length x < suc (length cs)) r (omega arith)
  | inr other ↦ elim (Option-cases (split_at n cs)) [
    | inl missing ↦ absurd (cc (rw (other, missing) at h))
    | inr ((s', rest'), found) ↦
        let shorter = split_at_shorter n cs s' rest' found in
        let same = rw (other, found) at h in
        let r : rest' ≡ rest = cc same in
        subst (λ (x : List Char). length x < suc (length cs)) r (omega arith)
  ]
]

-- What scanning leaves, after a first character `c`.
more_shorter :
    (c : Char) (scanned : Result String (List Char × Bool × List Char)) (n : ℕ)
    (r : List Char × Bool × List Char)
    → ((r' : List Char × Bool × List Char) → scanned ≡ ok r' → length (r'.2) ≤ n)
    → and_then scanned (λ (s, fl, rest). ok (c ∷ s, fl, rest)) ≡ ok r
    → length (r.2) ≤ n
more_shorter c (ok (s, fl, rest)) n r shorter h =
    let same : rest ≡ r.2 = cc h in
    subst (λ (x : List Char). length x ≤ n) same (shorter (s, fl, rest) refl)
more_shorter c (err m) n r shorter h = absurd (cc h)

-- On a digit or a first point, scanning takes it.
pub scan_number_taken :
    (c : Char) (cs : List Char) (is_float : Bool) (r : List Char × Bool × List Char)
    → ((seen : Bool) (r' : List Char × Bool × List Char)
        → scan_number seen cs ≡ ok r'
        → length (r'.2) ≤ length cs)
    → (is_ascii_digit c || is_char b'.' c) ≡ true
    → scan_number is_float (c ∷ cs) ≡ ok r
    → length (r.2) ≤ length cs
unfolding scan_number
scan_number_taken c cs true r shorter starts h = elim (Bool-cases (is_char b'.' c)) [
  | inl point ↦ absurd (cc (rw point at h))
  | inr other ↦
      let digit : is_ascii_digit c ≡ true = ground (arith, starts, other) in
      more_shorter c (scan_number true cs) (length cs) r (shorter true) (rw (other, digit) at h)
]
scan_number_taken c cs false r shorter starts h = elim (Bool-cases (is_char b'.' c)) [
  | inl point ↦ more_shorter c (scan_number true cs) (length cs) r (shorter true) (rw point at h)
  | inr other ↦
      let digit : is_ascii_digit c ≡ true = ground (arith, starts, other) in
      more_shorter c (scan_number false cs) (length cs) r (shorter false) (rw (other, digit) at h)
]

pub scan_number_shorter :
    (is_float : Bool) (cs : List Char) (r : List Char × Bool × List Char)
    → scan_number is_float cs ≡ ok r
    → length (r.2) ≤ length cs
unfolding scan_number
scan_number_shorter is_float [] r h =
    let same : [] ≡ r.2 = cc h in subst (λ (x : List Char). length x ≤ 0) same (omega arith)
scan_number_shorter is_float (c ∷ cs) r h = elim (Bool-cases (is_ascii_digit c || is_char b'.' c)) [
  | inl starts ↦
      let shorter =
        scan_number_taken c cs is_float r (λ seen r'. scan_number_shorter seen cs r') starts h in
      omega arith
  | inr other ↦
      let not_point : is_char b'.' c ≡ false = ground (arith, other) in
      let not_digit : is_ascii_digit c ≡ false = ground (arith, other) in
      let same : c ∷ cs ≡ r.2 = cc (rw (not_point, not_digit) at h) in
      subst (λ (x : List Char). length x ≤ suc (length cs)) same (omega arith)
]
