-- ===== src/Engine/GuardInfo.antt =====
-- The guard results that are shown are the last ones.
use sig_topo.Base.{
  String, ◌≡◌, refl, sym, ap, subst, ◌∙◌, Bool, true, false, Option, none, some, List, [], ◌∷◌,
  arith, Bool-cases, inl, inr, eq_iff, eq_refl, if◌then◌else◌,
}
use sig_topo.Trace.{TraceEvent, reaction_guard_evaluated}
use sig_topo.Engine.Query.{
  ReactionKey, same_key, insert_key, lookup_key, guard_info_from, guard_info_from_traces,
}

same_key-eq : (a b : ReactionKey) → same_key a b ≡ true → a ≡ b
same_key-eq a b h =
    let s1 = (eq_iff a.from_signal b.from_signal).0 (ground (arith, h)) in
    let s2 = (eq_iff a.from_state b.from_state).0 (ground (arith, h)) in
    let s3 = (eq_iff a.to_signal b.to_signal).0 (ground (arith, h)) in
    let s4 = (eq_iff a.event b.event).0 (ground (arith, h)) in cc (s1, s2, s3, s4)

same_key_refl : (a : ReactionKey) → same_key a a ≡ true
same_key_refl a = simp eq_refl

lookup_key-insert_key :
    (q k : ReactionKey) (v : String) (m : List (ReactionKey × String))
    → lookup_key q (insert_key k v m) ≡ (if same_key k q then some v else lookup_key q m)
unfolding lookup_key insert_key
lookup_key-insert_key q k v [] = refl
lookup_key-insert_key q k v ((j, w) ∷ m) = elim (Bool-cases (same_key j k)) [
  | inl same ↦
      let j_k = same_key-eq j k same in
      elim (Bool-cases (same_key k q)) [
        | inl wanted ↦ rw (same, wanted) refl
        | inr other ↦
            let also = subst (λ x. same_key x q ≡ false) (sym j_k) other in
            rw (same, other, also) refl
      ]
  | inr different ↦
      let rest = lookup_key-insert_key q k v m in
      elim (Bool-cases (same_key j q)) [
        | inl found ↦ elim (Bool-cases (same_key k q)) [
          | inl wanted ↦
              let j_k : j ≡ k = same_key-eq j q found ∙ sym (same_key-eq k q wanted) in
              let yes = subst (λ x. same_key j x ≡ true) j_k (same_key_refl j) in
              absurd (cc (yes, different))
          | inr other ↦ rw (different, found, other) refl
        ]
        | inr not_found ↦ rw (different, not_found) rest
      ]
]

-- The result in this event, if it is an evaluation of the guard of this reaction.
abbrev pub result_for : ReactionKey → TraceEvent → Option String
result_for k (reaction_guard_evaluated _ from_signal from_state to_signal event _ result _) =
    if same_key
      (record {
        from_signal = from_signal;
        from_state = from_state;
        to_signal = to_signal;
        event = event;
      })
      k
    then some result
    else none
result_for k _ = none

abbrev pub or_else : Option String → Option String → Option String
or_else none o = o
or_else (some r) o = some r

-- The result in the last such event.
abbrev pub last_result : ReactionKey → List TraceEvent → Option String
last_result k [] = none
last_result k (ev ∷ evs) = or_else (last_result k evs) (result_for k ev)

or_else_assoc : (a b c : Option String) → or_else (or_else a b) c ≡ or_else a (or_else b c)
or_else_assoc none b c = refl
or_else_assoc (some r) b c = refl

or_else-none : (a : Option String) → or_else a none ≡ a
or_else-none none = refl
or_else-none (some r) = refl

or_else_if :
    (test : Bool) (v : String) (o : Option String)
    → (if test then some v else o) ≡ or_else (if test then some v else none) o
or_else_if true v o = refl
or_else_if false v o = refl

lookup_key-guard_info_from :
    (k : ReactionKey) (evs : List TraceEvent) (m : List (ReactionKey × String))
    → lookup_key k (guard_info_from evs m) ≡ or_else (last_result k evs) (lookup_key k m)
unfolding guard_info_from
lookup_key-guard_info_from k [] m = refl
lookup_key-guard_info_from k (reaction_guard_evaluated a b c d e f r t ∷ evs) m =
    let key : ReactionKey = record { from_signal = b; from_state = c; to_signal = d; event = e } in
    lookup_key-guard_info_from k evs (insert_key key r m)
    ∙ ap (or_else (last_result k evs))
        (lookup_key-insert_key k key r m ∙ or_else_if (same_key key k) r (lookup_key k m))
    ∙ sym (
        or_else_assoc (last_result k evs) (if same_key key k then some r else none)
          (lookup_key k m))
lookup_key-guard_info_from k (_ ∷ evs) m =
    lookup_key-guard_info_from k evs m
    ∙ ap (λ o. or_else o (lookup_key k m)) (sym (or_else-none (last_result k evs)))

-- For each reaction, the result that `guard_info_from_traces` holds is that of its last guard
-- evaluation in the trace, and there is none where its guard was never evaluated.
pub guard_info_from_traces-last :
    (k : ReactionKey) (evs : List TraceEvent)
    → lookup_key k (guard_info_from_traces evs) ≡ last_result k evs
unfolding guard_info_from_traces lookup_key
guard_info_from_traces-last k evs =
    lookup_key-guard_info_from k evs [] ∙ or_else-none (last_result k evs)
