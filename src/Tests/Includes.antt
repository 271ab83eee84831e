-- ===== src/Tests/Includes.antt =====
-- The theorems on loading, at two files that include each other, and what is lost of an included one.
use sig_topo.Base.{
  String, ◌≡◌, refl, true, Option, some, none, [], ◌∷◌, Result, ok, err, contains, if◌then◌else◌,
  ◌==◌, Bool-cases, inl, inr, subst,
}
use sig_topo.Base.Int.{ℤ}
use sig_topo.Error.{EngineError, include_cycle}
use sig_topo.Schema.{TopologySchema}
use sig_topo.Compose.Load.{Files, merge_in, load_topology}
use sig_topo.Compose.Loads.{load_topology-returns}

abbrev empty : TopologySchema ℤ
empty = record {
  version = "1";
  signals = [];
  transitions = [];
  reactions = [];
  components = none;
  instances = [];
  includes = [];
}

-- Each file holds its own name, and includes the other.
abbrev canonical_name : String → Option String
canonical_name path = if path == "a" then some "a" else if path == "b" then some "b" else none

abbrev contents : String → Result String (TopologySchema ℤ)
contents text = ok (record empty { includes = (if text == "a" then "b" else "a") ∷ [] })

abbrev circle : Files ℤ
circle = record {
  read_to_string = canonical_name;
  from_str = contents;
  canonicalize = canonical_name;
  join_parent = λ path inc. inc;
}

circle_names : (path c : String) → canonical_name path ≡ some c → contains c ("a" ∷ "b" ∷ []) ≡ true
circle_names path c h = elim (Bool-cases (path == "a")) [
  | inl a ↦
      let same : "a" ≡ c = cc (rw a at h) in
      subst (λ q. contains q ("a" ∷ "b" ∷ []) ≡ true) same refl
  | inr not_a ↦ elim (Bool-cases (path == "b")) [
    | inl b ↦
        let same : "b" ≡ c = cc (rw (not_a, b) at h) in
        subst (λ q. contains q ("a" ∷ "b" ∷ []) ≡ true) same refl
    | inr not_b ↦ absurd (cc (rw (not_a, not_b) at h))
  ]
]

load_topology-returns_example :
    (r : Result EngineError (TopologySchema ℤ)) × (load_topology circle 3 "a" ≡ some r)
load_topology-returns_example = load_topology-returns ("a" ∷ "b" ∷ []) circle circle_names "a"

circle_load : load_topology circle 3 "a" ≡ some (err (include_cycle "a"))
unfolding load_topology
circle_load = refl

-- The instances of an included file are dropped.
abbrev with_instance : TopologySchema ℤ
with_instance = record empty {
  instances = record { component = "door"; bindings = []; connections = [] } ∷ [];
}

instance_lost : merge_in empty with_instance ≡ ok empty
unfolding merge_in
instance_lost = refl
