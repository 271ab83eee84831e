-- ===== src/Samples.antt =====
-- A platform and small topologies for the tests. Its floats are integers, and its clock counts.
use Prim.Native.String.{◌++◌, char_at}
use sig_topo.Base.{
  ℕ, zero, suc, ◌/◌, ◌%◌, ltb, if◌then◌else◌, String, false, Option, none, some, [], ◌∷◌, ok, err,
}
use sig_topo.Base.Int.{ℤ, pos, negsuc, ◌+ℤ◌, ◌-ℤ◌, ◌*ℤ◌, ◌/ℤ◌, eq_ℤ, compare_ℤ, checked}
use sig_topo.Json.{Json, Platform, number, object, field, no_fields}
use sig_topo.Error.{action_execution_error}
use sig_topo.Schema.{SignalDef, ActionBinding, TransitionDef, ReactionDef, TopologySchema}
use sig_topo.Engine.State.{SignalState, ActionFn, Engine}

-- The decimal digits of a number, before those of the text.
unfoldable pub decimal : ℕ → ℕ → String → String
decimal zero n s = s
decimal (suc fuel) n s =
    let t = String.◌∷◌ (char_at "0123456789" (n % 10)) s in
    if ltb n 10 then t else decimal fuel (n / 10) t

abbrev show_integer : ℤ → String
show_integer (pos n) = decimal 20 n ""
show_integer (negsuc n) = "-" ++ decimal 20 (suc n) ""

abbrev pub platform : Platform
platform = record {
  Float = ℤ;
  f_zero = pos 0;
  f_add = ◌+ℤ◌;
  f_sub = ◌-ℤ◌;
  f_mul = ◌*ℤ◌;
  f_div = ◌/ℤ◌;
  f_neg = ◌-ℤ◌ (pos 0);
  f_eq = eq_ℤ;
  partial_cmp = λ a b. some (compare_ℤ a b);
  f_of_i64 = λ i. i;
  parse_f64 = λ s. ok (pos 0);
  Number = ℤ;
  as_i64 = checked;
  as_f64 = λ i. some i;
  number_to_string = λ i. "number";
  json_to_string = λ v. "payload";
  show_i64 = show_integer;
  debug_f64 = λ i. "float";
  debug_str = λ s. s;
  whitespace = λ c. false;
  alphabetic = λ c. false;
  numeric = λ c. false;
  clock = λ n. n;
  World = ℕ;
}

abbrev pub no_actions : ActionBinding
no_actions = record { on_exit = []; on_transition = []; on_enter = [] }

abbrev pub plain_transition : String → String → String → String → TransitionDef
plain_transition signal_id from event to = record {
  signal_id = signal_id;
  from = from;
  event = event;
  to = to;
  actions = no_actions;
  guard = none;
}

abbrev pub plain_reaction : String → String → String → String → ReactionDef ℤ
plain_reaction from_signal from_state to_signal event = record {
  from_signal = from_signal;
  from_state = from_state;
  to_signal = to_signal;
  event = event;
  payload = none;
  guard = none;
  join_group = none;
  requires = [];
  on_fail = none;
}

abbrev pub order_signal : SignalDef
order_signal = record {
  id = "order";
  initial_state = "draft";
  states = "draft" ∷ "paid" ∷ "shipped" ∷ [];
}

abbrev pub stock_signal : SignalDef
stock_signal = record { id = "stock"; initial_state = "free"; states = "free" ∷ "held" ∷ [] }

-- Paying takes at most 100, and runs a callback on entry.
abbrev pub pay : TransitionDef
pay = record {
  signal_id = "order";
  from = "draft";
  event = "pay";
  to = "paid";
  actions = record { on_exit = []; on_transition = []; on_enter = "charge" ∷ [] };
  guard = some "payload.amount <= 100";
}

-- A paid order reserves the stock.
abbrev pub shop : TopologySchema ℤ
shop = record {
  version = "1";
  signals = order_signal ∷ stock_signal ∷ [];
  transitions = pay ∷ plain_transition "stock" "*" "reserve" "held" ∷ [];
  reactions = plain_reaction "order" "paid" "stock" "reserve" ∷ [];
  components = none;
  instances = [];
  includes = [];
}

-- A callback that succeeds and counts its calls, and one that fails.
abbrev pub succeed : ActionFn platform
succeed ctx n = (ok tt, ℕ.suc n)

abbrev pub decline : ActionFn platform
decline ctx n = (err (action_execution_error "declined"), n)

abbrev pub amount : ℕ → Option (Json ℤ)
amount n = some (object (field "amount" (number (pos n)) no_fields))

abbrev pub state_of : SignalDef → String → SignalState
state_of sig current = record {
  current = current;
  states = sig.states;
  initial_state = sig.initial_state;
}

abbrev pub shop_engine : ActionFn platform → Engine platform
shop_engine charge = record {
  signals = ("order", state_of order_signal "draft") ∷ ("stock", state_of stock_signal "free") ∷ [];
  transitions = shop.transitions;
  reactions = shop.reactions;
  actions = ("charge", charge) ∷ [];
  trace = record { events = [] };
  max_cascade_depth = 8;
  clock_reads = 0;
  world = 0;
}
