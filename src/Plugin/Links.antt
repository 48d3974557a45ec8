-- ===== src/Plugin/Links.antt =====
-- What the commands make of the module that receives them: the nodes that it knows, and its links. That is
-- the reading of the commands in the proofs about the plugin; Plugin/Carry compares it with the operations of
-- the module. Commands for aliases do not change it.
use mpolsr_testbed.Common.{
  ℕ, ◌==◌, ◌≡◌, refl, Bool, true, false, not, ◌&&◌, ◌||◌, Option, none, some, List, [], ◌∷◌, ◌++◌,
  if◌then◌else◌,
}
use mpolsr_testbed.Device.{
  cmd_add_link, cmd_add_node, cmd_remove_link, cmd_remove_node, cmd_reset_tc, Token,
}
use mpolsr_testbed.Plugin.{Cache}
use mpolsr_testbed.Plugin.Entries.{link, node}

-- The addresses of the nodes, the links between two addresses, and whether all commands were proper: a
-- node that is added was not known, one that is removed was known, and a link that is added was not there.
pub record Graph : Type 0 where
  pub known : ℕ → Bool
  pub links : ℕ → ℕ → Bool
  pub proper : Bool

abbrev pub run_known : Token → Graph → ℕ → Bool
run_known t g a =
    if t.kind == cmd_add_node
    then (if t.addr_1 == a then true else g.known a)
    else if t.kind == cmd_remove_node
    then (if t.addr_1 == a then false else g.known a)
    else if t.kind == cmd_reset_tc
    then false
    else g.known a

-- As in tc_add_link, a link whose nodes are not both known is not added; removing a node removes the links at
-- both of its sides.
abbrev pub run_link : Token → Graph → ℕ → ℕ → Bool
run_link t g u v =
    if t.kind == cmd_add_link
    then (if (t.addr_1 == u && t.addr_2 == v) && (g.known t.addr_1 && g.known t.addr_2)
        then true
        else g.links u v)
    else if t.kind == cmd_remove_link
    then (if t.addr_1 == u && t.addr_2 == v then false else g.links u v)
    else if t.kind == cmd_remove_node
    then (if t.addr_1 == u || t.addr_1 == v then false else g.links u v)
    else if t.kind == cmd_reset_tc
    then false
    else g.links u v

abbrev pub is_proper : Token → Graph → Bool
is_proper t g =
    if t.kind == cmd_add_node
    then not (g.known t.addr_1)
    else if t.kind == cmd_remove_node
    then g.known t.addr_1
    else if t.kind == cmd_add_link
    then not (g.links t.addr_1 t.addr_2)
    else true

abbrev pub run_command : Token → Graph → Graph
run_command t g = record {
  known = run_known t g;
  links = run_link t g;
  proper = if is_proper t g then g.proper else false;
}

abbrev pub run_commands : List Token → Graph → Graph
run_commands [] g = g
run_commands (t ∷ ts) g = run_commands ts (run_command t g)

pub run_commands-append :
    (ts us : List Token) (g : Graph)
    → run_commands (ts ++ us) g ≡ run_commands us (run_commands ts g)
run_commands-append [] us g = refl
run_commands-append (t ∷ ts) us g = run_commands-append ts us (run_command t g)

abbrev pub no_graph : Graph
no_graph = record { known = λ a. false; links = λ u v. false; proper = true }

-- The graph that the commands of a cache make.
abbrev pub told : Cache → Graph
told c = run_commands c.sent no_graph

abbrev pub has : Option Bool → Bool
has none = false
has (some x) = true

pub has-if :
    (b : Bool) (o : Option Bool) → has (if b then some true else o) ≡ (if b then true else has o)
has-if true o = refl
has-if false o = refl

-- The module has exactly the nodes and the links of the cache, and all commands were proper.
pub record Mirrors (hash : ℕ → ℕ) (c : Cache) : Type 0 where
  pub known : (a : ℕ) → (told c).known a ≡ has (node hash c a)
  pub links : (u v : ℕ) → (told c).links u v ≡ has (link hash c u v)
  pub proper : (told c).proper ≡ true
