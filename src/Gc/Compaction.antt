-- ===== src/Gc/Compaction.antt =====
-- internal/gc/gc.go: a compaction by SimpleCompressor in the tree.
use acgc_project.Common.{ℕ, Str, List, [], ◌∷◌, map, ◌≡◌, ◌≢◌, refl, ap, some, none, get, arith}
use acgc_project.Domain.{Floats, StateNode}
use acgc_project.StateTree.{node_key}
use acgc_project.StateTree.Invariant.{IsWellFormed}
use acgc_project.StateTree.Growth.{replace_with_compressed-IsWellFormed}
use acgc_project.Gc.{Run, compact_branch}
use acgc_project.Gc.Simple.{branch_key, simple_compress}

first_byte : Str → ℕ
first_byte [] = 0
first_byte (c ∷ s) = c

branch_key-ne-node_key : (now : ℕ) (sid : Str) (m : ℕ) → branch_key now ≢ node_key sid m
unfolding branch_key node_key first_byte
branch_key-ne-node_key now sid m e = omega (arith, ap first_byte e)

-- A compaction of nodes by SimpleCompressor under a node of the tree keeps the tree well formed, if
-- the id that the clock gives is not in use.
pub compact_branch-IsWellFormed :
    {fl : Floats} (count_tokens : Str → ℕ) (now : ℕ) (parent : Str) (nodes : List (StateNode fl))
    (p : StateNode fl) (r : Run fl)
    → IsWellFormed r.tree
    → get parent r.tree.nodes ≡ some p
    → get (branch_key now) r.tree.nodes ≡ none
    → IsWellFormed (compact_branch parent nodes (simple_compress count_tokens now nodes) r).tree
unfolding compact_branch simple_compress
compact_branch-IsWellFormed count_tokens now parent nodes p r w found unused =
    let branch = record (simple_compress count_tokens now nodes) {
      session_id = r.tree.session_id;
      parent_id = parent;
    } in
    replace_with_compressed-IsWellFormed r.tree parent (map (λ c. c.node_id) nodes) branch p w
      (record {
        unused = unused;
        leaf = refl;
        early = omega arith;
        no_turn_key = branch_key-ne-node_key now r.tree.session_id;
      })
      found
