-- ===== src/StateTree/Invariant.antt =====
-- internal/statetree/tree.go: the invariant of a tree, on the keys and ids, the turns and the counter,
-- and the edges to the children.
use mathlib.Core.List.{Permᴰ}
use acgc_project.Common.{
  ℕ, suc, ◌+◌, ◌≤◌, ◌<◌, ◌≡◌, refl, ap, ◌∙◌, ◌≢◌, true, Str, List, [], Option, none, some, arith,
  Map, get, put, update, values, All, All-mono, All-both, All-perm, All-put, All-update, All-get,
  All-values, absent-All, stored-All, IsDistinct, append_cancel, decimal_injective, codes, str_eq,
  str_eq_iff, str_eq_refl, if◌then◌else◌,
}
use acgc_project.Domain.{Floats, StateNode}
use acgc_project.StateTree.{Tree, node_key, is_root_like}

pub node_key_injective : (sid : Str) (m n : ℕ) → node_key sid m ≡ node_key sid n → m ≡ n
unfolding node_key
node_key_injective sid m n h =
    decimal_injective m n
      (append_cancel (codes "_") (append_cancel sid (append_cancel (codes "node_") h)))

module _ {fl : Floats} where
  -- The key of an entry is its node's id, and a key that `AddNode` makes names the node's turn.
  abbrev pub EntryFits : Str → ℕ → Str × StateNode fl → Type 0
  EntryFits sid turn e =
      (e.1.node_id ≡ e.0)
      × (e.1.turn_number ≤ turn)
      × ((m : ℕ) → e.0 ≡ node_key sid m → e.1.turn_number ≡ m)

  abbrev pub Rises : (Str → ℕ) → Str × StateNode fl → Type 0
  Rises rank e = All (λ c. rank e.0 < rank c) e.1.child_ids

  -- A rank that grows along each edge.
  pub record Ranking (m : Map (StateNode fl)) : Type 0 where
    pub rank : Str → ℕ
    pub bound : ℕ
    pub bounded : (s : Str) → rank s ≤ bound
    pub rises : All (Rises rank) m

  pub record IsWellFormed (t : Tree fl) : Type 0 where
    pub distinct : IsDistinct t.nodes
    pub fits : All (EntryFits t.session_id t.turn_count) t.nodes
    pub acyclic : Ranking t.nodes
    pub rooted : (n : StateNode fl) × (get t.root_id t.nodes ≡ some n) × (is_root_like n ≡ true)

  -- `visited` is one of the orders in which a `range` may visit the nodes.
  abbrev pub Visits : List (StateNode fl) → Tree fl → Type 0
  Visits visited t = Permᴰ visited (values t.nodes)

  -- A visited node is the one that the tree holds under its id.
  pub visited-All :
      (t : Tree fl) {visited : List (StateNode fl)}
      → IsWellFormed t
      → Visits visited t
      → All (λ n. get n.node_id t.nodes ≡ some n) visited
  visited-All t w p =
      All-perm (λ n. get n.node_id t.nodes ≡ some n) p
        (All-values (λ n. get n.node_id t.nodes ≡ some n) t.nodes
          (All-mono _ _ t.nodes (λ e h. ap (λ i. get i t.nodes) h.1.0 ∙ h.0)
            (All-both _ _ t.nodes (stored-All t.nodes w.distinct) w.fits)))

  -- The next turn's key is in use nowhere.
  pub get-next_key :
      (t : Tree fl) → IsWellFormed t → get (node_key t.session_id (t.turn_count + 1)) t.nodes ≡ none
  get-next_key t w = go (get key t.nodes) refl
    where
      key : Str
      key = node_key t.session_id (t.turn_count + 1)

      go : (o : Option (StateNode fl)) → get key t.nodes ≡ o → o ≡ none
      go none e = refl
      go (some n) e =
          let fit = All-get (EntryFits t.session_id t.turn_count) key t.nodes w.fits e in
          absurd (omega (arith, fit.1, fit.2 (t.turn_count + 1) refl))

  -- The rank after a node without children is hung under another.
  attached_rank : {m : Map (StateNode fl)} → Ranking m → Str → Str → ℕ
  attached_rank r id s = if str_eq s id then suc r.bound else r.rank s

  pub attach-Ranking :
      {m : Map (StateNode fl)} (id parent : Str) (node : StateNode fl)
      → (f : StateNode fl → StateNode fl) → Ranking m
      → get id m ≡ none
      → node.child_ids ≡ []
      → parent ≢ id
      → ((R : Str → Type 0) (v : StateNode fl) → All R v.child_ids → R id → All R (f v).child_ids)
      → Ranking (update parent f (put id node m))
  unfolding attached_rank
  attach-Ranking {m} id parent node f r absent leaf apart grows = record {
    rank = attached_rank r id;
    bound = suc r.bound;
    bounded = λ s. ground (arith, r.bounded s);
    rises =
        All-update (Rises (attached_rank r id)) parent f (put id node m)
          (λ v h.
            grows _ v h (ground (arith, str_eq_refl id, str_eq_iff parent id, r.bounded parent)))
          (All-put (Rises (attached_rank r id)) id node m (rw leaf tt) old);
  }
    where
      old : All (Rises (attached_rank r id)) m
      old =
          All-mono _ _ m
            (λ e h.
              All-mono _ _ e.1.child_ids
                (λ c lt. ground (arith, str_eq_iff e.0 id, r.bounded e.0, r.bounded c, h.1)) h.0)
            (All-both (Rises r.rank) (λ e. e.0 ≢ id) m r.rises (absent-All id m absent))
