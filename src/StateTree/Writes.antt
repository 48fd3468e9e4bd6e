-- ===== src/StateTree/Writes.antt =====
-- internal/statetree/tree.go: `NewTree`, and the writes to single nodes.
use acgc_project.Common.{
  ℕ, ◌≡◌, refl, ap, ◌∙◌, ◌≢◌, Str, List, [], ◌∷◌, none, some, true, arith, inl, inr, Bool-cases,
  Map, get, put, update, All, All-mono, All-put, All-update, put-IsDistinct, update-IsDistinct,
  get-put_ne, get-update, str_eq, str_eq_refl,
}
use acgc_project.Domain.{Floats, NodeStatus, StateNode}
use acgc_project.StateTree.{
  is_root_like, Tree, node_key, root_key, new_tree, root_node, increment_turn, set_status,
  update_node_status, archive_all,
}
use acgc_project.StateTree.Invariant.{EntryFits, Rises, IsWellFormed, attach-Ranking}

first_byte : Str → ℕ
first_byte [] = 0
first_byte (c ∷ s) = c

root_key-ne-node_key : (sid : Str) (m : ℕ) → root_key sid ≢ node_key sid m
unfolding root_key node_key first_byte
root_key-ne-node_key sid m e = omega (arith, ap first_byte e)

module _ {fl : Floats} where
  pub new_tree-IsWellFormed : (sid task : Str) → IsWellFormed (new_tree fl sid task)
  unfolding new_tree root_key node_key get
  new_tree-IsWellFormed sid task = record {
    distinct = (refl, tt);
    fits = ((refl, omega arith, λ m e. absurd (root_key-ne-node_key sid m e)), tt);
    acyclic = record { rank = λ _. 0; bound = 0; bounded = λ s. omega arith; rises = (tt, tt) };
    rooted = (root_node fl sid task, rw (str_eq_refl (root_key sid)), refl);
  }

  -- A write to one field of the nodes, which leaves ids, turns and children as they are.
  pub record IsMark (f : StateNode fl → StateNode fl) : Type 0 where
    pub same_id : (n : StateNode fl) → (f n).node_id ≡ n.node_id
    pub same_turn : (n : StateNode fl) → (f n).turn_number ≡ n.turn_number
    pub same_kind : (n : StateNode fl) → is_root_like (f n) ≡ is_root_like n
    pub same_children : (n : StateNode fl) → (f n).child_ids ≡ n.child_ids

  abbrev IsRoot : Str → Map (StateNode fl) → Type 0
  IsRoot root m = (n : StateNode fl) × (get root m ≡ some n) × (is_root_like n ≡ true)

  update-IsRoot :
      (k root : Str) (f : StateNode fl → StateNode fl) (m : Map (StateNode fl))
      → ((n : StateNode fl) → is_root_like (f n) ≡ is_root_like n)
      → IsRoot root m
      → IsRoot root (update k f m)
  update-IsRoot k root f m same (n, e, g) = elim (Bool-cases (str_eq k root)) [
    | inl y ↦ (f n, ground (arith, get-update k root f m), same n ∙ g)
    | inr o ↦ (n, ground (arith, get-update k root f m), g)
  ]

  pub mark-IsWellFormed :
      (k : Str) (f : StateNode fl → StateNode fl) (t : Tree fl)
      → IsMark f
      → IsWellFormed t
      → IsWellFormed (record t { nodes = update k f t.nodes })
  mark-IsWellFormed k f t s w = record {
    distinct = update-IsDistinct k f t.nodes w.distinct;
    fits =
        All-update (EntryFits t.session_id t.turn_count) k f t.nodes
          (λ v h. (s.same_id v ∙ h.0, rw (s.same_turn v) h.1, λ m e. s.same_turn v ∙ h.2 m e))
          w.fits;
    acyclic = record {
      rank = w.acyclic.rank;
      bound = w.acyclic.bound;
      bounded = w.acyclic.bounded;
      rises =
          All-update (Rises w.acyclic.rank) k f t.nodes (λ v h. rw (s.same_children v) h)
            w.acyclic.rises;
    };
    rooted = update-IsRoot k t.root_id f t.nodes s.same_kind w.rooted;
  }

  set_status-IsMark : (status : NodeStatus) → IsMark (set_status {fl = fl} status)
  unfolding set_status
  set_status-IsMark status = record {
    same_id = λ n. refl;
    same_turn = λ n. refl;
    same_children = λ n. refl;
    same_kind = λ n. refl;
  }

  -- A change of a status keeps the tree well formed.
  pub update_node_status-IsWellFormed :
      (id : Str) (status : NodeStatus) (t : Tree fl)
      → IsWellFormed t
      → IsWellFormed (update_node_status id status t)
  unfolding update_node_status
  update_node_status-IsWellFormed id status t w =
      mark-IsWellFormed id (set_status status) t (set_status-IsMark status) w

  pub archive_all-IsWellFormed :
      (cs : List Str) (t : Tree fl)
      → IsWellFormed t
      → IsWellFormed (record t { nodes = archive_all cs t.nodes })
  unfolding archive_all
  archive_all-IsWellFormed [] t w = w
  archive_all-IsWellFormed (c ∷ cs) t w =
      archive_all-IsWellFormed cs _
        (mark-IsWellFormed c (set_status NodeStatus.archived) t (set_status-IsMark _) w)

  -- A new entry whose node is hung under an old one.
  pub attach-IsWellFormed :
      (t : Tree fl) (id parent : Str) (node : StateNode fl) (f : StateNode fl → StateNode fl)
      → IsWellFormed t
      → get id t.nodes ≡ none
      → node.child_ids ≡ []
      → parent ≢ id
      → ((R : Str → Type 0) (v : StateNode fl) → All R v.child_ids → R id → All R (f v).child_ids)
      → ((v : StateNode fl) → is_root_like (f v) ≡ is_root_like v)
      → EntryFits t.session_id t.turn_count (id, node)
      → ((v : StateNode fl)
          → EntryFits t.session_id t.turn_count (parent, v)
          → EntryFits t.session_id t.turn_count (parent, f v))
      → IsWellFormed (record t { nodes = update parent f (put id node t.nodes) })
  attach-IsWellFormed t id parent node f w absent leaf apart grows kind new old = record {
    distinct =
        update-IsDistinct parent f (put id node t.nodes)
          (put-IsDistinct id node t.nodes w.distinct);
    fits =
        All-update (EntryFits t.session_id t.turn_count) parent f (put id node t.nodes) old
          (All-put (EntryFits t.session_id t.turn_count) id node t.nodes new w.fits);
    acyclic = attach-Ranking id parent node f w.acyclic absent leaf apart grows;
    rooted = update-IsRoot parent t.root_id f (put id node t.nodes) kind (
      w.rooted.0,
      get-put_ne id t.root_id node t.nodes (λ e. cc (e, w.rooted.1)) ∙ w.rooted.1,
      w.rooted.2,
    );
  }

  pub later_turn-IsWellFormed : (t : Tree fl) → IsWellFormed t → IsWellFormed (increment_turn t)
  unfolding increment_turn
  later_turn-IsWellFormed t w = record {
    distinct = w.distinct;
    fits = All-mono _ _ t.nodes (λ e h. (h.0, omega arith, h.2)) w.fits;
    acyclic = w.acyclic;
    rooted = w.rooted;
  }
