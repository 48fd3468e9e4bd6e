-- ===== src/Compiler/Order.antt =====
-- internal/compiler/cache_render.go: the stable order of rendering.
use mathlib.Core.List.{Permᴰ}
use acgc_project.Common.{
  All-perm, ◌≡◌, refl, sym, ap, ◌∙◌, Str, List, [], ◌∷◌, true, false, arith, inl, inr, some,
  Bool-cases, Map, get, All, All-mono,
}
use acgc_project.Domain.{Floats, StateNode}
use acgc_project.Compiler.{
  str_lt, renders_before, insert_stable, slice_stable, stabilize_render_order,
}

str_lt_asymm : (a b : Str) → str_lt a b ≡ true → str_lt b a ≡ false
unfolding str_lt
str_lt_asymm [] [] h = cc
str_lt_asymm [] (d ∷ t) h = refl
str_lt_asymm (c ∷ s) [] h = cc
str_lt_asymm (c ∷ s) (d ∷ t) h = ground (arith, str_lt_asymm s t)

str_lt_connex : (a b : Str) → str_lt a b ≡ false → str_lt b a ≡ false → a ≡ b
unfolding str_lt
str_lt_connex [] [] h k = refl
str_lt_connex [] (d ∷ t) h k = cc
str_lt_connex (c ∷ s) [] h k = cc
str_lt_connex (c ∷ s) (d ∷ t) h k = ground (arith, str_lt_connex s t)

str_lt_trans_not : (y b a : Str) → str_lt y b ≡ false → str_lt y a ≡ true → str_lt b a ≡ true
unfolding str_lt
str_lt_trans_not [] [] [] h k = cc
str_lt_trans_not [] [] (c ∷ a) h k = refl
str_lt_trans_not [] (d ∷ b) a h k = cc
str_lt_trans_not (e ∷ y) [] [] h k = cc
str_lt_trans_not (e ∷ y) [] (c ∷ a) h k = refl
str_lt_trans_not (e ∷ y) (d ∷ b) [] h k = cc
str_lt_trans_not (e ∷ y) (d ∷ b) (c ∷ a) h k = ground (arith, str_lt_trans_not y b a)

perm_refl {ℓ} : {A : Type ℓ} (xs : List A) → Permᴰ xs xs
perm_refl [] = Permᴰ.nil
perm_refl (x ∷ xs) = Permᴰ.cons refl (perm_refl xs)

some_injective {ℓ} : {A : Type ℓ} {a b : A} → some a ≡ some b → a ≡ b
some_injective h = cc

module _ {fl : Floats} where
  before_asymm : (a b : StateNode fl) → renders_before a b ≡ true → renders_before b a ≡ false
  unfolding renders_before
  before_asymm a b h = ground (arith, str_lt_asymm a.node_id b.node_id)

  before_connex :
      (a b : StateNode fl)
      → renders_before a b ≡ false
      → renders_before b a ≡ false
      → a.node_id ≡ b.node_id
  unfolding renders_before
  before_connex a b h k = ground (arith, str_lt_connex a.node_id b.node_id)

  before_trans_not :
      (y b a : StateNode fl)
      → renders_before y b ≡ false
      → renders_before y a ≡ true
      → renders_before b a ≡ true
  unfolding renders_before
  before_trans_not y b a h k = ground (arith, str_lt_trans_not y.node_id b.node_id a.node_id)

  insert_comm :
      (a b : StateNode fl) (xs : List (StateNode fl))
      → (a.node_id ≡ b.node_id → a ≡ b)
      → insert_stable renders_before a (insert_stable renders_before b xs)
        ≡ insert_stable renders_before b (insert_stable renders_before a xs)
  unfolding insert_stable
  insert_comm a b [] same = elim (Bool-cases (renders_before a b)) [
    | inl e ↦ rw (e, before_asymm a b e)
    | inr e ↦ elim (Bool-cases (renders_before b a)) [
      | inl f ↦ rw (e, f)
      | inr f ↦ rw (same (before_connex a b e f))
    ]
  ]
  insert_comm a b (y ∷ ys) same = ground (
    arith,
    insert_comm a b ys same,
    before_asymm a b,
    before_asymm b a,
    before_connex a b,
    before_trans_not y b a,
    before_trans_not y a b,
    before_connex a b,
    same,
  )

  -- No node stands behind one that it should render before.
  abbrev pub IsOrdered : List (StateNode fl) → Type 0
  IsOrdered [] = Unit
  IsOrdered (x ∷ xs) = All (λ y. renders_before y x ≡ false) xs × IsOrdered xs

  insert-perm :
      (x : StateNode fl) (xs : List (StateNode fl))
      → Permᴰ (insert_stable renders_before x xs) (x ∷ xs)
  unfolding insert_stable
  insert-perm x [] = Permᴰ.cons refl Permᴰ.nil
  insert-perm x (y ∷ ys) = elim (Bool-cases (renders_before y x)) [
    | inl e ↦ rw e (Permᴰ.trans (Permᴰ.cons refl (insert-perm x ys)) (Permᴰ.swap refl refl))
    | inr e ↦ rw e (perm_refl (x ∷ y ∷ ys))
  ]

  slice_stable-perm : (xs : List (StateNode fl)) → Permᴰ (slice_stable renders_before xs) xs
  unfolding slice_stable
  slice_stable-perm [] = Permᴰ.nil
  slice_stable-perm (x ∷ xs) =
      Permᴰ.trans (insert-perm x (slice_stable renders_before xs))
        (Permᴰ.cons refl (slice_stable-perm xs))

  before_irrefl : (a : StateNode fl) → renders_before a a ≡ false
  before_irrefl a = elim (Bool-cases (renders_before a a)) [
    | inl e ↦ before_asymm a a e
    | inr e ↦ e
  ]

  -- What stands behind `y` in order stands behind `x` too, if `x` does not come after `y`.
  behind :
      (x y z : StateNode fl)
      → renders_before y x ≡ false
      → renders_before z y ≡ false
      → renders_before z x ≡ false
  behind x y z h k = elim (Bool-cases (renders_before z x)) [
    | inl e ↦ cc (before_trans_not z y x k e, h)
    | inr e ↦ e
  ]

  insert-IsOrdered :
      (x : StateNode fl) (xs : List (StateNode fl))
      → IsOrdered xs
      → IsOrdered (insert_stable renders_before x xs)
  unfolding insert_stable
  insert-IsOrdered x [] o = (tt, tt)
  insert-IsOrdered x (y ∷ ys) o = elim (Bool-cases (renders_before y x)) [
    | inl e ↦ rw e (
      All-perm (λ z. renders_before z y ≡ false) (insert-perm x ys) (before_asymm y x e, o.0),
      insert-IsOrdered x ys o.1,
    )
    | inr e ↦ rw e ((e, All-mono _ _ ys (λ z k. behind x y z e k) o.0), o)
  ]

  slice_stable-IsOrdered : (xs : List (StateNode fl)) → IsOrdered (slice_stable renders_before xs)
  unfolding slice_stable
  slice_stable-IsOrdered [] = tt
  slice_stable-IsOrdered (x ∷ xs) =
      insert-IsOrdered x (slice_stable renders_before xs) (slice_stable-IsOrdered xs)

  stabilize-slice_stable :
      (xs : List (StateNode fl)) → stabilize_render_order xs ≡ slice_stable renders_before xs
  unfolding stabilize_render_order slice_stable insert_stable
  stabilize-slice_stable [] = refl
  stabilize-slice_stable (x ∷ []) = refl
  stabilize-slice_stable (x ∷ y ∷ xs) = ground arith

  -- The nodes of the list are told apart by their ids, as the nodes of a tree are.
  abbrev pub AreStored : Map (StateNode fl) → List (StateNode fl) → Type 0
  AreStored m = All (λ n. get n.node_id m ≡ some n)

  same_id :
      (m : Map (StateNode fl)) (a b : StateNode fl)
      → get a.node_id m ≡ some a
      → get b.node_id m ≡ some b
      → a.node_id ≡ b.node_id
      → a ≡ b
  same_id m a b h k e = some_injective (sym h ∙ ap (λ i. get i m) e ∙ k)

  slice_stable_unique :
      (m : Map (StateNode fl)) {xs ys : List (StateNode fl)}
      → Permᴰ xs ys
      → AreStored m ys
      → slice_stable renders_before xs ≡ slice_stable renders_before ys
  unfolding slice_stable
  slice_stable_unique m Permᴰ.nil a = refl
  slice_stable_unique m (Permᴰ.cons e p) a = cc (e, slice_stable_unique m p a.1)
  slice_stable_unique m (Permᴰ.swap {a' = x} {b' = y} {l = l} e f) a =
      rw (e, f) (insert_comm y x (slice_stable renders_before l) (same_id m y x a.1.0 a.0))
  slice_stable_unique m (Permᴰ.trans p q) a =
      slice_stable_unique m p (All-perm (λ n. get n.node_id m ≡ some n) q a)
      ∙ slice_stable_unique m q a

  -- `StabilizeRenderOrder` keeps the nodes that were selected and sorts them by turn, then by id;
  -- and any two orders of the same nodes of a tree are rendered alike.
  pub stabilize_stable :
      (m : Map (StateNode fl)) (xs ys : List (StateNode fl))
      → Permᴰ xs ys
      → AreStored m ys
      → Permᴰ (stabilize_render_order xs) xs
        × IsOrdered (stabilize_render_order xs)
        × (stabilize_render_order xs ≡ stabilize_render_order ys)
  stabilize_stable m xs ys p a = (
    rw (stabilize-slice_stable xs) (slice_stable-perm xs),
    rw (stabilize-slice_stable xs) (slice_stable-IsOrdered xs),
    stabilize-slice_stable xs ∙ slice_stable_unique m p a ∙ sym (stabilize-slice_stable ys),
  )
