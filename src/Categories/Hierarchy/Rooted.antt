-- ===== src/Categories/Hierarchy/Rooted.antt =====
-- apps/core/src/modules/categories/categories.service.ts: which categories `buildCategoryHierarchy`
-- answers.
use heidi_microservices.Common.{
  ℕ, zero, suc, ◌+◌, ◌-◌, ◌≤◌, ◌<◌, ◌≡◌, refl, sym, ap, ◌∙◌, ◌↔◌, inl, inr, Bool, true, false,
  Option, none, some, List, [], ◌∷◌, map, arith, eq_iff, select, length, length-map, leb, or_else,
  truthy, In, In-append, In-map, In-select, if◌then◌else◌,
}
use heidi_microservices.Common.Pigeonhole.{length-run_within}
use heidi_microservices.Database.Memory.{some-inj}
use heidi_microservices.Categories.{Category}
use heidi_microservices.Categories.Hierarchy.{
  Tree, add_found, trees_of, build_category_hierarchy, members, all_members,
}
use heidi_microservices.Categories.Hierarchy.Equal.{
  AreKeys, is_below, is_listed, is_top, tree_of, forest, build_category_hierarchy-eq,
}

-- So many parents of the list lead from the category to one that has none there.
pub data Rooted (categories : List Category) : ℕ → Category → Type 0 where
  top : (c : Category) → In c categories → is_top categories c ≡ true → Rooted categories zero c
  below :
      {d : ℕ} (c p : Category)
      → In c categories
      → is_below p.id c ≡ true
      → Rooted categories d p
      → Rooted categories (suc d) c

module _ (categories : List Category) (keys : AreKeys categories) where
  listed : {d : ℕ} (c : Category) → Rooted categories d c → In c categories
  listed c (top _ m h) = m
  listed c (below _ p m h r) = m

  is_listed_of : (rows : List Category) (p : Category) → In p rows → is_listed rows p.id ≡ true
  is_listed_of [] p m = absurd m
  is_listed_of (q ∷ rows) p (inl e) = rw (sym e, (eq_iff p.id p.id).1 refl)
  is_listed_of (q ∷ rows) p (inr m) = ground (arith, is_listed_of rows p m)

  parent_of_below :
      (p c : Category)
      → is_below p.id c ≡ true
      → (truthy c.parent_id ≡ true) × (p.id ≡ or_else c.parent_id "")
  parent_of_below p c h =
      (ground (arith, h), (eq_iff p.id (or_else c.parent_id "")).0 (ground (arith, h)))

  top_never_below :
      (p c : Category) → In p categories → is_below p.id c ≡ true → is_top categories c ≡ false
  top_never_below p c m h =
      let (t, e) = parent_of_below p c h in
      let k : is_listed categories (or_else c.parent_id "") ≡ true =
        rw (← e) (is_listed_of categories p m) in
      rw (t, k)

  -- The number of parents is determined.
  same_depth : {d e : ℕ} (c : Category) → Rooted categories d c → Rooted categories e c → d ≡ e
  same_depth c (top _ _ h) (top _ _ k) = refl
  same_depth c (top _ _ h) (below _ p _ k s) = let z = top_never_below p c (listed p s) k in cc
  same_depth c (below _ p _ k s) (top _ _ h) = let z = top_never_below p c (listed p s) k in cc
  same_depth c (below _ p _ h r) (below _ q _ k s) =
      let (_, e) = parent_of_below p c h in
      let (_, f) = parent_of_below q c k in
      let same : p ≡ q = keys p q (listed p r) (listed q s) (e ∙ sym f) in
      ap suc (same_depth q (rw same at r) s)

  -- The ancestor at a depth.
  ancestor : {d : ℕ} (c : Category) → Rooted categories d c → ℕ → Category
  ancestor c (top _ m h) i = c
  ancestor {d = suc d} c (below _ p m h r) i = let up = ancestor p r i in if leb i d then up else c

  ancestor_lem :
      {d : ℕ} (c : Category) (r : Rooted categories d c) (i : ℕ)
      → i ≤ d
      → Rooted categories i (ancestor c r i)
  unfolding ancestor
  ancestor_lem c (top _ m k) i h = let e : 0 ≡ i = omega (arith, h) in rw (← e) (top c m k)
  ancestor_lem {d = suc d} c (below _ p m k r) i h =
      let up = ancestor_lem p r i in by_place (leb i d) refl up
    where
      by_place :
          (b : Bool)
          → leb i d ≡ b
          → (i ≤ d → Rooted categories i (ancestor p r i))
          → Rooted categories i (if b then ancestor p r i else c)
      by_place true e up = up (ground (arith, e))
      by_place false e up =
          let same : suc d ≡ i = ground (arith, e, h) in rw (← same) (below c p m k r)

  short : {d : ℕ} (c : Category) → Rooted categories d c → d < length categories
  short {d = d} c r = rw (length-map Category.id categories) at (
      length-run_within (λ i. (ancestor c r i).id) (suc d) 0 (map Category.id categories)
        (λ i j l k e.
          let a = ancestor_lem c r i (omega arith) in
          let b = ancestor_lem c r j (omega arith) in
          let same = keys _ _ (listed _ a) (listed _ b) e in same_depth _ (rw same at a) b)
        (λ i l u.
          (In-map Category.id categories (ancestor c r i).id).1
            (ancestor c r i, listed _ (ancestor_lem c r i (omega arith)), refl)))

  -- What is in the trees that a list leads to.
  In-trees_of :
      (f : Category → Option Tree) (rows : List Category) (c : Category)
      → In c (all_members (trees_of f rows))
        ↔ ((q : Category) × In q rows × ((t : Tree) × (f q ≡ some t) × In c (members t)))
  unfolding trees_of members
  In-trees_of f [] c = (λ m. absurd m, λ (q, m, _). absurd m)
  In-trees_of f (q ∷ rows) c = by_tree (f q) refl (In-trees_of f rows c)
    where
      by_tree :
          (o : Option Tree)
          → f q ≡ o
          → (In c (all_members (trees_of f rows))
              ↔ ((p : Category) × In p rows × ((t : Tree) × (f p ≡ some t) × In c (members t))))
          → In c (all_members (add_found o (trees_of f rows)))
            ↔ ((p : Category) × In p (q ∷ rows) × ((t : Tree) × (f p ≡ some t) × In c (members t)))
      by_tree none e (a, b) = (
        λ m. let (p, i, w) = a m in (p, inr i, w),
        λ (p, i, (t, k, m)). elim i [
          | inl same ↦ let z : none ≡ some t = sym e ∙ (ap f (sym same) ∙ k) in cc
          | inr j ↦ b (p, j, (t, k, m))
        ],
      )
      by_tree (some u) e (a, b) = (
        λ m. elim ((In-append c (members u) (all_members (trees_of f rows))).0 m) [
          | inl i ↦ (q, inl refl, (u, e, i))
          | inr i ↦ let (p, j, w) = a i in (p, inr j, w)
        ],
        λ (p, i, (t, k, m)). (In-append c (members u) (all_members (trees_of f rows))).1 (elim i [
          | inl same ↦
              let z : some u ≡ some t = sym e ∙ (ap f (sym same) ∙ k) in inl (rw (some-inj u t z) m)
          | inr j ↦ inr (b (p, j, (t, k, m)))
        ]),
      )

  -- Downwards: what is in the tree of a rooted category is rooted.
  members-Rooted :
      (fuel : ℕ) {d : ℕ} (q : Category) (t : Tree) (c : Category)
      → Rooted categories d q
      → tree_of fuel categories q ≡ some t
      → In c (members t)
      → (e : ℕ) × Rooted categories e c
  unfolding tree_of members
  members-Rooted zero q t c r h m = cc
  members-Rooted (suc fuel) {d} q t c r h m =
      let children = select (is_below q.id) categories in
      let same : Tree.tree q (trees_of (tree_of fuel categories) children) ≡ t = some-inj _ t h in
      let within : In c (members (Tree.tree q (trees_of (tree_of fuel categories) children))) =
        rw (← same) at m in
      elim within [
        | inl e ↦ (d, rw e r)
        | inr i ↦
            let (p, j, (u, k, n)) = (In-trees_of (tree_of fuel categories) children c).0 i in
            let (listed_p, under) = (In-select (is_below q.id) categories p).0 j in
            members-Rooted fuel p u c (below p q listed_p under r) k n
      ]

  -- Upwards: what is in the tree of a rooted category is in the forest, with more fuel.
  Rooted-members :
      {d : ℕ} (fuel : ℕ) (q : Category) (t : Tree) (c : Category)
      → Rooted categories d q
      → tree_of fuel categories q ≡ some t
      → In c (members t)
      → In c (all_members (forest (fuel + d) categories))
  unfolding tree_of members
  Rooted-members fuel q t c (top _ n k) h m =
      let e : fuel + 0 ≡ fuel = omega arith in
      rw e (
        (In-trees_of (tree_of fuel categories) (select (is_top categories) categories) c).1
          (q, (In-select (is_top categories) categories q).1 (n, k), (t, h, m)))
  Rooted-members {d = suc d} fuel q t c (below _ p n k r) h m =
      let e : fuel + suc d ≡ suc fuel + d = omega arith in
      let children = select (is_below p.id) categories in
      rw e (
        Rooted-members (suc fuel) p (Tree.tree p (trees_of (tree_of fuel categories) children)) c r
          refl
          (inr (
            (In-trees_of (tree_of fuel categories) children c).1
              (q, (In-select (is_below p.id) categories q).1 (n, k), (t, h, m)))))

  -- If no two categories have one identifier, `buildCategoryHierarchy` answers exactly the categories whose
  -- chain of parents in the list ends.
  pub build_category_hierarchy_iff :
      (c : Category)
      → In c (all_members (build_category_hierarchy categories)) ↔ ((d : ℕ) × Rooted categories d c)
  unfolding tree_of members
  build_category_hierarchy_iff c =
      let size = length categories in
      let tops = select (is_top categories) categories in
      rw (build_category_hierarchy-eq categories keys) (
        λ m.
            let (q, i, (t, e, n)) = (In-trees_of (tree_of size categories) tops c).0 m in
            let (listed_q, first) = (In-select (is_top categories) categories q).0 i in
            members-Rooted size q t c (top q listed_q first) e n,
        λ (d, r).
            let small = short c r in
            let left = size - suc d in
            let e : suc left + d ≡ size = omega (arith, small) in
            rw e at (
              Rooted-members (suc left) c
                (Tree.tree c
                  (trees_of (tree_of left categories) (select (is_below c.id) categories)))
                c r refl (inl refl)),
      )
