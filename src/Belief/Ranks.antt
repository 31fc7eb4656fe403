-- ===== src/Belief/Ranks.antt =====
-- The hypotheses of a level of internal/ai/belief, by falling score: what the levels kept beside the nodes,
-- the candidates of the machine that drills and the frontier say, in whatever order the loops visit the nodes.
use ops_captain.Base.{
  ℕ, ◌≡◌, refl, sym, subst, ap, ◌∙◌, ◌⊎◌, ◌↔◌, inl, inr, String, Bool, true, false, ◌&&◌, Option,
  none, some, List, [], ◌∷◌, In, map, keep, arith, ◌==◌, Bool-cases,
}
use ops_captain.Base.Dict.{values}
use ops_captain.Base.Sort.{sort, IsSorted, NoneLess, sort-IsSorted, In-sort}
use ops_captain.Belief.Types.{
  NodeType, hypothesis, NodeStatus, active, signal, evidence, retracted, superseded, AttrValue,
  Node, LevelNode, Frontier, GraphPolicy,
}
use ops_captain.Belief.Graph.{Outside, BeliefGraph, is_hypothesis, is_active}
use ops_captain.Belief.Queries.{node_before, get_active_hypothesis_copies, extract_frontier}
use ops_captain.Belief.Fsm.{hypo_before, top_hypos}
use ops_captain.Belief.Histories.{Reached, Reached-IsRanked}

In-keep :
    {A : Type 0} (p : A → Bool) (a : A) (xs : List A) → In a (keep p xs) ↔ (In a xs × (p a ≡ true))
unfolding keep
In-keep p a [] = (λ h. absurd h, λ h. h.0)
In-keep p a (x ∷ xs) =
    let (there, back) = In-keep p a xs in
    elim (Bool-cases (p x)) [
      | inl e ↦
          rw (e, keep)
            (
              λ h. elim h [
                | inl q ↦ (inl q, ap p (sym q) ∙ e)
                | inr q ↦ (inr (there q).0, (there q).1)
              ],
              λ (h, k). elim h [ inl q ↦ inl q | inr q ↦ inr (back (q, k)) ],
            )
      | inr e ↦
          rw (e, keep)
            (
              λ h. (inr (there h).0, (there h).1),
              λ (h, k). elim h [
                | inl q ↦ absurd (let f = sym k ∙ ap p (sym q) ∙ e in cc f)
                | inr q ↦ back (q, k)
              ],
            )
    ]

In-map :
    {A B : Type 0} (f : A → B) (b : B) (xs : List A)
    → In b (map f xs) ↔ ((a : A) × In a xs × (f a ≡ b))
In-map f b [] = (λ h. absurd h, λ (a, h, e). h)
In-map f b (x ∷ xs) =
    let (there, back) = In-map f b xs in
    (
      λ h. elim h [
        | inl q ↦ (x, inl refl, q)
        | inr q ↦ let (a, held, e) = there q in (a, inr held, e)
      ],
      λ (a, h, e). elim h [ inl q ↦ inl (ap f q ∙ e) | inr q ↦ inr (back (a, q, e)) ],
    )

is_hypothesis-eq : (k : NodeType) → is_hypothesis k ≡ true → k ≡ hypothesis
is_hypothesis-eq hypothesis h = refl
is_hypothesis-eq signal h = cc
is_hypothesis-eq evidence h = cc

is_active-eq : (s : NodeStatus) → is_active s ≡ true → s ≡ active
is_active-eq active h = refl
is_active-eq retracted h = cc
is_active-eq superseded h = cc

module _ {F : Type 0} where
  -- The active hypotheses of a level.
  pub record Belongs (level : ℕ) (n : Node F) : Type 0 where
    pub kind : n.kind ≡ hypothesis
    pub status : n.status ≡ active
    pub at : n.level ≡ level

  abbrev is_wanted : ℕ → Node F → Bool
  is_wanted level n = is_hypothesis n.kind && is_active n.status && n.level == level

  Belongs-of : (level : ℕ) (n : Node F) → is_wanted level n ≡ true → Belongs level n
  Belongs-of level n h = record {
    kind = is_hypothesis-eq n.kind (ground arith);
    status = is_active-eq n.status (ground arith);
    at = ground arith;
  }

  wanted-of : (level : ℕ) (n : Node F) → Belongs level n → is_wanted level n ≡ true
  wanted-of level n b = ground (arith, b.kind, b.status, b.at)

module _ {F : Type 0} (o : Outside F) where
  -- The scores are ordered as numbers are, and the ids by some order.
  pub record IsOrder : Type 0 where
    pub equal_sound : (a b : F) → o.equal a b ≡ true → a ≡ b
    pub equal_refl : (a : F) → o.equal a a ≡ true
    pub greater_asym : (a b : F) → o.greater a b ≡ true → o.greater b a ≡ false
    pub greater_trans :
        (a b c : F) → o.greater a b ≡ true → o.greater b c ≡ true → o.greater a c ≡ true
    pub greater_total :
        (a b : F) → o.equal a b ≡ false → o.greater a b ≡ false → o.greater b a ≡ true
    pub text_asym : (a b : String) → o.text_less a b ≡ true → o.text_less b a ≡ false
    pub text_trans :
        (a b c : String)
        → o.text_less b a ≡ false
        → o.text_less c b ≡ false
        → o.text_less c a ≡ false

  -- The first score is greater, or they are the same and the second id is not before the first.
  abbrev pub Above : LevelNode F → LevelNode F → Type 0
  Above x y =
      (o.greater x.confidence y.confidence ≡ true)
      ⊎ ((x.confidence ≡ y.confidence) × (o.text_less y.node_id x.node_id ≡ false))

  -- Each is above all that follow.
  abbrev pub Falling : List (LevelNode F) → Type 0
  Falling [] = Unit
  Falling (x ∷ xs) = ((y : LevelNode F) → In y xs → Above x y) × Falling xs

  abbrev pub Stands : Node F → LevelNode F → Type 0
  Stands n x = (x.node_id ≡ n.id) × (x.confidence ≡ n.score)

  -- The list holds the active hypotheses of the level among the nodes, and no others, by falling score.
  pub record IsLevel (nodes : List (Node F)) (level : ℕ) (ns : List (LevelNode F)) : Type 0 where
    pub sound :
        (x : LevelNode F) → In x ns → (n : Node F) × In n nodes × Belongs level n × Stands n x
    pub whole :
        (n : Node F) → In n nodes → Belongs level n → (x : LevelNode F) × In x ns × Stands n x
    pub falling : Falling ns

  -- A node of the level with no node of it above.
  pub record IsBest (nodes : List (Node F)) (level : ℕ) (id : String) (score : F) : Type 0 where
    pub node : (n : Node F) × In n nodes × Belongs level n × (n.id ≡ id) × (n.score ≡ score)
    pub best :
        (m : Node F)
        → In m nodes
        → Belongs level m
        → Above
            (record { node_id = id; confidence = score })
            (record { node_id = m.id; confidence = m.score })

  -- What a frontier is, or that there is none.
  abbrev pub Best : List (Node F) → ℕ → Option (Frontier F) → Type 0
  Best nodes level none = (m : Node F) → In m nodes → Belongs level m → ⊥
  Best nodes level (some f) = IsBest nodes level f.node_id f.score

  -- The nodes in another order.
  abbrev pub Reorders : List (Node F) → List (Node F) → Type 0
  Reorders seen nodes = (n : Node F) → In n seen ↔ In n nodes

  module _ (v : IsOrder) where
    before_asym : (x y : LevelNode F) → hypo_before o x y ≡ true → hypo_before o y x ≡ false
    before_asym x y h = ground (
      arith,
      v.equal_sound x.confidence y.confidence,
      v.equal_sound y.confidence x.confidence,
      v.equal_refl x.confidence,
      v.greater_asym x.confidence y.confidence,
      v.text_asym x.node_id y.node_id,
    )

    Above-of : (x y : LevelNode F) → hypo_before o y x ≡ false → Above x y
    Above-of x y h = elim (Bool-cases (o.equal y.confidence x.confidence)) [
      | inl e ↦ inr (sym (v.equal_sound y.confidence x.confidence e), ground (arith, e))
      | inr e ↦ inl (v.greater_total y.confidence x.confidence e (ground (arith, e)))
    ]

    of_Above : (x y : LevelNode F) → Above x y → hypo_before o y x ≡ false
    of_Above x y (inl g) = ground (
      arith,
      g,
      v.greater_asym x.confidence y.confidence,
      v.greater_asym x.confidence x.confidence,
      v.equal_sound y.confidence x.confidence,
    )
    of_Above x y (inr (e, t)) = ground (arith, e, t, v.equal_refl x.confidence)

    Above-trans : (x y z : LevelNode F) → Above x y → Above y z → Above x z
    Above-trans x y z (inl g) (inl h) =
        inl (v.greater_trans x.confidence y.confidence z.confidence g h)
    Above-trans x y z (inl g) (inr (e, t)) = inl (ground (arith, e, g))
    Above-trans x y z (inr (e, t)) (inl g) = inl (ground (arith, e, g))
    Above-trans x y z (inr (e, t)) (inr (f, u)) =
        inr (e ∙ f, v.text_trans x.node_id y.node_id z.node_id t u)

    before_trans :
        (x y z : LevelNode F)
        → hypo_before o y x ≡ false
        → hypo_before o z y ≡ false
        → hypo_before o z x ≡ false
    before_trans x y z h k = of_Above x z (Above-trans x y z (Above-of x y h) (Above-of y z k))

    NoneLess-Above :
        (x : LevelNode F) (xs : List (LevelNode F))
        → NoneLess (hypo_before o) x xs
        → (y : LevelNode F) → In y xs
        → Above x y
    NoneLess-Above x [] h y p = absurd p
    NoneLess-Above x (z ∷ zs) h y (inl e) = rw (← e) (Above-of x z h.0)
    NoneLess-Above x (z ∷ zs) h y (inr p) = NoneLess-Above x zs h.1 y p

    Falling-of : (xs : List (LevelNode F)) → IsSorted (hypo_before o) xs → Falling xs
    Falling-of [] h = tt
    Falling-of (x ∷ xs) h = (NoneLess-Above x xs h.0, Falling-of xs h.1)

    -- The candidates of the machine, in whatever order its loop visits the nodes.
    top_hypos-IsLevel :
        (seen nodes : List (Node F)) (level : ℕ)
        → Reorders seen nodes
        → IsLevel nodes level (top_hypos o seen level)
    unfolding top_hypos
    top_hypos-IsLevel seen nodes level same =
        let shown : Node F → LevelNode F = λ n. record { node_id = n.id; confidence = n.score } in
        let kept = keep (is_wanted level) seen in
        record {
          sound = λ x p.
              let (n, held, e) =
                (In-map shown x kept).0 ((In-sort (hypo_before o) x (map shown kept)).0 p) in
              let (there, wanted) = (In-keep (is_wanted level) n seen).0 held in
              (
                n,
                (same n).0 there,
                Belongs-of level n wanted,
                (
                  sym (ap (λ (x : LevelNode F). x.node_id) e),
                  sym (ap (λ (x : LevelNode F). x.confidence) e),
                ),
              );
          whole = λ n p b. (
            shown n,
            (In-sort (hypo_before o) (shown n) (map shown kept)).1 (
                (In-map shown (shown n) kept).1 (
                  n,
                  (In-keep (is_wanted level) n seen).1 ((same n).1 p, wanted-of level n b),
                  refl,
                )),
            (refl, refl),
          );
          falling =
              Falling-of (sort (hypo_before o) (map shown kept))
                (sort-IsSorted (hypo_before o) before_asym before_trans (map shown kept));
        }

    -- The levels kept beside the nodes are the active hypotheses of each level, and no others, by
    -- falling score and then by id, with scores that are ordered as numbers are: in every graph that
    -- mutations and updates on copies, interleaved, reach from a new one.
    pub Reached-IsLevel :
        {p : GraphPolicy} {g : BeliefGraph F} (level : ℕ)
        → Reached o p g
        → IsLevel (values g.nodes) level (g.level_nodes level)
    unfolding top_hypos
    Reached-IsLevel {g = g} level r =
        rw (ap (λ (f : ℕ → List (LevelNode F)). f level) (Reached-IsRanked o r))
          (top_hypos-IsLevel (values g.nodes) (values g.nodes) level (λ n. (λ h. h, λ h. h)))

    NoneLess-Best :
        (x : Node F) (xs : List (Node F))
        → NoneLess (node_before o) x xs
        → (m : Node F) → In m xs
        → Above
            (record { node_id = x.id; confidence = x.score })
            (record { node_id = m.id; confidence = m.score })
    NoneLess-Best x [] h m p = absurd p
    NoneLess-Best x (z ∷ zs) h m (inl e) = rw (← e) (
        Above-of (record { node_id = x.id; confidence = x.score })
          (record { node_id = z.id; confidence = z.score }) h.0)
    NoneLess-Best x (z ∷ zs) h m (inr p) = NoneLess-Best x zs h.1 m p

    Above-refl : (x : LevelNode F) → Above x x
    Above-refl x = elim (Bool-cases (hypo_before o x x)) [
      | inl h ↦ absurd (let k = sym h ∙ before_asym x x h in cc k)
      | inr h ↦ Above-of x x h
    ]

    frontier-first :
        (other : AttrValue → String) (g : BeliefGraph F) (seen nodes : List (Node F)) (level : ℕ)
        → Reorders seen nodes
        → (ns : List (Node F)) → sort (node_before o) (keep (is_wanted level) seen) ≡ ns
        → IsSorted (node_before o) ns
        → Best nodes level (extract_frontier o other g seen level)
    unfolding extract_frontier get_active_hypothesis_copies
    frontier-first other g seen nodes level same [] e s =
        rw (e, extract_frontier)
          (λ m p b.
            subst (λ xs. In m xs) e
              ((In-sort (node_before o) m (keep (is_wanted level) seen)).1
                ((In-keep (is_wanted level) m seen).1 ((same m).1 p, wanted-of level m b))))
    frontier-first other g seen nodes level same (x ∷ xs) e s =
        let kept = keep (is_wanted level) seen in
        let (there, wanted) =
          (In-keep (is_wanted level) x seen).0
            ((In-sort (node_before o) x kept).0 (subst (λ ys. In x ys) (sym e) (inl refl))) in
        rw (e, extract_frontier)
          (record {
            node = (x, (same x).0 there, Belongs-of level x wanted, refl, refl);
            best = λ m p b.
                elim (subst (λ ys. In m ys) e
                  ((In-sort (node_before o) m kept).1
                    ((In-keep (is_wanted level) m seen).1 ((same m).1 p, wanted-of level m b)))) [
                      | inl q ↦
                          rw (← q) (Above-refl (record { node_id = x.id; confidence = x.score }))
                      | inr q ↦ NoneLess-Best x xs s.0 m q
                    ];
          })

    -- With scores that are ordered as numbers are, and in whatever orders the loops visit the nodes: the
    -- frontier of a level is an active hypothesis of it with no such one above it, by score and then by
    -- id, and is none only if there is no such one; the candidates of the machine that drills are the
    -- active hypotheses of the level, and no others, in that order.
    pub frontier-Best :
        (other : AttrValue → String) (g : BeliefGraph F) (seen visited : List (Node F)) (level : ℕ)
        → Reorders seen (values g.nodes)
        → Reorders visited (values g.nodes)
        → Best (values g.nodes) level (extract_frontier o other g seen level)
          × IsLevel (values g.nodes) level (top_hypos o visited level)
    frontier-Best other g seen visited level same again =
        let kept = keep (is_wanted level) seen in
        let shown : Node F → LevelNode F = λ n. record { node_id = n.id; confidence = n.score } in
        (
          frontier-first other g seen (values g.nodes) level same (sort (node_before o) kept) refl (
              sort-IsSorted (node_before o) (λ x y. before_asym (shown x) (shown y))
                (λ x y z. before_trans (shown x) (shown y) (shown z)) kept),
          top_hypos-IsLevel visited (values g.nodes) level again,
        )
