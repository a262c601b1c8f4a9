-- ===== src/GraphDsl/Validating.antt =====
-- What `validate_dsl` of harness/graph_dsl.py accepts.
use mathlib.Core.Path.{subst}
use jaros_code.Prelude.{
  String, ◌≡◌, refl, ap, sym, ◌∙◌, ◌↔◌, Bool, true, false, not, ◌||◌, List, [], ◌∷◌, arith,
  if◌then◌else◌, All,
}
use jaros_code.Exec.{Result, ok, err}
use jaros_code.Value.{Value, null, bool, num, str, array, object, Items, nil, cons, to_list}
use jaros_code.GraphDsl.Nodes.{
  IsNode, ids_of, ids_in, NoDefects, Clean, NoDefects-append, NoDefects-empty, check_nodes-Clean,
  IsNode-check_nodes,
}
use jaros_code.GraphDsl.{
  Defect, unknown_node, field, Found, check_nodes, iterate, listed, edge_defects, edges_defects,
  then_edges, validate_nodes, validate_dsl,
}

module _ (same : Value → Value → Bool) (characters : String → List String) where
  -- An edge between listed ids.
  abbrev pub IsEdge : List Value → Value → Type 0
  IsEdge ids (object fs) =
      (listed same ids (field fs "from") ≡ true) × (listed same ids (field fs "to") ≡ true)
  IsEdge ids v = ⊥

  -- A list of nodes that is not empty, and edges between them; edges that are false are none.
  abbrev pub IsGraph : Value → Type 0
  IsGraph (object g) =
      (n : Value) × (ns : Items) × (es : List Value) × (field g "nodes" ≡ array (cons n ns))
      × (iterate characters (field g "edges") ≡ ok es)
      × All IsNode (n ∷ to_list ns)
      × All (IsEdge (ids_of (n ∷ to_list ns))) es
  IsGraph v = ⊥

  ends-NoDefects :
      (a b : Bool) (d : Defect)
      → NoDefects (if not a || not b then d ∷ [] else []) ↔ ((a ≡ true) × (b ≡ true))
  ends-NoDefects true true d = (λ h. (refl, refl), λ h. tt)
  ends-NoDefects true false d = (λ h. absurd h, λ h. ground (arith, h.1))
  ends-NoDefects false b d = (λ h. absurd h, λ h. ground (arith, h.0))

  edge_defects-NoDefects :
      (ids : List Value) (v : Value) → NoDefects (edge_defects same ids v) ↔ IsEdge ids v
  edge_defects-NoDefects ids (object fs) =
      ends-NoDefects (listed same ids (field fs "from")) (listed same ids (field fs "to"))
        (unknown_node (field fs "from") (field fs "to"))
  edge_defects-NoDefects ids null = (λ h. h, λ h. h)
  edge_defects-NoDefects ids (bool b) = (λ h. h, λ h. h)
  edge_defects-NoDefects ids (num n d s) = (λ h. h, λ h. h)
  edge_defects-NoDefects ids (str t) = (λ h. h, λ h. h)
  edge_defects-NoDefects ids (array vs) = (λ h. h, λ h. h)

  edges_defects-NoDefects :
      (ids es : List Value) → NoDefects (edges_defects same ids es) ↔ All (IsEdge ids) es
  unfolding edges_defects
  edges_defects-NoDefects ids [] = (λ h. tt, λ h. tt)
  edges_defects-NoDefects ids (e ∷ es) =
      let split = NoDefects-append (edge_defects same ids e) (edges_defects same ids es) in
      let first = edge_defects-NoDefects ids e in
      let rest = edges_defects-NoDefects ids es in
      (λ h. (first.0 (split.0 h).0, rest.0 (split.0 h).1), λ h. split.1 (first.1 h.0, rest.1 h.1))

  abbrev NoDefectsFound : Result (List Defect) → Type 0
  NoDefectsFound (ok ds) = NoDefects ds
  NoDefectsFound (err e) = ⊥

  IsListed : (nodes : List Value) → Result (List Value) → Type 0
  IsListed nodes edges =
      (es : List Value) × (edges ≡ ok es) × All IsNode nodes × All (IsEdge (ids_of nodes)) es

  then_edges-Listed :
      (nodes : List Value) (found : Result Found) (edges : Result (List Value))
      → check_nodes nodes ≡ found
      → NoDefectsFound (then_edges same found edges)
      → IsListed nodes edges
  unfolding IsListed
  then_edges-Listed nodes (err e) edges found h = absurd h
  then_edges-Listed nodes (ok (ds, ids)) (err e) found h = absurd h
  then_edges-Listed nodes (ok (ds, ids)) (ok es) found h =
      let parts = (NoDefects-append ds (edges_defects same ids es)).0 h in
      let clean = check_nodes-Clean nodes (subst (λ r. Clean r) (sym found) parts.0) in
      let ids_same : ids ≡ ids_of nodes = ap ids_in (sym found ∙ clean.1) in
      (
        es,
        refl,
        clean.0,
        (edges_defects-NoDefects (ids_of nodes) es).0
            (subst (λ js. NoDefects (edges_defects same js es)) ids_same parts.1),
      )

  nodes-Listed :
      (nodes edges : Value)
      → NoDefectsFound (validate_nodes same characters nodes edges)
      → (n : Value) × (ns : Items) × (nodes ≡ array (cons n ns))
        × IsListed (n ∷ to_list ns) (iterate characters edges)
  nodes-Listed (array (cons n ns)) edges h = (
    n,
    ns,
    refl,
    then_edges-Listed (n ∷ to_list ns) (check_nodes (n ∷ to_list ns)) (iterate characters edges)
        refl h,
  )
  nodes-Listed (array nil) edges h = absurd h
  nodes-Listed null edges h = absurd h
  nodes-Listed (bool b) edges h = absurd h
  nodes-Listed (num n d s) edges h = absurd h
  nodes-Listed (str t) edges h = absurd h
  nodes-Listed (object fs) edges h = absurd h

  valid-IsGraph : (g : Value) → NoDefectsFound (validate_dsl same characters g) → IsGraph g
  unfolding validate_dsl IsListed
  valid-IsGraph (object g) h =
      let (n, ns, e, rest) = nodes-Listed (field g "nodes") (field g "edges") h in
      (n, ns, rest.0, e, rest.1, rest.2, rest.3)
  valid-IsGraph null h = absurd h
  valid-IsGraph (bool b) h = absurd h
  valid-IsGraph (num n d s) h = absurd h
  valid-IsGraph (str t) h = absurd h
  valid-IsGraph (array vs) h = absurd h

  IsGraph-valid : (g : Value) → IsGraph g → validate_dsl same characters g ≡ ok []
  unfolding validate_dsl
  IsGraph-valid (object g) (n, ns, es, e, run, nodes, edges) =
      let found = IsNode-check_nodes (n ∷ to_list ns) nodes in
      let none_left =
        NoDefects-empty (edges_defects same (ids_of (n ∷ to_list ns)) es)
          ((edges_defects-NoDefects (ids_of (n ∷ to_list ns)) es).1 edges) in
      rw (e, run, found) (ap ok none_left)
  IsGraph-valid null h = absurd h
  IsGraph-valid (bool b) h = absurd h
  IsGraph-valid (num n d s) h = absurd h
  IsGraph-valid (str t) h = absurd h
  IsGraph-valid (array vs) h = absurd h

  -- A graph passes without a defect and without an exception exactly where it is an object whose
  -- nodes are a list that is not empty, each an object with a true id and a class that is a text of
  -- the vocabulary, and whose edges, if they are any, can be run over and are objects between listed
  -- ids.
  pub validate_dsl-IsGraph : (g : Value) → (validate_dsl same characters g ≡ ok []) ↔ IsGraph g
  validate_dsl-IsGraph g = (λ h. valid-IsGraph g (subst NoDefectsFound (sym h) tt), IsGraph-valid g)
