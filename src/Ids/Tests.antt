-- ===== src/Ids/Tests.antt =====
-- A map whose tree is a list, and two names for one identifier.
use Prim.Native.String.{String}
use dmrlib.Common.{
  ℕ, ◌≡◌, ◌≢◌, refl, ap, arith, Option, none, some, List, [], ◌∷◌, if◌then◌else◌, if-then, if-else,
  ==_iff, ◌==◌, false,
}
use dmrlib.Ids.{IdNode, nought, idcmp, RbTree, id_name, id_size}
use dmrlib.Ids.Names.{add_all, oldest, distinct, id_name-add_all}

abbrev find : List IdNode → ℕ → Option IdNode
find [] id = none
find (node ∷ rest) id = if id == node.id then some node else find rest id

same_id : (a b : IdNode) → idcmp a b ≡ nought → a.id ≡ b.id
unfolding idcmp
same_id a b h = ground arith

other_id : (a b : IdNode) → idcmp a b ≢ nought → (a.id == b.id) ≡ false
unfolding idcmp
other_id a b h = ground arith

list_tree : RbTree IdNode idcmp
list_tree = record {
  Tree = List IdNode;
  init = [];
  find = λ t n. find t n.id;
  insert = λ t n. n ∷ t;
  nodes = λ t. t;
  find-init = λ n. refl;
  find_same = λ t n m h. ap (find t) (same_id n m h);
  find-insert_same = λ t n m h e. if-then (m.id == n.id) _ _ ((==_iff m.id n.id).1 (same_id m n e));
  find-insert_ne = λ t n m h e. if-else (m.id == n.id) _ _ (other_id m n e);
  nodes-init = refl;
  length_nodes-insert = λ t n h. refl;
}

-- The identifier 7 is named first `a` and then `c`.
abbrev pairs : List (ℕ × String)
pairs = (7, "c") ∷ (8, "b") ∷ (7, "a") ∷ []

oldest_seven : (oldest pairs 7 ≡ some "a") × (distinct pairs ≡ 2)
unfolding oldest distinct
oldest_seven = (refl, refl)

id_name-add_all_example :
    ((id : ℕ) → id_name list_tree (add_all list_tree pairs) id ≡ oldest pairs id)
    × (id_size list_tree (add_all list_tree pairs) ≡ distinct pairs)
id_name-add_all_example = id_name-add_all list_tree pairs (omega arith)
