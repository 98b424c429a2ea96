-- ===== src/Ids.antt =====
-- src/dmr/id.c: names of identifiers in a red-black tree, and the shared map. The red-black trees
-- of include/dmr/tree.h, which the source uses through macros, are an interface. The checks for
-- NULL pointers that a caller may give are left out.
pub mod Names
mod Tests
use Prim.Native.String.{String}
use dmrlib.Common.{
  ℕ, suc, ◌+◌, ◌≡◌, ◌≢◌, Bool, true, false, Option, none, some, List, [], ◌∷◌, length, ltb,
  if◌then◌else◌,
}
use dmrlib.Error.{Status, done, out_of_memory, last_error}
use dmrlib.Raw.{u64}

-- `dmr_idnode`, without its links; a name that is not set is `none`.
pub record IdNode : Type 0 where
  pub id : ℕ
  pub name : Option String

pub data Sign : Type 0 where
  minus_one nought plus_one : Sign

unfoldable pub idcmp : IdNode → IdNode → Sign
idcmp a b = if ltb b.id a.id then minus_one else (if ltb a.id b.id then plus_one else nought)

-- `RB_FIND` gives the node that compares equal, `RB_INSERT` adds one that does not compare equal to
-- any other, and `RB_FOREACH` visits all nodes.
pub record RbTree (Node : Type 0) (cmp : Node → Node → Sign) : Type 1 where
  pub Tree : Type 0
  pub init : Tree
  pub find : Tree → Node → Option Node
  pub insert : Tree → Node → Tree
  pub nodes : Tree → List Node
  pub find-init : (n : Node) → find init n ≡ none
  pub find_same : (t : Tree) (n m : Node) → cmp n m ≡ nought → find t n ≡ find t m
  pub find-insert_same :
      (t : Tree) (n m : Node) → find t n ≡ none → cmp m n ≡ nought → find (insert t n) m ≡ some n
  pub find-insert_ne :
      (t : Tree) (n m : Node) → find t n ≡ none → cmp m n ≢ nought → find (insert t n) m ≡ find t m
  pub nodes-init : nodes init ≡ []
  pub length_nodes-insert :
      (t : Tree) (n : Node) → find t n ≡ none → length (nodes (insert t n)) ≡ suc (length (nodes t))

-- The node on the stack with which the tree is searched.
abbrev pub key : ℕ → IdNode
key id = record { id = id; name = none }

unfoldable pub count_from : List IdNode → ℕ → ℕ
count_from [] len = len
count_from (node ∷ rest) len = count_from rest (u64 (len + 1))

unfoldable pub name_of : Option IdNode → Option String
name_of none = none
name_of (some node) = node.name

module _ (rb : RbTree IdNode idcmp) where
  open rb use {Tree, init, find, insert, nodes}

  -- `given` is whether talloc gives memory.
  unfoldable pub idmap_new : Bool → Option Tree
  idmap_new given = if given then some init else none

  -- `copied` is whether there is memory for the name.
  unfoldable pub add_found : Bool → Bool → Tree → ℕ → String → Option IdNode → Status × Tree
  add_found given copied map id name (some np) = (done, map)
  add_found given copied map id name none =
      if given
      then (if copied
          then (done, insert map (record { id = id; name = some name }))
          else (out_of_memory, map))
      else (out_of_memory, map)

  unfoldable pub idmap_add : Bool → Bool → Tree → ℕ → String → Status × Tree
  idmap_add given copied map id name = add_found given copied map id name (find map (key id))

  unfoldable pub idmap_get : Tree → ℕ → Option String
  idmap_get map id = name_of (find map (key id))

  -- The shared map, which is NULL at first, is the state.
  unfoldable pub id_init : Bool → Option Tree → Status × Option Tree
  id_init given (some shared) = (done, some shared)
  id_init true none = (done, some init)
  id_init false none = (out_of_memory, none)

  unfoldable pub id_free : Option Tree → Option Tree
  id_free shared = none

  unfoldable pub add_shared : Bool → Bool → ℕ → String → Status × Option Tree → Status × Option Tree
  add_shared given copied id name (done, some shared) =
      let (ret, map) = idmap_add given copied shared id name in (ret, some map)
  add_shared given copied id name (done, none) = (last_error, none)
  add_shared given copied id name (_, shared) = (last_error, shared)

  -- `fresh` is whether there is memory for the map, if there is none.
  unfoldable pub id_add : Bool → Bool → Bool → Option Tree → ℕ → String → Status × Option Tree
  id_add fresh given copied shared id name = add_shared given copied id name (id_init fresh shared)

  unfoldable pub id_name : Option Tree → ℕ → Option String
  id_name none id = none
  id_name (some shared) id = idmap_get shared id

  unfoldable pub id_size : Option Tree → ℕ
  id_size none = 0
  id_size (some shared) = count_from (nodes shared) 0
