-- ===== src/Ids/Names.antt =====
-- src/dmr/id.c: the map keeps the first name that is added for an identifier.
use Prim.Native.String.{String}
use dmrlib.Common.{
  ℕ, suc, ◌+◌, ◌^◌, ◌<◌, ◌≤◌, ◌≡◌, ◌≢◌, refl, ap, sym, subst, ◌∙◌, inl, inr, arith, true, false,
  Bool, Bool-cases, Option, none, some, List, [], ◌∷◌, length, ◌==◌, ==_iff, if◌then◌else◌,
}
use dmrlib.Raw.{u64}
use dmrlib.Ids.{
  IdNode, nought, idcmp, RbTree, key, count_from, name_of, idmap_add, add_found, idmap_get, id_init,
  id_add, add_shared, id_name, id_size,
}

abbrev or_else : Option String → Option String → Option String
or_else none b = b
or_else (some a) b = some a

abbrev is_none : Option String → Bool
is_none none = true
is_none (some a) = false

-- The oldest name of an identifier in a list that has the newest pair first, and the number of
-- identifiers in the list.
unfoldable pub oldest : List (ℕ × String) → ℕ → Option String
oldest [] id = none
oldest (pair ∷ older) id = or_else (oldest older id) (if id == pair.0 then some pair.1 else none)

unfoldable pub distinct : List (ℕ × String) → ℕ
distinct [] = 0
distinct (pair ∷ older) =
    if is_none (oldest older pair.0) then suc (distinct older) else distinct older

distinct-length : (pairs : List (ℕ × String)) → distinct pairs ≤ length pairs
unfolding distinct
distinct-length [] = omega arith
distinct-length (pair ∷ older) = ground (arith, distinct-length older)

idcmp_iff : (a b : IdNode) → (a.id == b.id) ≡ true → idcmp a b ≡ nought
unfolding idcmp
idcmp_iff a b h = ground arith

idcmp_ne : (a b : IdNode) → (a.id == b.id) ≡ false → idcmp a b ≢ nought
unfolding idcmp
idcmp_ne a b h = ground arith

oldest_known :
    (pairs : List (ℕ × String)) (pair : ℕ × String) (id : ℕ) (s : String)
    → oldest pairs id ≡ some s
    → oldest (pair ∷ pairs) id ≡ some s
unfolding oldest
oldest_known pairs pair id s h = rw h refl

oldest_new :
    (pairs : List (ℕ × String)) (pair : ℕ × String) (id : ℕ)
    → oldest pairs id ≡ none
    → (id == pair.0) ≡ true
    → oldest (pair ∷ pairs) id ≡ some pair.1
unfolding oldest
oldest_new pairs pair id h same = rw (h, same) refl

oldest_other :
    (pairs : List (ℕ × String)) (pair : ℕ × String) (id : ℕ)
    → (id == pair.0) ≡ false
    → oldest (pair ∷ pairs) id ≡ oldest pairs id
unfolding oldest
oldest_other pairs pair id other = rw other (or_else-none (oldest pairs id))
  where
    or_else-none : (a : Option String) → or_else a none ≡ a
    or_else-none none = refl
    or_else-none (some a) = refl

module _ (rb : RbTree IdNode idcmp) where
  record IsMap (map : rb.Tree) (pairs : List (ℕ × String)) : Type 0 where
    names : (id : ℕ) → idmap_get rb map id ≡ oldest pairs id
    named :
        (id : ℕ) (node : IdNode)
        → rb.find map (key id) ≡ some node
        → (s : String) × (node.name ≡ some s)
    counted : length (rb.nodes map) ≡ distinct pairs

  kept :
      (map : rb.Tree) (pairs : List (ℕ × String)) (pair : ℕ × String) (node : IdNode)
      → IsMap map pairs
      → rb.find map (key pair.0) ≡ some node
      → IsMap map (pair ∷ pairs)
  unfolding distinct idmap_get name_of
  kept map pairs pair node good h =
      let (s, e) = good.named pair.0 node h in
      let known : oldest pairs pair.0 ≡ some s = sym (good.names pair.0) ∙ ap name_of h ∙ e in
      record {
        names = λ id. elim (Bool-cases (id == pair.0)) [
          | inl same ↦
              let here : oldest pairs id ≡ some s =
                ap (oldest pairs) ((==_iff id pair.0).0 same) ∙ known in
              good.names id ∙ here ∙ sym (oldest_known pairs pair id s here)
          | inr other ↦ good.names id ∙ sym (oldest_other pairs pair id other)
        ];
        named = good.named;
        counted = good.counted ∙ rw known refl;
      }

  abbrev node_of : ℕ × String → IdNode
  node_of pair = record { id = pair.0; name = some pair.1 }

  inserted :
      (map : rb.Tree) (pairs : List (ℕ × String)) (pair : ℕ × String)
      → IsMap map pairs
      → rb.find map (key pair.0) ≡ none
      → IsMap (rb.insert map (node_of pair)) (pair ∷ pairs)
  unfolding distinct idmap_get name_of
  inserted map pairs pair good h =
      let absent : rb.find map (node_of pair) ≡ none =
        rb.find_same map (node_of pair) (key pair.0)
          (idcmp_iff (node_of pair) (key pair.0) ((==_iff pair.0 pair.0).1 refl))
        ∙ h in
      let unknown : oldest pairs pair.0 ≡ none = sym (good.names pair.0) ∙ ap name_of h in
      record {
        names = λ id. elim (Bool-cases (id == pair.0)) [
          | inl same ↦
              ap name_of (
                rb.find-insert_same map (node_of pair) (key id) absent
                  (idcmp_iff (key id) (node_of pair) same))
              ∙ sym (
                  oldest_new pairs pair id (ap (oldest pairs) ((==_iff id pair.0).0 same) ∙ unknown)
                    same)
          | inr other ↦
              ap name_of (
                rb.find-insert_ne map (node_of pair) (key id) absent
                  (idcmp_ne (key id) (node_of pair) other))
              ∙ good.names id
              ∙ sym (oldest_other pairs pair id other)
        ];
        named = λ id node e. elim (Bool-cases (id == pair.0)) [
          | inl same ↦ (
            pair.1,
            ap (λ t. name_of t)
                (sym e
                  ∙ rb.find-insert_same map (node_of pair) (key id) absent
                      (idcmp_iff (key id) (node_of pair) same)),
          )
          | inr other ↦ good.named id node (
              sym (
                rb.find-insert_ne map (node_of pair) (key id) absent
                  (idcmp_ne (key id) (node_of pair) other))
              ∙ e)
        ];
        counted =
            rb.length_nodes-insert map (node_of pair) absent
            ∙ ap suc good.counted
            ∙ rw unknown refl;
      }

  add-IsMap :
      (map : rb.Tree) (pairs : List (ℕ × String)) (pair : ℕ × String) (found : Option IdNode)
      → IsMap map pairs
      → rb.find map (key pair.0) ≡ found
      → IsMap (add_found rb true true map pair.0 pair.1 found).1 (pair ∷ pairs)
  unfolding add_found
  add-IsMap map pairs pair none good h = inserted map pairs pair good h
  add-IsMap map pairs pair (some node) good h = kept map pairs pair node good h

  -- The pairs are added to the shared map, the last of the list first, with memory.
  unfoldable pub add_all : List (ℕ × String) → Option rb.Tree
  add_all [] = none
  add_all (pair ∷ older) = (id_add rb true true true (add_all older) pair.0 pair.1).1

  abbrev tree_of : Option rb.Tree → rb.Tree
  tree_of none = rb.init
  tree_of (some map) = map

  id_add-tree_of :
      (shared : Option rb.Tree) (pair : ℕ × String)
      → (id_add rb true true true shared pair.0 pair.1).1
        ≡ some (idmap_add rb true true (tree_of shared) pair.0 pair.1).1
  unfolding id_add add_shared id_init
  id_add-tree_of none pair = refl
  id_add-tree_of (some map) pair = refl

  add_all-IsMap : (pairs : List (ℕ × String)) → IsMap (tree_of (add_all pairs)) pairs
  unfolding add_all idmap_add idmap_get name_of oldest distinct
  add_all-IsMap [] = record {
    names = λ id. ap name_of (rb.find-init (key id));
    named = λ id node e. let clash : none ≡ some node = sym (rb.find-init (key id)) ∙ e in cc;
    counted = ap length rb.nodes-init;
  }
  add_all-IsMap (pair ∷ older) =
      subst (λ t. IsMap (tree_of t) (pair ∷ older)) (sym (id_add-tree_of (add_all older) pair))
        (add-IsMap (tree_of (add_all older)) older pair _ (add_all-IsMap older) refl)

  count_from-length :
      (held : List IdNode) (i : ℕ) → i + length held < 2 ^ 64 → count_from held i ≡ i + length held
  unfolding count_from
  count_from-length [] i h = omega arith
  count_from-length (node ∷ held) i h =
      ap (count_from held) {x = u64 (i + 1)} {y = i + 1} (omega arith)
      ∙ count_from-length held (i + 1) (omega arith)
      ∙ omega arith

  shared_name :
      (shared : Option rb.Tree) (id : ℕ) → id_name rb shared id ≡ idmap_get rb (tree_of shared) id
  unfolding id_name idmap_get name_of
  shared_name none id = sym (ap name_of (rb.find-init (key id)))
  shared_name (some map) id = refl

  shared_size :
      (shared : Option rb.Tree) → id_size rb shared ≡ count_from (rb.nodes (tree_of shared)) 0
  unfolding id_size count_from
  shared_size none = sym (ap (λ held. count_from held 0) rb.nodes-init)
  shared_size (some map) = refl

  -- After fewer than 2 ^ 64 additions with memory to a shared map that is not there at first, an identifier has the
  -- oldest name that was added for it, and the size is the number of identifiers.
  pub id_name-add_all :
      (pairs : List (ℕ × String))
      → length pairs < 2 ^ 64
      → ((id : ℕ) → id_name rb (add_all pairs) id ≡ oldest pairs id)
        × (id_size rb (add_all pairs) ≡ distinct pairs)
  id_name-add_all pairs few =
      let good = add_all-IsMap pairs in
      (
        λ id. shared_name (add_all pairs) id ∙ good.names id,
        shared_size (add_all pairs)
            ∙ count_from-length (rb.nodes (tree_of (add_all pairs))) 0
                (omega (arith, good.counted, distinct-length pairs))
            ∙ omega (arith, good.counted),
      )
