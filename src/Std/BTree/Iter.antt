-- ===== src/Std/BTree/Iter.antt =====
-- The iterator over the keys of the ordered set (concordium-std/src/state_btree.rs:
-- `StateBTreeSetIter`). The top of the depth-first stack is the head of the list. The iterator
-- takes the key at an index out of the node in memory; it never reads that index again, so the
-- node on the stack is left as it was. `usize` has 32 bits.
pub mod Pending
pub mod Laws
use rust_smart_contract.Base.{
  ℕ, zero, suc, ◌+◌, ◌-◌, ◌%◌, ◌^◌, ◌==◌, Bool, true, false, Option, none, some, List, [], ◌∷◌,
  get_elem?, length,
}
use rust_smart_contract.Std.BTree.Node.{Node, NodeId, StateBTreeSet, is_leaf, get_node, ◌>>=◌}

abbrev pub Stack {ℓ} : Type ℓ → Type ℓ
Stack K = List (Node K × ℕ)

pub record Iter {ℓ} (K : Type ℓ) : Type ℓ where
  pub remaining : ℕ
  pub next_node : Option NodeId
  pub depth_first_stack : Stack K

module _ {ℓ} {K : Type ℓ} where
  unfoldable pub iter : StateBTreeSet K → Iter K
  iter set = record { remaining = set.len; next_node = set.root; depth_first_stack = [] }

  -- the `while let` loop of `next`
  unfoldable pub descend : ℕ → StateBTreeSet K → NodeId → Stack K → Option (Stack K)
  descend zero set id stack = none
  descend (suc fuel) set id stack = get_node id set >>= λ node. elim (is_leaf node) [
    | true ↦ some ((node, 0) ∷ stack)
    | false ↦ get_elem? node.children 0 >>= λ child. descend fuel set child ((node, 0) ∷ stack)
  ]

  unfoldable pub descend_from : ℕ → StateBTreeSet K → Option NodeId → Stack K → Option (Stack K)
  descend_from fuel set none stack = some stack
  descend_from fuel set (some id) stack = descend fuel set id stack

  -- what `next` leaves of the top of the stack, its index already increased
  unfoldable pub drop_exhausted : Node K → ℕ → Stack K → Stack K
  drop_exhausted node index stack = elim (index == length node.keys) [
    | true ↦ stack
    | false ↦ (node, index) ∷ stack
  ]

  unfoldable pub next_child : Node K → ℕ → Option (Option NodeId)
  next_child node index = elim (is_leaf node) [
    | true ↦ some none
    | false ↦ get_elem? node.children index >>= λ child. some (some child)
  ]

  -- The rest of `next`, on the stack that its loop left.
  unfoldable pub take_key : ℕ → Stack K → Option (Option K × Iter K)
  take_key remaining [] =
      some (none, record { remaining = remaining; next_node = none; depth_first_stack = [] })
  take_key remaining ((node, index) ∷ stack) = do
    key ← get_elem? node.keys index
    child ← next_child node (suc index)
    some (
      some key,
      record {
        remaining = (remaining + (2 ^ 32 - 1)) % 2 ^ 32;
        next_node = child;
        depth_first_stack = drop_exhausted node (suc index) stack;
      },
    )

  unfoldable pub next : ℕ → StateBTreeSet K → Iter K → Option (Option K × Iter K)
  next fuel set it = do
    stack ← descend_from fuel set it.next_node it.depth_first_stack
    take_key it.remaining stack

  unfoldable pub size_hint : Iter K → ℕ × Option ℕ
  size_hint it = (it.remaining, some it.remaining)
