-- ===== src/Device/AllowedIps/Trie.antt =====
-- device/allowedips.go: the trie of one family of addresses. A node keeps its children by value, so
-- that the pointers to parents, which only removal follows, are not kept. `bitAtByte` and
-- `bitAtShift` are functions of `cidr`, and are computed where `choose` reads them. Peers are
-- compared by identity: a peer is a number.
use wgservermgr.Prelude.{
  ℕ, ◌/◌, Bool, true, false, ◌&&◌, Option, none, some, ◌==◌, ltb, leb, if◌then◌else◌,
}
use wgservermgr.Device.AllowedIps.Addresses.{Family, choose, mask_self}

-- `*trieEntry`: nil, or a node.
pub data Trie : Type 0 where
  nil : Trie
  entry : (peer : Option ℕ) (bits cidr : ℕ) (child0 child1 : Trie) → Trie

-- `node.child[bit] = t`.
abbrev pub set_child : Bool → Trie → Trie → Trie
set_child bit t nil = nil
set_child true t (entry peer bits cidr child0 child1) = entry peer bits cidr child0 t
set_child false t (entry peer bits cidr child0 child1) = entry peer bits cidr t child1

-- `if node.peer != nil { found = node.peer }`
abbrev pub found_at : Option ℕ → Option ℕ → Option ℕ
found_at none found = found
found_at (some peer) found = some peer

module _ (f : Family) where
  -- The first `cidr` bits of two addresses are the same, as `commonBits` finds.
  abbrev pub agrees : ℕ → ℕ → ℕ → Bool
  agrees cidr a b = leb cidr (f.common_bits a b)

  -- The loop of `lookup`, with what it has found.
  unfoldable pub lookup : ℕ → Trie → Option ℕ → Option ℕ
  lookup ip nil found = found
  lookup ip (entry peer bits cidr child0 child1) found =
      let found' = found_at peer found in
      let right = lookup ip child1 found' in
      let left = lookup ip child0 found' in
      if agrees cidr bits ip
      then (if cidr / 8 == f.size then found' else if choose f cidr ip then right else left)
      else found

  -- The peer of the node that `nodePlacement` finds where it finds an exact one.
  unfoldable pub exact_peer : ℕ → ℕ → Trie → Option ℕ
  exact_peer ip cidr nil = none
  exact_peer ip cidr (entry peer bits node_cidr child0 child1) =
      let right = exact_peer ip cidr child1 in
      let left = exact_peer ip cidr child0 in
      if leb node_cidr cidr && agrees node_cidr bits ip
      then (if node_cidr == cidr then peer else if choose f node_cidr ip then right else left)
      else none

  -- The new node of `insert`. `maskSelf` masks the bytes of `ip` themselves.
  abbrev pub new_node : ℕ → ℕ → ℕ → Trie
  new_node ip cidr peer = entry (some peer) (mask_self f cidr ip) cidr nil nil

  -- `insert` where the node `down` is in the way: the new node goes above it, or a node without a
  -- peer above both. `ip` is masked here, by the new node's `maskSelf`.
  unfoldable pub insert_above : ℕ → ℕ → ℕ → ℕ → Trie → Trie
  insert_above ip cidr peer down_bits down =
      let common = f.common_bits down_bits ip in
      let glue_cidr = (if ltb common cidr then common else cidr) in
      let node = entry (some peer) ip cidr nil nil in
      let glue = entry none (mask_self f glue_cidr ip) glue_cidr nil nil in
      if cidr == glue_cidr
      then set_child (choose f cidr down_bits) down node
      else set_child (choose f glue_cidr ip) node
          (set_child (choose f glue_cidr down_bits) down glue)

  -- `insert`: the loop of `nodePlacement` down to the node or the empty child where the rest of the
  -- body changes the trie.
  unfoldable pub insert : ℕ → ℕ → ℕ → Trie → Trie
  insert ip cidr peer nil = new_node ip cidr peer
  insert ip cidr peer (entry q bits node_cidr child0 child1) =
      let right = insert ip cidr peer child1 in
      let left = insert ip cidr peer child0 in
      if leb node_cidr cidr && agrees node_cidr bits ip
      then (if node_cidr == cidr
          then entry (some peer) bits node_cidr child0 child1
          else if choose f node_cidr ip
          then entry q bits node_cidr child0 right
          else entry q bits node_cidr left child1)
      else insert_above (mask_self f cidr ip) cidr peer bits (entry q bits node_cidr child0 child1)
