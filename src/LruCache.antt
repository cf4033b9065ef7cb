-- ===== src/LruCache.antt =====
-- LruCache of deps/common/lang/lru_cache.h: a doubly linked list of the entries in the order of use, and a hash set
-- of its nodes. A pointer is an address in `nodes`, `nullptr` is `none`, and `fresh` is the next address of `new`.
pub mod Chain
pub mod Links
pub mod Invariant
pub mod Changes
pub mod Spec
pub mod Laws
pub mod Entries
pub mod Refine
pub mod Calls
pub mod Walk
pub mod Tests
use ob_preliminary.Common.{
  ℕ, zero, suc, ◌+◌, Bool, true, false, Option, none, some, List, [], ◌∷◌, ◌==◌, if◌then◌else◌,
  length,
}

pub record ListNode {ℓ} (K V : Type ℓ) : Type ℓ where
  pub key : K
  pub value : V
  pub prev : Option ℕ
  pub next : Option ℕ

pub record LruCache {ℓ} (K V : Type ℓ) : Type ℓ where
  pub nodes : ℕ → ListNode K V
  pub fresh : ℕ
  pub searcher : List ℕ
  pub lru_front : Option ℕ
  pub lru_tail : Option ℕ

-- `searcher_.erase(node)`.
unfoldable pub erase : List ℕ → ℕ → List ℕ
erase [] a = []
erase (x ∷ xs) a = if x == a then xs else x ∷ erase xs a

-- A pointer compared with a node.
unfoldable pub points_at : Option ℕ → ℕ → Bool
points_at none a = false
points_at (some b) a = b == a

module _ {ℓ} {K V : Type ℓ} where
  -- A write through a pointer.
  unfoldable pub store : (ℕ → ListNode K V) → ℕ → ListNode K V → ℕ → ListNode K V
  store nodes a n b = if b == a then n else nodes b

  unfoldable pub set_prev : (ℕ → ListNode K V) → ℕ → Option ℕ → ℕ → ListNode K V
  unfolding store
  set_prev nodes a o = store nodes a (record (nodes a) { prev = o })

  unfoldable pub set_next : (ℕ → ListNode K V) → ℕ → Option ℕ → ℕ → ListNode K V
  unfolding store
  set_next nodes a o = store nodes a (record (nodes a) { next = o })

  unfoldable pub set_value : (ℕ → ListNode K V) → ℕ → V → ℕ → ListNode K V
  unfolding store
  set_value nodes a v = store nodes a (record (nodes a) { value = v })

  -- `node->next_->prev_ = node->prev_`, if there is a next node.
  unfoldable pub skip_back : (ℕ → ListNode K V) → ℕ → ℕ → ListNode K V
  skip_back nodes a = elim ((nodes a).next) [
    | none ↦ nodes
    | some x ↦ set_prev nodes x ((nodes a).prev)
  ]

  -- `node->prev_->next_ = node->next_`, if there is a previous node.
  unfoldable pub skip_on : (ℕ → ListNode K V) → ℕ → ℕ → ListNode K V
  skip_on nodes a = elim ((nodes a).prev) [
    | none ↦ nodes
    | some p ↦ set_next nodes p ((nodes a).next)
  ]

  -- The node is linked in before the front.
  unfoldable pub link_front : (ℕ → ListNode K V) → ℕ → Option ℕ → ℕ → ListNode K V
  link_front nodes a front =
      let linked = set_next (set_prev nodes a none) a front in
      elim front [ none ↦ linked | some f ↦ set_prev linked f (some a) ]

  unfoldable pub lru_touch : LruCache K V → ℕ → LruCache K V
  lru_touch c a = elim ((c.nodes a).prev) [
    | none ↦ c
    | some p ↦
        let skipped = skip_on c.nodes a in
        record c {
          nodes = link_front (skip_back skipped a) a c.lru_front;
          lru_front = some a;
          lru_tail = elim ((skipped a).next) [ none ↦ (skipped a).prev | some x ↦ c.lru_tail ];
        }
  ]

  unfoldable pub lru_push : LruCache K V → ℕ → LruCache K V
  lru_push c a = record c {
    nodes = link_front c.nodes a c.lru_front;
    lru_front = some a;
    lru_tail = elim c.lru_tail [ none ↦ some a | some t ↦ some t ];
    searcher = a ∷ c.searcher;
  }

  unfoldable pub lru_remove : LruCache K V → ℕ → LruCache K V
  lru_remove c a =
      let nodes = skip_back (skip_on c.nodes a) a in
      record c {
        nodes = nodes;
        lru_front = if points_at c.lru_front a then (nodes a).next else c.lru_front;
        lru_tail = if points_at c.lru_tail a then (nodes a).prev else c.lru_tail;
        searcher = erase c.searcher a;
      }

  -- `foreach`: the pairs that the function is called with, until it returns false.
  unfoldable pub foreach_loop : ℕ → (ℕ → ListNode K V) → (K → V → Bool) → Option ℕ → List (K × V)
  foreach_loop zero nodes func at = []
  foreach_loop (suc fuel) nodes func none = []
  foreach_loop (suc fuel) nodes func (some a) =
      let n = nodes a in
      let rest = foreach_loop fuel nodes func n.next in
      (n.key, n.value) ∷ (if func n.key n.value then rest else [])

  unfoldable pub foreach : LruCache K V → (K → V → Bool) → List (K × V)
  foreach c func = foreach_loop (length c.searcher) c.nodes func c.lru_front

  unfoldable pub foreach_reverse_loop :
      ℕ → (ℕ → ListNode K V) → (K → V → Bool) → Option ℕ → List (K × V)
  foreach_reverse_loop zero nodes func at = []
  foreach_reverse_loop (suc fuel) nodes func none = []
  foreach_reverse_loop (suc fuel) nodes func (some a) =
      let n = nodes a in
      let rest = foreach_reverse_loop fuel nodes func n.prev in
      (n.key, n.value) ∷ (if func n.key n.value then rest else [])

  unfoldable pub foreach_reverse : LruCache K V → (K → V → Bool) → List (K × V)
  foreach_reverse c func = foreach_reverse_loop (length c.searcher) c.nodes func c.lru_tail

  unfoldable pub count : LruCache K V → ℕ
  count c = length c.searcher

  -- The predicate that compares keys, `Pred`.
  module _ (pred : K → K → Bool) where
    unfoldable pub find : (ℕ → ListNode K V) → List ℕ → K → Option ℕ
    find nodes [] k = none
    find nodes (a ∷ rest) k = if pred (nodes a).key k then some a else find nodes rest k

    unfoldable pub get : LruCache K V → K → LruCache K V × Option V
    get c k = elim (find c.nodes c.searcher k) [
      | none ↦ (c, none)
      | some a ↦ let touched = lru_touch c a in (touched, some (touched.nodes a).value)
    ]

    unfoldable pub put : LruCache K V → K → V → LruCache K V
    put c k v = elim (find c.nodes c.searcher k) [
      | some a ↦ lru_touch (record c { nodes = set_value c.nodes a v }) a
      | none ↦
          let node : ListNode K V = record { key = k; value = v; prev = none; next = none } in
          lru_push (record c { nodes = store c.nodes c.fresh node; fresh = c.fresh + 1 }) c.fresh
    ]

    unfoldable pub remove : LruCache K V → K → LruCache K V
    remove c k = elim (find c.nodes c.searcher k) [ none ↦ c | some a ↦ lru_remove c a ]
