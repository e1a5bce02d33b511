-- ===== src/LinkedList/Defs.antt =====
-- The functions of libkmod-list.c on a heap that has a function per field. A pointer that may be
-- NULL is an option. `none` as a result is an access to memory that is not allocated. `granted` is
-- what malloc returns. `struct list_node` is the first member of `struct kmod_list`, so that
-- container_of keeps the address. `data` is an address that is only compared.
use comment_subs.Prelude.{
  ℕ, zero, suc, Bool, true, false, Option, none, some, ◌==◌, ◌||◌, if◌then◌else◌, ◌>>=◌,
}

abbrev pub NodePtr : Type 0
NodePtr = ℕ

-- The fields of `struct list_node` and `struct kmod_list`, and whether an address is allocated.
pub record Heap : Type 0 where
  pub live : NodePtr → Bool
  pub next : NodePtr → NodePtr
  pub prev : NodePtr → NodePtr
  pub data_of : NodePtr → ℕ

abbrev pub update {ℓ} : {A : Type ℓ} → (NodePtr → A) → NodePtr → A → NodePtr → A
update f p v a = if a == p then v else f a

unfoldable pub load_next : Heap → NodePtr → Option NodePtr
load_next h p = if h.live p then some (h.next p) else none

unfoldable pub load_prev : Heap → NodePtr → Option NodePtr
load_prev h p = if h.live p then some (h.prev p) else none

unfoldable pub load_data : Heap → NodePtr → Option ℕ
load_data h p = if h.live p then some (h.data_of p) else none

unfoldable pub set_next : Heap → NodePtr → NodePtr → Option Heap
set_next h p q = if h.live p then some (record h { next = update h.next p q }) else none

unfoldable pub set_prev : Heap → NodePtr → NodePtr → Option Heap
set_prev h p q = if h.live p then some (record h { prev = update h.prev p q }) else none

unfoldable pub set_data : Heap → NodePtr → ℕ → Option Heap
set_data h p d = if h.live p then some (record h { data_of = update h.data_of p d }) else none

-- The fields of a node that malloc returns have any value.
unfoldable pub allocate : Heap → NodePtr → Heap
allocate h p = record h { live = update h.live p true }

unfoldable pub free : Heap → NodePtr → Option Heap
free h p = if h.live p then some (record h { live = update h.live p false }) else none

unfoldable pub list_node_init : Heap → NodePtr → Option Heap
list_node_init h node = do h1 ← set_next h node node; set_prev h1 node node

unfoldable pub list_node_append : Heap → Option NodePtr → NodePtr → Option Heap
list_node_append h none node = list_node_init h node
list_node_append h (some list) node = do
  last ← load_prev h list
  h1 ← set_prev h node last
  last1 ← load_prev h1 list
  h2 ← set_next h1 last1 node
  h3 ← set_prev h2 list node
  set_next h3 node list

-- The part of list_node_remove behind its first test.
unfoldable pub list_node_unlink : Heap → NodePtr → Option (Option NodePtr × Heap)
list_node_unlink h node = do
  before ← load_prev h node
  after ← load_next h node
  h1 ← set_next h before after
  after1 ← load_next h1 node
  before1 ← load_prev h1 node
  h2 ← set_prev h1 after1 before1
  result ← load_next h2 node
  some (some result, h2)

unfoldable pub list_node_remove : Heap → NodePtr → Option (Option NodePtr × Heap)
list_node_remove h node = do
  before ← load_prev h node
  after ← load_next h node
  if before == node || after == node then some (none, h) else list_node_unlink h node

unfoldable pub list_node_insert_after : Heap → Option NodePtr → NodePtr → Option Heap
list_node_insert_after h none node = list_node_init h node
list_node_insert_after h (some list) node = do
  h1 ← set_prev h node list
  after ← load_next h1 list
  h2 ← set_next h1 node after
  after1 ← load_next h2 list
  h3 ← set_prev h2 after1 node
  set_next h3 list node

unfoldable pub list_node_insert_before : Heap → Option NodePtr → NodePtr → Option Heap
list_node_insert_before h none node = list_node_init h node
list_node_insert_before h (some list) node = do
  h1 ← set_next h node list
  before ← load_prev h1 list
  h2 ← set_prev h1 node before
  before1 ← load_prev h2 list
  h3 ← set_next h2 before1 node
  set_prev h3 list node

unfoldable pub list_node_append_list : Heap → Option NodePtr → NodePtr → Option Heap
list_node_append_list h none list2 = list_node_init h list2
list_node_append_list h (some list1) list2 = do
  last1 ← load_prev h list1
  h1 ← set_next h last1 list2
  last2 ← load_prev h1 list2
  h2 ← set_next h1 last2 list1
  list1_last ← load_prev h2 list1
  last ← load_prev h2 list2
  h3 ← set_prev h2 list1 last
  set_prev h3 list2 list1_last

-- `list ? list : new`
abbrev pub list_or : Option NodePtr → NodePtr → Option NodePtr
list_or none new = some new
list_or (some list) new = some list

unfoldable pub kmod_list_append :
    Heap → Option NodePtr → (granted : Option NodePtr) → ℕ → Option (Option NodePtr × Heap)
kmod_list_append h list none d = some (none, h)
kmod_list_append h list (some new) d = do
  h1 ← set_data (allocate h new) new d
  h2 ← list_node_append h1 list new
  some (list_or list new, h2)

unfoldable pub kmod_list_insert_after :
    Heap → Option NodePtr → (granted : Option NodePtr) → ℕ → Option (Option NodePtr × Heap)
kmod_list_insert_after h none granted d = kmod_list_append h none granted d
kmod_list_insert_after h (some list) none d = some (none, h)
kmod_list_insert_after h (some list) (some new) d = do
  h1 ← set_data (allocate h new) new d
  h2 ← list_node_insert_after h1 (some list) new
  some (some list, h2)

unfoldable pub kmod_list_insert_before :
    Heap → Option NodePtr → (granted : Option NodePtr) → ℕ → Option (Option NodePtr × Heap)
kmod_list_insert_before h none granted d = kmod_list_append h none granted d
kmod_list_insert_before h (some list) none d = some (none, h)
kmod_list_insert_before h (some list) (some new) d = do
  h1 ← set_data (allocate h new) new d
  h2 ← list_node_insert_before h1 (some list) new
  some (some new, h2)

unfoldable pub kmod_list_append_list :
    Heap → Option NodePtr → Option NodePtr → Option (Option NodePtr × Heap)
kmod_list_append_list h none list2 = some (list2, h)
kmod_list_append_list h (some list1) none = some (some list1, h)
kmod_list_append_list h (some list1) (some list2) = do
  h1 ← list_node_append_list h (some list1) list2
  some (some list1, h1)

unfoldable pub kmod_list_prepend :
    Heap → Option NodePtr → (granted : Option NodePtr) → ℕ → Option (Option NodePtr × Heap)
kmod_list_prepend h list none d = some (none, h)
kmod_list_prepend h list (some new) d = do
  h1 ← set_data (allocate h new) new d
  h2 ← list_node_append h1 list new
  some (some new, h2)

unfoldable pub kmod_list_remove : Heap → Option NodePtr → Option (Option NodePtr × Heap)
kmod_list_remove h none = some (none, h)
kmod_list_remove h (some list) = do
  (node, h1) ← list_node_remove h list
  h2 ← free h1 list
  some (node, h2)

unfoldable pub kmod_list_prev : Heap → Option NodePtr → Option NodePtr → Option (Option NodePtr)
kmod_list_prev h none curr = some none
kmod_list_prev h (some list) none = some none
kmod_list_prev h (some list) (some curr) =
    if list == curr then some none else (load_prev h curr >>= λ p. some (some p))

unfoldable pub kmod_list_next : Heap → Option NodePtr → Option NodePtr → Option (Option NodePtr)
kmod_list_next h none curr = some none
kmod_list_next h (some list) none = some none
kmod_list_next h (some list) (some curr) = do
  p ← load_next h curr
  some (if p == list then none else some p)

unfoldable pub kmod_list_last : Heap → Option NodePtr → Option (Option NodePtr)
kmod_list_last h none = some none
kmod_list_last h (some list) = load_prev h list >>= λ p. some (some p)

-- The loop of kmod_list_remove_data, which ends within as many rounds as the list has nodes.
unfoldable pub find_data : ℕ → Heap → (list itr : Option NodePtr) → ℕ → Option (Option NodePtr)
find_data zero h list itr d = none
find_data (suc fuel) h list none d = some none
find_data (suc fuel) h list (some itr) d = do
  x ← load_data h itr
  if x == d
      then some (some itr)
      else (kmod_list_next h list (some itr) >>= λ following. find_data fuel h list following d)

-- What kmod_list_remove_data does with the node that its loop found.
unfoldable pub remove_found :
    Heap → Option NodePtr → Option NodePtr → Option (Option NodePtr × Heap)
remove_found h list none = some (list, h)
remove_found h list (some itr) = do
  (node, h1) ← list_node_remove h itr
  h2 ← free h1 itr
  some (node, h2)

unfoldable pub kmod_list_remove_data :
    (fuel : ℕ) → Heap → Option NodePtr → ℕ → Option (Option NodePtr × Heap)
kmod_list_remove_data fuel h list d = do itr ← find_data fuel h list list d; remove_found h list itr

unfoldable pub kmod_list_remove_n_latest :
    Heap → Option NodePtr → ℕ → Option (Option NodePtr × Heap)
kmod_list_remove_n_latest h l zero = some (l, h)
kmod_list_remove_n_latest h l (suc n) = do
  last ← kmod_list_last h l
  (l1, h1) ← kmod_list_remove h last
  kmod_list_remove_n_latest h1 l1 n
