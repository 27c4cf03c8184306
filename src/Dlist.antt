-- ===== src/Dlist.antt =====
-- Model of the circular doubly linked lists of kernel/include/klib/list.h. The nodes that the
-- program embeds in its structures are addresses, the sentinel of a list is one too, NULL is 0,
-- and `Links` is the memory of their two fields: every operation writes the fields in the order
-- of the source, so that nodes which coincide are treated as there.
pub mod Chain
pub mod Insert
pub mod Remove
pub mod Deque
pub mod Walk
pub mod Tests
use it_works_os.Base.{ℕ, zero, suc, Bool, Option, none, some, if◌then◌else◌, ◌==◌}

-- The `next` and the `prev` of each node.
pub record Links : Type 0 where
  pub next : ℕ → ℕ
  pub prev : ℕ → ℕ

abbrev pub null : ℕ
null = 0

abbrev pub write : (ℕ → ℕ) → ℕ → ℕ → ℕ → ℕ
write f a v p = if p == a then v else f p

abbrev pub set_next : Links → ℕ → ℕ → Links
set_next l a v = record l { next = write l.next a v }

abbrev pub set_prev : Links → ℕ → ℕ → Links
set_prev l a v = record l { prev = write l.prev a v }

-- The list of the sentinel `head`.
pub list_init : Links → ℕ → Links
list_init l head = set_prev (set_next l head head) head head

pub list_empty : Links → ℕ → Bool
list_empty l head = l.next head == head

pub list_front : Links → ℕ → ℕ
unfolding list_empty
list_front l head = if list_empty l head then null else l.next head

pub list_back : Links → ℕ → ℕ
unfolding list_empty
list_back l head = if list_empty l head then null else l.prev head

pub list_insert_after : Links → ℕ → ℕ → Links
list_insert_after l node new =
    let l1 = set_prev l new node in
    let l2 = set_next l1 new (l1.next node) in
    let l3 = set_prev l2 (l2.next node) new in set_next l3 node new

pub list_insert_before : Links → ℕ → ℕ → Links
list_insert_before l node new =
    let l1 = set_next l new node in
    let l2 = set_prev l1 new (l1.prev node) in
    let l3 = set_next l2 (l2.prev node) new in set_prev l3 node new

pub list_remove : Links → ℕ → Links
list_remove l node =
    let l1 = set_next l (l.prev node) (l.next node) in
    let l2 = set_prev l1 (l1.next node) (l1.prev node) in set_prev (set_next l2 node null) node null

pub list_insert_front : Links → ℕ → ℕ → Links
unfolding list_insert_after
list_insert_front l head node = list_insert_after l head node

pub list_insert_back : Links → ℕ → ℕ → Links
unfolding list_insert_before
list_insert_back l head node = list_insert_before l head node

-- The removed node, or NULL, with the links after it.
pub list_pop_front : Links → ℕ → ℕ × Links
unfolding list_empty list_remove
list_pop_front l head =
    if list_empty l head then (null, l) else let node = l.next head in (node, list_remove l node)

pub list_pop_back : Links → ℕ → ℕ × Links
unfolding list_empty list_remove
list_pop_back l head =
    if list_empty l head then (null, l) else let node = l.prev head in (node, list_remove l node)

pub list_replace : Links → ℕ → ℕ → Links
list_replace l old_node new_node =
    let l1 = set_prev l new_node (l.prev old_node) in
    let l2 = set_next l1 new_node (l1.next old_node) in
    let l3 = set_next l2 (l2.prev old_node) new_node in
    let l4 = set_prev l3 (l3.next old_node) new_node in
    set_prev (set_next l4 old_node null) old_node null

module _ {S : Type 0} where
  -- `list_for_each` from `node` on, with a body that leaves the links alone; `none` is a walk
  -- that has not come back to the sentinel within the fuel.
  pub each_from : ℕ → Links → ℕ → (S → ℕ → S) → ℕ → S → Option S
  each_from zero l head body node s = none
  each_from (suc fuel) l head body node s =
      let rest = each_from fuel l head body (l.next node) (body s node) in
      if node == head then some s else rest

  pub list_for_each : ℕ → Links → ℕ → (S → ℕ → S) → S → Option S
  unfolding each_from
  list_for_each fuel l head body = each_from fuel l head body (l.next head)

-- `list_for_each_safe` from `node` on, whose body may change the links.
pub safe_from : ℕ → ℕ → (Links → ℕ → Links) → ℕ → ℕ → Links → Option Links
safe_from zero head body node next l = none
safe_from (suc fuel) head body node next l =
    let after = body l node in
    let rest = safe_from fuel head body next (after.next next) after in
    if node == head then some l else rest

pub list_for_each_safe : ℕ → ℕ → (Links → ℕ → Links) → Links → Option Links
unfolding safe_from
list_for_each_safe fuel head body l =
    let node = l.next head in safe_from fuel head body node (l.next node) l
