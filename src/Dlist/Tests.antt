-- ===== src/Dlist/Tests.antt =====
-- Runs of the lists of klib/list.h, and instances of the theorems.
use it_works_os.Base.{◌+◌, ◌≡◌, refl, arith, some, [], ◌∷◌, ◌==◌}
use it_works_os.Dlist.Chain.{IsList}
use it_works_os.Dlist.Deque.{Ends, deque_lem}
use it_works_os.Dlist.Walk.{removing, list_for_each_safe_lem}
use it_works_os.Dlist.{
  Links, list_init, list_insert_front, list_insert_back, list_pop_front, list_pop_back,
  list_for_each, list_for_each_safe,
}

abbrev blank : Links
blank = record { next = λ _. 0; prev = λ _. 0 }

abbrev empty_list : Links
empty_list = list_init blank 100

-- The sentinel 100 with the nodes 8 and 16.
abbrev pub two_nodes : Links
two_nodes = list_insert_back (list_insert_back empty_list 100 8) 100 16

pub two_nodes-IsList : IsList two_nodes 100 (8 ∷ (16 ∷ []))
unfolding list_init list_insert_back
two_nodes-IsList = record {
  forth = (refl, (refl, refl));
  back = (refl, (refl, refl));
  distinct = (refl, (refl, (refl, tt)));
  not_null = refl;
}

collected : list_for_each 5 two_nodes 100 (λ s n. s + n) 0 ≡ some 24
unfolding list_init list_insert_back list_for_each
collected = refl

deque_lem_example :
    Ends two_nodes 100 (8 ∷ (16 ∷ []))
    × IsList (list_insert_front two_nodes 100 24) 100 (24 ∷ (8 ∷ (16 ∷ [])))
    × IsList (list_insert_back two_nodes 100 24) 100 (8 ∷ (16 ∷ (24 ∷ [])))
    × ((list_pop_front two_nodes 100).0 ≡ 8)
    × IsList (list_pop_front two_nodes 100).1 100 (16 ∷ [])
    × ((list_pop_back two_nodes 100).0 ≡ 16)
    × IsList (list_pop_back two_nodes 100).1 100 (8 ∷ [])
deque_lem_example = deque_lem two_nodes 100 (8 ∷ (16 ∷ [])) 24 two_nodes-IsList refl (omega arith)

list_for_each_safe_lem_example :
    (l' : Links) × (list_for_each_safe 3 100 (removing (λ n. n == 16)) two_nodes ≡ some l')
    × IsList l' 100 (16 ∷ [])
list_for_each_safe_lem_example =
    list_for_each_safe_lem 3 100 (λ n. n == 16) (8 ∷ (16 ∷ [])) two_nodes two_nodes-IsList
      (omega arith)
