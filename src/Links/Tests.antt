-- ===== src/Links/Tests.antt =====
-- Runs of lib/kernel/list.c on a list of two elements.
use project.Base.{ℕ, ◌≡◌, refl, List, [], ◌∷◌, ok, arith, ◌==◌, if◌then◌else◌, ltb}
use project.Links.{Heap, list_init, list_size, list_max, list_reverse, list_insert_ordered}
use project.Links.Abstract.{
  Operation, push_front, push_back, insert, pop_front, pop_back, remove, performs, results,
  all_permitted,
}
use project.Links.Deque.{IsList}
use project.Links.Refine.{performs-results, list_init-IsList}
use project.Links.Measure.{list_size-length}
use project.Links.Order.{IsOrder, IsMax, Sorted, list_max-IsMax, list_insert_ordered-Sorted}
use project.Links.Reverse.{list_reverse-reverse}

-- the list at 100 with the elements 20 and 30
abbrev two_elements : Heap
two_elements = record {
  prev = λ a. if a == 20 then 100 else if a == 30 then 20 else if a == 108 then 30 else 0;
  next = λ a. if a == 100 then 20 else if a == 20 then 30 else if a == 30 then 108 else 0;
}

two_elements-IsList : IsList two_elements 100 (20 ∷ 30 ∷ [])
two_elements-IsList = record {
  chain = (refl, refl, (refl, refl, (refl, refl)));
  first = refl;
  last = refl;
  once = (refl, (refl, (refl, (refl, tt))));
  exists = refl;
}

abbrev some_operations : List Operation
some_operations =
    push_front 10 ∷ pop_back ∷ push_back 40 ∷ insert 20 15 ∷ remove 10 ∷ pop_front ∷ []

performs-results_example :
    (h' : Heap) × (performs two_elements 100 some_operations
      ≡ ok (0 ∷ 30 ∷ 0 ∷ 0 ∷ 15 ∷ 15 ∷ [], h'))
    × IsList h' 100 (20 ∷ 40 ∷ [])
unfolding results all_permitted
performs-results_example =
    performs-results some_operations two_elements 100 (20 ∷ 30 ∷ []) two_elements-IsList refl

list_init_run : (h' : Heap) × (list_init two_elements 500 ≡ ok h') × IsList h' 500 []
list_init_run = list_init-IsList two_elements 500 (λ e. ground (arith, e))

list_size_run : list_size 3 two_elements 100 ≡ ok 2
list_size_run = list_size-length 3 two_elements 100 (20 ∷ 30 ∷ []) two_elements-IsList (omega arith)

ltb-IsOrder : IsOrder ltb
ltb-IsOrder = record {
  irreflexive = λ a. ground arith;
  transitive = λ a b c p q. ground (arith, p, q);
}

list_max_run : (m : ℕ) × (list_max ltb 2 two_elements 100 ≡ ok m) × IsMax ltb m (20 ∷ 30 ∷ [])
list_max_run =
    list_max-IsMax ltb ltb-IsOrder 2 two_elements 100 20 (30 ∷ []) two_elements-IsList (omega arith)

list_insert_ordered-Sorted_example :
    (h' : Heap) × (list_insert_ordered ltb 3 two_elements 100 25 ≡ ok h')
    × IsList h' 100 (20 ∷ 25 ∷ 30 ∷ [])
    × Sorted ltb (20 ∷ 25 ∷ 30 ∷ [])
list_insert_ordered-Sorted_example =
    list_insert_ordered-Sorted ltb ltb-IsOrder 3 two_elements 100 25 (20 ∷ 30 ∷ [])
      two_elements-IsList refl (refl, tt) (omega arith)

list_reverse-reverse_example :
    (h' : Heap) × (list_reverse 3 two_elements 100 ≡ ok h') × IsList h' 100 (30 ∷ 20 ∷ [])
list_reverse-reverse_example =
    list_reverse-reverse 3 two_elements 100 (20 ∷ 30 ∷ []) two_elements-IsList (omega arith)
