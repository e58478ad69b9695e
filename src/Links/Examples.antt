-- ===== src/Links/Examples.antt =====
-- Tests and instances: two lists in one memory, the guards of one at 100 and 108, of the other at
-- 500 and 508.
use geniux.Base.{◌≡◌, refl, [], ◌∷◌, panic}
use geniux.Interrupt.{intr_on, intr_disable, intr_set_status, intr_enable}
use geniux.Links.{Links, list_init, insert, push, append, remove, pop}
use geniux.Links.Refine.{
  IsList, list_init-IsList, push-IsList, append-IsList, remove-IsList, pop-nil,
}

abbrev blank : Links
blank = record { prev = λ _. 0; next = λ _. 0; intr = intr_on }

abbrev none_in : Links
none_in = list_init (list_init blank 500) 100

abbrev two : Links
two = append (append none_in 100 200) 100 300

none_in-IsList : IsList none_in 100 []
none_in-IsList = list_init-IsList (list_init blank 500) 100

one-IsList : IsList (append none_in 100 200) 100 (200 ∷ [])
one-IsList = (append-IsList none_in 100 200 [] none_in-IsList refl).0

two-IsList : IsList two 100 (200 ∷ 300 ∷ [])
two-IsList = (append-IsList (append none_in 100 200) 100 300 (200 ∷ []) one-IsList refl).0

-- The fields after the calls.
two_fields : (two.next 100 ≡ 200) × (two.next 200 ≡ 300) × (two.prev 108 ≡ 300)
unfolding append insert list_init intr_disable intr_set_status intr_enable
two_fields = (refl, refl, refl)

push-IsList_example :
    IsList (push two 100 400) 100 (400 ∷ 200 ∷ 300 ∷ []) × ((push two 100 400).intr ≡ two.intr)
push-IsList_example = push-IsList two 100 400 (200 ∷ 300 ∷ []) two-IsList refl

remove-IsList_example : IsList (remove two 300) 100 (200 ∷ []) × ((remove two 300).intr ≡ two.intr)
remove-IsList_example = remove-IsList two 100 300 (200 ∷ []) [] two-IsList

pop-nil_test : pop none_in 100 ≡ panic
pop-nil_test = pop-nil none_in 100 none_in-IsList
