-- ===== src/Tests/Handles.antt =====
-- A program with three handles.
use kadpeer.Prelude.{ℕ, ◌≡◌, refl, true, List, [], ◌∷◌, none, arith}
use kadpeer.Heap.{IsNew, read}
use kadpeer.HandleClass.{
  Program, Action, handle_new, handle_copy, handle_end, handle_assign, handle_clear, acts,
  all_allowed, act, allowed, construct, copy, construct_new, destroy, repoint, assign, clear, init,
  release, add_reference, remove_reference,
}
use kadpeer.HandleClass.Counted.{Keeps}
use kadpeer.HandleClass.History.{acts-Keeps, no_handles-IsCounted}
use kadpeer.Heap.{load, write}
use kadpeer.Tests.Lists.{alloc, read-above}

abbrev no_handles : Program
no_handles = record { objects = []; pointee = λ i. none }

-- Two objects; the third handle shares the first object, which ends with the last of its handles.
abbrev program : List Action
program =
    handle_new 0
    ∷ handle_new 1
    ∷ handle_copy 2 0
    ∷ handle_assign 0 1
    ∷ handle_clear 2
    ∷ handle_end 1
    ∷ []

alloc-IsNew : IsNew {N = ℕ} alloc
alloc-IsNew = record {
  ne_null = λ h. omega arith;
  unused = λ h. read-above h (alloc h) (omega arith);
}

program-allowed : all_allowed alloc 3 program no_handles ≡ true
unfolding all_allowed acts act allowed construct copy construct_new destroy repoint assign clear
    init release add_reference remove_reference load write read
program-allowed = refl

acts-Keeps_example : Keeps 3 (acts alloc program no_handles)
acts-Keeps_example =
    acts-Keeps 3 program no_handles (omega arith) alloc-IsNew (no_handles-IsCounted 3)
      program-allowed
