-- ===== src/Vm/Halts.antt =====
-- The trace loop of GC_heap::collect_garbage on the objects of the virtual machine, where the
-- `trace_refs` of an upvalue may throw: collections in src/vm.cpp.
use cpplox.Memory.Collect.{unmarked-le}
use cpplox.Memory.Sweep.{IsIdle, Inv-rooted, marked_of_Reached}
use cpplox.Memory.Marking.{
  mark_all-Marks, In, is_marked, unmarked, value_at, value_of, value_of_is_marked,
}
use cpplox.Memory.Reach.{Reach, Inv, Inv-trace_block, trace_block-Marks}
use cpplox.Memory.{GcHeap, mark_all, find_block, trace_block, trace_loop}
use cpplox.Objects.{Object, an_upvalue, open_at, closed, stack_at, trace_refs, upvalue_value}
use cpplox.Prelude.{
  ℕ, zero, suc, ◌+◌, ◌≤◌, ◌≡◌, ◌⊎◌, ◌∙◌, refl, sym, ap, subst, inl, inr, true, false, Bool-cases,
  Option, none, some, Option-cases, List, [], ◌∷◌, List-cases, length, arith,
}
use cpplox.Result.{ok}
use cpplox.Vm.Run.{rounds, halted, is_readable, is_readable_at, roots}
use cpplox.Vm.State.{Vm, address_of}

-- An object that `trace_refs` throws out_of_range of: an open upvalue whose index the stack has not.
abbrev pub IsDangling : {D : Type 0} → Vm D → Object D → Type 0
IsDangling s o = (i : ℕ) × (o ≡ an_upvalue (open_at i)) × (stack_at i s.stack ≡ none)

module _ {D : Type 0} where
  IsDangling-of_unreadable :
      (s : Vm D) (o : Object D) → is_readable s.stack o ≡ false → IsDangling s o
  unfolding is_readable upvalue_value
  IsDangling-of_unreadable s (an_upvalue (open_at i)) e = elim (Option-cases (stack_at i s.stack)) [
    | inl missing ↦ (i, refl, missing)
    | inr (v, found) ↦ absurd (ground arith)
  ]
  IsDangling-of_unreadable s (an_upvalue (closed v)) e = absurd (ground arith)
  IsDangling-of_unreadable s _ e = absurd (ground arith)

  readable_not-IsDangling :
      (s : Vm D) (o : Object D) → is_readable s.stack o ≡ true → ¬ IsDangling s o
  unfolding is_readable upvalue_value
  readable_not-IsDangling s o e (i, is, missing) =
      let open_readable : is_readable s.stack (an_upvalue (open_at i)) ≡ true =
        subst (λ x. is_readable s.stack x ≡ true) is e in
      ground arith

module _ {D : Type 0} (size_of : Object D → ℕ) (s : Vm D) where
  abbrev refs : Object D → List (Option ℕ)
  refs = trace_refs (address_of s) s.stack

  abbrev Traced : GcHeap (Object D) → Type 0
  Traced = Inv refs size_of (roots s) s.gc_heap

  -- Every marked block that is off the worklist was traced without an exception.
  abbrev Settled : GcHeap (Object D) → Type 0
  Settled h =
      (x : ℕ) (o : Object D)
      → is_marked h x ≡ true
      → value_at s.gc_heap.all_ptrs x ≡ some o
      → In x h.gray_worklist ⊎ (is_readable s.stack o ≡ true)

  is_readable_at-eq :
      (h : GcHeap (Object D)) (a : ℕ) (o : Object D)
      → value_at h.all_ptrs a ≡ some o
      → is_readable_at s.stack a h ≡ is_readable s.stack o
  unfolding is_readable_at value_at value_of
  is_readable_at-eq h a o e = elim (Option-cases (find_block a h.all_ptrs)) [
    | inl no_block ↦ absurd (ground arith)
    | inr (b, found) ↦
        let same : b.value ≡ o = ground arith in
        rw (found, is_readable_at) (ap (is_readable s.stack) same)
  ]

  Settled-trace_block :
      (h : GcHeap (Object D)) (a : ℕ) (grays : List ℕ) (o : Object D)
      → h.gray_worklist ≡ a ∷ grays
      → Traced h
      → value_at h.all_ptrs a ≡ some o
      → is_readable s.stack o ≡ true
      → Settled h
      → Settled (trace_block refs size_of a (record h { gray_worklist = grays }))
  unfolding is_marked
  Settled-trace_block h a grays o e i at_a readable settled =
      let popped = record h { gray_worklist = grays } in
      let m = trace_block-Marks refs size_of a o popped at_a in
      λ x w mx at_x. elim (Bool-cases (is_marked popped x)) [
        | inr unmarked_before ↦ inl ((m.grays x).1 (inr (mx, unmarked_before)))
        | inl before ↦ elim (settled x w before at_x) [
          | inr r ↦ inr r
          | inl q ↦ elim (subst (In x) e q) [
            | inr waiting ↦ inl ((m.grays x).1 (inl waiting))
            | inl is_a ↦
                let v = i.values a in
                let same : w ≡ o = cc in
                inr (subst (λ u. is_readable s.stack u ≡ true) (sym same) readable)
          ]
        ]
      ]

  -- The loop halts at a reached object whose `trace_refs` throws.
  abbrev pub Halts : Type 0
  Halts =
      (a : ℕ) × (o : Object D) × Reach refs (roots s) s.gc_heap.all_ptrs a
      × (value_at s.gc_heap.all_ptrs a ≡ some o)
      × IsDangling s o

  pub halted-Halts :
      (fuel : ℕ) (h : GcHeap (Object D))
      → Traced h
      → Settled h
      → unmarked h.all_ptrs + length h.gray_worklist ≤ fuel
      → ((h' : GcHeap (Object D)) × (halted size_of fuel s h ≡ some h')
          × ((x : ℕ) → value_at h'.all_ptrs x ≡ value_at s.gc_heap.all_ptrs x)
          × Halts)
        ⊎ ((h' : GcHeap (Object D)) × (halted size_of fuel s h ≡ none)
            × (trace_loop refs size_of fuel h ≡ ok h')
            × Traced h'
            × (h'.gray_worklist ≡ [])
            × Settled h')
  unfolding halted trace_loop
  halted-Halts zero h i settled le = inr (h, refl, ground arith, i, ground arith, settled)
  halted-Halts (suc fuel) h i settled le = elim (List-cases h.gray_worklist) [
    | inl e ↦ inr (h, rw (e, halted) refl, ground arith, i, e, settled)
    | inr (a, grays, e) ↦
        let a_marked = i.queued a (subst (In a) (sym e) (inl refl)) in
        let (o, at_a) = value_of_is_marked h a a_marked in
        let reads = is_readable_at-eq h a o at_a in
        let (i', falls) = Inv-trace_block refs size_of (roots s) s.gc_heap h a grays e i in
        elim (Bool-cases (is_readable s.stack o)) [
          | inr dangles ↦ inl (
            record h { gray_worklist = grays },
            rw (e, halted, reads, dangles) refl,
            i.values,
            (
              a,
              o,
              i.sound a a_marked,
              sym (i.values a) ∙ at_a,
              IsDangling-of_unreadable s o dangles,
            ),
          )
          | inl readable ↦
              elim (halted-Halts fuel _ i'
                (Settled-trace_block h a grays o e i at_a readable settled) (omega arith)) [
                  | inl (h', halts, values, why) ↦
                      inl (h', rw (e, halted, reads, readable) halts, values, why)
                  | inr (h', goes, ends, j, empty, settled') ↦ inr (
                    h',
                    rw (e, halted, reads, readable) goes,
                    rw (e, trace_loop) ends,
                    j,
                    empty,
                    settled',
                  )
                ]
        ]
  ]

  -- Between collections: the loop halts, or it ends with every reached object traced.
  pub traced-Halts :
      IsIdle size_of s.gc_heap
      → ((h' : GcHeap (Object D)) × (halted size_of
              (rounds (mark_all (roots s) s.gc_heap))
              s
              (mark_all (roots s) s.gc_heap)
            ≡ some h')
          × ((x : ℕ) → value_at h'.all_ptrs x ≡ value_at s.gc_heap.all_ptrs x)
          × Halts)
        ⊎ ((halted size_of (rounds (mark_all (roots s) s.gc_heap)) s (mark_all (roots s) s.gc_heap)
              ≡ none)
            × ((x : ℕ) (o : Object D)
                → Reach refs (roots s) s.gc_heap.all_ptrs x
                → value_at s.gc_heap.all_ptrs x ≡ some o
                → ¬ IsDangling s o))
  traced-Halts idle =
      let rooted = mark_all (roots s) s.gc_heap in
      let i = Inv-rooted refs size_of (roots s) s.gc_heap idle in
      let m = mark_all-Marks (roots s) s.gc_heap in
      elim (halted-Halts (rounds rooted) rooted i
        (λ x o mx at_x. inl ((m.grays x).1 (inr (mx, idle.clean x))))
        (omega (arith, unmarked-le rooted.all_ptrs))) [
          | inl halts ↦ inl halts
          | inr (h', goes, ends, j, empty, settled) ↦ inr (
            goes,
            λ x o r at_x.
                elim (settled x o (marked_of_Reached refs size_of (roots s) s.gc_heap h' j empty r)
                  at_x) [
                    | inl q ↦ absurd (subst (In x) empty q)
                    | inr readable ↦ readable_not-IsDangling s o readable
                  ],
          )
        ]
