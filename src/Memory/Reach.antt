-- ===== src/Memory/Reach.antt =====
-- The trace loop marks what the roots reach, and ends.
use cpplox.Memory.Marking.{
  In, is_marked, value_at, unmarked, Marks, mark_all-Marks, value_of_is_marked, value_of,
}
use cpplox.Memory.{ControlBlock, GcHeap, find_block, unmark, trace_block, trace_loop}
use cpplox.Prelude.{
  ℕ, zero, suc, ◌+◌, ◌≤◌, true, Option, none, some, List, [], ◌∷◌, ◌≡◌, ◌≢◌, ◌⊎◌, ◌∙◌, inl, inr,
  refl, length, arith, Bool-cases, Option-cases, List-cases, ap, sym, subst,
}
use cpplox.Result.{ok}

module _ {V : Type 0} (trace_refs : V → List (Option ℕ)) where
  -- The addresses that have a block and to which a chain of pointers leads from a root.
  pub data Reach (roots : List (Option ℕ)) (bs : List (ControlBlock V)) : ℕ → Type 0 where
    root : {a : ℕ} → In (some a) roots → value_at bs a ≢ none → Reach roots bs a
    via :
        {a b : ℕ} (v : V)
        → Reach roots bs a
        → value_at bs a ≡ some v
        → In (some b) (trace_refs v)
        → value_at bs b ≢ none
        → Reach roots bs b

module _ {V : Type 0} (trace_refs : V → List (Option ℕ)) (size_of : V → ℕ) where
  pub trace_block-Marks :
      (a : ℕ) (v : V) (h : GcHeap V)
      → value_at h.all_ptrs a ≡ some v
      → Marks (trace_refs v) h (trace_block trace_refs size_of a h)
  unfolding trace_block value_at value_of
  trace_block-Marks a v h e = elim (Option-cases (find_block a h.all_ptrs)) [
    | inl no_block ↦ absurd (ground arith)
    | inr (b, found) ↦
        let same : b.value ≡ v = ground arith in
        rw (found, trace_block) (rw (← same) (mark_all-Marks (trace_refs b.value) h))
  ]

  module _ (roots : List (Option ℕ)) (h₀ : GcHeap V) where
    -- In the midst of tracing: marked blocks are reached, and what a marked block that is off the
    -- worklist refers to is marked.
    pub record Inv (h : GcHeap V) : Type 0 where
      pub values : (x : ℕ) → value_at h.all_ptrs x ≡ value_at h₀.all_ptrs x
      pub sound : (x : ℕ) → is_marked h x ≡ true → Reach trace_refs roots h₀.all_ptrs x
      pub queued : (x : ℕ) → In x h.gray_worklist → is_marked h x ≡ true
      pub rooted :
          (x : ℕ) → In (some x) roots → value_at h₀.all_ptrs x ≢ none → is_marked h x ≡ true
      pub closed :
          (x y : ℕ) (v : V)
          → is_marked h x ≡ true
          → value_at h₀.all_ptrs x ≡ some v
          → In (some y) (trace_refs v)
          → value_at h₀.all_ptrs y ≢ none
          → In x h.gray_worklist ⊎ (is_marked h y ≡ true)
      pub shape : unmark h.all_ptrs ≡ unmark h₀.all_ptrs
      pub bytes : h.n_allocated_bytes ≡ h₀.n_allocated_bytes
      pub next : h.next_address ≡ h₀.next_address

    -- Popping `a` and tracing it.
    pub Inv-trace_block :
        (h : GcHeap V) (a : ℕ) (grays : List ℕ)
        → h.gray_worklist ≡ a ∷ grays
        → Inv h
        → Inv (trace_block trace_refs size_of a (record h { gray_worklist = grays }))
          × (suc (
                unmarked
                  (trace_block trace_refs size_of a (record h { gray_worklist = grays })).all_ptrs
                + length
                    (trace_block trace_refs size_of a
                      (record h { gray_worklist = grays })).gray_worklist)
              ≡ unmarked h.all_ptrs + length h.gray_worklist)
    unfolding is_marked
    Inv-trace_block h a grays e i =
        let a_marked = i.queued a (subst (In a) (sym e) (inl refl)) in
        let (v, at_a) = value_of_is_marked h a a_marked in
        let popped = record h { gray_worklist = grays } in
        let at_a₀ = sym (i.values a) ∙ at_a in
        let m = trace_block-Marks a v popped at_a in
        (
          record {
            values = λ x. m.values x ∙ i.values x;
            sound = λ x mx. elim ((m.flags x).0 mx) [
              | inl before ↦ i.sound x before
              | inr (traced, live) ↦
                  via v (i.sound a a_marked) at_a₀ traced (λ z. live (i.values x ∙ z))
            ];
            queued = λ x q. elim ((m.grays x).0 q) [
              | inl before ↦ (m.flags x).1 (inl (i.queued x (subst (In x) (sym e) (inr before))))
              | inr new ↦ new.0
            ];
            rooted = λ x r live. (m.flags x).1 (inl (i.rooted x r live));
            closed = λ x y w mx at_x refers live. elim (Bool-cases (is_marked popped x)) [
              | inr unmarked_before ↦ inl ((m.grays x).1 (inr (mx, unmarked_before)))
              | inl before ↦ elim (i.closed x y w before at_x refers live) [
                | inr my ↦ inr ((m.flags y).1 (inl my))
                | inl q ↦ elim (subst (In x) e q) [
                  | inr waiting ↦ inl ((m.grays x).1 (inl waiting))
                  | inl is_a ↦
                      let same : w ≡ v = cc in
                      inr (
                        (m.flags y).1 (
                          inr (
                            subst (λ u. In (some y) (trace_refs u)) same refers,
                            λ z. live (sym (i.values y) ∙ z),
                          )))
                ]
              ]
            ];
            shape = m.shape ∙ i.shape;
            bytes = m.bytes ∙ i.bytes;
            next = m.next ∙ i.next;
          },
          omega (arith, m.work, ap length e),
        )

    pub trace_loop-Inv :
        (fuel : ℕ) (h : GcHeap V)
        → Inv h
        → unmarked h.all_ptrs + length h.gray_worklist ≤ fuel
        → (h' : GcHeap V) × (trace_loop trace_refs size_of fuel h ≡ ok h')
          × Inv h'
          × (h'.gray_worklist ≡ [])
    unfolding trace_loop
    trace_loop-Inv zero h i le = (h, ground arith, i, ground arith)
    trace_loop-Inv (suc fuel) h i le = elim (List-cases h.gray_worklist) [
      | inl e ↦ (h, ground arith, i, e)
      | inr (a, grays, e) ↦
          let (i', falls) = Inv-trace_block h a grays e i in
          let (h', ends, j, empty) = trace_loop-Inv fuel _ i' (omega arith) in
          (h', rw (e, trace_loop) ends, j, empty)
    ]
