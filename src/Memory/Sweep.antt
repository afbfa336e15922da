-- ===== src/Memory/Sweep.antt =====
-- GC_heap::collect_garbage as a whole.
use cpplox.Memory.Collect.{
  IsFresh, IsFresh-unmark, IsFresh-reached, DistinctAddresses, DistinctAddresses-unmark,
  DistinctAddresses-reached, value_at-reached, value_at-unreached, value_at-unmark, flag-unmark,
  unmarked-le,
}
use cpplox.Memory.Marking.{In, is_marked, value_at, mark_all-Marks}
use cpplox.Memory.Reach.{Reach, root, via, Inv, trace_loop-Inv}
use cpplox.Memory.{
  ControlBlock, GcHeap, mark_all, reached, unreached, unmark, release, collect_garbage,
}
use cpplox.Prelude.{
  ℕ, ◌+◌, ◌-◌, ◌≤◌, true, false, Option, none, some, List, [], ◌∷◌, ◌≡◌, ◌≢◌, ◌↔◌, ◌∙◌, inl, inr,
  refl, length, arith, Bool-cases, ap, sym, subst, size_sub_le,
}
use cpplox.Result.{ok}

module _ {V : Type 0} (size_of : V → ℕ) where
  abbrev pub total : List (ControlBlock V) → ℕ
  total [] = 0
  total (b ∷ bs) = size_of b.value + total bs

  total-unmark : (bs : List (ControlBlock V)) → total (unmark bs) ≡ total bs
  unfolding unmark
  total-unmark [] = refl
  total-unmark (b ∷ bs) = omega (arith, total-unmark bs)

  total-partition :
      (bs : List (ControlBlock V)) → total (reached bs) + total (unreached bs) ≡ total bs
  unfolding reached unreached
  total-partition [] = refl
  total-partition (b ∷ bs) = ground (arith, total-partition bs)

  release-total :
      (bs : List (ControlBlock V)) (n : ℕ) → total bs ≤ n → release size_of bs n ≡ n - total bs
  unfolding release
  release-total [] n h = omega arith
  release-total (b ∷ bs) n h =
      let step = size_sub_le n (size_of b.value) (omega arith) in
      rw step (release-total bs (n - size_of b.value) (omega arith) ∙ omega arith)

  -- The heap between collections.
  pub record IsIdle (h : GcHeap V) : Type 0 where
    pub clean : (x : ℕ) → is_marked h x ≡ false
    pub no_grays : h.gray_worklist ≡ []
    pub distinct : DistinctAddresses h.all_ptrs
    pub accounted : h.n_allocated_bytes ≡ total h.all_ptrs

module _ {V : Type 0} (trace_refs : V → List (Option ℕ)) (size_of : V → ℕ) where
  module _ (roots : List (Option ℕ)) (h : GcHeap V) where
    abbrev Reached : ℕ → Type 0
    Reached = Reach trace_refs roots h.all_ptrs

    pub Inv-rooted : IsIdle size_of h → Inv trace_refs size_of roots h (mark_all roots h)
    Inv-rooted idle =
        let m = mark_all-Marks roots h in
        let new : (x : ℕ)
            → is_marked (mark_all roots h) x ≡ true
            → In (some x) roots × (value_at h.all_ptrs x ≢ none) =
          λ x mx. ground (arith, m.flags x, idle.clean x) in
        record {
          values = m.values;
          sound = λ x mx. root (new x mx).0 (new x mx).1;
          queued = λ x q. ground (arith, m.grays x, idle.no_grays);
          rooted = λ x r live. (m.flags x).1 (inr (r, live));
          closed = λ x y v mx at_x refers live. inl ((m.grays x).1 (inr (mx, idle.clean x)));
          shape = m.shape;
          bytes = m.bytes;
          next = m.next;
        }

    -- When the worklist is empty, the marked addresses are the reached ones.
    pub marked_of_Reached :
        (h' : GcHeap V)
        → Inv trace_refs size_of roots h h'
        → h'.gray_worklist ≡ []
        → {x : ℕ} → Reached x
        → is_marked h' x ≡ true
    marked_of_Reached h' i e (root r live) = i.rooted _ r live
    marked_of_Reached h' i e (via {a} {b} v r at_a refers live) =
        elim (i.closed a b v (marked_of_Reached h' i e r) at_a refers live) [
          | inl q ↦ absurd (subst (In a) e q)
          | inr m ↦ m
        ]

    -- What a collection does.
    pub record Collected (h' : GcHeap V) (destroyed : List (ControlBlock V)) : Type 0 where
      pub kept :
          (x : ℕ) (v : V)
          → (value_at h'.all_ptrs x ≡ some v) ↔ ((value_at h.all_ptrs x ≡ some v) × Reached x)
      pub freed :
          (x : ℕ) (v : V)
          → (value_at destroyed x ≡ some v) ↔ ((value_at h.all_ptrs x ≡ some v) × (¬ Reached x))
      pub idle : IsIdle size_of h'
      pub fresh : IsFresh h.next_address h.all_ptrs → IsFresh h'.next_address h'.all_ptrs
      pub bytes : h'.n_allocated_bytes + total size_of destroyed ≡ h.n_allocated_bytes

    -- The heap behind the worklist loop, with the unmarked blocks destroyed.
    abbrev swept : GcHeap V → GcHeap V
    swept h₁ = record h₁ {
      all_ptrs = unmark (reached h₁.all_ptrs);
      n_allocated_bytes = release size_of (unreached h₁.all_ptrs) h₁.n_allocated_bytes;
    }

    module _ (h₁ : GcHeap V) (i : Inv trace_refs size_of roots h h₁) (e : h₁.gray_worklist ≡ [])
        (idle : IsIdle size_of h) where
      distinct_marked : DistinctAddresses h₁.all_ptrs
      distinct_marked = (DistinctAddresses-unmark h₁.all_ptrs).0 (
          subst DistinctAddresses (sym i.shape)
            ((DistinctAddresses-unmark h.all_ptrs).1 idle.distinct))

      total_marked : total size_of h₁.all_ptrs ≡ total size_of h.all_ptrs
      total_marked =
          sym (total-unmark size_of h₁.all_ptrs)
          ∙ ap (total size_of) i.shape
          ∙ total-unmark size_of h.all_ptrs

      swept-IsFresh :
          IsFresh h.next_address h.all_ptrs → IsFresh (swept h₁).next_address (swept h₁).all_ptrs
      swept-IsFresh fresh = rw i.next (
          (IsFresh-unmark h.next_address (reached h₁.all_ptrs)).1 (
            IsFresh-reached h.next_address h₁.all_ptrs (
              (IsFresh-unmark h.next_address h₁.all_ptrs).0 (
                subst (IsFresh h.next_address) (sym i.shape)
                  ((IsFresh-unmark h.next_address h.all_ptrs).1 fresh)))))

      swept_bytes : (swept h₁).n_allocated_bytes ≡ total size_of (reached h₁.all_ptrs)
      swept_bytes =
          release-total size_of (unreached h₁.all_ptrs) h₁.n_allocated_bytes (
            omega
              (arith, total-partition size_of h₁.all_ptrs, i.bytes, idle.accounted, total_marked))
          ∙ omega
              (arith, total-partition size_of h₁.all_ptrs, i.bytes, idle.accounted, total_marked)

      swept_kept :
          (x : ℕ) (v : V)
          → (value_at (swept h₁).all_ptrs x ≡ some v)
            ↔ ((value_at h.all_ptrs x ≡ some v) × Reached x)
      unfolding is_marked
      swept_kept x v = elim (Bool-cases (is_marked h₁ x)) [
        | inl m ↦ (
          λ at. (
            ground (
              arith,
              value_at-unmark x (reached h₁.all_ptrs),
              value_at-reached x h₁.all_ptrs distinct_marked,
              i.values x,
            ),
            i.sound x m,
          ),
          λ (at, r). ground (
            arith,
            value_at-unmark x (reached h₁.all_ptrs),
            value_at-reached x h₁.all_ptrs distinct_marked,
            i.values x,
          ),
        )
        | inr m ↦ (
          λ at. absurd (
              ground (
                arith,
                value_at-unmark x (reached h₁.all_ptrs),
                value_at-reached x h₁.all_ptrs distinct_marked,
              )),
          λ (at, r). absurd (ground (arith, marked_of_Reached h₁ i e r)),
        )
      ]

      swept_freed :
          (x : ℕ) (v : V)
          → (value_at (unreached h₁.all_ptrs) x ≡ some v)
            ↔ ((value_at h.all_ptrs x ≡ some v) × (¬ Reached x))
      unfolding is_marked
      swept_freed x v = elim (Bool-cases (is_marked h₁ x)) [
        | inl m ↦ (
          λ at. absurd (ground (arith, value_at-unreached x h₁.all_ptrs distinct_marked)),
          λ (at, n). absurd (n (i.sound x m)),
        )
        | inr m ↦ (
          λ at. (
            ground (arith, value_at-unreached x h₁.all_ptrs distinct_marked, i.values x),
            λ r. ground (arith, marked_of_Reached h₁ i e r),
          ),
          λ (at, n). ground (arith, value_at-unreached x h₁.all_ptrs distinct_marked, i.values x),
        )
      ]

      swept-Collected : Collected (swept h₁) (unreached h₁.all_ptrs)
      unfolding is_marked
      swept-Collected = record {
        kept = swept_kept;
        freed = swept_freed;
        idle = record {
          clean = λ x. flag-unmark x (reached h₁.all_ptrs);
          no_grays = e;
          distinct =
              (DistinctAddresses-unmark (reached h₁.all_ptrs)).1
                (DistinctAddresses-reached h₁.all_ptrs distinct_marked);
          accounted = swept_bytes ∙ sym (total-unmark size_of (reached h₁.all_ptrs));
        };
        fresh = swept-IsFresh;
        bytes =
            omega (
              arith,
              swept_bytes,
              total-partition size_of h₁.all_ptrs,
              total_marked,
              idle.accounted,
            );
      }

    -- Between collections, `collect_garbage` ends; the blocks left are exactly those that the
    -- roots reach, with their values; the blocks whose destruction is announced are exactly the
    -- others; all flags and the worklist are reset for the next collection; if no address from the
    -- next one on was handed out, none is; and the byte count is the sum of the sizes of the blocks
    -- left.
    pub collect_garbage-Collected :
        IsIdle size_of h
        → (h' : GcHeap V) × (destroyed : List (ControlBlock V)) × (collect_garbage trace_refs
              size_of roots h
            ≡ ok (h', destroyed))
          × Collected h' destroyed
    unfolding collect_garbage
    collect_garbage-Collected idle =
        let rooted = mark_all roots h in
        let (h₁, ends, i, e) =
          trace_loop-Inv trace_refs size_of roots h
            (length rooted.all_ptrs + length rooted.gray_worklist) rooted (Inv-rooted idle)
            (omega (arith, unmarked-le rooted.all_ptrs)) in
        (swept h₁, unreached h₁.all_ptrs, rw (ends, collect_garbage), swept-Collected h₁ i e idle)
