-- ===== src/Memory/Allocate.antt =====
-- GC_heap::make of src/memory.hpp, between collections.
use cpplox.Memory.Collect.{DistinctAddresses, IsFresh}
use cpplox.Memory.Marking.{is_marked, value_at, flag_of, value_of}
use cpplox.Memory.Sweep.{total, IsIdle}
use cpplox.Memory.{ControlBlock, GcHeap, find_block, make}
use cpplox.Prelude.{
  ℕ, ◌+◌, ◌<◌, ◌==◌, false, none, some, List, [], ◌∷◌, ◌++◌, ◌≡◌, ◌≢◌, ◌∙◌, refl, ap, arith,
  Bool-cases, eq_of_test, inl, inr, All-append,
}

module _ {V : Type 0} where
  IsFresh-suc : (next : ℕ) (bs : List (ControlBlock V)) → IsFresh next bs → IsFresh (next + 1) bs
  IsFresh-suc next [] h = tt
  IsFresh-suc next (b ∷ bs) h = (omega arith, IsFresh-suc next bs h.1)

  find_block-fresh :
      (next : ℕ) (bs : List (ControlBlock V)) → IsFresh next bs → find_block next bs ≡ none
  unfolding find_block
  find_block-fresh next [] h = refl
  find_block-fresh next (b ∷ bs) h = ground (arith, find_block-fresh next bs h.1)

  find_block-concat_new :
      (bs : List (ControlBlock V)) (b : ControlBlock V)
      → IsFresh b.address bs
      → find_block b.address (bs ++ b ∷ []) ≡ some b
  unfolding find_block
  find_block-concat_new [] b h = ground arith
  find_block-concat_new (c ∷ bs) b h = ground (arith, find_block-concat_new bs b h.1)

  find_block-concat_old :
      (a : ℕ) (bs : List (ControlBlock V)) (b : ControlBlock V)
      → a ≢ b.address
      → find_block a (bs ++ b ∷ []) ≡ find_block a bs
  unfolding find_block
  find_block-concat_old a [] b h = ground arith
  find_block-concat_old a (c ∷ bs) b h = ground (arith, find_block-concat_old a bs b h)

  DistinctAddresses-concat :
      (bs : List (ControlBlock V)) (b : ControlBlock V)
      → IsFresh b.address bs
      → DistinctAddresses bs
      → DistinctAddresses (bs ++ b ∷ [])
  unfolding find_block
  DistinctAddresses-concat [] b h d = (refl, tt)
  DistinctAddresses-concat (c ∷ bs) b h d = (
    find_block-concat_old c.address bs b (λ e. omega (arith, e, h.0)) ∙ d.0,
    DistinctAddresses-concat bs b h.1 d.1,
  )

module _ {V : Type 0} (size_of : V → ℕ) where
  total-concat :
      (bs : List (ControlBlock V)) (b : ControlBlock V)
      → total size_of (bs ++ b ∷ []) ≡ total size_of bs + size_of b.value
  total-concat [] b = omega arith
  total-concat (c ∷ bs) b = omega (arith, total-concat bs b)

  -- What `make` does: the address returned, and the heap behind it.
  pub record Allocated (v : V) (h : GcHeap V) (a : ℕ) (h' : GcHeap V) : Type 0 where
    pub unused : value_at h.all_ptrs a ≡ none
    pub holds : value_at h'.all_ptrs a ≡ some v
    pub kept : (x : ℕ) → x ≢ a → value_at h'.all_ptrs x ≡ value_at h.all_ptrs x
    pub idle : IsIdle size_of h'
    pub fresh : IsFresh h'.next_address h'.all_ptrs

  -- Between collections, where no address from the next one on has been handed out, `make` gives an
  -- address that had no block and has one with the value now; every other address leads where it
  -- did; and both conditions hold again, with no block marked and the byte count the sum of the
  -- sizes of the blocks.
  pub make-Allocated :
      (v : V) (h : GcHeap V)
      → IsIdle size_of h
      → IsFresh h.next_address h.all_ptrs
      → Allocated v h (make size_of v h).0 (make size_of v h).1
  unfolding make value_at value_of is_marked flag_of
  make-Allocated v h idle fresh =
      let b : ControlBlock V = record { address = h.next_address; marked = false; value = v } in
      record {
        unused = ap value_of (find_block-fresh h.next_address h.all_ptrs fresh);
        holds = ap value_of (find_block-concat_new h.all_ptrs b fresh);
        kept = λ x other. ap value_of (find_block-concat_old x h.all_ptrs b other);
        idle = record {
          clean = λ x. elim (Bool-cases (x == h.next_address)) [
            | inl same ↦
                rw (eq_of_test x h.next_address same)
                  (ap flag_of (find_block-concat_new h.all_ptrs b fresh))
            | inr other ↦
                ap flag_of (find_block-concat_old x h.all_ptrs b (λ e. ground arith)) ∙ idle.clean x
          ];
          no_grays = idle.no_grays;
          distinct = DistinctAddresses-concat h.all_ptrs b fresh idle.distinct;
          accounted = omega (arith, idle.accounted, total-concat h.all_ptrs b);
        };
        fresh =
            All-append (λ c. c.address < h.next_address + 1) h.all_ptrs (b ∷ [])
              (IsFresh-suc h.next_address h.all_ptrs fresh) (omega arith, tt);
      }
