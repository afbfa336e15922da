-- ===== src/Interned/Identity.antt =====
-- The tables of Interned_strings name the string objects of the heap: each text at most one object,
-- which has that text.
use cpplox.Interned.{InternedStrings, get, on_destroy_all}
use cpplox.Memory.Allocate.{Allocated, make-Allocated}
use cpplox.Memory.Collect.{IsFresh}
use cpplox.Memory.Marking.{value_at, value_of}
use cpplox.Memory.Reach.{Reach}
use cpplox.Memory.Sweep.{IsIdle, Collected}
use cpplox.Memory.{ControlBlock, GcHeap, find_block, make}
use cpplox.Prelude.{
  ◌⊎◌, ℕ, ◌≡◌, ◌↔◌, ◌∙◌, refl, sym, Option-cases, inl, inr, Option, none, some, List, ◌==◌, Bytes,
  bytes_eq, bytes_eq_iff, arith,
}
use cpplox.Table.Laws.{lookup-assign_new}
use cpplox.Table.{assign}
use cpplox.Interned.Destroy.{
  ==_iff, pointer_of, known, absent_iff, IsInterned, on_destroy_all-Forgets,
}

module _ {V : Type 0} (of_text : Bytes → V) (text_of : V → Option Bytes)
    (reads : (s : Bytes) → text_of (of_text s) ≡ some s) where
  -- What `get` gives for a text: the pointer, the tables and the heap.
  pub record Got (size_of : V → ℕ) (text : Bytes) (st : InternedStrings) (h : GcHeap V) (a : ℕ)
      (st' : InternedStrings) (h' : GcHeap V) : Type 0 where
    pub found : pointer_of text st' ≡ some a
    pub kept : (t : Bytes) (p : ℕ) → pointer_of t st ≡ some p → pointer_of t st' ≡ some p
    pub only :
        (t : Bytes) (p : ℕ) → pointer_of t st' ≡ some p → (t ≡ text) ⊎ (pointer_of t st ≡ some p)
    pub values : (x : ℕ) (v : V) → value_at h.all_ptrs x ≡ some v → value_at h'.all_ptrs x ≡ some v
    pub interned : IsInterned of_text text_of reads h'.all_ptrs st'
    pub idle : IsIdle size_of h'
    pub fresh : IsFresh h'.next_address h'.all_ptrs

  module _ (size_of : V → ℕ) (text : Bytes) (st : InternedStrings) (h : GcHeap V)
      (i : IsInterned of_text text_of reads h.all_ptrs st) (idle : IsIdle size_of h)
      (fresh : IsFresh h.next_address h.all_ptrs) where
    added-IsInterned :
        (a : ℕ) (h' : GcHeap V)
        → Allocated size_of (of_text text) h a h'
        → pointer_of text st ≡ none
        → Got size_of text st h a
            (record {
              strings_by_chars = assign bytes_eq text a st.strings_by_chars;
              strings_by_ptr = assign ◌==◌ a a st.strings_by_ptr;
            })
            h'
    added-IsInterned a h' new none_yet =
        let chars = λ (t : Bytes) (p : ℕ).
          lookup-assign_new bytes_eq bytes_eq_iff t text a p st.strings_by_chars none_yet in
        let unknown : known a st ≡ none = elim (Option-cases (known a st)) [
          | inl e ↦ e
          | inr (p, e) ↦
              let (_, t, has) = i.named a p e in
              let there = i.live t a has in let gone = new.unused in absurd (ground arith)
        ] in
        let ptrs = λ (x p : ℕ). lookup-assign_new ◌==◌ ==_iff x a a p st.strings_by_ptr unknown in
        let values : (x : ℕ) (v : V)
            → value_at h.all_ptrs x ≡ some v
            → value_at h'.all_ptrs x ≡ some v =
          λ x v e. new.kept x (λ q. let u = new.unused in ground arith) ∙ e in
        record {
          found = (chars text a).1 (inl (refl, refl));
          kept = λ t p e. (chars t p).1 (inr e);
          only = λ t p e. elim ((chars t p).0 e) [ inl (q, _) ↦ inl q | inr old ↦ inr old ];
          values = values;
          interned = record {
            live = λ t p e. elim ((chars t p).0 e) [
              | inl (q, q') ↦ rw (q, q') new.holds
              | inr old ↦ values p (of_text t) (i.live t p old)
            ];
            listed = λ t p e. elim ((chars t p).0 e) [
              | inl (q, q') ↦ (ptrs p p).1 (inl (q', q'))
              | inr old ↦ (ptrs p p).1 (inr (i.listed t p old))
            ];
            named = λ x p e. elim ((ptrs x p).0 e) [
              | inl (q, q') ↦ (q' ∙ sym q, text, (chars text x).1 (inl (refl, q)))
              | inr old ↦ let (q, t, has) = i.named x p old in (q, t, (chars t x).1 (inr has))
            ];
          };
          idle = new.idle;
          fresh = new.fresh;
        }

    -- On a table that leads each of its texts to the object that is the text, in a heap between
    -- collections, `get` gives a pointer that the table has for the text; each text that had a pointer
    -- has it still, and no other text but this one gets one; no value of the heap changes; and table
    -- and heap are again as they were asked to be.
    pub get-Got :
        Got size_of text st h
          (get size_of of_text text st h).0
          (get size_of of_text text st h).1
          (get size_of of_text text st h).2
    unfolding get
    get-Got = elim (Option-cases (pointer_of text st)) [
      | inr (a, e) ↦
          rw (e, get)
            (record {
              found = e;
              kept = λ t p has. has;
              only = λ t p has. inr has;
              values = λ x v has. has;
              interned = i;
              idle = idle;
              fresh = fresh;
            })
      | inl e ↦
          rw (e, get)
            (added-IsInterned (make size_of (of_text text) h).0 (make size_of (of_text text) h).1
              (make-Allocated size_of (of_text text) h idle fresh) e)
    ]

  module _ (trace_refs : V → List (Option ℕ)) (size_of : V → ℕ) (roots : List (Option ℕ))
      (h h' : GcHeap V) (destroyed : List (ControlBlock V)) (st : InternedStrings) where
    -- Behind a collection, with the callback called for each block destroyed, the table leads each of
    -- its texts to the object that is the text, if it did before, and a text has a pointer exactly if
    -- it had it before and the roots reach the object.
    pub collected-IsInterned :
        IsInterned of_text text_of reads h.all_ptrs st
        → Collected trace_refs size_of roots h h' destroyed
        → IsInterned of_text text_of reads h'.all_ptrs
            (on_destroy_all text_of h.all_ptrs destroyed st)
          × ((t : Bytes) (a : ℕ)
              → (pointer_of t (on_destroy_all text_of h.all_ptrs destroyed st) ≡ some a)
                ↔ ((pointer_of t st ≡ some a) × Reach trace_refs roots h.all_ptrs a))
    unfolding value_at value_of
    collected-IsInterned i c =
        let (j, spec) = on_destroy_all-Forgets of_text text_of reads h.all_ptrs destroyed st i in
        let survives : (t : Bytes) (a : ℕ)
            → pointer_of t st ≡ some a
            → find_block a destroyed ≡ none
            → value_at h'.all_ptrs a ≡ some (of_text t) =
          λ t a has absent. elim (Option-cases (value_at h'.all_ptrs a)) [
            | inl gone ↦
                let unreached : ¬ Reach trace_refs roots h.all_ptrs a =
                  λ r. let there = (c.kept a (of_text t)).1 (i.live t a has, r) in ground arith in
                let dead = (c.freed a (of_text t)).1 (i.live t a has, unreached) in
                let none_there = (absent_iff a destroyed).0 absent in absurd (ground arith)
            | inr (v, there) ↦
                let (was, _) = (c.kept a v).0 there in let old = i.live t a has in ground arith
          ] in
        (
          record {
            live = λ t a k. let (has, absent) = (spec t a).0 k in survives t a has absent;
            listed = j.listed;
            named = j.named;
          },
          λ t a. (
            λ k.
                let (has, absent) = (spec t a).0 k in
                (has, ((c.kept a (of_text t)).0 (survives t a has absent)).1),
            λ k.
                let there = (c.kept a (of_text t)).1 (i.live t a k.0, k.1) in
                (spec t a).1 (
                  k.0,
                  elim (Option-cases (find_block a destroyed)) [
                    | inl e ↦ e
                    | inr (b, e) ↦
                        let gone : value_at destroyed a ≡ some b.value =
                          rw (e, value_at, value_of) refl in
                        absurd (((c.freed a b.value).0 gone).1 k.1)
                  ],
                ),
          ),
        )
