-- ===== src/Memory/Marking.antt =====
-- What `mark` and `mark_all` do to the flags, the values and the worklist.
use cpplox.Memory.{ControlBlock, GcHeap, find_block, set_marked, mark, mark_all, unmark}
use cpplox.Prelude.{
  ℕ, suc, ◌+◌, Bool, true, false, Option, none, some, List, [], ◌∷◌, ◌≡◌, ◌≢◌, ◌↔◌, ◌⊎◌, ◌∙◌, inl,
  inr, refl, length, if◌then◌else◌, arith, Option-cases,
}

abbrev pub In : {A : Type 0} → A → List A → Type 0
In x [] = ⊥
In x (y ∷ ys) = (x ≡ y) ⊎ In x ys

module _ {V : Type 0} where
  unfoldable pub flag_of : Option (ControlBlock V) → Bool
  flag_of none = false
  flag_of (some b) = b.marked

  unfoldable pub value_of : Option (ControlBlock V) → Option V
  value_of none = none
  value_of (some b) = some b.value

  -- The flag of the block at an address.
  unfoldable pub is_marked : GcHeap V → ℕ → Bool
  is_marked h a = flag_of (find_block a h.all_ptrs)

  -- The value at an address; none where no block is.
  unfoldable pub value_at : List (ControlBlock V) → ℕ → Option V
  unfolding value_of find_block
  value_at bs a = value_of (find_block a bs)

  abbrev pub unmarked : List (ControlBlock V) → ℕ
  unmarked [] = 0
  unmarked (b ∷ bs) = (if b.marked then 0 else 1) + unmarked bs

  flag-set_marked :
      (a x : ℕ) (bs : List (ControlBlock V))
      → (flag_of (find_block x (set_marked a bs)) ≡ true)
        ↔ ((flag_of (find_block x bs) ≡ true) ⊎ (x ≡ a) × (find_block a bs ≢ none))
  unfolding flag_of find_block set_marked
  flag-set_marked a x [] = ground arith
  flag-set_marked a x (b ∷ bs) = ground (arith, flag-set_marked a x bs)

  value-set_marked :
      (a x : ℕ) (bs : List (ControlBlock V)) → value_at (set_marked a bs) x ≡ value_at bs x
  unfolding value_at set_marked
  value-set_marked a x [] = refl
  value-set_marked a x (b ∷ bs) = ground (arith, value-set_marked a x bs)

  unmark-set_marked : (a : ℕ) (bs : List (ControlBlock V)) → unmark (set_marked a bs) ≡ unmark bs
  unfolding set_marked unmark
  unmark-set_marked a [] = refl
  unmark-set_marked a (b ∷ bs) = ground (arith, unmark-set_marked a bs)

  unmarked-set_marked :
      (a : ℕ) (bs : List (ControlBlock V))
      → find_block a bs ≢ none
      → flag_of (find_block a bs) ≡ false
      → suc (unmarked (set_marked a bs)) ≡ unmarked bs
  unfolding find_block set_marked flag_of
  unmarked-set_marked a [] e m = absurd (e refl)
  unmarked-set_marked a (c ∷ bs) e m = ground (arith, unmarked-set_marked a bs)

  -- What is between two heaps when the pointers `ps` were marked.
  pub record Marks (ps : List (Option ℕ)) (h h' : GcHeap V) : Type 0 where
    pub flags :
        (x : ℕ)
        → (is_marked h' x ≡ true)
          ↔ ((is_marked h x ≡ true) ⊎ In (some x) ps × (value_at h.all_ptrs x ≢ none))
    pub grays :
        (x : ℕ)
        → In x h'.gray_worklist
          ↔ (In x h.gray_worklist ⊎ (is_marked h' x ≡ true) × (is_marked h x ≡ false))
    pub values : (x : ℕ) → value_at h'.all_ptrs x ≡ value_at h.all_ptrs x
    pub work :
        unmarked h'.all_ptrs + length h'.gray_worklist
        ≡ unmarked h.all_ptrs + length h.gray_worklist
    pub shape : unmark h'.all_ptrs ≡ unmark h.all_ptrs
    pub bytes : h'.n_allocated_bytes ≡ h.n_allocated_bytes
    pub next : h'.next_address ≡ h.next_address

  mark-Marks : (p : Option ℕ) (h : GcHeap V) → Marks (p ∷ []) h (mark p h)
  unfolding mark is_marked value_at flag_of value_of
  mark-Marks none h = record {
    flags = λ x. ground arith;
    grays = λ x. ground arith;
    values = λ x. refl;
    shape = refl;
    work = refl;
    bytes = refl;
    next = refl;
  }
  mark-Marks (some a) h = record {
    flags = λ x. ground (arith, flag-set_marked a x h.all_ptrs);
    grays = λ x. ground (arith, flag-set_marked a x h.all_ptrs);
    values = λ x. ground (arith, value-set_marked a x h.all_ptrs);
    shape = ground (arith, unmark-set_marked a h.all_ptrs);
    work = ground (arith, unmarked-set_marked a h.all_ptrs);
    bytes = ground arith;
    next = ground arith;
  }

  Marks-trans :
      {p : Option ℕ} {ps : List (Option ℕ)} {h h₁ h₂ : GcHeap V}
      → Marks (p ∷ []) h h₁
      → Marks ps h₁ h₂
      → Marks (p ∷ ps) h h₂
  Marks-trans m n = record {
    flags = λ x. ground (arith, m.flags x, n.flags x, m.values x);
    grays = λ x. ground (arith, m.grays x, n.grays x, m.flags x, n.flags x);
    values = λ x. n.values x ∙ m.values x;
    shape = n.shape ∙ m.shape;
    work = n.work ∙ m.work;
    bytes = n.bytes ∙ m.bytes;
    next = n.next ∙ m.next;
  }

  pub mark_all-Marks : (ps : List (Option ℕ)) (h : GcHeap V) → Marks ps h (mark_all ps h)
  unfolding mark_all
  mark_all-Marks [] h = record {
    flags = λ x. ground arith;
    grays = λ x. ground arith;
    values = λ x. refl;
    shape = refl;
    work = refl;
    bytes = refl;
    next = refl;
  }
  mark_all-Marks (p ∷ ps) h = Marks-trans (mark-Marks p h) (mark_all-Marks ps (mark p h))

  -- A marked address has a block.
  pub value_of_is_marked :
      (h : GcHeap V) (a : ℕ) → is_marked h a ≡ true → (v : V) × (value_at h.all_ptrs a ≡ some v)
  unfolding is_marked value_at flag_of value_of
  value_of_is_marked h a m = elim (Option-cases (find_block a h.all_ptrs)) [
    | inl e ↦ absurd (ground arith)
    | inr (b, e) ↦ (b.value, ground arith)
  ]
