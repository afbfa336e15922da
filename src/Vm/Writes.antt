-- ===== src/Vm/Writes.antt =====
-- An assignment through a pointer to an object of the heap, in VM::run of src/vm.cpp.
use cpplox.Memory.Collect.{DistinctAddresses, IsFresh}
use cpplox.Memory.Marking.{value_at, value_of, flag_of}
use cpplox.Memory.Sweep.{total}
use cpplox.Memory.{ControlBlock, find_block}
use cpplox.Objects.{Object, a_string}
use cpplox.Prelude.{
  if_cases, ℕ, ◌+◌, ◌≡◌, ◌≢◌, ◌∙◌, refl, sym, ap, subst, Bool-cases, none, some, inl, inr, List, [],
  ◌∷◌, ◌==◌, Bytes, arith, eq_of_test,
}
use cpplox.Vm.Actions.{Replaces}
use cpplox.Vm.State.{write_block}

module _ {D : Type 0} where
  pub find_block-write_block :
      (x a : ℕ) (o : Object D) (bs : List (ControlBlock (Object D)))
      → x ≢ a
      → find_block x (write_block a o bs) ≡ find_block x bs
  unfolding find_block write_block
  find_block-write_block x a o [] other = refl
  find_block-write_block x a o (b ∷ bs) other =
      ground (arith, find_block-write_block x a o bs other)

  pub flag_of-write_block :
      (x a : ℕ) (o : Object D) (bs : List (ControlBlock (Object D)))
      → flag_of (find_block x (write_block a o bs)) ≡ flag_of (find_block x bs)
  unfolding find_block write_block flag_of
  flag_of-write_block x a o [] = refl
  flag_of-write_block x a o (b ∷ bs) = ground (arith, flag_of-write_block x a o bs)

  absent-write_block :
      (x a : ℕ) (o : Object D) (bs : List (ControlBlock (Object D)))
      → find_block x bs ≡ none
      → find_block x (write_block a o bs) ≡ none
  unfolding find_block write_block
  absent-write_block x a o [] h = refl
  absent-write_block x a o (b ∷ bs) h = ground (arith, absent-write_block x a o bs)

  pub IsFresh-write_block :
      (next a : ℕ) (o : Object D) (bs : List (ControlBlock (Object D)))
      → IsFresh next bs
      → IsFresh next (write_block a o bs)
  unfolding write_block
  IsFresh-write_block next a o [] h = tt
  IsFresh-write_block next a o (b ∷ bs) h =
      if_cases (IsFresh next) (b.address == a) (λ _. h)
        λ _. (h.0, IsFresh-write_block next a o bs h.1)

  pub DistinctAddresses-write_block :
      (a : ℕ) (o : Object D) (bs : List (ControlBlock (Object D)))
      → DistinctAddresses bs
      → DistinctAddresses (write_block a o bs)
  unfolding write_block
  DistinctAddresses-write_block a o [] h = tt
  DistinctAddresses-write_block a o (b ∷ bs) h =
      if_cases DistinctAddresses (b.address == a) (λ _. h)
        λ _. (absent-write_block b.address a o bs h.0, DistinctAddresses-write_block a o bs h.1)

  pub total-write_block :
      (size_of : Object D → ℕ) (a : ℕ) (o : Object D) (bs : List (ControlBlock (Object D)))
      (b : ControlBlock (Object D))
      → find_block a bs ≡ some b
      → size_of b.value ≡ size_of o
      → total size_of (write_block a o bs) ≡ total size_of bs
  unfolding find_block write_block
  total-write_block size_of a o [] b h same = refl
  total-write_block size_of a o (c ∷ bs) b h same = elim (Bool-cases (c.address == a)) [
    | inl here ↦
        let first : find_block a (c ∷ bs) ≡ some c = rw (here, find_block) refl in
        let is_first : c ≡ b = ground arith in
        rw (here, write_block)
          (ap (λ n. n + total size_of bs) (sym same ∙ sym (ap (λ e. size_of e.value) is_first)))
    | inr there ↦
        let later : find_block a (c ∷ bs) ≡ find_block a bs = rw (there, find_block) refl in
        rw (there, write_block)
          (ap (λ n. size_of c.value + n) (total-write_block size_of a o bs b (sym later ∙ h) same))
  ]

  pub value_at-write_self :
      (a : ℕ) (o : Object D) (bs : List (ControlBlock (Object D))) (old : Object D)
      → value_at bs a ≡ some old
      → value_at (write_block a o bs) a ≡ some o
  unfolding value_at value_of find_block write_block
  value_at-write_self a o [] old h = ground arith
  value_at-write_self a o (b ∷ bs) old h = ground (arith, value_at-write_self a o bs old)

  pub value_at-write_other :
      (x a : ℕ) (o : Object D) (bs : List (ControlBlock (Object D)))
      → x ≢ a
      → value_at (write_block a o bs) x ≡ value_at bs x
  unfolding value_at
  value_at-write_other x a o bs other = ap value_of (find_block-write_block x a o bs other)

  pub value_at-write_block :
      (x a : ℕ) (text : Bytes) (o : Object D) (bs : List (ControlBlock (Object D)))
      (b : ControlBlock (Object D))
      → find_block a bs ≡ some b
      → Replaces b.value o
      → value_at bs x ≡ some (a_string text)
      → value_at (write_block a o bs) x ≡ some (a_string text)
  unfolding value_at value_of
  value_at-write_block x a text o bs b at_a same e = elim (Bool-cases (x == a)) [
    | inl here ↦
        let at_x : find_block x bs ≡ some b = rw (eq_of_test x a here) at_a in
        let is_text : b.value ≡ a_string text = ground (arith, ap value_of at_x) in
        absurd (subst (λ v. Replaces v o) is_text same)
    | inr there ↦ ap value_of (find_block-write_block x a o bs λ q. ground arith) ∙ e
  ]
