-- ===== src/Vm/Keeps.antt =====
-- Actions of the virtual machine that keep a property of its state, where they end and behind each
-- error that the property covers: one rule for each way to build an action, and one for each action
-- on the state.
use cpplox.Memory.{ControlBlock, find_block}
use cpplox.Objects.{Object}
use cpplox.Prelude.{
  ℕ, ◌≡◌, ◌⊎◌, subst, refl, Bool, true, false, Option, none, some, Option-cases, inl, inr,
  if◌then◌else◌,
}
use cpplox.Vm.State.{
  Vm, M, Outcome, Error, done, threw, ◌>>=◌, pure, throw, get, require, undefined_behaviour,
  object_at,
}

abbrev pub final : {D A : Type 0} → Outcome D A → Vm D
final (done a s) = s
final (threw e s) = s

-- A property of the states between actions, and the errors behind which it is claimed too.
pub record Property (D : Type 0) : Type 1 where
  pub holds : Vm D → Type 0
  pub covers : Error → Type 0

-- What an action leaves has the property; behind an error, if the error is covered.
abbrev pub Ends : {D A : Type 0} → Property D → Outcome D A → Type 0
Ends P (done a s) = P.holds s
Ends P (threw e s) = P.covers e → P.holds s

pub record Keeps {D A : Type 0} (P : Property D) (m : M D A) : Type 0 where
  pub at : (s : Vm D) → P.holds s → Ends P (m s)

pub Outcome-cases :
    {D A : Type 0} (o : Outcome D A)
    → ((a : A) × (s : Vm D) × (o ≡ done a s)) ⊎ ((e : Error) × (s : Vm D) × (o ≡ threw e s))
Outcome-cases (done a s) = inl (a, s, refl)
Outcome-cases (threw e s) = inr (e, s, refl)

module _ {D : Type 0} {P : Property D} where
  pub Keeps-bind :
      {A B : Type 0} (m : M D A) (f : A → M D B)
      → Keeps P m
      → ((a : A) → Keeps P (f a))
      → Keeps P (m >>= f)
  Keeps-bind m f km kf = record {
    at = λ s h.
        let kept = km.at s h in
        elim (Outcome-cases (m s)) [
          | inl (a, s', e) ↦
              let h' : P.holds s' = subst (λ o. Ends P o) e kept in rw (e, ◌>>=◌) ((kf a).at s' h')
          | inr (x, s', e) ↦
              let h' : P.covers x → P.holds s' = subst (λ o. Ends P o) e kept in rw (e, ◌>>=◌) h'
        ];
  }

  pub Keeps-pure : {A : Type 0} (a : A) → Keeps P (pure a)
  Keeps-pure a = record { at = λ s h. h }

  pub Keeps-throw : {A : Type 0} (e : Error) → Keeps P (throw {A = A} e)
  Keeps-throw e = record { at = λ s h _. h }

  pub Keeps-get : Keeps P get
  Keeps-get = record { at = λ s h. h }

  pub Keeps-require : {A : Type 0} (e : Error) (o : Option A) → Keeps P (require e o)
  Keeps-require e none = record { at = λ s h _. h }
  Keeps-require e (some a) = record { at = λ s h. h }

  pub Keeps-if :
      {A : Type 0} (b : Bool) (m n : M D A) → Keeps P m → Keeps P n → Keeps P (if b then m else n)
  Keeps-if true m n km kn = km
  Keeps-if false m n km kn = kn

  -- An action that reads an object of one kind: what follows may use where it is.
  pub Keeps-view :
      {A X : Type 0} (a : ℕ) (view : Object D → Option X) (k : X → M D A)
      → ((x : X) (s : Vm D) (b : ControlBlock (Object D))
          → find_block a s.gc_heap.all_ptrs ≡ some b
          → view b.value ≡ some x
          → P.holds s
          → Ends P (k x s))
      → Keeps P ((object_at a >>= λ o. require undefined_behaviour (view o)) >>= k)
  unfolding object_at
  Keeps-view a view k keep = record {
    at = λ s h. elim (Option-cases (find_block a s.gc_heap.all_ptrs)) [
      | inl e ↦ rw (e, object_at, ◌>>=◌) (λ _. h)
      | inr (b, e) ↦ elim (Option-cases (view b.value)) [
        | inl e' ↦ rw (e, object_at, ◌>>=◌, e') (λ _. h)
        | inr (x, e') ↦ rw (e, object_at, ◌>>=◌, e') (keep x s b e e' h)
      ]
    ];
  }

-- A chain whose first action is known.
module _ {D A B : Type 0} (m : M D A) (f : A → M D B) (s s' : Vm D) where
  pub bind-done : (a : A) → m s ≡ done a s' → (m >>= f) s ≡ f a s'
  bind-done a e = rw (e, ◌>>=◌) refl

  pub bind-threw : (x : Error) → m s ≡ threw x s' → (m >>= f) s ≡ threw x s'
  bind-threw x e = rw (e, ◌>>=◌) refl
