-- ===== src/Vm/Invariants/Runs.antt =====
-- VM::run keeps what each change of the state keeps, where the stack of activations may take part.
use cpplox.Objects.{Object}
use cpplox.Prelude.{
  ℕ, zero, suc, ◌==◌, Bool-cases, inl, inr, length, List, ◌∷◌, if_cases, size_sub, ltb,
}
use cpplox.Value.{Double}
use cpplox.Vm.Actions.{IsKept, Keeps-closure_at, Keeps-function_at, Keeps-make}
use cpplox.Vm.Calls.{Next, continue_at, activate, finished}
use cpplox.Vm.Captures.{Frame}
use cpplox.Vm.Invariants.Instructions.{Keeps-round}
use cpplox.Vm.Keeps.{Ends, Property, Keeps, Keeps-bind, Keeps-pure}
use cpplox.Vm.Run.{
  run_closure, activation, collect, collect_if_due, pop_frame, proceed, round, run_loop, run,
}
use cpplox.Vm.State.{make, Vm, M, Outcome}

-- A property of the state for each stack of activations: every change of another field keeps it, a
-- collection keeps it, and an activation that is entered or left changes the stack in it.
pub record IsRunKept {D : Type 0} (size_of : Object D → ℕ) (Inv : List ℕ → Property D)
    : Type 0 where
  pub kept : (frames : List ℕ) → IsKept size_of (Inv frames)
  pub collected : (frames : List ℕ) → Keeps (Inv frames) (collect size_of)
  pub entered :
      (frames : List ℕ) (a : ℕ) (s : Vm D)
      → (Inv frames).holds s
      → (Inv (a ∷ frames)).holds (record s { call_frames = a ∷ s.call_frames })
  pub left :
      (frames : List ℕ) (a : ℕ) (o : Outcome D (Unit {0}))
      → Ends (Inv (a ∷ frames)) o
      → Ends (Inv frames) (pop_frame o)

module _ {D : Type 0} ⦃d : Double D⦄ (size_of : Object D → ℕ) (clock : ℕ → D)
    {Inv : List ℕ → Property D} (runs : IsRunKept size_of Inv) where
  Keeps-collect_if_due : (frames : List ℕ) → Keeps (Inv frames) (collect_if_due size_of)
  unfolding collect_if_due
  Keeps-collect_if_due frames = record {
    at = λ s h.
        if_cases {A = Outcome D (Unit {0})} (λ o. Ends (Inv frames) o)
          (ltb 4096 (size_sub s.gc_heap.n_allocated_bytes s.gc_heap_last_collect_size))
          (λ _. (runs.collected frames).at s h) λ _. h;
  }

  Keeps-run_closure :
      (frames : List ℕ) (loop : Frame D → ℕ → M D (Unit {0})) (a begin : ℕ)
      → ((frame : Frame D) (ip : ℕ) → Keeps (Inv frames) (loop frame ip))
      → Keeps (Inv frames) (run_closure loop a begin)
  unfolding run_closure
  Keeps-run_closure frames loop a begin kl =
      Keeps-bind _ _ (Keeps-closure_at (runs.kept frames) a)
        λ c. Keeps-bind _ _ (Keeps-function_at (runs.kept frames) c.function_pointer) λ f. kl _ 0

  Keeps-activation :
      (frames : List ℕ) (loop : Frame D → ℕ → M D (Unit {0})) (a begin : ℕ)
      → ((frame : Frame D) (ip : ℕ) → Keeps (Inv (a ∷ frames)) (loop frame ip))
      → Keeps (Inv frames) (activation loop a begin)
  unfolding activation
  Keeps-activation frames loop a begin kl = record {
    at = λ s h.
        let s' = record s { call_frames = a ∷ s.call_frames } in
        runs.left frames a (run_closure loop a begin s')
          ((Keeps-run_closure (a ∷ frames) loop a begin kl).at s' (runs.entered frames a s h));
  }

  Keeps-proceed :
      (frames : List ℕ) (loop : Frame D → ℕ → M D (Unit {0})) (frame : Frame D) (next : Next)
      → ((frames' : List ℕ) (frame' : Frame D) (ip : ℕ) → Keeps (Inv frames') (loop frame' ip))
      → Keeps (Inv frames) (proceed size_of loop frame next)
  unfolding proceed
  Keeps-proceed frames loop frame (continue_at ip) kl =
      Keeps-bind _ _ (Keeps-collect_if_due frames) λ _. kl frames frame ip
  Keeps-proceed frames loop frame (activate a begin ip) kl =
      Keeps-bind _ _
        (Keeps-bind _ _ (Keeps-activation frames loop a begin (kl (a ∷ frames)))
          λ _. Keeps-collect_if_due frames)
        λ _. kl frames frame ip
  Keeps-proceed frames loop frame finished kl = Keeps-pure tt

  Keeps-run_loop :
      (n : ℕ) (frames : List ℕ) (frame : Frame D) (ip : ℕ)
      → Keeps (Inv frames) (run_loop size_of clock n frame ip)
  unfolding run_loop
  Keeps-run_loop zero frames frame ip = record { at = λ s h _. h }
  Keeps-run_loop (suc n) frames frame ip = record {
    at = λ s h. elim (Bool-cases (ip == length frame.chunk.bytecode)) [
      | inl e ↦ rw (e, run_loop) h
      | inr e ↦
          rw (e, run_loop)
            ((Keeps-bind (round size_of clock frame ip)
                (proceed size_of (run_loop size_of clock n) frame)
                (Keeps-round size_of clock (runs.kept frames) frame ip)
                λ next.
                  Keeps-proceed frames (run_loop size_of clock n) frame next (Keeps-run_loop n)).at
              s h)
    ];
  }

  pub Keeps-run :
      (frames : List ℕ) (fuel function : ℕ) → Keeps (Inv frames) (run size_of clock fuel function)
  unfolding run
  Keeps-run frames fuel function =
      Keeps-bind (make size_of _) _ (Keeps-make (runs.kept frames) _)
        λ a. Keeps-activation frames _ a 0 (Keeps-run_loop fuel (a ∷ frames))
