-- ===== src/Vm/Invariants/Captures.antt =====
-- The handling of upvalues in VM::run keeps what every change of a single field keeps.
use cpplox.Objects.{Object}
use cpplox.Prelude.{
  ℕ, zero, suc, ◌+◌, Option, none, some, List, [], ◌∷◌, length, ltb, if_cases, if◌then◌else◌, ◌==◌,
  get_elem?,
}
use cpplox.Value.{Double, Value}
use cpplox.Vm.Actions.{IsKept, Keeps-close_at, kept_rules}
use cpplox.Vm.Captures
use cpplox.Vm.Captures.{Frame}
use cpplox.Vm.Keeps.{Ends, Property, Keeps, Keeps-bind, Keeps-require, Keeps-pure, Keeps-if}
use cpplox.Vm.State.{Outcome, done, threw, undefined_behaviour}

module _ {D : Type 0} ⦃d : Double D⦄ (size_of : Object D → ℕ) (clock : ℕ → D) {P : Property D}
    (kept : IsKept size_of P) where
  pub Keeps-upvalue_stack_index : (a : ℕ) → Keeps P (Captures.upvalue_stack_index a)
  unfolding Captures.upvalue_stack_index
  Keeps-upvalue_stack_index a = search (kept_rules) depth 20

  pub Keeps-find_open : (i : ℕ) (opens : List ℕ) → Keeps P (Captures.find_open i opens)
  unfolding Captures.find_open
  Keeps-find_open i [] = Keeps-pure none
  Keeps-find_open i (a ∷ rest) = record {
    at =
        (Keeps-bind (Captures.upvalue_stack_index a) _ (Keeps-upvalue_stack_index a)
          λ j. Keeps-if _ _ _ (Keeps-pure (some a)) (Keeps-find_open i rest)).at;
  }

  pub Keeps-insert_sorted :
      (i new : ℕ) (opens : List ℕ) → Keeps P (Captures.insert_sorted i new opens)
  unfolding Captures.insert_sorted
  Keeps-insert_sorted i new [] = Keeps-pure (new ∷ [])
  Keeps-insert_sorted i new (a ∷ rest) = record {
    at =
        (Keeps-bind (Captures.upvalue_stack_index a) _ (Keeps-upvalue_stack_index a) λ j.
          Keeps-if _ _ _ (Keeps-pure (new ∷ a ∷ rest)) (
            Keeps-bind (Captures.insert_sorted i new rest) _ (Keeps-insert_sorted i new rest)
              λ inserted. Keeps-pure (a ∷ inserted))).at;
  }

  pub Keeps-close_all : (opens : List ℕ) → Keeps P (Captures.close_all opens)
  unfolding Captures.close_all
  Keeps-close_all [] = Keeps-pure tt
  Keeps-close_all (a ∷ rest) = record {
    at = (Keeps-bind (Captures.close_at a) _ (Keeps-close_at kept a) λ _. Keeps-close_all rest).at;
  }

  pub Keeps-close_last :
      (frame : Frame D) (opens : List ℕ) (last : Option ℕ)
      → Keeps P (Captures.close_last frame opens last)
  unfolding Captures.close_last
  Keeps-close_last frame opens none = Keeps-pure tt
  Keeps-close_last frame opens (some a) = search (kept_rules, Keeps-upvalue_stack_index) depth 20

  pub Keeps-close_top : (frame : Frame D) → Keeps P (Captures.close_top frame)
  unfolding Captures.close_top
  Keeps-close_top frame = search (kept_rules, Keeps-close_last) depth 20

  pub Keeps-return_stack : (begin : ℕ) → Keeps P (Captures.return_stack begin)
  unfolding Captures.return_stack
  Keeps-return_stack begin = record {
    at = λ s h.
        elim s.stack
          as (λ x. Ends {A = Unit {0}} P (elim x [
            | [] ↦ threw undefined_behaviour s
            | v ∷ vs ↦
                if ltb (length vs) begin
                then threw undefined_behaviour s
                else done tt (record s { stack = v ∷ Captures.keep_bottom begin vs })
          ])) [
            | [] ↦ λ _. h
            | v ∷ vs ↦
                if_cases {A = Outcome D (Unit {0})} (λ o. Ends P o) (ltb (length vs) begin)
                  (λ _ _. h) λ _. kept.stack s (v ∷ Captures.keep_bottom begin vs) h
          ];
  }

  pub Keeps-return_from : (frame : Frame D) → Keeps P (Captures.return_from frame)
  unfolding Captures.return_from
  Keeps-return_from frame = search (kept_rules, Keeps-close_all, Keeps-return_stack) depth 20

  pub Keeps-capture_upvalue :
      (frame : Frame D) (new_closure : ℕ) (i : ℕ)
      → Keeps P (Captures.capture_upvalue frame new_closure i)
  unfolding Captures.capture_upvalue
  Keeps-capture_upvalue frame new_closure i = search (kept_rules) depth 20

  pub Keeps-get_upvalue_at : (frame : Frame D) (i : ℕ) → Keeps P (Captures.get_upvalue_at frame i)
  unfolding Captures.get_upvalue_at
  Keeps-get_upvalue_at frame i = search (kept_rules) depth 20

  pub Keeps-set_upvalue_at :
      (frame : Frame D) (i : ℕ) (v : Value D) → Keeps P (Captures.set_upvalue_at frame i v)
  unfolding Captures.set_upvalue_at
  Keeps-set_upvalue_at frame i v = search (kept_rules) depth 20

  pub Keeps-capture_found :
      (frame : Frame D) (new_closure i : ℕ) (opens : List ℕ) (existing : Option ℕ)
      → Keeps P (Captures.capture_found size_of frame new_closure i opens existing)
  unfolding Captures.capture_found
  Keeps-capture_found frame new_closure i opens (some a) = search (kept_rules) depth 20
  Keeps-capture_found frame new_closure i opens none =
      search (kept_rules, Keeps-insert_sorted) depth 20

  pub Keeps-capture_local :
      (frame : Frame D) (new_closure : ℕ) (index : ℕ)
      → Keeps P (Captures.capture_local size_of frame new_closure index)
  unfolding Captures.capture_local
  Keeps-capture_local frame new_closure index =
      search (kept_rules, Keeps-find_open, Keeps-capture_found) depth 20

  pub Keeps-capture_loop :
      (frame : Frame D) (new_closure n ip : ℕ)
      → Keeps P (Captures.capture_loop size_of frame new_closure n ip)
  unfolding Captures.capture_loop
  Keeps-capture_loop frame new_closure zero ip = Keeps-pure ip
  Keeps-capture_loop frame new_closure (suc n) ip = record {
    at =
        (Keeps-bind _ _ (Keeps-require undefined_behaviour (get_elem? frame.chunk.bytecode ip))
          λ is_direct_capture.
            Keeps-bind _ _
              (Keeps-require undefined_behaviour (get_elem? frame.chunk.bytecode (ip + 1)))
              λ enclosing_index.
                Keeps-bind _ _
                  (Keeps-if (is_direct_capture == 0) _ _
                    (Keeps-capture_upvalue frame new_closure enclosing_index)
                    (Keeps-capture_local frame new_closure enclosing_index))
                  λ _. Keeps-capture_loop frame new_closure n (ip + 2)).at;
  }
