-- ===== src/Programs/Unwind.antt =====
-- Calls that return or unwind, and what `alloc_obj` leaves where it does.
pub mod Calls
pub mod Rounds
use avfork.Base.{
  ℕ, zero, suc, ◌+◌, ◌*◌, ◌^◌, ◌<◌, ◌≡◌, refl, sym, ap, subst, ◌∙◌, ◌⊎◌, inl, inr, Bool, true,
  false, List, ◌∷◌, some, none, codes, arith, ltb, ◌==◌, ◌&&◌, if◌then◌else◌, Bool-cases,
}
use avfork.Base.Int.{ℤ, pos, negsuc, to_i32, to_i32_small}
use avfork.Outcome.{
  SyscallError, Outcome, ok, err, exited, replaced, panicked, undefined, out_of_fuel, Sys, pure,
  lift, continue_with, and_then, ◌>>=◌, ◌>>◌, at_scope_end, dropping, on_world,
}
use avfork.Kernel.{Kernel, Bytes}
use avfork.Error.{to_result}
use avfork.Error.Codes.{to_result_nonneg, to_result_negative}
use avfork.Syscall.Io.{read}
use avfork.Syscall.Fd.{FdBox, box_from_raw, drop_box}
use avfork.Syscall.Fd.Table.{one, count}
use avfork.Syscall.Fd.Table.Counts.{count_self}
use avfork.Utility.Release.{release_done}
use avfork.Lowlevel.Stack.{
  StackT, StackLib, Allocator, new_allocator, new_stack_t, reserve, drop_stack,
}
use avfork.Lowlevel.Alloc.{
  add_usize, rounded_size, Memory, StackBox, Allocation, boxed, rejected, write_obj, deref,
  alloc_obj,
}
use avfork.Lowlevel.Fork.{ChildFn, SpawnLib, aspawn_fn, avfork_call}
use avfork.Programs.{
  or_panic, panic_on_err, pinned, Console, await_child, boxed_or_panic, reserve_or_panic, round_on,
  fork_round, fork_rounds, with_stack, test_callback,
}
use avfork.Programs.Rounds.{Same, pinned-write_obj}

-- An end that goes back to the caller or unwinds.
abbrev pub IsUnwound : {A : Type 0} → Outcome A → Type 0
IsUnwound (ok a) = Unit
IsUnwound panicked = Unit
IsUnwound _ = ⊥

-- Such an end, in a world of which `P` holds.
abbrev pub UnwindsIn : {W A : Type 0} → (W → Type 0) → Outcome A × W → Type 0
UnwindsIn P (o, w) = IsUnwound o × P w

-- Sequencing: what follows is looked at only after a success.
pub bind-UnwindsIn :
    {W A B : Type 0} (P Q : W → Type 0) (r : Outcome A × W) (f : A → Sys W B)
    → UnwindsIn P r
    → ((w : W) → P w → Q w)
    → ((a : A) (w : W) → r.0 ≡ ok a → P w → UnwindsIn Q (f a w))
    → UnwindsIn Q (continue_with r.0 f r.1)
bind-UnwindsIn P Q (ok a, w) f (u, p) weaker next = next a w refl p
bind-UnwindsIn P Q (err e, w) f (u, p) weaker next = elim u [ ]
bind-UnwindsIn P Q (exited c, w) f (u, p) weaker next = elim u [ ]
bind-UnwindsIn P Q (replaced, w) f (u, p) weaker next = elim u [ ]
bind-UnwindsIn P Q (panicked, w) f (u, p) weaker next = (tt, weaker w p)
bind-UnwindsIn P Q (undefined, w) f (u, p) weaker next = elim u [ ]
bind-UnwindsIn P Q (out_of_fuel, w) f (u, p) weaker next = elim u [ ]

-- A drop that works at the end of a scope, on either way out.
pub at_scope_end-UnwindsIn :
    {W A : Type 0} (P Q : W → Type 0) (drop : Sys W (Unit {0})) (r : Outcome A × W)
    → UnwindsIn P r
    → ((w : W) → P w → (w' : W) × (drop w ≡ (ok tt, w')) × Q w')
    → UnwindsIn Q (at_scope_end drop r.0 r.1)
at_scope_end-UnwindsIn P Q drop (ok a, w) (u, p) drops = let (w', e, q) = drops w p in rw e (tt, q)
at_scope_end-UnwindsIn P Q drop (panicked, w) (u, p) drops =
    let (w', e, q) = drops w p in rw e (tt, q)
at_scope_end-UnwindsIn P Q drop (err e, w) (u, p) drops = elim u [ ]
at_scope_end-UnwindsIn P Q drop (exited c, w) (u, p) drops = elim u [ ]
at_scope_end-UnwindsIn P Q drop (replaced, w) (u, p) drops = elim u [ ]
at_scope_end-UnwindsIn P Q drop (undefined, w) (u, p) drops = elim u [ ]
at_scope_end-UnwindsIn P Q drop (out_of_fuel, w) (u, p) drops = elim u [ ]

-- What `toResult` makes of a code, where an error panics.
pub or_panic-to_result : (checks : Bool) (r : ℤ) → IsUnwound (or_panic (to_result checks r))
unfolding to_result
or_panic-to_result checks (pos n) = tt
or_panic-to_result checks (negsuc n) = elim (Bool-cases (checks && (suc n == 2 ^ 63))) [
  | inl overflow ↦ rw overflow tt
  | inr fits ↦ rw fits tt
]

-- What follows a code that is turned into a result, where an error panics.
pub to_result-UnwindsIn :
    {W A B C : Type 0} (P : W → Type 0) (o : Outcome A) (g : A → B) (next : B → Sys W C) (w : W)
    → IsUnwound (or_panic o)
    → P w
    → ((a : A) → UnwindsIn P (next (g a) w))
    → UnwindsIn P (continue_with (or_panic (and_then o (λ a. ok (g a)))) next w)
to_result-UnwindsIn P (ok a) g next w u p follow = follow a
to_result-UnwindsIn P (err e) g next w u p follow = (tt, p)
to_result-UnwindsIn P panicked g next w u p follow = (tt, p)
to_result-UnwindsIn P (exited c) g next w u p follow = elim u [ ]
to_result-UnwindsIn P replaced g next w u p follow = elim u [ ]
to_result-UnwindsIn P undefined g next w u p follow = elim u [ ]
to_result-UnwindsIn P out_of_fuel g next w u p follow = elim u [ ]

-- An addition at usize panics or answers, and so does `alloc_obj`.
bind-IsUnwound :
    {A B : Type 0} (o : Outcome A) (f : A → Outcome B)
    → IsUnwound o
    → ((a : A) → IsUnwound (f a))
    → IsUnwound (and_then o f)
bind-IsUnwound (ok a) f u next = next a
bind-IsUnwound panicked f u next = tt
bind-IsUnwound (err e) f u next = elim u [ ]
bind-IsUnwound (exited c) f u next = elim u [ ]
bind-IsUnwound replaced f u next = elim u [ ]
bind-IsUnwound undefined f u next = elim u [ ]
bind-IsUnwound out_of_fuel f u next = elim u [ ]

add_usize-IsUnwound : (checks : Bool) (a b : ℕ) → IsUnwound (add_usize checks a b)
unfolding add_usize
add_usize-IsUnwound checks a b = elim (Bool-cases (ltb (a + b) (2 ^ 64))) [
  | inl fits ↦ rw fits tt
  | inr wraps ↦ elim (Bool-cases checks) [
    | inl on ↦ rw (wraps, on) tt
    | inr off ↦ rw (wraps, off) tt
  ]
]

module _ {W V : Type 0} (checks : Bool) (lib : StackLib W) where
  -- Where an allocation ends in a box, the object is behind it.
  abbrev pub Placed : ℕ → V → Memory V → Outcome (Allocation V × Allocator × Memory V) → Type 0
  Placed type_size obj mem (ok (boxed b, a, mem')) = mem' ≡ write_obj type_size b.ptr obj mem
  Placed type_size obj mem (ok (rejected v, a, mem')) = Unit
  Placed type_size obj mem o = IsUnwound o

  and_then-Placed :
      {A : Type 0} (type_size : ℕ) (obj : V) (mem : Memory V) (o : Outcome A)
      (f : A → Outcome (Allocation V × Allocator × Memory V))
      → IsUnwound o
      → ((a : A) → Placed type_size obj mem (f a))
      → Placed type_size obj mem (and_then o f)
  and_then-Placed type_size obj mem (ok a) f u next = next a
  and_then-Placed type_size obj mem panicked f u next = tt
  and_then-Placed type_size obj mem (err e) f u next = elim u [ ]
  and_then-Placed type_size obj mem (exited c) f u next = elim u [ ]
  and_then-Placed type_size obj mem replaced f u next = elim u [ ]
  and_then-Placed type_size obj mem undefined f u next = elim u [ ]
  and_then-Placed type_size obj mem out_of_fuel f u next = elim u [ ]

  pub alloc_obj-Placed :
      (align type_size : ℕ) (obj : V) (self : Allocator) (mem : Memory V)
      → Placed type_size obj mem (alloc_obj checks lib align type_size obj self mem)
  unfolding alloc_obj rounded_size
  alloc_obj-Placed align type_size obj self mem =
      and_then-Placed type_size obj mem (rounded_size checks align type_size) _
        (add_usize-IsUnwound checks type_size _)
        (λ size.
          and_then-Placed type_size obj mem (add_usize checks self.alloc_obj_sz size) _
            (add_usize-IsUnwound checks self.alloc_obj_sz size)
            (λ total. elim (Bool-cases (ltb self.reserved_obj_sz total)) [
              | inl full ↦ rw full tt
              | inr fits ↦ rw fits (
                  and_then-Placed type_size obj mem (add_usize checks self.alloc_obj_sz size) _
                    (add_usize-IsUnwound checks self.alloc_obj_sz size) (λ alloc_obj_sz. refl))
            ]))
