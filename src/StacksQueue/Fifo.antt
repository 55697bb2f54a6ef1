-- ===== src/StacksQueue/Fifo.antt =====
-- The queue of src/StacksQueue.rs hands the stacks out in the order in which they were put.
use avfork.Base.{
  ℕ, zero, suc, ◌≡◌, refl, ◌∙◌, sym, ap, List, [], ◌∷◌, ◌++◌, append_assoc, append-nil, Option,
  none, some, length, subst,
}
use avfork.Base.Int.{pos}
use avfork.Outcome.{SyscallError, Outcome, Sys, ok, pure, ◌>>=◌, ◌>>◌}
use avfork.Kernel.{Kernel, Bytes}
use avfork.Utility.Release.{release_done}
use avfork.Lowlevel.Stack.{StackT, StackLib, new_stack_t, drop_stack}
use avfork.StacksQueue.{SegQueue, unwrap_or_new, get, put}

module _ {W : Type 0} (sys : Kernel W) (lib : StackLib W) (queue : SegQueue W)
    (contents : W → List StackT) where
  -- A queue that keeps the order, which the clean-up of a fresh stack succeeds on and leaves alone.
  pub record QueueLaws : Type 0 where
    pub pushes : (s : StackT) (w : W) → contents (queue.push s w) ≡ contents w ++ s ∷ []
    pub pops_none : (w : W) → contents w ≡ [] → queue.pop w ≡ (none, w)
    pub pops_some :
        (s : StackT) (ss : List StackT) (w : W)
        → contents w ≡ s ∷ ss
        → (w' : W) × (queue.pop w ≡ (some s, w')) × (contents w' ≡ ss)
    pub cleans :
        (w : W)
        → (n : ℕ) × (w' : W) × (lib.cleanup_stack (new_stack_t lib) w ≡ (pos n, w'))
          × (contents w' ≡ contents w)

  -- Puts one after the other, and as many gets.
  unfoldable pub put_all : List StackT → Sys W (Unit {0})
  put_all [] = pure tt
  put_all (s ∷ ss) = put sys lib queue s >> put_all ss

  unfoldable pub get_many :
      ℕ → ℕ → (SyscallError → List Bytes) → (StackT → List Bytes) → Sys W (List StackT)
  get_many zero fuel debug shown = pure []
  get_many (suc n) fuel debug shown = get sys lib queue fuel debug shown >>= λ s.
      get_many n fuel debug shown >>= λ ss. pure (s ∷ ss)

  drop_stack_ok :
      (fuel : ℕ) (debug : SyscallError → List Bytes) (shown : StackT → List Bytes) (s : StackT)
      (w w' : W) (n : ℕ)
      → lib.cleanup_stack s w ≡ (pos n, w')
      → drop_stack sys lib fuel debug shown s w ≡ (ok tt, w')
  unfolding drop_stack
  drop_stack_ok fuel debug shown s w w' n e = release_done sys fuel debug _ _ n w w' e

  -- The end of a `get` on a queue with these stacks.
  abbrev pub Got : List StackT → Outcome StackT × W → Type 0
  Got [] (o, w') = (o ≡ ok (new_stack_t lib)) × (contents w' ≡ [])
  Got (s ∷ ss) (o, w') = (o ≡ ok s) × (contents w' ≡ ss)

  get_popped :
      (fuel : ℕ) (debug : SyscallError → List Bytes) (shown : StackT → List Bytes) (w : W)
      {p : Option StackT × W}
      → queue.pop w ≡ p
      → get sys lib queue fuel debug shown w ≡ unwrap_or_new sys lib queue fuel debug shown p
  unfolding get
  get_popped fuel debug shown w e = ap (unwrap_or_new sys lib queue fuel debug shown) e

  -- Under `QueueLaws`, `get` answers the oldest stack of the queue and takes it out, or a new one
  -- if the queue is empty; the new stack that it makes in any case is cleaned up, where it is not
  -- needed, without touching the queue.
  pub get-Got :
      (fuel : ℕ) (debug : SyscallError → List Bytes) (shown : StackT → List Bytes)
      (ss : List StackT) (w : W)
      → QueueLaws
      → contents w ≡ ss
      → Got ss (get sys lib queue fuel debug shown w)
  unfolding unwrap_or_new
  get-Got fuel debug shown [] w laws e =
      subst (Got []) (sym (get_popped fuel debug shown w (laws.pops_none w e))) (refl, e)
  get-Got fuel debug shown (s ∷ ss) w laws e =
      let (w', popped, rest) = laws.pops_some s ss w e in
      let (n, v, clean, same) = laws.cleans w' in
      subst (Got (s ∷ ss)) (sym (get_popped fuel debug shown w popped))
        (rw (drop_stack_ok fuel debug shown (new_stack_t lib) w' v n clean) (refl, same ∙ rest))

  put_all-contents :
      (ss : List StackT) (w : W)
      → QueueLaws
      → (w' : W) × (put_all ss w ≡ (ok tt, w')) × (contents w' ≡ contents w ++ ss)
  unfolding put_all put
  put_all-contents [] w laws = (w, refl, sym (append-nil (contents w)))
  put_all-contents (s ∷ ss) w laws =
      let (w', e, c) = put_all-contents ss (queue.push s w) laws in
      (w', e, c ∙ ap (λ l. l ++ ss) (laws.pushes s w) ∙ append_assoc (contents w) (s ∷ []) ss)

  get_many-contents :
      (fuel : ℕ) (debug : SyscallError → List Bytes) (shown : StackT → List Bytes)
      (ss : List StackT) (w : W)
      → QueueLaws
      → contents w ≡ ss
      → (w' : W) × (get_many (length ss) fuel debug shown w ≡ (ok ss, w')) × (contents w' ≡ [])
  unfolding get_many
  get_many-contents fuel debug shown [] w laws e = (w, refl, e)
  get_many-contents fuel debug shown (s ∷ ss) w laws e =
      let (o, rest) = get-Got fuel debug shown (s ∷ ss) w laws e in
      let (w', many, none_left) =
        get_many-contents fuel debug shown ss (get sys lib queue fuel debug shown w).1 laws rest in
      (w', rw (o, many) refl, none_left)

  -- Under `QueueLaws`, stacks that are put into an empty queue come out again in the same order,
  -- and leave it empty.
  pub get_many-put_all :
      (fuel : ℕ) (debug : SyscallError → List Bytes) (shown : StackT → List Bytes)
      (ss : List StackT) (w : W)
      → QueueLaws
      → contents w ≡ []
      → (w' : W) × ((put_all ss >> get_many (length ss) fuel debug shown) w ≡ (ok ss, w'))
        × (contents w' ≡ [])
  get_many-put_all fuel debug shown ss w laws e =
      let (v, puts, full) = put_all-contents ss w laws in
      let (w', gets, none_left) =
        get_many-contents fuel debug shown ss v laws (full ∙ ap (λ l. l ++ ss) e) in
      (w', rw (puts, gets) refl, none_left)
