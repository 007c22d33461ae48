-- ===== src/AutoSwitch/Thread.antt =====
-- The thread guard of src/support/util.cpp: the current thread within a block and after it.
use dbgscript.Base.{ℕ, ◌≡◌, true, false, inl, inr, arith, ◌==◌, ==_iff, Bool-cases}
use dbgscript.Exec.{failed, ok, Exec}
use dbgscript.Engine.{SystemObjects}
use dbgscript.Host.{Host}
use dbgscript.AutoSwitch.{with_thread}

-- What the guard relies on in DbgEng.
pub record ThreadLaws {W : Type 0} (sys : SystemObjects W) : Type 0 where
  -- A switch that succeeds makes its thread current, and one that fails leaves the current thread.
  pub switched :
      (n : ℕ) (w : W)
      → failed (sys.set_current_thread_id n w).0 ≡ false
      → (sys.current_thread_id (sys.set_current_thread_id n w).1).1 ≡ n
  pub refused :
      (n : ℕ) (w : W)
      → failed (sys.set_current_thread_id n w).0 ≡ true
      → (sys.current_thread_id (sys.set_current_thread_id n w).1).1 ≡ (sys.current_thread_id w).1

module _ {W : Type 0} (sys : SystemObjects W) (laws : ThreadLaws sys) where
  -- The thread that is current in a state.
  abbrev pub current : Host W → ℕ
  current h = (sys.current_thread_id h.world).1

  -- The assertion of the destructor: it is always possible to go back to the thread of `h`.
  abbrev pub CanReturn : Host W → Type 0
  CanReturn h = (w : W) → failed (sys.set_current_thread_id (current h) w).0 ≡ false

  abbrev pub KeepsThread : {A : Type 0} → Exec (Host W) A → Type 0
  KeepsThread m = (h : Host W) → current (m h).1 ≡ current h

  -- Whether the switch is made, refused or not needed, and whatever a block does that keeps the
  -- current thread: after the block the thread that was current is current again.
  pub with_thread_restores :
      {A : Type 0} (thread : ℕ) (body : Exec (Host W) A) (h : Host W)
      → KeepsThread body
      → CanReturn h
      → current (with_thread sys thread body h).1 ≡ current h
  unfolding with_thread
  with_thread_restores thread body h keeps back =
      let h' : Host W = record h { world = (sys.set_current_thread_id thread h.world).1 } in
      let w : W = (body h').1.world in
      ground (arith, keeps h, laws.refused thread h.world, laws.switched (current h) w (back w))

  -- A block that returns under the guard has run on the wanted thread, and what it returned is what
  -- it returned there.
  pub with_thread_on_target :
      {A : Type 0} (thread : ℕ) (body : Exec (Host W) A) (h : Host W) (a : A)
      → (with_thread sys thread body h).0 ≡ ok a
      → (h' : Host W) × (current h' ≡ thread) × ((body h').0 ≡ ok a)
  unfolding with_thread
  with_thread_on_target thread body h a e =
      let h' : Host W = record h { world = (sys.set_current_thread_id thread h.world).1 } in
      elim (Bool-cases (current h == thread)) [
        | inl already ↦ (h, (==_iff (current h) thread).0 already, ground arith)
        | inr other ↦ (h', ground (arith, laws.switched thread h.world), ground arith)
      ]
