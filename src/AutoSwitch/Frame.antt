-- ===== src/AutoSwitch/Frame.antt =====
-- The frame guard of src/support/util.cpp: the current frame within a block and after it.
use dbgscript.Base.{ℕ, ◌≡◌, ◌≢◌, ◌⊎◌, refl, true, false, inl, inr, arith, ◌==◌, ==_iff, Bool-cases}
use dbgscript.Exec.{failed, ok, Exec}
use dbgscript.Engine.{SystemObjects, Symbols}
use dbgscript.Host.{Host}
use dbgscript.AutoSwitch.{no_index, with_frame}

-- What the guard relies on in DbgEng.
pub record FrameLaws {W : Type 0} (syms : Symbols W) : Type 0 where
  -- A switch that succeeds makes its frame current, and one that fails leaves the current frame.
  pub switched :
      (n : ℕ) (w : W)
      → failed (syms.set_scope_frame_by_index n w).0 ≡ false
      → (syms.current_scope_frame_index (syms.set_scope_frame_by_index n w).1).1 ≡ n
  pub refused :
      (n : ℕ) (w : W)
      → failed (syms.set_scope_frame_by_index n w).0 ≡ true
      → (syms.current_scope_frame_index (syms.set_scope_frame_by_index n w).1).1
        ≡ (syms.current_scope_frame_index w).1

-- Choosing a frame does not change the current thread.
abbrev pub FrameKeepsThread : {W : Type 0} → SystemObjects W → Symbols W → Type 0
FrameKeepsThread {W} sys syms =
    (n : ℕ) (w : W)
    → (sys.current_thread_id (syms.set_scope_frame_by_index n w).1).1 ≡ (sys.current_thread_id w).1

module _ {W : Type 0} (syms : Symbols W) (laws : FrameLaws syms) where
  abbrev pub current_frame : Host W → ℕ
  current_frame h = (syms.current_scope_frame_index h.world).1

  -- The frame that was current is current again after the block, if its index was not `(ULONG)-1`,
  -- the block keeps the current frame, and the engine lets the guard go back.
  pub with_frame_restores :
      {A : Type 0} (frame : ℕ) (body : Exec (Host W) A) (h : Host W)
      → ((h' : Host W) → current_frame (body h').1 ≡ current_frame h')
      → ((w : W) → failed (syms.set_scope_frame_by_index (current_frame h) w).0 ≡ false)
      → current_frame h ≢ no_index
      → current_frame (with_frame syms frame body h).1 ≡ current_frame h
  unfolding with_frame
  with_frame_restores frame body h keeps back known =
      let h' : Host W = record h { world = (syms.set_scope_frame_by_index frame h.world).1 } in
      let w : W = (body h').1.world in
      ground (
        arith,
        keeps h,
        keeps h',
        laws.refused frame h.world,
        laws.switched frame h.world,
        laws.switched (current_frame h) w (back w),
        back w,
      )

  -- The state in which the block runs: the one before, or that after the engine's switch.
  abbrev pub Entered : ℕ → Host W → Host W → Type 0
  Entered frame h h' =
      (h' ≡ h) ⊎ (h' ≡ record h { world = (syms.set_scope_frame_by_index frame h.world).1 })

  -- A block that returns under the guard has run in the wanted frame.
  pub with_frame_on_target :
      {A : Type 0} (frame : ℕ) (body : Exec (Host W) A) (h : Host W) (a : A)
      → (with_frame syms frame body h).0 ≡ ok a
      → (h' : Host W) × Entered frame h h' × (current_frame h' ≡ frame) × ((body h').0 ≡ ok a)
  unfolding with_frame
  with_frame_on_target frame body h a e =
      let h' : Host W = record h { world = (syms.set_scope_frame_by_index frame h.world).1 } in
      elim (Bool-cases (current_frame h == frame)) [
        | inl already ↦ (h, inl refl, (==_iff (current_frame h) frame).0 already, ground arith)
        | inr other ↦ (h', inr refl, ground (arith, laws.switched frame h.world), ground arith)
      ]
