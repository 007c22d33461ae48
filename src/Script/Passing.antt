-- ===== src/Script/Passing.antt =====
-- Laws of the calls that the providers of src/luaprov, src/pythonprov and src/rubyprov are made of.
use dbgscript.Base.{◌≡◌, refl, false}
use dbgscript.Exec.{Exec, ok}
use dbgscript.Engine.{Control}
use dbgscript.Host.{Host}
use dbgscript.ReadString.{util_check_abort}
use dbgscript.Script.{Script, unless_aborted, ◌>>=◌, calling}

module _ {W : Type 0} where
  -- CHECK_ABORT lets the rest of a function through when the user does not interrupt.
  pub calm_pass :
      {A : Type 0} (control : Control W) (m : Script W A) (h : Host W)
      → util_check_abort control h.world ≡ false
      → unless_aborted control m h ≡ m h
  calm_pass control m h calm = rw calm refl

  -- A support call that succeeds is followed by what reads its result.
  pub bind-calling :
      {A B : Type 0} (m : Exec (Host W) A) (f : A → Script W B) (h : Host W) (a : A)
      → (m h).0 ≡ ok a
      → (calling m >>= f) h ≡ f a (m h).1
  bind-calling m f h a e = rw e refl
