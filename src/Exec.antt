-- ===== src/Exec.antt =====
-- HRESULT values, calls that report one, and actions on a state that may leave by `goto exit`.
use dbgscript.Base.{◌≡◌, refl, ◌⊎◌, inl, inr, ℕ, Bool, leb, if◌then◌else◌}

-- An HRESULT is its 32-bit pattern; the top bit says that the call failed.
abbrev pub HResult : Type 0
HResult = ℕ

-- `FAILED(hr)`
abbrev pub failed : HResult → Bool
failed hr = leb 0x80000000 hr

abbrev pub s_ok : HResult
s_ok = 0

abbrev pub s_false : HResult
s_false = 1

abbrev pub e_fail : HResult
e_fail = 0x80004005

abbrev pub e_nointerface : HResult
e_nointerface = 0x80004002

abbrev pub e_invalidarg : HResult
e_invalidarg = 0x80070057

abbrev pub e_outofmemory : HResult
e_outofmemory = 0x8007000E

-- `HRESULT_FROM_WIN32(ERROR_FILE_NOT_FOUND)`
abbrev pub e_file_not_found : HResult
e_file_not_found = 0x80070002

-- What an external call returns: its HRESULT, and what its out-parameter then holds.
abbrev pub Reply : Type 0 → Type 0
Reply A = HResult × A

-- `ok` is a return with a success code, `err hr` one with the failure `hr`.
pub data Result (A : Type 0) : Type 0 where
  ok : A → Result A
  err : HResult → Result A

abbrev pub of_reply : {A : Type 0} → Reply A → Result A
of_reply (hr, a) = if failed hr then err hr else ok a

-- The state comes back beside a failure too: what was written before the exit stays written.
abbrev pub Exec : Type 0 → Type 0 → Type 0
Exec S A = S → Result A × S

module _ {S A : Type 0} where
  abbrev pub pure : A → Exec S A
  pure a s = (ok a, s)

  abbrev pub raise : HResult → Exec S A
  raise hr s = (err hr, s)

  abbrev pub gets : (S → A) → Exec S A
  gets f s = (ok (f s), s)

infixl 5 ◌>>=◌ ◌>>◌
abbrev pub ◌>>=◌ : {S A B : Type 0} → Exec S A → (A → Exec S B) → Exec S B
◌>>=◌ m f s = let (r, s') = m s in elim r [ ok a ↦ f a s' | err hr ↦ (err hr, s') ]

abbrev pub ◌>>◌ : {S A B : Type 0} → Exec S A → Exec S B → Exec S B
m >> k = m >>= λ _. k

abbrev pub modify : {S : Type 0} → (S → S) → Exec S (Unit {0})
modify f s = (ok tt, f s)

-- The HRESULT that a caller sees, with `S_OK` for every success.
abbrev pub code : {A : Type 0} → Result A → HResult
code (ok a) = s_ok
code (err hr) = hr

pub Result-cases :
    {A : Type 0} (r : Result A) → ((a : A) × (r ≡ ok a)) ⊎ ((hr : HResult) × (r ≡ err hr))
Result-cases (ok a) = inl (a, refl)
Result-cases (err hr) = inr (hr, refl)
