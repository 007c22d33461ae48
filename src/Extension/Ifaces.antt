-- ===== src/Extension/Ifaces.antt =====
-- acquireDbgEngIfaces, releaseDbgEngIfaces and reAcquireIfacesIfNeeded of src/dllmain.cpp.
use dbgscript.Base.{ℕ, not, ◌==◌, if◌then◌else◌, ◌≡◌, arith}
use dbgscript.Exec.{failed, ok, err, Exec, modify, ◌>>◌}
use dbgscript.Extension.{Pointers, Com}

module _ {W : Type 0} (ole : Com W) where
  -- One `QueryInterface`, into one of the pointers.
  unfoldable pub query_into : (ℕ → Pointers → Pointers) → ℕ → ℕ → Exec (Pointers × W) (Unit {0})
  query_into put iid client (p, w) =
      let (hr, found, w') = ole.query_interface client iid w in
      (if failed hr then err hr else ok tt, (put found p, w'))

  -- The interfaces are numbered in the order of the calls: IDebugControl, IDebugSystemObjects,
  -- IDebugSymbols3, IDebugAdvanced2, IDebugDataSpaces4.
  unfoldable pub acquire_dbg_eng_ifaces : ℕ → Exec (Pointers × W) (Unit {0})
  unfolding query_into
  acquire_dbg_eng_ifaces client =
      modify (λ s. (record (s.0) { debug_client = client }, s.1))
      >> query_into (λ x p. record p { debug_control = x }) 0 client
      >> query_into (λ x p. record p { debug_sys_obj = x }) 1 client
      >> query_into (λ x p. record p { debug_symbols = x }) 2 client
      >> query_into (λ x p. record p { debug_advanced = x }) 3 client
      >> query_into (λ x p. record p { debug_data_spaces = x }) 4 client

  abbrev release_pointer : ℕ → W → W
  release_pointer x w = if not (x == 0) then ole.release x w else w

  -- Every pointer that is not null is released and set to null.
  unfoldable pub release_dbg_eng_ifaces : Pointers × W → Pointers × W
  release_dbg_eng_ifaces (p, w) =
      let w = release_pointer p.debug_data_spaces w in
      let w = release_pointer p.debug_advanced w in
      let w = release_pointer p.debug_symbols w in
      let w = release_pointer p.debug_sys_obj w in
      let w = release_pointer p.debug_control w in
      let w = release_pointer p.debug_client w in
      (
        record {
          debug_client = 0;
          debug_control = 0;
          debug_sys_obj = 0;
          debug_symbols = 0;
          debug_advanced = 0;
          debug_data_spaces = 0;
        },
        w,
      )

  unfoldable pub re_acquire_ifaces_if_needed : ℕ → Exec (Pointers × W) (Unit {0})
  re_acquire_ifaces_if_needed client s =
      if not (client == s.0.debug_client)
      then acquire_dbg_eng_ifaces client (release_dbg_eng_ifaces s)
      else (ok tt, s)

  -- The client is written before the first question, and stays.
  acquire-client :
      (client : ℕ) (s : Pointers × W) → (acquire_dbg_eng_ifaces client s).1.0.debug_client ≡ client
  unfolding acquire_dbg_eng_ifaces query_into
  acquire-client client s = ground arith

  cached-client :
      (client : ℕ) (s : Pointers × W)
      → (re_acquire_ifaces_if_needed client s).1.0.debug_client ≡ client
  unfolding re_acquire_ifaces_if_needed
  cached-client client s = ground (arith, acquire-client client (release_dbg_eng_ifaces s))

  same_client :
      (client : ℕ) (s : Pointers × W)
      → s.0.debug_client ≡ client
      → re_acquire_ifaces_if_needed client s ≡ (ok tt, s)
  unfolding re_acquire_ifaces_if_needed
  same_client client s e = ground arith

  -- After a call with a client, whether it succeeded or failed half way, every further call with the
  -- same client succeeds and changes nothing: a failure is not tried again.
  pub re_acquire_again :
      (client : ℕ) (s : Pointers × W)
      → let s' : Pointers × W = (re_acquire_ifaces_if_needed client s).1 in
        (s'.0.debug_client ≡ client) × (re_acquire_ifaces_if_needed client s' ≡ (ok tt, s'))
  re_acquire_again client s = (
    cached-client client s,
    same_client client (re_acquire_ifaces_if_needed client s).1 (cached-client client s),
  )
