-- ===== src/Lua/Running/Height.antt =====
-- The stack of Lua over the runs of src/luaprov/luascriptprovider.cpp.
use dbgscript.Base.{
  ◌≢◌, ℕ, ◌+◌, ◌≡◌, refl, ap, ◌∙◌, ◌⊎◌, inl, inr, Bool, true, false, Option, none, some, List, [],
  ◌∷◌, ◌==◌, arith, Bool-cases, codes, length,
}
use dbgscript.Console.{Text}
use dbgscript.Exec.{Result, ok, err, Exec, e_fail, pure, ◌>>=◌}
use dbgscript.Engine.{Files}
use dbgscript.Host.{Host}
use dbgscript.Platform.{CopyText}
use dbgscript.FindScript.{util_find_script_file}
use dbgscript.Running.{directory_of, max_path, ToAnsi, on_world}
use dbgscript.Lua.Running.{
  LuaApi, lua_switches, compiled, call_chunk, lua_run_string, push_handler, set_args, find_script,
  ansi_name, script_and_args, load_chunk, start_chunk, lua_run,
}
use dbgscript.Lua.Running.Stack.{
  LuaLaws, all_narrow, bind-world, bind-ok, bind-err, world-switches, world-named, world-find,
  top-call_chunk, call_chunk-cases, compiled_ok, compiled_fails, top-push_handler, set_args-narrow,
  set_args-wide, top-append, compiled-Stands, top-called,
}

-- A run failed with E_FAIL, at a height.
abbrev pub Leaves : {W : Type 0} → (W → ℕ) → ℕ → Option (Result (Unit {0}) × Host W) → Type 0
Leaves {W} top k out = (g : Host W) × (out ≡ some (err e_fail, g)) × (top g.world ≡ k)

-- A run called the chunk at `g`, with its handler below it, and ended one higher than at `j`: where
-- the call ended, or, when the call failed, with E_FAIL and the message of the error popped.
abbrev pub Called :
    {W : Type 0} → LuaApi W → (W → ℕ) → ℕ → Option (Result (Unit {0}) × Host W) → Type 0
Called {W} lua top j out =
    (g : Host W) × (g' : Host W) × (top g.world ≡ j + 2)
    × (top g'.world ≡ j + 1)
    × ((((lua.p_call true g).0 ≡ 0) × (out ≡ some (ok tt, g')) × (g' ≡ (lua.p_call true g).1))
        ⊎ (((lua.p_call true g).0 ≢ 0)
            × (out ≡ some (err e_fail, g'))
            × (g'.world ≡ lua.pop (lua.p_call true g).1.world)))

-- What a run that began at the height `j` leaves on the stack, by how the search for the script ended
-- and then by what stopped the run.
abbrev pub Grown :
    {W : Type 0}
    → LuaApi W
    → ToAnsi
    → (W → ℕ)
    → ℕ
    → Result (Bool × Text × List Text) × Host W
    → Option (Result (Unit {0}) × Host W)
    → Type 0
Grown lua to_ansi top j (err hr, g) out = (out ≡ some (err hr, g)) × (top g.world ≡ j)
Grown lua to_ansi top j (ok (debug, name, args), g) out =
    (((lua.load_file name g.world).0 ≢ 0) × Leaves top j out)
    ⊎ (((lua.load_file name g.world).0 ≡ 0)
        × (((all_narrow to_ansi args ≡ false) × Leaves top (j + 3) out)
            ⊎ ((all_narrow to_ansi args ≡ true)
                × (((directory_of name ≡ none) × (out ≡ none)) ⊎ Called lua top j out))))

module _ {W : Type 0} (lua : LuaApi W) (top : W → ℕ) (laws : LuaLaws lua top) where
  module _ (to_ansi : ToAnsi) (copy : CopyText) (files : Files W) where
    world-find_script :
        (args : List Text) (h : Host W)
        → (find_script lua to_ansi copy files args h).1.world ≡ h.world
    unfolding find_script
    world-find_script [] h = refl
    world-find_script (t ∷ args) h =
        world-named (util_find_script_file copy files t max_path h) (λ path. (path, path ∷ args))
        ∙ world-find copy files t max_path h

    world-ansi_name :
        (t : Text) (h : Host W) → (ansi_name lua to_ansi copy files t h).1.world ≡ h.world
    unfolding ansi_name
    world-ansi_name t h = ground arith

    world-script_and_args :
        (argv : List Text) (h : Host W)
        → (script_and_args lua to_ansi copy files argv h).1.world ≡ h.world
    unfolding script_and_args
    world-script_and_args argv h =
        let w = h.world in
        let narrow : Bool → Text × List Text → Exec (Host W) (Bool × Text × List Text) =
          λ d found. ansi_name lua to_ansi copy files found.0 >>= λ name. pure (d, name, found.1) in
        let search_ : Bool × List Text → Exec (Host W) (Bool × Text × List Text) =
          λ parsed. find_script lua to_ansi copy files parsed.1 >>= narrow parsed.0 in
        bind-world w (lua_switches false argv h) search_ (world-switches false argv h)
          λ parsed h1 e1.
            bind-world w (find_script lua to_ansi copy files parsed.1 h1) (narrow parsed.0)
              (world-find_script parsed.1 h1 ∙ e1)
              λ found h2 e2.
                bind-world w (ansi_name lua to_ansi copy files found.0 h2)
                  (λ name. pure (parsed.0, name, found.1)) (world-ansi_name found.0 h2 ∙ e2)
                  λ name h3 e3. e3

    module _ (debug : Bool) (name : Text) (args : List Text) (g : Host W) where
      abbrev loaded : Host W
      loaded = record g { world = (lua.load_file name g.world).1 }

      abbrev tabled : Host W
      tabled = on_world (λ w. lua.create_table (length args) (push_handler lua debug w)) loaded

      abbrev compile : Exec (Host W) (Unit {0})
      compile h = compiled lua (lua.load_file name h.world) h

      abbrev fill : Exec (Host W) (Unit {0})
      fill h =
          set_args lua to_ansi 0 args
            (on_world (λ w. lua.create_table (length args) (push_handler lua debug w)) h)

      abbrev finish : Exec (Host W) Text
      finish h = (ok name, on_world (lua.set_global (codes "arg")) h)

      top-tabled : top tabled.world ≡ top g.world + 3
      top-tabled = omega (
        arith,
        laws.load_file name g.world,
        top-push_handler lua top laws debug loaded.world,
        laws.create_table (length args) (push_handler lua debug loaded.world),
      )

      load-uncompiled :
          ((lua.load_file name g.world).0 == 0) ≡ false
          → (g' : Host W) × (load_chunk lua to_ansi copy files (debug, name, args) g
              ≡ (err e_fail, g'))
            × (top g'.world ≡ top g.world)
      unfolding load_chunk
      load-uncompiled n =
          let (g', e, height) = compiled_fails lua top laws name g n in
          (g', bind-err compile (λ _. fill >>= λ _. finish) g g' e_fail e, height)

      load-wide :
          ((lua.load_file name g.world).0 == 0) ≡ true
          → all_narrow to_ansi args ≡ false
          → (g' : Host W) × (load_chunk lua to_ansi copy files (debug, name, args) g
              ≡ (err e_fail, g'))
            × (top g'.world ≡ top g.world + 3)
      unfolding load_chunk
      load-wide y wide =
          let (g', e, height) = set_args-wide lua top laws to_ansi 0 args tabled wide in
          (
            g',
            bind-ok compile (λ _. fill >>= λ _. finish) g loaded tt
                  (compiled_ok lua top laws name g y)
                ∙ bind-err fill (λ _. finish) loaded g' e_fail e,
            height ∙ top-tabled,
          )

      load-narrow :
          ((lua.load_file name g.world).0 == 0) ≡ true
          → all_narrow to_ansi args ≡ true
          → (g' : Host W) × (load_chunk lua to_ansi copy files (debug, name, args) g
              ≡ (ok name, g'))
            × (top g'.world ≡ top g.world + 2)
      unfolding load_chunk
      load-narrow y narrow =
          let (g', e, height) = set_args-narrow lua top laws to_ansi 0 args tabled narrow in
          (
            on_world (lua.set_global (codes "arg")) g',
            bind-ok compile (λ _. fill >>= λ _. finish) g loaded tt
                  (compiled_ok lua top laws name g y)
                ∙ bind-ok fill (λ _. finish) loaded g' tt e,
            omega (arith, laws.set_global (codes "arg") g'.world, height, top-tabled),
          )

    chunk-Called :
        (j : ℕ) (g : Host W) → top g.world ≡ j + 2 → Called lua top j (some (call_chunk lua true g))
    chunk-Called j g e =
        let c = call_chunk lua true g in
        let ended : top c.1.world ≡ j + 1 = top-call_chunk lua top laws true g ∙ omega (arith, e) in
        (
          g,
          c.1,
          e,
          ended,
          elim (call_chunk-cases lua top laws true g) [
            | inl (fine, at) ↦
                inl (fine, ap (λ r. some (r, c.1)) (ap (λ t. t.0) at), ap (λ t. t.1) at)
            | inr (bad, code, popped) ↦ inr (bad, ap (λ r. some (r, c.1)) code, popped)
          ],
        )

    start-Called :
        (j : ℕ) (name : Text) (g : Host W)
        → top g.world ≡ j + 2
        → ((directory_of name ≡ none) × (start_chunk lua to_ansi copy files (ok name, g) ≡ none))
          ⊎ Called lua top j (start_chunk lua to_ansi copy files (ok name, g))
    unfolding start_chunk
    start-Called j name g e = elim (top-append lua top laws copy name g.world) [
      | inl (flat, fault) ↦ inl (flat, rw (start_chunk, fault) refl)
      | inr (w, p, t) ↦ inr (rw (start_chunk, p) (chunk-Called j (record g { world = w }) (t ∙ e)))
    ]

    named-Grown :
        (j : ℕ) (s : Result (Bool × Text × List Text) × Host W)
        → top s.1.world ≡ j
        → Grown lua to_ansi top j s (
            start_chunk lua to_ansi copy files (elim s.0 as (λ _. Result Text × Host W) [
              | ok a ↦ load_chunk lua to_ansi copy files a s.1
              | err hr ↦ (err hr, s.1)
            ]))
    unfolding start_chunk
    named-Grown j (err hr, g) e = (refl, e)
    named-Grown j (ok (debug, name, args), g) e =
        elim (Bool-cases ((lua.load_file name g.world).0 == 0)) [
          | inr n ↦
              let (g', fails, t) = load-uncompiled debug name args g n in
              inl (ground (arith, n), (g', rw fails refl, t ∙ e))
          | inl y ↦ inr (
            ground (arith, y),
            elim (Bool-cases (all_narrow to_ansi args)) [
              | inr wide ↦
                  let (g', fails, t) = load-wide debug name args g y wide in
                  inl (wide, (g', rw fails refl, t ∙ ap (λ k. k + 3) e))
              | inl narrow ↦
                  let (g', loads, t) = load-narrow debug name args g y narrow in
                  inr (narrow, rw loads (start-Called j name g' (t ∙ ap (λ k. k + 2) e)))
            ],
          )
        ]

    top-run_string :
        (script_string : Text) (h : Host W)
        → top (lua_run_string lua script_string h).1.world ≡ top h.world
    unfolding lua_run_string
    top-run_string script_string h =
        let t = lua.load_string script_string h.world in
        top-called lua top laws (top h.world) (compiled lua t h)
          (compiled-Stands lua top laws (top h.world) t h (laws.load_string script_string h.world))

    -- When the library pops and pushes as its manual says, a run of a file leaves the stack: as it was,
    -- when the script and its arguments are not found or the chunk does not compile; three values
    -- higher, when an argument cannot be converted; and one value higher once the chunk was called,
    -- whether it raised an error (E_FAIL) or not (success). A path without a backslash is a fault. A
    -- run of a string always leaves the stack as it was.
    pub lua_run-Grown :
        (argv : List Text) (script_string : Text) (h : Host W)
        → Grown lua to_ansi top
            (top h.world)
            (script_and_args lua to_ansi copy files argv h)
            (lua_run lua to_ansi copy files argv h)
          × (top (lua_run_string lua script_string h).1.world ≡ top h.world)
    unfolding lua_run
    lua_run-Grown argv script_string h = (
      named-Grown (top h.world) (script_and_args lua to_ansi copy files argv h)
          (ap top (world-script_and_args argv h)),
      top-run_string script_string h,
    )
