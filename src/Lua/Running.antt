-- ===== src/Lua/Running.antt =====
-- The Lua provider at work: src/luaprov/luascriptprovider.cpp.
pub mod Stack
pub mod Height
use mathlib.Core.Option
use dbgscript.Base.{
  ℕ, ◌+◌, Bool, true, false, Option, none, some, List, [], ◌∷◌, ◌++◌, not, ◌==◌, if◌then◌else◌,
  codes, text_eq, length,
}
use dbgscript.Console.{Text, Diagnostic, util_flush_message_buffer}
use dbgscript.Exec.{e_fail, e_invalidarg, e_outofmemory, Result, ok, err, Exec, pure, ◌>>=◌}
use dbgscript.Engine.{Files}
use dbgscript.Host.{Host, report}
use dbgscript.Platform.{CopyText}
use dbgscript.FindScript.{backslash, util_find_script_file}
use dbgscript.Running.{directory_of, max_path, ToAnsi, is_switch, on_world}

-- The functions of the Lua library that the provider calls, over the state of the library.
pub record LuaApi (W : Type 0) : Type 0 where
  -- `luaL_newstate`, false when it gives none
  pub new_state : W → Bool × W
  pub close : W → W
  pub set_stdio_callbacks : W → W
  pub open_libs : W → W
  -- `luaL_requiref`, with whether a global is set
  pub require_module : Text → Bool → W → W
  -- `luaL_loadfile` and `luaL_loadstring`: the error
  pub load_file : Text → W → ℕ × W
  pub load_string : Text → W → ℕ × W
  -- `lua_pcall` of a function without arguments and results, with or without the handler below it
  pub p_call : Bool → Host W → ℕ × Host W
  -- `lua_tostring(L, -1)`
  pub message : W → Text
  pub get_global : Text → W → W
  -- `lua_getfield(L, -1, …)` and `lua_setfield(L, -2, …)`
  pub get_field : Text → W → W
  pub set_field : Text → W → W
  -- `lua_remove(L, -2)`, `lua_insert(L, -2)`, `lua_concat(L, 2)` and `lua_pop(L, 1)`
  pub remove_second : W → W
  pub insert_second : W → W
  pub concat_two : W → W
  pub pop : W → W
  pub create_table : ℕ → W → W
  pub push_string : Text → W → W
  -- `lua_rawseti(L, -2, …)`
  pub raw_set : ℕ → W → W
  pub set_global : Text → W → W

-- The switches in front of the script's name: whether `-d` is there, and what follows them.
unfoldable pub lua_switches : {W : Type 0} → Bool → List Text → Exec (Host W) (Bool × List Text)
lua_switches debug [] h = (ok (debug, []), h)
lua_switches debug (arg ∷ args) h =
    let rest = lua_switches true args h in
    if is_switch arg
    then (if text_eq arg (codes "-d")
        then rest
        else (err e_invalidarg, report (Diagnostic.unknown_switch arg) h))
    else (ok (debug, arg ∷ args), h)

module _ {W : Type 0} (lua : LuaApi W) where
  -- A path without a backslash is a fault: the length in front of it is then not defined.
  unfoldable pub append_script_path_to_package_path : CopyText → Text → W → Option W
  append_script_path_to_package_path copy full_script_path w =
      elim (directory_of full_script_path) [
        | none ↦ none
        | some dir ↦
            let new_path = (copy (max_path + 1) (b';' ∷ dir ++ codes "\\?.lua")).1 in
            let pushed =
              lua.push_string new_path
                (lua.get_field (codes "path") (lua.get_global (codes "package") w)) in
            some (lua.pop (lua.set_field (codes "path") (lua.concat_two pushed)))
      ]

  -- A chunk that does not compile leaves its message on the stack.
  unfoldable pub compiled : ℕ × W → Exec (Host W) (Unit {0})
  compiled (error, w) h =
      if not (error == 0)
      then (
        err e_fail,
        on_world lua.pop
            (report (Diagnostic.lua_compile_error error (lua.message w)) (record h { world = w })),
      )
      else (ok tt, record h { world = w })

  -- The call of the chunk, and the report of an error that it ends with.
  unfoldable pub call_chunk : Bool → Exec (Host W) (Unit {0})
  call_chunk handled h =
      let (error, h') = lua.p_call handled h in
      if not (error == 0)
      then (let h2 : Host W = record h' { console = util_flush_message_buffer h'.console } in
          (
            err e_fail,
            on_world lua.pop
                (report (Diagnostic.lua_runtime_error error (lua.message h2.world)) h2),
          ))
      else (ok tt, h')

  unfoldable pub lua_run_string : Text → Exec (Host W) (Unit {0})
  lua_run_string script_string =
      (λ h. compiled (lua.load_string script_string h.world) h) >>= λ _. call_chunk false

  -- The handler under the chunk.
  unfoldable pub push_handler : Bool → W → W
  push_handler debug w =
      let handler = if debug then codes "debug" else codes "traceback" in
      lua.insert_second
        (lua.remove_second (lua.get_field handler (lua.get_global (codes "debug") w)))

  module _ (to_ansi : ToAnsi) where
    -- The loop over the arguments, from the place `i` of the table on.
    unfoldable pub set_args : ℕ → List Text → Exec (Host W) (Unit {0})
    set_args i [] h = (ok tt, h)
    set_args i (arg ∷ args) h =
        let (error, ansi) = to_ansi 1024 arg in
        let rest =
          set_args (i + 1) args (on_world (λ w. lua.raw_set i (lua.push_string ansi w)) h) in
        if not (error == 0)
        then (err e_fail, report (Diagnostic.failed_convert_wide error) h)
        else rest

    module _ (copy : CopyText) (files : Files W) where
      -- The script's path, and the arguments with it in front.
      unfoldable pub find_script : List Text → Exec (Host W) (Text × List Text)
      find_script [] = λ h. (err e_invalidarg, report Diagnostic.no_arguments_given h)
      find_script (script ∷ args) =
          util_find_script_file copy files script max_path >>= λ path. pure (path, path ∷ args)

      unfoldable pub ansi_name : Text → Exec (Host W) Text
      ansi_name path h =
          let (error, ansi) = to_ansi max_path path in
          if not (error == 0)
          then (err e_fail, report (Diagnostic.failed_convert_wide error) h)
          else (ok ansi, h)

      -- Whether `-d` is there, the narrow name of the script, and its arguments.
      unfoldable pub script_and_args : List Text → Exec (Host W) (Bool × Text × List Text)
      script_and_args argv = lua_switches false argv >>= λ parsed. find_script parsed.1 >>= λ found.
          ansi_name found.0 >>= λ name. pure (parsed.0, name, found.1)

      -- From the compilation to the package path: the chunk lies on the stack, its handler below it.
      unfoldable pub load_chunk : Bool × Text × List Text → Exec (Host W) Text
      load_chunk (debug, name, args) = (λ h. compiled (lua.load_file name h.world) h) >>= λ _.
          (λ h.
            set_args 0 args
              (on_world (λ w. lua.create_table (length args) (push_handler debug w)) h))
          >>= λ _ h. (ok name, on_world (lua.set_global (codes "arg")) h)

      -- The package path and the call, once the chunk is loaded.
      unfoldable pub start_chunk : Result Text × Host W → Option (Result (Unit {0}) × Host W)
      start_chunk (err hr, h) = some (err hr, h)
      start_chunk (ok name, h) = elim (append_script_path_to_package_path copy name h.world) [
        | none ↦ none
        | some w ↦ some (call_chunk true (record h { world = w }))
      ]

      unfoldable pub lua_run : List Text → Host W → Option (Result (Unit {0}) × Host W)
      lua_run argv h = start_chunk ((script_and_args argv >>= load_chunk) h)

  -- Whether there is a state, and the answer.
  unfoldable pub lua_start_vm : Exec (Host W) (Unit {0})
  lua_start_vm h =
      let (made, w) = lua.new_state h.world in
      if not made
      then (err e_outofmemory, report Diagnostic.lua_newstate_failed (record h { world = w }))
      else (let w1 =
            lua.require_module (codes "dbgscript") true
              (lua.open_libs (lua.set_stdio_callbacks w)) in
          let w2 = lua.require_module (codes "TypedObject") false w1 in
          let w3 = lua.require_module (codes "Thread") false w2 in
          (ok tt, record h { world = lua.require_module (codes "StackFrame") false w3 }))

  -- `lua_close`, when there is a state.
  unfoldable pub lua_stop_vm : Bool → W → Bool × W
  lua_stop_vm lua_state w = if lua_state then (false, lua.close w) else (false, w)
