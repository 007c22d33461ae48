-- ===== src/Lua/Running/Stack.antt =====
-- What the parts of a run do to the stack of Lua: src/luaprov/luascriptprovider.cpp.
use dbgscript.Base.{
  ◌≢◌, ◌&&◌, ℕ, ◌+◌, ◌-◌, ◌≡◌, refl, ap, ◌∙◌, ◌⊎◌, inl, inr, Bool, true, false, none, some, List,
  [], ◌∷◌, ◌++◌, ◌==◌, arith, Bool-cases, Option-cases, codes, text_eq, if◌then◌else◌,
}
use dbgscript.Console.{Text, Diagnostic}
use dbgscript.Exec.{HResult, Result, ok, err, Exec, e_fail, ◌>>=◌}
use dbgscript.Engine.{Files}
use dbgscript.Host.{Host, report}
use dbgscript.Platform.{CopyText}
use dbgscript.FindScript.{util_find_script_file}
use dbgscript.Running.{directory_of, ToAnsi, is_switch, on_world}
use dbgscript.Lua.Running.{
  LuaApi, lua_switches, append_script_path_to_package_path, compiled, call_chunk, push_handler,
  set_args,
}

-- The height of the stack, as the manual of Lua gives what each function pops and pushes. A call of
-- a chunk pops it, and pushes the message of an error; it leaves the handler below.
pub record LuaLaws {W : Type 0} (lua : LuaApi W) (top : W → ℕ) : Type 0 where
  pub load_file : (t : Text) (w : W) → top (lua.load_file t w).1 ≡ top w + 1
  pub load_string : (t : Text) (w : W) → top (lua.load_string t w).1 ≡ top w + 1
  pub called :
      (b : Bool) (h : Host W)
      → ((lua.p_call b h).0 == 0) ≡ true
      → top (lua.p_call b h).1.world ≡ top h.world - 1
  pub call_failed :
      (b : Bool) (h : Host W)
      → ((lua.p_call b h).0 == 0) ≡ false
      → top (lua.p_call b h).1.world ≡ top h.world
  pub get_global : (t : Text) (w : W) → top (lua.get_global t w) ≡ top w + 1
  pub get_field : (t : Text) (w : W) → top (lua.get_field t w) ≡ top w + 1
  pub set_field : (t : Text) (w : W) → top (lua.set_field t w) ≡ top w - 1
  pub remove_second : (w : W) → top (lua.remove_second w) ≡ top w - 1
  pub insert_second : (w : W) → top (lua.insert_second w) ≡ top w
  pub concat_two : (w : W) → top (lua.concat_two w) ≡ top w - 1
  pub pop : (w : W) → top (lua.pop w) ≡ top w - 1
  pub create_table : (n : ℕ) (w : W) → top (lua.create_table n w) ≡ top w + 1
  pub push_string : (t : Text) (w : W) → top (lua.push_string t w) ≡ top w + 1
  pub raw_set : (n : ℕ) (w : W) → top (lua.raw_set n w) ≡ top w - 1
  pub set_global : (t : Text) (w : W) → top (lua.set_global t w) ≡ top w - 1

-- Where it stands after a compilation that began at `j`.
abbrev pub Stands : {W : Type 0} → (W → ℕ) → ℕ → Result (Unit {0}) × Host W → Type 0
Stands top j (ok u, h) = top h.world ≡ j + 1
Stands top j (err hr, h) = top h.world ≡ j

-- Whether the C runtime converts every argument.
abbrev pub all_narrow : ToAnsi → List Text → Bool
all_narrow to_ansi [] = true
all_narrow to_ansi (arg ∷ args) = ((to_ansi 1024 arg).0 == 0) && all_narrow to_ansi args

-- A bind that keeps the world in its first part keeps it, if what follows does.
pub bind-world :
    {W A B : Type 0} (w : W) (s : Result A × Host W) (f : A → Exec (Host W) B)
    → s.1.world ≡ w
    → ((a : A) (h : Host W) → h.world ≡ w → (f a h).1.world ≡ w)
    → (elim s.0 as (λ _. Result B × Host W) [ ok a ↦ f a s.1 | err hr ↦ (err hr, s.1) ]).1.world ≡ w
bind-world w (ok a, h) f e g = g a h e
bind-world w (err hr, h) f e g = e

module _ {W A B : Type 0} (m : Exec (Host W) A) (k : A → Exec (Host W) B) (h g : Host W) where
  pub bind-ok : (a : A) → m h ≡ (ok a, g) → (m >>= k) h ≡ k a g
  bind-ok a e =
      ap
        (λ (s : Result A × Host W). elim s.0 as (λ _. Result B × Host W) [
          | ok x ↦ k x s.1
          | err hr ↦ (err hr, s.1)
        ])
        e

  pub bind-err : (hr : HResult) → m h ≡ (err hr, g) → (m >>= k) h ≡ (err hr, g)
  bind-err hr e =
      ap
        (λ (s : Result A × Host W). elim s.0 as (λ _. Result B × Host W) [
          | ok x ↦ k x s.1
          | err hr' ↦ (err hr', s.1)
        ])
        e

pub world-switches :
    {W : Type 0} (debug : Bool) (args : List Text) (h : Host W)
    → (lua_switches debug args h).1.world ≡ h.world
unfolding lua_switches
world-switches debug [] h = refl
world-switches debug (arg ∷ args) h = elim (Bool-cases (is_switch arg)) [
  | inl y ↦ elim (Bool-cases (text_eq arg (codes "-d"))) [
    | inl d ↦ rw (y, d) (world-switches true args h)
    | inr n ↦ rw (y, n) refl
  ]
  | inr n ↦ rw n refl
]

pub world-named :
    {W A B : Type 0} (s : Result A × Host W) (f : A → B)
    → (elim s.0 as (λ _. Result B × Host W) [
      | ok a ↦ (ok (f a), s.1)
      | err hr ↦ (err hr, s.1)
    ]).1.world
      ≡ s.1.world
world-named (ok a, h) f = refl
world-named (err hr, h) f = refl

pub world-find :
    {W : Type 0} (copy : CopyText) (files : Files W) (t : Text) (n : ℕ) (h : Host W)
    → (util_find_script_file copy files t n h).1.world ≡ h.world
unfolding util_find_script_file
world-find copy files t n h = ground arith

module _ {W : Type 0} (lua : LuaApi W) (top : W → ℕ) (laws : LuaLaws lua top) where
  pub top-call_chunk :
      (handled : Bool) (h : Host W) → top (call_chunk lua handled h).1.world ≡ top h.world - 1
  unfolding call_chunk
  top-call_chunk handled h = elim (Bool-cases ((lua.p_call handled h).0 == 0)) [
    | inl y ↦ rw y (laws.called handled h y)
    | inr n ↦ rw n (laws.pop _ ∙ ap (λ k. k - 1) (laws.call_failed handled h n))
  ]

  -- How the call of a chunk ends: as it did, or with its message popped.
  pub call_chunk-cases :
      (handled : Bool) (h : Host W)
      → (((lua.p_call handled h).0 ≡ 0)
          × (call_chunk lua handled h ≡ (ok tt, (lua.p_call handled h).1)))
        ⊎ (((lua.p_call handled h).0 ≢ 0)
            × ((call_chunk lua handled h).0 ≡ err e_fail)
            × ((call_chunk lua handled h).1.world ≡ lua.pop (lua.p_call handled h).1.world))
  unfolding call_chunk
  call_chunk-cases handled h = elim (Bool-cases ((lua.p_call handled h).0 == 0)) [
    | inl y ↦ inl (ground (arith, y), rw y refl)
    | inr n ↦ inr (ground (arith, n), rw n refl, rw n refl)
  ]

  pub compiled_ok :
      (name : Text) (g : Host W)
      → ((lua.load_file name g.world).0 == 0) ≡ true
      → compiled lua (lua.load_file name g.world) g
        ≡ (ok tt, record g { world = (lua.load_file name g.world).1 })
  unfolding compiled
  compiled_ok name g y = rw y refl

  pub compiled_fails :
      (name : Text) (g : Host W)
      → ((lua.load_file name g.world).0 == 0) ≡ false
      → (g' : Host W) × (compiled lua (lua.load_file name g.world) g ≡ (err e_fail, g'))
        × (top g'.world ≡ top g.world)
  unfolding compiled
  compiled_fails name g n =
      let (error, w) = lua.load_file name g.world in
      (
        on_world lua.pop
            (report (Diagnostic.lua_compile_error error (lua.message w)) (record g { world = w })),
        rw n refl,
        omega (arith, laws.pop w, laws.load_file name g.world),
      )

  pub top-push_handler : (debug : Bool) (w : W) → top (push_handler lua debug w) ≡ top w + 1
  unfolding push_handler
  top-push_handler debug w =
      let g = lua.get_global (codes "debug") w in
      let f = lua.get_field (if debug then codes "debug" else codes "traceback") g in
      omega (
        arith,
        laws.get_global (codes "debug") w,
        laws.get_field (if debug then codes "debug" else codes "traceback") g,
        laws.remove_second f,
        laws.insert_second (lua.remove_second f),
      )

  pub set_args-narrow :
      (to_ansi : ToAnsi) (i : ℕ) (args : List Text) (h : Host W)
      → all_narrow to_ansi args ≡ true
      → (g : Host W) × (set_args lua to_ansi i args h ≡ (ok tt, g)) × (top g.world ≡ top h.world)
  unfolding set_args
  set_args-narrow to_ansi i [] h e = (h, refl, refl)
  set_args-narrow to_ansi i (arg ∷ args) h e =
      let ansi = (to_ansi 1024 arg).1 in
      let h1 = on_world (λ v. lua.raw_set i (lua.push_string ansi v)) h in
      let y : ((to_ansi 1024 arg).0 == 0) ≡ true = ground (arith, e) in
      let (g, same, height) = set_args-narrow to_ansi (i + 1) args h1 (ground (arith, e)) in
      (
        g,
        simp y same,
        height
            ∙ omega (
              arith,
              laws.push_string ansi h.world,
              laws.raw_set i (lua.push_string ansi h.world),
            ),
      )

  pub set_args-wide :
      (to_ansi : ToAnsi) (i : ℕ) (args : List Text) (h : Host W)
      → all_narrow to_ansi args ≡ false
      → (g : Host W) × (set_args lua to_ansi i args h ≡ (err e_fail, g))
        × (top g.world ≡ top h.world)
  unfolding set_args
  set_args-wide to_ansi i [] h e = absurd cc
  set_args-wide to_ansi i (arg ∷ args) h e =
      let ansi = (to_ansi 1024 arg).1 in
      let h1 = on_world (λ v. lua.raw_set i (lua.push_string ansi v)) h in
      elim (Bool-cases ((to_ansi 1024 arg).0 == 0)) [
        | inl y ↦
            let (g, same, height) = set_args-wide to_ansi (i + 1) args h1 (ground (arith, e, y)) in
            (
              g,
              rw y same,
              height
                  ∙ omega (
                    arith,
                    laws.push_string ansi h.world,
                    laws.raw_set i (lua.push_string ansi h.world),
                  ),
            )
        | inr n ↦ (report (Diagnostic.failed_convert_wide (to_ansi 1024 arg).0) h, rw n refl, refl)
      ]

  pub top-append :
      (copy : CopyText) (path : Text) (w : W)
      → ((directory_of path ≡ none) × (append_script_path_to_package_path lua copy path w ≡ none))
        ⊎ ((w' : W) × (append_script_path_to_package_path lua copy path w ≡ some w')
            × (top w' ≡ top w))
  unfolding append_script_path_to_package_path
  top-append copy path w = elim (Option-cases (directory_of path)) [
    | inl n ↦ inl (n, rw (append_script_path_to_package_path, n) refl)
    | inr (dir, e) ↦
        let new_path = (copy 261 (b';' ∷ dir ++ codes "\\?.lua")).1 in
        let g = lua.get_global (codes "package") w in
        let f = lua.get_field (codes "path") g in
        let p = lua.push_string new_path f in
        let c = lua.concat_two p in
        let s = lua.set_field (codes "path") c in
        inr (
          lua.pop s,
          rw (append_script_path_to_package_path, e) refl,
          omega (
            arith,
            laws.get_global (codes "package") w,
            laws.get_field (codes "path") g,
            laws.push_string new_path f,
            laws.concat_two p,
            laws.set_field (codes "path") c,
            laws.pop s,
          ),
        )
  ]

  -- A chunk that compiles lies on the stack; a message that it does not is gone again.
  pub compiled-Stands :
      (j : ℕ) (t : ℕ × W) (h : Host W) → top t.1 ≡ j + 1 → Stands top j (compiled lua t h)
  unfolding compiled
  compiled-Stands j (error, w) h e = elim (Bool-cases (error == 0)) [
    | inl y ↦ rw y e
    | inr n ↦ rw n (omega (arith, laws.pop w, e))
  ]

  pub top-called :
      (j : ℕ) (s : Result (Unit {0}) × Host W)
      → Stands top j s
      → top
          (elim s.0 as (λ _. Result (Unit {0}) × Host W) [
            | ok _ ↦ call_chunk lua false s.1
            | err hr ↦ (err hr, s.1)
          ]).1.world
        ≡ j
  top-called j (ok u, h) e = top-call_chunk false h ∙ omega (arith, e)
  top-called j (err hr, h) e = e
