-- ===== src/Stacks/Variables.antt =====
-- The variables of a frame and their symbol group, over the three stackframe.cpp of src/luaprov,
-- src/pythonprov and src/rubyprov.
use dbgscript.Base.{
  ℕ, ◌<◌, ◌≡◌, refl, sym, ap, ◌∙◌, ◌⊎◌, inl, inr, subst, false, List, length, arith,
}
use dbgscript.Exec.{Exec, HResult, e_outofmemory, ok}
use dbgscript.Engine.{SystemObjects, SymbolGroups}
use dbgscript.Host.{Host}
use dbgscript.ReadString.{util_check_abort}
use dbgscript.Frames.{util_count_stack_frame_variables}
use dbgscript.Script.{Script, ScriptError, Outcome, returned, raised, call_failed, calling, ◌>>=◌}
use dbgscript.Script.Passing.{calm_pass, bind-calling}
use dbgscript.TypedObject.{TypedObject}
use dbgscript.Objects.{Services}
use dbgscript.Functions.{Allocate}
use dbgscript.Stacks.{
  FrameObject, Round, failed_with, jumped, OnError, add_object, after_round, variables_from,
  released, get_variables,
}
use dbgscript.Lua.TypedObject.{lua_alloc_new_typed_object}
use dbgscript.Lua.Stacks.{lua_on_error, lua_get_variables}
use dbgscript.Python.TypedObject.{python_alloc_typed_object}
use dbgscript.Python.Stacks.{python_on_error, python_get_variables}
use dbgscript.Ruby.TypedObject.{ruby_alloc_typed_object}
use dbgscript.Ruby.Stacks.{ruby_on_error, ruby_get_variables}
use dbgscript.Stacks.Places.{Refused, Made, MadeOf, Ends, loop-Ends}

-- What a call gives that enumerates the `n` variables of a group from `h` on: all the objects, with
-- the group released; or, behind the objects made before, the code of a place that is refused, with
-- the group released; or what the language makes of an error of the making, `lost`.
abbrev pub Enumerated :
    {W : Type 0}
    → SymbolGroups W
    → ℕ
    → Allocate W
    → (ScriptError → Host W → Outcome (List TypedObject) × Host W)
    → ℕ
    → Host W
    → Outcome (List TypedObject) × Host W
    → Type 0
Enumerated {W} groups grp alloc lost n h result =
    (os : List TypedObject) × (g : Host W) × MadeOf groups grp alloc 0 os h g
    × (((length os ≡ n) × (result ≡ (returned os, record g { world = groups.release grp g.world })))
        ⊎ ((length os < n)
            × (((hr : HResult) × (g' : Host W) × Refused groups grp (length os) g hr g'
                  × (result ≡ (
                    raised (call_failed hr),
                    record g' { world = groups.release grp g'.world },
                  )))
                ⊎ ((e : ScriptError) × (g' : Host W) × Made groups grp alloc (length os) g
                      (raised e) g'
                    × (result ≡ lost e g')))))

-- In Lua and Ruby the error is raised as it is, and the group is still held.
abbrev pub escapes : {W : Type 0} → ScriptError → Host W → Outcome (List TypedObject) × Host W
escapes e h = (raised e, h)

-- In Python it is raised as E_OUTOFMEMORY, and the group is released.
abbrev pub out_of_memory :
    {W : Type 0} → SymbolGroups W → ℕ → ScriptError → Host W → Outcome (List TypedObject) × Host W
out_of_memory groups grp e h =
    (raised (call_failed e_outofmemory), record h { world = groups.release grp h.world })

module _ {W : Type 0} (groups : SymbolGroups W) (grp : ℕ) (alloc : Allocate W) (on_error : OnError)
    (lost : ScriptError → Round (List TypedObject))
    (stops : (e : ScriptError) (rest : Host W → Round (List TypedObject) × Host W) (h : Host W)
      → after_round (on_error e) rest h ≡ (lost e, h))
    (passes : (o : TypedObject) (e : ScriptError) → add_object o (lost e) ≡ lost e) where
  released-Enumerated :
      (n : ℕ) (h : Host W) (s : Round (List TypedObject) × Host W)
      → Ends groups grp alloc on_error lost stops passes 0 n h s
      → Enumerated groups grp alloc
          (λ e g. released groups grp (lost e) g)
          n
          h
          (released groups grp s.0 s.1)
  unfolding released
  released-Enumerated n h s (os, g, ms, inl (all, e)) =
      (os, g, ms, inl (all, ap (λ t. released groups grp t.0 t.1) e))
  released-Enumerated n h s (os, g, ms, inr (fewer, inl (hr, g', refused, e))) = (
    os,
    g,
    ms,
    inr (
      fewer,
      inl (
        hr,
        g',
        subst (λ k. Refused groups grp k g hr g') (omega arith) refused,
        ap (λ t. released groups grp t.0 t.1) e,
      ),
    ),
  )
  released-Enumerated n h s (os, g, ms, inr (fewer, inr (x, g', lost_, e))) = (
    os,
    g,
    ms,
    inr (
      fewer,
      inr (
        x,
        g',
        subst (λ k. Made groups grp alloc k g (raised x) g') (omega arith) lost_,
        ap (λ t. released groups grp t.0 t.1) e,
      ),
    ),
  )

module _ {W : Type 0} (svc : Services W) (sys : SystemObjects W) (groups : SymbolGroups W)
    (f : FrameObject) (flags : ℕ) where
  abbrev pub counting : Exec (Host W) (ℕ × ℕ)
  counting = util_count_stack_frame_variables sys svc.syms groups f.thread f.frame flags

  module _ (h : Host W) (n grp : ℕ) (calm : util_check_abort svc.control h.world ≡ false)
      (counted : (counting h).0 ≡ ok (n, grp)) where
    get_variables-loop :
        (alloc : Allocate W) (on_error : OnError)
        → get_variables groups alloc on_error svc sys f flags h ≡ (
            let s = variables_from groups alloc on_error grp 0 n (counting h).1 in
            released groups grp s.0 s.1)
    unfolding get_variables
    get_variables-loop alloc on_error =
        let rest : ℕ × ℕ → Script W (List TypedObject) = λ c k.
          let (r, k') = variables_from groups alloc on_error c.1 0 c.0 k in
          released groups c.1 r k' in
        calm_pass svc.control (calling counting >>= rest) h calm
        ∙ bind-calling counting rest h (n, grp) counted

    get_variables-released :
        (alloc : Allocate W) (on_error : OnError) (lost : ScriptError → Round (List TypedObject))
        → ((e : ScriptError) (rest : Host W → Round (List TypedObject) × Host W) (k : Host W)
            → after_round (on_error e) rest k ≡ (lost e, k))
        → ((o : TypedObject) (e : ScriptError) → add_object o (lost e) ≡ lost e)
        → Enumerated groups grp alloc
            (λ e g. released groups grp (lost e) g)
            n
            (counting h).1
            (get_variables groups alloc on_error svc sys f flags h)
    get_variables-released alloc on_error lost stops passes =
        let h1 = (counting h).1 in
        subst (Enumerated groups grp alloc (λ e g. released groups grp (lost e) g) n h1)
          (sym (get_variables-loop alloc on_error))
          (released-Enumerated groups grp alloc on_error lost stops passes n h1
            (variables_from groups alloc on_error grp 0 n h1)
            (loop-Ends groups grp alloc on_error lost stops passes n 0 h1))

    -- When the user does not interrupt and the frame's group counts `n` variables: in all three
    -- languages the call makes the objects of the places from 0 on, in order, each of the entry and
    -- the name at its place. It gives all `n` of them and has released the group; or a place is
    -- refused, and the call raises its code and has released the group; or making an object fails,
    -- and then Python raises E_OUTOFMEMORY and has released the group, while Lua and Ruby raise the
    -- error itself and the group is still held.
    pub get_variables-Enumerated :
        Enumerated groups grp
          (lua_alloc_new_typed_object svc)
          escapes
          n
          (counting h).1
          (lua_get_variables svc sys groups f flags h)
        × Enumerated groups grp
            (python_alloc_typed_object svc)
            (out_of_memory groups grp)
            n
            (counting h).1
            (python_get_variables svc sys groups f flags h)
        × Enumerated groups grp
            (ruby_alloc_typed_object svc)
            escapes
            n
            (counting h).1
            (ruby_get_variables svc sys groups f flags h)
    unfolding lua_get_variables python_get_variables ruby_get_variables released
    get_variables-Enumerated = (
      get_variables-released _ lua_on_error (λ e. jumped e) (λ e rest k. refl) (λ o e. refl),
      get_variables-released _ python_on_error (λ e. failed_with e_outofmemory) (λ e rest k. refl)
          (λ o e. refl),
      get_variables-released _ ruby_on_error (λ e. jumped e) (λ e rest k. refl) (λ o e. refl),
    )
