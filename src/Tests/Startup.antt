-- ===== src/Tests/Startup.antt =====
-- The registration of providers, run on a registry with two values.
use dbgscript.Base.{
  ◌+◌, ◌≡◌, refl, some, List, [], ◌∷◌, codes, length, arith, text_eq, false, ◌==◌, if◌then◌else◌,
}
use dbgscript.Exec.{s_ok}
use dbgscript.Extension.{ScriptProviderInfo}
use dbgscript.Extension.Providers.{provider_at}
use dbgscript.Extension.Registration.{RegValue, Registry, info_of, register_script_providers}
use dbgscript.Extension.Registration.Listed.{register_finds_last}
use dbgscript.Tests.World.{Machine, copy_text, host}

abbrev lua_value : RegValue
lua_value = record { val_name = codes "lua"; val_type = 1; data_text = codes "lua.dll" }

abbrev ruby_value : RegValue
ruby_value = record { val_name = codes "rb"; val_type = 1; data_text = codes "ruby.dll" }

abbrev registry : Registry Machine
registry = record {
  open_key = λ w. (0, w);
  enum_value = λ i w.
      if i == 0 then (0, lua_value) else if i == 1 then (0, ruby_value) else (259, lua_value);
  close_key = λ w. record w { callbacks = 6 };
}

names_differ : text_eq (codes "rb") (codes "lua") ≡ false
unfolding text_eq
names_differ = refl

register_finds_last_example :
    (infos' : List ScriptProviderInfo) × (register_script_providers copy_text registry 3 [] host
      ≡ some (s_ok, infos', record host { world = registry.close_key host.world }))
    × (length infos' ≡ 2 + 0)
    × (provider_at (codes "lua") infos' ≡ some (1, info_of copy_text lua_value))
register_finds_last_example =
    register_finds_last copy_text registry [] (ruby_value ∷ []) lua_value [] host 3 refl
      (refl, (refl, refl)) (refl, (refl, tt)) (names_differ, tt) (omega arith)
