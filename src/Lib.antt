-- ===== src/Lib.antt =====
-- A model of DbgScript, the scripting extension of the Windows debugger engine (DbgEng), and what
-- holds of it.
--
-- The program is a host DLL (src/dllmain.cpp, src/cmdline.cpp), a support library (src/support) that
-- the script providers share, and one provider for each language. A script's calls reach the support
-- library through its provider; the support library asks the engine, keeps what it learnt in caches,
-- and gathers the script's output in the buffer of the host context (include/hostcontext.h).
--
-- Parts and files. Functions keep the names of the source in snake case: `util_buffer_output` is
-- `UtilBufferOutput`.
--   Base, Exec     shared helpers; HRESULTs, results, and actions that may leave by `goto exit`
--   Engine         the interfaces of DbgEng and of the file system that the program calls
--   Platform       the bounded string copy of the Windows SDK
--   Console        the message buffer of src/support/util.cpp; Console/Errors is include/dserrors.h
--   Host           include/hostcontext.h
--   SymCache       src/support/symcache.cpp and symcache.h
--   AutoSwitch     the guards CAutoSwitchThread and CAutoSwitchStackFrame of src/support/util.cpp
--   Frames         src/support/dsthread.cpp, src/support/dsstackframe.cpp, and the enumerations of
--                  threads and of variables of src/support/util.cpp
--   Execute        src/support/outputcallback.cpp, CAutoSetOutputCallback and UtilExecuteCommand
--   ReadString     UtilReadWideString, UtilReadAnsiString and the small reads of src/support/util.cpp
--   FindScript     UtilFindScriptFile and UtilFileExists
--   TypeInfo       UtilGetFieldOffset, UtilGetTypeSize and UtilGetNearestSymbol
--   TypedObject    src/support/dstypedobject.cpp
--   Cmdline        src/cmdline.cpp and src/cmdline.h
--   Extension      src/dllmain.cpp: Ifaces (the engine's interfaces), Providers (loading, finding and
--                  unloading), Registration (the registry, set-up and tear-down), ScriptPath (the
--                  command scriptpath), Commands (runscript, evalstring, startvm, stopvm)
--   Script         what the providers share: errors in scripts, and the tests of IsBuffering
--   Transcript     the printing, starting and stopping of scripts in any order
--   Values         the union of include/dstypedobject.h and the values that each language makes of it
--   Objects        the calls on typed objects that the three typedobject.cpp share
--   Functions      the functions of the module that scripts import, which the three dbgscript.cpp share
--   Stacks         threads and stack frames in scripts, which the three thread.cpp and stackframe.cpp
--                  share
--   Running        what the three providers share when they run scripts
--   Lua            src/luaprov: Output, Input, Properties (classprop.cpp), TypedObject and Index
--                  (typedobject.cpp), Functions (dbgscript.cpp), Stacks (thread.cpp, stackframe.cpp),
--                  Running (luascriptprovider.cpp)
--   Python         src/pythonprov: Output, TypedObject, Functions, Stacks, Running
--                  (pythonscriptprovider.cpp, dbgscriptio.cpp)
--   Ruby           src/rubyprov: Output, TypedObject, Functions, Stacks, Running
--                  (rubyscriptprovider.cpp)
--   Tests          a small engine, and the theorems run on it
--
-- The engine is a parameter: each interface is a record of functions over a state `W`, of which
-- nothing is known but what a theorem names (ThreadLaws, FrameLaws, ClientLaws, ReadLaws, NameLaws,
-- CopyLaws). A failed call comes back as its HRESULT, with the state as it was then left. Pointers to
-- out-parameters are values that are taken and given back.
--
-- Bounds and fuel. Sizes and positions wrap at the width of their type where the source's do. The
-- loops with fuel are that of ParseArgs and that of scriptpath over the commas, which are given the
-- length of their text, of which each round takes at least one character; and that over the registry,
-- for which one round for each value and one more is enough.
--
-- In Extension the providers' code is a parameter, and runs on the whole host context. Pointers
-- into the list of providers are places in it.
--
-- The runtimes of Lua, Python and Ruby are not modelled either: a call of a script is a function
-- that returns a value or raises an error. What a runtime puts into a new object, and what it
-- converts, is a parameter (Objects.Services, Functions.ModuleServices), and so are the functions
-- of the three libraries that start a runtime and run a script (LuaApi, PythonApi, RubyApi). An
-- error of the Lua and Ruby runtimes is a jump, also out of a callback.
--
-- Not modelled: null interfaces as a fault; the registration of classes with the three runtimes;
-- the memory statistics of the debug runtime and the reference counts of Python; the COM plumbing
-- of the callback object; the wording of messages.
pub mod Base
pub mod Console
pub mod Exec
pub mod Engine
pub mod Host
pub mod Platform
pub mod SymCache
pub mod AutoSwitch
pub mod Frames
pub mod Execute
pub mod ReadString
pub mod FindScript
pub mod TypeInfo
pub mod TypedObject
pub mod Cmdline
pub mod Extension
pub mod Values
pub mod Script
pub mod Objects
pub mod Functions
pub mod Stacks
pub mod Running
pub mod Lua
pub mod Python
pub mod Ruby
pub mod Transcript
pub mod Tests
