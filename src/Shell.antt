-- ===== src/Shell.antt =====
-- `cmd_modtest` of app/modloader/modloader_shell.c: the shell command that runs the loader by hand. The
-- arguments are `argv`, the command's own name first. What is printed is left out; the exit code is a
-- bit pattern.
pub mod Exits
use lk_modloader.Base.{
  ℕ, ◌-◌, ◌^◌, List, [], ◌∷◌, ◌++◌, Option, none, some, Bool, true, false, not, ◌&&◌, ◌||◌, ◌==◌,
  ltb, str_eq, if◌then◌else◌,
}
use lk_modloader.Outcome.{Outcome, done, fail, fault, out_of_fuel}
use lk_modloader.Action.{Action, ◌>>=◌, ◌>>◌, pure, gets}
use lk_modloader.Elf.{Elf, Name}
use lk_modloader.Kernel.{Kernel}
use lk_modloader.World.{World, ask}
use lk_modloader.Api.{
  Payloads, image_exec, image_rel, image_sym, image_import, flag_resolve_exports, load_image,
  load_uri, run, unload, wx_verify, lookup_symbol, is_rel,
}

-- The subcommands.
abbrev pub word_load : Name
word_load = b'l' ∷ b'o' ∷ b'a' ∷ b'd' ∷ []

abbrev word_run : Name
word_run = b'r' ∷ b'u' ∷ b'n' ∷ []

abbrev suffix_rel : Name
suffix_rel = b'r' ∷ b'e' ∷ b'l' ∷ []

abbrev suffix_sym : Name
suffix_sym = b's' ∷ b'y' ∷ b'm' ∷ []

abbrev suffix_import : Name
suffix_import = b'i' ∷ b'm' ∷ b'p' ∷ b'o' ∷ b'r' ∷ b't' ∷ []

abbrev word_loadfile : Name
word_loadfile = word_load ++ b'f' ∷ b'i' ∷ b'l' ∷ b'e' ∷ []

abbrev word_callsym : Name
word_callsym = b'c' ∷ b'a' ∷ b'l' ∷ b'l' ∷ suffix_sym

abbrev word_unload : Name
word_unload = b'u' ∷ b'n' ∷ word_load

abbrev word_wxcheck : Name
word_wxcheck = b'w' ∷ b'x' ∷ b'c' ∷ b'h' ∷ b'e' ∷ b'c' ∷ b'k' ∷ []

abbrev word_info : Name
word_info = b'i' ∷ b'n' ∷ b'f' ∷ b'o' ∷ []

pub data Subcommand : Type 0 where
  -- An embedded image and its flags; a file and its flags.
  load_embedded_image : ℕ → ℕ → Subcommand
  load_file_image : ℕ → Subcommand
  run_module call_symbol unload_module check_pages show_info unknown_word : Subcommand

-- The tests of `argv[1]`, in the order of the source.
unfoldable pub subcommand : Name → Subcommand
subcommand word =
    if str_eq word word_load
    then load_embedded_image image_exec 0
    else if str_eq word (word_load ++ suffix_rel)
    then load_embedded_image image_rel 0
    else if str_eq word (word_load ++ suffix_sym)
    then load_embedded_image image_sym flag_resolve_exports
    else if str_eq word (word_load ++ suffix_import)
    then load_embedded_image image_import flag_resolve_exports
    else if str_eq word (word_loadfile ++ suffix_rel)
    then load_file_image 0
    else if str_eq word (word_loadfile ++ suffix_sym)
    then load_file_image flag_resolve_exports
    else if str_eq word word_run
        || str_eq word (word_run ++ suffix_rel)
        || str_eq word (word_run ++ suffix_sym)
        || str_eq word (word_run ++ suffix_import)
    then run_module
    else if str_eq word word_callsym
    then call_symbol
    else if str_eq word word_unload
    then unload_module
    else if str_eq word word_wxcheck
    then check_pages
    else if str_eq word word_info
    then show_info
    else unknown_word

-- The exit codes 0 and -1.
abbrev pub exit_ok : ℕ
exit_ok = 0

abbrev pub exit_error : ℕ
exit_error = 2 ^ 32 - 1

-- `ret < 0 && ret > -256`
unfoldable pub is_error_code : ℕ → Bool
is_error_code ret = ltb (2 ^ 32 - 256) ret && ltb ret (2 ^ 32)

abbrev pub exit_status : Outcome (Unit {0}) → Outcome ℕ
exit_status (done u) = done exit_ok
exit_status (fail e) = done exit_error
exit_status fault = fault
exit_status out_of_fuel = out_of_fuel

-- `return (err < 0) ? -1 : 0;`
unfoldable pub exit_code : {S : Type 0} → Action S (Unit {0}) → Action S ℕ
exit_code m s = (exit_status (m s).0, (m s).1)

abbrev pub run_status : Outcome ℕ → Outcome ℕ
run_status (done ret) = done (if is_error_code ret then exit_error else exit_ok)
run_status (fail e) = done exit_error
run_status fault = fault
run_status out_of_fuel = out_of_fuel

-- What is done with the value of `modloader_run`; its own error code lies in the same range.
unfoldable pub run_exit : {S : Type 0} → Action S ℕ → Action S ℕ
run_exit m s = (run_status (m s).0, (m s).1)

module _ (k : Kernel) where
  -- `callsym`, with the name of the symbol.
  unfoldable pub call_sym : Name → Action (World k) ℕ
  call_sym name = do
    module' ← gets (λ w. w.current)
    addr ← gets (lookup_symbol k (some name))
    if not module'.loaded || not (is_rel k module'.kind) || addr == 0
        then pure exit_error
        else (do ret ← ask k (λ os. k.call os addr); pure exit_ok)

  -- `wxcheck`
  unfoldable pub wxcheck : Action (World k) ℕ
  wxcheck = do
    module' ← gets (λ w. w.current)
    if not module'.loaded then pure exit_error else exit_code (wx_verify k)

  -- A subcommand that needs an argument, without it.
  abbrev with_arg : List Name → (Name → Action (World k) ℕ) → Action (World k) ℕ
  with_arg [] f = pure exit_error
  with_arg (arg ∷ rest) f = f arg

  module _ (elf : Elf) (add_addr : ℕ) (p : Payloads) where
    -- The subcommand on the arguments that come after it.
    unfoldable pub perform : Subcommand → List Name → Action (World k) ℕ
    perform (load_embedded_image image flags) args =
        exit_code (load_image k elf add_addr p image flags)
    perform (load_file_image flags) args =
        with_arg args (λ path. exit_code (load_uri k elf add_addr p (some path) flags))
    perform run_module args = run_exit (run k)
    perform call_symbol args = with_arg args call_sym
    perform unload_module args = exit_code (unload k)
    perform check_pages args = wxcheck
    perform show_info args = pure exit_ok
    perform unknown_word args = pure exit_error

    unfoldable pub cmd_modtest : List Name → Action (World k) ℕ
    unfolding perform
    cmd_modtest [] = pure exit_error
    cmd_modtest (name ∷ []) = pure exit_error
    cmd_modtest (name ∷ word ∷ args) = perform (subcommand word) args
