-- ===== src/Cli/Signatures.antt =====
-- eest_replay/cli.py: the parameters of the commands' functions and the options that fill them.
use Prim.Native.Char.{Char}
use buildoor_tester.Base.{
  ◌≡◌, ap, Bool, true, false, ◌&&◌, get_or, List, [], ◌∷◌, map, flat, arith, String, code, str_eq,
  ◌==◌, if◌then◌else◌,
}
use buildoor_tester.Cli.Options.{
  Default, required, nothing, Declared, Parameter, Command, always, maybe, run_command,
  export_command, submit_command, bloat_command, recover_command,
}

-- How click names a parameter, if the decorator does not: by the first flag with two dashes, without
-- these, and with `_` in place of `-`.
abbrev is_dash : Char → Bool
is_dash c = code c == b'-'

abbrev underscored : String → String
underscored String.[] = String.[]
underscored (String.◌∷◌ c s) = String.◌∷◌ (if is_dash c then "_" else c) (underscored s)

abbrev is_long : String → Bool
is_long (String.◌∷◌ c (String.◌∷◌ d s)) = is_dash c && is_dash d
is_long _ = false

abbrev behind_dashes : String → String
behind_dashes (String.◌∷◌ c (String.◌∷◌ d s)) = underscored s
behind_dashes s = s

abbrev long_name : List String → String
long_name [] = ""
long_name (f ∷ fs) = if is_long f then behind_dashes f else long_name fs

abbrev pub name_of : Declared → String
name_of d = get_or d.named (long_name d.flags)

-- Whether the function may be given `None`.
abbrev gives_none : Default → Bool
gives_none nothing = true
gives_none _ = false

-- What click passes to the function: the argument, and then each option by its name.
abbrev pub passed_names : Command → List Parameter
passed_names c =
    let given =
      map (λ (d : Declared). record { name = name_of d; optional = gives_none d.default })
        c.options in
    if str_eq c.argument "" then given else always c.argument ∷ given

abbrev AbsentIn : String → List String → Type 0
AbsentIn w [] = Unit {0}
AbsentIn w (v ∷ vs) = (str_eq w v ≡ false) × AbsentIn w vs

abbrev pub AllDistinct : List String → Type 0
AllDistinct [] = Unit {0}
AllDistinct (w ∷ ws) = AbsentIn w ws × AllDistinct ws

abbrev pub flags_of : Command → List String
flags_of c = flat (λ (d : Declared). d.flags) c.options

-- The function takes what is passed to it, in the same order, and its annotations allow `None` where
-- that is passed; no flag belongs to two options.
abbrev pub Consistent : Command → Type 0
Consistent c = (passed_names c ≡ c.parameters) × AllDistinct (flags_of c)

-- The same for `submit`, if the annotation of `eoa_start` allowed `None`.
abbrev allowing : String → List Parameter → List Parameter
allowing name [] = []
allowing name (p ∷ ps) = (if str_eq p.name name then maybe name else p) ∷ allowing name ps

abbrev pub with_optional : String → Command → Command
with_optional name c = record c { parameters = allowing name c.parameters }

-- Whether a list of parameters has one of this name that allows `None`.
abbrev allows_none : String → List Parameter → Bool
allows_none name [] = false
allows_none name (p ∷ ps) = if str_eq p.name name then p.optional else allows_none name ps

eoa_start_is_passed_none : ¬ (passed_names submit_command ≡ submit_command.parameters)
unfolding submit_command
eoa_start_is_passed_none e =
    let differs : true ≡ false = ap (allows_none "eoa_start") e in cc differs

-- The functions of `run`, `export`, `bloat` and `recover` take what click passes to them, in the same
-- order and under the same names, and their annotations allow `None` exactly where an option that is
-- not given is passed as that. So does the function of `submit`, but for `eoa_start`: it is passed as
-- `None`, and its annotation does not allow that. In none of the commands a flag belongs to two options.
pub commands-Consistent :
    Consistent run_command
    × Consistent export_command
    × Consistent bloat_command
    × Consistent recover_command
    × Consistent (with_optional "eoa_start" submit_command)
    × (¬ (passed_names submit_command ≡ submit_command.parameters))
unfolding run_command export_command submit_command bloat_command recover_command
commands-Consistent =
    (ground arith, ground arith, ground arith, ground arith, ground arith, eoa_start_is_passed_none)

-- The flags of a command without which it ends with a usage error.
abbrev is_required : Default → Bool
is_required required = true
is_required _ = false

abbrev pub required_flags : Command → List String
required_flags c = flat (λ (d : Declared). if is_required d.default then d.flags else []) c.options
