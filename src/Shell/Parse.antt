-- ===== src/Shell/Parse.antt =====
-- cli_parse of shell/core/cli_parse.c: it tokenizes a line in place, walks the command tree,
-- captures a raw tail and checks the argument count. `argv` is the list of the addresses stored so
-- far, so that `argc` is its length; the NULL behind the last entry is not in it.
pub mod Tree
pub mod Paths
pub mod Walk
pub mod Sound
pub mod Root
pub mod Descent
pub mod Filled
pub mod Arguments
pub mod Correct
mod Tests
use Tree.{
  Cmd, CmdSet, null, set, Cmds, subcmds, handler, mandatory, optional, match_root, match_sub,
}
use wio_lite_ai.Base.{
  ℕ, zero, suc, ◌+◌, ◌-◌, ◌&&◌, ◌||◌, not, Bool, true, false, Option, none, some, List, [], ◌∷◌,
  ◌++◌, ◌==◌, leb, ltb, if◌then◌else◌, length, Mem,
}
use wio_lite_ai.Shell.Token.{
  Status, ok, empty, not_found, no_handler, wrong_args, too_many_tokens, nesting_too_deep, Next,
  line_end, token, failed, next_token, skip_spaces,
}

-- CLI_MAX_ARGC, CLI_MAX_SUBCMD_DEPTH and CLI_ARG_RAW; CLI_ARGV_CAP is `max_argc + 2`.
abbrev pub max_argc : ℕ
max_argc = 20

abbrev pub max_depth : ℕ
max_depth = 8

abbrev pub arg_raw : ℕ
arg_raw = 255

-- `struct cli_parse_result`; `base` is the index in `argv` of the handler's first argument.
pub record Out : Type 0 where
  pub command : Option Cmd
  pub base : Option ℕ
  pub argc : ℕ
  pub level : ℕ

abbrev pub zero_out : Out
zero_out = record { command = none; base = none; argc = 0; level = 0 }

pub record Result : Type 0 where
  pub status : Status
  pub out : Out
  pub argv : List ℕ
  pub mem : Mem

pub record State : Type 0 where
  pub mem : Mem
  pub rd : ℕ
  pub wr : ℕ
  pub argv : List ℕ

-- A part of the function goes on with a value or returns from the whole; `stuck` is no fuel.
pub data Flow {ℓ} (A : Type ℓ) : Type ℓ where
  go : A → Flow A
  exit : Result → Flow A
  stuck : Flow A

infixl 5 ◌>>=◌
abbrev pub ◌>>=◌ {ℓ κ} : {A : Type ℓ} {B : Type κ} → Flow A → (A → Flow B) → Flow B
go a >>= f = f a
exit r >>= f = exit r
stuck >>= f = stuck

abbrev pub early {ℓ} : {A : Type ℓ} → Status → State → Flow A
early e st = exit (record { status = e; out = zero_out; argv = st.argv; mem = st.mem })

-- Where the walk down the tree stops.
pub record Place : Type 0 where
  pub st : State
  pub command : Cmd
  pub level : ℕ

abbrev pub push : State → ℕ → Mem → ℕ → ℕ → State
push st tok m rd wr = record { mem = m; rd = rd; wr = wr; argv = st.argv ++ tok ∷ [] }

abbrev pub not_found_out : Out
not_found_out = record { command = none; base = some 0; argc = 1; level = 0 }

-- Token 0 names a root command.
pub root_command : ℕ → Cmds → State → Flow Place
root_command f roots st = elim (next_token f st.mem st.rd st.wr) [
  | none ↦ stuck
  | some (line_end rd) ↦ early empty st
  | some (failed e m) ↦ early e (record st { mem = m })
  | some (token tok m rd wr) ↦
      let st' = push st tok m rd wr in
      elim (match_root m roots tok) [
        | none ↦ exit (record { status = not_found; out = not_found_out; argv = st'.argv; mem = m })
        | some c ↦ go (record { st = st'; command = c; level = 1 })
      ]
]

-- `while (cmd->subcmds != NULL)`
pub descend : ℕ → State → Cmd → ℕ → Flow Place
descend zero st c level = stuck
descend (suc f) st c level = elim (subcmds c) [
  | null ↦ go (record { st = st; command = c; level = level })
  | set cs ↦ elim (next_token f st.mem st.rd st.wr) [
    | none ↦ stuck
    | some (line_end rd) ↦ go (record { st = record st { rd = rd }; command = c; level = level })
    | some (failed e m) ↦ early e (record st { mem = m })
    | some (token tok m rd wr) ↦ elim (leb max_argc (length st.argv)) [
      | true ↦ early too_many_tokens (record st { mem = m; rd = rd; wr = wr })
      | false ↦ elim (match_sub m cs tok) [
        | none ↦ go (record { st = push st tok m rd wr; command = c; level = level })
        | some sub ↦ elim (leb max_depth (level - 1)) [
          | true ↦ early nesting_too_deep (push st tok m rd wr)
          | false ↦ descend f (push st tok m rd wr) sub (level + 1)
        ]
      ]
    ]
  ]
]

-- `while (need > 0)`: the tokens that a raw command still requires.
pub read_needed : ℕ → ℕ → State → Flow State
read_needed f zero st = go st
read_needed f (suc need) st = elim (next_token f st.mem st.rd st.wr) [
  | none ↦ stuck
  | some (line_end rd) ↦ go (record st { rd = rd })
  | some (failed e m) ↦ early e (record st { mem = m })
  | some (token tok m rd wr) ↦ elim (leb max_argc (length st.argv)) [
    | true ↦ early too_many_tokens (record st { mem = m; rd = rd; wr = wr })
    | false ↦ read_needed f need (push st tok m rd wr)
  ]
]

-- The rest of the line as one argument, verbatim.
pub raw_tail : ℕ → ℕ → State → Flow State
raw_tail f argv_cap st = elim (skip_spaces f st.mem st.rd) [
  | none ↦ stuck
  | some rd ↦
      if st.mem rd == 0
      then go (record st { rd = rd })
      else if leb (argv_cap - 1) (length st.argv)
      then early too_many_tokens (record st { rd = rd })
      else go (record st { rd = rd; argv = st.argv ++ rd ∷ [] })
]

-- `for (;;)`: every remaining token is an argument.
pub read_all : ℕ → State → Flow State
read_all zero st = stuck
read_all (suc f) st = elim (next_token f st.mem st.rd st.wr) [
  | none ↦ stuck
  | some (line_end rd) ↦ go (record st { rd = rd })
  | some (failed e m) ↦ early e (record st { mem = m })
  | some (token tok m rd wr) ↦ elim (leb max_argc (length st.argv)) [
    | true ↦ early too_many_tokens (record st { mem = m; rd = rd; wr = wr })
    | false ↦ read_all f (push st tok m rd wr)
  ]
]

abbrev is_null : CmdSet → Bool
is_null null = true
is_null (set cs) = false

unfoldable pub is_raw : Cmd → Bool
is_raw c = optional c == arg_raw && is_null (subcmds c)

pub raw_arguments : ℕ → ℕ → Place → Flow State
raw_arguments f argv_cap p = do
  let c = p.command
  let need = if ltb 0 (mandatory c) then mandatory c - 1 else 0
  st ← read_needed f need p.st
  if leb (mandatory c) (length st.argv - (p.level - 1)) then raw_tail f argv_cap st else go st

pub arguments : ℕ → ℕ → Place → Flow State
unfolding raw_arguments
arguments f argv_cap p = if is_raw p.command then raw_arguments f argv_cap p else read_all f p.st

-- What is returned with the command resolved.
abbrev pub resolved : Status → Place → State → Result
resolved e p st = record {
  status = e;
  out = record {
    command = some p.command;
    base = some (p.level - 1);
    argc = length st.argv - (p.level - 1);
    level = p.level;
  };
  argv = st.argv;
  mem = st.mem;
}

-- The checks of the argument count at the end.
pub check_count : Place → State → Result
check_count p st =
    let n = length st.argv - (p.level - 1) in
    let c = p.command in
    if ltb n (mandatory c)
    then resolved wrong_args p st
    else if not (is_raw c) && ltb (mandatory c + optional c) n
    then resolved wrong_args p st
    else resolved ok p st

pub with_handler : ℕ → ℕ → Place → Flow Result
unfolding arguments check_count
with_handler f argv_cap p = elim (handler p.command) [
  | none ↦ exit (resolved no_handler p p.st)
  | some h ↦ do st ← arguments f argv_cap p; go (check_count p st)
]

pub parse_flow : ℕ → ℕ → Cmds → Mem → ℕ → Flow Result
unfolding root_command with_handler
parse_flow f argv_cap roots m line = do
  p ← root_command f roots (record { mem = m; rd = line; wr = line; argv = [] })
  q ← descend f p.st p.command p.level
  with_handler f argv_cap q

-- What the function returns, by whichever `return`; `none` if the fuel runs out.
pub returned : Flow Result → Option Result
returned (go r) = some r
returned (exit r) = some r
returned stuck = none

pub parse : ℕ → ℕ → Cmds → Mem → ℕ → Option Result
unfolding parse_flow returned
parse f argv_cap roots m line = returned (parse_flow f argv_cap roots m line)
