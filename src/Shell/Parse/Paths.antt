-- ===== src/Shell/Parse/Paths.antt =====
-- The command that a sequence of words names, with no memory in sight.
use wio_lite_ai.Base.{
  ℕ, ◌+◌, ◌≡◌, refl, arith, ◌⊎◌, ◌&&◌, Bool, true, false, Option, none, some, List, [], ◌∷◌, ◌++◌,
  ◌==◌, if◌then◌else◌, Mem, CStr, NonNul, Bool-cases, inl, inr, subst,
}
use wio_lite_ai.Shell.Parse.Tree.{
  Cmd, cmd, CmdSet, null, set, Cmds, nil, entry, name, subcmds, str_eq, match_root, match_sub,
}

unfoldable pub name_eq : List ℕ → List ℕ → Bool
name_eq [] [] = true
name_eq (c ∷ cs) (d ∷ ds) = d == c && name_eq cs ds
name_eq _ _ = false

unfoldable pub find_root : Cmds → List ℕ → Option Cmd
find_root nil w = none
find_root (entry c cs) w = elim (name c) [
  | none ↦ find_root cs w
  | some n ↦ if name_eq n w then some c else find_root cs w
]

unfoldable pub find_sub : Cmds → List ℕ → Option Cmd
find_sub nil w = none
find_sub (entry c cs) w = elim (name c) [
  | none ↦ none
  | some n ↦ if name_eq n w then some c else find_sub cs w
]

-- No name in the tree holds a NUL.
abbrev pub NameOk : Option (List ℕ) → Type 0
NameOk none = Unit {0}
NameOk (some n) = NonNul n

abbrev mutual
  pub CmdOk : Cmd → Type 0
  CmdOk (cmd n s h l u) = NameOk n × CmdSetOk s

  pub CmdSetOk : CmdSet → Type 0
  CmdSetOk null = Unit {0}
  CmdSetOk (set cs) = CmdsOk cs

  pub CmdsOk : Cmds → Type 0
  CmdsOk nil = Unit {0}
  CmdsOk (entry c cs) = CmdOk c × CmdsOk cs

-- The words name a root command and then subcommands, each of the one before.
pub data CmdPath (roots : Cmds) : List (List ℕ) → Cmd → Type 0 where
  root : (w : List ℕ) {c : Cmd} → find_root roots w ≡ some c → CmdPath roots (w ∷ []) c
  sub :
      {ws : List (List ℕ)} {c d : Cmd} (w : List ℕ) (cs : Cmds) {ws' : List (List ℕ)}
      → CmdPath roots ws c
      → subcmds c ≡ set cs
      → find_sub cs w ≡ some d
      → ws' ≡ ws ++ w ∷ []
      → CmdPath roots ws' d

-- The walk stopped for a reason: no subcommands, no word left, or a word that names none of them.
abbrev pub Deepest : Cmd → List (List ℕ) → Type 0
Deepest c args =
    (subcmds c ≡ null)
    ⊎ (args ≡ [])
    ⊎ ((cs : Cmds) × (w : List ℕ) × (rest : List (List ℕ)) × (subcmds c ≡ set cs)
        × (args ≡ w ∷ rest)
        × (find_sub cs w ≡ none))

pub str_eq-name_eq :
    (n w : List ℕ) (m : Mem) (p : ℕ) → NonNul n → CStr m p w → str_eq m n p ≡ name_eq n w
unfolding str_eq name_eq
str_eq-name_eq [] [] m p z s = ground arith
str_eq-name_eq [] (d ∷ ds) m p z s = ground arith
str_eq-name_eq (c ∷ cs) [] m p z s = ground arith
str_eq-name_eq (c ∷ cs) (d ∷ ds) m p z s = ground (arith, str_eq-name_eq cs ds m (p + 1) z.1 s.2)

pub match_root-find_root :
    (cs : Cmds) (w : List ℕ) (m : Mem) (p : ℕ)
    → CmdsOk cs
    → CStr m p w
    → match_root m cs p ≡ find_root cs w
unfolding match_root find_root
match_root-find_root nil w m p z s = refl
match_root-find_root (entry (cmd none ss h l u) cs) w m p z s = match_root-find_root cs w m p z.1 s
match_root-find_root (entry (cmd (some n) ss h l u) cs) w m p z s =
    ground (arith, str_eq-name_eq n w m p z.0.0 s, match_root-find_root cs w m p z.1 s)

pub match_sub-find_sub :
    (cs : Cmds) (w : List ℕ) (m : Mem) (p : ℕ)
    → CmdsOk cs
    → CStr m p w
    → match_sub m cs p ≡ find_sub cs w
unfolding match_sub find_sub
match_sub-find_sub nil w m p z s = refl
match_sub-find_sub (entry (cmd none ss h l u) cs) w m p z s = refl
match_sub-find_sub (entry (cmd (some n) ss h l u) cs) w m p z s =
    ground (arith, str_eq-name_eq n w m p z.0.0 s, match_sub-find_sub cs w m p z.1 s)

-- What is found in a well-named array is well named.
pub find_root-CmdOk :
    (cs : Cmds) (w : List ℕ) {c : Cmd} → CmdsOk cs → find_root cs w ≡ some c → CmdOk c
unfolding find_root
find_root-CmdOk nil w z e = cc
find_root-CmdOk (entry (cmd none ss h l u) cs) w z e = find_root-CmdOk cs w z.1 e
find_root-CmdOk (entry (cmd (some n) ss h l u) cs) w {c} z e = elim (Bool-cases (name_eq n w)) [
  | inl hit ↦ let e' : cmd (some n) ss h l u ≡ c = ground arith in subst CmdOk e' z.0
  | inr miss ↦ find_root-CmdOk cs w z.1 (ground arith)
]

pub find_sub-CmdOk :
    (cs : Cmds) (w : List ℕ) {c : Cmd} → CmdsOk cs → find_sub cs w ≡ some c → CmdOk c
unfolding find_sub
find_sub-CmdOk nil w z e = cc
find_sub-CmdOk (entry (cmd none ss h l u) cs) w z e = cc
find_sub-CmdOk (entry (cmd (some n) ss h l u) cs) w {c} z e = elim (Bool-cases (name_eq n w)) [
  | inl hit ↦ let e' : cmd (some n) ss h l u ≡ c = ground arith in subst CmdOk e' z.0
  | inr miss ↦ find_sub-CmdOk cs w z.1 (ground arith)
]
