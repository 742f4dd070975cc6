-- ===== src/Command.antt =====
-- src/main.cpp, src/model.cpp: the arguments of the program, and the function that an instruction
-- calls. What such a function does is a parameter.
use net_cpp.Base.{
  ◌≡◌, refl, ◌∙◌, Bool, true, false, ◌&&◌, Option, none, some, List, [], ◌∷◌, ◌++◌, Bytes, codes,
  string_eq, take, drop, ℤ, if◌then◌else◌, arith, Bool-cases, inl, inr,
}
use net_cpp.Outcome.{Outcome, fault}

-- What the loop over `argv` fills.
pub record Arguments : Type 0 where
  pub instruct : Bytes
  pub config : List Bytes
  pub long_config : List Bytes
  pub target : List Bytes
  pub if_instruct : Bool

-- `sargv[i] == '-'`, where an empty text has a NUL.
unfoldable pub is_dash : Bytes → Bool
is_dash s = string_eq (take 1 s) (codes "-")

-- An argument in the loop: the second test comes behind the first, which is weaker.
unfoldable pub place_arg : Arguments → Bytes → Arguments
unfolding is_dash
place_arg a sargv =
    if is_dash sargv
    then record a { config = a.config ++ sargv ∷ [] }
    else if is_dash sargv && is_dash (drop 1 sargv)
    then record a { long_config = a.long_config ++ sargv ∷ [] }
    else if a.if_instruct
    then record a { instruct = sargv; if_instruct = false }
    else record a { target = a.target ++ sargv ∷ [] }

unfoldable pub place_args : Arguments → List Bytes → Arguments
unfolding place_arg
place_args a [] = a
place_args a (s ∷ ss) = place_args (place_arg a s) ss

-- The arguments behind the program's name.
unfoldable pub read_args : List Bytes → Arguments
unfolding place_args
read_args argv =
    place_args
      (record { instruct = []; config = []; long_config = []; target = []; if_instruct = true })
      argv

-- A function, which may throw a text.
abbrev pub Handler : Type 0
Handler = Arguments → Outcome ℤ

-- `instructions`: none for NULL.
pub record Instructions : Type 0 where
  pub construct : Option Handler
  pub update : Option Handler
  pub server : Option Handler
  pub client : Option Handler
  pub set : Option Handler
  pub init : Option Handler

-- What `main` does with an instruction.
pub data Reply : Type 0 where
  ran : Outcome ℤ → Reply
  function_not_found nothing senseless : Reply

-- A call under the test of a pointer: a call of NULL is undefined.
unfoldable pub call_if : Option Handler → Option Handler → Arguments → Reply
call_if none f a = function_not_found
call_if (some t) none a = ran fault
call_if (some t) (some f) a = ran (f a)

-- The chain of instructions: most of them test `update`.
unfoldable pub dispatch : Instructions → Arguments → Reply
unfolding call_if string_eq
dispatch istns a =
    if string_eq a.instruct (codes "construct")
    then call_if istns.construct istns.construct a
    else if string_eq a.instruct (codes "update")
    then call_if istns.update istns.update a
    else if string_eq a.instruct (codes "server")
    then call_if istns.update istns.server a
    else if string_eq a.instruct (codes "init")
    then call_if istns.update istns.init a
    else if string_eq a.instruct (codes "set")
    then call_if istns.update istns.set a
    else if string_eq a.instruct (codes "client")
    then call_if istns.update istns.client a
    else if string_eq a.instruct (codes "autoinit")
    then nothing
    else senseless

-- `argv` as `main` uses it.
unfoldable pub run_main : Instructions → List Bytes → Reply
unfolding read_args dispatch
run_main istns argv = dispatch istns (read_args argv)

-- `config_search` of model.cpp: a config is among those that were given.
unfoldable pub config_search : List Bytes → Bytes → Bool
unfolding string_eq
config_search [] tfg = false
config_search (c ∷ configs) tfg = if string_eq c tfg then true else config_search configs tfg

place_arg-long_config : (a : Arguments) (s : Bytes) → (place_arg a s).long_config ≡ a.long_config
unfolding place_arg
place_arg-long_config a s = elim (Bool-cases (is_dash s)) [
  | inl e ↦ rw e refl
  | inr e ↦ ground (arith, e)
]

-- No argument is a long one: those that begin with two dashes are taken for short ones.
pub place_args-long_config :
    (ss : List Bytes) (a : Arguments) → (place_args a ss).long_config ≡ a.long_config
unfolding place_args
place_args-long_config [] a = refl
place_args-long_config (s ∷ ss) a =
    place_args-long_config ss (place_arg a s) ∙ place_arg-long_config a s
