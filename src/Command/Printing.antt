-- ===== src/Command/Printing.antt =====
-- `print_machine` and `print_environment` of devpipe/src/main.rs: the lines that they print.
use devpipe.Prelude.{
  map, ◌++◌, ◌∷◌, [], List, some, none, Option, ◌||◌, true, Bool, ◌-◌, suc, zero, ℕ, length,
  if◌then◌else◌,
}
use devpipe.Prelude.Text.{is_empty, text_eq, codes, split, Text}
use devpipe.Proto.Messages.{HostInfo, EnvInfo, PortMap, SessionInfo}
use devpipe.Prelude.Text.Decimal.{show_u16}
use devpipe.Prelude.Result.{ok, err, Result}

-- `{:<n}`
abbrev pub spaces : ℕ → Text
spaces zero = []
spaces (suc n) = b' ' ∷ spaces n

unfoldable pub pad : ℕ → Text → Text
pad n s = s ++ spaces (n - length s)

abbrev pub join : Text → List Text → Text
join between [] = []
join between (s ∷ []) = s
join between (s ∷ t ∷ ss) = s ++ (between ++ join between (t ∷ ss))

-- `a.rsplit('/').next().unwrap_or(a)`
abbrev pub last_of : Text → List Text → Text
last_of s [] = s
last_of s (t ∷ ts) = last_of t ts

unfoldable pub base_name : Text → Text
base_name a = last_of a (split b'/' a)

abbrev pub program_of : List Text → Text
program_of [] = codes "session"
program_of (a ∷ argv) = base_name a

unfoldable pub session_line : SessionInfo → Text
session_line s =
    codes "    "
    ++ (pad 18 s.id ++ (codes " " ++ (if is_empty s.title then program_of s.argv else s.title)))

-- The arrow of the ports.
abbrev pub arrow : Text
arrow = b' ' ∷ 0x2192 ∷ codes " localhost:"

abbrev pub port_text : PortMap → Text
port_text p = show_u16 p.inside ++ (arrow ++ show_u16 p.outside)

abbrev pub memory_text : Option Text → Text
memory_text none = []
memory_text (some m) = codes "  [" ++ (m ++ codes "]")

unfoldable pub print_environment : EnvInfo → List Text
print_environment e =
    (codes "  "
      ++ (pad 20 e.name
          ++ (codes " "
              ++ (pad 9 e.status
                  ++ (codes " "
                      ++ (join (codes "  ") (map port_text e.ports) ++ memory_text e.memory))))))
    ∷ map session_line e.sessions

abbrev pub count_text : ℕ → Text
count_text zero = codes "empty"
count_text (suc zero) = codes "1 environment"
count_text n = show_u16 n ++ codes " environments"

abbrev pub lending : List Text → List Text
lending [] = []
lending (s ∷ ss) = (codes "  lending " ++ join (codes " ") (s ∷ ss)) ∷ []

-- The environment that the path names, or every one.
abbrev pub is_wanted : Option Text → EnvInfo → Bool
is_wanted none e = true
is_wanted (some wanted) e = text_eq wanted e.name || text_eq wanted e.id

abbrev pub print_each : Option Text → List EnvInfo → List Text
print_each only [] = []
print_each only (e ∷ es) =
    let rest = print_each only es in if is_wanted only e then print_environment e ++ rest else rest

abbrev pub print_environments : Text → Option Text → List EnvInfo → List Text
print_environments name only [] = (codes "  devpipe new " ++ (name ++ codes "/<name>")) ∷ []
print_environments name only (e ∷ es) = print_each only (e ∷ es)

unfoldable pub print_machine : Text → HostInfo → Option Text → List Text
print_machine name host only =
    (name
      ++ (codes "   "
          ++ (host.backend ++ (b' ' ∷ 0xb7 ∷ b' ' ∷ count_text (length host.environments)))))
    ∷ (lending host.secrets ++ print_environments name only host.environments)

abbrev pub unreachable : Text → Text → List Text
unreachable name why = name ∷ (codes "  unreachable " ++ (0x2014 ∷ b' ' ∷ why)) ∷ []

-- One machine of the tree.
abbrev pub print_seen : Option Text → Text × Result Text HostInfo → List Text
print_seen only (name, err why) = unreachable name why
print_seen only (name, ok host) = print_machine name host only

-- A line between each two.
abbrev pub between_blank : List (List Text) → List Text
between_blank [] = []
between_blank (p ∷ []) = p
between_blank (p ∷ q ∷ ps) = p ++ ([] ∷ between_blank (q ∷ ps))

-- What `tree` prints of the machines it looked at, each at its answer.
unfoldable pub print_tree : Option Text → List (Text × Result Text HostInfo) → List Text
print_tree only seen = between_blank (map (print_seen only) seen)
